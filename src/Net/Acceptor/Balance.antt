-- ===== src/Net/Acceptor/Balance.antt =====
-- Where the descriptors go that `Acceptor::handleRead` of net/src/acceptor.cpp gets.
use qinyunserver.Base.{
  ℕ, ◌+◌, ◌≡◌, refl, Bool, true, false, Option, none, some, List, [], ◌∷◌, ◌++◌, ◌==◌,
  if◌then◌else◌, Bool-cases, inl, inr, arith,
}
use qinyunserver.Net.Sockets.{Result, returned, failed, passes_on, accept}
use qinyunserver.Net.Acceptor.{
  Effect, gets, calls_new_connection, closes, Acceptor, descriptor, got, close, hand_over,
  is_emfile, make_room, handle_read,
}

abbrev one_if : Bool → ℕ
one_if b = if b then 1 else 0

-- How often the system gives a descriptor.
abbrev pub given : ℕ → List Effect → ℕ
given fd [] = 0
given fd (gets d ∷ es) = one_if (d == fd) + given fd es
given fd (_ ∷ es) = given fd es

-- How often a descriptor is closed or becomes the callback's.
abbrev pub gone : ℕ → List Effect → ℕ
gone fd [] = 0
gone fd (calls_new_connection d ∷ es) = one_if (d == fd) + gone fd es
gone fd (closes d ∷ es) = one_if (d == fd) + gone fd es
gone fd (gets d ∷ es) = gone fd es

-- How often the acceptor holds it in reserve.
abbrev pub held : ℕ → Option ℕ → ℕ
held fd none = 0
held fd (some d) = one_if (d == fd)

abbrev Balanced : ℕ → Option ℕ → Acceptor × List Effect → Type 0
Balanced fd reserve r = held fd reserve + given fd r.1 ≡ gone fd r.1 + held fd r.0.idle_fd

-- A result with which the wrapper of accept returns.
abbrev pub Returns : Result → Type 0
Returns (returned fd) = Unit {0}
Returns (failed errno) = passes_on errno ≡ true

hand_over-Balanced :
    (fd d : ℕ) (b : Bool) → given fd (hand_over b d) + one_if (d == fd) ≡ gone fd (hand_over b d)
unfolding hand_over
hand_over-Balanced fd d true = omega arith
hand_over-Balanced fd d false = omega arith

accept-Returns : (r : Result) → Returns r → accept r ≡ some r
unfolding accept
accept-Returns (returned fd) h = refl
accept-Returns (failed errno) h = rw h refl

abbrev made : Bool → Result → Option ℕ → Option ℕ → Acceptor × List Effect
made b second opened reserve = (
  record { new_conn_callback = b; idle_fd = opened },
  close reserve ++ (got (descriptor second) ++ (close (descriptor second) ++ got opened)),
)

made-Balanced :
    (fd : ℕ) (b : Bool) (second : Result) (opened reserve : Option ℕ)
    → Balanced fd reserve (made b second opened reserve)
made-Balanced fd b (returned d) none none = omega arith
made-Balanced fd b (returned d) none (some r) = omega arith
made-Balanced fd b (returned d) (some o) none = omega arith
made-Balanced fd b (returned d) (some o) (some r) = omega arith
made-Balanced fd b (failed f) none none = omega arith
made-Balanced fd b (failed f) none (some r) = omega arith
made-Balanced fd b (failed f) (some o) none = omega arith
made-Balanced fd b (failed f) (some o) (some r) = omega arith

make_room-Balanced :
    (fd : ℕ) (second : Result) (opened reserve : Option ℕ) (b : Bool)
    → Returns second
    → (r : Acceptor × List Effect) × (make_room second opened
          (record { new_conn_callback = b; idle_fd = reserve })
        ≡ some r)
      × Balanced fd reserve r
unfolding make_room
make_room-Balanced fd second opened reserve b h = (
  made b second opened reserve,
  rw (accept-Returns second h) refl,
  made-Balanced fd b second opened reserve,
)

-- Where accept gives no error that ends the process, `handleRead` comes to its end, no descriptor is
-- lost and none is closed twice, whatever accept and open return: as often as a descriptor was held in
-- reserve or is given by the system, so often it is handed to the callback, closed or held in reserve
-- afterwards.
pub handle_read-Balanced :
    (fd : ℕ) (first second : Result) (opened : Option ℕ) (a : Acceptor)
    → Returns first
    → Returns second
    → (r : Acceptor × List Effect) × (handle_read first second opened a ≡ some r)
      × (held fd a.idle_fd + given fd r.1 ≡ gone fd r.1 + held fd r.0.idle_fd)
unfolding handle_read
handle_read-Balanced fd (returned d) second opened a h k = (
  (a, gets d ∷ hand_over a.new_conn_callback d),
  rw (accept-Returns (returned d) h) refl,
  omega (arith, hand_over-Balanced fd d a.new_conn_callback),
)
handle_read-Balanced fd (failed errno) second opened a h k = elim (Bool-cases (is_emfile errno)) [
  | inl full ↦
      let (r, e, balanced) = make_room-Balanced fd second opened a.idle_fd a.new_conn_callback k in
      (r, rw (accept-Returns (failed errno) h, full) e, balanced)
  | inr other ↦ ((a, []), rw (accept-Returns (failed errno) h, other) refl, omega arith)
]
