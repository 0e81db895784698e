-- ===== src/Net/Pool/Connections.antt =====
-- The ids in the map of connections of net/src/tcpserver.cpp.
use qinyunserver.Base.{
  ℕ, zero, suc, ◌+◌, ◌<◌, ◌≡◌, ◌≢◌, refl, ◌⊎◌, inl, inr, Option, some, List, [], ◌∷◌, All, arith,
  length, ◌==◌, length-append, Bool-cases,
}
use qinyunserver.Net.Buffer.{◌>>=◌}
use qinyunserver.Net.Pool.{
  start, start_loops, new_tcp_server, start_server, Pool, Member, TcpServer, erase_id,
  on_new_connection, remove_connection_in_loop, get_next_loop,
}
use native.Mathlib.Nat.{mod-lt}
use qinyunserver.Net.Pool.RoundRobin.{get_next_loop-lt}

-- No id stands twice.
abbrev pub Distinct : List Member → Type 0
Distinct [] = Unit
Distinct (m ∷ ms) = All (λ k. k.id ≢ m.id) ms × Distinct ms

-- The pool can give a loop.
abbrev pub Ready : Pool → Type 0
Ready p = (p.thread_num ≡ 0) ⊎ ((0 < p.thread_num) × (p.next_idx < length p.loops))

-- The ids in the map are different and below the next one, and the pool can give a loop.
pub record IsValid (s : TcpServer) : Type 0 where
  pub ready : Ready s.pool
  pub below : All (λ m. m.id < s.next_conn_id) s.connections
  pub distinct : Distinct s.connections

get_next_loop-Ready :
    (p : Pool) → Ready p → (l : ℕ) × (p' : Pool) × (get_next_loop p ≡ some (l, p')) × Ready p'
unfolding get_next_loop
get_next_loop-Ready p (inl alone) = (p.base_loop, p, rw (alone, get_next_loop) refl, inl alone)
get_next_loop-Ready p (inr (t, h)) =
    let (l, e, got) = get_next_loop-lt p t h in
    (l, _, got, inr (t, mod-lt (p.next_idx + 1) (omega arith)))

All-erase_id : (P : Member → Type 0) (id : ℕ) (ms : List Member) → All P ms → All P (erase_id id ms)
All-erase_id P id [] h = tt
All-erase_id P id (m ∷ ms) h = elim (Bool-cases (m.id == id)) [
  | inl same ↦ rw same (All-erase_id P id ms h.1)
  | inr other ↦ rw other (h.0, All-erase_id P id ms h.1)
]

Distinct-erase_id : (id : ℕ) (ms : List Member) → Distinct ms → Distinct (erase_id id ms)
Distinct-erase_id id [] h = tt
Distinct-erase_id id (m ∷ ms) h = elim (Bool-cases (m.id == id)) [
  | inl same ↦ rw same (Distinct-erase_id id ms h.1)
  | inr other ↦ rw other (All-erase_id (λ k. k.id ≢ m.id) id ms h.0, Distinct-erase_id id ms h.1)
]

older :
    (n : ℕ) (ms : List Member)
    → All (λ m. m.id < n) ms
    → All (λ m. m.id < n + 1) ms × All (λ m. m.id ≢ n) ms
older n [] h = (tt, tt)
older n (m ∷ ms) h =
    let (a, b) = older n ms h.1 in ((omega (arith, h.0), a), ((λ e. omega (arith, h.0, e)), b))

-- `onNewConnection` of a valid server: the next id stands in the map, with a loop of the pool.
pub on_new_connection-IsValid :
    (s : TcpServer)
    → IsValid s
    → (s' : TcpServer) × (l : ℕ) × (on_new_connection s ≡ some s')
      × IsValid s'
      × (s'.next_conn_id ≡ s.next_conn_id + 1)
      × (s'.connections ≡ record { id = s.next_conn_id; loop = l } ∷ s.connections)
unfolding on_new_connection
on_new_connection-IsValid s v =
    let (l, pool, got, ready) = get_next_loop-Ready s.pool v.ready in
    let (below, fresh) = older s.next_conn_id s.connections v.below in
    (
      record s {
        pool = pool;
        next_conn_id = s.next_conn_id + 1;
        connections = record { id = s.next_conn_id; loop = l } ∷ s.connections;
      },
      l,
      rw got refl,
      record { ready = ready; below = (omega arith, below); distinct = (fresh, v.distinct) },
      refl,
      refl,
    )

pub remove_connection_in_loop-IsValid :
    (id : ℕ) (s : TcpServer) → IsValid s → IsValid (remove_connection_in_loop id s)
unfolding remove_connection_in_loop
remove_connection_in_loop-IsValid id s v = record {
  ready = v.ready;
  below = All-erase_id _ id s.connections v.below;
  distinct = Distinct-erase_id id s.connections v.distinct;
}

-- What happens to a server: a connection comes, or one leaves.
pub data Event : Type 0 where
  comes : Event
  leaves : ℕ → Event

abbrev pub run : List Event → TcpServer → Option TcpServer
run [] s = some s
run (comes ∷ es) s = on_new_connection s >>= λ s'. run es s'
run (leaves id ∷ es) s = run es (remove_connection_in_loop id s)

-- After any connections that come and leave no two in the map have the same id, and each id is below the
-- next one, so that it is never given again; a loop is found for each that comes.
pub run-IsValid :
    (es : List Event) (s : TcpServer)
    → IsValid s
    → (s' : TcpServer) × (run es s ≡ some s') × IsValid s'
run-IsValid [] s v = (s, refl, v)
run-IsValid (comes ∷ es) s v =
    let (s₁, l, came, v₁, next, more) = on_new_connection-IsValid s v in
    let (s₂, e, v₂) = run-IsValid es s₁ v₁ in (s₂, rw came e, v₂)
run-IsValid (leaves id ∷ es) s v =
    run-IsValid es (remove_connection_in_loop id s) (remove_connection_in_loop-IsValid id s v)

length-start_loops :
    (n : ℕ) (loop_of : ℕ → ℕ) (loops : List ℕ)
    → length (start_loops n loop_of loops) ≡ n + length loops
unfolding start_loops
length-start_loops zero loop_of loops = omega arith
length-start_loops (suc n) loop_of loops = omega (
  arith,
  length-start_loops n loop_of loops,
  length-append (start_loops n loop_of loops) (loop_of n ∷ []),
)

-- A server that was started, with any number of threads, is valid: its pool can give a loop.
pub start_server-IsValid :
    (count base_loop : ℕ) (loop_of : ℕ → ℕ)
    → IsValid (start_server count loop_of (new_tcp_server base_loop))
unfolding start_server start
start_server-IsValid zero base_loop loop_of = record { ready = inl refl; below = tt; distinct = tt }
start_server-IsValid (suc n) base_loop loop_of = record {
  ready = inr (omega arith, omega (arith, length-start_loops (suc n) loop_of []));
  below = tt;
  distinct = tt;
}
