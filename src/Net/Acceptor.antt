-- ===== src/Net/Acceptor.antt =====
-- net/src/acceptor.cpp and net/include/acceptor.h. What accept and open return are arguments, since
-- only the system knows; what the code does outside itself is the list of its effects, in order.
pub mod Balance
use qinyunserver.Net.Sockets.{Errno, emfile, Result, returned, failed, accept}
use qinyunserver.Net.Buffer.{◌>>=◌}
use qinyunserver.Base.{ℕ, Bool, true, false, Option, none, some, List, [], ◌∷◌, ◌++◌, if◌then◌else◌}

-- A descriptor that the system gives, one that goes to the callback, and one that is closed.
pub data Effect : Type 0 where
  gets calls_new_connection closes : ℕ → Effect

-- `none` is the descriptor -1.
pub record Acceptor : Type 0 where
  pub new_conn_callback : Bool
  pub idle_fd : Option ℕ

abbrev pub descriptor : Result → Option ℕ
descriptor (returned fd) = some fd
descriptor (failed e) = none

-- A descriptor that a call of the system returned.
abbrev pub got : Option ℕ → List Effect
got none = []
got (some fd) = gets fd ∷ []

-- `::close`, which does nothing to -1.
abbrev pub close : Option ℕ → List Effect
close none = []
close (some fd) = closes fd ∷ []

unfoldable pub hand_over : Bool → ℕ → List Effect
hand_over true fd = calls_new_connection fd ∷ []
hand_over false fd = closes fd ∷ []

abbrev pub is_emfile : Errno → Bool
is_emfile emfile = true
is_emfile _ = false

-- `handleRead` where accept has set errno to EMFILE, with what the second accept and open return.
unfoldable pub make_room : Result → Option ℕ → Acceptor → Option (Acceptor × List Effect)
make_room second opened a = accept second >>= λ result. some (
  record a { idle_fd = opened },
  close a.idle_fd ++ (got (descriptor result) ++ (close (descriptor result) ++ got opened)),
)

-- `handleRead`; `none` ends the process.
unfoldable pub handle_read : Result → Result → Option ℕ → Acceptor → Option (Acceptor × List Effect)
unfolding hand_over make_room
handle_read first second opened a = accept first >>= λ result. elim result [
  | returned fd ↦ some (a, gets fd ∷ hand_over a.new_conn_callback fd)
  | failed errno ↦ if is_emfile errno then make_room second opened a else some (a, [])
]
