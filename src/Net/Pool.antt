-- ===== src/Net/Pool.antt =====
-- The pool of loops of net/src/eventloop.cpp and the map of connections of net/src/tcpserver.cpp. A loop
-- is known by a number, its address.
pub mod RoundRobin
pub mod Connections
use qinyunserver.Base.{
  ℕ, zero, suc, ◌+◌, ◌%◌, Option, none, some, List, [], ◌∷◌, ◌++◌, ◌==◌, if◌then◌else◌, length,
  get_elem?,
}
use qinyunserver.Net.Buffer.{◌>>=◌}

pub record Pool : Type 0 where
  pub base_loop : ℕ
  pub thread_num : ℕ
  pub loops : List ℕ
  pub next_idx : ℕ

-- `EventLoopThreadPool`, and `setThreadNum`.
abbrev pub new_pool : ℕ → Pool
new_pool base_loop = record { base_loop = base_loop; thread_num = 0; loops = []; next_idx = 0 }

abbrev pub set_thread_num : ℕ → Pool → Pool
set_thread_num count p = record p { thread_num = count }

-- The loop of `start`: a thread gives each new loop.
unfoldable pub start_loops : ℕ → (ℕ → ℕ) → List ℕ → List ℕ
start_loops zero loop_of loops = loops
start_loops (suc n) loop_of loops = start_loops n loop_of loops ++ loop_of n ∷ []

unfoldable pub start : (ℕ → ℕ) → Pool → Pool
unfolding start_loops
start loop_of p = record p { loops = start_loops p.thread_num loop_of p.loops }

-- `getNextLoop`; `none` is an index outside the vector.
unfoldable pub get_next_loop : Pool → Option (ℕ × Pool)
get_next_loop p =
    if p.thread_num == 0 then some (p.base_loop, p) else elim (get_elem? p.loops p.next_idx) [
      | none ↦ none
      | some retval ↦ some (retval, record p { next_idx = (p.next_idx + 1) % length p.loops })
    ]

-- A connection in the map: its id and its loop.
pub record Member : Type 0 where
  pub id : ℕ
  pub loop : ℕ

pub record TcpServer : Type 0 where
  pub pool : Pool
  pub next_conn_id : ℕ
  pub connections : List Member

abbrev pub erase_id : ℕ → List Member → List Member
erase_id id [] = []
erase_id id (m ∷ ms) = let rest = erase_id id ms in if m.id == id then rest else m ∷ rest

-- The constructor, behind it `setThreadNum` and `start` without the task that it queues.
abbrev pub new_tcp_server : ℕ → TcpServer
new_tcp_server base_loop = record { pool = new_pool base_loop; next_conn_id = 1; connections = [] }

unfoldable pub start_server : ℕ → (ℕ → ℕ) → TcpServer → TcpServer
unfolding start
start_server count loop_of s = record s { pool = start loop_of (set_thread_num count s.pool) }

-- `onNewConnection`: the server behind it. The id is counted by fetch_add, which gives the old value.
unfoldable pub on_new_connection : TcpServer → Option TcpServer
on_new_connection s = get_next_loop s.pool >>= λ (ioloop, pool). some (record s {
  pool = pool;
  next_conn_id = s.next_conn_id + 1;
  connections = record { id = s.next_conn_id; loop = ioloop } ∷ s.connections;
})

-- `removeConnectionInLoop`, without the task that it queues.
unfoldable pub remove_connection_in_loop : ℕ → TcpServer → TcpServer
remove_connection_in_loop id s = record s { connections = erase_id id s.connections }
