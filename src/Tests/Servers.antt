-- ===== src/Tests/Servers.antt =====
-- A server of net/src/tcpserver.cpp to which two connections come, of which the first is closed.
use qinyunserver.Base.{◌≡◌, refl, Option, none, some, List, [], ◌∷◌, ◌++◌, arith, inr}
use qinyunserver.Net.Channel.{is_none_event, fresh}
use qinyunserver.Net.Connection.{
  Connection, handle_close, connect_established, connect_destroyed, create,
}
use qinyunserver.Net.Pool.{TcpServer, get_next_loop, on_new_connection, remove_connection_in_loop}
use qinyunserver.Net.Pool.Connections.{IsValid}
use qinyunserver.Net.Server.{
  Task, established, remove_in_loop, destroyed, System, on_connection, run_task, accept, closes,
  handle, accepts, happens, runs, new_system, Reach, start, later, apply_effects, remove_connection,
  release, destroy_server,
}
use qinyunserver.Net.Server.Lifecycle.{Reach-runs, destroy_server-fails, Reach-IsSettled, IsSettled}

abbrev server : TcpServer
server = record {
  pool = record { base_loop = 9; thread_num = 2; loops = 10 ∷ 11 ∷ []; next_idx = 0 };
  next_conn_id = 1;
  connections = [];
}

server-IsValid : IsValid server
server-IsValid = record { ready = inr (omega arith); below = tt; distinct = tt }

abbrev or_new : Option System → System
or_new none = new_system server
or_new (some s) = s

abbrev one_waits : System
one_waits = or_new (accept 20 (new_system server))

abbrev two_wait : System
two_wait = or_new (accept 21 one_waits)

abbrev one_open : System
one_open = or_new (run_task (established 1) (record two_wait { tasks = established 2 ∷ [] }))

abbrev two_open : System
two_open = or_new (run_task (established 2) (record one_open { tasks = [] }))

abbrev one_closed : System
one_closed = or_new (on_connection 1 (handle closes) two_open)

abbrev one_leaves : System
one_leaves = or_new (run_task (remove_in_loop 1) (record one_closed { tasks = [] }))

abbrev one_gone : System
one_gone = or_new (run_task (destroyed 1) (record one_leaves { tasks = [] }))

abbrev first : Connection
first = elim (two_open.object 1) [ none ↦ create 20 1 | some c ↦ c ]

two_wait-Reach : Reach server two_wait
unfolding accept on_new_connection get_next_loop
two_wait-Reach = later (later start (accepts 20 (omega arith) refl)) (accepts 21 (omega arith) refl)

two_open-Reach : Reach server two_open
unfolding accept on_new_connection get_next_loop run_task connect_established create
two_open-Reach =
    later (later two_wait-Reach (runs (established 1) [] (established 2 ∷ []) refl refl))
      (runs (established 2) [] [] refl refl)

one_gone-Reach : Reach server one_gone
unfolding accept on_new_connection get_next_loop run_task connect_established create handle
    handle_close apply_effects remove_connection remove_connection_in_loop connect_destroyed release
    is_none_event fresh
one_gone-Reach =
    later
      (later (later two_open-Reach (happens 1 closes first refl refl refl refl))
        (runs (remove_in_loop 1) [] [] refl refl))
      (runs (destroyed 1) [] [] refl refl)

Reach-runs_example :
    ((s' : System) × (run_task (established 2) (record two_wait { tasks = established 1 ∷ [] })
        ≡ some s'))
    × ((s' : System) × (accept 22 two_wait ≡ some s'))
unfolding accept on_new_connection get_next_loop
Reach-runs_example =
    Reach-runs 22 (established 2) (established 1 ∷ []) [] server-IsValid refl two_wait-Reach refl

Reach-IsSettled_example : IsSettled one_gone 1
unfolding accept on_new_connection get_next_loop run_task connect_established create handle
    handle_close apply_effects remove_connection remove_connection_in_loop connect_destroyed release
Reach-IsSettled_example = Reach-IsSettled server-IsValid refl one_gone-Reach refl 1

destroy_server-fails_example :
    (before after : List Task) × ((destroy_server two_open).tasks ≡ before ++ destroyed 1 ∷ after)
    × (run_task (destroyed 1) (record (destroy_server two_open) { tasks = before ++ after }) ≡ none)
unfolding accept on_new_connection get_next_loop run_task connect_established create
destroy_server-fails_example =
    destroy_server-fails 1 first server-IsValid refl two_open-Reach refl refl
