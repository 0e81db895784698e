-- ===== src/Net/Server.antt =====
-- net/src/tcpserver.cpp with the connections of net/src/tcpconnection.cpp: how a connection comes to the
-- server, is closed and is destroyed, over the threads of all loops. A task of `runInLoop` or
-- `queueInLoop` waits in one collection, from which any task may be taken next: each order of the
-- loops is among these, and a call that is made at once is a task that is taken next. `none` is a
-- failed assertion.
pub mod Phases
pub mod Standing
pub mod Sound
pub mod Events
pub mod Lifecycle
use qinyunserver.Base.{
  ℕ, ◌+◌, ◌<◌, ◌^◌, ◌≡◌, Bool, true, false, ◌||◌, Option, none, some, List, [], ◌∷◌, ◌++◌, ◌==◌,
  if◌then◌else◌, map,
}
use qinyunserver.Net.Buffer.{Buffer, ReadResult, ◌>>=◌}
use qinyunserver.Net.Channel.{is_none_event}
use qinyunserver.Net.Poller.{update_at}
use qinyunserver.Net.Connection.{
  State, disconnected, Connection, Effect, updates_channel, removes_channel, calls_on_close,
  Outcome, WriteResult, create, send_in_loop, handle_close, handle_error, handle_read, handle_write,
  connect_established, connect_destroyed,
}
use qinyunserver.Net.Pool.{TcpServer, on_new_connection, remove_connection_in_loop}

pub data Task : Type 0 where
  established remove_in_loop destroyed : ℕ → Task

-- The server, the objects that are alive by their ids, whose channel a poller has in its map, for which
-- the index of the channel is KNew, and the tasks. A poller knows a channel by its descriptor; those of the
-- objects that are alive are different, as the kernel gives them.
pub record System : Type 0 where
  pub server : TcpServer
  pub object : ℕ → Option Connection
  pub registered : ℕ → Bool
  pub is_new : ℕ → Bool
  pub tasks : List Task

abbrev pub queue : Task → System → System
queue t s = record s { tasks = s.tasks ++ t ∷ [] }

-- `onNewConnection`, with the task of `connectEstablished`.
unfoldable pub accept : ℕ → System → Option System
accept fd s = on_new_connection s.server >>= λ server.
    (let id = s.server.next_conn_id in
      some (
        queue (established id)
          (record s { server = server; object = update_at s.object id (some (create fd id)) })))

-- What an effect of a connection does to the rest. `updateChannel` asserts that a channel whose index is
-- KNew is not in the poller's map and that one whose index is KDeleted is; here one whose index is KAdded
-- must be there too. `removeChannel` asserts that it is there. The close callback is `removeConnection`.
unfoldable pub apply_effect : ℕ → Effect → System → Option System
apply_effect id updates_channel s =
    if s.is_new id
    then if s.registered id
      then none
      else some (record s {
        registered = update_at s.registered id true;
        is_new = update_at s.is_new id false;
      })
    else if s.registered id
    then some s
    else none
apply_effect id removes_channel s =
    if s.registered id
    then some (record s {
      registered = update_at s.registered id false;
      is_new = update_at s.is_new id true;
    })
    else none
apply_effect id calls_on_close s = some (queue (remove_in_loop id) s)
apply_effect id _ s = some s

unfoldable pub apply_effects : ℕ → List Effect → System → Option System
unfolding apply_effect
apply_effects id [] s = some s
apply_effects id (fx ∷ fxs) s = apply_effect id fx s >>= λ s'. apply_effects id fxs s'

-- A call of a method of a connection.
abbrev pub on_connection : ℕ → (Connection → Outcome) → System → Option System
on_connection id method s = s.object id >>= λ c. method c >>= λ (c', fxs).
    apply_effects id fxs (record s { object = update_at s.object id (some c') })

-- `removeConnectionInLoop`
unfoldable pub remove_connection : ℕ → System → Option System
remove_connection id s = s.object id >>= λ c.
    some (queue (destroyed id) (record s { server = remove_connection_in_loop id s.server }))

abbrev pub is_disconnected : State → Bool
is_disconnected disconnected = true
is_disconnected _ = false

-- `~TcpConnection` and the `~Channel` behind it, once the last task that holds the connection has run.
unfoldable pub release : ℕ → System → Option System
release id s = s.object id >>= λ c.
    (if is_disconnected c.state
      then if s.registered id then none else some (record s { object = update_at s.object id none })
      else none)

unfoldable pub run_task : Task → System → Option System
unfolding apply_effects remove_connection release
run_task (established id) s = on_connection id connect_established s
run_task (remove_in_loop id) s = remove_connection id s
run_task (destroyed id) s = on_connection id connect_destroyed s >>= λ s'. release id s'

-- `TcpServer::~TcpServer`
unfoldable pub destroy_server : System → System
destroy_server s = record s { tasks = s.tasks ++ map (λ m. destroyed m.id) s.server.connections }

-- What a channel's callbacks and the message callback do with a connection.
pub data Event : Type 0 where
  reads : (ℕ → ReadResult) → (Buffer → Option Buffer) → Event
  writes : (List ℕ → WriteResult) → Event
  closes errs : Event
  sends : (List ℕ → WriteResult) → List ℕ → Event

unfoldable pub handle : Event → Connection → Outcome
handle (reads readv on_message) c = handle_read readv on_message c
handle (writes write) c = handle_write write c
handle closes c = handle_close c
handle errs c = handle_error c
handle (sends write src) c = send_in_loop write src c

-- What the threads of the loops may do next, each task and each event in the thread that it was given to,
-- so that no `assertInLoopThread` fails; nothing is sent on a closed connection, and no one calls
-- `forceClose`. The acceptor gets a connection, whose id is still an int;
-- something happens at a channel that a poller has and that watches for it; or a task is run.
pub data Step (s s' : System) : Type 0 where
  accepts : (fd : ℕ) → s.server.next_conn_id < 2 ^ 31 → accept fd s ≡ some s' → Step s s'
  happens :
      (id : ℕ) (e : Event) (c : Connection)
      → s.object id ≡ some c
      → s.registered id ≡ true
      → is_none_event c.channel ≡ false
      → on_connection id (handle e) s ≡ some s'
      → Step s s'
  runs :
      (t : Task) (before after : List Task)
      → s.tasks ≡ before ++ t ∷ after
      → run_task t (record s { tasks = before ++ after }) ≡ some s'
      → Step s s'

abbrev pub new_system : TcpServer → System
new_system server = record {
  server = server;
  object = λ id. none;
  registered = λ id. false;
  is_new = λ id. true;
  tasks = [];
}

pub data Reach (server : TcpServer) : System → Type 0 where
  start : Reach server (new_system server)
  later : {s s' : System} → Reach server s → Step s s' → Reach server s'
