-- ===== src/Net/Client.antt =====
-- net/src/tcpclient.cpp and net/include/tcpclient.h: connecting, with what each connect of the system
-- returns as an argument, and the connection that comes of it. `none` is LOG_FATAL or a failed assertion.
use qinyunserver.Base.{ℕ, Option, none, some, List, [], ◌∷◌}
use qinyunserver.Net.Buffer.{◌>>=◌}
use qinyunserver.Net.Connection
use qinyunserver.Net.Connection.{Connection, connect_established, connect_destroyed, create}
use qinyunserver.Net.Sockets.{
  eagain, eintr, eisconn, einprogress, eaddrinuse, eaddrnotavail, econnrefused, enetunreach,
  etimedout, Result, returned, failed, connect,
}

-- What the switch of `connect` does: queue `newConnection`, close the socket and try again in three
-- seconds, or end the process.
pub data Choice : Type 0 where
  establishes retries fails : Choice

-- The switch, on 0 or errno.
unfoldable pub choose : Result → Choice
choose (returned n) = establishes
choose (failed eintr) = establishes
choose (failed eisconn) = establishes
choose (failed einprogress) = establishes
choose (failed eagain) = retries
choose (failed eaddrinuse) = retries
choose (failed eaddrnotavail) = retries
choose (failed econnrefused) = retries
choose (failed enetunreach) = retries
choose (failed etimedout) = retries
choose (failed _) = fails

-- What `connect` does: a socket is made, a socket is closed, and a task is queued in the loop.
pub data Effect : Type 0 where
  makes_socket closes_socket queues_new_connection : ℕ → Effect
  runs_after : ℕ → Effect

-- `retry`, with the attempts that follow.
abbrev pub retry : ℕ → Option (List Effect) → Option (List Effect)
retry fd later = later >>= λ fxs. some (closes_socket fd ∷ runs_after 3 ∷ fxs)

-- The cases of the switch.
unfoldable pub act : Choice → ℕ → Option (List Effect) → Option (List Effect)
act establishes fd later = some (queues_new_connection fd ∷ [])
act retries fd later = retry fd later
act fails fd later = none

-- The calls of `connect`, the first one and those by `retryInloop`: the socket of each and what the
-- connect of the system returns for it. `wrapper` is `sockets::connect`.
unfoldable pub attempts : (Result → Option Result) → List (ℕ × Result) → Option (List Effect)
unfolding act
attempts wrapper [] = some []
attempts wrapper ((fd, result) ∷ rest) =
    let later = attempts wrapper rest in
    wrapper result >>= λ ret. act (choose ret) fd later >>= λ fxs. some (makes_socket fd ∷ fxs)

-- `TcpClient::connect`
unfoldable pub connect_client : List (ℕ × Result) → Option (List Effect)
unfolding attempts
connect_client = attempts connect

pub record TcpClient : Type 0 where
  pub connection : Option Connection

-- `newConnection`
unfoldable pub new_connection : ℕ → TcpClient → Option (TcpClient × List Connection.Effect)
new_connection fd client =
    connect_established (create fd 0) >>= λ (c, fxs). some (record { connection = some c }, fxs)

-- `removeConnection`, with the connection that it is called for.
unfoldable pub remove_connection :
    Connection → TcpClient → Option (TcpClient × Connection × List Connection.Effect)
remove_connection conn client =
    connect_destroyed conn >>= λ (c, fxs). some (record { connection = none }, c, fxs)
