-- ===== src/Net/Connection/Lifecycle.antt =====
-- The states of a connection of net/src/tcpconnection.cpp, from `connectEstablished` to its end.
use qinyunserver.Base.{ℕ, ◌≡◌, ◌≢◌, refl, true, Option, none, some, [], ◌∷◌, arith}
use qinyunserver.Net.Buffer.{Buffer, ReadResult, received, ◌>>=◌, read_fd}
use qinyunserver.Net.Channel.{none_event, with_none, with_reading}
use qinyunserver.Net.Connection.{
  disconnected, connecting, connected, Connection, updates_channel, removes_channel, ties_channel,
  calls_on_connection, calls_on_close, is_open, handle_close, handle_read, force_close,
  force_close_in_loop, connect_established, connect_destroyed,
}

-- Establishing works in the state `connecting` alone: a new connection watches for input then, and
-- its connection callback sees it connected; in each other state the assertion fails.
connect_established_lem :
    (c : Connection)
    → (c.state ≡ connecting
        → (c' : Connection) × (connect_established c
            ≡ some (c', ties_channel ∷ updates_channel ∷ calls_on_connection connected ∷ []))
          × (c'.state ≡ connected)
          × (c'.channel.events.readable ≡ true)
          × (c'.channel.tied ≡ true))
      × (c.state ≢ connecting → connect_established c ≡ none)
unfolding connect_established
connect_established_lem c = (
  λ e. (
    record c { state = connected; channel = with_reading (record c.channel { tied = true }) },
    rw (e, connect_established) refl,
    refl,
    ground arith,
    refl,
  ),
  λ h. ground arith,
)

-- `handelClose` takes an open connection to `disconnected`, with nothing watched and the callbacks
-- called once each; a second one fails its assertion.
pub handle_close_once :
    (c : Connection)
    → is_open c.state ≡ true
    → (c' : Connection) × (handle_close c
        ≡ some (c', updates_channel ∷ calls_on_connection disconnected ∷ calls_on_close ∷ []))
      × (c'.state ≡ disconnected)
      × (c'.channel.events ≡ none_event)
      × (handle_close c' ≡ none)
unfolding handle_close
handle_close_once c h =
    (record c { state = disconnected; channel = with_none c.channel }, rw h refl, refl, refl, refl)

-- A peer that ends the stream closes an open connection: readv of no bytes does what `handelClose`
-- does, and the message callback is not called.
handle_read_end :
    (readv : ℕ → ReadResult) (on_message : Buffer → Option Buffer) (c : Connection) (b : Buffer)
    → is_open c.state ≡ true
    → read_fd readv c.input_buffer ≡ some (received [], b)
    → handle_read readv on_message c ≡ handle_close (record c { input_buffer = b })
unfolding handle_read
handle_read_end readv on_message c b h e = rw (e, handle_read) refl

-- `forceClose` and the task that it queues close a connection in every state, one that is closed
-- already or was never established too: the close callback is called again.
pub force_close_in_loop-force_close :
    (c : Connection)
    → (c' : Connection) × ((force_close c >>= λ (c₁, fx). force_close_in_loop c₁)
        ≡ some (c', updates_channel ∷ calls_on_connection disconnected ∷ calls_on_close ∷ []))
      × (c'.state ≡ disconnected)
unfolding force_close force_close_in_loop handle_close
force_close_in_loop-force_close c = (_, refl, refl)

-- `connectDestroyed` of a connection that was never closed, as the server's destructor queues it,
-- takes it out of the poller and leaves it in the state `connected`, for which the assertion of
-- `~TcpConnection` fails; of a closed one it only takes it out of the poller.
pub connect_destroyed_lem :
    (c : Connection)
    → (c.state ≡ connected
        → (c' : Connection) × (connect_destroyed c
            ≡ some (c', updates_channel ∷ calls_on_connection connected ∷ removes_channel ∷ []))
          × (c'.state ≢ disconnected))
      × (c.state ≢ connected → connect_destroyed c ≡ some (c, removes_channel ∷ []))
unfolding connect_destroyed
connect_destroyed_lem c = (
  λ e. (record c { channel = with_none c.channel }, ground arith, λ k. ground arith),
  λ h. ground arith,
)
