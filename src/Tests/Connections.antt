-- ===== src/Tests/Connections.antt =====
-- The theorems on net/src/tcpconnection.cpp and net/src/poller.cpp at small connections.
use qinyunserver.Base.{
  ℕ, ◌≤◌, ◌≡◌, ◌≢◌, refl, true, false, inr, Option, none, some, List, [], ◌∷◌, arith, drop,
}
use qinyunserver.Net.Buffer.{Buffer, peek}
use qinyunserver.Net.Channel.{none_event, with_reading, added, is_writing, fresh}
use qinyunserver.Net.Connection.{
  connected, connecting, disconnected, Connection, Effect, updates_channel, removes_channel,
  calls_on_connection, calls_on_close, logs_error, WriteResult, wrote, write_failed, send_in_loop,
  handle_write, handle_close, connect_destroyed,
}
use qinyunserver.Net.Connection.Send.{Queued, send_in_loop_waiting, send_in_loop_direct}
use qinyunserver.Net.Connection.Stuck.{
  sends, writable, handle_all, handle_write-reading, output_never_drains,
}
use qinyunserver.Net.Connection.Lifecycle.{handle_close_once, connect_destroyed_lem}
use qinyunserver.Net.Poller.{
  Poller, Request, request, update_channel, remove_channel, update_by, enable_reading,
  enable_writing, disable_all, remove,
}
use qinyunserver.Net.Poller.Interest.{interest, IsLegal}
use qinyunserver.Net.Poller.Agrees.{expected}
use qinyunserver.Net.Poller.Legal.{initial, requests, requests-IsLegal}

abbrev no_bytes : Buffer
no_bytes = record {
  bytes = 0 ∷ 0 ∷ 0 ∷ 0 ∷ 0 ∷ 0 ∷ 0 ∷ 0 ∷ 0 ∷ 0 ∷ [];
  reader_idx = 8;
  writer_idx = 8;
}

abbrev two_bytes : Buffer
two_bytes = record {
  bytes = 0 ∷ 0 ∷ 0 ∷ 0 ∷ 0 ∷ 0 ∷ 0 ∷ 0 ∷ 7 ∷ 8 ∷ [];
  reader_idx = 8;
  writer_idx = 10;
}

-- A connection that is established and reads, with two bytes that wait.
abbrev waiting : Connection
waiting = record {
  id = 1;
  state = connected;
  channel = with_reading (record {
    fd = 5;
    events = none_event;
    revents = none_event;
    index = added;
    tied = true;
    event_handling = false;
    added_to_loop = true;
  });
  input_buffer = no_bytes;
  output_buffer = two_bytes;
}

abbrev idle : Connection
idle = record waiting { output_buffer = no_bytes }

abbrev opening : Connection
opening = record idle { state = connecting }

-- A write that takes one byte.
abbrev slow : List ℕ → WriteResult
slow src = wrote 1

send_in_loop_waiting_example :
    (c' : Connection) × (fx : List Effect) × (send_in_loop slow (1 ∷ 2 ∷ []) waiting
      ≡ some (c', fx))
    × Queued waiting (1 ∷ 2 ∷ []) c'
send_in_loop_waiting_example =
    send_in_loop_waiting slow (1 ∷ 2 ∷ []) waiting (omega arith) (omega arith) (omega arith)
      (inr (omega arith))

send_in_loop_direct_example :
    ((n : ℕ)
      → slow (1 ∷ 2 ∷ []) ≡ wrote n
      → n ≤ 2
      → (c' : Connection) × (fx : List Effect) × (send_in_loop slow (1 ∷ 2 ∷ []) idle
          ≡ some (c', fx))
        × Queued idle (drop n (1 ∷ 2 ∷ [])) c')
    × (slow (1 ∷ 2 ∷ []) ≡ write_failed
        → send_in_loop slow (1 ∷ 2 ∷ []) idle ≡ some (idle, logs_error ∷ []))
unfolding is_writing
send_in_loop_direct_example =
    send_in_loop_direct slow (1 ∷ 2 ∷ []) idle (omega arith) (omega arith) (omega arith) refl refl

output_never_drains_example :
    (c' : Connection) × (handle_all slow (writable ∷ sends (1 ∷ []) ∷ writable ∷ []) waiting
      ≡ some c')
    × (peek c'.output_buffer ≡ 7 ∷ 8 ∷ 1 ∷ [])
output_never_drains_example =
    output_never_drains slow (writable ∷ sends (1 ∷ []) ∷ writable ∷ []) waiting (omega arith) refl
      (omega arith) (tt, (omega arith, (tt, tt))) (omega arith)

handle_write-reading_example : handle_write slow waiting ≡ some (waiting, logs_error ∷ [])
handle_write-reading_example = handle_write-reading slow waiting refl

handle_close_once_example :
    (c' : Connection) × (handle_close waiting
      ≡ some (c', updates_channel ∷ calls_on_connection disconnected ∷ calls_on_close ∷ []))
    × (c'.state ≡ disconnected)
    × (c'.channel.events ≡ none_event)
    × (handle_close c' ≡ none)
handle_close_once_example = handle_close_once waiting refl

connect_destroyed_example :
    (waiting.state ≡ connected
      → (c' : Connection) × (connect_destroyed waiting
          ≡ some (c', updates_channel ∷ calls_on_connection connected ∷ removes_channel ∷ []))
        × (c'.state ≢ disconnected))
    × (waiting.state ≢ connected → connect_destroyed waiting ≡ some (waiting, removes_channel ∷ []))
connect_destroyed_example = connect_destroyed_lem waiting

abbrev own_fd : ℕ → ℕ
own_fd c = c

-- Two channels come, one of them is silenced, comes again and leaves.
abbrev some_requests : List (ℕ × Request)
some_requests =
    (3, enable_reading)
    ∷ (4, enable_reading)
    ∷ (3, enable_writing)
    ∷ (3, disable_all)
    ∷ (3, enable_reading)
    ∷ (3, remove)
    ∷ []

abbrev after_requests : Option Poller → Poller
after_requests none = initial own_fd
after_requests (some q) = q

abbrev last_poller : Poller
last_poller = after_requests (requests some_requests (initial own_fd))

requests-IsLegal_example :
    ((fd : ℕ)
      → interest fd last_poller.calls ≡ expected last_poller.channel (last_poller.channels fd))
    × IsLegal last_poller.calls
unfolding request update_channel remove_channel update_by fresh
requests-IsLegal_example = requests-IsLegal own_fd some_requests last_poller refl
