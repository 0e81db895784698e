-- ===== src/Net/Connection/Stuck.antt =====
-- `isWriting` of net/include/channel.h compares the whole mask with EPOLLOUT, and an established
-- connection of net/src/tcpconnection.cpp always reads: what waits in its output buffer stays there.
use qinyunserver.Base.{
  ℕ, ◌+◌, ◌^◌, ◌≤◌, ◌<◌, ◌≡◌, refl, sym, ap, ◌∙◌, true, false, inr, Option, some, List, [], ◌∷◌,
  ◌++◌, arith, append_assoc, append-nil, length, length-append, All,
}
use qinyunserver.Net.Buffer.{max_size, peek, ◌>>=◌}
use qinyunserver.Net.Buffer.Valid.{IsValid}
use qinyunserver.Net.Channel.{Channel, is_writing}
use qinyunserver.Net.Connection.{
  Connection, Effect, logs_error, WriteResult, send_in_loop, handle_write,
}
use qinyunserver.Net.Connection.Send.{send_in_loop_waiting}

-- The channel watches for input, as after `connectEstablished`.
abbrev pub Reads : Connection → Type 0
Reads c = c.channel.events.readable ≡ true

is_writing-reading : (ch : Channel) → ch.events.readable ≡ true → is_writing ch ≡ false
unfolding is_writing
is_writing-reading ch h = rw h refl

-- On a channel that watches for input, `handelWrite` writes nothing: it takes the connection for one
-- that does not write, whatever the mask and the buffer are.
pub handle_write-reading :
    (write : List ℕ → WriteResult) (c : Connection)
    → Reads c
    → handle_write write c ≡ some (c, logs_error ∷ [])
unfolding handle_write
handle_write-reading write c h = rw (is_writing-reading c.channel h) refl

-- What happens to a connection: a send, or the event that the socket takes bytes again.
pub data Event : Type 0 where
  sends : List ℕ → Event
  writable : Event

abbrev pub sent : List Event → List ℕ
sent [] = []
sent (sends src ∷ es) = src ++ sent es
sent (writable ∷ es) = sent es

abbrev pub Small : Event → Type 0
Small (sends src) = length src < 2 ^ 31
Small writable = Unit

module _ (write : List ℕ → WriteResult) where
  pub handle : Event → Connection → Option (Connection × List Effect)
  handle (sends src) c = send_in_loop write src c
  handle writable c = handle_write write c

  abbrev pub handle_all : List Event → Connection → Option Connection
  handle_all [] c = some c
  handle_all (e ∷ es) c = handle e c >>= λ (c', fx). handle_all es c'

  -- Once bytes wait on a connection whose channel watches for input, no sequence of sends and of the event that the socket
  -- takes bytes again lets one of them out: behind it the buffer holds what it held and all that was sent
  -- since. Each text must be of less than 2 GiB, and the buffer well-formed with room for all of them below
  -- the limit of a vector. Reading and closing are none of these events.
  pub output_never_drains :
      (es : List Event) (c : Connection)
      → IsValid c.output_buffer
      → Reads c
      → 0 < length (peek c.output_buffer)
      → All Small es
      → c.output_buffer.writer_idx + length (sent es) ≤ max_size
      → (c' : Connection) × (handle_all es c ≡ some c')
        × (peek c'.output_buffer ≡ peek c.output_buffer ++ sent es)
  unfolding handle
  output_never_drains [] c v r h small room = (c, refl, sym (append-nil (peek c.output_buffer)))
  output_never_drains (writable ∷ es) c v r h small room =
      let (c', got, held) = output_never_drains es c v r h small.1 room in
      (c', rw (handle_write-reading write c r) got, held)
  output_never_drains (sends src ∷ es) c v r h small room =
      let (c₁, fx, got, q) =
        send_in_loop_waiting write src c v small.0 (omega (arith, length-append src (sent es)))
          (inr h) in
      let (c₂, got₂, held) =
        output_never_drains es c₁ q.valid (q.reads ∙ r)
          (omega (arith, ap length q.waits, length-append (peek c.output_buffer) src)) small.1
          (omega (arith, q.end, length-append src (sent es))) in
      (
        c₂,
        rw got got₂,
        held ∙ ap (λ xs. xs ++ sent es) q.waits ∙ append_assoc (peek c.output_buffer) src (sent es),
      )
