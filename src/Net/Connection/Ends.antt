-- ===== src/Net/Connection/Ends.antt =====
-- How the calls of net/src/tcpconnection.cpp leave an open connection: open and reading, or closed.
use qinyunserver.Base.{
  ℕ, ◌≡◌, refl, ◌⊎◌, inl, inr, true, ◌&&◌, not, Option, some, List, [], ◌∷◌, ltb, ◌==◌,
  if◌then◌else◌, length, take, drop, All, arith,
}
use qinyunserver.Net.Buffer.{
  Buffer, ReadResult, failed, received, ◌>>=◌, peek, readable_bytes, append, retrieve, read_fd,
}
use qinyunserver.Net.Outcome.{Post, gives, Post->>=, Post-if, any}
use qinyunserver.Net.Channel.{none_event, without_writing, is_writing}
use qinyunserver.Net.Connection.{
  connected, disconnected, Connection, Effect, updates_channel, calls_on_connection,
  calls_on_message, calls_on_close, logs_error, WriteResult, write_failed, wrote, negative_i32,
  left_len, enqueue_left, send_in_loop, handle_close, handle_error, handle_read, handle_write,
}

-- An effect that neither closes the connection nor takes its channel out of the poller.
abbrev pub IsHarmless : Effect → Type 0
IsHarmless updates_channel = Unit {0}
IsHarmless calls_on_message = Unit {0}
IsHarmless logs_error = Unit {0}
IsHarmless _ = ⊥

abbrev pub IsReading : Connection → Type 0
IsReading c = (c.state ≡ connected) × (c.channel.events.readable ≡ true)

abbrev pub Stays : Connection × List Effect → Type 0
Stays (c, fxs) = (c.state ≡ connected) × (c.channel.events.readable ≡ true) × All IsHarmless fxs

abbrev pub Closes : Connection × List Effect → Type 0
Closes (c, fxs) =
    (c.state ≡ disconnected)
    × (c.channel.events ≡ none_event)
    × (fxs ≡ updates_channel ∷ calls_on_connection disconnected ∷ calls_on_close ∷ [])

abbrev pub Ends : Connection × List Effect → Type 0
Ends r = Stays r ⊎ Closes r

pub handle_close-Ends : (c : Connection) → IsReading c → Post Ends (handle_close c)
unfolding handle_close
handle_close-Ends c (state, reads) = rw state (gives (inr (refl, refl, refl)))

pub handle_error-Ends : (c : Connection) → IsReading c → Post Ends (handle_error c)
unfolding handle_error
handle_error-Ends c (state, reads) = gives (inl (state, reads, (tt, tt)))

enqueue_left-Ends :
    (src : List ℕ) (n left : ℕ) (c : Connection)
    → IsReading c
    → Post Ends (enqueue_left src n left c)
unfolding enqueue_left
enqueue_left-Ends src n left c (state, reads) =
    Post-if (ltb 0 left)
      (Post->>= (append (take left (drop n src)) c.output_buffer) (any _) λ out h.
        Post-if (is_writing c.channel) (gives (inl (state, reads, tt)))
          (gives (inl (state, ground (arith, reads), (tt, tt)))))
      (gives (inl (state, reads, tt)))

pub send_in_loop-Ends :
    (write : List ℕ → WriteResult) (src : List ℕ) (c : Connection)
    → IsReading c
    → Post Ends (send_in_loop write src c)
unfolding send_in_loop
send_in_loop-Ends write src c h =
    Post-if (not (is_writing c.channel) && readable_bytes c.output_buffer == 0) (direct (write src))
      (enqueue_left-Ends src 0 (left_len (length src) 0) c h)
  where
    direct :
        (r : WriteResult)
        → Post Ends (elim r [
          | write_failed ↦ some (c, logs_error ∷ [])
          | wrote n ↦
              if negative_i32 n
              then some (c, logs_error ∷ [])
              else enqueue_left src n (left_len (length src) n) c
        ])
    direct write_failed = gives (inl (h.0, h.1, (tt, tt)))
    direct (wrote n) =
        Post-if (negative_i32 n) (gives (inl (h.0, h.1, (tt, tt))))
          (enqueue_left-Ends src n (left_len (length src) n) c h)

pub handle_write-Ends :
    (write : List ℕ → WriteResult) (c : Connection) → IsReading c → Post Ends (handle_write write c)
unfolding handle_write
handle_write-Ends write c h =
    Post-if (is_writing c.channel) (out (write (peek c.output_buffer)))
      (gives (inl (h.0, h.1, (tt, tt))))
  where
    out :
        (r : WriteResult)
        → Post Ends (elim r [
          | write_failed ↦ some (c, logs_error ∷ [])
          | wrote n ↦
              if n == 0
              then some (c, logs_error ∷ [])
              else (retrieve n c.output_buffer >>= λ out.
                  (if readable_bytes out == 0
                    then some (
                      record c { output_buffer = out; channel = without_writing c.channel },
                      updates_channel ∷ [],
                    )
                    else some (record c { output_buffer = out }, [])))
        ])
    out write_failed = gives (inl (h.0, h.1, (tt, tt)))
    out (wrote n) = Post-if (n == 0) (gives (inl (h.0, h.1, (tt, tt)))) (
        Post->>= (retrieve n c.output_buffer) (any _) λ out k.
          Post-if (readable_bytes out == 0) (gives (inl (h.0, ground (arith, h.1), (tt, tt))))
            (gives (inl (h.0, h.1, tt))))

pub handle_read-Ends :
    (readv : ℕ → ReadResult) (on_message : Buffer → Option Buffer) (c : Connection)
    → IsReading c
    → Post Ends (handle_read readv on_message c)
unfolding handle_read
handle_read-Ends readv on_message c h =
    Post->>= (read_fd readv c.input_buffer) (any _) λ (result, input) k. got result input
  where
    got :
        (r : ReadResult) (input : Buffer)
        → Post Ends (elim r [
          | failed errno ↦ handle_error (record c { input_buffer = input })
          | received bytes ↦
              if length bytes == 0
              then handle_close (record c { input_buffer = input })
              else (on_message input >>= λ input'.
                  some (record c { input_buffer = input' }, calls_on_message ∷ []))
        ])
    got (failed errno) input = handle_error-Ends (record c { input_buffer = input }) h
    got (received bytes) input =
        Post-if (length bytes == 0) (handle_close-Ends (record c { input_buffer = input }) h)
          (Post->>= (on_message input) (any _) λ input' k. gives (inl (h.0, h.1, (tt, tt))))
