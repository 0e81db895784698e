-- ===== src/Net/Connection/Send.antt =====
-- `TcpConnection::sendInloop` of net/src/tcpconnection.cpp: no byte is lost, doubled or overtaken.
use qinyunserver.Base.{
  ℕ, ◌+◌, ◌-◌, ◌%◌, ◌^◌, ◌≤◌, ◌<◌, ◌≡◌, refl, sym, ap, ◌∙◌, true, false, not, ◌&&◌, ◌⊎◌, inl, inr,
  some, List, [], ◌∷◌, ◌++◌, arith, length, take, drop, ltb, ◌==◌, Bool-cases, not_ltb→le,
  lt→not_leb, length-drop, take-all, drop-all, append-nil, eq→==,
}
use qinyunserver.Net.Buffer.{max_size, peek, readable_bytes}
use qinyunserver.Net.Buffer.Valid.{IsValid}
use qinyunserver.Net.Buffer.Append.{append_lem}
use qinyunserver.Net.Buffer.Retrieve.{readable-peek}
use qinyunserver.Net.Channel.{is_writing, with_writing}
use qinyunserver.Net.Connection.{
  Connection, Effect, logs_error, updates_channel, WriteResult, write_failed, wrote, enqueue_left,
  send_in_loop, left_len,
}

-- The rest of a text waits behind what waited before, and the channel reads if it did.
pub record Queued (c : Connection) (rest : List ℕ) (c' : Connection) : Type 0 where
  pub valid : IsValid c'.output_buffer
  pub reads : c'.channel.events.readable ≡ c.channel.events.readable
  pub waits : peek c'.output_buffer ≡ peek c.output_buffer ++ rest
  pub end : c'.output_buffer.writer_idx ≤ c.output_buffer.writer_idx + length rest

enqueue_left-Queued :
    (src : List ℕ) (n : ℕ) (c : Connection)
    → IsValid c.output_buffer
    → n ≤ length src
    → c.output_buffer.writer_idx + length src ≤ max_size
    → (c' : Connection) × (fx : List Effect) × (enqueue_left src n (length src - n) c
        ≡ some (c', fx))
      × Queued c (drop n src) c'
unfolding enqueue_left
enqueue_left-Queued src n c v h room = elim (Bool-cases (ltb 0 (length src - n))) [
  | inr none_left ↦
      let empty : drop n src ≡ [] = drop-all n src (omega (arith, not_ltb→le _ _ none_left)) in
      (
        c,
        [],
        rw none_left refl,
        record {
          valid = v;
          reads = refl;
          waits = rw empty (sym (append-nil (peek c.output_buffer)));
          end = omega arith;
        },
      )
  | inl some_left ↦
      let rest : take (length src - n) (drop n src) ≡ drop n src =
        take-all _ (drop n src) (omega (arith, length-drop n src)) in
      let (out, got, v', held, end) =
        append_lem (drop n src) c.output_buffer v (omega (arith, length-drop n src)) in
      let q : Queued c (drop n src) (record c { output_buffer = out }) = record {
        valid = v';
        reads = refl;
        waits = held;
        end = end;
      } in
      elim (Bool-cases (is_writing c.channel)) [
        | inl busy ↦ (record c { output_buffer = out }, [], rw (some_left, rest, got, busy) refl, q)
        | inr idle ↦ (
          record c { output_buffer = out; channel = with_writing c.channel },
          updates_channel ∷ [],
          rw (some_left, rest, got, idle) refl,
          record { valid = q.valid; reads = ground arith; waits = q.waits; end = q.end },
        )
      ]
]

module _ (write : List ℕ → WriteResult) (src : List ℕ) (c : Connection)
    (v : IsValid c.output_buffer) (small : length src < 2 ^ 31)
    (room : c.output_buffer.writer_idx + length src ≤ max_size) where
  whole : left_len (length src) 0 ≡ length src - 0
  whole = ground arith

  rest_of : (n : ℕ) → n ≤ length src → left_len (length src) n ≡ length src - n
  rest_of n h = ground arith

  -- Where bytes wait already, or the channel is writing, a text of less than 2 GiB waits behind them,
  -- all of it, whatever write would do. The output buffer must be well-formed and have room for the text
  -- below the limit of a vector.
  pub send_in_loop_waiting :
      (is_writing c.channel ≡ true) ⊎ (0 < length (peek c.output_buffer))
      → (c' : Connection) × (fx : List Effect) × (send_in_loop write src c ≡ some (c', fx))
        × Queued c src c'
  unfolding send_in_loop
  send_in_loop_waiting h =
      let (c', fx, got, q) = enqueue_left-Queued src 0 c v (omega arith) room in
      (c', fx, rw not_idle (rw whole got), q)
    where
      not_idle : (not (is_writing c.channel) && readable_bytes c.output_buffer == 0) ≡ false
      not_idle = elim h [
        | inl busy ↦ rw busy refl
        | inr some_bytes ↦ ground (arith, readable-peek v)
      ]

  -- Where nothing waits and the channel is not writing, and write takes `n` bytes of the text, the
  -- other bytes wait, in order; where write fails the text is dropped and the connection stays. The text
  -- must be of less than 2 GiB, and the output buffer well-formed with room for it below the limit of a
  -- vector.
  pub send_in_loop_direct :
      is_writing c.channel ≡ false
      → peek c.output_buffer ≡ []
      → ((n : ℕ)
          → write src ≡ wrote n
          → n ≤ length src
          → (c' : Connection) × (fx : List Effect) × (send_in_loop write src c ≡ some (c', fx))
            × Queued c (drop n src) c')
        × (write src ≡ write_failed → send_in_loop write src c ≡ some (c, logs_error ∷ []))
  unfolding send_in_loop
  send_in_loop_direct idle empty = (taken, λ e. rw (is_idle, e, send_in_loop) refl)
    where
      is_idle : (not (is_writing c.channel) && readable_bytes c.output_buffer == 0) ≡ true
      is_idle = rw idle (eq→== _ _ (readable-peek v ∙ ap length empty))

      taken :
          (n : ℕ)
          → write src ≡ wrote n
          → n ≤ length src
          → (c' : Connection) × (fx : List Effect) × (send_in_loop write src c ≡ some (c', fx))
            × Queued c (drop n src) c'
      taken n e h =
          let (c', fx, got, q) = enqueue_left-Queued src n c v h room in
          (
            c',
            fx,
            rw (is_idle, e, send_in_loop)
                (rw (lt→not_leb (2 ^ 31) (n % 2 ^ 32) (omega arith), rest_of n h) got),
            q,
          )
