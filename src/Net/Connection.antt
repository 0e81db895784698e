-- ===== src/Net/Connection.antt =====
-- net/src/tcpconnection.cpp and net/include/tcpconnection.h: a connection in its loop's thread.
-- What a call does outside the connection is a list of effects, in order. The write and readv of the
-- system are arguments, and so is what the message callback leaves in the input buffer. `none` is a
-- failed assertion. The callbacks are set, as TcpServer and TcpClient do before the first call.
pub mod Send
pub mod Stuck
pub mod Lifecycle
pub mod Ends
use qinyunserver.Base.{
  ℕ, zero, suc, ◌+◌, ◌-◌, ◌%◌, ◌^◌, Bool, true, false, not, ◌&&◌, ◌||◌, Option, none, some, List,
  [], ◌∷◌, ◌++◌, ltb, leb, ◌==◌, if◌then◌else◌, length, take, drop,
}
use qinyunserver.Net.Buffer.{
  Buffer, ReadResult, failed, received, ◌>>=◌, peek, readable_bytes, append, retrieve, read_fd,
}
use qinyunserver.Net.Buffer
use qinyunserver.Net.Channel.{
  Channel, with_reading, with_writing, without_writing, with_none, is_writing, fresh,
}

pub data State : Type 0 where
  disconnected connecting connected disconnecting : State

pub record Connection : Type 0 where
  pub id : ℕ
  pub state : State
  pub channel : Channel
  pub input_buffer : Buffer
  pub output_buffer : Buffer

-- What a call does besides: requests to the poller, callbacks with the state that they see, and the
-- task that is queued.
pub data Effect : Type 0 where
  updates_channel removes_channel ties_channel : Effect
  calls_on_connection : State → Effect
  calls_on_message calls_on_close : Effect
  queues_force_close : Effect
  logs_error : Effect

abbrev pub Outcome : Type 0
Outcome = Option (Connection × List Effect)

unfoldable pub create : ℕ → ℕ → Connection
create fd id = record {
  id = id;
  state = connecting;
  channel = fresh fd;
  input_buffer = Buffer.empty;
  output_buffer = Buffer.empty;
}

-- What write returns: an error, or how many bytes it took.
pub data WriteResult : Type 0 where
  write_failed : WriteResult
  wrote : ℕ → WriteResult

-- An int32_t that a size_t or ssize_t is put into: is it negative?
abbrev pub negative_i32 : ℕ → Bool
negative_i32 n = leb (2 ^ 31) (n % 2 ^ 32)

-- `leftlen` of `sendInloop` behind the direct write of `n` bytes, or 0 where it is not positive.
abbrev pub left_len : ℕ → ℕ → ℕ
left_len len n = if negative_i32 len then 0 else len % 2 ^ 32 - n % 2 ^ 32

-- The second half of `sendInloop`: the last `left` bytes wait in the output buffer.
enqueue_left : List ℕ → ℕ → ℕ → Connection → Outcome
enqueue_left src n left c =
    if ltb 0 left
    then (append (take left (drop n src)) c.output_buffer >>= λ out.
        (if is_writing c.channel
          then some (record c { output_buffer = out }, [])
          else some (
            record c { output_buffer = out; channel = with_writing c.channel },
            updates_channel ∷ [],
          )))
    else some (c, [])

-- `sendInloop`: a direct write where nothing waits and the channel is not writing. The result of
-- write is an int32_t here too.
unfoldable pub send_in_loop : (List ℕ → WriteResult) → List ℕ → Connection → Outcome
unfolding enqueue_left
send_in_loop write src c =
    if not (is_writing c.channel) && readable_bytes c.output_buffer == 0
    then elim (write src) [
      | write_failed ↦ some (c, logs_error ∷ [])
      | wrote n ↦
          if negative_i32 n
          then some (c, logs_error ∷ [])
          else enqueue_left src n (left_len (length src) n) c
    ]
    else enqueue_left src 0 (left_len (length src) 0) c

-- `_state == kConnected || _state == kDisconnecting`
abbrev pub is_open : State → Bool
is_open connected = true
is_open disconnecting = true
is_open _ = false

-- `handelClose`
unfoldable pub handle_close : Connection → Outcome
handle_close c =
    if is_open c.state
    then some (
      record c { state = disconnected; channel = with_none c.channel },
      updates_channel ∷ calls_on_connection disconnected ∷ calls_on_close ∷ [],
    )
    else none

-- `handelError`
unfoldable pub handle_error : Connection → Outcome
handle_error c = some (c, logs_error ∷ [])

-- `handelRead`, with what the message callback does to the input buffer.
unfoldable pub handle_read : (ℕ → ReadResult) → (Buffer → Option Buffer) → Connection → Outcome
unfolding handle_error
handle_read readv on_message c = read_fd readv c.input_buffer >>= λ (result, input). elim result [
  | failed errno ↦ handle_error (record c { input_buffer = input })
  | received bytes ↦
      if length bytes == 0
      then handle_close (record c { input_buffer = input })
      else (on_message input >>= λ input'.
          some (record c { input_buffer = input' }, calls_on_message ∷ []))
]

-- `handelWrite`
unfoldable pub handle_write : (List ℕ → WriteResult) → Connection → Outcome
handle_write write c =
    if is_writing c.channel
    then elim (write (peek c.output_buffer)) [
      | write_failed ↦ some (c, logs_error ∷ [])
      | wrote n ↦
          if n == 0
          then some (c, logs_error ∷ [])
          else (retrieve n c.output_buffer >>= λ out.
              (if readable_bytes out == 0
                then some (
                  record c { output_buffer = out; channel = without_writing c.channel },
                  updates_channel ∷ [],
                )
                else some (record c { output_buffer = out }, [])))
    ]
    else some (c, logs_error ∷ [])

-- `forceClose`
unfoldable pub force_close : Connection → Outcome
force_close c = some (record c { state = disconnecting }, queues_force_close ∷ [])

-- `forceCloseInloop`
unfoldable pub force_close_in_loop : Connection → Outcome
force_close_in_loop c = if is_open c.state then handle_close c else some (c, [])

-- `connectEstablished`
unfoldable pub connect_established : Connection → Outcome
connect_established c = elim c.state [
  | connecting ↦ some (
    record c { state = connected; channel = with_reading (record c.channel { tied = true }) },
    ties_channel ∷ updates_channel ∷ calls_on_connection connected ∷ [],
  )
  | _ ↦ none
]

-- `connectDestroyed`
unfoldable pub connect_destroyed : Connection → Outcome
connect_destroyed c = elim c.state [
  | connected ↦ some (
    record c { channel = with_none c.channel },
    updates_channel ∷ calls_on_connection connected ∷ removes_channel ∷ [],
  )
  | _ ↦ some (c, removes_channel ∷ [])
]
