-- ===== src/Net/Timer.antt =====
-- net/src/timer.cpp, net/include/timer.h and the arithmetic of net/include/timestamp.h: the queue of
-- timers in its loop's thread. A time is a number of microseconds since the epoch, an interval one of
-- nanoseconds, in place of a double of seconds, and a timer is known by its address. A callback is the
-- list of the calls that it makes of the queue. `none` is a failed assertion or the use of a timer
-- that was deleted.
pub mod Clock
pub mod Entries
pub mod Sets
pub mod Consistent
pub mod Expiry
pub mod Ringing
pub mod Repeats
pub mod Round
pub mod Order
pub mod Deadline
pub mod Armed
pub mod Runs
use qinyunserver.Base.{
  ℕ, ◌+◌, ◌-◌, ◌*◌, ◌/◌, ◌%◌, Bool, true, false, ◌&&◌, ◌||◌, Option, none, some, List, [], ◌∷◌, ltb,
  leb, ◌==◌, if◌then◌else◌, length,
}
use qinyunserver.Net.Buffer.{◌>>=◌}
use qinyunserver.Net.Poller.{update_at}
use qinyunserver.Net.Timestamp.{add_time, valid}

pub record Timer : Type 0 where
  pub expired : ℕ
  pub repeated : Bool
  pub interval : ℕ
  pub sequence : ℕ

-- The constructor of `Timer`.
pub new_timer : ℕ → ℕ → ℕ → Timer
new_timer expired interval sequence = record {
  expired = expired;
  repeated = ltb 0 interval;
  interval = interval;
  sequence = sequence;
}

-- `Timer::restart` after its assertion.
abbrev pub restart : ℕ → Timer → Timer
restart now t = record t { expired = add_time now t.interval }

pub record Entry : Type 0 where
  pub when : ℕ
  pub timer : ℕ

-- std::pair's `<`
abbrev pub before : Entry → Entry → Bool
before a b = ltb a.when b.when || (a.when == b.when && ltb a.timer b.timer)

abbrev pub same_entry : Entry → Entry → Bool
same_entry a b = a.when == b.when && a.timer == b.timer

-- The timers by their addresses; a set of entries in order; the two sets of addresses; and the time
-- for which the timer descriptor was set last.
pub record TimerQueue : Type 0 where
  pub heap : ℕ → Option Timer
  pub timers : List Entry
  pub active_timers : List ℕ
  pub cancel_timers : List ℕ
  pub calling_expired_timers : Bool
  pub armed : Option ℕ

-- std::set::insert of an entry: nothing where it is there already.
pub insert_entry : Entry → List Entry → List Entry
insert_entry e [] = e ∷ []
insert_entry e (x ∷ xs) =
    let rest = insert_entry e xs in
    if before e x then e ∷ (x ∷ xs) else if same_entry e x then x ∷ xs else x ∷ rest

pub has_entry : Entry → List Entry → Bool
has_entry e [] = false
has_entry e (x ∷ xs) = same_entry e x || has_entry e xs

pub erase_entry : Entry → List Entry → List Entry
erase_entry e [] = []
erase_entry e (x ∷ xs) = if same_entry e x then xs else x ∷ erase_entry e xs

-- The sets of addresses; their order is never read.
unfoldable pub has : ℕ → List ℕ → Bool
has p [] = false
has p (x ∷ xs) = p == x || has p xs

pub erase : ℕ → List ℕ → List ℕ
erase p [] = []
erase p (x ∷ xs) = if p == x then xs else x ∷ erase p xs

abbrev pub assert : Bool → TimerQueue → Option TimerQueue
assert true q = some q
assert false q = none

-- `_timers.begin()->second->expired()`, or nothing of an empty set.
pub earliest : TimerQueue → List Entry → Option (Option ℕ)
earliest q [] = some none
earliest q (e ∷ es) = q.heap e.timer >>= λ t. some (some t.expired)

abbrev pub earlier : ℕ → Option ℕ → Bool
earlier w none = true
earlier w (some first) = ltb w first

-- `insert`: is the new timer the first to run out?
pub insert : ℕ → TimerQueue → Option (Bool × TimerQueue)
insert p q = q.heap p >>= λ t. earliest q q.timers >>= λ first.
    (let e : Entry = record { when = t.expired; timer = p } in
      if has_entry e q.timers || has p q.active_timers
      then none
      else (let q' = record q {
        timers = insert_entry e q.timers;
        active_timers = p ∷ q.active_timers;
      } in
          assert (length q'.timers == length q'.active_timers) q' >>= λ q''.
          some (earlier t.expired first, q'')))

abbrev pub arm : ℕ → TimerQueue → TimerQueue
arm w q = record q { armed = some w }

-- `addTimerInLoop`
pub add_timer_in_loop : ℕ → TimerQueue → Option TimerQueue
add_timer_in_loop p q = insert p q >>= λ (changed, q').
    (if changed then (q'.heap p >>= λ t. some (arm t.expired q')) else some q')

-- `addTimer` with the address and the number that the new timer gets.
pub add_timer : ℕ → ℕ → ℕ → ℕ → TimerQueue → Option TimerQueue
add_timer p sequence when interval q =
    add_timer_in_loop p
      (record q { heap = update_at q.heap p (some (new_timer when interval sequence)) })

-- `cancelTimerInLoop`; only the address of the handle is looked at.
pub cancel_timer_in_loop : ℕ → TimerQueue → Option TimerQueue
cancel_timer_in_loop p q = assert (length q.timers == length q.active_timers) q >>= λ q₁.
    (if has p q₁.active_timers
      then (q₁.heap p >>= λ t. some (record q₁ {
        timers = erase_entry (record { when = t.expired; timer = p }) q₁.timers;
        active_timers = erase p q₁.active_timers;
        heap = update_at q₁.heap p none;
      }))
      else if q₁.calling_expired_timers
      then some (record q₁ { cancel_timers = p ∷ q₁.cancel_timers })
      else some q₁)
    >>= λ q₂. assert (length q₂.timers == length q₂.active_timers) q₂

-- The entries up to `now`, those behind them, and what is left of the active timers.
unfoldable pub split_expired : ℕ → List Entry → List Entry × List Entry
split_expired now [] = ([], [])
split_expired now (e ∷ es) =
    let rest = split_expired now es in if leb e.when now then (e ∷ rest.0, rest.1) else ([], e ∷ es)

pub erase_all : List Entry → List ℕ → Option (List ℕ)
erase_all [] active = some active
erase_all (e ∷ es) active = if has e.timer active then erase_all es (erase e.timer active) else none

-- `getExpired`. An entry at `now` comes before the sentinel, whose address is the largest.
pub get_expired : ℕ → TimerQueue → Option (List Entry × TimerQueue)
get_expired now q =
    let (expired, rest) = split_expired now q.timers in
    erase_all expired q.active_timers >>= λ active.
    assert (length rest == length active) (record q { timers = rest; active_timers = active })
    >>= λ q'. some (expired, q')

-- A call that a callback makes of the queue.
pub data Call : Type 0 where
  adds : ℕ → ℕ → ℕ → ℕ → Call
  cancels : ℕ → Call

pub do_call : Call → TimerQueue → Option TimerQueue
do_call (adds p sequence when interval) q = add_timer p sequence when interval q
do_call (cancels p) q = cancel_timer_in_loop p q

-- `runAt`, `runAfter` and `runEvery` of net/src/eventloop.cpp, with the address and the number of the new
-- timer and the time that it is.
abbrev pub run_at : ℕ → ℕ → ℕ → Call
run_at p sequence time = adds p sequence time 0

abbrev pub run_after : ℕ → ℕ → ℕ → ℕ → Call
run_after p sequence now delay = adds p sequence (add_time now delay) 0

abbrev pub run_every : ℕ → ℕ → ℕ → ℕ → Call
run_every p sequence now interval = adds p sequence (add_time now interval) interval

pub do_calls : List Call → TimerQueue → Option TimerQueue
do_calls [] q = some q
do_calls (c ∷ cs) q = do_call c q >>= λ q'. do_calls cs q'

-- The loop of `handleRead`: each expired timer runs its callback.
pub run_all : (ℕ → List Call) → List Entry → TimerQueue → Option TimerQueue
run_all callback [] q = some q
run_all callback (e ∷ es) q =
    q.heap e.timer >>= λ t. do_calls (callback e.timer) q >>= λ q'. run_all callback es q'

-- The loop of `reset`.
pub reset_all : ℕ → List Entry → TimerQueue → Option TimerQueue
reset_all now [] q = some q
reset_all now (e ∷ es) q = q.heap e.timer >>= λ t.
    (if t.repeated
      then (insert e.timer (record q { heap = update_at q.heap e.timer (some (restart now t)) })
          >>= λ (c, q'). some q')
      else some (record q { heap = update_at q.heap e.timer none }))
    >>= λ q'. reset_all now es q'

-- `reset`; a time is valid if it is not 0.
pub reset : ℕ → List Entry → TimerQueue → Option TimerQueue
reset now es q = reset_all now es q >>= λ q'. earliest q' q'.timers >>= λ first.
    some (elim first [ none ↦ q' | some w ↦ if valid w then arm w q' else q' ])

-- `handleRead`, with the two readings of the clock.
pub handle_read : ℕ → ℕ → (ℕ → List Call) → TimerQueue → Option TimerQueue
handle_read now later callback q = get_expired now q >>= λ (expired, q₁).
    run_all callback expired (record q₁ { calling_expired_timers = true; cancel_timers = [] })
    >>= λ q₂. reset later expired (record q₂ { calling_expired_timers = false })

-- `howMuchTimeFromNow`: seconds and nanoseconds, at least 100 microseconds ahead.
pub how_much_time_from_now : ℕ → ℕ → ℕ × ℕ
how_much_time_from_now now when =
    let detal = if ltb when (now + 100) then 100 else when - now in
    (detal / 1000000, detal % 1000000 * 1000)
