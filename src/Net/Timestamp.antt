-- ===== src/Net/Timestamp.antt =====
-- net/include/timestamp.h and net/src/timestamp.cpp: a time is a number of microseconds since the epoch,
-- of no time before it. An interval, a double of seconds there, is a number of nanoseconds.
use qinyunserver.Base.{ℕ, ◌+◌, ◌*◌, ◌/◌, ◌<◌, ◌≡◌, Bool, ltb, arith}

abbrev pub micro_seconds_per_second : ℕ
micro_seconds_per_second = 1000 * 1000

abbrev pub valid : ℕ → Bool
valid t = ltb 0 t

abbrev seconds_since_epoch : ℕ → ℕ
seconds_since_epoch t = t / micro_seconds_per_second

abbrev from_unix_time : ℕ → ℕ → ℕ
from_unix_time t microseconds = t * micro_seconds_per_second + microseconds

-- `addTime`: the product by kMicroSecondsPerSecond, cut to an integer.
abbrev pub add_time : ℕ → ℕ → ℕ
add_time t interval = t + interval / 1000

-- The seconds of a time made of seconds and of less than a second of microseconds are those it was made
-- of.
seconds_since_epoch-from_unix_time :
    (t microseconds : ℕ)
    → microseconds < micro_seconds_per_second
    → seconds_since_epoch (from_unix_time t microseconds) ≡ t
seconds_since_epoch-from_unix_time t microseconds h = omega arith

-- A second of interval is a second later.
seconds_since_epoch-add_time :
    (t n : ℕ) → seconds_since_epoch (add_time t (n * 1000000000)) ≡ seconds_since_epoch t + n
seconds_since_epoch-add_time t n = omega arith
