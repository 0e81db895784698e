-- ===== src/Tests/Schedules.antt =====
-- The theorems on the schedules and on the clock at small inputs.
use qinyunserver.Base.{◌+◌, ◌-◌, ◌*◌, ◌<◌, ◌≤◌, ◌≡◌, refl, ◌||◌, List, [], ◌∷◌, arith}
use qinyunserver.Base.Int.{pos}
use qinyunserver.Net.Timer.{how_much_time_from_now}
use qinyunserver.Net.Timer.Clock.{how_much_time_from_now_lem}
use qinyunserver.Business.Bits.{or_bits, test_bit}
use qinyunserver.Business.Schedule.{CourseRule, day_mask}
use qinyunserver.Business.Schedule.Bits.{is_taken, test_bit-day_mask}
use Prim.Native.String.{String}

-- Two courses on Mondays, one in odd weeks.
abbrev courses : List CourseRule
courses =
    record {
      day_of_week = pos 1;
      time_mask = 6;
      start_week = pos 1;
      end_week = pos 16;
      week_type = pos 0;
    }
    ∷ record {
      day_of_week = pos 1;
      time_mask = 24;
      start_week = pos 2;
      end_week = pos 8;
      week_type = pos 1;
    }
    ∷ []

test_bit-day_mask_example :
    test_bit 3 (day_mask 3 1 courses 0) ≡ (test_bit 3 0 || is_taken 3 3 1 courses)
test_bit-day_mask_example = test_bit-day_mask 3 3 1 courses 0 (omega arith)

monday_test : day_mask 3 1 courses 0 ≡ 30
unfolding day_mask or_bits
monday_test = refl

how_much_time_from_now_example :
    ((how_much_time_from_now 1000 2000).1 < 1000000000)
    × (100000
        ≤ (how_much_time_from_now 1000 2000).0 * 1000000000 + (how_much_time_from_now 1000 2000).1)
    × (1000 + 100 ≤ 2000
        → (how_much_time_from_now 1000 2000).0 * 1000000000 + (how_much_time_from_now 1000 2000).1
          ≡ (2000 - 1000) * 1000)
how_much_time_from_now_example = how_much_time_from_now_lem 1000 2000
