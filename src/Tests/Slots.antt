-- ===== src/Tests/Slots.antt =====
-- The theorems on who is free, at one member.
use qinyunserver.Base.{◌≡◌, ◌<◌, ℕ, refl, true, false, some, ◌∷◌, [], ◌&&◌}
use qinyunserver.Base.Int.{pos}
use qinyunserver.Business.Interface.{Row}
use qinyunserver.Business.Server.{title, figure, decimal}
use qinyunserver.Business.Bits.{test_bit, and_bits}
use qinyunserver.Business.Handlers.Slots.{Object, slot_row}
use qinyunserver.Business.Handlers.Slots.Free.{slot_row-Free}
use qinyunserver.Business.Text.{stoi, stoul}
use qinyunserver.Business.Handlers.Rows.{each}
use qinyunserver.Tests.Requests.{small_json}

-- A member with the mask 6, who is busy in the slot of the mask 4.
abbrev member : Row
member =
    some "1"
    ∷ some "2026"
    ∷ some "Li"
    ∷ some "1"
    ∷ some "40"
    ∷ some "A"
    ∷ some "B"
    ∷ some "C"
    ∷ some "6"
    ∷ some "3"
    ∷ some "4.5"
    ∷ []

abbrev member_object : Object
member_object =
    ("user_id", figure (pos 1))
    ∷ ("student_id", title "2026")
    ∷ ("name", title "Li")
    ∷ ("gender", figure (pos 1))
    ∷ ("role_id", figure (pos 40))
    ∷ ("dept_name", title "A")
    ∷ ("major", title "B")
    ∷ ("class_name", title "C")
    ∷ ("total_count", figure (pos 3))
    ∷ ("total_hours", decimal "4.5")
    ∷ ("current_state", title "busy_course")
    ∷ []

slot_row-Free_example :
    (false ≡ true → (i : ℕ) → i < 32 → (test_bit i 6 && test_bit i 4) ≡ false)
    × (false ≡ false → (i : ℕ) × (i < 32) × ((test_bit i 6 && test_bit i 4) ≡ true))
unfolding slot_row stoul stoi and_bits each
slot_row-Free_example = slot_row-Free small_json 4 6 member false member_object refl refl
