-- ===== src/Business/Calendar/Hours.antt =====
-- The bitmaps of hours of server/utils/TimeConverter.cpp.
use Prim.Native.String.{String}
use qinyunserver.Base.{
  ℕ, zero, suc, ◌+◌, ◌-◌, ◌*◌, ◌/◌, ◌^◌, ◌≤◌, ◌<◌, ◌≡◌, ◌↔◌, refl, sym, ap, ◌∙◌, Bool, true, false,
  ◌&&◌, ◌||◌, not, leb, ltb, ◌==◌, arith, if◌then◌else◌, Bool-cases, inl, inr, ne→not_==, ==_iff,
}
use qinyunserver.Base.Int.{ℤ, pos, ◌<ℤ◌}
use qinyunserver.Business.Interface.{Calendar}
use qinyunserver.Business.Bits.{
  or_bits, and_bits, test_bit, test_bit-or_bits, and_bits-zero, and_bits-common,
}
use qinyunserver.Business.Calendar.{
  in_minutes, overlaps, hour_mask, calculate_hour_mask, duration_by_mask,
  calculate_duration_by_mask,
}

test_bit-zero : (i : ℕ) → test_bit i 0 ≡ false
test_bit-zero zero = refl
test_bit-zero (suc i) = test_bit-zero i

half-pow : (k : ℕ) → 2 ^ suc k / 2 ≡ 2 ^ k
half-pow k = omega arith

-- The bits of a power of two.
test_bit-pow : (i k : ℕ) → test_bit i (2 ^ k) ≡ (i == k)
test_bit-pow zero zero = refl
test_bit-pow (suc i) zero = test_bit-zero i ∙ sym (ne→not_== (suc i) 0 (λ h. omega arith))
test_bit-pow zero (suc k) = ground arith
test_bit-pow (suc i) (suc k) = ap (test_bit i) (half-pow k) ∙ test_bit-pow i k ∙ ground arith

-- One round sets the bit `14 - r`, where `v` holds of it.
round_lem :
    (v : ℕ → Bool) (old : Bool) (r i : ℕ)
    → r < 15
    → ((if v (14 - r) then old || (i == 14 - r) else old) || (leb (15 - r) i && ltb i 15 && v i))
      ≡ (old || (leb (15 - suc r) i && ltb i 15 && v i))
round_lem v old r i h = elim (Bool-cases (i == 14 - r)) [
  | inl same ↦ let e : i ≡ 14 - r = (==_iff i (14 - r)).0 same in ground (arith, ap v e)
  | inr other ↦ ground arith
]

module _ (act_start act_end : ℤ) where
  test_bit-hour_mask :
      (rounds mask i : ℕ)
      → rounds ≤ 15
      → i < 32
      → test_bit i (hour_mask act_start act_end rounds mask)
        ≡ (test_bit i mask || (leb (15 - rounds) i && ltb i 15 && overlaps act_start act_end i))
  unfolding hour_mask
  test_bit-hour_mask zero mask i h k = ground arith
  test_bit-hour_mask (suc r) mask i h k =
      test_bit-hour_mask r _ i (omega arith) k
      ∙ ap (λ b. b || (leb (15 - r) i && ltb i 15 && overlaps act_start act_end i)) new_mask
      ∙ round_lem (overlaps act_start act_end) (test_bit i mask) r i (omega arith)
    where
      v : Bool
      v = overlaps act_start act_end (14 - r)

      new_mask :
          test_bit i (if v then or_bits 32 mask (2 ^ (14 - r)) else mask)
          ≡ (if v then test_bit i mask || (i == 14 - r) else test_bit i mask)
      new_mask = elim (Bool-cases v) [
        | inl set ↦ rw set (
            test_bit-or_bits 32 i mask (2 ^ (14 - r)) k
            ∙ ap (λ b. test_bit i mask || b) (test_bit-pow i (14 - r)))
        | inr kept ↦ rw kept refl
      ]

module _ (T : Calendar) (start_time end_time : String) where
  calculate_hour_mask-overlaps :
      (i : ℕ)
      → i < 32
      → test_bit i (calculate_hour_mask T start_time end_time) ≡ (
          ltb i 15
          && overlaps (in_minutes (T.scan_time start_time)) (in_minutes (T.scan_time end_time)) i)
  unfolding calculate_hour_mask
  calculate_hour_mask-overlaps i h =
      test_bit-hour_mask _ _ 15 0 i (omega arith) h ∙ rw (test_bit-zero i) (ground arith)

  -- Of the 32 bits of the mask of two times, the bit `i` is set exactly where `i` is below 15 and the hour
  -- from `7 + i` to `8 + i` overlaps the time between the two: it starts before the hour ends, and ends
  -- after the hour starts, in minutes.
  pub calculate_hour_mask_lem :
      (i : ℕ)
      → i < 32
      → (test_bit i (calculate_hour_mask T start_time end_time) ≡ true) ↔ (
          (i < 15)
          × (in_minutes (T.scan_time start_time) <ℤ pos ((8 + i) * 60))
          × (pos ((7 + i) * 60) <ℤ in_minutes (T.scan_time end_time)))
  calculate_hour_mask_lem i h =
      rw (calculate_hour_mask-overlaps i h)
        ((λ set. (ground arith, ground arith, ground arith)), λ (small, from, to). ground arith)

-- How many of the hours from `15 - n` to 14 a test holds of.
abbrev pub count_hours : (ℕ → Bool) → ℕ → ℕ
count_hours p zero = 0
count_hours p (suc n) = (if p (14 - n) then 1 else 0) + count_hours p n

and_bits-pow : (mask k : ℕ) → k < 32 → (and_bits 32 mask (2 ^ k) == 0) ≡ not (test_bit k mask)
and_bits-pow mask k h = elim (Bool-cases (and_bits 32 mask (2 ^ k) == 0)) [
  | inl none_set ↦
      none_set ∙ ground (arith, and_bits-zero 32 k mask (2 ^ k) none_set h, test_bit-pow k k)
  | inr some_set ↦
      let (i, small, both) = and_bits-common 32 mask (2 ^ k) some_set in
      some_set
      ∙ ground (
        arith,
        test_bit-pow i k,
        ap (λ j. test_bit j mask) ((==_iff i k).0 (ground (arith, test_bit-pow i k))),
      )
]

duration_by_mask_lem :
    (mask n hours : ℕ)
    → n ≤ 15
    → duration_by_mask mask n hours ≡ hours + count_hours (λ i. test_bit i mask) n
unfolding duration_by_mask
duration_by_mask_lem mask zero hours h = omega arith
duration_by_mask_lem mask (suc n) hours h =
    duration_by_mask_lem mask n _ (omega arith)
    ∙ ap (λ k. k + count_hours (λ i. test_bit i mask) n) counted
    ∙ omega arith
  where
    counted :
        (if and_bits 32 mask (2 ^ (14 - n)) == 0 then hours else hours + 1)
        ≡ hours + (if test_bit (14 - n) mask then 1 else 0)
    counted = rw (and_bits-pow mask (14 - n) (omega arith)) (ground arith)

count_hours-eq :
    (p q : ℕ → Bool) (n : ℕ)
    → n ≤ 15
    → ((i : ℕ) → i < 15 → p i ≡ q i)
    → count_hours p n ≡ count_hours q n
count_hours-eq p q zero h e = refl
count_hours-eq p q (suc n) h e =
    rw (e (14 - n) (omega arith))
      (ap (λ k. (if q (14 - n) then 1 else 0) + k) (count_hours-eq p q n (omega arith) e))

-- The duration that a mask is given is the number of its hours, and so the duration of the mask of two times
-- is the number of the hours from 7 to 22 that overlap the time between them.
pub calculate_duration_by_mask-calculate_hour_mask :
    (T : Calendar) (start_time end_time : String)
    → ((mask : ℕ) → calculate_duration_by_mask mask ≡ count_hours (λ i. test_bit i mask) 15)
      × (calculate_duration_by_mask (calculate_hour_mask T start_time end_time)
          ≡ count_hours
              (overlaps (in_minutes (T.scan_time start_time)) (in_minutes (T.scan_time end_time)))
              15)
unfolding calculate_duration_by_mask
calculate_duration_by_mask-calculate_hour_mask T start_time end_time =
    (whole, whole _ ∙ count_hours-eq _ _ 15 (omega arith) below)
  where
    whole : (mask : ℕ) → duration_by_mask mask 15 0 ≡ count_hours (λ i. test_bit i mask) 15
    whole mask = duration_by_mask_lem mask 15 0 (omega arith) ∙ omega arith

    below :
        (i : ℕ)
        → i < 15
        → test_bit i (calculate_hour_mask T start_time end_time)
          ≡ overlaps (in_minutes (T.scan_time start_time)) (in_minutes (T.scan_time end_time)) i
    below i h = calculate_hour_mask-overlaps T start_time end_time i (omega arith) ∙ ground arith
