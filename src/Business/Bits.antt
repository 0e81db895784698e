-- ===== src/Business/Bits.antt =====
-- `|` and `&` on the uint32_t of server/business/BusinessServer.cpp, as numbers, and their bits.
use qinyunserver.Base.{
  ℕ, zero, suc, ◌+◌, ◌*◌, ◌/◌, ◌%◌, ◌<◌, ◌≡◌, ap, ◌∙◌, Bool, true, false, ◌&&◌, ◌||◌, ◌==◌,
  if◌then◌else◌, arith, Bool-cases, inl, inr,
}

-- `|` on numbers of as many bits as the fuel has.
unfoldable pub or_bits : ℕ → ℕ → ℕ → ℕ
or_bits zero a b = 0
or_bits (suc bits) a b =
    (if a % 2 == 1 || b % 2 == 1 then 1 else 0) + 2 * or_bits bits (a / 2) (b / 2)

-- `&` likewise.
unfoldable pub and_bits : ℕ → ℕ → ℕ → ℕ
and_bits zero a b = 0
and_bits (suc bits) a b =
    (if a % 2 == 1 && b % 2 == 1 then 1 else 0) + 2 * and_bits bits (a / 2) (b / 2)

-- The bit `i` of a number.
abbrev pub test_bit : ℕ → ℕ → Bool
test_bit zero n = n % 2 == 1
test_bit (suc i) n = test_bit i (n / 2)

pub test_bit-or_bits :
    (bits i a b : ℕ) → i < bits → test_bit i (or_bits bits a b) ≡ (test_bit i a || test_bit i b)
unfolding or_bits
test_bit-or_bits zero i a b h = absurd (omega (arith, h))
test_bit-or_bits (suc bits) zero a b h = ground arith
test_bit-or_bits (suc bits) (suc i) a b h =
    ap (test_bit i) half ∙ test_bit-or_bits bits i (a / 2) (b / 2) (omega arith)
  where
    half : or_bits (suc bits) a b / 2 ≡ or_bits bits (a / 2) (b / 2)
    half = ground arith

-- Two numbers whose `&` is 0 have no bit in common.
pub and_bits-zero :
    (bits i a b : ℕ)
    → (and_bits bits a b == 0) ≡ true
    → i < bits
    → (test_bit i a && test_bit i b) ≡ false
unfolding and_bits
and_bits-zero zero i a b e h = absurd (omega (arith, h))
and_bits-zero (suc bits) zero a b e h = ground arith
and_bits-zero (suc bits) (suc i) a b e h =
    and_bits-zero bits i (a / 2) (b / 2) (ground arith) (omega arith)

-- Two numbers whose `&` is not 0 have a bit in common.
pub and_bits-common :
    (bits a b : ℕ)
    → (and_bits bits a b == 0) ≡ false
    → (i : ℕ) × (i < bits) × ((test_bit i a && test_bit i b) ≡ true)
unfolding and_bits
and_bits-common zero a b e = absurd (no_bits e)
  where
    no_bits : (and_bits zero a b == 0) ≡ false → ⊥
    no_bits h = ground arith
and_bits-common (suc bits) a b e = elim (Bool-cases (a % 2 == 1 && b % 2 == 1)) [
  | inl both ↦ (0, omega arith, both)
  | inr other ↦
      let (i, h, common) = and_bits-common bits (a / 2) (b / 2) (ground arith) in
      (suc i, omega arith, common)
]
