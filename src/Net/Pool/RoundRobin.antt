-- ===== src/Net/Pool/RoundRobin.antt =====
-- The order in which `getNextLoop` of net/src/eventloop.cpp gives the loops out.
use native.Mathlib.Nat.{mod-add-mod, mod-eq_of_lt, mod-lt}
use qinyunserver.Base.{
  ℕ, zero, suc, ◌+◌, ◌%◌, ◌<◌, ◌≡◌, refl, sym, ap, ◌∙◌, Option, some, List, [], ◌∷◌, length,
  get_elem?, arith, false, ◌==◌,
}
use qinyunserver.Net.Buffer.{◌>>=◌}
use qinyunserver.Net.Pool.{Pool, get_next_loop}

-- The pool behind some calls of `getNextLoop`.
abbrev pub after_calls : ℕ → Pool → Option Pool
after_calls zero p = some p
after_calls (suc k) p = get_next_loop p >>= λ (l, p'). after_calls k p'

get_elem?-lt : (xs : List ℕ) (i : ℕ) → i < length xs → (x : ℕ) × (get_elem? xs i ≡ some x)
get_elem?-lt [] i h = absurd (omega (arith, h))
get_elem?-lt (x ∷ xs) zero h = (x, refl)
get_elem?-lt (x ∷ xs) (suc i) h = get_elem?-lt xs i (omega arith)

pub get_next_loop-lt :
    (p : Pool)
    → 0 < p.thread_num
    → p.next_idx < length p.loops
    → (l : ℕ) × (get_elem? p.loops p.next_idx ≡ some l)
      × (get_next_loop p ≡ some (l, record p { next_idx = (p.next_idx + 1) % length p.loops }))
unfolding get_next_loop
get_next_loop-lt p t h =
    let (l, e) = get_elem?-lt p.loops p.next_idx h in
    let several : (p.thread_num == 0) ≡ false = ground arith in (l, e, rw (several, e) refl)

after_calls-lt :
    (k : ℕ) (p : Pool)
    → 0 < p.thread_num
    → p.next_idx < length p.loops
    → after_calls k p ≡ some (record p { next_idx = (p.next_idx + k) % length p.loops })
after_calls-lt zero p t h =
    ap (λ i. some (record p { next_idx = i }))
      (sym (ap (λ i. i % length p.loops) (omega arith) ∙ mod-eq_of_lt h))
after_calls-lt (suc k) p t h =
    let (l, e, got) = get_next_loop-lt p t h in
    rw got (
      after_calls-lt k (record p { next_idx = (p.next_idx + 1) % length p.loops }) t
        (mod-lt _ (omega arith))
      ∙ ap (λ i. some (record p { next_idx = i }))
          (mod-add-mod (p.next_idx + 1) (length p.loops) k
            ∙ ap (λ i. i % length p.loops) (omega arith)))

-- The loops are given out in turn: in a pool with threads and an index inside its vector, the call behind
-- `k` others gives the loop that stands `k` places behind the index, counted round the vector.
pub get_next_loop-after_calls :
    (k : ℕ) (p : Pool)
    → 0 < p.thread_num
    → p.next_idx < length p.loops
    → (p₁ p₂ : Pool) × (l : ℕ) × (after_calls k p ≡ some p₁)
      × (get_next_loop p₁ ≡ some (l, p₂))
      × (get_elem? p.loops ((p.next_idx + k) % length p.loops) ≡ some l)
get_next_loop-after_calls k p t h =
    let p₁ : Pool = record p { next_idx = (p.next_idx + k) % length p.loops } in
    let (l, e, got) = get_next_loop-lt p₁ t (mod-lt (p.next_idx + k) (omega arith)) in
    (p₁, _, l, after_calls-lt k p t h, got, e)
