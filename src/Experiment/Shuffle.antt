-- ===== src/Experiment/Shuffle.antt =====
-- `mulberry32` and `shuffle` of src/evaluation/smoke.ts.
-- A generator is a function from its state to a word and the next state. Words are natural numbers below
-- 2 ^ 32; `random()` is such a word divided by 2 ^ 32, so `Math.floor(random() * n)` is the
-- quotient of natural numbers below, since a word times n stays in the 53 bits of a binary64 for
-- every list shorter than 2 ^ 21.
use Prim.Native.Nat.{bit_or, bit_xor}
use native.Mathlib.Nat.{div-lt_iff_lt-mul, mul-lt-mul_of_pos_right}
use downshift.Base.{
  ℕ, zero, suc, ◌+◌, ◌*◌, ◌/◌, ◌%◌, ◌^◌, ◌<◌, ◌≤◌, ◌≡◌, refl, ◌∙◌, Bool, Option, none, some, List,
  [], ◌∷◌, arith, length, get_elem?, set, count, tally,
}

-- `Math.imul`, as an unsigned word.
abbrev imul : ℕ → ℕ → ℕ
imul a b = a * b % 2 ^ 32

-- `value >>> k`
abbrev shr : ℕ → ℕ → ℕ
shr a k = a / 2 ^ k

-- The word and the next state.
unfoldable pub mulberry32 : ℕ → ℕ × ℕ
mulberry32 seed =
    let state = (seed + 0x6d2b79f5) % 2 ^ 32 in
    let v1 = imul (bit_xor state (shr state 15)) (bit_or state 1) in
    let v2 = bit_xor v1 ((v1 + imul (bit_xor v1 (shr v1 7)) (bit_or v1 61)) % 2 ^ 32) in
    (bit_xor v2 (shr v2 14) % 2 ^ 32, state)

-- `Math.floor(random() * n)`
abbrev pub below : ℕ → ℕ → ℕ
below word n = word * n / 2 ^ 32

module _ {ℓ} {A : Type ℓ} where
  -- Both places are within the list.
  swap_with : List A → ℕ → ℕ → Option A → Option A → List A
  swap_with xs i j (some a) (some b) = set (set xs i b) j a
  swap_with xs i j _ _ = xs

  swap : List A → ℕ → ℕ → List A
  unfolding swap_with
  swap xs i j = swap_with xs i j (get_elem? xs i) (get_elem? xs j)

  -- The loop from an index down to 1.
  shuffle_from : (ℕ → ℕ × ℕ) → ℕ → List A → ℕ → List A × ℕ
  unfolding swap
  shuffle_from random zero xs state = (xs, state)
  shuffle_from random (suc i) xs state =
      let (word, state') = random state in
      shuffle_from random i (swap xs (suc i) (below word (suc (suc i)))) state'

  last_index : List A → ℕ
  last_index [] = 0
  last_index (x ∷ xs) = length xs

  -- The shuffled list and the generator's next state.
  unfoldable pub shuffle : (ℕ → ℕ × ℕ) → List A → ℕ → List A × ℕ
  unfolding shuffle_from last_index
  shuffle random xs state = shuffle_from random (last_index xs) xs state

  count-set :
      (p : A → Bool) (xs : List A) (i : ℕ) (a b : A)
      → get_elem? xs i ≡ some a
      → count p (set xs i b) + tally (p a) ≡ count p xs + tally (p b)
  count-set p [] i a b h = absurd (ground arith)
  count-set p (x ∷ xs) zero a b h = ground arith
  count-set p (x ∷ xs) (suc i) a b h = omega (arith, count-set p xs i a b h)

  get-set :
      (xs : List A) (i j : ℕ) {a b : A}
      → get_elem? xs i ≡ some a
      → get_elem? xs j ≡ some b
      → get_elem? (set xs i b) j ≡ some b
  get-set [] i j h k = absurd (ground arith)
  get-set (x ∷ xs) zero zero h k = refl
  get-set (x ∷ xs) zero (suc j) h k = k
  get-set (x ∷ xs) (suc i) zero h k = k
  get-set (x ∷ xs) (suc i) (suc j) h k = get-set xs i j h k

  count-swap : (p : A → Bool) (xs : List A) (i j : ℕ) → count p (swap xs i j) ≡ count p xs
  unfolding swap
  count-swap p xs i j = go (get_elem? xs i) (get_elem? xs j) refl refl
    where
      go :
          (a b : Option A)
          → get_elem? xs i ≡ a
          → get_elem? xs j ≡ b
          → count p (swap_with xs i j a b) ≡ count p xs
      go none b h k = refl
      go (some a) none h k = refl
      go (some a) (some b) h k =
          omega (arith, count-set p xs i a b h, count-set p (set xs i b) j b a (get-set xs i j h k))

  count-shuffle_from :
      (p : A → Bool) (random : ℕ → ℕ × ℕ) (i : ℕ) (xs : List A) (state : ℕ)
      → count p (shuffle_from random i xs state).0 ≡ count p xs
  unfolding shuffle_from
  count-shuffle_from p random zero xs state = refl
  count-shuffle_from p random (suc i) xs state =
      count-shuffle_from p random i _ _ ∙ count-swap p xs (suc i) _

  -- `shuffle` reorders: it keeps the number of elements that pass a test, for every test and every
  -- generator.
  pub count-shuffle :
      (p : A → Bool) (random : ℕ → ℕ × ℕ) (xs : List A) (state : ℕ)
      → count p (shuffle random xs state).0 ≡ count p xs
  unfolding shuffle
  count-shuffle p random xs state = count-shuffle_from p random (last_index xs) xs state

below-lt : (word n : ℕ) → word < 2 ^ 32 → below word (suc n) < suc n
below-lt word n h =
    (div-lt_iff_lt-mul {k = 2 ^ 32} {x = word * suc n} {y = suc n} (omega arith)).1
      (omega (arith, mul-lt-mul_of_pos_right {m = word} {n = 2 ^ 32} {k = suc n} h (omega arith)))

-- The place that the loop draws for an index is at most that index, at every state of the generator.
pub below-mulberry32 : (state n : ℕ) → below (mulberry32 state).0 (suc n) ≤ n
unfolding mulberry32
below-mulberry32 state n = omega (arith, below-lt (mulberry32 state).0 n (omega arith))
