-- ===== src/Bitmap/Set.antt =====
-- A bitmap is the set of the indices that were set.
use toywasm.Base.{
  ℕ, zero, suc, ◌+◌, ◌*◌, ◌/◌, ◌%◌, ◌^◌, ◌<◌, ◌≡◌, ◌≢◌, refl, ap, ◌∙◌, arith, Bool, true, not,
}
use toywasm.Base.{List, get_elem?, set, length, none, some, ◌==◌, Result, ok, fault}
use toywasm.Base.{bit_and, bit_or, inl, inr, ◌⊎◌, get_elem?-set_self, get_elem?-set_ne}
use toywasm.Base.{Option, sym, get_elem?-some, length-set}
use toywasm.Base.Bits.{bit_or_disjoint, bit_or_halves, bit_and_halves, bit_and-zero}
use toywasm.Bitmap.{bitmap_set, bitmap_test}
use native.Mathlib.Nat.{pow-suc}

-- Bit `k` of a number, by halving.
bit : (k x : ℕ) → Bool
bit zero x = x % 2 == 1
bit (suc k) x = bit k (x / 2)

bit_and_power : (k x : ℕ) → not (bit_and x (2 ^ k) == 0) ≡ bit k x
unfolding bit
bit_and_power zero x = ground (arith, bit_and_halves x 1, bit_and-zero (x / 2))
bit_and_power (suc k) x = ground (
  arith,
  bit_and_halves x (2 ^ suc k),
  pow-suc 2 k,
  ap (λ (t : ℕ). bit_and (x / 2) t) half,
  bit_and_power k (x / 2),
)
  where
    half : 2 ^ suc k / 2 ≡ 2 ^ k
    half = omega (arith, pow-suc 2 k)

halved_power : (k : ℕ) → (2 ^ suc k / 2 ≡ 2 ^ k) × (2 ^ suc k % 2 ≡ 0)
halved_power k = (omega (arith, pow-suc 2 k), omega (arith, pow-suc 2 k))

halved_or : (k x : ℕ) → bit_or x (2 ^ suc k) / 2 ≡ bit_or (x / 2) (2 ^ k)
halved_or k x =
    let e : bit_or (x / 2) (2 ^ suc k / 2) ≡ bit_or (x / 2) (2 ^ k) = rw ((halved_power k).0) in
    omega (arith, bit_or_halves x (2 ^ suc k), e)

bit-or_self : (k x : ℕ) → bit k (bit_or x (2 ^ k)) ≡ true
unfolding bit
bit-or_self zero x = ground (arith, bit_or_halves x 1)
bit-or_self (suc k) x = ap (bit k) (halved_or k x) ∙ bit-or_self k (x / 2)

bit_or-zero : (k x : ℕ) → x < 2 ^ k → bit_or x 0 ≡ x
bit_or-zero k x h =
    let z : 0 * 2 ^ k ≡ 0 = omega arith in
    let d : bit_or x 0 ≡ x + 0 = rw z at (bit_or_disjoint k x 0 h) in omega arith

below_power : (x : ℕ) → x < 2 ^ x
below_power zero = omega arith
below_power (suc x) = omega (arith, below_power x, pow-suc 2 x)

bit-or_other : (j k x : ℕ) → j ≢ k → bit j (bit_or x (2 ^ k)) ≡ bit j x
unfolding bit
bit-or_other zero zero x h = absurd (h refl)
bit-or_other zero (suc k) x h = ground (arith, bit_or_halves x (2 ^ suc k), (halved_power k).1)
bit-or_other (suc j) zero x h =
    ap (bit j) (omega (arith, bit_or_halves x 1, bit_or-zero (x / 2) (x / 2) (below_power (x / 2))))
bit-or_other (suc j) (suc k) x h =
    ap (bit j) (halved_or k x) ∙ bit-or_other j k (x / 2) (λ e. h (ap suc e))

-- The test as a function of the word.
test_word : (idx : ℕ) → Option ℕ → Result Bool
test_word idx = elim [ none ↦ fault | some word ↦ ok (not (bit_and word (2 ^ (idx % 32)) == 0)) ]

bitmap_test-word :
    (b : List ℕ) (idx : ℕ) → bitmap_test b idx ≡ test_word idx (get_elem? b (idx / 32))
unfolding bitmap_test test_word
bitmap_test-word b idx = refl

bitmap_test-bit :
    (b : List ℕ) (idx : ℕ) {word : ℕ}
    → get_elem? b (idx / 32) ≡ some word
    → bitmap_test b idx ≡ ok (bit (idx % 32) word)
unfolding test_word
bitmap_test-bit b idx {word} e =
    bitmap_test-word b idx
    ∙ ap (test_word idx) e
    ∙ ap (λ (x : Bool). ok x) (bit_and_power (idx % 32) word)

bitmap_set-word :
    (b : List ℕ) (idx : ℕ) {word : ℕ}
    → get_elem? b (idx / 32) ≡ some word
    → bitmap_set b idx ≡ ok (set b (idx / 32) (bit_or word (2 ^ (idx % 32))))
unfolding bitmap_set
bitmap_set-word b idx {word} e = ap set_in e
  where
    set_in : Option ℕ → Result (List ℕ)
    set_in = elim [
      | none ↦ fault
      | some word ↦ ok (set b (idx / 32) (bit_or word (2 ^ (idx % 32))))
    ]

-- Setting an index of a bitmap that has its word returns a bitmap of as many words, in which this index
-- tests true, and any other index of the bitmap as before.
pub bitmap_test-bitmap_set :
    (b : List ℕ) (i : ℕ)
    → i / 32 < length b
    → (b' : List ℕ) × (bitmap_set b i ≡ ok b')
      × (length b' ≡ length b)
      × (bitmap_test b' i ≡ ok true)
      × ((j : ℕ) → j ≢ i → bitmap_test b' j ≡ bitmap_test b j)
bitmap_test-bitmap_set b i h =
    let (word, e) = get_elem?-some b (i / 32) h in
    let word' = bit_or word (2 ^ (i % 32)) in
    let b' = set b (i / 32) word' in
    (
      b',
      bitmap_set-word b i e,
      length-set b (i / 32) word',
      bitmap_test-bit b' i (get_elem?-set_self b (i / 32) word' h)
          ∙ ap (λ (x : Bool). ok x) (bit-or_self (i % 32) word),
      other word e,
    )
  where
    other :
        (word : ℕ)
        → get_elem? b (i / 32) ≡ some word
        → (j : ℕ) → j ≢ i
        → bitmap_test (set b (i / 32) (bit_or word (2 ^ (i % 32)))) j ≡ bitmap_test b j
    other word e j n = elim (same_or_not (j / 32) (i / 32)) [
      | inl same ↦
          let e' : get_elem? b (j / 32) ≡ some word = rw same e in
          let found : get_elem? (set b (i / 32) (bit_or word (2 ^ (i % 32)))) (j / 32)
              ≡ some (bit_or word (2 ^ (i % 32))) =
            rw same (get_elem?-set_self b (i / 32) (bit_or word (2 ^ (i % 32))) h) in
          bitmap_test-bit _ j found
          ∙ ap (λ (x : Bool). ok x) (bit-or_other (j % 32) (i % 32) word (λ r. n (omega arith)))
          ∙ sym (bitmap_test-bit b j e')
      | inr differ ↦
          bitmap_test-word _ j
          ∙ ap (test_word j) (get_elem?-set_ne b (i / 32) (j / 32) _ (λ s. differ (sym s)))
          ∙ sym (bitmap_test-word b j)
    ]
      where
        same_or_not : (a b : ℕ) → (a ≡ b) ⊎ (a ≢ b)
        same_or_not a b = omega arith
