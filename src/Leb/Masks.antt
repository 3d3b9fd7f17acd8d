-- ===== src/Leb/Masks.antt =====
-- The masks of the reader as arithmetic, and powers of two.
use toywasm.Base.{ℕ, zero, suc, ◌+◌, ◌-◌, ◌*◌, ◌/◌, ◌%◌, ◌^◌, ◌≤◌, ◌<◌, ◌≡◌, refl, ap, ◌∙◌, arith}
use toywasm.Base.{Bool, true, false, bit_and, ltb, ◌==◌, ==_iff}
use toywasm.Base.Bits.{table, test_of_table}
use toywasm.Leb.{mask}
use native.Mathlib.Nat.{pow-suc, one-le-pow}

pub pow_add : (a b : ℕ) → 2 ^ (a + b) ≡ 2 ^ a * 2 ^ b
pow_add a zero = let e : a + 0 ≡ a = omega arith in rw e (omega arith)
pow_add a (suc b) =
    let e : a + suc b ≡ suc (a + b) = omega arith in
    rw e (omega (arith, pow-suc 2 (a + b), pow_add a b, ap (λ (t : ℕ). 2 ^ a * t) (pow-suc 2 b)))

pub pow_split : (a c : ℕ) → a ≤ c → 2 ^ c ≡ 2 ^ a * 2 ^ (c - a)
pow_split a c h =
    let e : c ≡ a + (c - a) = omega arith in ap (λ (t : ℕ). 2 ^ t) e ∙ pow_add a (c - a)

pub pow_pos : (a : ℕ) → 1 ≤ 2 ^ a
pow_pos a = one-le-pow a 2 (omega arith)

pub pow_mono : (a c : ℕ) → a ≤ c → 2 ^ a ≤ 2 ^ c
pow_mono a c h = grind (arith, pow_split a c h, pow_pos (c - a))

same : Bool → Bool → Bool
same true b = b
same false true = false
same false false = true

same-eq : (a b : Bool) → same a b ≡ true → a ≡ b
unfolding same
same-eq a b h = ground arith

-- For `k < 7` and `v < 128`, no bit of `v` under the mask means `v < 2 ^ k`.
all_masks :
    table (λ i. same (bit_and (i % 128) (mask (i / 128)) == 0) (ltb (i % 128) (2 ^ (i / 128)))) 896
    ≡ true
unfolding table mask same
all_masks = refl

pub mask_lem : (k v : ℕ) → k < 7 → v < 128 → (bit_and v (mask k) == 0) ≡ ltb v (2 ^ k)
mask_lem k v hk hv =
    let r : (k * 128 + v) % 128 ≡ v = omega arith in
    let q : (k * 128 + v) / 128 ≡ k = omega arith in
    rw (r, q) at
      (same-eq _ _ (
        test_of_table
          (λ i. same (bit_and (i % 128) (mask (i / 128)) == 0) (ltb (i % 128) (2 ^ (i / 128)))) 896
          (k * 128 + v) (omega arith) all_masks))

-- `~v & 0x7f`
all_complements : table (λ v. bit_and (2 ^ 32 - 1 - v) 0x7f == 127 - v) 128 ≡ true
unfolding table
all_complements = refl

pub complement : (v : ℕ) → v < 128 → bit_and (2 ^ 32 - 1 - v) 0x7f ≡ 127 - v
complement v h =
    (==_iff _ _).0
      (test_of_table (λ v. bit_and (2 ^ 32 - 1 - v) 0x7f == 127 - v) 128 v h all_complements)
