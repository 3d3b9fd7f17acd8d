-- ===== src/Names/Ordered.antt =====
-- compare_name of lib/type.c as an order on names.
use toywasm.Base.{ℕ, ◌≡◌, ◌↔◌, refl, arith, List, [], ◌∷◌, length}
use toywasm.Names.{before, same, behind, memcmp, compare_name}

memcmp_same : (a b : List ℕ) → length a ≡ length b → memcmp a b ≡ same → a ≡ b
unfolding memcmp
memcmp_same [] [] e h = refl
memcmp_same [] (y ∷ b) e h = absurd (omega arith)
memcmp_same (x ∷ a) [] e h = absurd (omega arith)
memcmp_same (x ∷ a) (y ∷ b) e h = ground (arith, memcmp_same a b)

memcmp_refl : (a : List ℕ) → memcmp a a ≡ same
unfolding memcmp
memcmp_refl [] = refl
memcmp_refl (x ∷ a) = ground (arith, memcmp_refl a)

memcmp_trans :
    (a b c : List ℕ)
    → length a ≡ length b
    → length b ≡ length c
    → memcmp a b ≡ before
    → memcmp b c ≡ before
    → memcmp a c ≡ before
unfolding memcmp
memcmp_trans [] b c e e' h h' = absurd (cc h)
memcmp_trans (x ∷ a) [] c e e' h h' = absurd (omega arith)
memcmp_trans (x ∷ a) (y ∷ b) [] e e' h h' = absurd (omega arith)
memcmp_trans (x ∷ a) (y ∷ b) (z ∷ c) e e' h h' = ground (arith, memcmp_trans a b c)

memcmp_flip : (a b : List ℕ) → length a ≡ length b → memcmp a b ≡ behind → memcmp b a ≡ before
unfolding memcmp
memcmp_flip [] b e h = absurd (cc h)
memcmp_flip (x ∷ a) [] e h = absurd (omega arith)
memcmp_flip (x ∷ a) (y ∷ b) e h = ground (arith, memcmp_flip a b)

-- `a` stands before `b`.
abbrev pub IsBefore : List ℕ → List ℕ → Type 0
IsBefore a b = compare_name a b ≡ before

pub compare_name_same : (a b : List ℕ) → (compare_name a b ≡ same) ↔ (a ≡ b)
unfolding compare_name
compare_name_same a b =
    (λ h. memcmp_same a b (ground arith) (ground arith), λ e. rw e (ground (arith, memcmp_refl b)))

pub IsBefore-trans : (a b c : List ℕ) → IsBefore a b → IsBefore b c → IsBefore a c
unfolding compare_name
IsBefore-trans a b c h h' = ground (arith, memcmp_trans a b c)

pub compare_name-behind : (a b : List ℕ) → compare_name a b ≡ behind → IsBefore b a
unfolding compare_name
compare_name-behind a b h = ground (arith, memcmp_flip a b)

pub IsBefore-irrefl : (a : List ℕ) → IsBefore a a → ⊥
IsBefore-irrefl a h = let e = compare_name_same a a in absurd (cc (h, e.1 refl))
