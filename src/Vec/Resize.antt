-- ===== src/Vec/Resize.antt =====
-- Growing a vector.
use toywasm.Base.{ℕ, zero, suc, ◌+◌, ◌-◌, ◌*◌, ◌≤◌, ◌≡◌, refl, arith, true}
use toywasm.Base.{
  List, [], ◌∷◌, ◌++◌, length, take, replicate, length-append, length-replicate, leb, if◌then◌else◌,
  ok,
}
use toywasm.Mem.{size_max}
use toywasm.Vec.{Vec, ensure, vec_resize}

take_all : {A : Type 0} (n : ℕ) (xs : List A) → length xs ≤ n → take n xs ≡ xs
take_all zero [] h = refl
take_all zero (x ∷ xs) h = absurd (omega arith)
take_all (suc n) [] h = refl
take_all (suc n) (x ∷ xs) h = rw (take_all n xs (omega arith)) refl

length-snoc : {A : Type 0} (xs : List A) (a : A) → length (xs ++ a ∷ []) ≡ suc (length xs)
length-snoc [] a = refl
length-snoc (x ∷ xs) a = rw (length-snoc xs a) refl

replicate_one : {A : Type 0} (k : ℕ) (a : A) → k ≡ 1 → replicate k a ≡ a ∷ []
replicate_one zero a e = absurd (omega arith)
replicate_one (suc zero) a e = refl
replicate_one (suc (suc k)) a e = absurd (omega arith)

-- One element more, of zero bytes.
pub vec_resize_one :
    {A : Type 0} (elem_size : ℕ) (zero_elem : A) (v : Vec A)
    → length v.elems ≤ v.psize
    → elem_size * (length v.elems + 1) ≤ size_max
    → (v' : Vec A) × (vec_resize true elem_size zero_elem (length v.elems + 1) v ≡ ok v')
      × (v'.elems ≡ v.elems ++ zero_elem ∷ [])
      × (length v'.elems ≤ v'.psize)
unfolding vec_resize ensure
vec_resize_one elem_size zero_elem v h fits =
    let n = length v.elems + 1 in
    let appended : take n (v.elems ++ replicate (n - length v.elems) zero_elem)
        ≡ v.elems ++ zero_elem ∷ [] =
      rw (replicate_one (n - length v.elems) zero_elem (omega arith))
        (take_all n (v.elems ++ zero_elem ∷ []) (omega (arith, length-snoc v.elems zero_elem))) in
    (
      record { elems = v.elems ++ zero_elem ∷ []; psize = if leb n v.psize then v.psize else n },
      rw appended (ground (arith, h, fits)),
      refl,
      ground (arith, length-snoc v.elems zero_elem),
    )

-- To any larger size, the new elements of zero bytes.
pub vec_resize_more :
    {A : Type 0} (elem_size count : ℕ) (zero_elem : A) (v : Vec A)
    → length v.elems ≤ v.psize
    → length v.elems ≤ count
    → elem_size * count ≤ size_max
    → (v' : Vec A) × (vec_resize true elem_size zero_elem count v ≡ ok v')
      × (v'.elems ≡ v.elems ++ replicate (count - length v.elems) zero_elem)
      × (length v'.elems ≤ v'.psize)
unfolding vec_resize ensure
vec_resize_more elem_size count zero_elem v h more fits =
    let new = replicate (count - length v.elems) zero_elem in
    let len : length (v.elems ++ new) ≡ count = omega (
      arith,
      length-append v.elems new,
      length-replicate (count - length v.elems) zero_elem,
      more,
    ) in
    (
      record { elems = v.elems ++ new; psize = if leb count v.psize then v.psize else count },
      rw (take_all count (v.elems ++ new) (omega (arith, len))) (ground (arith, h, fits)),
      refl,
      ground (arith, len),
    )
