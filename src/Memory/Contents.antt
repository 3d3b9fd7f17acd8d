-- ===== src/Memory/Contents.antt =====
-- The memory as a program sees it: a byte for every address of its pages, 0 where none is allocated.
use toywasm.Base.{
  ℕ, zero, suc, ◌-◌, ◌*◌, ◌^◌, ◌≤◌, ◌≡◌, refl, arith, List, [], ◌∷◌, ◌++◌, length, length-append,
}
use toywasm.Base.{length-replicate, replicate, get_or}
use toywasm.Memory.{Meminst, extend}

abbrev pub size_in_bytes : Meminst → ℕ
size_in_bytes mi = mi.size_in_pages * 2 ^ 16

-- No more is allocated than the pages have, and these are in the limits, which are at most 4 GiB.
pub record IsMemory (mi : Meminst) : Type 0 where
  pub allocated : length mi.bytes ≤ size_in_bytes mi
  pub limit : mi.size_in_pages ≤ mi.max
  pub max : mi.max ≤ 2 ^ 16

abbrev pub byte_at : Meminst → (i : ℕ) → ℕ
byte_at mi i = get_or mi.bytes i 0

abbrev pub SameBytes : Meminst → Meminst → Type 0
SameBytes a b = (i : ℕ) → byte_at a i ≡ byte_at b i

abbrev zeros : ℕ → List ℕ
zeros n = replicate n 0

get_or-replicate : (n i : ℕ) → get_or (zeros n) i 0 ≡ 0
get_or-replicate zero i = refl
get_or-replicate (suc n) zero = refl
get_or-replicate (suc n) (suc i) = get_or-replicate n i

get_or-append_zeros : (xs : List ℕ) (n i : ℕ) → get_or (xs ++ zeros n) i 0 ≡ get_or xs i 0
get_or-append_zeros [] n i = get_or-replicate n i
get_or-append_zeros (x ∷ xs) n zero = refl
get_or-append_zeros (x ∷ xs) n (suc i) = get_or-append_zeros xs n i

pub extend-SameBytes : (need : ℕ) (mi : Meminst) → SameBytes (extend need mi) mi
unfolding extend
extend-SameBytes need mi i = get_or-append_zeros mi.bytes _ i

pub length-extend :
    (need : ℕ) (mi : Meminst) → length mi.bytes ≤ need → length (extend need mi).bytes ≡ need
unfolding extend
length-extend need mi h = omega (
  arith,
  length-append mi.bytes (zeros (need - length mi.bytes)),
  length-replicate {A = ℕ} (need - length mi.bytes) 0,
)

pub extend-IsMemory :
    (need : ℕ) (mi : Meminst)
    → IsMemory mi
    → length mi.bytes ≤ need
    → need ≤ size_in_bytes mi
    → IsMemory (extend need mi)
unfolding extend
extend-IsMemory need mi h a b = record {
  allocated = omega (arith, length-extend need mi a);
  limit = h.limit;
  max = h.max;
}
