-- ===== src/Bitmap.antt =====
-- lib/bitmap.c: a set of small numbers as an array of 32-bit words. An index past the words is
-- undefined behaviour.
mod Set
mod Tests
use toywasm.Base.{
  ℕ, ◌+◌, ◌-◌, ◌/◌, ◌%◌, ◌^◌, Bool, not, List, get_elem?, set, replicate, none, some, ◌==◌,
}
use toywasm.Base.{Result, ok, fault, bit_and, bit_or}

-- `HOWMANY(n, 32)` words, all of them 0.
unfoldable pub bitmap_alloc : (n : ℕ) → List ℕ
bitmap_alloc n = replicate ((n + (32 - 1)) / 32) 0

unfoldable pub bitmap_set : List ℕ → (idx : ℕ) → Result (List ℕ)
bitmap_set b idx = elim (get_elem? b (idx / 32)) [
  | none ↦ fault
  | some word ↦ ok (set b (idx / 32) (bit_or word (2 ^ (idx % 32))))
]

unfoldable pub bitmap_test : List ℕ → (idx : ℕ) → Result Bool
bitmap_test b idx = elim (get_elem? b (idx / 32)) [
  | none ↦ fault
  | some word ↦ ok (not (bit_and word (2 ^ (idx % 32)) == 0))
]
