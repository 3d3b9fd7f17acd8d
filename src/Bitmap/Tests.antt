-- ===== src/Bitmap/Tests.antt =====
-- A bitmap for 40 indices.
use toywasm.Base.{ℕ, ◌≡◌, ◌≢◌, refl, arith, List, length, true, false, ok, fault}
use toywasm.Bitmap.{bitmap_alloc, bitmap_set, bitmap_test}
use toywasm.Bitmap.Set.{bitmap_test-bitmap_set}

abbrev forty : List ℕ
unfolding bitmap_alloc
forty = bitmap_alloc 40

clear : bitmap_test (bitmap_alloc 40) 33 ≡ ok false
unfolding bitmap_alloc bitmap_test
clear = refl

past : bitmap_test (bitmap_alloc 40) 64 ≡ fault
unfolding bitmap_alloc bitmap_test
past = refl

two_words : length (bitmap_alloc 40) ≡ 2
unfolding bitmap_alloc
two_words = refl

bitmap_test-bitmap_set_example :
    (b' : List ℕ) × (bitmap_set (bitmap_alloc 40) 33 ≡ ok b')
    × (length b' ≡ length (bitmap_alloc 40))
    × (bitmap_test b' 33 ≡ ok true)
    × ((j : ℕ) → j ≢ 33 → bitmap_test b' j ≡ bitmap_test (bitmap_alloc 40) j)
bitmap_test-bitmap_set_example =
    bitmap_test-bitmap_set (bitmap_alloc 40) 33 (omega (arith, two_words))
