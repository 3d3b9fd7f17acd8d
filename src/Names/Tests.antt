-- ===== src/Names/Tests.antt =====
-- Runs of check_utf8, and instances of the theorems about names.
use toywasm.Base.{ℕ, ◌≡◌, refl, arith, List, [], ◌∷◌, ok, err, einval}
use toywasm.Names.{check_utf8, utf8_char}
use toywasm.Names.Utf8.{DecidesUtf8, check_utf8-DecidesUtf8}

-- The euro sign and "a".
abbrev euro : List ℕ
euro = 0xe2 ∷ 0x82 ∷ 0xac ∷ b'a' ∷ []

euro_IsUtf8 : check_utf8 euro ≡ ok tt
unfolding check_utf8 utf8_char
euro_IsUtf8 = refl

-- A surrogate.
surrogate_refused : check_utf8 (0xed ∷ 0xa0 ∷ 0x80 ∷ []) ≡ err einval
unfolding check_utf8 utf8_char
surrogate_refused = refl

check_utf8-DecidesUtf8_example : DecidesUtf8 euro
check_utf8-DecidesUtf8_example = check_utf8-DecidesUtf8 euro (omega arith)
