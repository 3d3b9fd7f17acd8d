-- ===== src/Decode/Tests.antt =====
-- Runs of lib/decode.c.
use toywasm.Base.{◌≡◌, refl, [], ◌∷◌, ok}
use toywasm.Leb.{read_leb_u32}
use toywasm.Decode.{read_vec_u32}

read_vec_u32_three : read_vec_u32 (3 ∷ 1 ∷ 2 ∷ 3 ∷ 9 ∷ []) ≡ ok (1 ∷ 2 ∷ 3 ∷ [], 9 ∷ [])
unfolding read_vec_u32 read_leb_u32
read_vec_u32_three = refl
