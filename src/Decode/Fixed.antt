-- ===== src/Decode/Fixed.antt =====
-- Numbers of a fixed size: read_u32 against the bytes that WRITE_U32 writes.
use toywasm.Base.{ℕ, ◌/◌, ◌^◌, ◌≡◌, refl, ap, arith, List, [], ◌∷◌, ◌++◌, ok, IsU32, u8}
use toywasm.Decode.{read_u32, write_u32}

-- The four bytes of a number, the lowest first.
abbrev pub bytes_u32 : ℕ → List ℕ
bytes_u32 v = u8 v ∷ u8 (v / 2 ^ 8) ∷ u8 (v / 2 ^ 16) ∷ u8 (v / 2 ^ 24) ∷ []

pub write_u32-append : (v : ℕ) (out : List ℕ) → write_u32 v out ≡ out ++ bytes_u32 v
unfolding write_u32
write_u32-append v out = refl

pub read_u32-bytes_u32 :
    (v : ℕ) (rest : List ℕ) → IsU32 v → read_u32 (bytes_u32 v ++ rest) ≡ ok (v, rest)
unfolding read_u32
read_u32-bytes_u32 v rest h = ap (λ n. ok (n, rest)) (omega arith)
