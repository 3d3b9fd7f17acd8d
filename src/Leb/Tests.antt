-- ===== src/Leb/Tests.antt =====
-- Runs of the readers and the writer on concrete bytes.
use toywasm.Base.{
  ℕ, arith, List, true, ◌↔◌, ◌<◌, ◌++◌, ◌+◌, ◌/◌, All, IsByte, ◌≡◌, refl, [], ◌∷◌, ok, err, fault,
  einval, e2big, false, true, ◌^◌, ◌-◌,
}
use toywasm.Leb.Spec.{Decodes}
use toywasm.Leb.Unsigned.{read_leb_u_iff}
use toywasm.Leb.Agree.{read_leb_agree}
use toywasm.Leb.Write.{read_leb_u32-write_leb_u32}
use toywasm.Leb.{read_leb_u}
use toywasm.Leb.{read_leb, read_leb_u32, read_leb_s32, read_leb_i64, read_leb_u32_nocheck}
use toywasm.Leb.{read_leb_s33_nocheck, write_leb_u32}

read_u32_300 : read_leb_u32 (0xac ∷ 0x02 ∷ 9 ∷ []) ≡ ok (300, 9 ∷ [])
unfolding read_leb_u32
read_u32_300 = refl

read_u32_max : read_leb_u32 (0xff ∷ 0xff ∷ 0xff ∷ 0xff ∷ 0x0f ∷ []) ≡ ok (2 ^ 32 - 1, [])
unfolding read_leb_u32
read_u32_max = refl

read_u32_wide : read_leb_u32 (0xff ∷ 0xff ∷ 0xff ∷ 0xff ∷ 0x1f ∷ []) ≡ err e2big
unfolding read_leb_u32
read_u32_wide = refl

read_u32_long : read_leb_u32 (0x80 ∷ 0x80 ∷ 0x80 ∷ 0x80 ∷ 0x80 ∷ 0 ∷ []) ≡ err einval
unfolding read_leb_u32
read_u32_long = refl

read_s32_min : read_leb_s32 (0x80 ∷ 0x80 ∷ 0x80 ∷ 0x80 ∷ 0x78 ∷ []) ≡ ok (2 ^ 31, [])
unfolding read_leb_s32
read_s32_min = refl

read_s32_minus_one : read_leb_s32 (0x7f ∷ []) ≡ ok (2 ^ 32 - 1, [])
unfolding read_leb_s32
read_s32_minus_one = refl

read_i64_minus_128 : read_leb_i64 (0x80 ∷ 0x7f ∷ []) ≡ ok (2 ^ 64 - 128, [])
unfolding read_leb_i64 read_leb
read_i64_minus_128 = refl

read_s33_nocheck : read_leb_s33_nocheck (0x40 ∷ 1 ∷ []) ≡ ok (2 ^ 64 - 64, 1 ∷ [])
unfolding read_leb_s33_nocheck read_leb
read_s33_nocheck = refl

nocheck_overrun : read_leb_u32_nocheck (0x80 ∷ []) ≡ fault
unfolding read_leb_u32_nocheck
nocheck_overrun = refl

write_300 : write_leb_u32 300 [] ≡ 0xac ∷ 0x02 ∷ []
unfolding write_leb_u32
write_300 = refl

-- 300, and a byte behind it.
abbrev three_hundred : List ℕ
three_hundred = 0xac ∷ 0x02 ∷ 9 ∷ []

three_hundred_bytes : All IsByte three_hundred
three_hundred_bytes = (omega arith, (omega arith, (omega arith, tt)))

read_leb_u_iff_example :
    (read_leb_u 32 three_hundred ≡ ok (300, 9 ∷ []))
    ↔ (Decodes ((32 + 6) / 7) three_hundred 300 (9 ∷ []) × (300 < 2 ^ 32))
read_leb_u_iff_example =
    read_leb_u_iff 32 three_hundred 300 (9 ∷ []) (omega arith) (omega arith) three_hundred_bytes

-- -128 in 64 bits.
minus_128 : read_leb true 64 true (0x80 ∷ 0x7f ∷ []) ≡ ok (2 ^ 64 - 128, [])
unfolding read_leb
minus_128 = refl

read_leb_agree_example : read_leb false 64 true (0x80 ∷ 0x7f ∷ []) ≡ ok (2 ^ 64 - 128, [])
read_leb_agree_example =
    read_leb_agree 64 true (0x80 ∷ 0x7f ∷ []) (2 ^ 64 - 128) [] (omega arith)
      (omega arith, (omega arith, tt)) minus_128

read_leb_u32-write_leb_u32_example :
    (front : List ℕ) × (write_leb_u32 300 (1 ∷ []) ≡ (1 ∷ []) ++ front)
    × (read_leb_u32 (front ++ 9 ∷ []) ≡ ok (300, 9 ∷ []))
read_leb_u32-write_leb_u32_example = read_leb_u32-write_leb_u32 300 (1 ∷ []) (9 ∷ []) (omega arith)
