-- ===== src/Leb.antt =====
-- lib/leb128.c: reading LEB128 integers, with and without error checks, and write_leb_u32 of
-- lib/module_writer.c. A pointer into the code is the list of the bytes from it to the end of the
-- buffer. `error_check` is `ep != NULL`; without it a read past the buffer is a fault.
pub mod Spec
mod Masks
mod Steps
pub mod Unsigned
mod Agree
pub mod Write
mod Tests
use toywasm.Base.{ℕ, suc, ◌+◌, ◌-◌, ◌*◌, ◌/◌, ◌%◌, ◌^◌, bit_and, bit_or, Bool, true, false, not}
use toywasm.Base.{◌&&◌, List, [], ◌∷◌, ◌++◌, ltb, leb, ◌==◌, if◌then◌else◌, u8, u32, u64}
use toywasm.Base.{Result, ok, err, fault, einval, e2big, ◌>>=◌, ◌>>◌, assert, check}

unfoldable pub read_u8 : Bool → List ℕ → Result (ℕ × List ℕ)
read_u8 error_check [] = if error_check then err einval else fault
read_u8 error_check (b ∷ bs) = ok (b, bs)

-- `(uint8_t)(((unsigned int)-1) << k)`
unfoldable pub mask : ℕ → ℕ
mask k = u8 (u32 ((2 ^ 32 - 1) * 2 ^ k))

-- The error checks on the group `v` at `shift`; the new `is_minus`.
unfoldable pub check_group : (is_signed : Bool) (bits shift v : ℕ) (is_minus : Bool) → Result Bool
unfolding mask
check_group is_signed bits shift v is_minus =
    if leb bits shift
    then (if v == (if is_minus then 0x7f else 0) then ok is_minus else err e2big)
    else let minus = if is_signed then not (bit_and v 0x40 == 0) else is_minus in
      let bits_left = bits - shift in
      let bad =
        if is_signed
        then not (
            bit_and (if minus then bit_and (2 ^ 32 - 1 - v) 0x7f else v) (mask (bits_left - 1))
            == 0)
        else not (bit_and v (mask bits_left) == 0) in
      if ltb bits_left 7 && bad then err e2big else ok minus

-- `result |= ((uint64_t)v) << shift`; a shift by 64 or more is undefined.
unfoldable pub add_group : (result v shift : ℕ) → Result ℕ
add_group result v shift = do assert (ltb shift 64); ok (bit_or result (u64 (v * 2 ^ shift)))

-- What follows the loop: the sign extension.
unfoldable pub extend : (error_check is_signed : Bool) (u8 result shift : ℕ) (is_minus : Bool) → ℕ
extend error_check is_signed u8 result shift is_minus =
    let minus = if not error_check && is_signed then not (bit_and u8 0x40 == 0) else is_minus in
    if minus && ltb shift 64 then bit_or result (u64 ((2 ^ 64 - 1) * 2 ^ shift)) else result

-- The loop of `read_leb` with the byte `u8` in hand and `left` more bytes up to `nep`.
unfoldable pub read_loop :
    (error_check is_signed : Bool) (bits : ℕ) (bs : List ℕ) (u8 left shift result : ℕ)
    (is_minus : Bool)
    → Result (ℕ × List ℕ)
read_loop error_check is_signed bits [] u8 left shift result is_minus = do
  let v = bit_and u8 0x7f
  minus ← if error_check then check_group is_signed bits shift v is_minus else ok is_minus
  result' ← add_group result v shift
  if bit_and u8 0x80 == 0
      then ok (extend error_check is_signed u8 result' (shift + 7) minus, [])
      else if error_check
      then err einval
      else fault
read_loop error_check is_signed bits (b ∷ bs) u8 left shift result is_minus = do
  let v = bit_and u8 0x7f
  minus ← if error_check then check_group is_signed bits shift v is_minus else ok is_minus
  result' ← add_group result v shift
  let next = read_loop error_check is_signed bits bs b (left - 1) (shift + 7) result' minus
  if bit_and u8 0x80 == 0
      then ok (extend error_check is_signed u8 result' (shift + 7) minus, b ∷ bs)
      else if error_check && left == 0
      then err einval
      else next

-- The first byte, the fast path for one byte, and the loop; `nep` allows ceil(bits / 7) bytes.
unfoldable pub read_leb :
    (error_check : Bool) (bits : ℕ) (is_signed : Bool) → List ℕ → Result (ℕ × List ℕ)
unfolding read_u8 read_loop check_group add_group extend
read_leb error_check bits is_signed bytes = do
  (u8, bs) ← read_u8 error_check bytes
  let loop = read_loop error_check is_signed bits bs u8 ((bits + 7 - 1) / 7 - 1) 0 0 false
  if bit_and u8 0x80 == 0
      then ok (
        (if is_signed && not (bit_and u8 0x40 == 0) then bit_or u8 (2 ^ 64 - 2 ^ 8 + 0xc0) else u8),
        bs,
      )
      else loop

unfoldable pub read_leb_u32 : List ℕ → Result (ℕ × List ℕ)
unfolding read_leb
read_leb_u32 bytes = do
  (r, rest) ← read_leb true 32 false bytes
  assert (leb r (2 ^ 32 - 1))
  ok (u32 r, rest)

unfoldable pub read_leb_i32 : List ℕ → Result (ℕ × List ℕ)
unfolding read_leb
read_leb_i32 bytes = do (r, rest) ← read_leb true 32 true bytes; ok (u32 r, rest)

-- `(int64_t)r` lies between INT32_MIN and INT32_MAX; the result is its 32-bit pattern.
unfoldable pub read_leb_s32 : List ℕ → Result (ℕ × List ℕ)
unfolding read_leb
read_leb_s32 bytes = do
  (r, rest) ← read_leb true 32 true bytes
  assert (if ltb r (2 ^ 31) then true else leb (2 ^ 64 - 2 ^ 31) r)
  ok (u32 r, rest)

unfoldable pub read_leb_u64 : List ℕ → Result (ℕ × List ℕ)
read_leb_u64 bytes = read_leb true 64 false bytes

-- `read_leb_i64` and `read_leb_s64`: the pattern of an `int64_t`.
unfoldable pub read_leb_i64 : List ℕ → Result (ℕ × List ℕ)
read_leb_i64 bytes = read_leb true 64 true bytes

unfoldable pub read_leb_s : ℕ → List ℕ → Result (ℕ × List ℕ)
read_leb_s bits bytes = read_leb true bits true bytes

unfoldable pub read_leb_u : ℕ → List ℕ → Result (ℕ × List ℕ)
read_leb_u bits bytes = read_leb true bits false bytes

-- The readers for code that validation has read before.
unfoldable pub read_leb_u32_nocheck : List ℕ → Result (ℕ × List ℕ)
unfolding read_leb
read_leb_u32_nocheck bytes = do
  (r, rest) ← read_leb false 32 false bytes
  assert (leb r (2 ^ 32 - 1))
  ok (u32 r, rest)

unfoldable pub read_leb_i32_nocheck : List ℕ → Result (ℕ × List ℕ)
unfolding read_leb
read_leb_i32_nocheck bytes = do (r, rest) ← read_leb false 32 true bytes; ok (u32 r, rest)

unfoldable pub read_leb_i64_nocheck : List ℕ → Result (ℕ × List ℕ)
read_leb_i64_nocheck bytes = read_leb false 64 true bytes

unfoldable pub read_leb_s33_nocheck : List ℕ → Result (ℕ × List ℕ)
read_leb_s33_nocheck bytes = read_leb false 33 true bytes

-- The `do ... while (u != 0)` of write_leb_u32, on fuel; the bytes go to the end of `out`.
unfoldable pub write_leb_loop : ℕ → (u : ℕ) → List ℕ → List ℕ
write_leb_loop ℕ.zero u out = out
write_leb_loop (suc fuel) u out =
    let u' = u / 2 ^ 7 in
    let rest = write_leb_loop fuel u' (out ++ bit_or (bit_and u 0x7f) 0x80 ∷ []) in
    if u' == 0 then out ++ bit_and u 0x7f ∷ [] else rest

-- A `uint32_t` takes five rounds at most.
unfoldable pub write_leb_u32 : (u : ℕ) → List ℕ → List ℕ
unfolding write_leb_loop
write_leb_u32 u out = write_leb_loop 5 u out
