-- ===== src/Names.antt =====
-- Names: check_utf8 and read_name of lib/module.c, write_name of lib/module_writer.c, compare_name of
-- lib/type.c. A name is the list of its bytes.
pub mod Chars
pub mod Utf8
pub mod RoundTrip
pub mod Ordered
mod Tests
use toywasm.Base.{
  ℕ, zero, suc, ◌+◌, ◌-◌, ◌*◌, ◌^◌, Bool, true, not, ◌&&◌, ◌||◌, List, [], ◌∷◌, ◌++◌,
}
use toywasm.Base.{length, take, drop, leb, ltb, ◌==◌, if◌then◌else◌, u32}
use toywasm.Base.{Result, ok, err, fault, einval, e2big, ◌>>=◌, ◌>>◌, check}
use toywasm.Leb.{read_u8, write_leb_u32}
use toywasm.Decode.{read_vec_count}

-- The first byte of a character: the number `n` of its bytes, the range of an `n`-byte character, and
-- the bits of this byte.
unfoldable pub utf8_head : (b : ℕ) → Result (ℕ × ℕ × ℕ × ℕ)
utf8_head b =
    if ltb b 0x80
    then ok (1, 0, 0x7f, b)
    else if ltb b 0xc0
    then err einval
    else if ltb b 0xe0
    then ok (2, 0x80, 0x7ff, b - 0xc0)
    else if ltb b 0xf0
    then ok (3, 0x800, 0xffff, b - 0xe0)
    else if ltb b 0xf8
    then ok (4, 0x10000, 0x10ffff, b - 0xf0)
    else err einval

-- The loop over the `n` further bytes of a character.
unfoldable pub utf8_tail : (n c : ℕ) → List ℕ → Result (ℕ × List ℕ)
unfolding read_u8
utf8_tail zero c bytes = ok (c, bytes)
utf8_tail (suc n) c bytes = do
  (b, rest) ← read_u8 true bytes
  check (not (ltb b 0x80 || leb 0xc0 b)) einval
  utf8_tail n (u32 (u32 (c * 2 ^ 6) + (b - 0x80))) rest

-- One round of the loop of check_utf8.
unfoldable pub utf8_char : List ℕ → Result (ℕ × List ℕ)
unfolding read_u8 utf8_head utf8_tail
utf8_char bytes = do
  (b, behind) ← read_u8 true bytes
  (n, min, max, bits) ← utf8_head b
  (c, rest) ← utf8_tail (n - 1) bits behind
  check (not (ltb c min || ltb max c)) einval
  check (not (leb 0xd800 c && ltb c 0xe000)) einval
  ok (c, rest)

-- `while (p < ep)`; a round reads a byte at least, so as many rounds as there are bytes are enough.
unfoldable pub check_utf8_loop : (fuel : ℕ) → List ℕ → Result (Unit {0})
check_utf8_loop fuel [] = ok tt
check_utf8_loop zero (b ∷ bytes) = fault
check_utf8_loop (suc fuel) (b ∷ bytes) = do
  (c, rest) ← utf8_char (b ∷ bytes)
  check_utf8_loop fuel rest

unfoldable pub check_utf8 : List ℕ → Result (Unit {0})
unfolding check_utf8_loop
check_utf8 bytes = check_utf8_loop (length bytes) bytes

unfoldable pub read_name : List ℕ → Result (List ℕ × List ℕ)
unfolding read_vec_count
read_name bytes = do
  (vec_count, p) ← read_vec_count bytes
  check (leb vec_count (length p)) e2big
  check_utf8 (take vec_count p)
  ok (take vec_count p, drop vec_count p)

unfoldable pub write_name : List ℕ → List ℕ → Result (List ℕ)
write_name name out = ok (write_leb_u32 (length name) out ++ name)

-- The sign of the result of compare_name.
pub data Order : Type 0 where
  before same behind : Order

-- `memcmp` on as many bytes of each.
unfoldable pub memcmp : List ℕ → List ℕ → Order
memcmp [] b = same
memcmp (x ∷ a) [] = same
memcmp (x ∷ a) (y ∷ b) = if ltb x y then before else if ltb y x then behind else memcmp a b

unfoldable pub compare_name : List ℕ → List ℕ → Order
unfolding memcmp
compare_name a b =
    if not (length a == length b)
    then (if ltb (length a) (length b) then before else behind)
    else memcmp a b
