-- ===== src/Modules/Types.antt =====
-- The types in a module: their readers in lib/module.c and their writers in lib/module_writer.c.
use toywasm.Base.{ℕ, ◌-◌, ◌*◌, ◌/◌, ◌^◌, Bool, true, false, not, ◌||◌, List, [], ◌∷◌, ◌++◌, leb}
use toywasm.Base.{◌==◌, if◌then◌else◌, bit_and, bit_or, u8, u64, min}
use toywasm.Base.{Result, ok, err, einval, eoverflow, ◌>>=◌, ◌>>◌, assert, check}
use toywasm.Types.{
  Valtype, valtype_code, valtype_of_code, is_valtype, is_reftype, Resulttype, Functype,
}
use toywasm.Insn.{Globaltype}
use toywasm.Leb.{read_u8, read_leb_u32, write_leb_u32}
use toywasm.Decode.{read_vec, write_vec}
use toywasm.Modules.{Limits, Memtype, Tabletype}

unfoldable pub read_valtype : List ℕ → Result (Valtype × List ℕ)
unfolding read_u8 valtype_of_code
read_valtype bytes = do
  (byte, p) ← read_u8 true bytes
  check (is_valtype (valtype_of_code byte)) einval
  ok (valtype_of_code byte, p)

-- WRITE_U8
abbrev pub write_u8 : (byte : ℕ) → (out : List ℕ) → List ℕ
write_u8 byte out = out ++ u8 byte ∷ []

unfoldable pub write_valtype : Valtype → (out : List ℕ) → Result (List ℕ)
write_valtype vt out = do assert (is_valtype vt); ok (write_u8 (valtype_code vt) out)

-- Without the index of the cells.
unfoldable pub read_resulttype : List ℕ → Result (Resulttype × List ℕ)
unfolding read_vec
read_resulttype bytes = read_vec read_valtype bytes

unfoldable pub write_resulttype : Resulttype → (out : List ℕ) → Result (List ℕ)
write_resulttype rt out = write_vec write_valtype rt out

unfoldable pub read_functype : List ℕ → Result (Functype × List ℕ)
unfolding read_u8 read_resulttype
read_functype bytes = do
  (byte, p) ← read_u8 true bytes
  check (byte == 0x60) einval
  (parameter, p') ← read_resulttype p
  (result, rest) ← read_resulttype p'
  ok (record { parameter = parameter; result = result }, rest)

unfoldable pub write_functype : Functype → (out : List ℕ) → Result (List ℕ)
unfolding write_resulttype
write_functype ft out = do
  out' ← write_resulttype ft.parameter (write_u8 0x60 out)
  write_resulttype ft.result out'

-- The maximum that is written, or as much as the type allows.
unfoldable pub read_max : (has_max : Bool) → (typemax_shifted : ℕ) → List ℕ → Result (ℕ × List ℕ)
read_max has_max typemax_shifted bytes =
    if has_max then read_leb_u32 bytes else ok (min (2 ^ 32 - 1) typemax_shifted, bytes)

-- In this build no flag is allowed but 0x01, and `default_shift` is the shift. A maximum that is not
-- written is never above what the type allows, so the test of it does no harm.
unfoldable pub read_limits : (default_shift typemax : ℕ) → List ℕ → Result (Limits × List ℕ)
unfolding read_u8 read_max
read_limits default_shift typemax bytes = do
  (flags, p) ← read_u8 true bytes
  let has_max = not (bit_and flags 0x01 == 0)
  check (has_max || bit_and flags 0x02 == 0) einval
  check (bit_and flags 0xfe == 0) einval
  let typemax_shifted = typemax / 2 ^ default_shift
  (lim_min, p') ← read_leb_u32 p
  (lim_max, rest) ← read_max has_max typemax_shifted p'
  assert (typemax == u64 (typemax_shifted * 2 ^ default_shift))
  assert (leb typemax_shifted (2 ^ 32))
  check (leb lim_max typemax_shifted) eoverflow
  check (leb lim_min typemax_shifted) eoverflow
  check (leb lim_min lim_max) einval
  ok (record { min = lim_min; max = lim_max }, rest)

unfoldable pub write_limits : Limits → (extra_flags shift : ℕ) → (out : List ℕ) → List ℕ
write_limits lim extra_flags shift out =
    let limits =
      if lim.max == 2 ^ 32 - 1
      then write_leb_u32 lim.min (write_u8 (bit_or 0x00 extra_flags) out)
      else write_leb_u32 lim.max (write_leb_u32 lim.min (write_u8 (bit_or 0x01 extra_flags) out)) in
    if not (bit_and extra_flags 0x08 == 0) then write_leb_u32 shift limits else limits

-- WASM_MAX_MEMORY_SIZE and WASM_PAGE_SHIFT
unfoldable pub read_memtype : List ℕ → Result (Memtype × List ℕ)
unfolding read_limits
read_memtype bytes = do
  (lim, rest) ← read_limits 16 0x100000000 bytes
  ok (record { lim = lim; flags = 0 }, rest)

unfoldable pub write_memtype : Memtype → (out : List ℕ) → Result (List ℕ)
write_memtype mt out = ok (write_limits mt.lim mt.flags 0 out)

unfoldable pub read_tabletype : List ℕ → Result (Tabletype × List ℕ)
unfolding read_valtype read_limits
read_tabletype bytes = do
  (et, p) ← read_valtype bytes
  check (is_reftype et) einval
  (lim, rest) ← read_limits 0 (2 ^ 32 - 1) p
  ok (record { et = et; lim = lim }, rest)

unfoldable pub write_tabletype : Tabletype → (out : List ℕ) → Result (List ℕ)
unfolding write_valtype
write_tabletype tt out = do out' ← write_valtype tt.et out; ok (write_limits tt.lim 0 0 out')

abbrev pub mut_of_byte : (byte : ℕ) → Result Bool
mut_of_byte byte = if byte == 0x01 then ok false else if byte == 0x00 then ok true else err einval

unfoldable pub read_globaltype : List ℕ → Result (Globaltype × List ℕ)
unfolding read_valtype read_u8
read_globaltype bytes = do
  (t, p) ← read_valtype bytes
  (byte, rest) ← read_u8 true p
  const ← mut_of_byte byte
  ok (record { t = t; const = const }, rest)

unfoldable pub write_globaltype : Globaltype → (out : List ℕ) → Result (List ℕ)
unfolding write_valtype
write_globaltype gt out = do
  out' ← write_valtype gt.t out
  ok (write_u8 (if gt.const then 0x00 else 0x01) out')
