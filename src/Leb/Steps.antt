-- ===== src/Leb/Steps.antt =====
-- One round of the loop of `read_leb`, in arithmetic.
use toywasm.Base.{ℕ, ◌+◌, ◌-◌, ◌*◌, ◌%◌, ◌^◌, ◌≤◌, ◌<◌, ◌≡◌, refl, arith}
use toywasm.Base.{true, false, ltb, ◌==◌, if◌then◌else◌}
use toywasm.Base.{ok, err, e2big, einval, List, [], ◌∷◌, inl, inr, Bool-cases, lt→ltb, le→not_ltb}
use toywasm.Base.Bits.{bit_or_disjoint, low_seven, top_bit}
use toywasm.Leb.{check_group, add_group, extend, read_loop}
use toywasm.Leb.Masks.{pow_add, pow_split, pow_pos, pow_mono, mask_lem}

-- The group at `shift` keeps the number below `2 ^ bits`.
pub check_group_unsigned :
    (bits shift v : ℕ)
    → shift < bits
    → v < 128
    → check_group false bits shift v false
      ≡ (if ltb v (2 ^ (bits - shift)) then ok false else err e2big)
unfolding check_group
check_group_unsigned bits shift v hs hv = elim (Bool-cases (ltb (bits - shift) 7)) [
  | inl few ↦ ground (arith, mask_lem (bits - shift) v)
  | inr many ↦ ground (arith, pow_mono 7 (bits - shift))
]

-- A group that fits lies above the bits that are there already.
pub add_group_fits :
    (result v shift bits : ℕ)
    → shift < bits
    → bits ≤ 64
    → result < 2 ^ shift
    → v < 2 ^ (bits - shift)
    → add_group result v shift ≡ ok (result + v * 2 ^ shift)
unfolding add_group
add_group_fits result v shift bits hs hb hr hv =
    ground (arith, fits, bit_or_disjoint shift result v hr)
  where
    fits : v * 2 ^ shift < 2 ^ 64
    fits = grind (arith, pow_split shift bits, pow_mono bits 64, pow_pos shift)

pub group_bound :
    (result v shift bits : ℕ)
    → shift < bits
    → result < 2 ^ shift
    → v < 2 ^ (bits - shift)
    → result + v * 2 ^ shift < 2 ^ bits
group_bound result v shift bits hs hr hv = grind (arith, pow_split shift bits, pow_pos shift)

pub group_bound_seven :
    (result v shift : ℕ) → result < 2 ^ shift → v < 128 → result + v * 2 ^ shift < 2 ^ (shift + 7)
group_bound_seven result v shift hr hv = grind (arith, pow_add shift 7, pow_pos shift)

module _ (bits u8 left shift result : ℕ) (bounds : shift < bits) (width : bits ≤ 64)
    (byte : u8 < 256) (low : result < 2 ^ shift) where
  -- A round that accepts the group.
  pub round_fits :
      (b : ℕ) (bs : List ℕ)
      → u8 % 128 < 2 ^ (bits - shift)
      → read_loop true false bits (b ∷ bs) u8 left shift result false ≡ (
          if ltb u8 128
          then ok (result + u8 % 128 * 2 ^ shift, b ∷ bs)
          else if left == 0
          then err einval
          else read_loop true false bits bs b
              (left - 1)
              (shift + 7)
              (result + u8 % 128 * 2 ^ shift)
              false)
  unfolding read_loop extend
  round_fits b bs fits =
      rw
        (
          low_seven u8 byte,
          top_bit u8 byte,
          check_group_unsigned bits shift (u8 % 128) bounds (omega arith),
          lt→ltb _ _ fits,
          add_group_fits result (u8 % 128) shift bits bounds width low fits,
        )
        (ground arith)

  pub round_fits_last :
      u8 % 128 < 2 ^ (bits - shift)
      → read_loop true false bits [] u8 left shift result false
        ≡ (if ltb u8 128 then ok (result + u8 % 128 * 2 ^ shift, []) else err einval)
  unfolding read_loop extend
  round_fits_last fits =
      rw
        (
          low_seven u8 byte,
          top_bit u8 byte,
          check_group_unsigned bits shift (u8 % 128) bounds (omega arith),
          lt→ltb _ _ fits,
          add_group_fits result (u8 % 128) shift bits bounds width low fits,
        )
        (ground arith)

  -- A round that refuses the group.
  pub round_wide :
      (bs : List ℕ)
      → 2 ^ (bits - shift) ≤ u8 % 128
      → read_loop true false bits bs u8 left shift result false ≡ err e2big
  unfolding read_loop extend
  round_wide [] wide =
      rw
        (
          low_seven u8 byte,
          check_group_unsigned bits shift (u8 % 128) bounds (omega arith),
          le→not_ltb _ _ wide,
        )
        refl
  round_wide (b ∷ bs) wide =
      rw
        (
          low_seven u8 byte,
          check_group_unsigned bits shift (u8 % 128) bounds (omega arith),
          le→not_ltb _ _ wide,
        )
        refl
