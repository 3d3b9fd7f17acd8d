-- ===== src/Leb/Unsigned.antt =====
-- The checked reader of unsigned integers accepts exactly the LEB128 encodings of the numbers of
-- the width.
use toywasm.Base.{ℕ, ◌+◌, ◌-◌, ◌*◌, ◌/◌, ◌%◌, ◌^◌, ◌≤◌, ◌<◌, ◌≡◌, ap, arith}
use toywasm.Base.{true, false, ltb, if◌then◌else◌, ◌↔◌, inl, inr}
use toywasm.Base.{Result, ok, List, [], ◌∷◌, ◌++◌, length, All, IsByte}
use toywasm.Base.{lt→ltb, le→not_ltb, lt_or_le, Result-cases}
use toywasm.Base.Bits.{top_bit}
use toywasm.Leb.{read_loop, read_leb, read_leb_u32, read_leb_u}
use toywasm.Leb.Masks.{pow_add, pow_split, pow_mono}
use toywasm.Leb.Spec.{IsLeb, leb_value, Decodes}
use toywasm.Leb.Steps.{round_fits, round_fits_last, round_wide, group_bound, group_bound_seven}

pub IsLeb-cons : (b : ℕ) (bs : List ℕ) → 128 ≤ b → b < 256 → IsLeb bs → IsLeb (b ∷ bs)
IsLeb-cons b [] h k l = absurd l
IsLeb-cons b (c ∷ bs) h k l = (h, k, l)

pub fits_of_bound :
    (result v shift bits : ℕ)
    → shift < bits
    → result + v * 2 ^ shift < 2 ^ bits
    → v < 2 ^ (bits - shift)
fits_of_bound result v shift bits hs h = grind (arith, pow_split shift bits)

pub value_step :
    (result u8 n shift : ℕ)
    → result + u8 % 128 * 2 ^ shift + n * 2 ^ (shift + 7)
      ≡ result + (u8 % 128 + 128 * n) * 2 ^ shift
value_step result u8 n shift = omega (arith, ap (λ (t : ℕ). n * t) (pow_add shift 7))

module _ (bits : ℕ) (width : bits ≤ 64) where
  abbrev Found : (u8 : ℕ) (bs : List ℕ) (left shift result v : ℕ) (rest : List ℕ) → Type 0
  Found u8 bs left shift result v rest =
      (front : List ℕ) × (u8 ∷ bs ≡ front ++ rest)
      × IsLeb front
      × (length front ≤ left + 1)
      × (v ≡ result + leb_value front * 2 ^ shift)
      × (v < 2 ^ bits)

  Found-cons :
      (u8 b : ℕ) (bs : List ℕ) (left shift result v : ℕ) (rest : List ℕ)
      → 128 ≤ u8
      → u8 < 256
      → 1 ≤ left
      → Found b bs (left - 1) (shift + 7) (result + u8 % 128 * 2 ^ shift) v rest
      → Found u8 (b ∷ bs) left shift result v rest
  Found-cons u8 b bs left shift result v rest top byte more (front, e, l, n, ev, hv) = (
    u8 ∷ front,
    ap (λ (t : List ℕ). u8 ∷ t) e,
    IsLeb-cons u8 front top byte l,
    omega arith,
    omega (arith, value_step result u8 (leb_value front) shift),
    hv,
  )

  -- The byte in hand ends the number.
  Found-last :
      (u8 : ℕ) (bs : List ℕ) (left shift result v : ℕ) (rest : List ℕ)
      → shift < bits
      → u8 < 128
      → result < 2 ^ shift
      → u8 % 128 < 2 ^ (bits - shift)
      → ◌≡◌ {A = Result (ℕ × List ℕ)} (ok (result + u8 % 128 * 2 ^ shift, bs)) (ok (v, rest))
      → Found u8 bs left shift result v rest
  Found-last u8 bs left shift result v rest hs last low fits e = (
    u8 ∷ [],
    ground arith,
    last,
    omega arith,
    ground arith,
    ground (arith, group_bound result (u8 % 128) shift bits hs low fits),
  )

  pub read_loop_sound :
      (bs : List ℕ) (u8 left shift result v : ℕ) (rest : List ℕ)
      → shift + 7 * left < bits
      → u8 < 256
      → All IsByte bs
      → result < 2 ^ shift
      → read_loop true false bits bs u8 left shift result false ≡ ok (v, rest)
      → Found u8 bs left shift result v rest
  read_loop_sound [] u8 left shift result v rest hb byte bytes low e =
      let hs : shift < bits = omega arith in
      elim (lt_or_le (u8 % 128) (2 ^ (bits - shift))) [
        | inl fits ↦ elim (lt_or_le u8 128) [
          | inl last ↦ Found-last u8 [] left shift result v rest hs last low fits (
              rw (round_fits_last bits u8 left shift result hs width byte low fits, lt→ltb _ _ last)
                at e)
          | inr more ↦ absurd (
              cc (
                rw
                  (
                    round_fits_last bits u8 left shift result hs width byte low fits,
                    le→not_ltb _ _ more,
                  )
                  at e))
        ]
        | inr wide ↦ absurd (cc (e, round_wide bits u8 left shift result hs width byte low [] wide))
      ]
  read_loop_sound (b ∷ bs) u8 left shift result v rest hb byte bytes low e =
      let hs : shift < bits = omega arith in
      elim (lt_or_le (u8 % 128) (2 ^ (bits - shift))) [
        | inl fits ↦ ground (
          arith,
          round_fits bits u8 left shift result hs width byte low b bs fits,
          Found-last u8 (b ∷ bs) left shift result v rest hs,
          group_bound_seven result (u8 % 128) shift low (omega arith),
          Found-cons u8 b bs left shift result v rest,
          read_loop_sound bs b (left - 1) (shift + 7) (result + u8 % 128 * 2 ^ shift) v rest,
        )
        | inr wide ↦
            absurd (cc (e, round_wide bits u8 left shift result hs width byte low (b ∷ bs) wide))
      ]

  pub read_loop_complete :
      (tail : List ℕ) (u8 left shift result : ℕ) (rest : List ℕ)
      → shift + 7 * left < bits
      → IsLeb (u8 ∷ tail)
      → length tail ≤ left
      → result < 2 ^ shift
      → result + leb_value (u8 ∷ tail) * 2 ^ shift < 2 ^ bits
      → read_loop true false bits (tail ++ rest) u8 left shift result false
        ≡ ok (result + leb_value (u8 ∷ tail) * 2 ^ shift, rest)
  read_loop_complete [] u8 left shift result [] hb l n low h = ground (
    arith,
    fits_of_bound result (u8 % 128) shift bits,
    round_fits_last bits u8 left shift result (omega arith) width (omega arith) low,
  )
  read_loop_complete [] u8 left shift result (c ∷ rest) hb l n low h = ground (
    arith,
    fits_of_bound result (u8 % 128) shift bits,
    round_fits bits u8 left shift result (omega arith) width (omega arith) low c rest,
  )
  read_loop_complete (b ∷ tail) u8 left shift result rest hb (top, byte, l) n low h = ground (
    arith,
    fits_of_bound result (u8 % 128) shift bits (omega arith),
    value_step result u8 (leb_value (b ∷ tail)) shift,
    group_bound_seven result (u8 % 128) shift low (omega arith),
    round_fits bits u8 left shift result (omega arith) width byte low b (tail ++ rest),
    read_loop_complete tail b (left - 1) (shift + 7) (result + u8 % 128 * 2 ^ shift) rest,
  )

read_leb_first :
    (bits b : ℕ) (bs : List ℕ)
    → b < 256
    → read_leb true bits false (b ∷ bs) ≡ (
        if ltb b 128
        then ok (b, bs)
        else read_loop true false bits bs b ((bits + 7 - 1) / 7 - 1) 0 0 false)
unfolding read_leb
read_leb_first bits b bs h = rw (top_bit b h) (ground arith)

module _ (bits : ℕ) (wide : 7 ≤ bits) (width : bits ≤ 64) where
  pub read_leb_sound :
      (bytes : List ℕ) (v : ℕ) (rest : List ℕ)
      → All IsByte bytes
      → read_leb true bits false bytes ≡ ok (v, rest)
      → Decodes ((bits + 6) / 7) bytes v rest × (v < 2 ^ bits)
  read_leb_sound [] v rest h e = absurd (unfold read_leb in cc e)
  read_leb_sound (b ∷ bs) v rest (byte, h) e = elim (lt_or_le b 128) [
    | inl last ↦ (
      (
        b ∷ [],
        ground (arith, read_leb_first bits b bs byte),
        last,
        omega arith,
        ground (arith, read_leb_first bits b bs byte),
      ),
      ground (arith, read_leb_first bits b bs byte, pow_mono 7 bits),
    )
    | inr more ↦
        let (front, e', l, n, ev, hv) =
          read_loop_sound bits width bs b ((bits + 7 - 1) / 7 - 1) 0 0 v rest (omega arith) byte h
            (omega arith) (rw (read_leb_first bits b bs byte, le→not_ltb _ _ more) at e) in
        ((front, e', l, omega arith, omega arith), hv)
  ]

  pub read_leb_complete :
      (front : List ℕ) (rest : List ℕ)
      → IsLeb front
      → length front ≤ (bits + 6) / 7
      → leb_value front < 2 ^ bits
      → read_leb true bits false (front ++ rest) ≡ ok (leb_value front, rest)
  read_leb_complete [] rest l n h = absurd l
  read_leb_complete (b ∷ []) rest l n h = ground (arith, read_leb_first bits b rest)
  read_leb_complete (b ∷ c ∷ tail) rest l n h = ground (
    arith,
    read_leb_first bits b (c ∷ (tail ++ rest)),
    read_loop_complete bits width (c ∷ tail) b ((bits + 7 - 1) / 7 - 1) 0 0 rest,
  )

-- For a width of 7 to 64 bits, and whatever bytes are in the buffer, `read_leb_u` returns `v` and
-- stops before `rest` exactly if the buffer begins with an LEB128 encoding of `v` in at most
-- ceil(bits / 7) bytes, which `rest` follows, and `v` fits in the width.
pub read_leb_u_iff :
    (bits : ℕ) (bytes : List ℕ) (v : ℕ) (rest : List ℕ)
    → 7 ≤ bits
    → bits ≤ 64
    → All IsByte bytes
    → (read_leb_u bits bytes ≡ ok (v, rest))
      ↔ (Decodes ((bits + 6) / 7) bytes v rest × (v < 2 ^ bits))
unfolding read_leb_u
read_leb_u_iff bits bytes v rest wide width h = (
  read_leb_sound bits wide width bytes v rest h,
  λ ((front, e, l, n, ev), hv).
      rw (e, ← ev) (read_leb_complete bits wide width front rest l n (rw ev hv)),
)

-- `read_leb_u32` decides the same for 32 bits, and so its assertion never fails.
pub read_leb_u32-eq : (bytes : List ℕ) → All IsByte bytes → read_leb_u32 bytes ≡ read_leb_u 32 bytes
unfolding read_leb_u32 read_leb_u
read_leb_u32-eq bytes h = elim (Result-cases (read_leb true 32 false bytes)) [
  | inl ((v, rest), e) ↦
      let (_, small) = read_leb_sound 32 (omega arith) (omega arith) bytes v rest h e in
      rw e (ground arith)
  | inr (inl (x, e)) ↦ rw e
  | inr (inr e) ↦ rw e
]

-- The same as an equivalence: at most five bytes.
pub read_leb_u32_iff :
    (bytes : List ℕ) (v : ℕ) (rest : List ℕ)
    → All IsByte bytes
    → (read_leb_u32 bytes ≡ ok (v, rest)) ↔ (Decodes 5 bytes v rest × (v < 2 ^ 32))
read_leb_u32_iff bytes v rest h =
    rw (read_leb_u32-eq bytes h) (read_leb_u_iff 32 bytes v rest (omega arith) (omega arith) h)
