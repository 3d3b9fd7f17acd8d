-- ===== src/Names/Chars.antt =====
-- One character: a round of the loop of check_utf8 of lib/module.c, and the bytes of a character.
use toywasm.Base.{ℕ, suc, ◌+◌, ◌-◌, ◌*◌, ◌/◌, ◌%◌, ◌^◌, ◌≤◌, ◌<◌, ◌≡◌, ◌⊎◌, inl, inr, sym, ap}
use toywasm.Base.{arith, List, [], ◌∷◌, ◌++◌, All, IsByte, lt_or_le, ltb, if◌then◌else◌}
use toywasm.Base.{ok}
use toywasm.Leb.{read_u8}
use toywasm.Names.{utf8_head, utf8_tail, utf8_char}

-- A Unicode scalar value: a code point that is no surrogate.
abbrev pub IsScalar : ℕ → Type 0
IsScalar c = (c < 0xd800) ⊎ ((0xe000 ≤ c) × (c < 0x110000))

-- The shortest form of a character: one to four bytes.
unfoldable pub utf8_bytes : ℕ → List ℕ
utf8_bytes c =
    if ltb c 0x80
    then c ∷ []
    else if ltb c 0x800
    then (0xc0 + c / 64) ∷ (0x80 + c % 64) ∷ []
    else if ltb c 0x10000
    then (0xe0 + c / 4096) ∷ (0x80 + c / 64 % 64) ∷ (0x80 + c % 64) ∷ []
    else (0xf0 + c / 262144) ∷ (0x80 + c / 4096 % 64) ∷ (0x80 + c / 64 % 64) ∷ (0x80 + c % 64) ∷ []

utf8_tail_one :
    (c x : ℕ) (rest : List ℕ)
    → c < 2 ^ 25
    → 0x80 ≤ x
    → x < 0xc0
    → utf8_tail 1 c (x ∷ rest) ≡ ok (c * 64 + (x - 0x80), rest)
unfolding utf8_tail read_u8
utf8_tail_one c x rest h lo hi = ground arith

utf8_tail_two :
    (c x y : ℕ) (rest : List ℕ)
    → c < 2 ^ 19
    → 0x80 ≤ x
    → x < 0xc0
    → 0x80 ≤ y
    → y < 0xc0
    → utf8_tail 2 c (x ∷ y ∷ rest) ≡ ok ((c * 64 + (x - 0x80)) * 64 + (y - 0x80), rest)
unfolding utf8_tail read_u8
utf8_tail_two c x y rest h lo hi lo' hi' = ground arith

utf8_tail_three :
    (c x y z : ℕ) (rest : List ℕ)
    → c < 2 ^ 13
    → 0x80 ≤ x
    → x < 0xc0
    → 0x80 ≤ y
    → y < 0xc0
    → 0x80 ≤ z
    → z < 0xc0
    → utf8_tail 3 c (x ∷ y ∷ z ∷ rest)
      ≡ ok (((c * 64 + (x - 0x80)) * 64 + (y - 0x80)) * 64 + (z - 0x80), rest)
unfolding utf8_tail read_u8
utf8_tail_three c x y z rest h lo hi lo' hi' lo'' hi'' = ground arith

pub utf8_char_complete :
    (c : ℕ) (rest : List ℕ) → IsScalar c → utf8_char (utf8_bytes c ++ rest) ≡ ok (c, rest)
unfolding utf8_char utf8_bytes
utf8_char_complete c rest h = ground arith

utf8_tail_step :
    (n c x : ℕ) (bytes : List ℕ) (r : ℕ × List ℕ)
    → c < 2 ^ 25
    → utf8_tail (suc n) c (x ∷ bytes) ≡ ok r
    → (0x80 ≤ x) × (x < 0xc0) × (utf8_tail n (c * 64 + (x - 0x80)) bytes ≡ ok r)
unfolding utf8_tail read_u8
utf8_tail_step n c x bytes r h e = ground arith

utf8_tail_last :
    (c x : ℕ) (bytes : List ℕ) (r : ℕ × List ℕ)
    → c < 2 ^ 25
    → utf8_tail 1 c (x ∷ bytes) ≡ ok r
    → (0x80 ≤ x) × (x < 0xc0) × ((c * 64 + (x - 0x80), bytes) ≡ r)
unfolding utf8_tail read_u8
utf8_tail_last c x bytes r h e = ground arith

-- A character of four bytes.
utf8_four :
    (b x y z c : ℕ) (bytes rest : List ℕ)
    → 0xf0 ≤ b
    → b < 0xf8
    → utf8_tail 3 (b - 0xf0) (x ∷ y ∷ z ∷ bytes) ≡ ok (c, rest)
    → 0x10000 ≤ c
    → c ≤ 0x10ffff
    → b ∷ x ∷ y ∷ z ∷ bytes ≡ utf8_bytes c ++ rest
unfolding utf8_bytes
utf8_four b x y z c bytes rest lo hi e min max =
    let (lx, hx, e₁) = utf8_tail_step 2 (b - 0xf0) x _ _ (omega arith) e in
    let (ly, hy, e₂) = utf8_tail_step 1 _ y _ _ (omega arith) e₁ in
    let (lz, hz, e₃) = utf8_tail_last _ z _ _ (omega arith) e₂ in
    let value : c ≡ (((b - 0xf0) * 64 + (x - 0x80)) * 64 + (y - 0x80)) * 64 + (z - 0x80) =
      ap (λ r. r.0) (sym e₃) in
    let tail : bytes ≡ rest = ap (λ r. r.1) e₃ in ground arith

utf8_char_four :
    (b c : ℕ) (bytes rest : List ℕ)
    → 0xf0 ≤ b
    → utf8_char (b ∷ bytes) ≡ ok (c, rest)
    → (b < 0xf8) × (utf8_tail 3 (b - 0xf0) bytes ≡ ok (c, rest)) × (0x10000 ≤ c) × (c ≤ 0x10ffff)
unfolding utf8_char utf8_head read_u8
utf8_char_four b c bytes rest lo e = ground arith

-- A character of less than four bytes, with all further bytes that it may have.
utf8_char_short :
    (b x y c : ℕ) (bytes rest : List ℕ)
    → b < 0xf0
    → utf8_char (b ∷ x ∷ y ∷ bytes) ≡ ok (c, rest)
    → IsScalar c × (b ∷ x ∷ y ∷ bytes ≡ utf8_bytes c ++ rest)
unfolding utf8_char utf8_bytes utf8_tail utf8_head
utf8_char_short b x y c bytes rest h e = ground arith

pub utf8_char_sound :
    (bytes : List ℕ) (c : ℕ) (rest : List ℕ)
    → All IsByte bytes
    → utf8_char bytes ≡ ok (c, rest)
    → IsScalar c × (bytes ≡ utf8_bytes c ++ rest)
unfolding utf8_char utf8_bytes utf8_tail utf8_head
utf8_char_sound [] c rest h e = cc
utf8_char_sound (b ∷ []) c rest h e = ground arith
utf8_char_sound (b ∷ x ∷ []) c rest h e = ground arith
utf8_char_sound (b ∷ x ∷ y ∷ []) c rest h e = ground arith
utf8_char_sound (b ∷ x ∷ y ∷ z ∷ bytes) c rest h e = elim (lt_or_le b 0xf0) [
  | inl short ↦ utf8_char_short b x y c (z ∷ bytes) rest short e
  | inr four ↦
      let (small, tail, min, max) = utf8_char_four b c (x ∷ y ∷ z ∷ bytes) rest four e in
      (inr (omega arith), utf8_four b x y z c bytes rest four small tail min max)
]
