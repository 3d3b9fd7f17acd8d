-- ===== src/Names/Utf8.antt =====
-- check_utf8 of lib/module.c against the encoding of characters as bytes.
use toywasm.Base.{
  ℕ, zero, suc, ◌+◌, ◌-◌, ◌/◌, ◌%◌, ◌≤◌, ◌<◌, ◌≡◌, ◌⊎◌, ◌↔◌, inl, inr, refl, ap, ◌∙◌,
}
use toywasm.Base.{arith, List, [], ◌∷◌, ◌++◌, length, All, IsByte, lt_or_le, ltb, if◌then◌else◌}
use toywasm.Base.{
  Result, ok, err, einval, length-append, All-append_right, ◌>>=◌, Bool, true, false, check, not,
  ◌&&◌, ◌||◌, leb,
}
use toywasm.Leb.{read_u8}
use toywasm.Names.{utf8_head, utf8_tail, utf8_char, check_utf8_loop, check_utf8}
use toywasm.Names.Chars.{IsScalar, utf8_bytes, utf8_char_complete, utf8_char_sound}

abbrev pub utf8_text : List ℕ → List ℕ
utf8_text [] = []
utf8_text (c ∷ chars) = utf8_bytes c ++ utf8_text chars

-- A character has a byte at least.
utf8_bytes_some : (c : ℕ) → (b : ℕ) × (bytes : List ℕ) × (utf8_bytes c ≡ b ∷ bytes)
unfolding utf8_bytes
utf8_bytes_some c = elim (lt_or_le c 0x80) [
  | inl one ↦ (c, [], ground arith)
  | inr more ↦ elim (lt_or_le c 0x800) [
    | inl two ↦ (0xc0 + c / 64, (0x80 + c % 64) ∷ [], ground arith)
    | inr more ↦ elim (lt_or_le c 0x10000) [
      | inl three ↦ (0xe0 + c / 4096, (0x80 + c / 64 % 64) ∷ (0x80 + c % 64) ∷ [], ground arith)
      | inr four ↦ (
        0xf0 + c / 262144,
        (0x80 + c / 4096 % 64) ∷ (0x80 + c / 64 % 64) ∷ (0x80 + c % 64) ∷ [],
        ground arith,
      )
    ]
  ]
]

-- A round at the bytes of a character, given what the further rounds return.
check_char :
    (fuel c : ℕ) (rest : List ℕ) (r : Result (Unit {0}))
    → IsScalar c
    → length (utf8_bytes c ++ rest) ≤ fuel
    → ((fuel' : ℕ) → length rest ≤ fuel' → check_utf8_loop fuel' rest ≡ r)
    → check_utf8_loop fuel (utf8_bytes c ++ rest) ≡ r
unfolding check_utf8_loop
check_char fuel c rest r scalar enough later =
    let (b, bytes, e) = utf8_bytes_some c in
    let read = utf8_char_complete c rest scalar in go fuel b bytes e (rw e at read) (rw e at enough)
  where
    go :
        (fuel b : ℕ) (bytes : List ℕ)
        → utf8_bytes c ≡ b ∷ bytes
        → utf8_char (b ∷ (bytes ++ rest)) ≡ ok (c, rest)
        → length (b ∷ (bytes ++ rest)) ≤ fuel
        → check_utf8_loop fuel (utf8_bytes c ++ rest) ≡ r
    go zero b bytes e read enough = absurd (omega arith)
    go (suc fuel) b bytes e read enough =
        rw (e, read) (later fuel (omega (arith, enough, length-append bytes rest)))

pub check_utf8_complete :
    (chars : List ℕ) (fuel : ℕ)
    → All IsScalar chars
    → length (utf8_text chars) ≤ fuel
    → check_utf8_loop fuel (utf8_text chars) ≡ ok tt
unfolding check_utf8_loop
check_utf8_complete [] zero h enough = refl
check_utf8_complete [] (suc fuel) h enough = refl
check_utf8_complete (c ∷ chars) fuel (scalar, h) enough =
    check_char fuel c (utf8_text chars) (ok tt) scalar enough
      (λ fuel' enough'. check_utf8_complete chars fuel' h enough')

-- The bytes are the text of some characters.
abbrev pub IsUtf8 : List ℕ → Type 0
IsUtf8 bytes = (chars : List ℕ) × All IsScalar chars × (bytes ≡ utf8_text chars)

-- `ok` or EINVAL: no fault.
data IsChecked {A : Type 0} : Result A → Type 0 where
  checked : (a : A) → IsChecked (ok a)
  refused : IsChecked (err einval)

IsChecked-cases :
    {A : Type 0} (r : Result A) → IsChecked r → ((a : A) × (r ≡ ok a)) ⊎ (r ≡ err einval)
IsChecked-cases _ (checked a) = inl (a, refl)
IsChecked-cases _ refused = inr refl

IsChecked->>= :
    {A B : Type 0} {r : Result A} {next : A → Result B}
    → IsChecked r
    → ((a : A) → IsChecked (next a))
    → IsChecked (r >>= next)
IsChecked->>= (checked a) later = later a
IsChecked->>= refused later = refused

IsChecked-if :
    {A : Type 0} (test : Bool) {r s : Result A}
    → IsChecked r
    → IsChecked s
    → IsChecked (if test then r else s)
IsChecked-if true h h' = h
IsChecked-if false h h' = h'

IsChecked-check : (test : Bool) → IsChecked (check test einval)
IsChecked-check true = checked tt
IsChecked-check false = refused

utf8_head_total : (b : ℕ) → IsChecked (utf8_head b)
unfolding utf8_head
utf8_head_total b = IsChecked-if (ltb b 0x80) (checked (1, 0, 0x7f, b)) (
    IsChecked-if (ltb b 0xc0) refused (
      IsChecked-if (ltb b 0xe0) (checked (2, 0x80, 0x7ff, b - 0xc0)) (
        IsChecked-if (ltb b 0xf0) (checked (3, 0x800, 0xffff, b - 0xe0))
          (IsChecked-if (ltb b 0xf8) (checked (4, 0x10000, 0x10ffff, b - 0xf0)) refused))))

utf8_tail_total : (n c : ℕ) (bytes : List ℕ) → IsChecked (utf8_tail n c bytes)
unfolding utf8_tail read_u8
utf8_tail_total zero c bytes = checked _
utf8_tail_total (suc n) c [] = refused
utf8_tail_total (suc n) c (b ∷ bytes) =
    IsChecked->>= (IsChecked-check _) (λ done. utf8_tail_total n _ bytes)

utf8_char_total : (bytes : List ℕ) → IsChecked (utf8_char bytes)
unfolding utf8_char read_u8
utf8_char_total [] = refused
utf8_char_total (b ∷ bytes) = IsChecked->>= (utf8_head_total b) (λ (n, lo, hi, bits).
    IsChecked->>= (utf8_tail_total (n - 1) bits bytes) (λ (c, rest).
      IsChecked->>= (IsChecked-check (not (ltb c lo || ltb hi c))) (λ done.
        IsChecked->>= (IsChecked-check (not (leb 0xd800 c && ltb c 0xe000)))
          (λ done. checked (c, rest)))))

-- What is behind the first character of some bytes.
behind_char :
    (bytes : List ℕ) (c : ℕ) (rest : List ℕ)
    → All IsByte bytes
    → bytes ≡ utf8_bytes c ++ rest
    → All IsByte rest × (length rest < length bytes)
behind_char bytes c rest h e =
    let (b, front, e') = utf8_bytes_some c in
    let size : length bytes ≡ length (utf8_bytes c) + length rest =
      ap length e ∙ length-append (utf8_bytes c) rest in
    let some_bytes : length (utf8_bytes c) ≡ suc (length front) = ap length e' in
    (All-append_right IsByte (utf8_bytes c) rest (rw e at h), omega arith)

decide_text :
    (fuel : ℕ) (bytes : List ℕ)
    → All IsByte bytes
    → length bytes ≤ fuel
    → ((check_utf8_loop fuel bytes ≡ ok tt) × IsUtf8 bytes)
      ⊎ (check_utf8_loop fuel bytes ≡ err einval)
unfolding check_utf8_loop
decide_text zero [] h enough = inl (refl, ([], tt, refl))
decide_text (suc fuel) [] h enough = inl (refl, ([], tt, refl))
decide_text zero (b ∷ bytes) h enough = absurd (omega arith)
decide_text (suc fuel) (b ∷ bytes) h enough =
    elim (IsChecked-cases _ (utf8_char_total (b ∷ bytes))) [
      | inr bad ↦ inr (rw bad refl)
      | inl ((c, rest), read) ↦
          let (scalar, e) = utf8_char_sound (b ∷ bytes) c rest h read in
          let (later_bytes, smaller) = behind_char (b ∷ bytes) c rest h e in
          rw read (
            extend c rest scalar e
              (decide_text fuel rest later_bytes (omega (arith, smaller, enough))))
    ]
  where
    extend :
        (c : ℕ) (rest : List ℕ)
        → IsScalar c
        → b ∷ bytes ≡ utf8_bytes c ++ rest
        → ((check_utf8_loop fuel rest ≡ ok tt) × IsUtf8 rest)
          ⊎ (check_utf8_loop fuel rest ≡ err einval)
        → ((check_utf8_loop fuel rest ≡ ok tt) × IsUtf8 (b ∷ bytes))
          ⊎ (check_utf8_loop fuel rest ≡ err einval)
    extend c rest scalar e (inl (text_ok, (chars, scalars, e'))) =
        inl (text_ok, (c ∷ chars, (scalar, scalars), e ∙ ap (λ more. utf8_bytes c ++ more) e'))
    extend c rest scalar e (inr bad) = inr bad

-- What check_utf8 decides: the bytes are the text of some characters, or it returns EINVAL.
abbrev pub DecidesUtf8 : List ℕ → Type 0
DecidesUtf8 bytes =
    ((check_utf8 bytes ≡ ok tt) ↔ IsUtf8 bytes)
    × ((check_utf8 bytes ≡ ok tt) ⊎ (check_utf8 bytes ≡ err einval))

-- check_utf8 always returns: 0 exactly for the bytes that are the shortest UTF-8 encodings of some
-- Unicode scalar values, one behind the other, and EINVAL for all others.
pub check_utf8-DecidesUtf8 : (bytes : List ℕ) → All IsByte bytes → DecidesUtf8 bytes
unfolding check_utf8
check_utf8-DecidesUtf8 bytes h = elim (decide_text (length bytes) bytes h (omega arith)) [
  | inl (text_ok, text) ↦ ((λ e. text, λ t. text_ok), inl text_ok)
  | inr bad ↦ (
    (
      λ e. absurd (cc (e, bad)),
      λ (chars, scalars, e).
          let fits : length (utf8_text chars) ≤ length bytes = rw e (omega arith) in
          rw e (check_utf8_complete chars (length (utf8_text chars)) scalars (omega arith)),
    ),
    inr bad,
  )
]
