-- ===== src/Modules/Order.antt =====
-- The loop of module_load_into of lib/module.c against the layout of a module: a list of sections.
use toywasm.Base.{
  ℕ, zero, suc, ◌+◌, ◌^◌, ◌≤◌, ◌<◌, ◌≡◌, ◌≢◌, ◌↔◌, inl, inr, refl, sym, ap, ◌∙◌, arith, subst,
}
use toywasm.Base.{true, false, List, [], ◌∷◌, ◌++◌, length, take, drop, All, IsByte}
use toywasm.Base.{leb, ltb, ◌==◌, if◌then◌else◌, none, some, take-append, drop-append}
use toywasm.Base.{take-append-drop, length-take, length-append, Result, ok, err, ◌>>=◌, einval}
use toywasm.Base.{lt_or_le, append_assoc, >>=-eq-ok, check, ◌>>◌}
use toywasm.Base.{All-append_right}
use toywasm.Leb.{read_u8, read_leb_u32}
use toywasm.Leb.Spec.{IsLeb, leb_value}
use toywasm.Leb.Unsigned.{read_leb_u32_iff}
use toywasm.Modules.Sections.{read_section}
use toywasm.Modules.Load.{Section, section_load, section_order, check_order, load_sections}

-- `bytes` begins with the section `s`: its id, the size in LEB128 and the contents; `rest` follows.
abbrev pub IsSectionAt : (bytes : List ℕ) → Section → (rest : List ℕ) → Type 0
IsSectionAt bytes s rest =
    (size : List ℕ) × (bytes ≡ s.id ∷ (size ++ (s.contents ++ rest)))
    × IsLeb size
    × (length size ≤ 5)
    × (leb_value size ≡ length s.contents)
    × (length s.contents < 2 ^ 32)

-- `bytes` is the sections one behind the other.
abbrev pub AreSections : (bytes : List ℕ) → List Section → Type 0
AreSections bytes [] = bytes ≡ []
AreSections bytes (s ∷ sections) =
    (rest : List ℕ) × IsSectionAt bytes s rest × AreSections rest sections

-- The place of a section that is not custom: that of its id, but the datacount section, of id 12,
-- comes before the code section, of id 10, and a place is left free before the globals.
abbrev pub place : (id : ℕ) → ℕ
place id = if ltb id 6 then id else if ltb id 10 then id + 1 else if ltb id 12 then id + 2 else 11

-- The places of the sections, without the custom ones.
abbrev pub places : List Section → List ℕ
places [] = []
places (s ∷ sections) = if s.id == 0 then places sections else place s.id ∷ places sections

-- Each number is above `seen` and above those before it.
abbrev pub IsIncreasing : (seen : ℕ) → List ℕ → Type 0
IsIncreasing seen [] = Unit
IsIncreasing seen (n ∷ ns) = (seen < n) × IsIncreasing n ns

abbrev pub IsKnown : Section → Type 0
IsKnown s = s.id < 13

section_load_sound :
    (bytes : List ℕ) (s : Section) (rest : List ℕ)
    → All IsByte bytes
    → section_load bytes ≡ ok (s, rest)
    → IsSectionAt bytes s rest
unfolding section_load read_u8
section_load_sound [] s rest h e = absurd (cc e)
section_load_sound (id ∷ bytes) s rest (hb, h) e =
    let ((size, p), count, loaded) = >>=-eq-ok (read_leb_u32 bytes) _ e in
    from_count size p count loaded
  where
    from_count :
        (size : ℕ) (p : List ℕ)
        → read_leb_u32 bytes ≡ ok (size, p)
        → ◌>>◌ {B = Section × List ℕ}
            (check (leb size (length p)) einval)
            (ok (record { id = id; contents = take size p }, drop size p))
          ≡ ok (s, rest)
        → IsSectionAt (id ∷ bytes) s rest
    from_count size p count loaded =
        let (decodes, fits) = (read_leb_u32_iff bytes size p h).0 count in
        let (front, e, l, n, v) = decodes in
        let enough : size ≤ length p = ground (arith, loaded) in
        let found : Section × List ℕ = (record { id = id; contents = take size p }, drop size p) in
        let section : found ≡ (s, rest) = ground (arith, loaded) in
        let taken : length (take size p) ≡ size = omega (arith, length-take size p) in
        let whole : take size p ++ drop size p ≡ p = take-append-drop size p in
        subst (λ r. IsSectionAt (id ∷ bytes) r.0 r.1) section
          (front, rw (whole, e) refl, l, n, v ∙ sym taken, omega arith)

section_load_complete :
    (bytes : List ℕ) (s : Section) (rest : List ℕ)
    → All IsByte bytes
    → IsSectionAt bytes s rest
    → section_load bytes ≡ ok (s, rest)
unfolding section_load read_u8
section_load_complete [] s rest h (front, e, l, n, v, fits) = absurd (cc e)
section_load_complete (id ∷ bytes) s rest (hb, h) (front, e, l, n, v, fits) =
    let behind : bytes ≡ front ++ (s.contents ++ rest) = cc e in
    let same_id : id ≡ s.id = cc e in
    let count =
      (read_leb_u32_iff bytes (length s.contents) (s.contents ++ rest) h).1
        ((front, behind, l, n, v), fits) in
    let enough : leb (length s.contents) (length (s.contents ++ rest)) ≡ true =
      ground (arith, length-append s.contents rest) in
    rw (count, enough, take-append s.contents rest, drop-append s.contents rest)
      (ap (λ id. ok (record s { id = id }, rest)) same_id)

-- The readers of the sections, one after the other.
abbrev pub run_sections :
    {S : Type 0} (read : (id : ℕ) → S → List ℕ → Result (S × List ℕ)) → S → List Section → Result S
run_sections read ctx [] = ok ctx
run_sections read ctx (s ∷ sections) =
    read_section (read s.id) ctx s.contents >>= λ ctx'. run_sections read ctx' sections

section_order_known : (id : ℕ) → id < 13 → id ≢ 0 → section_order id ≡ some (place id)
unfolding section_order
section_order_known id h custom = ground arith

section_order_custom : section_order 0 ≡ some 0
unfolding section_order
section_order_custom = refl

section_order_unknown : (id : ℕ) → 13 ≤ id → section_order id ≡ none
unfolding section_order
section_order_unknown id h = ground arith

-- What the test of the order returns for a section `id` behind `seen`.
data Ordering (seen id : ℕ) : Result ℕ → Type 0 where
  custom : id ≡ 0 → Ordering seen id (ok seen)
  in_order : id ≢ 0 → id < 13 → seen < place id → Ordering seen id (ok (place id))
  out_of_order : id ≢ 0 → place id ≤ seen → Ordering seen id (err einval)
  no_such_id : 13 ≤ id → Ordering seen id (err einval)

check_order-Ordering : (seen id : ℕ) → Ordering seen id (check_order seen id (section_order id))
check_order-Ordering seen zero = rw section_order_custom (custom refl)
check_order-Ordering seen (suc k) =
    let id = suc k in
    let other : id ≢ 0 = omega arith in
    let nonzero : (id == 0) ≡ false = ground arith in
    elim (lt_or_le id 13) [
      | inr more ↦ rw (section_order_unknown id more) (no_such_id more)
      | inl known ↦ elim (lt_or_le seen (place id)) [
        | inl above ↦
            let late : leb (place id) seen ≡ false = ground arith in
            rw (section_order_known id known other, nonzero, late) (in_order other known above)
        | inr below ↦
            let early : leb (place id) seen ≡ true = ground arith in
            rw (section_order_known id known other, nonzero, early) (out_of_order other below)
      ]
    ]

-- The whole of a module behind the version: known sections in order, each read to its end.
abbrev pub IsLoaded :
    {S : Type 0} (read : (id : ℕ) → S → List ℕ → Result (S × List ℕ)) (seen : ℕ) (ctx : S)
    (bytes : List ℕ) (ctx' : S)
    → Type 0
IsLoaded read seen ctx bytes ctx' =
    (sections : List Section) × AreSections bytes sections
    × All IsKnown sections
    × IsIncreasing seen (places sections)
    × (run_sections read ctx sections ≡ ok ctx')

-- The bytes behind the first section.
behind_section :
    (bytes : List ℕ) (s : Section) (rest : List ℕ)
    → All IsByte bytes
    → IsSectionAt bytes s rest
    → All IsByte rest × (length rest < length bytes)
behind_section bytes s rest h (front, e, l, n, v, fits) =
    let size : length bytes ≡ length (s.id ∷ (front ++ (s.contents ++ rest))) = ap length e in
    (
      All-append_right IsByte (s.id ∷ (front ++ s.contents)) rest
          (rw (e ∙ ap (λ bs. s.id ∷ bs) (sym (append_assoc front s.contents rest))) at h),
      omega (arith, length-append front (s.contents ++ rest), length-append s.contents rest),
    )

Ordering-IsIncreasing :
    (seen seen' id : ℕ) (ns : List ℕ) (r : Result ℕ)
    → Ordering seen id r
    → r ≡ ok seen'
    → IsIncreasing seen' ns
    → (id < 13) × IsIncreasing seen (if id == 0 then ns else place id ∷ ns)
Ordering-IsIncreasing seen seen' id ns r (custom zero_id) e h =
    let same : seen ≡ seen' = cc e in (omega arith, rw (zero_id, same) h)
Ordering-IsIncreasing seen seen' id ns r (in_order other known above) e h =
    let same : place id ≡ seen' = cc e in
    let nonzero : (id == 0) ≡ false = ground arith in (known, rw nonzero (above, rw same h))
Ordering-IsIncreasing seen seen' id ns r (out_of_order other below) e h = absurd (cc e)
Ordering-IsIncreasing seen seen' id ns r (no_such_id more) e h = absurd (cc e)

IsIncreasing-Ordering :
    (seen id : ℕ) (ns : List ℕ) (r : Result ℕ)
    → Ordering seen id r
    → id < 13
    → IsIncreasing seen (if id == 0 then ns else place id ∷ ns)
    → (seen' : ℕ) × (r ≡ ok seen') × IsIncreasing seen' ns
IsIncreasing-Ordering seen id ns r (custom zero_id) known h = (seen, refl, rw zero_id at h)
IsIncreasing-Ordering seen id ns r (in_order other known' above) known h =
    let nonzero : (id == 0) ≡ false = ground arith in
    let (above', later) : IsIncreasing seen (place id ∷ ns) = rw nonzero at h in
    (place id, refl, later)
IsIncreasing-Ordering seen id ns r (out_of_order other below) known h =
    let nonzero : (id == 0) ≡ false = ground arith in
    let (above, later) : IsIncreasing seen (place id ∷ ns) = rw nonzero at h in absurd (omega arith)
IsIncreasing-Ordering seen id ns r (no_such_id more) known h = absurd (omega arith)

module _ {S : Type 0} (read : (id : ℕ) → S → List ℕ → Result (S × List ℕ)) where
  load_sections_sound :
      (fuel seen : ℕ) (ctx ctx' : S) (bytes : List ℕ)
      → All IsByte bytes
      → load_sections read fuel seen ctx bytes ≡ ok ctx'
      → IsLoaded read seen ctx bytes ctx'
  unfolding load_sections
  load_sections_sound zero seen ctx ctx' [] h e = ([], refl, tt, tt, e)
  load_sections_sound (suc fuel) seen ctx ctx' [] h e = ([], refl, tt, tt, e)
  load_sections_sound zero seen ctx ctx' (b ∷ bytes) h e = absurd (cc e)
  load_sections_sound (suc fuel) seen ctx ctx' (b ∷ bytes) h e =
      let ((s, rest), loaded, e₁) = >>=-eq-ok (section_load (b ∷ bytes)) _ e in
      let (seen', ordered, e₂) = >>=-eq-ok (check_order seen s.id (section_order s.id)) _ e₁ in
      let (ctx₁, was_read, e₃) = >>=-eq-ok (read_section (read s.id) ctx s.contents) _ e₂ in
      let here = section_load_sound (b ∷ bytes) s rest h loaded in
      let (rest_bytes, smaller) = behind_section (b ∷ bytes) s rest h here in
      let (sections, layout, known, increasing, run) =
        load_sections_sound fuel seen' ctx₁ ctx' rest rest_bytes e₃ in
      let (known_here, increasing_here) =
        Ordering-IsIncreasing seen seen' s.id (places sections) _ (check_order-Ordering seen s.id)
          ordered increasing in
      (s ∷ sections, (rest, here, layout), (known_here, known), increasing_here, rw was_read run)

  load_sections_complete :
      (sections : List Section) (fuel seen : ℕ) (ctx ctx' : S) (bytes : List ℕ)
      → All IsByte bytes
      → length bytes ≤ fuel
      → AreSections bytes sections
      → All IsKnown sections
      → IsIncreasing seen (places sections)
      → run_sections read ctx sections ≡ ok ctx'
      → load_sections read fuel seen ctx bytes ≡ ok ctx'
  unfolding load_sections
  load_sections_complete [] zero seen ctx ctx' bytes h enough layout known increasing run =
      rw layout run
  load_sections_complete [] (suc fuel) seen ctx ctx' bytes h enough layout known increasing run =
      rw layout run
  load_sections_complete (s ∷ sections) fuel seen ctx ctx' [] h enough (rest, here, layout) known
        increasing run =
      absurd (omega (arith, (behind_section [] s rest h here).1))
  load_sections_complete (s ∷ sections) zero seen ctx ctx' (b ∷ bytes) h enough layout known
        increasing run =
      absurd (omega arith)
  load_sections_complete (s ∷ sections) (suc fuel) seen ctx ctx' (b ∷ bytes) h enough
        (rest, here, layout) (known_here, known) increasing run =
      let (rest_bytes, smaller) = behind_section (b ∷ bytes) s rest h here in
      let (seen', ordered, later) =
        IsIncreasing-Ordering seen s.id (places sections) _ (check_order-Ordering seen s.id)
          known_here increasing in
      let (ctx₁, was_read, run') = >>=-eq-ok (read_section (read s.id) ctx s.contents) _ run in
      rw (section_load_complete (b ∷ bytes) s rest h here, ordered, was_read)
        (load_sections_complete sections fuel seen' ctx₁ ctx' rest rest_bytes (omega arith) layout
          known later run')

  -- The loop over the sections, from any context and with enough rounds, ends well exactly for bytes that
  -- are sections of known ids one behind the other, in the order of the places and none of them twice
  -- but the custom ones, where each reader in turn reads its section to the end; what they make of the
  -- context is the result.
  pub load_sections_iff :
      (fuel seen : ℕ) (ctx ctx' : S) (bytes : List ℕ)
      → All IsByte bytes
      → length bytes ≤ fuel
      → (load_sections read fuel seen ctx bytes ≡ ok ctx') ↔ IsLoaded read seen ctx bytes ctx'
  load_sections_iff fuel seen ctx ctx' bytes h enough = (
    load_sections_sound fuel seen ctx ctx' bytes h,
    λ (sections, layout, known, increasing, run).
        load_sections_complete sections fuel seen ctx ctx' bytes h enough layout known increasing
          run,
  )
