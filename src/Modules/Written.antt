-- ===== src/Modules/Written.antt =====
-- The layout of what module_write1 of lib/module_writer.c writes, against the loop of module_load_into of
-- lib/module.c.
use toywasm.Base.{ℕ, ◌^◌, ◌≤◌, ◌<◌, ◌≡◌, refl, sym, ap, ◌∙◌, arith, inl, inr, false}
use toywasm.Base.{
  ◌==◌, List, [], ◌∷◌, ◌++◌, length, All, ltb, if◌then◌else◌, append_assoc, append-nil,
}
use toywasm.Base.{Result, ok, >>=-eq-ok, Bool-cases, u8}
use toywasm.Leb.{write_leb_u32}
use toywasm.Leb.Write.{write_leb_u32-append, write_leb_u32-IsLeb}
use toywasm.Decode.{write_u32}
use toywasm.Modules.{Module}
use toywasm.Modules.Load.{Section}
use toywasm.Modules.Order.{AreSections, IsKnown, places, IsIncreasing, place}
use toywasm.Modules.Write.{
  counter_size, write_section_header, write_section, write_sections, section_writers, module_write1,
}
use toywasm.Modules.Appenders.{IsAppender}
use toywasm.Modules.SegmentAppenders.{IsSectionWriter, section_writers-IsSectionWriter}

-- The sections that a table of writers gives: those that write a byte at least to the counter.
abbrev pub AreWritten : List (ℕ × (List ℕ → Result (List ℕ))) → List Section → Type 0
AreWritten [] sections = sections ≡ []
AreWritten ((id, write) ∷ writers) sections =
    (contents : List ℕ) × (write [] ≡ ok contents)
    × (more : List Section) × AreWritten writers more
    × (sections ≡ (
        if ltb 0 (length contents) then record { id = id; contents = contents } ∷ more else more))

-- A section in the file: the header and the contents.
section_bytes : Section → List ℕ
section_bytes s = s.id ∷ (write_leb_u32 (length s.contents) [] ++ s.contents)

bytes_of : List Section → List ℕ
bytes_of [] = []
bytes_of (s ∷ sections) = section_bytes s ++ bytes_of sections

abbrev IsSized : Section → Type 0
IsSized s = length s.contents < 2 ^ 32

bytes_of-AreSections :
    (sections : List Section) → All IsSized sections → AreSections (bytes_of sections) sections
unfolding bytes_of section_bytes
bytes_of-AreSections [] h = refl
bytes_of-AreSections (s ∷ sections) (sized, h) =
    let size = write_leb_u32 (length s.contents) [] in
    let (l, n, v) = write_leb_u32-IsLeb (length s.contents) sized in
    let layout : section_bytes s ++ bytes_of sections
        ≡ s.id ∷ (size ++ (s.contents ++ bytes_of sections)) =
      ap (λ bytes. s.id ∷ bytes) (append_assoc size s.contents (bytes_of sections)) in
    (bytes_of sections, (size, layout, l, n, v, sized), bytes_of-AreSections sections h)

-- The size of what the counter counts.
counter_size_fits :
    (written : List ℕ) (size : ℕ)
    → counter_size written ≡ ok size
    → (size ≡ length written) × (length written < 2 ^ 32)
unfolding counter_size
counter_size_fits written size e = ground arith

section_header_bytes :
    (id size : ℕ) (out : List ℕ)
    → id < 256
    → write_section_header id size out ≡ out ++ (id ∷ write_leb_u32 size [])
section_header_bytes id size out small =
    let byte : u8 id ≡ id = omega arith in
    rw byte (write_leb_u32-append size (out ++ id ∷ []) ∙ append_assoc out (id ∷ []) _)

section_written :
    (id size : ℕ) (write : List ℕ → Result (List ℕ)) (out out' contents : List ℕ)
    → IsAppender write
    → id < 256
    → write [] ≡ ok contents
    → size ≡ length contents
    → (if ltb 0 size then write (write_section_header id size out) else ok out) ≡ ok out'
    → out'
      ≡ out
        ++ (if ltb 0 (length contents)
            then section_bytes (record { id = id; contents = contents })
            else [])
unfolding section_bytes
section_written id size write out out' contents h small counted same_size e =
    let sized : (if ltb 0 (length contents)
          then write (write_section_header id (length contents) out)
          else ok out)
        ≡ ok out' =
      rw same_size at e in
    elim (Bool-cases (ltb 0 (length contents))) [
      | inl has_bytes ↦
          let header = section_header_bytes id (length contents) out small in
          let written = rw has_bytes at sized in
          let appended = h (write_section_header id (length contents) out) in
          let all_bytes : write_section_header id (length contents) out ++ contents ≡ out' =
            cc (written, appended, counted) in
          rw has_bytes (
            sym all_bytes
            ∙ ap (λ o. o ++ contents) header
            ∙ append_assoc out (id ∷ write_leb_u32 (length contents) []) contents)
      | inr no_bytes ↦
          let unchanged : out ≡ out' = cc (rw no_bytes at sized) in
          rw no_bytes (sym unchanged ∙ sym (append-nil out))
    ]

-- One round of the loop.
write_section_round :
    (id : ℕ) (write : List ℕ → Result (List ℕ)) (out out' : List ℕ)
    → IsAppender write
    → id < 256
    → write_section id write out ≡ ok out'
    → (contents : List ℕ) × (write [] ≡ ok contents)
      × (length contents < 2 ^ 32)
      × (out'
          ≡ out
            ++ (if ltb 0 (length contents)
                then section_bytes (record { id = id; contents = contents })
                else []))
unfolding write_section section_bytes
write_section_round id write out out' h small e =
    let (contents, counted, e₁) = >>=-eq-ok (write []) _ e in
    let (size, sized, e₂) = >>=-eq-ok (counter_size contents) _ e₁ in
    let (same_size, fits) = counter_size_fits contents size sized in
    (
      contents,
      counted,
      fits,
      section_written id size write out out' contents h small counted same_size e₂,
    )

-- The ids of a table of writers are known, none of them is custom, and their places increase.
abbrev IsTable : (seen : ℕ) → List (ℕ × (List ℕ → Result (List ℕ))) → Type 0
IsTable seen [] = Unit
IsTable seen ((id, write) ∷ writers) =
    (1 ≤ id) × (id < 13) × (seen < place id) × IsTable (place id) writers

IsIncreasing-weaken :
    (low seen : ℕ) (ns : List ℕ) → low ≤ seen → IsIncreasing seen ns → IsIncreasing low ns
IsIncreasing-weaken low seen [] le h = tt
IsIncreasing-weaken low seen (n ∷ ns) le (above, h) = (omega arith, h)

-- What the loop over a table writes behind `out`.
record IsLaidOut (seen : ℕ) (writers : List (ℕ × (List ℕ → Result (List ℕ)))) (out out' : List ℕ)
    (sections : List Section) : Type 0 where
  written : AreWritten writers sections
  sized : All IsSized sections
  known : All IsKnown sections
  ordered : IsIncreasing seen (places sections)
  bytes : out' ≡ out ++ bytes_of sections

-- A section before those that are laid out.
lay_out :
    (seen id : ℕ) (write : List ℕ → Result (List ℕ))
    (writers : List (ℕ × (List ℕ → Result (List ℕ)))) (out out₁ out' contents : List ℕ)
    (more : List Section)
    → IsLaidOut (place id) writers out₁ out' more
    → (1 ≤ id) × (id < 13) × (seen < place id)
    → write [] ≡ ok contents
    → length contents < 2 ^ 32
    → out₁
      ≡ out
        ++ (if ltb 0 (length contents)
            then section_bytes (record { id = id; contents = contents })
            else [])
    → IsLaidOut seen
        ((id, write) ∷ writers)
        out
        out'
        (if ltb 0 (length contents) then record { id = id; contents = contents } ∷ more else more)
unfolding bytes_of
lay_out seen id write writers out out₁ out' contents more laid (own, known, above) counted fits e =
    let s : Section = record { id = id; contents = contents } in
    let not_custom : (id == 0) ≡ false = ground arith in
    elim (Bool-cases (ltb 0 (length contents))) [
      | inl has_bytes ↦
          let placed : IsIncreasing seen (place id ∷ places more) = (above, laid.ordered) in
          let here : out₁ ≡ out ++ section_bytes s = rw has_bytes at e in
          rw has_bytes (record {
            written = (contents, counted, more, laid.written, rw has_bytes refl);
            sized = (fits, laid.sized);
            known = (known, laid.known);
            ordered = rw not_custom placed;
            bytes =
                laid.bytes
                ∙ ap (λ o. o ++ bytes_of more) here
                ∙ append_assoc out (section_bytes s) (bytes_of more);
          })
      | inr no_bytes ↦
          let here : out₁ ≡ out ++ [] = rw no_bytes at e in
          rw no_bytes (record {
            written = (contents, counted, more, laid.written, rw no_bytes refl);
            sized = laid.sized;
            known = laid.known;
            ordered = IsIncreasing-weaken seen (place id) (places more) (omega arith) laid.ordered;
            bytes = laid.bytes ∙ ap (λ o. o ++ bytes_of more) (here ∙ append-nil out);
          })
    ]

write_sections-IsLaidOut :
    (seen : ℕ) (writers : List (ℕ × (List ℕ → Result (List ℕ)))) (out out' : List ℕ)
    → All IsSectionWriter writers
    → IsTable seen writers
    → write_sections writers out ≡ ok out'
    → (sections : List Section) × IsLaidOut seen writers out out' sections
unfolding write_sections bytes_of
write_sections-IsLaidOut seen [] out out' h table e =
    let unchanged : out ≡ out' = cc e in
    (
      [],
      record {
        written = refl;
        sized = tt;
        known = tt;
        ordered = tt;
        bytes = sym unchanged ∙ sym (append-nil out);
      },
    )
write_sections-IsLaidOut seen ((id, write) ∷ writers) out out' (hw, h) (own, known, above, table)
      e =
    let (out₁, first, later) = >>=-eq-ok (write_section id write out) _ e in
    let (contents, counted, fits, bytes₁) =
      write_section_round id write out out₁ hw (omega arith) first in
    let (more, laid) = write_sections-IsLaidOut (place id) writers out₁ out' h table later in
    (
      _,
      lay_out seen id write writers out out₁ out' contents more laid (own, known, above) counted
          fits bytes₁,
    )

section_writers-IsTable :
    {E : Type 0} (expr_bytes : E → List ℕ) (m : Module E) → IsTable 0 (section_writers expr_bytes m)
section_writers-IsTable expr_bytes m = omega arith

-- Whatever module_write1 writes without an error begins with the magic number and the version that the
-- loader asks for; the rest is sections of known ids, in the order that the loader asks for, none of
-- them custom. They are exactly the sections that the writers of the table give, in order, those of no
-- bytes left out; and the file has less than 2^32 bytes.
pub module_write1-AreSections :
    {E : Type 0} (expr_bytes : E → List ℕ) (m : Module E) (written : List ℕ)
    → module_write1 expr_bytes m ≡ ok written
    → (sections : List Section) × (body : List ℕ) × (written
        ≡ 0x00 ∷ 0x61 ∷ 0x73 ∷ 0x6d ∷ 1 ∷ 0 ∷ 0 ∷ 0 ∷ body)
      × AreSections body sections
      × All IsKnown sections
      × IsIncreasing 0 (places sections)
      × AreWritten (section_writers expr_bytes m) sections
      × (length written < 2 ^ 32)
unfolding module_write1 write_u32
module_write1-AreSections expr_bytes m written e =
    let header : List ℕ = 0x00 ∷ 0x61 ∷ 0x73 ∷ 0x6d ∷ 1 ∷ 0 ∷ 0 ∷ 0 ∷ [] in
    let (out, all_written, e₁) =
      >>=-eq-ok (write_sections (section_writers expr_bytes m) header) _ e in
    let (size, sized, e₂) = >>=-eq-ok (counter_size out) _ e₁ in
    let same_out : out ≡ written = cc e₂ in
    let (same_size, few) = counter_size_fits out size sized in
    let (sections, laid) =
      write_sections-IsLaidOut 0 (section_writers expr_bytes m) header out
        (section_writers-IsSectionWriter expr_bytes m) (section_writers-IsTable expr_bytes m)
        all_written in
    (
      sections,
      bytes_of sections,
      sym same_out ∙ laid.bytes,
      bytes_of-AreSections sections laid.sized,
      laid.known,
      laid.ordered,
      laid.written,
      rw (← same_out) few,
    )
