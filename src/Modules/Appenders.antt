-- ===== src/Modules/Appenders.antt =====
-- The writers of lib/module_writer.c only append: what they write does not depend on what is written.
use toywasm.Base.{ℕ, ◌^◌, ◌≡◌, refl, sym, ap, ◌∙◌, Bool, true, false, not, List, [], ◌∷◌, ◌++◌}
use toywasm.Base.{length, ◌==◌, if◌then◌else◌, u8, append-nil, append_assoc}
use toywasm.Base.{Bool-cases, inl, inr, bit_and, bit_or, ◌-◌}
use toywasm.Base.{Result, ok, err, fault, ◌>>=◌, ◌>>◌, assert}
use toywasm.Types.{Valtype, valtype_code, is_valtype, Resulttype, Functype}
use toywasm.Insn.{Globaltype}
use toywasm.Leb.{write_leb_u32}
use toywasm.Leb.Write.{write_leb_u32-append}
use toywasm.Decode.{write_elems, write_vec, write_u32_elem}
use toywasm.Modules.{
  Limits, Memtype, Tabletype, Importdesc, import_func, import_table, import_memory, import_global,
  Import, WasmExport,
}
use toywasm.Modules.Types.{
  write_valtype, write_resulttype, write_functype, write_limits, write_memtype, write_tabletype,
  write_globaltype, write_u8,
}
use toywasm.Modules.Entries.{
  write_importdesc, write_import, write_exportdesc, write_export, externtype_byte,
}
use toywasm.Names.{write_name}
use toywasm.Modules.Write.{write_vec_section}

-- What is written behind `out` is what is written to an empty file.
abbrev pub IsAppender : (write : List ℕ → Result (List ℕ)) → Type 0
IsAppender write = (out : List ℕ) → write out ≡ (write [] >>= λ bytes. ok (out ++ bytes))

pub bytes-IsAppender : (bytes : List ℕ) → IsAppender (λ out. ok (out ++ bytes))
bytes-IsAppender bytes out = refl

pub leb-IsAppender : (u : ℕ) → IsAppender (λ out. ok (write_leb_u32 u out))
leb-IsAppender u out = ap ok (write_leb_u32-append u out)

pub nothing-IsAppender : IsAppender (λ out. ok out)
nothing-IsAppender out = ap ok (sym (append-nil out))

then_ok :
    (f g : List ℕ → Result (List ℕ)) (out bytes : List ℕ)
    → f out ≡ ok (out ++ bytes)
    → f [] ≡ ok bytes
    → IsAppender g
    → (f out >>= g) ≡ ((f [] >>= g) >>= λ more. ok (out ++ more))
then_ok f g out bytes written counted h =
    rw (written, counted, h (out ++ bytes), h bytes) (rest (g []))
  where
    rest :
        (r : Result (List ℕ))
        → (r >>= λ more. ok (out ++ bytes ++ more))
          ≡ ((r >>= λ more. ok (bytes ++ more)) >>= λ more. ok (out ++ more))
    rest (ok more) = ap ok (append_assoc out bytes more)
    rest (err e) = refl
    rest fault = refl

-- One writer behind another.
pub then-IsAppender :
    (f g : List ℕ → Result (List ℕ)) → IsAppender f → IsAppender g → IsAppender (λ out. f out >>= g)
then-IsAppender f g hf hg out = cases (f []) refl
  where
    cases :
        (r : Result (List ℕ))
        → f [] ≡ r
        → (f out >>= g) ≡ ((f [] >>= g) >>= λ more. ok (out ++ more))
    cases (ok bytes) e =
        then_ok f g out bytes (hf out ∙ ap (λ r. r >>= λ bytes. ok (out ++ bytes)) e) e hg
    cases (err x) e = rw (hf out, e) refl
    cases fault e = rw (hf out, e) refl

pub if-IsAppender :
    (test : Bool) (f g : List ℕ → Result (List ℕ))
    → IsAppender f
    → IsAppender g
    → IsAppender (λ out. if test then f out else g out)
if-IsAppender true f g hf hg = hf
if-IsAppender false f g hf hg = hg

pub assert-IsAppender :
    (test : Bool) (f : List ℕ → Result (List ℕ))
    → IsAppender f
    → IsAppender (λ out. assert test >> f out)
assert-IsAppender true f hf out = hf out
assert-IsAppender false f hf out = refl

module _ {A : Type 0} (write : A → List ℕ → Result (List ℕ))
    (h : (a : A) → IsAppender (write a)) where
  write_elems-IsAppender : (elems : List A) → IsAppender (write_elems write elems)
  unfolding write_elems
  write_elems-IsAppender [] = nothing-IsAppender
  write_elems-IsAppender (a ∷ elems) =
      then-IsAppender (write a) (write_elems write elems) (h a) (write_elems-IsAppender elems)

  pub write_vec-IsAppender : (elems : List A) → IsAppender (write_vec write elems)
  unfolding write_vec
  write_vec-IsAppender elems =
      then-IsAppender (λ out. ok (write_leb_u32 (length elems) out)) (write_elems write elems)
        (leb-IsAppender (length elems)) (write_elems-IsAppender elems)

  pub write_vec_section-IsAppender : (elems : List A) → IsAppender (write_vec_section write elems)
  unfolding write_vec_section
  write_vec_section-IsAppender [] = nothing-IsAppender
  write_vec_section-IsAppender (a ∷ elems) = write_vec-IsAppender (a ∷ elems)

pub write_u32_elem-IsAppender : (u : ℕ) → IsAppender (write_u32_elem u)
unfolding write_u32_elem
write_u32_elem-IsAppender u = leb-IsAppender u

write_valtype-IsAppender : (vt : Valtype) → IsAppender (write_valtype vt)
unfolding write_valtype
write_valtype-IsAppender vt =
    assert-IsAppender (is_valtype vt) (λ out. ok (write_u8 (valtype_code vt) out))
      (bytes-IsAppender (u8 (valtype_code vt) ∷ []))

write_resulttype-IsAppender : (rt : Resulttype) → IsAppender (write_resulttype rt)
unfolding write_resulttype
write_resulttype-IsAppender rt = write_vec-IsAppender write_valtype write_valtype-IsAppender rt

pub write_functype-IsAppender : (ft : Functype) → IsAppender (write_functype ft)
unfolding write_functype
write_functype-IsAppender ft =
    then-IsAppender (λ out. ok (write_u8 0x60 out)) _ (bytes-IsAppender (0x60 ∷ []))
      (then-IsAppender (write_resulttype ft.parameter) (write_resulttype ft.result)
        (write_resulttype-IsAppender ft.parameter) (write_resulttype-IsAppender ft.result))

pub write_name-IsAppender : (name : List ℕ) → IsAppender (write_name name)
unfolding write_name
write_name-IsAppender name =
    then-IsAppender (λ out. ok (write_leb_u32 (length name) out)) (λ out. ok (out ++ name))
      (leb-IsAppender (length name)) (bytes-IsAppender name)

-- A byte, then what another writer writes.
pub byte_then :
    (byte : ℕ) (f : List ℕ → Result (List ℕ))
    → IsAppender f
    → IsAppender (λ out. f (write_u8 byte out))
byte_then byte f hf =
    then-IsAppender (λ out. ok (write_u8 byte out)) f (bytes-IsAppender (u8 byte ∷ [])) hf

pub leb_then :
    (u : ℕ) (f : List ℕ → Result (List ℕ))
    → IsAppender f
    → IsAppender (λ out. f (write_leb_u32 u out))
leb_then u f hf = then-IsAppender (λ out. ok (write_leb_u32 u out)) f (leb-IsAppender u) hf

write_limits-IsAppender :
    (lim : Limits) (flags shift : ℕ) → IsAppender (λ out. ok (write_limits lim flags shift out))
unfolding write_limits
write_limits-IsAppender lim flags shift out = elim (Bool-cases (lim.max == 2 ^ 32 - 1)) [
  | inl no_max ↦ elim (Bool-cases (not (bit_and flags 0x08 == 0))) [
    | inl page ↦
        rw (no_max, page)
          (byte_then (bit_or 0x00 flags) _ (leb_then lim.min _ (leb-IsAppender shift)) out)
    | inr plain ↦ rw (no_max, plain) (byte_then (bit_or 0x00 flags) _ (leb-IsAppender lim.min) out)
  ]
  | inr has_max ↦ elim (Bool-cases (not (bit_and flags 0x08 == 0))) [
    | inl page ↦
        rw (has_max, page)
          (byte_then (bit_or 0x01 flags) _
            (leb_then lim.min _ (leb_then lim.max _ (leb-IsAppender shift))) out)
    | inr plain ↦
        rw (has_max, plain)
          (byte_then (bit_or 0x01 flags) _ (leb_then lim.min _ (leb-IsAppender lim.max)) out)
  ]
]

pub write_memtype-IsAppender : (mt : Memtype) → IsAppender (write_memtype mt)
unfolding write_memtype
write_memtype-IsAppender mt = write_limits-IsAppender mt.lim mt.flags 0

pub write_tabletype-IsAppender : (tt : Tabletype) → IsAppender (write_tabletype tt)
unfolding write_tabletype
write_tabletype-IsAppender tt =
    then-IsAppender (write_valtype tt.et) _ (write_valtype-IsAppender tt.et)
      (write_limits-IsAppender tt.lim 0 0)

pub write_globaltype-IsAppender : (gt : Globaltype) → IsAppender (write_globaltype gt)
unfolding write_globaltype
write_globaltype-IsAppender gt =
    then-IsAppender (write_valtype gt.t) _ (write_valtype-IsAppender gt.t)
      (bytes-IsAppender (u8 (if gt.const then 0x00 else 0x01) ∷ []))

write_importdesc-IsAppender : (desc : Importdesc) → IsAppender (write_importdesc desc)
unfolding write_importdesc
write_importdesc-IsAppender (import_func typeidx) = byte_then 0x00 _ (leb-IsAppender typeidx)
write_importdesc-IsAppender (import_table tt) = byte_then 0x01 _ (write_tabletype-IsAppender tt)
write_importdesc-IsAppender (import_memory mt) = byte_then 0x02 _ (write_memtype-IsAppender mt)
write_importdesc-IsAppender (import_global gt) = byte_then 0x03 _ (write_globaltype-IsAppender gt)

pub write_import-IsAppender : (im : Import) → IsAppender (write_import im)
unfolding write_import
write_import-IsAppender im =
    then-IsAppender (write_name im.module_name) _ (write_name-IsAppender im.module_name) (
      then-IsAppender (write_name im.name) _ (write_name-IsAppender im.name)
        (write_importdesc-IsAppender im.desc))

pub write_export-IsAppender : (ex : WasmExport) → IsAppender (write_export ex)
unfolding write_export write_exportdesc
write_export-IsAppender ex =
    then-IsAppender (write_name ex.name) _ (write_name-IsAppender ex.name)
      (byte_then (externtype_byte ex.desc.type) _ (leb-IsAppender ex.desc.idx))
