-- ===== src/Names/RoundTrip.antt =====
-- read_name of lib/module.c against write_name of lib/module_writer.c.
use toywasm.Base.{ℕ, ◌≡◌, refl, ap, ◌∙◌, arith, List, [], ◌++◌, length, leb, true}
use toywasm.Base.{ok, IsU32, append_assoc, length-append, take-append, drop-append}
use toywasm.Leb.{write_leb_u32}
use toywasm.Leb.Write.{write_leb_u32-append, read_leb_u32_written}
use toywasm.Decode.{read_vec_count}
use toywasm.Decode.Vectors.{IsReadBack}
use toywasm.Names.{check_utf8, read_name, write_name}
use toywasm.Names.Utf8.{IsUtf8, check_utf8_complete}

-- A name that read_name can make.
abbrev pub IsName : List ℕ → Type 0
IsName name = IsUtf8 name × IsU32 (length name)

IsUtf8-check_utf8 : (name : List ℕ) → IsUtf8 name → check_utf8 name ≡ ok tt
unfolding check_utf8
IsUtf8-check_utf8 name (chars, scalars, e) =
    rw e (check_utf8_complete chars _ scalars (omega arith))

pub read_name-write_name : (name : List ℕ) → IsName name → IsReadBack read_name write_name name
unfolding read_name write_name read_vec_count
read_name-write_name name (text, few) =
    let count = write_leb_u32 (length name) [] in
    (
      count ++ name,
      λ out. ap ok (
          ap (λ bytes. bytes ++ name) (write_leb_u32-append (length name) out)
          ∙ append_assoc out count name),
      λ rest.
          let enough : leb (length name) (length (name ++ rest)) ≡ true =
            ground (arith, length-append name rest) in
          rw
            (
              append_assoc count name rest,
              read_leb_u32_written (length name) (name ++ rest) few,
              enough,
              take-append name rest,
              drop-append name rest,
              IsUtf8-check_utf8 name text,
            )
            refl,
    )
