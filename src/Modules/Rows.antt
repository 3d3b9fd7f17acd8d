-- ===== src/Modules/Rows.antt =====
-- A row of the table of sections of lib/module_writer.c and the reader of its section in lib/module.c.
use toywasm.Base.{ℕ, ◌≤◌, ◌≡◌, ◌⊎◌, inl, inr, refl, subst, ◌∙◌, arith}
use toywasm.Base.{List, [], ◌∷◌, ◌++◌, length, All, ltb, if◌then◌else◌, append-nil}
use toywasm.Base.{Result, ok, err, einval, lt→ltb}
use toywasm.Decode.{write_vec}
use toywasm.Decode.Vectors.{Appends, IsReadBack, IsReadBackIn}
use toywasm.Modules.Load.{Section}
use toywasm.Modules.Sections.{keep_ctx, read_section}
use toywasm.Modules.Order.{run_sections}
use toywasm.Modules.Write.{write_vec_section}
use toywasm.Modules.Written.{AreWritten}

pub All-map {ℓ} :
    {A : Type 0} {P Q : A → Type ℓ} (f : (a : A) → P a → Q a) (xs : List A) → All P xs → All Q xs
All-map f [] h = tt
All-map f (x ∷ xs) (hx, h) = (f x hx, All-map f xs h)

abbrev WithSection : (id : ℕ) (more sections : List Section) (contents : List ℕ) → Type 0
WithSection id more sections contents =
    sections
    ≡ (if ltb 0 (length contents) then record { id = id; contents = contents } ∷ more else more)

module _ {S : Type 0} where
  pub keep_ctx-IsReadBackIn :
      {A : Type 0} (read : List ℕ → Result (A × List ℕ)) (write : A → List ℕ → Result (List ℕ))
      (a : A)
      → IsReadBack read write a
      → IsReadBackIn {S = S} (λ ctx. Unit {0}) (λ a ctx. ctx) (keep_ctx read) write a
  keep_ctx-IsReadBackIn read write a (front, wrote, back) =
      (front, wrote, λ idx ctx rest i. rw (back rest) refl, λ ctx i. tt)

  -- Either nothing is written and the context stays, or the section is read to its end.
  abbrev pub IsRow :
      (write : List ℕ → Result (List ℕ)) (read : S → List ℕ → Result (S × List ℕ)) (ctx ctx' : S)
      → Type 0
  IsRow write read ctx ctx' =
      (contents : List ℕ) × (write [] ≡ ok contents)
      × (((contents ≡ []) × (ctx ≡ ctx'))
          ⊎ ((1 ≤ length contents) × (read_section read ctx contents ≡ ok ctx')))

  pub vec-IsRow :
      {A : Type 0} (write : A → List ℕ → Result (List ℕ)) (read : S → List ℕ → Result (S × List ℕ))
      (a : A) (elems : List A) (front : List ℕ) (ctx ctx' : S)
      → Appends (write_vec write) (a ∷ elems) front
      → read ctx [] ≡ err einval
      → ((rest : List ℕ) → read ctx (front ++ rest) ≡ ok (ctx', rest))
      → IsRow (write_vec_section write (a ∷ elems)) read ctx ctx'
  unfolding write_vec_section read_section
  vec-IsRow write read a elems [] ctx ctx' wrote empty back = absurd (cc (empty, back []))
  vec-IsRow write read a elems (b ∷ front) ctx ctx' wrote empty back =
      let whole : read ctx (b ∷ front) ≡ ok (ctx', []) = rw (append-nil (b ∷ front)) at (back []) in
      (b ∷ front, wrote [], inr (omega arith, rw whole refl))

  -- The run over the sections of a table, after its first row.
  pub IsRow-run :
      (read : (id : ℕ) → S → List ℕ → Result (S × List ℕ)) (id : ℕ)
      (write : List ℕ → Result (List ℕ)) (writers : List (ℕ × (List ℕ → Result (List ℕ))))
      (sections : List Section) (ctx ctx' : S)
      → IsRow write (read id) ctx ctx'
      → AreWritten ((id, write) ∷ writers) sections
      → (more : List Section) × AreWritten writers more
        × (run_sections read ctx sections ≡ run_sections read ctx' more)
  IsRow-run read id write writers sections ctx ctx' (contents, counted, row)
        (contents', counted', more, written, e) =
      let same : contents' ≡ contents = cc (counted, counted') in
      elim row [
        | inl (nothing, unchanged) ↦
            let e' = subst (WithSection id more sections) (same ∙ nothing) e in
            let no_section : sections ≡ more = e' in
            (more, written, rw (no_section, unchanged) refl)
        | inr (some_bytes, was_read) ↦
            let e' = subst (WithSection id more sections) same e in
            let has_bytes = lt→ltb 0 (length contents) some_bytes in
            let here : sections ≡ record { id = id; contents = contents } ∷ more =
              rw has_bytes at e' in
            (more, written, rw (here, was_read) refl)
      ]

  -- The rows of a table, one after the other.
  abbrev pub AreRows :
      (read : (id : ℕ) → S → List ℕ → Result (S × List ℕ))
      (writers : List (ℕ × (List ℕ → Result (List ℕ)))) (ctx ctx' : S)
      → Type 0
  AreRows read [] ctx ctx' = ctx ≡ ctx'
  AreRows read ((id, write) ∷ writers) ctx ctx' =
      (between : S) × IsRow write (read id) ctx between × AreRows read writers between ctx'

  pub AreRows-run :
      (read : (id : ℕ) → S → List ℕ → Result (S × List ℕ))
      (writers : List (ℕ × (List ℕ → Result (List ℕ)))) (sections : List Section) (ctx ctx' : S)
      → AreRows read writers ctx ctx'
      → AreWritten writers sections
      → run_sections read ctx sections ≡ ok ctx'
  AreRows-run read [] sections ctx ctx' rows written = rw (written, rows) refl
  AreRows-run read ((id, write) ∷ writers) sections ctx ctx' (between, row, rows) written =
      let (more, later, run) = IsRow-run read id write writers sections ctx between row written in
      run ∙ AreRows-run read writers more between ctx' rows later
