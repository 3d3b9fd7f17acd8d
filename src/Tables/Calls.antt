-- ===== src/Tables/Calls.antt =====
-- The checks of call_indirect.
use toywasm.Base.{ℕ, ◌*◌, ◌<◌, ◌≤◌, ◌≡◌, ◌≢◌, refl, arith, List, true, false}
use toywasm.Base.{ltb, leb, Result, ok, err, etoywasmtrap, inl, inr, ◌⊎◌, lt_or_le, ==_ne}
use toywasm.Types.{valtype_cellsize, Functype, funcref, eq_valtype, compare_functype}
use toywasm.Types.Laws.{compare_functype_iff}
use toywasm.Tables.{Tableinst, table_get, table_get_func, pointer_of, val_from_cells}
use toywasm.Tables.Values.{IsTable, element_fits, unwrapped}
use toywasm.Tables.Contents.{read_cells-IsRead}

-- Element `i` is a function of type `ft` at `p`.
pub record IsCallable (functype_of : ℕ → Functype) (t : Tableinst) (i : ℕ) (ft : Functype) (p : ℕ)
    : Type 0 where
  pub in_range : i < t.size
  pub val : List ℕ
  pub element : table_get i t ≡ ok val
  pub pointer : pointer_of val ≡ p
  pub not_null : p ≢ 0
  pub type : ft ≡ functype_of p

-- Element `i` is none that may be called as one of type `ft`: out of range, null, or of another type.
abbrev pub IsRefused : (functype_of : ℕ → Functype) → Tableinst → (i : ℕ) → Functype → Type 0
IsRefused functype_of t i ft =
    (t.size ≤ i)
    ⊎ ((val : List ℕ) × (table_get i t ≡ ok val)
        × ((pointer_of val ≡ 0) ⊎ (ft ≢ functype_of (pointer_of val))))

abbrev pub Calls : (functype_of : ℕ → Functype) → Tableinst → (i : ℕ) → Functype → Result ℕ → Type 0
Calls functype_of t i ft r =
    ((p : ℕ) × (r ≡ ok p) × IsCallable functype_of t i ft p)
    ⊎ ((r ≡ err etoywasmtrap) × IsRefused functype_of t i ft)

table_get-ok :
    (t : Tableinst) (i : ℕ)
    → IsTable t
    → t.et ≡ funcref
    → i < t.size
    → (val : List ℕ) × (table_get i t ≡ ok val)
unfolding table_get val_from_cells
table_get-ok t i h e lt =
    let (val, read, _) =
      read_cells-IsRead (i * valtype_cellsize t.et) (valtype_cellsize t.et) t.cells
        (element_fits t.size t h.cells i lt) in
    (val, rw (allowed, unwrapped i t (element_fits t.size t h.cells i lt) h.few) read)
  where
    allowed : leb (valtype_cellsize t.et) 4 ≡ true
    allowed = rw e refl

same_funcref : eq_valtype funcref funcref ≡ true
unfolding eq_valtype
same_funcref = refl

same_or_not : (a b : ℕ) → (a ≡ b) ⊎ (a ≢ b)
same_or_not a b = omega arith

-- The function that an indirect call finds in a table of functions of fewer than 2^32 cells is the one at the index, is not null and
-- has exactly the type that the call asks for. Otherwise the call traps, and only then: the index is
-- out of range, the element is null, or its type is another one. No assertion fails.
pub table_get_func-Calls :
    (functype_of : ℕ → Functype) (t : Tableinst) (i : ℕ) (ft : Functype)
    → IsTable t
    → t.et ≡ funcref
    → Calls functype_of t i ft (table_get_func functype_of t i ft)
unfolding table_get_func
table_get_func-Calls functype_of t i ft h e = elim (lt_or_le i t.size) [
  | inr past ↦ inr (rw (is_func, out past) refl, inl past)
  | inl inside ↦
      let (val, element) = table_get-ok t i h e inside in
      let p = pointer_of val in
      elim (same_or_not p 0) [
        | inl null ↦
            inr (rw (is_func, within inside, element, null) refl, inr (val, element, inl null))
        | inr some_func ↦
            let difference = compare_functype ft (functype_of p) in
            let (to, from) = compare_functype_iff ft (functype_of p) in
            elim (same_or_not difference 0) [
              | inl same ↦ inl (
                p,
                rw (is_func, within inside, element, ==_ne p 0 some_func, same) refl,
                record {
                  in_range = inside;
                  val = val;
                  element = element;
                  pointer = refl;
                  not_null = some_func;
                  type = to same;
                },
              )
              | inr other ↦ inr (
                rw (is_func, within inside, element, ==_ne p 0 some_func, ==_ne difference 0 other)
                    refl,
                inr (val, element, inr (λ type. other (from type))),
              )
            ]
      ]
]
  where
    is_func : eq_valtype t.et funcref ≡ true
    is_func = rw e same_funcref

    within : i < t.size → ltb i t.size ≡ true
    within lt = ground (arith, lt)

    out : t.size ≤ i → ltb i t.size ≡ false
    out le = ground (arith, le)
