-- ===== src/Modules/Find.antt =====
-- The binary search of module_find_export of lib/type.c on exports with increasing names, against the
-- linear search of the other build.
use toywasm.Base.{
  ℕ, zero, suc, ◌+◌, ◌-◌, ◌*◌, ◌/◌, ◌^◌, ◌≤◌, ◌<◌, ◌≡◌, ◌≢◌, ◌⊎◌, inl, inr, refl, sym, ap, ◌∙◌,
  arith,
}
use toywasm.Base.{List, [], ◌∷◌, length, get_elem?, some}
use toywasm.Base.{err, enoent, lt_or_le}
use toywasm.Base.{get_elem?-some, get_elem?_lt}
use toywasm.Base.{lt→ltb, le→not_ltb}
use native.Mathlib.Nat.{pow-suc}
use toywasm.Names.{Order, before, same, behind, compare_name}
use toywasm.Names.Ordered.{
  IsBefore, compare_name_same, IsBefore-trans, compare_name-behind, IsBefore-irrefl,
}
use toywasm.Modules.{Module, Externtype, WasmExport}
use toywasm.Modules.Lookup.{found_export, find_export_loop, module_find_export, find_export_linear}

-- The names increase.
abbrev pub IsSortedByName : List WasmExport → Type 0
IsSortedByName exports =
    (i j : ℕ) (a b : WasmExport)
    → i < j
    → get_elem? exports i ≡ some a
    → get_elem? exports j ≡ some b
    → IsBefore a.name b.name

pub Order-cases : (o : Order) → (o ≡ before) ⊎ ((o ≡ same) ⊎ (o ≡ behind))
Order-cases before = inl refl
Order-cases same = inr (inl refl)
Order-cases behind = inr (inr refl)

-- A name that is not there.
find_export_linear-enoent :
    (exports : List WasmExport) (name : List ℕ) (type : Externtype)
    → ((j : ℕ) (ex : WasmExport) → get_elem? exports j ≡ some ex → ex.name ≢ name)
    → find_export_linear exports name type ≡ err enoent
unfolding find_export_linear
find_export_linear-enoent [] name type other = refl
find_export_linear-enoent (ex ∷ exports) name type other =
    let rest = find_export_linear-enoent exports name type (λ j. other (suc j)) in
    elim (Order-cases (compare_name ex.name name)) [
      | inl e ↦ rw (e, rest)
      | inr (inl e) ↦ absurd (other 0 ex refl ((compare_name_same ex.name name).0 e))
      | inr (inr e) ↦ rw (e, rest)
    ]

-- A name that is there once.
find_export_linear-found :
    (exports : List WasmExport) (mid : ℕ) (ex : WasmExport) (name : List ℕ) (type : Externtype)
    → get_elem? exports mid ≡ some ex
    → ex.name ≡ name
    → ((j : ℕ) (ex' : WasmExport) → j ≢ mid → get_elem? exports j ≡ some ex' → ex'.name ≢ name)
    → find_export_linear exports name type ≡ found_export ex type
unfolding find_export_linear
find_export_linear-found [] mid ex name type at_mid e other = absurd (cc at_mid)
find_export_linear-found (a ∷ exports) zero ex name type at_mid e other =
    let here : a ≡ ex = cc at_mid in
    let equal : compare_name a.name name ≡ same =
      (compare_name_same a.name name).1 (ap (λ (x : WasmExport). x.name) here ∙ e) in
    let rest =
      find_export_linear-enoent exports name type (λ j ex' p. other (suc j) ex' (omega arith) p) in
    rw (equal, rest, here) refl
find_export_linear-found (a ∷ exports) (suc mid) ex name type at_mid e other =
    let rest =
      find_export_linear-found exports mid ex name type at_mid e
        (λ j ex' ne p. other (suc j) ex' (omega arith) p) in
    elim (Order-cases (compare_name a.name name)) [
      | inl o ↦ rw (o, rest)
      | inr (inl o) ↦ absurd (other 0 a (omega arith) refl ((compare_name_same a.name name).0 o))
      | inr (inr o) ↦ rw (o, rest)
    ]

module _ (exports : List WasmExport) (name : List ℕ) (type : Externtype)
    (sorted : IsSortedByName exports) where
  -- The name is between `left` and `right` if it is there at all.
  record IsBetween (left right : ℕ) : Type 0 where
    inside : right ≤ length exports
    low :
        (j : ℕ) (ex : WasmExport) → j < left → get_elem? exports j ≡ some ex → IsBefore ex.name name
    high :
        (j : ℕ) (ex : WasmExport)
        → right ≤ j
        → get_elem? exports j ≡ some ex
        → IsBefore name ex.name

  IsBefore-ne : (a b : List ℕ) → IsBefore a b → a ≢ b
  IsBefore-ne a b h e = IsBefore-irrefl b (rw e at h)

  -- Nothing is left between them.
  empty_between :
      (left right : ℕ)
      → IsBetween left right
      → right ≤ left
      → find_export_linear exports name type ≡ err enoent
  empty_between left right between empty = find_export_linear-enoent exports name type (λ j ex e.
      elim (lt_or_le j left) [
        | inl low ↦ IsBefore-ne ex.name name (between.low j ex low e)
        | inr high ↦ λ same_name.
            IsBefore-ne name ex.name (between.high j ex (omega arith) e) (sym same_name)
      ])

  IsBetween-upper :
      (left right mid : ℕ) (ex : WasmExport)
      → IsBetween left right
      → get_elem? exports mid ≡ some ex
      → IsBefore ex.name name
      → IsBetween (mid + 1) right
  IsBetween-upper left right mid ex between e small = record {
    inside = between.inside;
    low = λ j ex' lt e'. elim (lt_or_le j mid) [
      | inl below ↦ IsBefore-trans ex'.name ex.name name (sorted j mid ex' ex below e' e) small
      | inr here ↦
          let same_index : j ≡ mid = omega arith in
          let found : get_elem? exports mid ≡ some ex' = rw same_index at e' in
          let same_export : ex' ≡ ex = cc (found, e) in rw same_export small
    ];
    high = between.high;
  }

  IsBetween-lower :
      (left right mid : ℕ) (ex : WasmExport)
      → IsBetween left right
      → mid < right
      → get_elem? exports mid ≡ some ex
      → IsBefore name ex.name
      → IsBetween left mid
  IsBetween-lower left right mid ex between inside e large = record {
    inside = omega (arith, between.inside);
    low = between.low;
    high = λ j ex' le e'. elim (lt_or_le mid j) [
      | inl above ↦ IsBefore-trans name ex.name ex'.name large (sorted mid j ex ex' above e e')
      | inr here ↦
          let same_index : j ≡ mid = omega arith in
          let found : get_elem? exports mid ≡ some ex' = rw same_index at e' in
          let same_export : ex' ≡ ex = cc (found, e) in rw same_export large
    ];
  }

  -- The names of the other exports are other names.
  other_names :
      (mid : ℕ) (ex : WasmExport)
      → get_elem? exports mid ≡ some ex
      → ex.name ≡ name
      → (j : ℕ) (ex' : WasmExport) → j ≢ mid
      → get_elem? exports j ≡ some ex'
      → ex'.name ≢ name
  other_names mid ex e here j ex' ne e' = elim (lt_or_le j mid) [
    | inl below ↦
        λ there. IsBefore-ne ex'.name ex.name (sorted j mid ex' ex below e' e) (there ∙ sym here)
    | inr above ↦ λ there.
        IsBefore-ne ex.name ex'.name (sorted mid j ex ex' (omega arith) e e') (here ∙ sym there)
  ]

  find_export_loop-find_export_linear :
      (fuel left right : ℕ)
      → IsBetween left right
      → right - left < 2 ^ fuel
      → find_export_loop fuel exports name type left right ≡ find_export_linear exports name type
  unfolding find_export_loop
  find_export_loop-find_export_linear zero left right between enough =
      let empty : right ≤ left = omega arith in
      rw (le→not_ltb left right empty, empty_between left right between empty) refl
  find_export_loop-find_export_linear (suc fuel) left right between enough =
      elim (lt_or_le left right) [
        | inr empty ↦ rw (le→not_ltb left right empty, empty_between left right between empty) refl
        | inl some_left ↦
            let mid = left + (right - left) / 2 in
            let (ex, e) = get_elem?-some exports mid (omega (arith, between.inside)) in
            let halved : 2 ^ suc fuel ≡ 2 ^ fuel * 2 = pow-suc 2 fuel in
            rw (lt→ltb left right some_left, e)
              (elim (Order-cases (compare_name ex.name name)) [
                | inl small ↦ rw small (
                    find_export_loop-find_export_linear fuel (mid + 1) right
                      (IsBetween-upper left right mid ex between e small) (omega arith))
                | inr (inl equal) ↦
                    let here = (compare_name_same ex.name name).0 equal in
                    rw equal (
                      sym (
                        find_export_linear-found exports mid ex name type e here
                          (other_names mid ex e here)))
                | inr (inr large) ↦ rw large (
                    find_export_loop-find_export_linear fuel left mid
                      (IsBetween-lower left right mid ex between (omega arith) e
                        (compare_name-behind ex.name name large))
                      (omega arith))
              ])
      ]

-- On exports whose names increase, and which 32 bits count, the binary search returns for every name and
-- type what the linear search returns; it ends within its rounds and reads no export outside the array.
pub module_find_export-find_export_linear :
    {E : Type 0} (m : Module E) (name : List ℕ) (type : Externtype)
    → IsSortedByName m.exports
    → length m.exports < 2 ^ 32
    → module_find_export m name type ≡ find_export_linear m.exports name type
unfolding module_find_export
module_find_export-find_export_linear m name type sorted few =
    find_export_loop-find_export_linear m.exports name type sorted 33 0 (length m.exports)
      (record {
        inside = omega arith;
        low = λ j ex lt e. absurd (omega arith);
        high = λ j ex le e. absurd (omega (arith, get_elem?_lt m.exports j e));
      })
      (omega arith)
