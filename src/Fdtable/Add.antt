-- ===== src/Fdtable/Add.antt =====
-- Adding a file to the table, as a map from descriptors to files.
use toywasm.Base.{
  ℕ, zero, suc, ◌+◌, ◌-◌, ◌^◌, ◌≤◌, ◌<◌, ◌≡◌, ◌≢◌, refl, sym, ap, ◌∙◌, subst, arith, true, false,
}
use toywasm.Base.{
  List, [], ◌∷◌, ◌++◌, length, get_elem?, set, replicate, Option, none, some, ltb, if◌then◌else◌,
}
use toywasm.Base.{ok, inl, inr, lt_or_le, Option-cases, lt→ltb}
use toywasm.Base.{get_elem?_lt, get_elem?-set_self, get_elem?-set_ne}
use toywasm.Vec.Resize.{vec_resize_more}
use toywasm.Fdtable.{Fdtable, add_reference, wasi_table_affix, fdinfo_at, first_null}
use toywasm.Fdtable.{wasi_table_expand, slot_behind, wasi_table_alloc_slot, wasi_table_fdinfo_add}

-- Sizes and descriptors of 32 bits.
pub record IsFdtable (w : Fdtable) : Type 0 where
  pub size : length w.table.elems ≤ w.table.psize
  pub fds : length w.table.elems < 2 ^ 32 - 1
  pub reserved : w.reserved_slots < 2 ^ 32 - 1

-- The file of an open descriptor.
abbrev pub file_of : Fdtable → (wasifd : ℕ) → Option ℕ
file_of w wasifd = fdinfo_at (get_elem? w.table.elems wasifd)

-- The slot that a scan from `i` on finds.
abbrev Finds : (reserved i : ℕ) → List (Option ℕ) → (k : ℕ) → Type 0
Finds reserved i slots k = (reserved ≤ k) × (i ≤ k) × (get_elem? slots (k - i) ≡ some none)

Finds-later :
    (reserved i : ℕ) (slot : Option ℕ) (slots : List (Option ℕ)) (k : ℕ)
    → Finds reserved (suc i) slots k
    → Finds reserved i (slot ∷ slots) k
Finds-later reserved i slot slots k (le, past, there) =
    let s : k - i ≡ suc (k - suc i) = omega arith in (le, omega arith, rw s there)

first_null-Finds :
    (reserved i : ℕ) (slots : List (Option ℕ)) (k : ℕ)
    → first_null reserved i slots ≡ some k
    → Finds reserved i slots k
unfolding first_null
first_null-Finds reserved i [] k e = absurd (cc)
first_null-Finds reserved i (none ∷ slots) k e = elim (lt_or_le i reserved) [
  | inl below ↦
      Finds-later reserved i none slots k
        (first_null-Finds reserved (suc i) slots k (ground (arith, below, e)))
  | inr at ↦
      let same : i ≡ k = ground (arith, at, e) in
      let z : k - i ≡ 0 = omega (arith, same) in
      (omega (arith, at, same), omega (arith, same), rw z refl)
]
first_null-Finds reserved i (some f ∷ slots) k e =
    Finds-later reserved i (some f) slots k
      (first_null-Finds reserved (suc i) slots k (ground (arith, e)))

-- New slots are closed descriptors, as those past the end.
append-replicate :
    (xs : List (Option ℕ)) (n j : ℕ)
    → fdinfo_at (get_elem? (xs ++ replicate n none) j) ≡ fdinfo_at (get_elem? xs j)
append-replicate [] zero j = refl
append-replicate [] (suc n) zero = refl
append-replicate [] (suc n) (suc j) = append-replicate [] n j
append-replicate (x ∷ xs) n zero = refl
append-replicate (x ∷ xs) n (suc j) = append-replicate xs n j

new_null :
    (xs : List (Option ℕ)) (n j : ℕ)
    → length xs ≤ j
    → j < length xs + n
    → get_elem? (xs ++ replicate n none) j ≡ some none
new_null [] zero j low high = absurd (omega arith)
new_null [] (suc n) zero low high = refl
new_null [] (suc n) (suc j) low high = new_null [] n j (omega arith) (omega arith)
new_null (x ∷ xs) n zero low high = absurd (omega arith)
new_null (x ∷ xs) n (suc j) low high = new_null xs n j (omega arith) (omega arith)

-- A slot that is allocated: closed and not reserved; no descriptor is opened or closed by it.
record IsSlot (w : Fdtable) (wasifd : ℕ) (w' : Fdtable) : Type 0 where
  closed : get_elem? w'.table.elems wasifd ≡ some none
  not_reserved : w.reserved_slots ≤ wasifd
  refcounts : w'.refcounts ≡ w.refcounts
  files : (j : ℕ) → file_of w' j ≡ file_of w j

expand-IsSlot :
    (w : Fdtable) (wasifd : ℕ)
    → IsFdtable w
    → length w.table.elems ≤ wasifd
    → w.reserved_slots ≤ wasifd
    → wasifd < 2 ^ 32 - 1
    → (w' : Fdtable) × (wasi_table_expand true wasifd w ≡ ok w') × IsSlot w wasifd w'
unfolding wasi_table_expand
expand-IsSlot w wasifd h past reserved small =
    let (table, e, grown, _) =
      vec_resize_more 8 (wasifd + 1) none w.table h.size (omega arith) (omega (arith, small)) in
    (
      record w { table = table },
      rw (not_lt, e) refl,
      record {
        closed = rw grown (
            new_null w.table.elems (wasifd + 1 - length w.table.elems) wasifd past
              (omega (arith, past)));
        not_reserved = reserved;
        refcounts = refl;
        files =
            λ j. rw grown (append-replicate w.table.elems (wasifd + 1 - length w.table.elems) j);
      },
    )
  where
    not_lt : ltb wasifd (length w.table.elems) ≡ false
    not_lt = ground (arith, past)

slot_behind-IsSlot :
    (w : Fdtable) (wasifd : ℕ)
    → IsFdtable w
    → (if ltb (length w.table.elems) w.reserved_slots
        then w.reserved_slots
        else length w.table.elems)
      ≡ wasifd
    → (w' : Fdtable) × (slot_behind true w ≡ ok (wasifd, w')) × IsSlot w wasifd w'
unfolding slot_behind
slot_behind-IsSlot w wasifd h e =
    let (w', expanded, slot) =
      expand-IsSlot w wasifd h (ground (arith, e)) (ground (arith, e))
        (ground (arith, e, h.fds, h.reserved)) in
    (w', rw (e, expanded, slot.closed) refl, slot)

wasi_table_alloc_slot-IsSlot :
    (w : Fdtable)
    → IsFdtable w
    → (wasifd : ℕ) × (w' : Fdtable) × (wasi_table_alloc_slot true w ≡ ok (wasifd, w'))
      × IsSlot w wasifd w'
unfolding wasi_table_alloc_slot
wasi_table_alloc_slot-IsSlot w h =
    elim (Option-cases (first_null w.reserved_slots 0 w.table.elems)) [
      | inr (k, found) ↦
          let (reserved, _, there) = first_null-Finds w.reserved_slots 0 w.table.elems k found in
          let z : k - 0 ≡ k = omega arith in
          (
            k,
            w,
            rw found refl,
            record {
              closed = subst (λ i. get_elem? w.table.elems i ≡ some none) z there;
              not_reserved = reserved;
              refcounts = refl;
              files = λ j. refl;
            },
          )
      | inl none_free ↦
          let (w', e, slot) = slot_behind-IsSlot w _ h refl in (_, w', rw none_free e, slot)
    ]

-- `w'` is `w` with the descriptor `wasifd` opened on `fdinfo`.
pub record IsAdded (w : Fdtable) (fdinfo refcount wasifd : ℕ) (w' : Fdtable) : Type 0 where
  pub not_reserved : w.reserved_slots ≤ wasifd
  pub closed : file_of w wasifd ≡ none
  pub opened : file_of w' wasifd ≡ some fdinfo
  pub others : (j : ℕ) → j ≢ wasifd → file_of w' j ≡ file_of w j
  pub counts : w'.refcounts ≡ set w.refcounts fdinfo (refcount + 1)

affix-IsAdded :
    (w w' : Fdtable) (fdinfo refcount wasifd : ℕ)
    → IsSlot w wasifd w'
    → get_elem? w.refcounts fdinfo ≡ some refcount
    → refcount < 2 ^ 32 - 1
    → (w'' : Fdtable) × (wasi_table_affix wasifd fdinfo w' ≡ ok w'')
      × IsAdded w fdinfo refcount wasifd w''
unfolding wasi_table_affix add_reference
affix-IsAdded w w' fdinfo refcount wasifd slot counted small =
    let elems = set w'.table.elems wasifd (some fdinfo) in
    let lt = get_elem?_lt w'.table.elems wasifd slot.closed in
    let w'' : Fdtable = record w' {
      table = record { elems = elems; psize = w'.table.psize };
      refcounts = set w.refcounts fdinfo (refcount + 1);
    } in
    (
      w'',
      rw (slot.closed, slot.refcounts, counted, lt→ltb refcount (2 ^ 32 - 1) small) refl,
      record {
        not_reserved = slot.not_reserved;
        closed = sym (slot.files wasifd) ∙ ap fdinfo_at slot.closed;
        opened = ap fdinfo_at (get_elem?-set_self w'.table.elems wasifd (some fdinfo) lt);
        others = λ j ne.
            ap fdinfo_at (get_elem?-set_ne w'.table.elems wasifd j (some fdinfo) (λ e. ne (sym e)))
            ∙ slot.files j;
        counts = refl;
      },
    )

-- With room in the table, adding a file opens a descriptor that was closed and is not reserved, leaves every
-- other descriptor as it was, and takes exactly one reference to the file. No assertion fails.
pub wasi_table_fdinfo_add-IsAdded :
    (w : Fdtable) (fdinfo refcount : ℕ)
    → IsFdtable w
    → get_elem? w.refcounts fdinfo ≡ some refcount
    → refcount < 2 ^ 32 - 1
    → (wasifd : ℕ) × (w' : Fdtable) × (wasi_table_fdinfo_add true fdinfo w ≡ ok (wasifd, w'))
      × IsAdded w fdinfo refcount wasifd w'
unfolding wasi_table_fdinfo_add
wasi_table_fdinfo_add-IsAdded w fdinfo refcount h counted small =
    let (wasifd, w', allocated, slot) = wasi_table_alloc_slot-IsSlot w h in
    let (w'', affixed, added) = affix-IsAdded w w' fdinfo refcount wasifd slot counted small in
    (wasifd, w'', rw (allocated, affixed) refl, added)
