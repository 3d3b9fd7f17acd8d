-- ===== src/Idalloc/Alloc.antt =====
-- The identifiers as a finite map to the pointers of their users.
use toywasm.Base.{
  ℕ, zero, suc, ◌+◌, ◌-◌, ◌^◌, ◌≤◌, ◌<◌, ◌≡◌, ◌≢◌, refl, sym, ap, ◌∙◌, subst, arith, true, false,
}
use toywasm.Base.{
  List, [], ◌∷◌, ◌++◌, length, get_elem?, set, length-set, get_elem?-set_self, get_elem?-set_ne,
}
use toywasm.Base.{
  get_elem?_lt, ltb, leb, if◌then◌else◌, Option, none, some, Option-cases, inl, inr, ◌⊎◌,
}
use toywasm.Base.{lt_or_le, Result, ok, err, erange, All, length-append}
use toywasm.Vec.Resize.{vec_resize_one}
use toywasm.Idalloc.{Slot, free, user, is_free, Idalloc, first_free, extend_ids, idalloc_alloc}

pub record IsIdalloc (ida : Idalloc) : Type 0 where
  pub size : length ida.vec.elems ≤ ida.vec.psize
  pub ids : length ida.vec.elems ≤ ida.maxid + 1
  pub range : ida.base + ida.maxid < 2 ^ 32 - 1

abbrev slot_user : Option Slot → Option ℕ
slot_user none = none
slot_user (some free) = none
slot_user (some (user p)) = some p

-- The user of an identifier in use.
abbrev pub user_of : Idalloc → (id : ℕ) → Option ℕ
user_of ida id =
    if ltb id ida.base then none else slot_user (get_elem? ida.vec.elems (id - ida.base))

first_free-some :
    (k : ℕ) (slots : List Slot) (i : ℕ)
    → first_free k slots ≡ some i
    → (k ≤ i) × (get_elem? slots (i - k) ≡ some free)
unfolding first_free
first_free-some k [] i e = absurd (cc)
first_free-some k (free ∷ slots) i e =
    let same : k ≡ i = ground (arith, e) in
    let z : i - k ≡ 0 = omega arith in (omega arith, rw z refl)
first_free-some k (user p ∷ slots) i e =
    let (le, there) = first_free-some (suc k) slots i e in
    let s : i - k ≡ suc (i - suc k) = omega arith in (omega arith, rw s there)

-- Every slot is taken.
abbrev pub AllUsed : List Slot → Type 0
AllUsed slots = All (λ slot. is_free slot ≡ false) slots

first_free-none : (k : ℕ) (slots : List Slot) → first_free k slots ≡ none → AllUsed slots
unfolding first_free
first_free-none k [] e = tt
first_free-none k (free ∷ slots) e = absurd (cc)
first_free-none k (user p ∷ slots) e = (refl, first_free-none (suc k) slots e)

-- `ida'` is `ida` with the identifier `id` given out.
pub record Allocated (ida : Idalloc) (id : ℕ) (ida' : Idalloc) : Type 0 where
  pub valid : IsIdalloc ida'
  pub low : ida.base ≤ id
  pub high : id ≤ ida.base + ida.maxid
  pub new : user_of ida id ≡ none
  pub taken : user_of ida' id ≡ some 0
  pub others : (j : ℕ) → j ≢ id → user_of ida' j ≡ user_of ida j

-- Either an identifier is given out, or all in the range are taken, and the error is ERANGE.
abbrev pub GivesId : Idalloc → Result (ℕ × Idalloc) → Type 0
GivesId ida r =
    ((id : ℕ) × (ida' : Idalloc) × (r ≡ ok (id, ida')) × Allocated ida id ida')
    ⊎ ((r ≡ err erange) × AllUsed ida.vec.elems × (length ida.vec.elems ≡ ida.maxid + 1))

-- A slot whose contents are given by a list that agrees with the old one elsewhere.
user_of-at :
    (ida : Idalloc) (i : ℕ) → user_of ida (ida.base + i) ≡ slot_user (get_elem? ida.vec.elems i)
user_of-at ida i = let d : ida.base + i - ida.base ≡ i = omega arith in rw (not_below, d) refl
  where
    not_below : ltb (ida.base + i) ida.base ≡ false
    not_below = ground arith

user_of-other :
    (ida : Idalloc) (elems : List Slot) (psize i j : ℕ)
    → ((k : ℕ) → k ≢ i → get_elem? elems k ≡ get_elem? ida.vec.elems k)
    → j ≢ ida.base + i
    → user_of (record ida { vec = record { elems = elems; psize = psize } }) j ≡ user_of ida j
user_of-other ida elems psize i j same ne = elim (lt_or_le j ida.base) [
  | inl below ↦ rw (is_below below) refl
  | inr at ↦ rw (not_below at) (ap slot_user (same (j - ida.base) (λ e. ne (omega arith))))
]
  where
    is_below : j < ida.base → ltb j ida.base ≡ true
    is_below h = ground arith

    not_below : ida.base ≤ j → ltb j ida.base ≡ false
    not_below h = ground arith

-- Slot `i` becomes the null pointer in a vector that agrees elsewhere.
Allocated-slot :
    (ida : Idalloc) (elems : List Slot) (psize i : ℕ)
    → IsIdalloc ida
    → length elems ≤ psize
    → length elems ≤ ida.maxid + 1
    → i < length elems
    → slot_user (get_elem? ida.vec.elems i) ≡ none
    → get_elem? elems i ≡ some (user 0)
    → ((k : ℕ) → k ≢ i → get_elem? elems k ≡ get_elem? ida.vec.elems k)
    → Allocated ida (ida.base + i) (record ida { vec = record { elems = elems; psize = psize } })
Allocated-slot ida elems psize i h size ids lt unused now same =
    let ida' : Idalloc = record ida { vec = record { elems = elems; psize = psize } } in
    record {
      valid = record { size = size; ids = ids; range = h.range };
      low = omega arith;
      high = omega arith;
      new = user_of-at ida i ∙ unused;
      taken = user_of-at ida' i ∙ ap slot_user now;
      others = λ j ne. user_of-other ida elems psize i j same ne;
    }

get_elem?-snoc :
    (xs : List Slot) (a : Slot)
    → (get_elem? xs (length xs) ≡ none)
      × (get_elem? (xs ++ a ∷ []) (length xs) ≡ some a)
      × ((k : ℕ) → k ≢ length xs → get_elem? (xs ++ a ∷ []) k ≡ get_elem? xs k)
get_elem?-snoc [] a = (refl, refl, λ k ne. none_past k ne)
  where
    none_past : (k : ℕ) → k ≢ 0 → get_elem? (a ∷ []) k ≡ none
    none_past zero ne = absurd (ne refl)
    none_past (suc k) ne = refl
get_elem?-snoc (x ∷ xs) a =
    let (past, at, other) = get_elem?-snoc xs a in (past, at, λ k ne. others other k ne)
  where
    others :
        ((k : ℕ) → k ≢ length xs → get_elem? (xs ++ a ∷ []) k ≡ get_elem? xs k)
        → (k : ℕ) → k ≢ suc (length xs)
        → get_elem? (x ∷ xs ++ a ∷ []) k ≡ get_elem? (x ∷ xs) k
    others other zero ne = refl
    others other (suc k) ne = other k (λ e. ne (ap suc e))

set-snoc : (xs : List Slot) (a b : Slot) → set (xs ++ a ∷ []) (length xs) b ≡ xs ++ b ∷ []
set-snoc [] a b = refl
set-snoc (x ∷ xs) a b = rw (set-snoc xs a b) refl

extend_ids-GivesId :
    (ida : Idalloc) → IsIdalloc ida → AllUsed ida.vec.elems → GivesId ida (extend_ids true ida)
unfolding extend_ids
extend_ids-GivesId ida h used = elim (lt_or_le ida.maxid (length ida.vec.elems)) [
  | inl full ↦ inr (ground (arith, full), used, omega (arith, h.ids))
  | inr left ↦
      let slots = ida.vec.elems in
      let n = length slots in
      let (vec, e, grown, size) =
        vec_resize_one 8 (user 0) ida.vec h.size (omega (arith, h.range)) in
      let (past, at, other) = get_elem?-snoc slots (user 0) in
      let written : set vec.elems n (user 0) ≡ slots ++ user 0 ∷ [] =
        rw grown (set-snoc slots (user 0) (user 0)) in
      let len : length (slots ++ user 0 ∷ []) ≡ n + 1 = length-append slots (user 0 ∷ []) in
      let fits : length (slots ++ user 0 ∷ []) ≤ vec.psize =
        subst (λ (xs : List Slot). length xs ≤ vec.psize) grown size in
      inl (
        ida.base + n,
        record ida { vec = record { elems = slots ++ user 0 ∷ []; psize = vec.psize } },
        rw (in_range left, e, written) refl,
        Allocated-slot ida (slots ++ user 0 ∷ []) vec.psize n h fits (omega (arith, len))
            (omega (arith, len)) (ap slot_user past) at other,
      )
]
  where
    in_range : length ida.vec.elems ≤ ida.maxid → leb (length ida.vec.elems) ida.maxid ≡ true
    in_range le = ground arith

-- With room to allocate, an identifier in the range is given out that was not in use, with the null
-- pointer as its user and every other identifier as it was; ERANGE is returned exactly if the whole
-- range is in use. No assertion fails.
pub idalloc_alloc-GivesId : (ida : Idalloc) → IsIdalloc ida → GivesId ida (idalloc_alloc true ida)
unfolding idalloc_alloc
idalloc_alloc-GivesId ida h = elim (Option-cases (first_free 0 ida.vec.elems)) [
  | inl all_used ↦
      subst (GivesId ida) (sym (ap alloc_at all_used))
        (extend_ids-GivesId ida h (first_free-none 0 ida.vec.elems all_used))
  | inr (i, found) ↦
      let (_, there) = first_free-some 0 ida.vec.elems i found in
      let z : i - 0 ≡ i = omega arith in
      let at : get_elem? ida.vec.elems i ≡ some free = rw z at there in
      let lt : i < length ida.vec.elems = get_elem?_lt ida.vec.elems i at in
      let elems = set ida.vec.elems i (user 0) in
      let len = length-set ida.vec.elems i (user 0) in
      inl (
        ida.base + i,
        record ida { vec = record { elems = elems; psize = ida.vec.psize } },
        ap alloc_at found,
        Allocated-slot ida elems ida.vec.psize i h (omega (arith, len, h.size))
            (omega (arith, len, h.ids)) (omega (arith, len)) (ap slot_user at)
            (get_elem?-set_self ida.vec.elems i (user 0) lt)
            (λ k ne. get_elem?-set_ne ida.vec.elems i k (user 0) (λ e. ne (sym e))),
      )
]
  where
    alloc_at : Option ℕ → Result (ℕ × Idalloc)
    alloc_at = elim [
      | none ↦ extend_ids true ida
      | some i ↦
          let vec = ida.vec in
          ok (ida.base + i, record ida { vec = record vec { elems = set vec.elems i (user 0) } })
    ]
