-- ===== src/Fdtable/Lookup.antt =====
-- Lookups and releases of descriptors, and the counts of references.
use toywasm.Base.{ℕ, zero, suc, ◌+◌, ◌-◌, ◌^◌, ◌<◌, ◌≡◌, refl, ap, arith, true}
use toywasm.Base.{List, [], ◌∷◌, get_elem?, set, Option, none, some, ltb}
use toywasm.Base.{Result, ok, err, ebadf, lt→ltb}
use toywasm.Base.{get_elem?_lt, get_elem?-set_self}
use toywasm.Fdtable.{Fdtable, add_reference, with_reference}
use toywasm.Fdtable.{wasi_table_lookup_locked, wasi_fdinfo_release}
use toywasm.Fdtable.Add.{file_of}

set-set : (xs : List ℕ) (i a b : ℕ) → get_elem? xs i ≡ some b → set (set xs i a) i b ≡ xs
set-set [] i a b e = refl
set-set (x ∷ xs) zero a b e = cc e
set-set (x ∷ xs) (suc i) a b e = ap (λ ys. x ∷ ys) (set-set xs i a b e)

-- What a lookup gives: EBADF for a closed descriptor; else the file, and releasing it again gives the table
-- and all counts back as they were.
abbrev pub LooksUp : Fdtable → Option ℕ → Result (ℕ × Fdtable) → Type 0
LooksUp w none r = r ≡ err ebadf
LooksUp w (some fdinfo) r =
    (w' : Fdtable) × (r ≡ ok (fdinfo, w')) × (wasi_fdinfo_release fdinfo w' ≡ ok w)

reference-LooksUp :
    (w : Fdtable) (file : Option ℕ)
    → ((fdinfo : ℕ)
        → file ≡ some fdinfo
        → (refcount : ℕ) × (get_elem? w.refcounts fdinfo ≡ some refcount) × (refcount < 2 ^ 32 - 1))
    → LooksUp w file (with_reference file w)
unfolding add_reference wasi_fdinfo_release
reference-LooksUp w none counted = refl
reference-LooksUp w (some fdinfo) counted =
    let (refcount, there, small) = counted fdinfo refl in
    let lt = get_elem?_lt w.refcounts fdinfo there in
    (
      record w { refcounts = set w.refcounts fdinfo (refcount + 1) },
      rw (there, lt→ltb refcount (2 ^ 32 - 1) small) refl,
      rw
          (
            get_elem?-set_self w.refcounts fdinfo (refcount + 1) lt,
            positive refcount,
            one_less refcount,
            set-set w.refcounts fdinfo (refcount + 1) refcount there,
          )
          refl,
    )
  where
    positive : (n : ℕ) → ltb 0 (n + 1) ≡ true
    positive n = ground arith

    one_less : (n : ℕ) → n + 1 - 1 ≡ n
    one_less n = omega arith

-- In a table whose files have counts that can grow, a lookup returns the file of the descriptor, with EBADF
-- exactly for a closed one, and a release after it undoes it.
pub wasi_table_lookup_locked-LooksUp :
    (w : Fdtable) (wasifd : ℕ)
    → ((fdinfo : ℕ)
        → file_of w wasifd ≡ some fdinfo
        → (refcount : ℕ) × (get_elem? w.refcounts fdinfo ≡ some refcount) × (refcount < 2 ^ 32 - 1))
    → LooksUp w (file_of w wasifd) (wasi_table_lookup_locked wasifd w)
unfolding wasi_table_lookup_locked
wasi_table_lookup_locked-LooksUp w wasifd counted = reference-LooksUp w (file_of w wasifd) counted
