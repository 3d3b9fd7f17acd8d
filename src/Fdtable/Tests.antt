-- ===== src/Fdtable/Tests.antt =====
-- A table with three reserved descriptors, one of them open.
use toywasm.Base.{
  ℕ, ◌-◌, ◌^◌, ◌<◌, ◌≡◌, refl, arith, true, [], ◌∷◌, some, none, get_elem?, ok, err, ebadf,
}
use toywasm.Fdtable.{Fdtable, wasi_table_fdinfo_add, wasi_table_lookup_locked}
use toywasm.Fdtable.Lookup.{LooksUp, wasi_table_lookup_locked-LooksUp}
use toywasm.Fdtable.Add.{IsFdtable, IsAdded, wasi_table_fdinfo_add-IsAdded, file_of}

abbrev one_open : Fdtable
one_open = record {
  reserved_slots = 3;
  table = record { elems = some 0 ∷ none ∷ []; psize = 2 };
  refcounts = 1 ∷ 0 ∷ [];
}

one_open-IsFdtable : IsFdtable one_open
one_open-IsFdtable = record { size = omega arith; fds = omega arith; reserved = omega arith }

closed_fd : wasi_table_lookup_locked 1 one_open ≡ err ebadf
unfolding wasi_table_lookup_locked
closed_fd = refl

wasi_table_fdinfo_add-IsAdded_example :
    (wasifd : ℕ) × (w' : Fdtable) × (wasi_table_fdinfo_add true 1 one_open ≡ ok (wasifd, w'))
    × IsAdded one_open 1 0 wasifd w'
wasi_table_fdinfo_add-IsAdded_example =
    wasi_table_fdinfo_add-IsAdded one_open 1 0 one_open-IsFdtable refl (omega arith)

zero_counted :
    (fdinfo : ℕ)
    → file_of one_open 0 ≡ some fdinfo
    → (refcount : ℕ) × (get_elem? one_open.refcounts fdinfo ≡ some refcount)
      × (refcount < 2 ^ 32 - 1)
zero_counted ℕ.zero e = (1, refl, omega arith)
zero_counted (ℕ.suc n) e = absurd (cc)

wasi_table_lookup_locked-LooksUp_example :
    LooksUp one_open (file_of one_open 0) (wasi_table_lookup_locked 0 one_open)
wasi_table_lookup_locked-LooksUp_example = wasi_table_lookup_locked-LooksUp one_open 0 zero_counted
