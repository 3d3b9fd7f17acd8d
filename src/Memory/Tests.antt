-- ===== src/Memory/Tests.antt =====
-- A memory of one page with two bytes allocated.
use toywasm.Base.{◌≡◌, refl, arith, [], ◌∷◌, true, ok, err, inl, etoywasmtrap, leb, ◌+◌}
use toywasm.Memory.{Meminst, memory_instance_getptr2, memory_grow, copy_init, access_nothing}
use toywasm.Memory.Contents.{IsMemory}
use toywasm.Memory.Access.{Accesses, in_bounds, memory_instance_getptr2-Accesses}
use toywasm.Memory.Grow.{Grows, memory_grow-Grows}
use toywasm.Memory.Init.{Copies, copy_init-Copies}

abbrev one_page : Meminst
one_page = record { bytes = 7 ∷ 8 ∷ []; size_in_pages = 1; max = 16 }

one_page-IsMemory : IsMemory one_page
one_page-IsMemory = record { allocated = omega arith; limit = omega arith; max = omega arith }

-- No byte at the end of the page may be read, none past it even by an access of no bytes.
end_of_page : memory_instance_getptr2 true 65536 0 0 one_page ≡ ok (65536, one_page)
unfolding memory_instance_getptr2 access_nothing
end_of_page = refl

past_page : memory_instance_getptr2 true 65536 1 0 one_page ≡ err etoywasmtrap
unfolding memory_instance_getptr2 access_nothing
past_page = refl

memory_instance_getptr2-Accesses_example :
    Accesses
      (2 + 1)
      4
      one_page
      (memory_instance_getptr2 true 2 1 4 one_page)
      (in_bounds 2 1 4 one_page)
memory_instance_getptr2-Accesses_example =
    memory_instance_getptr2-Accesses true 2 1 4 one_page one_page-IsMemory (omega arith)
      (omega arith) (omega arith) (inl refl)

memory_grow-Grows_example :
    Grows 5 one_page (memory_grow true 5 one_page) (leb (one_page.size_in_pages + 5) one_page.max)
memory_grow-Grows_example = memory_grow-Grows 5 one_page one_page-IsMemory (omega arith)

copy_init-Copies_example :
    Copies 1 1 3
      (5 ∷ 6 ∷ 7 ∷ 8 ∷ [])
      one_page
      (copy_init true 1 1 3 (5 ∷ 6 ∷ 7 ∷ 8 ∷ []) one_page)
      (in_bounds 1 0 3 one_page)
copy_init-Copies_example =
    copy_init-Copies 1 1 3 (5 ∷ 6 ∷ 7 ∷ 8 ∷ []) one_page one_page-IsMemory (omega arith)
      (omega arith) (omega arith)
