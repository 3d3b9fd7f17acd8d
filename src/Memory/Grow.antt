-- ===== src/Memory/Grow.antt =====
-- memory_grow.
use toywasm.Base.{ℕ, ◌+◌, ◌*◌, ◌/◌, ◌^◌, ◌≤◌, ◌<◌, ◌≡◌, refl, arith, Bool, true, false}
use toywasm.Base.{not, ◌&&◌, leb, ◌==◌, inl, inr, lt_or_le, some}
use toywasm.Base.{Result, ok, Bool-cases}
use toywasm.Memory.{Meminst, extend, grown_size, grow_to, memory_grow, minus_one}
use toywasm.Memory.Contents.{IsMemory, SameBytes, extend-SameBytes, extend-IsMemory}

resized-IsMemory :
    (mi : Meminst) (new_size : ℕ)
    → IsMemory mi
    → mi.size_in_pages ≤ new_size
    → new_size ≤ mi.max
    → IsMemory (record mi { size_in_pages = new_size })
resized-IsMemory mi new_size h a b = record {
  allocated = omega (arith, h.allocated);
  limit = b;
  max = h.max;
}

-- Growth by `sz` pages: the old number of pages is returned, and the memory has `sz` pages more, all
-- its bytes as they were.
abbrev pub Grows : (sz : ℕ) (mi : Meminst) → Result (ℕ × Meminst) → (allowed : Bool) → Type 0
Grows sz mi r false = r ≡ ok (minus_one, mi)
Grows sz mi r true =
    (mi' : Meminst) × (r ≡ ok (mi.size_in_pages, mi'))
    × IsMemory mi'
    × (mi'.size_in_pages ≡ mi.size_in_pages + sz)
    × (mi'.max ≡ mi.max)
    × SameBytes mi' mi

extend_fields :
    (need : ℕ) (mi : Meminst)
    → ((extend need mi).size_in_pages ≡ mi.size_in_pages) × ((extend need mi).max ≡ mi.max)
unfolding extend
extend_fields need mi = (refl, refl)

grow_to-Grows :
    (sz : ℕ) (mi : Meminst)
    → IsMemory mi
    → mi.size_in_pages + sz ≤ mi.max
    → Grows sz mi (grow_to true (mi.size_in_pages + sz) mi) true
unfolding grow_to
grow_to-Grows sz mi h fits =
    let new_size = mi.size_in_pages + sz in
    let resized : Meminst = record mi { size_in_pages = new_size } in
    let h' = resized-IsMemory mi new_size h (omega arith) fits in
    elim (Bool-cases (not (new_size == mi.size_in_pages) && leb 4 new_size)) [
      | inr small ↦ rw small (resized, refl, h', refl, refl, λ i. refl)
      | inl large ↦
          let (pages, max) = extend_fields (new_size * 2 ^ 16) resized in
          rw large (
            extend (new_size * 2 ^ 16) resized,
            ground (arith, h.allocated),
            extend-IsMemory (new_size * 2 ^ 16) resized h' (omega (arith, h'.allocated))
                (omega arith),
            pages,
            max,
            extend-SameBytes (new_size * 2 ^ 16) resized,
          )
    ]

-- In a memory within its limits, `memory_grow` fails no assertion. With room for the pages, it returns
-- -1 and changes nothing exactly if the new number of pages is above the maximum; else it returns
-- the old number, and the memory has the pages that were asked for, with the bytes it had.
pub memory_grow-Grows :
    (sz : ℕ) (mi : Meminst)
    → IsMemory mi
    → sz < 2 ^ 32
    → Grows sz mi (memory_grow true sz mi) (leb (mi.size_in_pages + sz) mi.max)
unfolding memory_grow grown_size
memory_grow-Grows sz mi h s = elim (lt_or_le mi.max (mi.size_in_pages + sz)) [
  | inl above ↦ rw (above_leb above) (ground (arith, h.limit, h.max))
  | inr fits ↦ rw (fits_leb fits, max_leb, fits_grown fits) (grow_to-Grows sz mi h fits)
]
  where
    above_leb : mi.max < mi.size_in_pages + sz → leb (mi.size_in_pages + sz) mi.max ≡ false
    above_leb a = ground arith

    fits_leb : mi.size_in_pages + sz ≤ mi.max → leb (mi.size_in_pages + sz) mi.max ≡ true
    fits_leb f = ground arith

    max_leb : leb mi.max (2 ^ 32 / 2 ^ 16) ≡ true
    max_leb = ground (arith, h.max)

    fits_grown : mi.size_in_pages + sz ≤ mi.max → grown_size sz mi ≡ some (mi.size_in_pages + sz)
    fits_grown f = ground (arith, h.max)
