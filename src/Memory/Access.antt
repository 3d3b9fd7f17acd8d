-- ===== src/Memory/Access.antt =====
-- The bounds of a memory access.
use toywasm.Base.{ℕ, suc, ◌+◌, ◌-◌, ◌*◌, ◌^◌, ◌≤◌, ◌<◌, ◌≡◌, refl, arith, Bool, true, false}
use toywasm.Base.{
  length, ◌&&◌, ltb, leb, ◌==◌, if◌then◌else◌, inl, inr, ◌⊎◌, lt_or_le, lt→ltb, le→not_ltb, ==_ne,
  none, some,
}
use toywasm.Base.{Result, ok, err, etoywasmtrap}
use toywasm.Memory.{Meminst, add_u32, extend, access_nothing, access_up_to, memory_instance_getptr2}
use toywasm.Memory.Contents.{
  size_in_bytes, IsMemory, SameBytes, extend-SameBytes, extend-IsMemory, length-extend,
}

-- The rule of the specification: the effective address does not wrap and the access ends in the
-- memory.
abbrev pub in_bounds : (ptr offset size : ℕ) → Meminst → Bool
in_bounds ptr offset size mi =
    ltb (ptr + offset) (2 ^ 32) && leb (ptr + offset + size) (size_in_bytes mi)

-- `mi'` in place of `mi`: the same bytes, of which those from `ea` on are allocated.
abbrev pub Granted : (ea size : ℕ) (mi mi' : Meminst) → Type 0
Granted ea size mi mi' =
    IsMemory mi'
    × (mi'.size_in_pages ≡ mi.size_in_pages)
    × SameBytes mi' mi
    × (1 ≤ size → ea + size ≤ length mi'.bytes)

abbrev pub Accesses :
    (ea size : ℕ) (mi : Meminst) → Result (ℕ × Meminst) → (allowed : Bool) → Type 0
Accesses ea size mi r false = r ≡ err etoywasmtrap
Accesses ea size mi r true = (mi' : Meminst) × (r ≡ ok (ea, mi')) × Granted ea size mi mi'

add_u32-some : (a b : ℕ) → a + b < 2 ^ 32 → add_u32 a b ≡ some (a + b)
add_u32-some a b h = ground arith

add_u32-none : (a b : ℕ) → a < 2 ^ 32 → 2 ^ 32 ≤ a + b → add_u32 a b ≡ none
add_u32-none a b r h = ground arith

access_nothing-Accesses :
    (ea : ℕ) (mi : Meminst)
    → IsMemory mi
    → Accesses ea 0 mi (access_nothing ea mi) (leb (ea + 0) (size_in_bytes mi))
unfolding access_nothing
access_nothing-Accesses ea mi h = elim (lt_or_le (size_in_bytes mi) ea) [
  | inl out ↦ rw (gt→leb out) (ground arith)
  | inr within ↦
      rw (le→leb within)
        (mi, ground arith, (h, refl, (λ i. refl), λ none_left. absurd (omega arith)))
]
  where
    gt→leb : size_in_bytes mi < ea → leb (ea + 0) (size_in_bytes mi) ≡ false
    gt→leb out = ground arith

    le→leb : ea ≤ size_in_bytes mi → leb (ea + 0) (size_in_bytes mi) ≡ true
    le→leb within = ground arith

access_up_to-Accesses :
    (room : Bool) (ea size last : ℕ) (mi : Meminst)
    → IsMemory mi
    → ea + size ≡ suc last
    → last < 2 ^ 32
    → (room ≡ true) ⊎ (ea + size ≤ length mi.bytes)
    → Accesses ea size mi (access_up_to room ea last mi) (leb (ea + size) (size_in_bytes mi))
unfolding access_up_to
access_up_to-Accesses room ea size last mi h ends fits space =
    elim (lt_or_le last (length mi.bytes)) [
      | inl there ↦
          rw (le→leb (omega (arith, h.allocated)))
            (mi, ground arith, (h, refl, (λ i. refl), λ _. omega arith))
      | inr beyond ↦ elim (lt_or_le last (size_in_bytes mi)) [
        | inr out ↦ rw (gt→leb out) (ground (arith, beyond, h.limit, h.max))
        | inl within ↦
            let grown = extend (last + 1) mi in
            let room_true : room ≡ true = elim space [ inl r ↦ r | inr l ↦ absurd (omega arith) ] in
            rw (le→leb (omega arith)) (
              grown,
              rw room_true (ground (arith, h.limit, h.max)),
              (
                extend-IsMemory (last + 1) mi h (omega arith) (omega arith),
                extended_pages,
                extend-SameBytes (last + 1) mi,
                λ _. omega (arith, length-extend (last + 1) mi (omega arith)),
              ),
            )
      ]
    ]
  where
    gt→leb : size_in_bytes mi ≤ last → leb (ea + size) (size_in_bytes mi) ≡ false
    gt→leb out = ground arith

    le→leb : ea + size ≤ size_in_bytes mi → leb (ea + size) (size_in_bytes mi) ≡ true
    le→leb within = ground arith

    extended_pages : (extend (last + 1) mi).size_in_pages ≡ mi.size_in_pages
    extended_pages = unfold extend in refl

-- In a memory within its limits, and with room to allocate if the bytes are not allocated yet: a
-- trap exactly if the effective address wraps or the access ends past the pages. Else the effective
-- address, in a memory within its limits with as many pages and the same bytes, in which the bytes
-- of the access are allocated.
pub memory_instance_getptr2-Accesses :
    (room : Bool) (ptr offset size : ℕ) (mi : Meminst)
    → IsMemory mi
    → ptr < 2 ^ 32
    → offset < 2 ^ 32
    → size < 2 ^ 32
    → (room ≡ true) ⊎ (ptr + offset + size ≤ length mi.bytes)
    → Accesses
        (ptr + offset)
        size
        mi
        (memory_instance_getptr2 room ptr offset size mi)
        (in_bounds ptr offset size mi)
unfolding memory_instance_getptr2
memory_instance_getptr2-Accesses room ptr offset size mi h p o s space =
    elim (lt_or_le (ptr + offset) (2 ^ 32)) [
      | inr wraps ↦
          rw (le→not_ltb (ptr + offset) (2 ^ 32) wraps, allocated, add_u32-none ptr offset p wraps)
            refl
      | inl in_range ↦
          rw (lt→ltb (ptr + offset) (2 ^ 32) in_range, allocated, add_u32-some ptr offset in_range)
            (elim (lt_or_le 0 size) [
              | inr empty ↦ no_bytes (omega arith)
              | inl some_bytes ↦ bytes in_range some_bytes
            ])
    ]
  where
    allocated : leb (length mi.bytes) (mi.size_in_pages * 2 ^ 16) ≡ true
    allocated = ground (arith, h.allocated)

    sized : ℕ → Result (ℕ × Meminst)
    sized size =
        if size == 0
        then access_nothing (ptr + offset) mi
        else elim (add_u32 (ptr + offset) (size - 1)) [
          | none ↦ err etoywasmtrap
          | some last_byte ↦ access_up_to room (ptr + offset) last_byte mi
        ]

    no_bytes :
        size ≡ 0
        → Accesses
            (ptr + offset)
            size
            mi
            (sized size)
            (leb (ptr + offset + size) (size_in_bytes mi))
    no_bytes e = rw e (access_nothing-Accesses (ptr + offset) mi h)

    bytes :
        ptr + offset < 2 ^ 32
        → 0 < size
        → Accesses
            (ptr + offset)
            size
            mi
            (sized size)
            (leb (ptr + offset + size) (size_in_bytes mi))
    bytes in_range pos = elim (lt_or_le (ptr + offset + (size - 1)) (2 ^ 32)) [
      | inr wraps ↦
          rw
            (
              ==_ne size 0 (λ e. omega arith),
              add_u32-none (ptr + offset) (size - 1) (omega arith) wraps,
            )
            (past (omega (arith, h.limit, h.max)))
      | inl fits ↦
          rw (==_ne size 0 (λ e. omega arith), add_u32-some (ptr + offset) (size - 1) fits)
            (access_up_to-Accesses room (ptr + offset) size (ptr + offset + (size - 1)) mi h
              (omega arith) fits space)
    ]
      where
        past :
            size_in_bytes mi < ptr + offset + size
            → Accesses
                (ptr + offset)
                size
                mi
                (err etoywasmtrap)
                (leb (ptr + offset + size) (size_in_bytes mi))
        past out = rw (leb_past out) refl
          where
            leb_past :
                size_in_bytes mi < ptr + offset + size
                → leb (ptr + offset + size) (size_in_bytes mi) ≡ false
            leb_past o = ground arith
