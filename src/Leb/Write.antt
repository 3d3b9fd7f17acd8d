-- ===== src/Leb/Write.antt =====
-- What write_leb_u32 writes, and that the readers read it back.
use toywasm.Base.{ℕ, zero, suc, ◌+◌, ◌/◌, ◌%◌, ◌^◌, ◌≤◌, ◌<◌, ◌≡◌, ◌∙◌, arith}
use toywasm.Base.{inl, inr, lt_or_le, append_assoc}
use toywasm.Base.{
  ok, List, [], ◌∷◌, ◌++◌, length, IsU32, sym, ap, append-nil, Bool-cases, refl, bit_and, bit_or,
  ◌==◌,
}
use toywasm.Base.Bits.{bit_and_low_seven, set_top_bit}
use toywasm.Leb.{write_leb_loop, write_leb_u32, read_leb_u32}
use toywasm.Leb.Spec.{IsLeb, leb_value}
use toywasm.Leb.Unsigned.{IsLeb-cons, read_leb_complete}

-- `out'` is `out` and an encoding of `u` in at most `size` bytes.
abbrev Encoded : (size u : ℕ) (out out' : List ℕ) → Type 0
Encoded size u out out' =
    (front : List ℕ) × (out' ≡ out ++ front)
    × IsLeb front
    × (length front ≤ size)
    × (leb_value front ≡ u)

-- A round that is not the last.
write_leb_loop_round :
    (fuel u : ℕ) (out : List ℕ)
    → 128 ≤ u
    → write_leb_loop (suc fuel) u out ≡ write_leb_loop fuel (u / 128) (out ++ (u % 128 + 128) ∷ [])
unfolding write_leb_loop
write_leb_loop_round fuel u out h =
    rw (bit_and_low_seven u, set_top_bit (u % 128) (omega arith)) (ground arith)

write_leb_loop_last :
    (fuel u : ℕ) (out : List ℕ) → u < 128 → write_leb_loop (suc fuel) u out ≡ out ++ u ∷ []
unfolding write_leb_loop
write_leb_loop_last fuel u out h = ground (arith, bit_and_low_seven u)

write_leb_loop-Encoded :
    (fuel u : ℕ) (out : List ℕ)
    → u < 128 ^ suc fuel
    → Encoded (suc fuel) u out (write_leb_loop (suc fuel) u out)
write_leb_loop-Encoded zero u out h =
    (u ∷ [], write_leb_loop_last zero u out (omega arith), omega arith, omega arith, omega arith)
write_leb_loop-Encoded (suc fuel) u out h = elim (lt_or_le u 128) [
  | inl last ↦ (u ∷ [], write_leb_loop_last (suc fuel) u out last, last, omega arith, omega arith)
  | inr more ↦
      let head : List ℕ = (u % 128 + 128) ∷ [] in
      let (front, e, l, n, v) = write_leb_loop-Encoded fuel (u / 128) (out ++ head) (omega arith) in
      (
        (u % 128 + 128) ∷ front,
        write_leb_loop_round (suc fuel) u out more ∙ e ∙ append_assoc out head front,
        IsLeb-cons _ front (omega arith) (omega arith) l,
        omega arith,
        omega arith,
      )
]

-- `write_leb_u32` leaves what was written before it, and `read_leb_u32` reads the number back and
-- stops where the encoding ends.
pub read_leb_u32-write_leb_u32 :
    (u : ℕ) (out rest : List ℕ)
    → IsU32 u
    → (front : List ℕ) × (write_leb_u32 u out ≡ out ++ front)
      × (read_leb_u32 (front ++ rest) ≡ ok (u, rest))
unfolding write_leb_u32 read_leb_u32
read_leb_u32-write_leb_u32 u out rest h =
    let (front, e, l, n, v) = write_leb_loop-Encoded 4 u out (omega arith) in
    (
      front,
      e,
      ground (arith, read_leb_complete 32 (omega arith) (omega arith) front rest l (omega arith)),
    )

write_leb_loop-append :
    (fuel u : ℕ) (out : List ℕ) → write_leb_loop fuel u out ≡ out ++ write_leb_loop fuel u []
unfolding write_leb_loop
write_leb_loop-append zero u out = sym (append-nil out)
write_leb_loop-append (suc fuel) u out =
    let head : List ℕ = bit_or (bit_and u 0x7f) 0x80 ∷ [] in
    elim (Bool-cases (u / 2 ^ 7 == 0)) [
      | inl last ↦ rw last refl
      | inr more ↦ rw more (
          write_leb_loop-append fuel (u / 2 ^ 7) (out ++ head)
          ∙ append_assoc out head (write_leb_loop fuel (u / 2 ^ 7) [])
          ∙ ap (λ bytes. out ++ bytes) (sym (write_leb_loop-append fuel (u / 2 ^ 7) head)))
    ]

-- What is written does not depend on what was written before.
pub write_leb_u32-append : (u : ℕ) (out : List ℕ) → write_leb_u32 u out ≡ out ++ write_leb_u32 u []
unfolding write_leb_u32
write_leb_u32-append u out = write_leb_loop-append 5 u out

pub read_leb_u32_written :
    (u : ℕ) (rest : List ℕ) → IsU32 u → read_leb_u32 (write_leb_u32 u [] ++ rest) ≡ ok (u, rest)
read_leb_u32_written u rest h =
    let (front, wrote, back) = read_leb_u32-write_leb_u32 u [] rest h in rw wrote back

-- What is written is an encoding of the number in five bytes at most.
pub write_leb_u32-IsLeb :
    (u : ℕ)
    → IsU32 u
    → IsLeb (write_leb_u32 u [])
      × (length (write_leb_u32 u []) ≤ 5)
      × (leb_value (write_leb_u32 u []) ≡ u)
unfolding write_leb_u32
write_leb_u32-IsLeb u h =
    let (front, e, l, n, v) = write_leb_loop-Encoded 4 u [] (omega arith) in rw e (l, n, v)
