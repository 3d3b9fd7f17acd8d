-- ===== src/Exec/Lookup.antt =====
-- lib/exec.c: the binary search of jump_table_lookup.
use toywasm.Base.{
  ℕ, zero, suc, ◌+◌, ◌-◌, ◌/◌, ◌^◌, u32, ◌≤◌, ◌<◌, ◌≡◌, ap, arith, List, length, get_elem?,
}
use toywasm.Base.{some, ok, inl, inr, ◌⊎◌}
use toywasm.Base.{sym, ◌∙◌, get_elem?_lt, get_elem?-some}
use toywasm.Validation.{Jump}
use toywasm.Exec.{search_jump, jump_table_lookup}

-- The program counters increase.
abbrev pub IsSorted : List Jump → Type 0
IsSorted jumps =
    (i j : ℕ) (a b : Jump)
    → get_elem? jumps i ≡ some a
    → get_elem? jumps j ≡ some b
    → i < j
    → a.pc < b.pc

some_inj : {A : Type 0} {a b : A} → some a ≡ some b → a ≡ b
some_inj e = cc

same_index : (a b : ℕ) → (a < b) ⊎ ((a ≡ b) ⊎ (b < a))
same_index a b = omega arith

module _ (jumps : List Jump) (sorted : IsSorted jumps) (i : ℕ) (jump : Jump)
    (there : get_elem? jumps i ≡ some jump) (few : length jumps ≤ 2 ^ 31) where
  search_jump-finds :
      (fuel left right : ℕ)
      → left ≤ i
      → i < right
      → right ≤ length jumps
      → right - left < fuel
      → search_jump fuel left right jump.pc jumps ≡ ok i
  unfolding search_jump
  search_jump-finds zero left right l r n f = absurd (omega arith)
  search_jump-finds (suc fuel) left right l r n f =
      let mid = u32 (left + right) / 2 in
      let unwrapped : u32 (left + right) ≡ left + right = omega (arith, few) in
      let (at_mid, e) = get_elem?-some jumps mid (omega (arith, few, unwrapped)) in
      elim (same_index mid i) [
        | inl before ↦
            let lt = sorted mid i at_mid jump e there before in
            ground (
              arith,
              e,
              search_jump-finds fuel (mid + 1) right (omega (arith, unwrapped, before)) r n
                  (omega (arith, unwrapped, few)),
            )
        | inr (inl here) ↦
            let same : at_mid ≡ jump = some_inj (sym e ∙ ap (get_elem? jumps) here ∙ there) in
            ground (arith, e)
        | inr (inr after) ↦
            let lt = sorted i mid jump at_mid there e after in
            ground (
              arith,
              e,
              search_jump-finds fuel left mid l (omega (arith, after)) (omega (arith, unwrapped))
                  (omega (arith, unwrapped, few)),
            )
      ]

  -- In a table of at most 2^31 entries, sorted by program counter, the lookup of a program counter
  -- that some entry has ends within its fuel, fails no assertion and returns the index of that entry.
  pub jump_table_lookup-finds : jump_table_lookup jumps jump.pc ≡ ok i
  unfolding jump_table_lookup
  jump_table_lookup-finds =
      search_jump-finds (length jumps + 1) 0 (length jumps) (omega arith)
        (get_elem?_lt jumps i there) (omega arith) (omega arith)
