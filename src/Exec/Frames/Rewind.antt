-- ===== src/Exec/Frames/Rewind.antt =====
-- What rewind_stack leaves on the operand stack.
use toywasm.Base.{
  ℕ, ◌+◌, ◌-◌, ◌<◌, ◌≡◌, sym, ap, ◌∙◌, arith, List, [], ◌∷◌, ◌++◌, length, get_elem?, take,
}
use toywasm.Base.{ok, inl, inr, lt_or_le}
use toywasm.Base.{
  length-append, length-take, list_ext, get_elem?-take, get_elem?-append_left,
  get_elem?-append_right, append-nil,
}
use toywasm.Cells.{cells_move}
use toywasm.Cells.Move.{cells_move-Moves, IsMoved}
use toywasm.Exec.Frames.{rewind_stack}

-- What is in between is gone from the cells that were moved.
take-IsMoved :
    (base extra results cells' : List ℕ)
    → (let stack = base ++ extra ++ results in
        IsMoved (length base) (length base + length extra) (length results) stack cells'
        → take (length base + length results) cells' ≡ base ++ results)
take-IsMoved base extra results cells' h =
    list_ext (take (n + a) cells') (base ++ results) (taken ∙ sym (length-append base results))
      (λ k lt. at k (omega (arith, lt, taken)))
  where
    n : ℕ
    n = length base

    a : ℕ
    a = length results

    stack : List ℕ
    stack = base ++ extra ++ results

    front : length (base ++ extra) ≡ length base + length extra
    front = length-append base extra

    taken : length (take (length base + length results) cells') ≡ length base + length results
    taken = omega (
      arith,
      length-take (length base + length results) cells',
      h.size,
      length-append (base ++ extra) results,
      front,
    )

    at :
        (k : ℕ)
        → k < length base + length results
        → get_elem? (take (length base + length results) cells') k ≡ get_elem? (base ++ results) k
    at k lt =
        get_elem?-take (length base + length results) cells' k lt
        ∙ (elim (lt_or_le k (length base)) [
          | inl low ↦
              h.kept k (inl low)
              ∙ get_elem?-append_left (base ++ extra) results k (omega (arith, front, low))
              ∙ get_elem?-append_left base extra k low
              ∙ sym (get_elem?-append_left base results k low)
          | inr high ↦
              let j = k - length base in
              let same : length base + j ≡ k = omega arith in
              rw (sym same) (
                h.moved j (omega arith)
                ∙ ap (λ n. get_elem? stack (n + j)) (sym front)
                ∙ get_elem?-append_right (base ++ extra) results j
                ∙ sym (get_elem?-append_right base results j))
        ])

rewind_stack_moves :
    (n a : ℕ) (stack cells' : List ℕ)
    → n + a < length stack
    → cells_move n (length stack - a) a stack ≡ ok cells'
    → rewind_stack n a stack ≡ ok (take (n + a) cells')
unfolding rewind_stack
rewind_stack_moves n a stack cells' lt e = ground (arith, lt, e)

rewind_stack_stays :
    (n a : ℕ) (stack : List ℕ) → n + a ≡ length stack → rewind_stack n a stack ≡ ok stack
unfolding rewind_stack
rewind_stack_stays n a stack e = ground (arith, e)

-- The values between the height and the results are dropped, the results keep their order, and no
-- assertion fails.
pub rewind_stack-eq :
    (base extra results : List ℕ)
    → rewind_stack (length base) (length results) (base ++ extra ++ results) ≡ ok (base ++ results)
rewind_stack-eq base [] results = rw (append-nil base) (
    rewind_stack_stays (length base) (length results) (base ++ results)
      (sym (length-append base results)))
rewind_stack-eq base (x ∷ xs) results =
    let extra = x ∷ xs in
    let n = length base in
    let a = length results in
    let stack = base ++ extra ++ results in
    let len : length stack ≡ n + length extra + a =
      omega (arith, length-append (base ++ extra) results, length-append base extra) in
    let src : length stack - a ≡ n + length extra = omega (arith, len) in
    let (cells', e, h) =
      cells_move-Moves n (n + length extra) a stack (omega (arith, len)) (omega (arith, len)) in
    rewind_stack_moves n a stack cells' (omega (arith, len))
      (ap (λ s. cells_move n s a stack) src ∙ e)
    ∙ ap ok (take-IsMoved base extra results cells' h)
