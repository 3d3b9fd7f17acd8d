-- ===== src/Decode/Vectors.antt =====
-- Vectors: what the loops of the reader and of the writer do on elements that can be read back.
use toywasm.Base.{ℕ, suc, ◌+◌, ◌-◌, ◌^◌, ◌≡◌, refl, sym, ap, arith, List, [], ◌∷◌, ◌++◌, length}
use toywasm.Base.{leb, ◌==◌, true, false, All, append_assoc, append-nil, Result, ok, IsU32}
use toywasm.Leb.{read_leb_u32, write_leb_u32}
use toywasm.Leb.Write.{write_leb_u32-append, read_leb_u32_written}
use toywasm.Decode.{
  read_vec_count, read_elems, read_vec_with_ctx, read_elem_wrapper, read_vec, write_elems,
  write_vec, read_vec_u32, write_u32_elem,
}

-- The writer appends `front`, whatever was written before.
abbrev pub Appends :
    {A : Type 0} (write : A → List ℕ → Result (List ℕ)) (a : A) (front : List ℕ) → Type 0
Appends write a front = (out : List ℕ) → write a out ≡ ok (out ++ front)

-- The reader makes `a` of what the writer appends for it, and stops there.
abbrev pub IsReadBack :
    {A : Type 0} (read : List ℕ → Result (A × List ℕ)) (write : A → List ℕ → Result (List ℕ))
    (a : A)
    → Type 0
IsReadBack read write a =
    (front : List ℕ) × Appends write a front
    × ((rest : List ℕ) → read (front ++ rest) ≡ ok (a, rest))

-- The same at any index and from any context in which `I` holds; `step` is what the element does there.
abbrev pub IsReadBackIn :
    {A S : Type 0} (I : S → Type 0) (step : A → S → S)
    (read : (idx : ℕ) → S → List ℕ → Result (A × S × List ℕ)) (write : A → List ℕ → Result (List ℕ))
    (a : A)
    → Type 0
IsReadBackIn {S = S} I step read write a =
    (front : List ℕ) × Appends write a front
    × ((idx : ℕ) (ctx : S) (rest : List ℕ)
        → I ctx
        → read idx ctx (front ++ rest) ≡ ok (a, step a ctx, rest))
    × ((ctx : S) → I ctx → I (step a ctx))

abbrev pub steps : {A S : Type 0} (step : A → S → S) → List A → S → S
steps step [] ctx = ctx
steps step (a ∷ elems) ctx = steps step elems (step a ctx)

module _ {A S : Type 0} (I : S → Type 0) (step : A → S → S)
    (read : (idx : ℕ) → S → List ℕ → Result (A × S × List ℕ))
    (write : A → List ℕ → Result (List ℕ)) where
  read_elems-write_elems :
      (elems : List A)
      → All (IsReadBackIn I step read write) elems
      → (front : List ℕ) × Appends (write_elems write) elems front
        × ((idx : ℕ) (ctx : S) (rest : List ℕ)
            → I ctx
            → read_elems read (length elems) idx ctx (front ++ rest)
              ≡ ok (elems, steps step elems ctx, rest))
        × ((ctx : S) → I ctx → I (steps step elems ctx))
  unfolding read_elems write_elems
  read_elems-write_elems [] h =
      ([], λ out. ap ok (sym (append-nil out)), λ idx ctx rest i. refl, λ ctx i. i)
  read_elems-write_elems (a ∷ elems) ((front, wrote, back, keeps), h) =
      let (more, wrote_more, back_more, keeps_more) = read_elems-write_elems elems h in
      (
        front ++ more,
        λ out. rw (wrote out, wrote_more (out ++ front), append_assoc out front more) refl,
        λ idx ctx rest i.
            rw
              (
                append_assoc front more rest,
                back idx ctx (more ++ rest) i,
                back_more (idx + 1) (step a ctx) rest (keeps ctx i),
              )
              refl,
        λ ctx i. keeps_more (step a ctx) (keeps ctx i),
      )

  read_counted :
      (bytes p rest : List ℕ) (ctx ctx' : S) (elems : List A)
      → read_leb_u32 bytes ≡ ok (length elems, p)
      → IsU32 (length elems)
      → read_elems read (length elems) 0 ctx p ≡ ok (elems, ctx', rest)
      → read_vec_with_ctx read [] ctx bytes ≡ ok (elems, ctx', rest)
  unfolding read_vec_with_ctx read_vec_count read_elems
  read_counted bytes p rest ctx ctx' [] count few back = rw count back
  read_counted bytes p rest ctx ctx' (a ∷ elems) count few back =
      let fits : leb (0 + suc (length elems)) (2 ^ 32 - 1) ≡ true = ground arith in
      let some_elems : (suc (length elems) == 0) ≡ false = ground arith in
      rw (count, fits, back, some_elems) refl

  -- A vector of elements that can be read back is read back.
  pub read_vec_with_ctx-write_vec :
      (elems : List A)
      → All (IsReadBackIn I step read write) elems
      → IsU32 (length elems)
      → (front : List ℕ) × Appends (write_vec write) elems front
        × ((ctx : S) (rest : List ℕ)
            → I ctx
            → read_vec_with_ctx read [] ctx (front ++ rest)
              ≡ ok (elems, steps step elems ctx, rest))
        × ((ctx : S) → I ctx → I (steps step elems ctx))
  unfolding write_vec
  read_vec_with_ctx-write_vec elems h few =
      let (more, wrote, back, keeps) = read_elems-write_elems elems h in
      let count = write_leb_u32 (length elems) [] in
      (
        count ++ more,
        λ out.
            rw
              (
                write_leb_u32-append (length elems) out,
                wrote (out ++ count),
                append_assoc out count more,
              )
              refl,
        λ ctx rest i. rw (append_assoc count more rest) (
            read_counted _ _ _ _ _ elems (read_leb_u32_written (length elems) (more ++ rest) few)
              few (back 0 ctx rest i)),
        keeps,
      )

module _ {A : Type 0} (read : List ℕ → Result (A × List ℕ))
    (write : A → List ℕ → Result (List ℕ)) where
  read_elem_wrapper-IsReadBackIn :
      (elems : List A)
      → All (IsReadBack read write) elems
      → All (IsReadBackIn (λ ctx. Unit {0}) (λ elem ctx. ctx) (read_elem_wrapper read) write) elems
  unfolding read_elem_wrapper
  read_elem_wrapper-IsReadBackIn [] h = tt
  read_elem_wrapper-IsReadBackIn (a ∷ elems) ((front, wrote, back), h) = (
    (front, wrote, λ idx ctx rest i. rw (back rest) refl, λ ctx i. i),
    read_elem_wrapper-IsReadBackIn elems h,
  )

  pub read_vec-write_vec :
      (elems : List A)
      → All (IsReadBack read write) elems
      → IsU32 (length elems)
      → IsReadBack (read_vec read) (write_vec write) elems
  unfolding read_vec
  read_vec-write_vec elems h few =
      let (front, wrote, back, keeps) =
        read_vec_with_ctx-write_vec (λ ctx. Unit {0}) (λ elem ctx. ctx) (read_elem_wrapper read)
          write elems (read_elem_wrapper-IsReadBackIn elems h) few in
      (front, wrote, λ rest. rw (back tt rest tt) refl)

write_u32_elem-IsReadBack : (u : ℕ) → IsU32 u → IsReadBack read_leb_u32 write_u32_elem u
unfolding write_u32_elem
write_u32_elem-IsReadBack u h = (
  write_leb_u32 u [],
  λ out. ap ok (write_leb_u32-append u out),
  λ rest. read_leb_u32_written u rest h,
)

All-write_u32_elem : (us : List ℕ) → All IsU32 us → All (IsReadBack read_leb_u32 write_u32_elem) us
All-write_u32_elem [] h = tt
All-write_u32_elem (u ∷ us) (hu, h) = (write_u32_elem-IsReadBack u hu, All-write_u32_elem us h)

-- A vector of fewer than 2^32 numbers of 32 bits is read back by read_vec_u32 from its length and its
-- elements in LEB128, written behind anything, and the reader stops where the writer stopped.
pub read_vec_u32-write_vec :
    (us : List ℕ)
    → All IsU32 us
    → IsU32 (length us)
    → IsReadBack read_vec_u32 (write_vec write_u32_elem) us
unfolding read_vec_u32
read_vec_u32-write_vec us h few =
    read_vec-write_vec read_leb_u32 write_u32_elem us (All-write_u32_elem us h) few
