-- ===== src/Decode.antt =====
-- lib/decode.c: numbers of a fixed size and vectors, and the loops of lib/module_writer.c that write a
-- vector. The buffer is the list of the bytes from the pointer to the end, which is always given here.
-- A vector is a list; the array that it is stored in always grows, since heap allocation succeeds.
pub mod Fixed
pub mod Vectors
mod Tests
use toywasm.Base.{ℕ, zero, suc, ◌+◌, ◌-◌, ◌*◌, ◌/◌, ◌^◌, List, [], ◌∷◌, ◌++◌, length, leb, ◌==◌}
use toywasm.Base.{if◌then◌else◌, u8, Result, ok, err, einval, eoverflow, ◌>>=◌, ◌>>◌, check}
use toywasm.Leb.{read_leb_u32, write_leb_u32}

-- `memcpy` and `le32_to_host`
unfoldable pub read_u32 : List ℕ → Result (ℕ × List ℕ)
read_u32 (a ∷ b ∷ c ∷ d ∷ rest) = ok (a + b * 2 ^ 8 + c * 2 ^ 16 + d * 2 ^ 24, rest)
read_u32 _ = err einval

unfoldable pub read_u64 : List ℕ → Result (ℕ × List ℕ)
read_u64 (a ∷ b ∷ c ∷ d ∷ e ∷ f ∷ g ∷ h ∷ rest) = ok (
  a + b * 2 ^ 8 + c * 2 ^ 16 + d * 2 ^ 24 + (e + f * 2 ^ 8 + g * 2 ^ 16 + h * 2 ^ 24) * 2 ^ 32,
  rest,
)
read_u64 _ = err einval

-- WRITE_U32
unfoldable pub write_u32 : (v : ℕ) → (out : List ℕ) → List ℕ
write_u32 v out = out ++ (u8 v ∷ u8 (v / 2 ^ 8) ∷ u8 (v / 2 ^ 16) ∷ u8 (v / 2 ^ 24) ∷ [])

unfoldable pub read_vec_count : List ℕ → Result (ℕ × List ℕ)
read_vec_count bytes = read_leb_u32 bytes

-- The loop over `n` elements from the index `idx` on; `ctx` is what `read_elem` reaches by its context.
unfoldable pub read_elems :
    {A S : Type 0} (read_elem : (idx : ℕ) → S → List ℕ → Result (A × S × List ℕ)) (n idx : ℕ)
    → S
    → List ℕ
    → Result (List A × S × List ℕ)
read_elems read_elem zero idx ctx bytes = ok ([], ctx, bytes)
read_elems read_elem (suc n) idx ctx bytes = do
  (elem, ctx', behind) ← read_elem idx ctx bytes
  (elems, ctx'', rest) ← read_elems read_elem n (idx + 1) ctx' behind
  ok (elem ∷ elems, ctx'', rest)

-- `_read_vec_with_ctx_impl`: the new elements go behind those that `*resultp` has.
unfoldable pub read_vec_with_ctx :
    {A S : Type 0} (read_elem : (idx : ℕ) → S → List ℕ → Result (A × S × List ℕ)) (orig : List A)
    → S
    → List ℕ
    → Result (List A × S × List ℕ)
unfolding read_elems read_vec_count
read_vec_with_ctx read_elem orig ctx bytes = do
  (vec_count, p) ← read_vec_count bytes
  let extended = do
    check (leb (length orig + vec_count) (2 ^ 32 - 1)) eoverflow
    (elems, ctx', rest) ← read_elems read_elem vec_count 0 ctx p
    ok (orig ++ elems, ctx', rest)
  if vec_count == 0 then ok (orig, ctx, p) else extended

unfoldable pub read_elem_wrapper :
    {A : Type 0} (read_elem : List ℕ → Result (A × List ℕ)) (idx : ℕ)
    → Unit {0}
    → List ℕ
    → Result (A × Unit {0} × List ℕ)
read_elem_wrapper read_elem idx ctx bytes = do (elem, rest) ← read_elem bytes; ok (elem, ctx, rest)

-- All callers pass an empty array.
unfoldable pub read_vec :
    {A : Type 0} (read_elem : List ℕ → Result (A × List ℕ)) → List ℕ → Result (List A × List ℕ)
unfolding read_vec_with_ctx read_elem_wrapper
read_vec read_elem bytes = do
  (elems, ctx, rest) ← read_vec_with_ctx (read_elem_wrapper read_elem) [] tt bytes
  ok (elems, rest)

unfoldable pub read_vec_u32 : List ℕ → Result (List ℕ × List ℕ)
unfolding read_vec
read_vec_u32 bytes = read_vec read_leb_u32 bytes

-- A loop of writes, each behind the bytes before it.
unfoldable pub write_elems :
    {A : Type 0} (write_elem : A → List ℕ → Result (List ℕ)) → List A → List ℕ → Result (List ℕ)
write_elems write_elem [] out = ok out
write_elems write_elem (a ∷ elems) out = do
  out' ← write_elem a out
  write_elems write_elem elems out'

-- The number of elements, then the loop.
unfoldable pub write_vec :
    {A : Type 0} (write_elem : A → List ℕ → Result (List ℕ)) → List A → List ℕ → Result (List ℕ)
unfolding write_elems
write_vec write_elem elems out = write_elems write_elem elems (write_leb_u32 (length elems) out)

unfoldable pub write_u32_elem : ℕ → List ℕ → Result (List ℕ)
write_u32_elem u out = ok (write_leb_u32 u out)
