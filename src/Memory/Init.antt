-- ===== src/Memory/Init.antt =====
-- memory_init: copying from a data segment.
use toywasm.Base.{
  ℕ, zero, suc, ◌+◌, ◌-◌, ◌^◌, ◌≤◌, ◌<◌, ◌≡◌, refl, ap, ◌∙◌, arith, Bool, true, false,
}
use toywasm.Base.{
  List, [], ◌∷◌, ◌++◌, length, take, drop, get_or, length-take, length-drop, length-append,
}
use toywasm.Base.{inl, inr, ◌⊎◌, Result, ok, err, etoywasmtrap, ◌>>=◌}
use toywasm.Memory.{Meminst, write_bytes, copy_init}
use toywasm.Memory.Contents.{IsMemory, byte_at}
use toywasm.Memory.Access.{in_bounds, Accesses, memory_instance_getptr2-Accesses}

get_or-append_right : (xs ys : List ℕ) (i : ℕ) → get_or (xs ++ ys) (length xs + i) 0 ≡ get_or ys i 0
get_or-append_right [] ys i = ap (λ (n : ℕ). get_or ys n 0) (omega arith)
get_or-append_right (x ∷ xs) ys i =
    ap (λ (n : ℕ). get_or (x ∷ xs ++ ys) n 0) n_eq ∙ get_or-append_right xs ys i
  where
    n_eq : suc (length xs) + i ≡ suc (length xs + i)
    n_eq = omega arith

get_or-append_left :
    (xs ys : List ℕ) (i : ℕ) → i < length xs → get_or (xs ++ ys) i 0 ≡ get_or xs i 0
get_or-append_left [] ys i h = absurd (omega arith)
get_or-append_left (x ∷ xs) ys zero h = refl
get_or-append_left (x ∷ xs) ys (suc i) h = get_or-append_left xs ys i (omega arith)

get_or-take : (n : ℕ) (xs : List ℕ) (i : ℕ) → i < n → get_or (take n xs) i 0 ≡ get_or xs i 0
get_or-take zero xs i h = absurd (omega arith)
get_or-take (suc n) [] i h = refl
get_or-take (suc n) (x ∷ xs) zero h = refl
get_or-take (suc n) (x ∷ xs) (suc i) h = get_or-take n xs i (omega arith)

get_or-drop : (n : ℕ) (xs : List ℕ) (i : ℕ) → get_or (drop n xs) i 0 ≡ get_or xs (n + i) 0
get_or-drop zero xs i = ap (λ (k : ℕ). get_or xs k 0) (omega arith)
get_or-drop (suc n) [] i = refl
get_or-drop (suc n) (x ∷ xs) i = get_or-drop n xs i ∙ ap (λ (k : ℕ). get_or (x ∷ xs) k 0) n_eq
  where
    n_eq : suc (n + i) ≡ suc n + i
    n_eq = omega arith

-- `dst` with `bytes` written at `at`.
abbrev Written : (at : ℕ) (bytes dst dst' : List ℕ) → Type 0
Written at bytes dst dst' =
    (length dst' ≡ length dst)
    × ((i : ℕ) → i < length bytes → get_or dst' (at + i) 0 ≡ get_or bytes i 0)
    × ((i : ℕ) → (i < at) ⊎ (at + length bytes ≤ i) → get_or dst' i 0 ≡ get_or dst i 0)

splice-Written :
    (at : ℕ) (bytes dst : List ℕ)
    → at + length bytes ≤ length dst
    → Written at bytes dst (take at dst ++ (bytes ++ drop (at + length bytes) dst))
splice-Written at bytes dst h =
    let front = take at dst in
    let back = drop (at + length bytes) dst in
    let len : length front ≡ at = omega (arith, length-take at dst) in
    (
      omega (
        arith,
        length-append front (bytes ++ back),
        length-append bytes back,
        length-drop (at + length bytes) dst,
        len,
      ),
      (λ i lt.
          ap (λ (k : ℕ). get_or (front ++ (bytes ++ back)) k 0) (omega (arith, len))
          ∙ get_or-append_right front (bytes ++ back) i
          ∙ get_or-append_left bytes back i lt),
      outside len,
    )
  where
    outside :
        length (take at dst) ≡ at
        → (i : ℕ) → (i < at) ⊎ (at + length bytes ≤ i)
        → get_or (take at dst ++ (bytes ++ drop (at + length bytes) dst)) i 0 ≡ get_or dst i 0
    outside len i (inl before) =
        get_or-append_left (take at dst) (bytes ++ drop (at + length bytes) dst) i (omega arith)
        ∙ get_or-take at dst i before
    outside len i (inr after) =
        let k = i - (at + length bytes) in
        ap (λ (n : ℕ). get_or (take at dst ++ (bytes ++ drop (at + length bytes) dst)) n 0)
          (position len after)
        ∙ get_or-append_right (take at dst) (bytes ++ drop (at + length bytes) dst)
            (length bytes + k)
        ∙ get_or-append_right bytes (drop (at + length bytes) dst) k
        ∙ get_or-drop (at + length bytes) dst k
        ∙ ap (λ (n : ℕ). get_or dst n 0) (omega arith)
      where
        position :
            length (take at dst) ≡ at
            → at + length bytes ≤ i
            → i ≡ length (take at dst) + (length bytes + (i - (at + length bytes)))
        position len after = omega arith

write_bytes-Written :
    (at : ℕ) (bytes dst : List ℕ)
    → (1 ≤ length bytes → at + length bytes ≤ length dst)
    → (dst' : List ℕ) × (write_bytes at bytes dst ≡ ok dst') × Written at bytes dst dst'
unfolding write_bytes
write_bytes-Written at [] dst h = (dst, refl, (refl, (λ i lt. absurd (omega arith)), λ i _. refl))
write_bytes-Written at (b ∷ bytes) dst h =
    let fits : at + length (b ∷ bytes) ≤ length dst = h (omega arith) in
    (
      take at dst ++ ((b ∷ bytes) ++ drop (at + length (b ∷ bytes)) dst),
      ground arith,
      splice-Written at (b ∷ bytes) dst fits,
    )

-- `mi'` is `mi` with `n` bytes of `init` from `s` on at `d`.
abbrev pub Copied : (d s n : ℕ) (init : List ℕ) (mi mi' : Meminst) → Type 0
Copied d s n init mi mi' =
    IsMemory mi'
    × (mi'.size_in_pages ≡ mi.size_in_pages)
    × ((i : ℕ) → i < n → byte_at mi' (d + i) ≡ get_or init (s + i) 0)
    × ((i : ℕ) → (i < d) ⊎ (d + n ≤ i) → byte_at mi' i ≡ byte_at mi i)

abbrev pub Copies :
    (d s n : ℕ) (init : List ℕ) (mi : Meminst) → Result Meminst → (allowed : Bool) → Type 0
Copies d s n init mi r false = r ≡ err etoywasmtrap
Copies d s n init mi r true = (mi' : Meminst) × (r ≡ ok mi') × Copied d s n init mi mi'

copy_of_access :
    (d s n : ℕ) (init : List ℕ) (mi : Meminst) (access : Result (ℕ × Meminst)) (allowed : Bool)
    → s + n ≤ length init
    → Accesses (d + 0) n mi access allowed
    → Copies d s n init mi
        (do
          (p, mi') ← access
          written ← write_bytes p (take n (drop s init)) mi'.bytes
          ok (record mi' { bytes = written }))
        allowed
copy_of_access d s n init mi access false len e = rw e refl
copy_of_access d s n init mi access true len (mi', e, (h, pages, same, allocated)) =
    let bytes = take n (drop s init) in
    let size : length bytes ≡ n = omega (arith, length-take n (drop s init), length-drop s init) in
    let (written, ew, (long, inside, outside)) =
      write_bytes-Written (d + 0) bytes mi'.bytes (λ some_bytes. omega (arith, size, allocated)) in
    (
      record mi' { bytes = written },
      rw (e, ew) refl,
      (
        record { allocated = omega (arith, long, h.allocated); limit = h.limit; max = h.max },
        pages,
        (λ i lt.
            ap (λ (k : ℕ). get_or written k 0) (omega arith)
            ∙ inside i (omega (arith, size))
            ∙ get_or-take n (drop s init) i lt
            ∙ get_or-drop s init i),
        λ i where_else. outside i (shift size where_else) ∙ same i,
      ),
    )
  where
    shift :
        {i : ℕ}
        → length (take n (drop s init)) ≡ n
        → (i < d) ⊎ (d + n ≤ i)
        → (i < d + 0) ⊎ (d + 0 + length (take n (drop s init)) ≤ i)
    shift size (inl before) = inl (omega arith)
    shift size (inr after) = inr (omega arith)

-- The copy of memory_init, in a memory within its limits and with room to allocate, once the source range
-- has been found in the segment: a trap exactly if the destination ends past the pages. Else `n`
-- bytes of the segment stand at `d`, and every other byte of the memory is what it was.
pub copy_init-Copies :
    (d s n : ℕ) (init : List ℕ) (mi : Meminst)
    → IsMemory mi
    → d < 2 ^ 32
    → n < 2 ^ 32
    → s + n ≤ length init
    → Copies d s n init mi (copy_init true d s n init mi) (in_bounds d 0 n mi)
copy_init-Copies d s n init mi h dr nr len =
    copy_of_access d s n init mi _ _ len
      (memory_instance_getptr2-Accesses true d 0 n mi h dr (omega arith) nr (inl refl))
