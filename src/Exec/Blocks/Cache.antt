-- ===== src/Exec/Blocks/Cache.antt =====
-- The cache of exits against the exits themselves.
use toywasm.Base.{
  ℕ, ◌+◌, ◌-◌, ◌%◌, ◌^◌, ◌<◌, ◌≡◌, ◌≢◌, refl, sym, ap, ◌∙◌, subst, arith, Bool, true, false,
}
use toywasm.Base.{List, length, get_elem?, set, none, some, inl, inr, ◌⊎◌}
use toywasm.Base.{
  Result, ok, get_elem?-some, length-set, get_elem?-set_self, get_elem?-set_ne, ==_ne,
  get_elem?-replicate,
}
use toywasm.Validation.{Jump}
use toywasm.Exec.Blocks.{
  Code, Exit, stay_in_block, leave, block_exit, JumpCache, key_of, with_key, cache_entry, exit_of,
}
use toywasm.Exec.Blocks.{jump_cache2_lookup, jump_cache2_store, cached_block_exit, empty_cache}

-- The program counters of the block instructions of a module: behind its magic number, in 32 bits, and
-- never next to each other, since a block type follows.
pub record IsLaidOut (is_block : ℕ → Bool) : Type 0 where
  pub behind_magic : (pc : ℕ) → is_block pc ≡ true → 0 < pc
  pub fits : (pc : ℕ) → is_block pc ≡ true → pc < 2 ^ 32 - 1
  pub apart : (pc : ℕ) → is_block pc ≡ true → is_block (pc + 1) ≡ false

some_inj : {A : Type 0} {a b : A} → some a ≡ some b → a ≡ b
some_inj e = cc

same_or_not : (a b : ℕ) → (a ≡ b) ⊎ (a ≢ b)
same_or_not a b = omega arith

exit_of-cache_entry : (key : ℕ) (exit : Exit) → exit_of (cache_entry key exit) ≡ ok exit
exit_of-cache_entry key (stay_in_block p) = refl
exit_of-cache_entry key (leave p param_arity arity) = refl

jump_cache2_store-ok :
    (caches : List JumpCache) (cache : JumpCache) (blockpc : ℕ) (goto_else : Bool) (exit : Exit)
    → (let key = key_of blockpc goto_else in
        get_elem? caches (key % 4) ≡ some cache
        → cache.key ≢ key
        → jump_cache2_store caches blockpc goto_else exit
          ≡ ok (set caches (key % 4) (cache_entry key exit)))
unfolding jump_cache2_store
jump_cache2_store-ok caches cache blockpc goto_else exit at other =
    rw (at, ==_ne cache.key (key_of blockpc goto_else) other) refl

abbrev zeroed : JumpCache
zeroed = record { key = 0; stay = false; param_arity = 0; arity = 0; target = 0 }

-- A module, the jump table of the function that a program counter is in, and the block instructions.
module _ (m : Code) (jumps_of : ℕ → List Jump) (is_block : ℕ → Bool) where
  -- The entry is one of an exit that succeeds.
  pub record IsExit (cache : JumpCache) : Type 0 where
    pub blockpc : ℕ
    pub goto_else : Bool
    pub exit : Exit
    pub block : is_block blockpc ≡ true
    pub same_key : key_of blockpc goto_else ≡ cache.key
    pub exits : block_exit m (jumps_of blockpc) blockpc goto_else ≡ ok exit
    pub entry : cache ≡ cache_entry cache.key exit

  pub record IsCoherent (caches : List JumpCache) : Type 0 where
    pub size : length caches ≡ 4
    pub used :
        (i : ℕ) (cache : JumpCache) → get_elem? caches i ≡ some cache → cache.key ≢ 0 → IsExit cache

  -- The zeroed cache is coherent.
  pub empty_cache-IsCoherent : IsCoherent empty_cache
  empty_cache-IsCoherent = record {
    size = refl;
    used = λ i cache there nonzero.
        absurd (nonzero (ap (λ (c : JumpCache). c.key) (get_elem?-replicate 4 zeroed i there)));
  }

  key_unique :
      (h : IsLaidOut is_block) (pc pc' : ℕ) (goto_else goto_else' : Bool)
      → is_block pc ≡ true
      → is_block pc' ≡ true
      → key_of pc goto_else ≡ key_of pc' goto_else'
      → (pc ≡ pc') × (goto_else ≡ goto_else')
  key_unique h pc pc' false false b b' e = (omega (arith, h.fits pc b, h.fits pc' b'), refl)
  key_unique h pc pc' true true b b' e = (omega (arith, h.fits pc b, h.fits pc' b'), refl)
  key_unique h pc pc' false true b b' e =
      let next : pc ≡ pc' + 1 = omega (arith, h.fits pc b, h.fits pc' b') in
      absurd (cc (h.apart pc' b', next, b))
  key_unique h pc pc' true false b b' e =
      let next : pc' ≡ pc + 1 = omega (arith, h.fits pc b, h.fits pc' b') in
      absurd (cc (h.apart pc b, next, b'))

  key_positive :
      (h : IsLaidOut is_block) (pc : ℕ) (goto_else : Bool)
      → is_block pc ≡ true
      → key_of pc goto_else ≢ 0
  key_positive h pc false b = omega (arith, h.fits pc b, h.behind_magic pc b)
  key_positive h pc true b = omega (arith, h.fits pc b, h.behind_magic pc b)

  -- An entry with the key of an exit is that exit.
  hit_exit :
      (h : IsLaidOut is_block) (cache : JumpCache) (blockpc : ℕ) (goto_else : Bool) (exit : Exit)
      → IsExit cache
      → is_block blockpc ≡ true
      → cache.key ≡ key_of blockpc goto_else
      → block_exit m (jumps_of blockpc) blockpc goto_else ≡ ok exit
      → exit_of cache ≡ ok exit
  hit_exit h cache blockpc goto_else exit was block same e =
      let (pc, goto) =
        key_unique h was.blockpc blockpc was.goto_else goto_else was.block block
          (was.same_key ∙ same) in
      let again : block_exit m (jumps_of blockpc) blockpc goto_else ≡ ok was.exit =
        subst (λ pc. block_exit m (jumps_of pc) pc goto_else ≡ ok was.exit) pc
          (subst (λ goto. block_exit m (jumps_of was.blockpc) was.blockpc goto ≡ ok was.exit) goto
            was.exits) in
      ap exit_of was.entry ∙ exit_of-cache_entry cache.key was.exit ∙ sym again ∙ e

  cache_entry-key : (key : ℕ) (exit : Exit) → (cache_entry key exit).key ≡ key
  cache_entry-key key (stay_in_block p) = refl
  cache_entry-key key (leave p param_arity arity) = refl

  set-IsCoherent :
      (caches : List JumpCache) (blockpc : ℕ) (goto_else : Bool) (exit : Exit)
      → IsCoherent caches
      → is_block blockpc ≡ true
      → block_exit m (jumps_of blockpc) blockpc goto_else ≡ ok exit
      → (let key = key_of blockpc goto_else in
          IsCoherent (set caches (key % 4) (cache_entry key exit)))
  set-IsCoherent caches blockpc goto_else exit h block e =
      let key = key_of blockpc goto_else in
      let new = cache_entry key exit in
      record {
        size = length-set caches (key % 4) new ∙ h.size;
        used = λ i cache there nonzero. elim (same_or_not (key % 4) i) [
          | inl same ↦
              let is_new : cache ≡ new = some_inj (
                sym there
                ∙ ap (get_elem? (set caches (key % 4) new)) (sym same)
                ∙ get_elem?-set_self caches (key % 4) new (omega (arith, h.size))) in
              subst IsExit (sym is_new) (record {
                blockpc = blockpc;
                goto_else = goto_else;
                exit = exit;
                block = block;
                same_key = sym (cache_entry-key key exit);
                exits = e;
                entry = ap (λ k. cache_entry k exit) (sym (cache_entry-key key exit));
              })
          | inr other ↦
              h.used i cache (sym (get_elem?-set_ne caches (key % 4) i new other) ∙ there) nonzero
        ];
      }

  -- What the cached exit should give for an exit `exit`.
  abbrev pub Caches : Result (Exit × List JumpCache) → Exit → Type 0
  Caches r exit = (caches' : List JumpCache) × (r ≡ ok (exit, caches')) × IsCoherent caches'

  -- With a coherent cache, the cached exit from a block instruction goes where the exit itself goes,
  -- with the same arities, and leaves the cache coherent; no assertion fails.
  pub cached_block_exit-coherent :
      (caches : List JumpCache) (blockpc : ℕ) (goto_else : Bool) (exit : Exit)
      → IsLaidOut is_block
      → IsCoherent caches
      → is_block blockpc ≡ true
      → block_exit m (jumps_of blockpc) blockpc goto_else ≡ ok exit
      → Caches (cached_block_exit m (jumps_of blockpc) caches blockpc goto_else) exit
  unfolding cached_block_exit jump_cache2_lookup
  cached_block_exit-coherent caches blockpc goto_else exit layout h block e =
      let key = key_of blockpc goto_else in
      let (cache, at) = get_elem?-some caches (key % 4) (omega (arith, h.size)) in
      elim (same_or_not cache.key key) [
        | inl same ↦
            let was =
              h.used (key % 4) cache at
                (subst (λ k. k ≢ 0) (sym same) (key_positive layout blockpc goto_else block)) in
            (
              caches,
              rw
                  (
                    at,
                    with_same cache key same,
                    hit_exit layout cache blockpc goto_else exit was block same e,
                  )
                  refl,
              h,
            )
        | inr other ↦ (
          set caches (key % 4) (cache_entry key exit),
          rw
              (
                at,
                with_other cache key other,
                e,
                jump_cache2_store-ok caches cache blockpc goto_else exit at other,
              )
              refl,
          set-IsCoherent caches blockpc goto_else exit h block e,
        )
      ]
    where
      with_same : (cache : JumpCache) (key : ℕ) → cache.key ≡ key → with_key key cache ≡ some cache
      with_same cache key same = ground (arith, same)

      with_other : (cache : JumpCache) (key : ℕ) → cache.key ≢ key → with_key key cache ≡ none
      with_other cache key other = ground (arith, other)
