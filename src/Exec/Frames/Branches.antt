-- ===== src/Exec/Frames/Branches.antt =====
-- A branch to a label of the current function.
use toywasm.Base.{
  ℕ, ◌+◌, ◌-◌, ◌≤◌, ◌≡◌, refl, sym, ap, ◌∙◌, subst, arith, List, ◌∷◌, ◌++◌, length, get_elem?, take,
}
use toywasm.Base.{Bool, true, false, Option, none, some, ok, leb, ◌==◌, not, ◌||◌}
use toywasm.Base.{length-append, take-append, get_elem?-append_right, ◌⊎◌, inl, inr}
use toywasm.Validation.{Jump}
use toywasm.Exec.Blocks.{Code, stay_in_block, leave, JumpCache, block_exit, cached_block_exit}
use toywasm.Exec.Blocks.Cache.{IsLaidOut, IsCoherent, cached_block_exit-coherent}
use toywasm.Exec.Frames.{
  Label, Funcframe, Store, ExecContext, code_of, branch_to_label, do_branch, rewind_stack,
}
use toywasm.Exec.Frames.Rewind.{rewind_stack-eq}

-- The label of a branch: `inner` are the labels in it, `below` those around it.
module _ (store : Store) (code : Code) (ctx : ExecContext) (frame : Funcframe)
    (rest : List Funcframe) (below inner : List Label) (l : Label)
    (frames : ctx.frames ≡ frame ∷ rest) (labels : ctx.labels ≡ below ++ l ∷ inner)
    (outer : frame.labelidx ≤ length below)
    (runs : code_of store ctx.current.instance_idx ≡ ok code) where
  len : length ctx.labels ≡ length below + 1 + length inner
  len = ap length labels ∙ omega (arith, length-append below (l ∷ inner))

  at_label : get_elem? ctx.labels (length ctx.labels - length inner - 1) ≡ some l
  at_label =
      let i : length ctx.labels - length inner - 1 ≡ length below + 0 = omega (arith, len) in
      rw (i, labels) (get_elem?-append_right below (l ∷ inner) 0)

  kept : take (length ctx.labels - (length inner + 1)) ctx.labels ≡ below
  kept =
      let n : length ctx.labels - (length inner + 1) ≡ length below = omega (arith, len) in
      rw (n, labels) (take-append below (l ∷ inner))

  branch_to_label-leave :
      (goto_else : Bool) (p param_arity arity : ℕ) (caches : List JumpCache)
      → param_arity ≤ l.height
      → cached_block_exit code ctx.current.ei.jumps ctx.caches l.pc goto_else
        ≡ ok (leave p param_arity arity, caches)
      → branch_to_label store (length inner) goto_else ctx
        ≡ ok (
          some (l.height - param_arity, arity),
          record ctx { p = p; caches = caches; labels = below },
        )
  unfolding branch_to_label
  branch_to_label-leave goto_else p param_arity arity caches le e =
      rw (at_label, runs, e, enough, kept) refl
    where
      enough : leb param_arity l.height ≡ true
      enough = ground (arith, le)

  branch_to_label-stay :
      (goto_else : Bool) (p : ℕ) (caches : List JumpCache)
      → cached_block_exit code ctx.current.ei.jumps ctx.caches l.pc goto_else
        ≡ ok (stay_in_block p, caches)
      → branch_to_label store (length inner) goto_else ctx
        ≡ ok (none, record ctx { p = p; caches = caches })
  unfolding branch_to_label
  branch_to_label-stay goto_else p caches e = rw (at_label, runs, e) refl

  -- What do_branch makes of it.
  abbrev Goes : (goto_else : Bool) → Option (ℕ × ℕ) → ExecContext → Type 0
  Goes goto_else none ctx' = do_branch store (length inner) goto_else ctx ≡ ok ctx'
  Goes goto_else (some (height, arity)) ctx' =
      (stack : List ℕ)
      → rewind_stack height arity ctx'.stack ≡ ok stack
      → do_branch store (length inner) goto_else ctx ≡ ok (record ctx' { stack = stack })

  do_branch-Goes :
      (goto_else : Bool) (target : Option (ℕ × ℕ)) (ctx' : ExecContext)
      → (length inner ≡ 0) ⊎ (goto_else ≡ false)
      → branch_to_label store (length inner) goto_else ctx ≡ ok (target, ctx')
      → Goes goto_else target ctx'
  unfolding do_branch
  do_branch-Goes goto_else target ctx' h e = by_target target (
      subst
        (λ fs.
          branch_to_label store (length inner) goto_else (record ctx { frames = fs })
          ≡ ok (target, ctx'))
        frames e)
    where
      in_frame :
          do_branch store (length inner) goto_else ctx
          ≡ do_branch store (length inner) goto_else (record ctx { frames = frame ∷ rest })
      in_frame =
          ap (λ fs. do_branch store (length inner) goto_else (record ctx { frames = fs })) frames

      only_if :
          (length inner ≡ 0) ⊎ (goto_else ≡ false) → ((length inner == 0) || not goto_else) ≡ true
      only_if (inl e) = rw e refl
      only_if (inr e) = rw e (by_bool (length inner == 0))
        where
          by_bool : (b : Bool) → (b || true) ≡ true
          by_bool true = refl
          by_bool false = refl

      enough : leb frame.labelidx (length ctx.labels) ≡ true
      enough = ground (arith, len, outer)

      within : leb (length inner) (length ctx.labels - frame.labelidx) ≡ true
      within = ground (arith, len, outer)

      out : (length ctx.labels - length inner == frame.labelidx) ≡ false
      out = ground (arith, len, outer)

      by_target :
          (target : Option (ℕ × ℕ))
          → branch_to_label store (length inner) goto_else (record ctx { frames = frame ∷ rest })
            ≡ ok (target, ctx')
          → Goes goto_else target ctx'
      by_target none e = in_frame ∙ rw (only_if h, enough, within, out, e) refl
      by_target (some (height, arity)) e =
          λ stack rewound. in_frame ∙ rw (only_if h, enough, within, out, e, rewound) refl

  module _ (jumps_of : ℕ → List Jump) (is_block : ℕ → Bool) (layout : IsLaidOut is_block)
      (coherent : IsCoherent code jumps_of is_block ctx.caches) (block : is_block l.pc ≡ true)
      (table : ctx.current.ei.jumps ≡ jumps_of l.pc) where
    -- A branch to a label of the current function, with a coherent cache of exits: execution goes on where
    -- the exit from the label's block goes; the labels in it and itself are gone; on the stack the
    -- results of the branch are all that is left above the values below the parameters of the block;
    -- the frames and the locals stay, the cache stays coherent, and no assertion fails.
    pub do_branch-leave :
        (goto_else : Bool) (p param_arity : ℕ) (base extra results : List ℕ)
        → (length inner ≡ 0) ⊎ (goto_else ≡ false)
        → block_exit code (jumps_of l.pc) l.pc goto_else ≡ ok (leave p param_arity (length results))
        → ctx.stack ≡ base ++ extra ++ results
        → l.height ≡ length base + param_arity
        → (caches : List JumpCache) × (do_branch store (length inner) goto_else ctx
            ≡ ok (record ctx { p = p; labels = below; stack = base ++ results; caches = caches }))
          × IsCoherent code jumps_of is_block caches
    do_branch-leave goto_else p param_arity base extra results only exits stack height =
        let (caches, e, h) =
          cached_block_exit-coherent code jumps_of is_block ctx.caches l.pc goto_else
            (leave p param_arity (length results)) layout coherent block exits in
        let cached =
          subst
            (λ jumps.
              cached_block_exit code jumps ctx.caches l.pc goto_else
              ≡ ok (leave p param_arity (length results), caches))
            (sym table) e in
        let left : l.height - param_arity ≡ length base = omega (arith, height) in
        let rewound : rewind_stack (l.height - param_arity) (length results) ctx.stack
            ≡ ok (base ++ results) =
          rw (left, stack) (rewind_stack-eq base extra results) in
        (
          caches,
          do_branch-Goes goto_else (some (l.height - param_arity, length results))
              (record ctx { p = p; caches = caches; labels = below }) only
              (branch_to_label-leave goto_else p param_arity (length results) caches
                (omega (arith, height)) cached)
              (base ++ results) rewound,
          h,
        )

    -- The branch of an `if` whose condition is false to its `else` changes nothing but the program counter
    -- and the cache, which stays coherent.
    pub do_branch-stay :
        (goto_else : Bool) (p : ℕ)
        → (length inner ≡ 0) ⊎ (goto_else ≡ false)
        → block_exit code (jumps_of l.pc) l.pc goto_else ≡ ok (stay_in_block p)
        → (caches : List JumpCache) × (do_branch store (length inner) goto_else ctx
            ≡ ok (record ctx { p = p; caches = caches }))
          × IsCoherent code jumps_of is_block caches
    do_branch-stay goto_else p only exits =
        let (caches, e, h) =
          cached_block_exit-coherent code jumps_of is_block ctx.caches l.pc goto_else
            (stay_in_block p) layout coherent block exits in
        let cached =
          subst
            (λ jumps.
              cached_block_exit code jumps ctx.caches l.pc goto_else ≡ ok (stay_in_block p, caches))
            (sym table) e in
        (
          caches,
          do_branch-Goes goto_else none (record ctx { p = p; caches = caches }) only
              (branch_to_label-stay goto_else p caches cached),
          h,
        )
