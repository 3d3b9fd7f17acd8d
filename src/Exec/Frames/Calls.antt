-- ===== src/Exec/Frames/Calls.antt =====
-- A call of a function and the return from it.
use toywasm.Base.{
  ℕ, ◌+◌, ◌-◌, ◌≡◌, refl, sym, ap, ◌∙◌, subst, arith, List, ◌∷◌, ◌++◌, length, get_elem?,
}
use toywasm.Base.{Bool, true, false, some, ok, leb, ◌==◌}
use toywasm.Base.{==_self, length-append, take-append, ◌||◌}
use toywasm.Types.{resulttype_cellsize}
use toywasm.Exec.Blocks.{JumpCache}
use toywasm.Exec.Frames.{Label, Funcframe, Func, Store, Current, ExecContext}
use toywasm.Exec.Frames.{frame_exit, do_wasm_call, rewind_stack, do_branch}
use toywasm.Exec.Frames.Rewind.{rewind_stack-eq}
use toywasm.Exec.Frames.Enter.{
  IsRunning, caches_for, set_current_frame-ok, IsCall, callee_frame, callee, do_wasm_call-callee,
}

-- Leaving the frame of a called function: the labels and the locals of the frame go, and the caller's
-- instance, function and program counter are back.
frame_exit-ok :
    (store : Store) (frame caller : Funcframe) (rest : List Funcframe) (func : Func)
    (current : Current) (labels more : List Label) (locals own : List ℕ) (ctx : ExecContext)
    (new : ℕ)
    → (h : IsRunning store caller func current)
    → get_elem? store.module_of frame.instance_idx ≡ some new
    → ctx.current.instance_idx ≡ frame.instance_idx
    → ctx.current.current_locals ≡ frame.localidx
    → frame.labelidx ≡ length labels
    → frame.localidx ≡ length locals
    → frame_exit store (record ctx {
      frames = frame ∷ caller ∷ rest;
      labels = labels ++ more;
      locals = locals ++ own;
    })
      ≡ ok (
        frame,
        record ctx {
          frames = caller ∷ rest;
          labels = labels;
          locals = locals;
          current = current;
          p = frame.callerpc;
          caches = caches_for new h.module_idx ctx.caches;
        },
      )
unfolding frame_exit
frame_exit-ok store frame caller rest func current labels more locals own ctx new h n i l la lo =
    let left : ExecContext = record ctx {
      frames = caller ∷ rest;
      labels = labels ++ more;
      locals = locals ++ own;
    } in
    let here : get_elem? store.module_of ctx.current.instance_idx ≡ some new = rw i n in
    let set =
      set_current_frame-ok store caller func left new h.module_idx here h.instance h.found
        h.results in
    rw (set, i, l, ==_self frame.instance_idx, ==_self frame.localidx, la, lo)
      (rw (enough_labels, enough_locals, take-append labels more, take-append locals own, h.same)
        refl)
  where
    enough_labels : leb (length labels) (length (labels ++ more)) ≡ true
    enough_labels = ground (arith, length-append labels more)

    enough_locals : leb (length locals) (length (locals ++ own)) ≡ true
    enough_locals = ground (arith, length-append locals own)

ok_inj : {A : Type 0} {a b : A} → ok a ≡ ok b → a ≡ b
ok_inj e = cc

-- A branch out of all labels of the frame is the return.
do_branch_return :
    (store : Store) (ctx left : ExecContext) (frame : Funcframe) (rest : List Funcframe)
    (labelidx : ℕ) (stack : List ℕ)
    → frame.labelidx + labelidx ≡ length ctx.labels
    → frame_exit store (record ctx { frames = frame ∷ rest }) ≡ ok (frame, left)
    → rewind_stack frame.height frame.nresults left.stack ≡ ok stack
    → do_branch store labelidx false (record ctx { frames = frame ∷ rest })
      ≡ ok (record left { stack = stack })
unfolding do_branch
do_branch_return store ctx left frame rest labelidx stack l exit rewound =
    rw (exit, either (labelidx == 0), enough, within, out, rewound) refl
  where
    either : (b : Bool) → (b || true) ≡ true
    either true = refl
    either false = refl

    enough : leb frame.labelidx (length ctx.labels) ≡ true
    enough = ground (arith, l)

    within : leb labelidx (length ctx.labels - frame.labelidx) ≡ true
    within = ground (arith, l)

    out : (length ctx.labels - labelidx == frame.labelidx) ≡ true
    out = ground (arith, l)

-- A call of a function, for which there is room, and, after its body, the branch out of it that returns: the results are on the
-- caller's stack in place of the arguments, and the caller's frames, labels, locals, current function
-- and program counter are as they were before the call. The body may have left labels, any locals of its own
-- and values below the results, and have changed the program counter and the cached exits.
pub do_wasm_call-do_branch :
    (store : Store) (instance_idx funcidx : ℕ) (func caller_func : Func) (nlocals : ℕ)
    (base params : List ℕ) (ctx entered : ExecContext) (caller : Funcframe) (rest : List Funcframe)
    (more : List Label) (own extra results : List ℕ) (p : ℕ) (caches : List JumpCache)
    → IsCall store instance_idx funcidx func nlocals base params ctx
    → ctx.frames ≡ caller ∷ rest
    → IsRunning store caller caller_func ctx.current
    → do_wasm_call store instance_idx funcidx ctx ≡ ok entered
    → length results ≡ resulttype_cellsize func.type.result
    → (caches' : List JumpCache) × (do_branch store (length more) false (record entered {
      labels = entered.labels ++ more;
      locals = ctx.locals ++ own;
      stack = entered.stack ++ extra ++ results;
      p = p;
      caches = caches;
    })
        ≡ ok (record ctx { stack = base ++ results; caches = caches' }))
do_wasm_call-do_branch store instance_idx funcidx func caller_func nlocals base params ctx entered
      caller rest more own extra results p caches h f running called arity =
    let left_by : entered ≡ started = ok_inj (
      sym called
      ∙ do_wasm_call-callee store instance_idx funcidx func nlocals base params ctx
          running.module_idx h here) in
    let exit =
      frame_exit-ok store frame caller rest caller_func ctx.current ctx.labels more ctx.locals own
        ended h.module_idx running h.instance refl refl refl refl in
    let rewound : rewind_stack (length base) (resulttype_cellsize func.type.result)
          (base ++ extra ++ results)
        ≡ ok (base ++ results) =
      rw (sym arity) (rewind_stack-eq base extra results) in
    let branched =
      do_branch_return store ended left frame (caller ∷ rest) (length more) (base ++ results)
        (sym (length-append ctx.labels more)) exit rewound in
    subst
      (λ (start : ExecContext).
        (caches' : List JumpCache) × (do_branch store (length more) false (record start {
          labels = start.labels ++ more;
          locals = ctx.locals ++ own;
          stack = start.stack ++ extra ++ results;
          p = p;
          caches = caches;
        })
          ≡ ok (record ctx { stack = base ++ results; caches = caches' })))
      (sym left_by)
      (
        caches_for h.module_idx running.module_idx caches,
        subst
            (λ fs.
              do_branch store (length more) false (record ended { frames = frame ∷ fs })
              ≡ ok (record back { frames = fs }))
            (sym f)
            (branched ∙ ap (λ pc. ok (record back { frames = caller ∷ rest; p = pc })) callerpc),
      )
  where
    frame : Funcframe
    frame = callee_frame instance_idx funcidx func base ctx

    started : ExecContext
    started =
        callee instance_idx funcidx func nlocals base params
          (caches_for running.module_idx h.module_idx ctx.caches) ctx

    ended : ExecContext
    ended = record started {
      labels = ctx.labels ++ more;
      locals = ctx.locals ++ own;
      stack = base ++ extra ++ results;
      p = p;
      caches = caches;
    }

    back : ExecContext
    back = record ctx {
      stack = base ++ results;
      caches = caches_for h.module_idx running.module_idx caches;
    }

    left : ExecContext
    left = record ctx {
      frames = caller ∷ rest;
      stack = base ++ extra ++ results;
      p = frame.callerpc;
      caches = caches_for h.module_idx running.module_idx caches;
    }

    here : get_elem? store.module_of ctx.current.instance_idx ≡ some running.module_idx
    here =
        ap (λ (c : Current). get_elem? store.module_of c.instance_idx) running.same
        ∙ running.instance

    callerpc : frame.callerpc ≡ ctx.p
    callerpc = rw f (ground arith)
