-- ===== src/Insn/Control.antt =====
-- The control instructions keep the context well-formed.
use toywasm.Base.{ℕ, ◌-◌, ◌^◌, ◌≡◌, refl, true, false, not, ◌||◌}
use toywasm.Base.{List, [], ◌∷◌, length, get_elem?, All, Bool-cases, inl, inr, if◌then◌else◌}
use toywasm.Base.{leb, ◌==◌, ok, err, einval}
use toywasm.Base.{◌+◌, ◌<◌, arith}
use toywasm.Types.{resulttype_cellsize}
use toywasm.Types.{Valtype, i32, Resulttype, Functype, is_valtype, valtype_of_code}
use toywasm.Validation.{CtrlframeOp, if_, else_, Ctrlframe, Context, is_if, is_invoke}
use toywasm.Validation.{is_else_op}
use toywasm.Insn.{validate_if}
use toywasm.Validation.Invariant.{IsValtype, IsWf}
use toywasm.Validation.FramesWf.{HasTypes}
use toywasm.Validation.FramesWf.{All-get_elem?}
use toywasm.Insn.{Module, functype_of_byte, get_functype, get_functype_for_blocktype, enter_block}
use toywasm.Insn.{validate_else, close_if, validate_end, validate_br, validate_br_if, check_labels}
use toywasm.Insn.{
  validate_br_table, validate_return, apply_functype, validate_call, validate_call_indirect,
}
use toywasm.Insn.Returns.{HasValtypes, IsModule, Returns, bind, pass, stop}
use toywasm.Insn.Returns.{test, asserts, branch, lookup, pops, pushes, pops_value}
use toywasm.Insn.Returns.{marks, labels, enters, enters_few, leaves, peeks, FitsWf, fitting}

-- A frame that is closed, and the context.
abbrev pub Closed : Ctrlframe × Context → Type 0
Closed (f, ctx') = IsWf ctx' × HasTypes f

pub validate_else-IsWf : (pc : ℕ) {ctx : Context} → IsWf ctx → Returns FitsWf (validate_else pc ctx)
unfolding validate_else
validate_else-IsWf pc w =
    bind (leaves pc true w)
      (λ (f, c) (w1, (a, b), _, _). enters (pc - 1) f.jumpslot else_ _ _ refl w1 a b)

pub close_if-IsWf :
    (pc : ℕ) (f : Ctrlframe) {ctx : Context}
    → IsWf ctx
    → HasTypes f
    → ctx.ncells + resulttype_cellsize f.start_types < 2 ^ 32
    → Returns Closed (close_if pc f ctx)
unfolding close_if
close_if-IsWf pc f w (a, b) few = bind (enters_few pc 0 _ _ _ refl w a b few) (λ c w1. record {
  run = λ (g, c1) e. let (w2, h, _, _) = (leaves pc false w1).run (g, c1) e in (w2, h);
})

-- The start types of the last frame fit on the stack once more.
abbrev pub StartsFit : Context → Type 0
StartsFit ctx =
    (f : Ctrlframe) (fs : List Ctrlframe)
    → ctx.cframes ≡ f ∷ fs
    → ctx.ncells + resulttype_cellsize f.start_types < 2 ^ 32

pub validate_end-IsWf :
    (pc : ℕ) {ctx : Context} → IsWf ctx → StartsFit ctx → Returns FitsWf (validate_end pc ctx)
unfolding validate_end
validate_end-IsWf pc w starts = bind (leaves pc false w) (λ (f, c) (w1, h, le, top).
    bind
      (branch (is_if f.op) (close_if-IsWf pc f w1 h (omega (arith, le, starts f c.cframes top)))
        (pass (f, c) (w1, h)))
      (λ (f1, c1) (w2, (a, b)).
        bind (asserts _)
          (λ _ _. branch (is_invoke f1.op) (pass c1 (λ _. w2)) (pushes f1.end_types w2 b))))

pub validate_br-IsWf :
    (labelidx : ℕ) {ctx : Context} → IsWf ctx → Returns IsWf (validate_br labelidx ctx)
unfolding validate_br
validate_br-IsWf labelidx w = bind (labels labelidx w) (λ rt a. bind (pops rt w) (λ c w1. marks w1))

pub validate_br_if-IsWf :
    (labelidx : ℕ) {ctx : Context} → IsWf ctx → Returns FitsWf (validate_br_if labelidx ctx)
unfolding validate_br_if
validate_br_if-IsWf labelidx w = bind (pops_value i32 w) (λ (t, c) (w1, m, same).
    bind (labels labelidx w1) (λ rt a.
      bind {P = λ _. Unit {0}} (record { run = λ _ _. tt })
        (λ (f : Ctrlframe) _.
          branch (not f.unreachable) (fitting (peeks rt w1))
            (bind (pops rt w1) (λ c1 w2. pushes rt w2 a)))))

pub check_labels-IsWf :
    (arity : ℕ) (table : List ℕ) {ctx : Context}
    → IsWf ctx
    → Returns IsWf (check_labels arity table ctx)
unfolding check_labels
check_labels-IsWf arity [] {ctx} w = pass ctx w
check_labels-IsWf arity (idx ∷ table) w =
    bind (labels idx w)
      (λ rt a. bind (test _) (λ _ _. bind (peeks rt w) (λ c w1. check_labels-IsWf arity table w1)))

pub validate_br_table-IsWf :
    (table : List ℕ) (defaultidx : ℕ) {ctx : Context}
    → IsWf ctx
    → Returns IsWf (validate_br_table table defaultidx ctx)
unfolding validate_br_table
validate_br_table-IsWf table defaultidx w = bind (pops_value i32 w) (λ (t, c) (w1, m, same).
    bind (labels defaultidx w1) (λ rt a.
      bind (check_labels-IsWf (length rt) table w1)
        (λ c1 w2. bind (pops rt w2) (λ c2 w3. marks w3))))

pub validate_return-IsWf : {ctx : Context} → IsWf ctx → Returns IsWf (validate_return ctx)
unfolding validate_return
validate_return-IsWf w =
    bind {P = λ _. Unit {0}} (record { run = λ _ _. tt })
      (λ rt _. bind (pops rt w) (λ c w1. marks w1))

pub apply_functype-IsWf :
    (ft : Functype) {ctx : Context}
    → IsWf ctx
    → HasValtypes ft
    → Returns FitsWf (apply_functype ft ctx)
unfolding apply_functype
apply_functype-IsWf ft w (a, b) = bind (pops ft.parameter w) (λ c w1. pushes ft.result w1 b)

pub validate_call-IsWf :
    (m : Module) (funcidx : ℕ) {ctx : Context}
    → IsModule m
    → IsWf ctx
    → Returns FitsWf (validate_call m funcidx ctx)
unfolding validate_call
validate_call-IsWf m funcidx h w = lookup (get_elem? m.functypes funcidx) _ (λ ft e.
    apply_functype-IsWf ft w (All-get_elem? HasValtypes m.functypes funcidx ft h.functypes e))

pub validate_call_indirect-IsWf :
    (m : Module) (typeidx tableidx : ℕ) {ctx : Context}
    → IsModule m
    → IsWf ctx
    → Returns FitsWf (validate_call_indirect m typeidx tableidx ctx)
unfolding validate_call_indirect
validate_call_indirect-IsWf m typeidx tableidx h w = lookup (get_elem? m.tables tableidx) _ (λ et _.
    lookup (get_elem? m.types typeidx) _ (λ ft e. bind (pops_value i32 w) (λ (t, c) (w1, _, _).
      bind (test _) (λ _ _.
        apply_functype-IsWf ft w1 (All-get_elem? HasValtypes m.types typeidx ft h.types e)))))

-- The types of a block.
abbrev pub BothValtypes : Resulttype × Resulttype → Type 0
BothValtypes (p, r) = All IsValtype p × All IsValtype r

pub of_valtype :
    (t : Valtype) → Returns BothValtypes (if is_valtype t then ok ([], t ∷ []) else err einval)
of_valtype t = elim (Bool-cases (is_valtype t)) [
  | inl is ↦ rw is (pass ([], t ∷ []) (tt, (is, tt)))
  | inr not_one ↦ rw not_one stop
]

pub functype_of_byte-BothValtypes :
    (u8 blocktype : ℕ) → Returns BothValtypes (functype_of_byte u8 blocktype)
unfolding functype_of_byte
functype_of_byte-BothValtypes u8 blocktype =
    bind (test _)
      (λ _ _. branch (u8 == 0x40) (pass ([], []) (tt, tt)) (of_valtype (valtype_of_code u8)))

pub get_functype-BothValtypes :
    (m : Module) (typeidx : ℕ) → IsModule m → Returns BothValtypes (get_functype m typeidx)
unfolding get_functype
get_functype-BothValtypes m typeidx h = lookup (get_elem? m.types typeidx) _ (λ ft e.
    pass (ft.parameter, ft.result) (All-get_elem? HasValtypes m.types typeidx ft h.types e))

pub get_functype_for_blocktype-BothValtypes :
    (m : Module) (blocktype : ℕ)
    → IsModule m
    → Returns BothValtypes (get_functype_for_blocktype m blocktype)
unfolding get_functype_for_blocktype
get_functype_for_blocktype-BothValtypes m blocktype h =
    branch (leb (2 ^ 63) blocktype) (functype_of_byte-BothValtypes _ blocktype)
      (bind (asserts _) (λ _ _. get_functype-BothValtypes m blocktype h))

pub enter_block-IsWf :
    (m : Module) (pc : ℕ) (op : CtrlframeOp) (blocktype : ℕ) {ctx : Context}
    → IsModule m
    → IsWf ctx
    → (is_else_op op || 0 == 0) ≡ true
    → Returns FitsWf (enter_block m pc op blocktype ctx)
unfolding enter_block
enter_block-IsWf m pc op blocktype h w e =
    bind (get_functype_for_blocktype-BothValtypes m blocktype h)
      (λ (p, r) (a, b). bind (pops p w) (λ c w1. enters (pc - 1) 0 op p r e w1 a b))

pub validate_if-IsWf :
    (m : Module) (pc blocktype : ℕ) {ctx : Context}
    → IsModule m
    → IsWf ctx
    → Returns FitsWf (validate_if m pc blocktype ctx)
unfolding validate_if
validate_if-IsWf m pc blocktype h w =
    bind (pops_value i32 w) (λ (t, c) (w1, _, _). enter_block-IsWf m pc if_ blocktype h w1 refl)
