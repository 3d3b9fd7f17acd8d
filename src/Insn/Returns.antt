-- ===== src/Insn/Returns.antt =====
-- What the operations of the context return, in a form that follows the steps of an instruction.
use toywasm.Base.{ℕ, ◌≡◌, refl, subst, Bool, true, false, ◌||◌}
use toywasm.Base.{All, none, some, Option, if◌then◌else◌}
use toywasm.Base.{◌==◌, Result, ok, err, einval, ◌>>=◌, >>=-eq-ok, assert, check}
use toywasm.Base.{◌+◌, ◌<◌, ◌^◌}
use toywasm.Types.{Valtype, Resulttype, Functype, resulttype_cellsize}
use toywasm.Validation.Bounds.{Fits, push_ctrlframe_few}
use toywasm.Validation.FramesWf.{Left}
use toywasm.Validation.{CtrlframeOp, Context}
use toywasm.Validation.{
  push_valtype, pop_valtype, push_valtypes, pop_valtypes, peek_valtypes, is_else_op,
}
use toywasm.Validation.{push_ctrlframe, pop_ctrlframe, mark_unreachable, target_label_types}
use toywasm.Validation.Invariant.{IsValtype, IsWf}
use toywasm.Validation.Wf.{pop_valtypes-IsWf, push_valtypes-IsWf, pop_valtype-IsWf}
use toywasm.Validation.FramesWf.{mark_unreachable-IsWf, push_ctrlframe-IsWf}
use toywasm.Validation.Wf.{MayPushOn, push_value-IsWf, peek_valtypes-IsWf}
use toywasm.Validation.FramesWf.{pop_ctrlframe-IsWf, target_label_types-All}
use toywasm.Insn.{Globaltype, Module}

abbrev pub HasValtypes : Functype → Type 0
HasValtypes ft = All IsValtype ft.parameter × All IsValtype ft.result

abbrev pub GlobalHasValtype : Globaltype → Type 0
GlobalHasValtype g = IsValtype g.t

-- A module whose type, table and global sections have been read.
pub record IsModule (m : Module) : Type 0 where
  pub types : All HasValtypes m.types
  pub functypes : All HasValtypes m.functypes
  pub tables : All IsValtype m.tables
  pub globals : All GlobalHasValtype m.globals

-- What is returned, if anything, satisfies `P`.
pub record Returns {A : Type 0} (P : A → Type 0) (r : Result A) : Type 0 where
  pub run : (a : A) → r ≡ ok a → P a

pub bind :
    {A B : Type 0} {P : A → Type 0} {Q : B → Type 0} {m : Result A} {k : A → Result B}
    → Returns P m
    → ((a : A) → P a → Returns Q (k a))
    → Returns Q (m >>= k)
bind {m} {k} p q = record {
  run = λ b e. let (a, ea, eb) = >>=-eq-ok m k e in (q a (p.run a ea)).run b eb;
}

pub pass : {A : Type 0} {P : A → Type 0} (a : A) → P a → Returns P (ok a)
pass {P} a p = record { run = λ b e. subst P (ok_inj e) p }
  where
    ok_inj : {b : _} → ok a ≡ ok b → a ≡ b
    ok_inj e = cc

pub stop : {A : Type 0} {P : A → Type 0} → Returns P (err einval)
stop = record { run = λ b e. absurd (cc) }

abbrev pub Any : Unit {0} → Type 0
Any _ = Unit {0}

pub test : (b : Bool) → Returns (λ (_ : Unit {0}). b ≡ true) (check b einval)
test true = pass tt refl
test false = stop

pub asserts : (b : Bool) → Returns (λ (_ : Unit {0}). b ≡ true) (assert b)
asserts true = pass tt refl
asserts false = record { run = λ b e. absurd (cc) }

pub branch :
    {A : Type 0} {P : A → Type 0} (b : Bool) {x y : Result A}
    → Returns P x
    → Returns P y
    → Returns P (if b then x else y)
branch true p q = p
branch false p q = q

pub lookup :
    {A B : Type 0} {Q : B → Type 0} (o : Option A) (k : A → Result B)
    → ((a : A) → o ≡ some a → Returns Q (k a))
    → Returns Q (elim o [ none ↦ err einval | some a ↦ k a ])
lookup none k q = stop
lookup (some a) k q = q a refl

-- The operations of the context in this form.
pub pops : (ts : Resulttype) {ctx : Context} → IsWf ctx → Returns IsWf (pop_valtypes ts ctx)
pops ts {ctx} w = record { run = λ c e. (pop_valtypes-IsWf ts ctx c w e).0 }

-- Well-formed, if the stack has fewer than 2^32 cells.
abbrev pub FitsWf : Context → Type 0
FitsWf ctx = Fits ctx → IsWf ctx

-- What needs no such bound.
pub fitting : {r : Result Context} → Returns IsWf r → Returns FitsWf r
fitting p = record { run = λ c e _. p.run c e }

pub pushes :
    (ts : Resulttype) {ctx : Context}
    → IsWf ctx
    → All IsValtype ts
    → Returns FitsWf (push_valtypes ts ctx)
pushes ts {ctx} w a = record { run = λ c e fits. (push_valtypes-IsWf ts ctx c w a e fits).0 }

pub pushes_value :
    (t : Valtype) {ctx : Context} → IsWf ctx → IsValtype t → Returns FitsWf (push_valtype t ctx)
pushes_value t {ctx} w h = record { run = λ c e fits. push_value-IsWf t ctx c w h e fits }

abbrev pub Popped : Context → Valtype × Context → Type 0
Popped ctx (t, ctx') = IsWf ctx' × MayPushOn ctx'.cframes t × (ctx'.cframes ≡ ctx.cframes)

pub pops_value : (x : Valtype) {ctx : Context} → IsWf ctx → Returns (Popped ctx) (pop_valtype x ctx)
pops_value x {ctx} w = record { run = λ (t, c) e. pop_valtype-IsWf x t ctx c w e }

pub marks : {ctx : Context} → IsWf ctx → Returns IsWf (mark_unreachable ctx)
marks {ctx} w = record { run = λ c e. mark_unreachable-IsWf ctx c w e }

pub labels :
    (labelidx : ℕ) {ctx : Context}
    → IsWf ctx
    → Returns (All IsValtype) (target_label_types ctx labelidx)
labels labelidx {ctx} w = record { run = λ rt e. target_label_types-All ctx labelidx rt w e }

pub enters :
    (pc slot : ℕ) (op : CtrlframeOp) (starts ends : Resulttype) {ctx : Context}
    → (is_else_op op || slot == 0) ≡ true
    → IsWf ctx
    → All IsValtype starts
    → All IsValtype ends
    → Returns FitsWf (push_ctrlframe pc op slot starts ends ctx)
enters pc slot op starts ends {ctx} h w a b = record {
  run = λ c e fits.
      push_ctrlframe-IsWf pc op slot starts ends ctx c w a b h e
        (push_ctrlframe_few pc op slot starts ends ctx c w e fits);
}

pub enters_few :
    (pc slot : ℕ) (op : CtrlframeOp) (starts ends : Resulttype) {ctx : Context}
    → (is_else_op op || slot == 0) ≡ true
    → IsWf ctx
    → All IsValtype starts
    → All IsValtype ends
    → ctx.ncells + resulttype_cellsize starts < 2 ^ 32
    → Returns IsWf (push_ctrlframe pc op slot starts ends ctx)
enters_few pc slot op starts ends {ctx} h w a b few = record {
  run = λ c e. push_ctrlframe-IsWf pc op slot starts ends ctx c w a b h e few;
}

pub leaves :
    (pc : ℕ) (is_else : Bool) {ctx : Context}
    → IsWf ctx
    → Returns (Left ctx) (pop_ctrlframe pc is_else ctx)
leaves pc is_else {ctx} w = record { run = λ (f, c) e. pop_ctrlframe-IsWf pc is_else ctx c f w e }

pub peeks : (ts : Resulttype) {ctx : Context} → IsWf ctx → Returns IsWf (peek_valtypes ts ctx)
peeks ts {ctx} w = record { run = λ c e. peek_valtypes-IsWf ts ctx c w e }
