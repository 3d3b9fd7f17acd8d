-- ===== src/Validation/Wf.antt =====
-- The operations of the context keep it well-formed, seen from outside: whatever they return.
use toywasm.Base.{ℕ, ◌≡◌, refl, ap, ◌∙◌, subst, arith, Bool, true, false}
use toywasm.Base.{List, [], ◌∷◌, ◌++◌, All, Option, none, some, inl, inr, fault}
use toywasm.Base.{sym, ◌⊎◌, ◌≢◌, if◌then◌else◌, Result, ok, err, einval, ◌>>=◌}
use toywasm.Base.{>>=-eq-ok}
use toywasm.Types.{Valtype, unknown, Resulttype, resulttype_cellsize}
use toywasm.Vec.{prealloc}
use toywasm.Validation.{Ctrlframe, Context, push_valtype, push_valtypes, pop_valtype}
use toywasm.Validation.{pop_valtypes, peek_valtypes, pop_valtype_common, mismatch}
use toywasm.Validation.{current_frame, count_push, push_valtype_common}
use toywasm.Validation.Invariant.{
  IsValtype, MayPush, InFrame, IsSegment, IsWf, InFrame-IsWf, IsWf-InFrame,
}
use toywasm.Validation.Invariant.{at_frame}
use toywasm.Validation.Bounds.{
  Fits, cells_le_stack, prealloc_passed, push_common-valtypes, push_valtypes-cells,
}
use toywasm.Validation.Push.{push_valtypes-InFrame, push_valtype_common-ok, InFrame-count_push}
use toywasm.Validation.Pop.{Leaves, pop_valtypes-Leaves, pop-cons, pop-nil, InFrame-popped, popped}
use toywasm.Base.{length}
use toywasm.Validation.Peek.{Peeks, peek_valtypes-Peeks}

pub MayPush-of_valtype : (u : Bool) (t : Valtype) → IsValtype t → MayPush u t
MayPush-of_valtype true t h = inl h
MayPush-of_valtype false t h = h

pub All-MayPush : (u : Bool) (ts : Resulttype) → All IsValtype ts → All (MayPush u) ts
All-MayPush u [] h = tt
All-MayPush u (t ∷ ts) (h, hs) = (MayPush-of_valtype u t h, All-MayPush u ts hs)

pop_of_Leaves :
    (f : Ctrlframe) (fs : List Ctrlframe) (below : List Valtype) (ctx ctx' : Context)
    (r : Result Context) (left : Option (List Valtype))
    → Leaves f fs below ctx r left
    → r ≡ ok ctx'
    → (seg : List Valtype) × InFrame f fs seg below ctx'
pop_of_Leaves f fs below ctx ctx' r none e e' = absurd (cc)
pop_of_Leaves f fs below ctx ctx' r (some seg) (c, e, h, same) e' =
    (seg, subst (λ (x : Context). InFrame f fs seg below x) (cc) h)

-- Without a frame the stack operations return nothing.
at_no_frame :
    {A : Type 0} (k : Ctrlframe → Result A) (ctx : Context)
    → ctx.cframes ≡ []
    → (current_frame ctx >>= k) ≡ fault
at_no_frame k ctx e = ap (λ (cs : List Ctrlframe). first cs >>= k) e
  where
    first : List Ctrlframe → Result Ctrlframe
    first = elim [ [] ↦ fault | f ∷ fs ↦ ok f ]

-- The last frame, if the operation returned.
pub List-cases : {A : Type 0} (xs : List A) → (xs ≡ []) ⊎ ((y : A) × (ys : List A) × (xs ≡ y ∷ ys))
List-cases [] = inl refl
List-cases (y ∷ ys) = inr (y, ys, refl)

frame_of_ok :
    {A : Type 0} (k : Ctrlframe → Result A) (ctx : Context) (a : A)
    → (current_frame ctx >>= k) ≡ ok a
    → (f : Ctrlframe) × (fs : List Ctrlframe) × (ctx.cframes ≡ f ∷ fs)
frame_of_ok k ctx a e = elim (List-cases ctx.cframes) [
  | inl empty ↦ absurd (cc (at_no_frame k ctx empty))
  | inr last ↦ last
]

-- `pop_valtypes` keeps the context well-formed and its frames.
pub pop_valtypes-IsWf :
    (ts : Resulttype) (ctx ctx' : Context)
    → IsWf ctx
    → pop_valtypes ts ctx ≡ ok ctx'
    → IsWf ctx' × (ctx'.cframes ≡ ctx.cframes)
unfolding pop_valtypes
pop_valtypes-IsWf ts ctx ctx' w e =
    let (f, fs, top) = frame_of_ok _ ctx ctx' e in
    let (seg, below, h) = IsWf-InFrame top w in
    let (seg', h') =
      pop_of_Leaves f fs below ctx ctx' _ _ (pop_valtypes-Leaves f fs below ts seg ctx h) e in
    (InFrame-IsWf h', h'.top ∙ sym top)

pub push_valtypes-IsWf :
    (ts : Resulttype) (ctx ctx' : Context)
    → IsWf ctx
    → All IsValtype ts
    → push_valtypes ts ctx ≡ ok ctx'
    → Fits ctx'
    → IsWf ctx' × (ctx'.cframes ≡ ctx.cframes)
unfolding push_valtypes
push_valtypes-IsWf ts ctx ctx' w a e fits =
    let (_, room, e1) = >>=-eq-ok (prealloc (length ctx.valtypes) (length ts)) _ e in
    let room' = prealloc_passed (length ctx.valtypes) (length ts) tt room in
    let (f, fs, top) = frame_of_ok _ ctx ctx' e1 in
    let (seg, below, h) = IsWf-InFrame top w in
    let le = cells_le_stack ctx.cframes ctx.valtypes ctx.ncells w.stack in
    let (c, e', h') =
      push_valtypes-InFrame ts f fs seg below ctx (All-MayPush f.unreachable ts a)
        (ground (arith, room')) (omega (arith, le, push_valtypes-cells ts ctx ctx' e, fits)) h in
    let same : c ≡ ctx' = cc in
    (
      subst IsWf same (InFrame-IsWf h'),
      subst (λ (x : Context). x.cframes ≡ ctx.cframes) same (h'.top ∙ sym top),
    )

-- What `pop_valtype` returns may be pushed again.
abbrev pub MayPushOn : List Ctrlframe → Valtype → Type 0
MayPushOn [] t = ⊥
MayPushOn (f ∷ fs) t = MayPush f.unreachable t

pop_bottom :
    (u : Bool) (ctx ctx' : Context) (t : Valtype)
    → ◌≡◌ {A = Result (Valtype × Context)}
        (if u then ok (unknown, ctx) else err einval)
        (ok (t, ctx'))
    → MayPush u t × (ctx ≡ ctx')
pop_bottom true ctx ctx' t e = (inr (ground arith), ground arith)
pop_bottom false ctx ctx' t e = absurd (cc)

pop_head :
    (bad : Bool) (c ctx' : Context) (s t : Valtype)
    → ◌≡◌ {A = Result (Valtype × Context)} (if bad then err einval else ok (s, c)) (ok (t, ctx'))
    → (s ≡ t) × (c ≡ ctx')
pop_head true c ctx' s t e = absurd (cc)
pop_head false c ctx' s t e = (ground arith, ground arith)

MayPush-head :
    (u : Bool) (hc : ℕ) (t : Valtype) (seg : List Valtype) (n : ℕ)
    → IsSegment u hc (t ∷ seg) n
    → MayPush u t
MayPush-head true hc t seg n (e, (m, a)) = m
MayPush-head false hc t seg n (e, (m, a)) = m

pop_one :
    (f : Ctrlframe) (fs : List Ctrlframe) (seg below : List Valtype) (ctx ctx' : Context)
    (x t : Valtype)
    → InFrame f fs seg below ctx
    → pop_valtype_common x f ctx ≡ ok (t, ctx')
    → MayPush f.unreachable t × IsWf ctx' × (ctx'.cframes ≡ f ∷ fs)
pop_one f fs [] below ctx ctx' x t h e =
    let (m, same) = pop_bottom f.unreachable ctx ctx' t (sym (pop-nil f fs below ctx x h) ∙ e) in
    (m, subst IsWf same (InFrame-IsWf h), subst (λ (c : Context). c.cframes ≡ f ∷ fs) same h.top)
pop_one f fs (s ∷ seg) below ctx ctx' x t h e =
    let (et, same) =
      pop_head (mismatch x s) (popped s (seg ++ below) f ctx) ctx' s t
        (sym (pop-cons f fs below ctx x s seg h) ∙ e) in
    let h' = InFrame-popped f fs below ctx s seg h in
    (
      subst (MayPush f.unreachable) et
          (MayPush-head f.unreachable f.height_cell s seg ctx.ncells h.segment),
      subst IsWf same (InFrame-IsWf h'),
      subst (λ (c : Context). c.cframes ≡ f ∷ fs) same h'.top,
    )

pub pop_valtype-IsWf :
    (x t : Valtype) (ctx ctx' : Context)
    → IsWf ctx
    → pop_valtype x ctx ≡ ok (t, ctx')
    → IsWf ctx' × MayPushOn ctx'.cframes t × (ctx'.cframes ≡ ctx.cframes)
unfolding pop_valtype
pop_valtype-IsWf x t ctx ctx' w e =
    let (f, fs, top) = frame_of_ok _ ctx (t, ctx') e in
    let (seg, below, h) = IsWf-InFrame top w in
    let (m, w', top') =
      pop_one f fs seg below ctx ctx' x t h
        (sym (at_frame (λ (g : Ctrlframe). pop_valtype_common x g ctx) ctx top) ∙ e) in
    (w', subst (λ (cs : List Ctrlframe). MayPushOn cs t) (sym top') m, top' ∙ sym top)

pub push_valtype-IsWf :
    (t : Valtype) (ctx ctx' : Context)
    → IsWf ctx
    → MayPushOn ctx.cframes t
    → push_valtype t ctx ≡ ok ctx'
    → Fits ctx'
    → IsWf ctx' × (ctx'.cframes ≡ ctx.cframes)
unfolding push_valtype
push_valtype-IsWf t ctx ctx' w m e fits =
    let (_, _, e1) = >>=-eq-ok (prealloc (length ctx.valtypes) 1) _ e in
    let (f, fs, top) = frame_of_ok _ ctx ctx' e1 in
    let (seg, below, h) = IsWf-InFrame top w in
    let m' : MayPush f.unreachable t = subst (λ (cs : List Ctrlframe). MayPushOn cs t) top m in
    let pushed : push_valtype_common t f ctx ≡ ok ctx' =
      sym (at_frame (λ (g : Ctrlframe). push_valtype_common t g ctx) ctx top) ∙ e1 in
    let le = cells_le_stack ctx.cframes ctx.valtypes ctx.ncells w.stack in
    let cells = ap resulttype_cellsize (push_common-valtypes t f ctx ctx' pushed) in
    let h' = InFrame-count_push t m' (omega (arith, le, cells, fits)) h in
    let same : count_push t f ctx ≡ ctx' = cc (pushed, push_valtype_common-ok t f ctx m') in
    (
      subst IsWf same (InFrame-IsWf h'),
      subst (λ (x : Context). x.cframes ≡ ctx.cframes) same (h'.top ∙ sym top),
    )

pub MayPushOn-of_valtype :
    (cs : List Ctrlframe) (t : Valtype) → cs ≢ [] → IsValtype t → MayPushOn cs t
MayPushOn-of_valtype [] t n h = n refl
MayPushOn-of_valtype (f ∷ fs) t n h = MayPush-of_valtype f.unreachable t h

-- `push_valtype` of a value type, and `peek_valtypes`.
pub push_value-IsWf :
    (t : Valtype) (ctx ctx' : Context)
    → IsWf ctx
    → IsValtype t
    → push_valtype t ctx ≡ ok ctx'
    → Fits ctx'
    → IsWf ctx'
unfolding push_valtype
push_value-IsWf t ctx ctx' w h e fits =
    let (_, _, e1) = >>=-eq-ok (prealloc (length ctx.valtypes) 1) _ e in
    let (f, fs, top) = frame_of_ok (λ (f : Ctrlframe). push_valtype_common t f ctx) ctx ctx' e1 in
    let m =
      subst (λ (cs : List Ctrlframe). MayPushOn cs t) (sym top)
        (MayPush-of_valtype f.unreachable t h) in
    (push_valtype-IsWf t ctx ctx' w m e fits).0

pub peek_valtypes-IsWf :
    (ts : Resulttype) (ctx ctx' : Context) → IsWf ctx → peek_valtypes ts ctx ≡ ok ctx' → IsWf ctx'
peek_valtypes-IsWf ts ctx ctx' w e = elim (List-cases ctx.cframes) [
  | inl empty ↦ absurd (cc (peek_no_frame empty))
  | inr (f, fs, top) ↦
      let (seg, below, h) = IsWf-InFrame top w in
      of_Peeks h _ (peek_valtypes-Peeks f fs seg below ctx h ts)
]
  where
    peek_no_frame : ctx.cframes ≡ [] → peek_valtypes ts ctx ≡ fault
    peek_no_frame e = unfold peek_valtypes pop_valtypes in ground arith

    of_Peeks :
        {f : Ctrlframe} {fs : List Ctrlframe} {seg below : List Valtype}
        (h : InFrame f fs seg below ctx) (left : Option (List Valtype))
        → Peeks f fs seg below ctx h ts left
        → IsWf ctx'
    of_Peeks h none p = absurd (cc)
    of_Peeks h (some x) p = subst IsWf (cc) w
