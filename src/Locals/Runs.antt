-- ===== src/Locals/Runs.antt =====
-- The part of the index that a chunk of locals makes.
use toywasm.Base.{ℕ, zero, suc, ◌+◌, ◌-◌, ◌*◌, ◌^◌, ◌≤◌, ◌≡◌, refl, sym, subst, arith}
use toywasm.Base.{List, ◌∷◌, get_elem?, Option, none, some}
use toywasm.Base.{lt_or_le, inl, inr}
use toywasm.Locals.{index_run}
use mathlib.Core.Option

-- What is known of the index after a chunk of `n` locals of `csz` cells at `off`.
pub record IsRun (n csz off : ℕ) (rest : ℕ → Option (List ℕ)) (is : List ℕ) : Type 0 where
  pub later : List ℕ
  pub rest_later : rest (off + n * csz) ≡ some later
  pub fits : off + n * csz ≤ 2 ^ 16 - 1
  pub at_chunk : (i : ℕ) → i ≤ n → get_elem? (off ∷ is) i ≡ some (off + i * csz)
  pub behind : (j : ℕ) → get_elem? (off ∷ is) (n + j) ≡ get_elem? ((off + n * csz) ∷ later) j

pub Option-map-some :
    (a : ℕ) (o : Option (List ℕ)) (is : List ℕ)
    → Option.map (λ js. a ∷ js) o ≡ some is
    → (js : List ℕ) × (o ≡ some js) × (is ≡ a ∷ js)
Option-map-some a none is e = absurd (cc)
Option-map-some a (some js) is e = (js, refl, cc)

IsRun-suc :
    (n csz off : ℕ) (rest : ℕ → Option (List ℕ)) (js : List ℕ)
    → IsRun n csz (off + csz) rest js
    → IsRun (suc n) csz off rest ((off + csz) ∷ js)
IsRun-suc n csz off rest js run = record {
  later = run.later;
  rest_later = subst (λ at. rest at ≡ some run.later) end run.rest_later;
  fits = omega (arith, run.fits, end);
  at_chunk = at;
  behind = λ j. let s : suc n + j ≡ suc (n + j) = omega arith in rw (s, sym end) (run.behind j);
}
  where
    end : off + csz + n * csz ≡ off + suc n * csz
    end = omega arith

    at : (i : ℕ) → i ≤ suc n → get_elem? (off ∷ (off + csz) ∷ js) i ≡ some (off + i * csz)
    at zero le = let z : off + 0 * csz ≡ off = omega arith in rw z refl
    at (suc i) le =
        let z : off + suc i * csz ≡ off + csz + i * csz = omega arith in
        rw z (run.at_chunk i (omega arith))

pub index_run-IsRun :
    (n csz off : ℕ) (rest : ℕ → Option (List ℕ)) (is : List ℕ)
    → off ≤ 2 ^ 16 - 1
    → index_run n csz off rest ≡ some is
    → IsRun n csz off rest is
unfolding index_run
index_run-IsRun zero csz off rest is h e = record {
  later = is;
  rest_later = rw at_start e;
  fits = omega arith;
  at_chunk = λ i le. here i (omega arith);
  behind = λ j. let z : 0 + j ≡ j = omega arith in rw (z, at_start) refl;
}
  where
    at_start : off + 0 * csz ≡ off
    at_start = omega arith

    here : (i : ℕ) → i ≡ 0 → get_elem? (off ∷ is) i ≡ some (off + i * csz)
    here zero e = rw at_start refl
    here (suc i) e = absurd (omega arith)
index_run-IsRun (suc n) csz off rest is h e = elim (lt_or_le (2 ^ 16 - 1 - off) csz) [
  | inl over ↦ ground (arith, over)
  | inr room ↦
      let (js, more, split) =
        Option-map-some (off + csz) (index_run n csz (off + csz) rest) is (ground (arith, room)) in
      subst (IsRun (suc n) csz off rest) (sym split)
        (IsRun-suc n csz off rest js (index_run-IsRun n csz (off + csz) rest js (omega arith) more))
]
