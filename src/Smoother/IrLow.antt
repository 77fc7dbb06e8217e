-- ===== src/Smoother/IrLow.antt =====
-- Scalar/server/src/GraphLine/Smoother/IRLowSmoother.h and IRLowSmoother.cpp.
use mathlib.Core.Path.{ap₂}
use mathlib.Core.List.{append-nil, map-append}
use blue_workspace_build.Base.{
  ℕ, zero, suc, ◌+◌, ◌^◌, ◌≤◌, ◌<◌, ◌≡◌, refl, sym, ap, ◌∙◌, inl, inr, Bool, true, false, not, ◌||◌,
  List, [], ◌∷◌, ◌++◌, arith, leb, if◌then◌else◌, Bool-cases, length, drop, all_of, All,
  length-drop, drop-nil,
}
use blue_workspace_build.Base.Floats.{Floats}
use blue_workspace_build.Concept.{ScalarPoint}
use blue_workspace_build.Smoother.Loop.{count_up, steps}

pub record IrLow (fl : Floats) : Type 0 where
  pub num_accum : ℕ
  pub weight : fl.Float
  pub last : fl.Float

unfoldable pub make_ir : (fl : Floats) → IrLow fl
make_ir fl = record { num_accum = 0; weight = fl.fzero; last = fl.fzero }

-- `1.0 - pow(weight_, numAccum_)`, or 1 if the weight is 1.
unfoldable pub debias : (fl : Floats) → fl.Float → ℕ → fl.Float
debias fl weight n =
    if not (fl.feq weight fl.fone) then fl.fsub fl.fone (fl.fpow weight n) else fl.fone

module _ {fl : Floats} where
  -- Reset.
  unfoldable pub reset_ir : IrLow fl → IrLow fl
  reset_ir s = record s { last = fl.fzero; num_accum = 0 }

  -- SetSampleParam, of the parameter's weight.
  unfoldable pub set_ir_param : fl.Float → IrLow fl → IrLow fl
  unfolding reset_ir
  set_ir_param weight s =
      if not (fl.feq weight s.weight) then record (reset_ir s) { weight = weight } else s

  -- Equal, of two low-pass smoothers.
  unfoldable pub ir_equal : IrLow fl → IrLow fl → Bool
  ir_equal s other = if not (fl.feq other.weight s.weight) then false else true

  -- Whether all values are the first one.
  unfoldable pub is_constant : List (ScalarPoint fl) → Bool
  is_constant [] = true
  is_constant (p ∷ ps) = all_of (λ q. fl.feq q.value p.value) (p ∷ ps)

  -- The branch of the loop's body that smooths the point.
  unfoldable pub ir_smooth : ScalarPoint fl → IrLow fl → ScalarPoint fl × IrLow fl
  unfolding debias
  ir_smooth p s =
      let last' = fl.fadd (fl.fmul s.last s.weight) (fl.fmul (fl.fsub fl.fone s.weight) p.value) in
      let n = count_up s.num_accum in
      (
        record p { value = fl.fdiv last' (debias fl s.weight n) },
        record s { last = last'; num_accum = n },
      )

  -- The loop's body: a point that is not finite, or one of constant data, is kept and not counted.
  unfoldable pub ir_step : Bool → ScalarPoint fl → IrLow fl → ScalarPoint fl × IrLow fl
  unfolding ir_smooth
  ir_step constant p s =
      if constant || (fl.is_inf p.value || fl.is_nan p.value) then (p, s) else ir_smooth p s

  unfoldable pub ir_loop :
      Bool → List (ScalarPoint fl) → IrLow fl → List (ScalarPoint fl) × IrLow fl
  unfolding ir_step
  ir_loop constant [] s = ([], s)
  ir_loop constant (p ∷ ps) s =
      let (q, t) = ir_step constant p s in let (qs, u) = ir_loop constant ps t in (q ∷ qs, u)

  -- Sample.
  unfoldable pub ir_sample :
      List (ScalarPoint fl) → List (ScalarPoint fl) → IrLow fl → List (ScalarPoint fl) × IrLow fl
  unfolding ir_loop is_constant
  ir_sample original dst s =
      if leb (length original) s.num_accum || fl.feq s.weight fl.fzero
      then (dst, s)
      else (let (qs, t) = ir_loop (is_constant original) (drop s.num_accum original) s in
          (dst ++ qs, t))

  ir_loop-constant : (ps : List (ScalarPoint fl)) (s : IrLow fl) → ir_loop true ps s ≡ (ps, s)
  unfolding ir_loop ir_step
  ir_loop-constant [] s = refl
  ir_loop-constant (p ∷ ps) s = ground (arith, ir_loop-constant ps s)

  ir_sample-constant :
      (original dst : List (ScalarPoint fl)) (s : IrLow fl)
      → is_constant original ≡ true
      → 0 < length original
      → s.num_accum ≡ 0
      → fl.feq s.weight fl.fzero ≡ false
      → ir_sample original dst s ≡ (dst ++ original, s)
  unfolding ir_sample
  ir_sample-constant original dst s c l z w =
      let all : drop s.num_accum original ≡ original = ap (λ n. drop n original) z in
      ground (arith, c, w, z, all, ir_loop-constant original s)

  -- With a weight other than 0 and nothing counted, a call on constant points appends them as
  -- they are and counts none, so that a second call appends all of them once more.
  pub ir_sample_repeats :
      (original dst : List (ScalarPoint fl)) (s : IrLow fl)
      → is_constant original ≡ true
      → 0 < length original
      → s.num_accum ≡ 0
      → fl.feq s.weight fl.fzero ≡ false
      → (ir_sample original dst s ≡ (dst ++ original, s))
        × (ir_sample original (dst ++ original) s ≡ (dst ++ original ++ original, s))
  unfolding ir_sample
  ir_sample_repeats original dst s c l z w = (
    ir_sample-constant original dst s c l z w,
    ir_sample-constant original (dst ++ original) s c l z w,
  )

  abbrev pub IsFinite : ScalarPoint fl → Type 0
  IsFinite p = (fl.is_inf p.value ≡ false) × (fl.is_nan p.value ≡ false)

  ir_loop_counts :
      (ps : List (ScalarPoint fl)) (s : IrLow fl)
      → All IsFinite ps
      → s.num_accum + length ps < 2 ^ 32
      → (steps (ir_loop false ps s).0 ≡ steps ps)
        × ((ir_loop false ps s).1.num_accum ≡ s.num_accum + length ps)
        × ((ir_loop false ps s).1.weight ≡ s.weight)
  unfolding ir_loop ir_step ir_smooth
  ir_loop_counts [] s f b = (refl, omega arith, refl)
  ir_loop_counts (p ∷ ps) s f b =
      let t = (ir_step false p s).1 in
      let count : t.num_accum ≡ s.num_accum + 1 = ground (arith, f.0) in
      let weight : t.weight ≡ s.weight = ground (arith, f.0) in
      let same : (ir_step false p s).0.step ≡ p.step = ground (arith, f.0) in
      let (same', count', weight') = ir_loop_counts ps t f.1 (omega arith) in
      (ap₂ ◌∷◌ same same', omega arith, weight' ∙ weight)

  drop-All : (n : ℕ) (ps : List (ScalarPoint fl)) → All IsFinite ps → All IsFinite (drop n ps)
  drop-All zero ps h = h
  drop-All (suc n) [] h = h
  drop-All (suc n) (p ∷ ps) h = drop-All n ps h.1

  -- With a weight other than 0, and fewer than 2 ^ 32 points that are finite and not constant,
  -- of which some are counted, a call appends one point for each of the others, at the same
  -- step, and a second call appends none.
  pub ir_sample_once :
      (original dst : List (ScalarPoint fl)) (s : IrLow fl)
      → All IsFinite original
      → is_constant original ≡ false
      → fl.feq s.weight fl.fzero ≡ false
      → s.num_accum ≤ length original
      → length original < 2 ^ 32
      → (steps (ir_sample original dst s).0 ≡ steps dst ++ steps (drop s.num_accum original))
        × (ir_sample original (ir_sample original dst s).0 (ir_sample original dst s).1
            ≡ ir_sample original dst s)
  unfolding ir_sample
  ir_sample_once original dst s f c w n b =
      let rest = drop s.num_accum original in
      let (same, count, weight) =
        ir_loop_counts rest s (drop-All s.num_accum original f)
          (omega (arith, length-drop s.num_accum original)) in
      let all : s.num_accum + length rest ≡ length original =
        omega (arith, length-drop s.num_accum original) in
      elim (Bool-cases (leb (length original) s.num_accum)) [
        | inl e ↦
            let none_left = drop-nil s.num_accum original (ground arith) in
            (rw (e, none_left) (sym (append-nil (steps dst))), ground (arith, e))
        | inr e ↦
            let t = (ir_loop false rest s).1 in
            let out = dst ++ (ir_loop false rest s).0 in
            let made : ir_sample original dst s ≡ (out, t) = ground (arith, e, w, c) in
            let again : ir_sample original out t ≡ (out, t) = ground arith in
            (rw (made, map-append) (ap (◌++◌ (steps dst)) same), rw made again)
      ]
