-- ===== src/Smoother/TopX.antt =====
-- Scalar/server/src/GraphLine/Smoother/WindowTopXSmoother.h and WindowTopXSmoother.cpp.
use mathlib.Core.Option
use blue_workspace_build.Base.{
  ℕ, suc, ◌-◌, ◌^◌, ◌≤◌, ◌<◌, max, ◌≡◌, refl, ◌⊎◌, inl, inr, Bool, true, false, not, ◌&&◌, Option,
  none, some, List, [], ◌∷◌, ◌++◌, arith, ltb, eqb, if◌then◌else◌, Bool-cases, length, take, drop,
}
use blue_workspace_build.Base.Floats.{Floats}
use blue_workspace_build.Concept.{ScalarPoint}
use blue_workspace_build.Smoother.Loop.{sample_from, count_up, StepsTo, steps, sample_from_total}
use blue_workspace_build.Smoother.Window.{
  Window, Node, empty_window, push_point, slide, IsWindow, push_point-IsWindow, slide-IsWindow,
  empty_window-IsWindow,
}

pub record WindowTopX (fl : Floats) : Type 0 where
  pub num_accum : ℕ
  pub window_size : ℕ
  pub top : fl.Double
  pub elem_count : ℕ
  pub window : Window fl

unfoldable pub make_topx : (fl : Floats) → WindowTopX fl
unfolding empty_window
make_topx fl = record {
  num_accum = 0;
  window_size = 0;
  top = fl.dzero;
  elem_count = 0;
  window = empty_window fl;
}

-- The number of points that are averaged: `top` of the window, and at least 1.
unfoldable pub top_count : (fl : Floats) → ℕ → fl.Double → ℕ
top_count fl size top = if eqb (fl.floor_mul size top) 0 then 1 else fl.floor_mul size top

module _ {fl : Floats} where
  -- Reset.
  unfoldable pub reset_topx : WindowTopX fl → WindowTopX fl
  unfolding empty_window
  reset_topx s = record s { num_accum = 0; window = empty_window fl; elem_count = 0 }

  -- SetSampleParam, of the parameter's window size and top.
  unfoldable pub set_topx_param : ℕ → fl.Double → WindowTopX fl → WindowTopX fl
  unfolding reset_topx top_count
  set_topx_param size top s =
      if eqb size s.window_size && fl.deq top s.top then s else record (reset_topx s) {
        window_size = size;
        top = top;
        elem_count = top_count fl size top;
      }

  -- Equal, of two top-x smoothers: the other's `top_` is compared with this one's `windowSize_`.
  unfoldable pub topx_equal : WindowTopX fl → WindowTopX fl → Bool
  topx_equal s other =
      if not (eqb other.window_size s.window_size)
      then false
      else if not (fl.deq other.top (fl.d_of_nat s.window_size))
      then false
      else true

  count_topx : WindowTopX fl → WindowTopX fl
  count_topx s = record s { num_accum = count_up s.num_accum }

  unfoldable pub sum_values : fl.Float → List (Node fl) → fl.Float
  sum_values res [] = res
  sum_values res (n ∷ ns) = sum_values (fl.fadd n.point.value res) ns

  -- The average of the first `count` nodes; `none` is an iterator behind the window's end.
  unfoldable pub top_average : ℕ → List (Node fl) → Option fl.Float
  unfolding sum_values
  top_average count ns =
      if ltb (length ns) count
      then none
      else some (fl.fdiv (sum_values fl.fzero (take count ns)) (fl.f_of_nat count))

  -- The part of the loop's body from the full window on.
  topx_full : ScalarPoint fl → WindowTopX fl → Option (ScalarPoint fl × WindowTopX fl)
  unfolding slide top_average count_topx
  topx_full origin s = elim (slide s.window_size origin s.window) [
    | none ↦ none
    | some w ↦
        Option.map (λ v. (record origin { value = v }, record (count_topx s) { window = w }))
          (top_average s.elem_count w.nodes)
  ]

  -- The loop's body: the point that it appends to `dst`.
  unfoldable pub topx_step :
      ScalarPoint fl → WindowTopX fl → Option (ScalarPoint fl × WindowTopX fl)
  unfolding count_topx topx_full push_point
  topx_step origin s =
      if eqb s.window_size 0
      then some (origin, count_topx s)
      else if ltb (length s.window.nodes) (s.window_size - 1)
      then some (origin, record (count_topx s) { window = push_point origin s.window })
      else topx_full origin s

  -- Sample.
  unfoldable pub topx_sample :
      List (ScalarPoint fl)
      → List (ScalarPoint fl)
      → WindowTopX fl
      → Option (List (ScalarPoint fl) × WindowTopX fl)
  unfolding topx_step
  topx_sample = sample_from topx_step (λ s. s.num_accum)

  -- Well-formed smoothers whose `top_` is not above 1.
  pub record IsTopX (s : WindowTopX fl) : Type 0 where
    pub window : IsWindow s.window
    pub fits : length s.window.nodes ≤ s.window_size
    pub part : 0 < s.window_size → s.elem_count ≤ s.window_size

  pub set_topx_param-IsTopX :
      (size : ℕ) (top : fl.Double) (s : WindowTopX fl)
      → fl.floor_mul size top ≤ size
      → IsTopX s
      → IsTopX (set_topx_param size top s)
  unfolding set_topx_param
  set_topx_param-IsTopX size top s k h =
      elim (Bool-cases (eqb size s.window_size && fl.deq top s.top)) [
        | inl e ↦ rw e h
        | inr e ↦ rw e (record {
          window = empty_window-IsWindow;
          fits = omega arith;
          part = λ p. ground arith;
        })
      ]

  topx_full_total :
      (p : ScalarPoint fl) (s : WindowTopX fl)
      → 0 < s.window_size
      → s.window_size ≤ suc (length s.window.nodes)
      → IsTopX s
      → StepsTo fl (λ t. t.num_accum) IsTopX p s (topx_full p s)
  unfolding topx_full
  topx_full_total p s z k h =
      let (w, slid, good, size) =
        slide-IsWindow s.window_size p s.window z h.window (omega arith) in
      let v =
        fl.fdiv (sum_values fl.fzero (take s.elem_count w.nodes)) (fl.f_of_nat s.elem_count) in
      let small = h.part z in
      (
        record p { value = v },
        record (count_topx s) { window = w },
        ground (arith, slid, size, small),
        refl,
        record { window = good; fits = omega arith; part = h.part },
        refl,
      )

  topx_step_total :
      (p : ScalarPoint fl) (s : WindowTopX fl)
      → IsTopX s
      → StepsTo fl (λ t. t.num_accum) IsTopX p s (topx_step p s)
  unfolding topx_step count_topx
  topx_step_total p s h = elim (Bool-cases (eqb s.window_size 0)) [
    | inl e ↦ (
      p,
      count_topx s,
      ground (arith, e),
      refl,
      record { window = h.window; fits = h.fits; part = h.part },
      refl,
    )
    | inr e ↦ elim (Bool-cases (ltb (length s.window.nodes) (s.window_size - 1))) [
      | inl f ↦
          let (good, more) = push_point-IsWindow p s.window h.window in
          (
            p,
            record (count_topx s) { window = push_point p s.window },
            ground (arith, e, f),
            refl,
            record { window = good; fits = ground arith; part = h.part },
            refl,
          )
      | inr f ↦
          let (q, t, made, same, good, count) =
            topx_full_total p s (ground arith) (ground arith) h in
          (q, t, ground (arith, e, f, made), same, good, count)
    ]
  ]

  -- On fewer than 2 ^ 32 points, a well-formed smoother, whose part of the window is no larger
  -- than the window, smooths those that it has not counted: no access leaves the window, each
  -- new point keeps its step, and the smoother is well-formed with all of them counted.
  pub topx_sample_total :
      (original dst : List (ScalarPoint fl)) (s : WindowTopX fl)
      → IsTopX s
      → length original < 2 ^ 32
      → (out : List (ScalarPoint fl)) × (t : WindowTopX fl) × (topx_sample original dst s
          ≡ some (out, t))
        × (steps out ≡ steps dst ++ steps (drop s.num_accum original))
        × IsTopX t
        × (t.num_accum ≡ max s.num_accum (length original))
  unfolding topx_sample
  topx_sample_total = sample_from_total topx_step (λ s. s.num_accum) IsTopX topx_step_total

  -- Where the number of points to average is above the window's size, and the window is
  -- well-formed and lacks at most one point, a step reads behind the window's end.
  pub topx_step_overrun :
      (p : ScalarPoint fl) (s : WindowTopX fl)
      → IsWindow s.window
      → 0 < s.window_size
      → s.window_size < s.elem_count
      → suc (length s.window.nodes) ≡ s.window_size ⊎ (length s.window.nodes ≡ s.window_size)
      → topx_step p s ≡ none
  unfolding topx_step
  topx_step_overrun p s h z k f =
      let (w, slid, good, size) = slide-IsWindow s.window_size p s.window z h f in
      ground (arith, slid, size)

  -- `Equal` of a smoother and itself is the comparison of its `top_` with the size of its
  -- window.
  pub topx_equal_self :
      (s : WindowTopX fl) → topx_equal s s ≡ fl.deq s.top (fl.d_of_nat s.window_size)
  unfolding topx_equal
  topx_equal_self s = ground arith
