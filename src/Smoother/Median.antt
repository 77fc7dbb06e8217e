-- ===== src/Smoother/Median.antt =====
-- Scalar/server/src/GraphLine/Smoother/WindowMedianSmoother.h and WindowMedianSmoother.cpp.
use mathlib.Core.Option
use blue_workspace_build.Base.{
  ℕ, suc, ◌+◌, ◌-◌, ◌/◌, ◌%◌, ◌^◌, ◌≤◌, ◌<◌, max, ◌≡◌, refl, inl, inr, Bool, true, false, Option,
  none, some, List, ◌++◌, arith, ltb, eqb, if◌then◌else◌, Bool-cases, length, get_elem?, drop,
  get_elem?_total,
}
use blue_workspace_build.Base.Floats.{Floats}
use blue_workspace_build.Concept.{ScalarPoint}
use blue_workspace_build.Smoother.Loop.{
  sample_from, count_up, StepsTo, steps, sample_from_total, sample_from-append,
}
use blue_workspace_build.Smoother.Window.{
  Window, Node, empty_window, push_point, slide, IsWindow, push_point-IsWindow, slide-IsWindow,
  empty_window-IsWindow,
}

pub record WindowMedian (fl : Floats) : Type 0 where
  pub num_accum : ℕ
  pub window_size : ℕ
  pub window : Window fl
  pub even : Bool

unfoldable pub make_median : (fl : Floats) → WindowMedian fl
unfolding empty_window
make_median fl = record { num_accum = 0; window_size = 0; window = empty_window fl; even = false }

module _ {fl : Floats} where
  -- Reset.
  unfoldable pub reset_median : WindowMedian fl → WindowMedian fl
  unfolding empty_window
  reset_median s = record s { num_accum = 0; window = empty_window fl }

  -- SetSampleParam, of the parameter's window size.
  unfoldable pub set_median_param : ℕ → WindowMedian fl → WindowMedian fl
  unfolding reset_median
  set_median_param size s =
      if eqb size s.window_size
      then s
      else record (reset_median s) { window_size = size; even = eqb (size % 2) 0 }

  -- Equal, of two median smoothers.
  unfoldable pub median_equal : WindowMedian fl → WindowMedian fl → Bool
  median_equal s other = eqb other.window_size s.window_size

  count_median : WindowMedian fl → WindowMedian fl
  count_median s = record s { num_accum = count_up s.num_accum }

  -- The middle of the window; `none` is an iterator outside it.
  unfoldable pub middle : Bool → ℕ → List (Node fl) → Option fl.Float
  middle even size ns = elim (get_elem? ns (size / 2)) [
    | none ↦ none
    | some mid ↦
        if even
        then Option.map
            (λ (low : Node fl). fl.fdiv (fl.fadd mid.point.value low.point.value) fl.ftwo)
            (get_elem? ns (size / 2 - 1))
        else some mid.point.value
  ]

  -- The part of the loop's body from the full window on.
  median_full : ScalarPoint fl → WindowMedian fl → Option (ScalarPoint fl × WindowMedian fl)
  unfolding slide middle count_median
  median_full origin s = elim (slide s.window_size origin s.window) [
    | none ↦ none
    | some w ↦
        Option.map (λ v. (record origin { value = v }, record (count_median s) { window = w }))
          (middle s.even s.window_size w.nodes)
  ]

  -- The loop's body: the point that it appends to `dst`.
  unfoldable pub median_step :
      ScalarPoint fl → WindowMedian fl → Option (ScalarPoint fl × WindowMedian fl)
  unfolding count_median median_full push_point
  median_step origin s =
      if eqb s.window_size 0
      then some (origin, count_median s)
      else if ltb (length s.window.nodes) (s.window_size - 1)
      then some (origin, record (count_median s) { window = push_point origin s.window })
      else median_full origin s

  -- Sample.
  unfoldable pub median_sample :
      List (ScalarPoint fl)
      → List (ScalarPoint fl)
      → WindowMedian fl
      → Option (List (ScalarPoint fl) × WindowMedian fl)
  unfolding median_step
  median_sample = sample_from median_step (λ s. s.num_accum)

  -- Well-formed smoothers: `SetSampleParam` and `Sample` make no others.
  pub record IsMedian (s : WindowMedian fl) : Type 0 where
    pub window : IsWindow s.window
    pub fits : length s.window.nodes ≤ s.window_size
    pub parity : s.even ≡ true → s.window_size % 2 ≡ 0

  pub set_median_param-IsMedian :
      (size : ℕ) (s : WindowMedian fl) → IsMedian s → IsMedian (set_median_param size s)
  unfolding set_median_param
  set_median_param-IsMedian size s h = elim (Bool-cases (eqb size s.window_size)) [
    | inl e ↦ rw e h
    | inr e ↦
        rw e (record {
          window = empty_window-IsWindow;
          fits = omega arith;
          parity = λ p. ground arith;
        })
  ]

  middle_total :
      (even : Bool) (size : ℕ) (ns : List (Node fl))
      → 0 < size
      → length ns ≡ size
      → (even ≡ true → size % 2 ≡ 0)
      → (v : fl.Float) × (middle even size ns ≡ some v)
  unfolding middle
  middle_total false size ns p e h =
      let (n, here) = get_elem?_total ns (size / 2) (omega arith) in
      (n.point.value, ground (arith, here))
  middle_total true size ns p e h =
      let (n, here) = get_elem?_total ns (size / 2) (omega arith) in
      let (m, low) = get_elem?_total ns (size / 2 - 1) (omega arith) in
      (fl.fdiv (fl.fadd n.point.value m.point.value) fl.ftwo, ground (arith, here, low))

  median_full_total :
      (p : ScalarPoint fl) (s : WindowMedian fl)
      → 0 < s.window_size
      → s.window_size ≤ suc (length s.window.nodes)
      → IsMedian s
      → StepsTo fl (λ t. t.num_accum) IsMedian p s (median_full p s)
  unfolding median_full
  median_full_total p s z k h =
      let (w, slid, good, size) =
        slide-IsWindow s.window_size p s.window z h.window (omega arith) in
      let (v, mid) = middle_total s.even s.window_size w.nodes z size h.parity in
      (
        record p { value = v },
        record (count_median s) { window = w },
        ground (arith, slid, mid),
        refl,
        record { window = good; fits = omega arith; parity = h.parity },
        refl,
      )

  median_step_total :
      (p : ScalarPoint fl) (s : WindowMedian fl)
      → IsMedian s
      → StepsTo fl (λ t. t.num_accum) IsMedian p s (median_step p s)
  unfolding median_step count_median
  median_step_total p s h = elim (Bool-cases (eqb s.window_size 0)) [
    | inl e ↦ (
      p,
      count_median s,
      ground (arith, e),
      refl,
      record { window = h.window; fits = h.fits; parity = h.parity },
      refl,
    )
    | inr e ↦ elim (Bool-cases (ltb (length s.window.nodes) (s.window_size - 1))) [
      | inl f ↦
          let (good, more) = push_point-IsWindow p s.window h.window in
          (
            p,
            record (count_median s) { window = push_point p s.window },
            ground (arith, e, f),
            refl,
            record { window = good; fits = ground arith; parity = h.parity },
            refl,
          )
      | inr f ↦
          let (q, t, made, same, good, count) =
            median_full_total p s (ground arith) (ground arith) h in
          (q, t, ground (arith, e, f, made), same, good, count)
    ]
  ]

  -- On fewer than 2 ^ 32 points, a well-formed smoother that has counted some of them smooths
  -- the rest: no access leaves the window, each new point keeps its step, and the smoother is
  -- well-formed with all of them counted.
  pub median_sample_total :
      (original dst : List (ScalarPoint fl)) (s : WindowMedian fl)
      → IsMedian s
      → length original < 2 ^ 32
      → (out : List (ScalarPoint fl)) × (t : WindowMedian fl) × (median_sample original dst s
          ≡ some (out, t))
        × (steps out ≡ steps dst ++ steps (drop s.num_accum original))
        × IsMedian t
        × (t.num_accum ≡ max s.num_accum (length original))
  unfolding median_sample
  median_sample_total = sample_from_total median_step (λ s. s.num_accum) IsMedian median_step_total

  -- For a well-formed smoother that has counted nothing, and fewer than 2 ^ 32 points, smoothing
  -- those that have arrived and later the rest gives what one pass over all of them gives.
  pub median_sample_append :
      (xs ys dst : List (ScalarPoint fl)) (s : WindowMedian fl)
      → IsMedian s
      → s.num_accum ≡ 0
      → length xs + length ys < 2 ^ 32
      → (mid : List (ScalarPoint fl)) × (t : WindowMedian fl) × (median_sample xs dst s
          ≡ some (mid, t))
        × (median_sample (xs ++ ys) mid t ≡ median_sample (xs ++ ys) dst s)
  unfolding median_sample
  median_sample_append =
      sample_from-append median_step (λ s. s.num_accum) IsMedian median_step_total
