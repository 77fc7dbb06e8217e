-- ===== src/Smoother/Factory.antt =====
-- Scalar/server/src/GraphLine/Smoother/SmootherBase.h and SmootherFactory.h: the parameters and
-- the smoothers of the three algorithms, found by their names.
use mathlib.Core.Option
use blue_workspace_build.Base.{
  ℕ, ◌≡◌, refl, Bool, false, Option, none, some, List, if◌then◌else◌, Text, codes, text_eq,
}
use blue_workspace_build.Base.Floats.{Floats}
use blue_workspace_build.Concept.{ScalarPoint}
use blue_workspace_build.Smoother.IrLow.{IrLow, make_ir, set_ir_param, ir_sample, ir_equal}
use blue_workspace_build.Smoother.Median.{
  WindowMedian, make_median, set_median_param, median_sample, median_equal,
}
use blue_workspace_build.Smoother.TopX.{
  WindowTopX, make_topx, set_topx_param, topx_sample, topx_equal,
}

-- IRSmootherParam, WindowMedianParam and WindowToxSmoothingParam.
pub data SmoothingParam (fl : Floats) : Type 0 where
  ir_param : fl.Float → SmoothingParam fl
  median_param : ℕ → SmoothingParam fl
  topx_param : ℕ → fl.Double → SmoothingParam fl

-- IRLowSmoother, WindowMedianSmoother and WindowTopXSmoother.
pub data Smoother (fl : Floats) : Type 0 where
  ir : IrLow fl → Smoother fl
  median : WindowMedian fl → Smoother fl
  topx : WindowTopX fl → Smoother fl

abbrev pub smoothing_name : Text
smoothing_name = codes "smoothing"

abbrev pub window_median_name : Text
window_median_name = codes "windowMedian"

abbrev pub window_topx_name : Text
window_topx_name = codes "windowTopx"

-- SmootherFactory::GetSampler.
unfoldable pub get_sampler : (fl : Floats) → Text → Option (Smoother fl)
unfolding make_ir make_median make_topx
get_sampler fl algorithm =
    if text_eq algorithm smoothing_name
    then some (ir (make_ir fl))
    else if text_eq algorithm window_median_name
    then some (median (make_median fl))
    else if text_eq algorithm window_topx_name
    then some (topx (make_topx fl))
    else none

module _ {fl : Floats} where
  -- algorithm_ of a parameter.
  unfoldable pub param_algorithm : SmoothingParam fl → Text
  param_algorithm (ir_param weight) = smoothing_name
  param_algorithm (median_param size) = window_median_name
  param_algorithm (topx_param size top) = window_topx_name

  -- GetAlgorithm.
  unfoldable pub algorithm : Smoother fl → Text
  algorithm (ir s) = smoothing_name
  algorithm (median s) = window_median_name
  algorithm (topx s) = window_topx_name

  -- SetSampleParam. The low-pass and the median smoother cast the parameter without a look at its
  -- algorithm, which `none` stands for; the top-x smoother ignores a parameter of another one.
  unfoldable pub set_sample_param : SmoothingParam fl → Smoother fl → Option (Smoother fl)
  set_sample_param (ir_param weight) (ir s) = some (ir (set_ir_param weight s))
  set_sample_param (ir_param weight) (median s) = none
  set_sample_param (ir_param weight) (topx s) = some (topx s)
  set_sample_param (median_param size) (ir s) = none
  set_sample_param (median_param size) (median s) = some (median (set_median_param size s))
  set_sample_param (median_param size) (topx s) = some (topx s)
  set_sample_param (topx_param size top) (ir s) = none
  set_sample_param (topx_param size top) (median s) = none
  set_sample_param (topx_param size top) (topx s) = some (topx (set_topx_param size top s))

  -- Sample; `none` is an access outside the window.
  unfoldable pub sample :
      List (ScalarPoint fl)
      → List (ScalarPoint fl)
      → Smoother fl
      → Option (List (ScalarPoint fl) × Smoother fl)
  sample original dst (ir s) = let (out, t) = ir_sample original dst s in some (out, ir t)
  sample original dst (median s) =
      Option.map (λ (r : List (ScalarPoint fl) × WindowMedian fl). (r.0, median r.1))
        (median_sample original dst s)
  sample original dst (topx s) =
      Option.map (λ (r : List (ScalarPoint fl) × WindowTopX fl). (r.0, topx r.1))
        (topx_sample original dst s)

  -- Equal, of two smoothers that are not null.
  unfoldable pub equal : Smoother fl → Smoother fl → Bool
  equal (ir s) (ir t) = ir_equal s t
  equal (median s) (median t) = median_equal s t
  equal (topx s) (topx t) = topx_equal s t
  equal (ir s) (median t) = false
  equal (ir s) (topx t) = false
  equal (median s) (ir t) = false
  equal (median s) (topx t) = false
  equal (topx s) (ir t) = false
  equal (topx s) (median t) = false

  -- The smoother that `File::UpdateSmoothingParam` makes for a parameter.
  unfoldable pub smoother_for : SmoothingParam fl → Option (Smoother fl)
  unfolding set_sample_param get_sampler param_algorithm
  smoother_for param = elim (get_sampler fl (param_algorithm param)) [
    | none ↦ none
    | some s ↦ set_sample_param param s
  ]

  -- The factory makes a smoother for each parameter, of the parameter's own algorithm: the cast
  -- in `SetSampleParam` is never wrong.
  pub smoother_for_total :
      (param : SmoothingParam fl)
      → (s : Smoother fl) × (smoother_for param ≡ some s) × (algorithm s ≡ param_algorithm param)
  unfolding smoother_for algorithm
  smoother_for_total (ir_param weight) = (ir (set_ir_param weight (make_ir fl)), refl, refl)
  smoother_for_total (median_param size) =
      (median (set_median_param size (make_median fl)), refl, refl)
  smoother_for_total (topx_param size top) =
      (topx (set_topx_param size top (make_topx fl)), refl, refl)
