-- ===== src/Tests/Smoothing.antt =====
-- Smoothers: the theorems at concrete values.
use blue_workspace_build.Base.{max, ◌≡◌, refl, some, List, [], ◌∷◌, ◌++◌, arith, length, drop}
use blue_workspace_build.Tests.Values.{whole, point, three_points, later_points}
use blue_workspace_build.Smoother.Median.{
  IsMedian, WindowMedian, make_median, set_median_param-IsMedian, set_median_param, median_sample,
  median_sample_total, median_sample_append,
}
use blue_workspace_build.Smoother.Loop.{steps}
use blue_workspace_build.Concept.{ScalarPoint}
use blue_workspace_build.Smoother.IrLow.{IrLow, set_ir_param, make_ir}
use blue_workspace_build.Smoother.TopX.{
  IsTopX, WindowTopX, set_topx_param, make_topx, set_topx_param-IsTopX, topx_sample,
  topx_sample_total,
}
use blue_workspace_build.Smoother.Window.{empty_window-IsWindow}

make_median-IsMedian : IsMedian (make_median whole)
unfolding make_median blue_workspace_build.Smoother.Window.empty_window
make_median-IsMedian = record {
  window = empty_window-IsWindow;
  fits = omega arith;
  parity = λ p. cc;
}

abbrev median_of_three : WindowMedian whole
median_of_three = set_median_param 3 (make_median whole)

median_of_three-IsMedian : IsMedian median_of_three
median_of_three-IsMedian = set_median_param-IsMedian 3 (make_median whole) make_median-IsMedian

median_sample_total_example :
    (out : List (ScalarPoint whole)) × (t : WindowMedian whole) × (median_sample three_points []
        median_of_three
      ≡ some (out, t))
    × (steps out ≡ steps {fl = whole} [] ++ steps (drop median_of_three.num_accum three_points))
    × IsMedian t
    × (t.num_accum ≡ max median_of_three.num_accum (length three_points))
median_sample_total_example =
    median_sample_total three_points [] median_of_three median_of_three-IsMedian (omega arith)

median_sample_append_example :
    (mid : List (ScalarPoint whole)) × (t : WindowMedian whole) × (median_sample three_points []
        median_of_three
      ≡ some (mid, t))
    × (median_sample (three_points ++ later_points) mid t
        ≡ median_sample (three_points ++ later_points) [] median_of_three)
unfolding set_median_param make_median
median_sample_append_example =
    median_sample_append three_points later_points [] median_of_three median_of_three-IsMedian refl
      (omega arith)

make_topx-IsTopX : IsTopX (make_topx whole)
unfolding make_topx blue_workspace_build.Smoother.Window.empty_window
make_topx-IsTopX = record {
  window = empty_window-IsWindow;
  fits = omega arith;
  part = λ p. omega arith;
}

abbrev best_of_three : WindowTopX whole
best_of_three = set_topx_param 3 1 (make_topx whole)

best_of_three-IsTopX : IsTopX best_of_three
best_of_three-IsTopX = set_topx_param-IsTopX 3 1 (make_topx whole) (omega arith) make_topx-IsTopX

topx_sample_total_example :
    (out : List (ScalarPoint whole)) × (t : WindowTopX whole) × (topx_sample three_points []
        best_of_three
      ≡ some (out, t))
    × (steps out ≡ steps {fl = whole} [] ++ steps (drop best_of_three.num_accum three_points))
    × IsTopX t
    × (t.num_accum ≡ max best_of_three.num_accum (length three_points))
topx_sample_total_example =
    topx_sample_total three_points [] best_of_three best_of_three-IsTopX (omega arith)

abbrev half : IrLow whole
half = set_ir_param 2 (make_ir whole)

abbrev flat_points : List (ScalarPoint whole)
flat_points = point 1 4 ∷ point 2 4 ∷ []
