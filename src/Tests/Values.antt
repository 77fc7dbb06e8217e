-- ===== src/Tests/Values.antt =====
-- Values that the examples run on: whole numbers in place of the floating-point types, a few points
-- and a file that holds them.
use blue_workspace_build.Base.{
  ℕ, ◌+◌, ◌-◌, ◌*◌, ◌/◌, ◌^◌, false, List, [], ◌∷◌, ltb, eqb, Text, codes,
}
use blue_workspace_build.Base.Floats.{Floats}
use blue_workspace_build.Concept.{ScalarPoint, ParseDataType}
use blue_workspace_build.File.{File, make_file}

abbrev pub whole : Floats
whole = record {
  Float = ℕ;
  fzero = 0;
  fone = 1;
  ftwo = 2;
  fadd = λ a b. a + b;
  fsub = λ a b. a - b;
  fmul = λ a b. a * b;
  fdiv = λ a b. a / b;
  feq = eqb;
  flt = ltb;
  is_inf = λ a. false;
  is_nan = λ a. false;
  fpow = λ a n. a ^ n;
  f_of_nat = λ n. n;
  Double = ℕ;
  dzero = 0;
  done = 1;
  dminus_one = 0;
  dmilli = 1;
  dmul = λ a b. a * b;
  deq = eqb;
  dlt = ltb;
  d_of_int = λ n. n;
  int_of_d = λ n. n;
  d_of_nat = λ n. n;
  floor_div = λ n d. n / d;
  ceil_div = λ n d. (n + d - 1) / d;
  floor_mul = λ n d. n * d;
}

abbrev pub point : ℕ → ℕ → ScalarPoint whole
point step value = record { step = step; value = value; wall_time = 0; local_time = [] }

abbrev pub three_points : List (ScalarPoint whole)
three_points = point 2 7 ∷ point 5 4 ∷ point 9 6 ∷ []

abbrev pub later_points : List (ScalarPoint whole)
later_points = point 11 3 ∷ point 12 8 ∷ []

abbrev pub loss : Text
loss = codes "loss"

abbrev pub new_file : File whole
new_file = make_file whole (codes "a.log") ParseDataType.text_log
