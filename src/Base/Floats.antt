-- ===== src/Base/Floats.antt =====
-- The floating-point types of the program are not modelled bit by bit: their operations are the
-- fields of this record, and each definition that computes with them takes it as a parameter.
use Prim.Native.Nat.{ℕ}
use mathlib.Core.Bool.{Bool}

pub record Floats : Type 1 where
  -- `float`.
  pub Float : Type 0
  pub fzero : Float
  pub fone : Float
  pub ftwo : Float
  pub fadd : Float → Float → Float
  pub fsub : Float → Float → Float
  pub fmul : Float → Float → Float
  pub fdiv : Float → Float → Float
  -- `==` and `<`.
  pub feq : Float → Float → Bool
  pub flt : Float → Float → Bool
  pub is_inf : Float → Bool
  pub is_nan : Float → Bool
  -- `static_cast<float>(pow(x, n))`.
  pub fpow : Float → ℕ → Float
  -- The conversion of a `uint64_t`.
  pub f_of_nat : ℕ → Float
  -- `double`.
  pub Double : Type 0
  pub dzero : Double
  pub done : Double
  -- The literals -1 and 0.001.
  pub dminus_one : Double
  pub dmilli : Double
  pub dmul : Double → Double → Double
  pub deq : Double → Double → Bool
  pub dlt : Double → Double → Bool
  -- `static_cast<double>` of an `int64_t`, and back; the integer is given by its 64 bits.
  pub d_of_int : ℕ → Double
  pub int_of_d : Double → ℕ
  -- `static_cast<double>` of a `uint64_t`.
  pub d_of_nat : ℕ → Double
  -- `std::floor` and `std::ceil` of `static_cast<long double>(n) / d`, as a `uint64_t`.
  pub floor_div : ℕ → Double → ℕ
  pub ceil_div : ℕ → Double → ℕ
  -- `std::floor(n * d)`, as a `uint64_t`.
  pub floor_mul : ℕ → Double → ℕ
