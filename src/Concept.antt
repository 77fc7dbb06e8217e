-- ===== src/Concept.antt =====
-- Scalar/server/src/defs/ConceptDefs.h: points, data modes and data views.
pub mod View
pub mod Gather
pub mod Elements
use blue_workspace_build.Base.{
  ℕ, ◌≡◌, refl, Text, Bool, true, false, ◌^◌, ◌%◌, ◌<◌, arith, ltb, if◌then◌else◌, ◌+◌, ◌-◌,
}
use blue_workspace_build.Base.Floats.{Floats}

-- enum class ParseDataType.
pub data ParseDataType : Type 0 where
  mindspore_summary tf_event text_log unknown : ParseDataType

-- enum ErrCode.
pub data ErrCode : Type 0 where
  ok invalid_request_json request_invalid_param invalid_path : ErrCode

-- enum class DataMode.
pub data DataMode : Type 0 where
  normal smoothing token sample token_normal token_smoothing : DataMode

-- `uint64_t`, and an `int64_t` by its 64 bits.
abbrev pub word : ℕ
word = 2 ^ 64

-- `a < b` of two `int64_t`.
unfoldable pub int_lt : ℕ → ℕ → Bool
int_lt a b = ltb ((a + 2 ^ 63) % 2 ^ 64) ((b + 2 ^ 63) % 2 ^ 64)

-- On steps that are not negative it is the order of the numbers.
pub int_lt-ltb : (a b : ℕ) → a < 2 ^ 63 → b < 2 ^ 63 → int_lt a b ≡ ltb a b
unfolding int_lt
int_lt-ltb a b p q = ground arith

-- struct ScalarPoint. The step is an `int64_t`, given by its 64 bits.
pub record ScalarPoint (fl : Floats) : Type 0 where
  pub step : ℕ
  pub value : fl.Float
  pub wall_time : fl.Double
  pub local_time : Text
