-- ===== src/Handler.antt =====
-- Scalar/server/src/plugin/Handler: how a request is read from its text, checked and answered. The
-- JSON library is the parameter of Json.antt.
pub mod ScalarData
pub mod Response
pub mod TokenSet
pub mod ImportFile
pub mod FileMerge
pub mod Answer
use mathlib.Core.Option
use blue_workspace_build.Base.{
  ℕ, zero, suc, ◌+◌, ◌-◌, ◌*◌, ◌/◌, ◌%◌, ◌^◌, ◌≤◌, ◌<◌, min, max, ◌≡◌, refl, sym, ap, ◌∙◌, ◌≢◌, ◌↔◌,
  ◌⊎◌, inl, inr, Bool, true, false, not, ◌&&◌, ◌||◌, Option, none, some, List, [], ◌∷◌, ◌++◌, map,
  arith, ltb, leb, eqb, if◌then◌else◌, ltb→lt, lt→ltb, eqb_iff, Bool-cases, Option-cases, length,
  get_elem?, take, drop, is_empty, all_of, any_of, last_or, length-append, last_or-append, All,
  All-append, All-mono, length-take, length-drop, take-append-drop, length-map, get_elem?_total,
  drop-append, drop-nil, Text, codes, text_eq, text_lt, text_eq_iff, text_lt_irrefl, text_lt_trans,
  text_lt_total,
}
use blue_workspace_build.Base.Floats.{Floats}
use blue_workspace_build.Concept.{ErrCode}
use blue_workspace_build.Json.{Json, ◌>>=◌}

-- The result of `ParseRequestFromJson` with the request that it fills.
pub data Parsed (R : Type 0) : Type 0 where
  rejected : ErrCode → Parsed R
  accepted : R → Parsed R

module _ {fl : Floats} (j : Json fl) {R : Type 0} where
  -- A document that was parsed: `CheckParamValid`, and the reading of the request.
  unfoldable pub read_checked :
      (j.Value → Option Bool) → (j.Value → Option R) → j.Value → Option (Parsed R)
  read_checked check read v = do
    valid ← check v
    if valid then Option.map accepted (read v) else some (rejected ErrCode.request_invalid_param)

  -- ParseRequestFromJson of the handlers; `none` is a failed assertion of the library.
  unfoldable pub parse_request :
      (j.Value → Option Bool) → (j.Value → Option R) → Text → Option (Parsed R)
  unfolding read_checked
  parse_request check read body = elim (j.parse body) [
    | none ↦ some (rejected ErrCode.invalid_request_json)
    | some v ↦ read_checked check read v
  ]
