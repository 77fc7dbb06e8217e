-- ===== src/Line.antt =====
-- Scalar/server/src/GraphLine/GraphLine.h and GraphLine.cpp: the lines of a graph.
pub mod Sample
pub mod Merge
use mathlib.Core.Option
use blue_workspace_build.Base.{
  ℕ, zero, suc, ◌+◌, ◌-◌, ◌*◌, ◌/◌, ◌%◌, ◌^◌, ◌≤◌, ◌<◌, min, max, ◌≡◌, refl, sym, ap, ◌∙◌, ◌≢◌, ◌↔◌,
  ◌⊎◌, inl, inr, Bool, true, false, not, ◌&&◌, ◌||◌, Option, none, some, List, [], ◌∷◌, ◌++◌, map,
  arith, ltb, leb, eqb, if◌then◌else◌, ltb→lt, lt→ltb, eqb_iff, Bool-cases, Option-cases, length,
  get_elem?, take, drop, is_empty, all_of, any_of, last_or, length-append, last_or-append, All,
  All-append, All-mono, length-take, length-drop, take-append-drop, length-map, get_elem?_total,
  drop-append, drop-nil, Text, codes, text_eq, text_lt, text_eq_iff, text_lt_irrefl, text_lt_trans,
  text_lt_total,
}
use blue_workspace_build.Base.Floats.{Floats}
use blue_workspace_build.Base.Map
use blue_workspace_build.Base.Map.{Map, Key, text_key}
use blue_workspace_build.Concept.{ScalarPoint}
use blue_workspace_build.Concept.View.{DataView, get_elements}

-- enum LineType.
pub data LineType : Type 0 where
  normal sample smoothing token normal_smoothing token_smoothing unknown : LineType

-- A number for each type, to compare them.
abbrev pub line_type_index : LineType → ℕ
line_type_index sample = 0
line_type_index normal = 1
line_type_index smoothing = 2
line_type_index token = 3
line_type_index normal_smoothing = 4
line_type_index token_smoothing = 5
line_type_index unknown = 6

unfoldable pub line_type_same : LineType → LineType → Bool
line_type_same a b = eqb (line_type_index a) (line_type_index b)

line_type_of : ℕ → LineType
line_type_of n =
    if eqb n 0
    then sample
    else if eqb n 1
    then normal
    else if eqb n 2
    then smoothing
    else if eqb n 3
    then token
    else if eqb n 4
    then normal_smoothing
    else if eqb n 5
    then token_smoothing
    else unknown

line_type_of-index : (a : LineType) → line_type_of (line_type_index a) ≡ a
unfolding line_type_of
line_type_of-index sample = refl
line_type_of-index normal = refl
line_type_of-index smoothing = refl
line_type_of-index token = refl
line_type_of-index normal_smoothing = refl
line_type_of-index token_smoothing = refl
line_type_of-index unknown = refl

pub line_type_same_iff : (a b : LineType) → (line_type_same a b ≡ true) ↔ (a ≡ b)
unfolding line_type_same
line_type_same_iff a b = (
  λ h. sym (line_type_of-index a) ∙ ap line_type_of ((eqb_iff _ _).0 h) ∙ line_type_of-index b,
  λ e. rw e ((eqb_iff (line_type_index b) _).1 refl),
)

instance abbrev pub line_type_key : Key LineType
unfolding line_type_same
line_type_key = record { same = line_type_same; same_iff = line_type_same_iff }

-- The table of `CastLineType`.
abbrev pub line_type_names : Map Text LineType
line_type_names =
    (codes "normal", normal)
    ∷ (codes "sample", sample)
    ∷ (codes "smoothing", smoothing)
    ∷ (codes "token", token)
    ∷ []

-- CastLineType.
unfoldable pub cast_line_type : Text → LineType
unfolding Map.get_or
cast_line_type type = Map.get_or unknown type line_type_names

-- CastLineTypeStr.
unfoldable pub cast_line_type_str : LineType → Text
cast_line_type_str normal = codes "normal"
cast_line_type_str sample = codes "sample"
cast_line_type_str smoothing = codes "smoothing"
cast_line_type_str token = codes "token"
cast_line_type_str normal_smoothing = codes "normalSmoothing"
cast_line_type_str token_smoothing = codes "tokenSmoothing"
cast_line_type_str unknown = codes "unknown"

-- class GraphLine.
pub record GraphLine (fl : Floats) : Type 0 where
  pub line_type : LineType
  pub view : Bool
  pub src_data : List (ScalarPoint fl)
  pub data_view : List (DataView fl)

-- struct LineData.
pub record LineData (fl : Floats) : Type 0 where
  pub line_type_name : Text
  pub points : List (ScalarPoint fl)

module _ {fl : Floats} where
  -- What is before the first point whose step is not below `left`: `std::lower_bound` and `erase`.
  unfoldable pub keep_below : ℕ → List (ScalarPoint fl) → List (ScalarPoint fl)
  keep_below left [] = []
  keep_below left (p ∷ ps) = if ltb p.step left then p ∷ keep_below left ps else []

  unfoldable pub append_from : List (ScalarPoint fl) → GraphLine fl → GraphLine fl
  unfolding keep_below
  append_from [] line = line
  append_from (p ∷ ps) line = record line { src_data = keep_below p.step line.src_data ++ p ∷ ps }

  -- AddLineData.
  unfoldable pub add_line_data : List (ScalarPoint fl) → GraphLine fl → GraphLine fl
  unfolding append_from
  add_line_data points line = if line.view || is_empty points then line else append_from points line

  -- Add the elements of each view; `none` where one of them cannot be read.
  unfoldable pub add_views : List (DataView fl) → GraphLine fl → Option (GraphLine fl)
  add_views [] line = some line
  add_views (v ∷ vs) line = elim (get_elements v) [
    | none ↦ none
    | some points ↦ add_views vs (add_line_data points line)
  ]

  -- `return std::move(srcData_)`.
  unfoldable pub move_data : GraphLine fl → List (ScalarPoint fl) × GraphLine fl
  move_data line = (line.src_data, record line { src_data = [] })

  -- GetLineData.
  unfoldable pub get_line_data : GraphLine fl → Option (List (ScalarPoint fl) × GraphLine fl)
  unfolding add_views move_data
  get_line_data line =
      if line.view
      then Option.map move_data (add_views line.data_view (record line { view = false }))
      else some (move_data line)

-- The constructor of a line.
unfoldable pub make_line : (fl : Floats) → LineType → GraphLine fl
make_line fl type = record { line_type = type; view = true; src_data = []; data_view = [] }

-- The types of the lines that `BuildLine` makes, in order.
unfoldable pub build_line_types : Bool → Bool → List LineType
build_line_types token_enable smoothing_enable =
    if token_enable
    then (token ∷ (if smoothing_enable then token_smoothing ∷ [] else []))
    else (normal ∷ (if smoothing_enable then normal_smoothing ∷ [] else []))
