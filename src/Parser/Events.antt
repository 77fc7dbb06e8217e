-- ===== src/Parser/Events.antt =====
-- What a record of a file holds: `EventContainsScalar` and `ParseRecordToScalar` of
-- Scalar/server/src/parser/TFEventParser.cpp and SummaryParser.cpp, and both operations of
-- LogTextParser.cpp. The generated message classes, the regular expressions and the constructors of
-- a point, which convert its time, are parameters.
use blue_workspace_build.Base.{
  ℕ, Bool, true, false, not, ◌||◌, Option, none, some, List, [], ◌∷◌, ◌++◌, eqb, if◌then◌else◌,
  length, take, is_empty, any_of, Text, codes, text_eq, text_lt,
}
use blue_workspace_build.Base.Floats.{Floats}
use blue_workspace_build.Concept.{ScalarPoint}
use blue_workspace_build.Parser.Loop.{ScalarData}

-- What the source reads of a `Summary::Value`: its tag, and its number if its case is the scalar one.
pub record SummaryValue (fl : Floats) : Type 0 where
  pub tag : Text
  pub scalar : Option fl.Float

-- What the source reads of an `Event`; `summary` is `none` where `has_summary` is false.
pub record Event (fl : Floats) : Type 0 where
  pub step : ℕ
  pub wall_time : fl.Double
  pub summary : Option (List (SummaryValue fl))

is_scalar : {fl : Floats} → SummaryValue fl → Bool
is_scalar v = elim v.scalar [ none ↦ false | some x ↦ true ]

module _ {fl : Floats} where
  -- EventContainsScalar.
  unfoldable pub event_contains_scalar : Event fl → Bool
  unfolding is_scalar
  event_contains_scalar e = elim e.summary [ none ↦ false | some values ↦ any_of is_scalar values ]

  -- `res[tag].emplace_back(point)`; a `std::map` keeps its keys in order.
  unfoldable pub add_point : Text → ScalarPoint fl → ScalarData fl → ScalarData fl
  add_point tag p [] = (tag, p ∷ []) ∷ []
  add_point tag p ((t, ps) ∷ res) =
      let rest = add_point tag p res in
      if text_eq tag t
      then (t, ps ++ p ∷ []) ∷ res
      else if text_lt tag t
      then (tag, p ∷ []) ∷ (t, ps) ∷ res
      else (t, ps) ∷ rest

  module _ (point : ℕ → fl.Float → fl.Double → ScalarPoint fl) where
    -- The loop over the values of an event.
    unfoldable pub add_values :
        ℕ → fl.Double → List (SummaryValue fl) → ScalarData fl → ScalarData fl
    unfolding add_point
    add_values step wall_time [] res = res
    add_values step wall_time (v ∷ values) res =
        add_values step wall_time values
          (elim v.scalar [ none ↦ res | some x ↦ add_point v.tag (point step x wall_time) res ])

    -- ParseRecordToScalar of the two parsers, with `ParseFromString`; `none` is the result false.
    unfoldable pub parse_event_record :
        (List ℕ → Option (Event fl)) → List ℕ → Option (ScalarData fl)
    unfolding event_contains_scalar add_values
    parse_event_record parse record_bytes = elim (parse record_bytes) [
      | none ↦ none
      | some e ↦ if not (event_contains_scalar e) then some [] else elim e.summary [
        | none ↦ some []
        | some values ↦ some (add_values e.step e.wall_time values [])
      ]
    ]

-- ReadRecord of the text parser: a line, if it is ended by a newline.
unfoldable pub read_line : List ℕ → Option (List ℕ × List ℕ)
read_line [] = none
read_line (b ∷ bs) =
    let rest = read_line bs in
    if eqb b 10
    then some ([], bs)
    else elim rest [ none ↦ none | some (line, behind) ↦ some (b ∷ line, behind) ]

-- `find(name) != npos`.
unfoldable pub occurs : List ℕ → List ℕ → Bool
occurs name [] = is_empty name
occurs name (b ∷ bs) =
    let later = occurs name bs in text_eq (take (length name) (b ∷ bs)) name || later

-- The four searches of `ParseRecordToScalar` by regular expressions: what they find, with the numbers
-- that `std::stoll` and `std::stof` make of it.
pub record Patterns (fl : Floats) : Type 0 where
  pub date : Text → Text
  pub step : Text → Option ℕ
  pub loss : Text → Option fl.Float
  pub global_norm : Text → Option fl.Float

module _ {fl : Floats} where
  module _ (patterns : Patterns fl) (point : ℕ → fl.Float → Text → ScalarPoint fl) where
    unfoldable pub add_found : Text → ℕ → Text → Option fl.Float → ScalarData fl → ScalarData fl
    unfolding add_point
    add_found tag step date none res = res
    add_found tag step date (some x) res = add_point tag (point step x date) res

    -- ParseRecordToScalar of the text parser; it never returns false.
    unfoldable pub parse_text_record : List ℕ → Option (ScalarData fl)
    unfolding occurs add_found
    parse_text_record line =
        if is_empty line
        then some []
        else if not (occurs (codes "step") line)
        then some []
        else elim (patterns.step line) [
          | none ↦ some []
          | some step ↦
              let date = patterns.date line in
              let losses = add_found (codes "Loss") step date (patterns.loss line) [] in
              some (add_found (codes "global_norm") step date (patterns.global_norm line) losses)
        ]
