-- ===== src/Handler/Response.antt =====
-- `ProcessSingleGraphReq`, `BuildDateIndex` and `run` of
-- Scalar/server/src/plugin/Handler/ScalarVisuallyGetScalarDataHandler.cpp. The answer is the record
-- that the source builds; the writing of its text is left out.

use mathlib.Core.Option.{some-injective}
use blue_workspace_build.Base.{
  ℕ, ◌+◌, ◌-◌, ◌%◌, ◌^◌, ◌≤◌, min, ◌≡◌, refl, sym, ◌∙◌, ◌⊎◌, inl, inr, true, not, ◌&&◌, Option,
  none, some, List, [], ◌∷◌, ◌++◌, eqb, if◌then◌else◌, Option-cases, length, take, is_empty, Text,
  codes, text_eq,
}
use blue_workspace_build.Base.Floats.{Floats}
use blue_workspace_build.Base.Map
use blue_workspace_build.Base.Map.{text_key}
use blue_workspace_build.Concept.{ScalarPoint}
use blue_workspace_build.Json.{Json, ◌>>=◌, map_all, get_member}
use blue_workspace_build.Line.{
  LineType, GraphLine, LineData, make_line, get_line_data, cast_line_type_str, build_line_types,
  line_type_same,
}
use blue_workspace_build.Graphs.{Server}
use blue_workspace_build.File.{File}
use blue_workspace_build.File.Boundary.{between}
use blue_workspace_build.File.Invariant.{IsFile}
use blue_workspace_build.Request.{
  LineBasicInfo, LineOp, OpMap, build_line_op, build_line, get_line_ops, process_all, with_defaults,
  clone, clone_all, op_types,
}
use blue_workspace_build.Request.Normal.{Serves, normal_ops, normal_line-between}
use blue_workspace_build.Handler.{Parsed, accepted, rejected}
use blue_workspace_build.Handler.ScalarData.{
  SingleGraphReqInfo, read_config, parse_scalar_data, check_graph, read_graph, check_graph_total,
}

-- An entry of `dateIndex_`; the `double` of its value is given by the `float` that it is made of.
pub record DateEntry (fl : Floats) : Type 0 where
  pub step : ℕ
  pub value : fl.Float
  pub date : Text

-- struct ScalarResponse.
pub record ScalarResponse (fl : Floats) : Type 0 where
  pub tag : Text
  pub file : Text
  pub lines : List (LineData fl)
  pub date_index : List (DateEntry fl)

-- `find(',')`; `npos` is 2 ^ 64 - 1.
unfoldable pub find_comma : ℕ → Text → ℕ
find_comma pos [] = 2 ^ 64 - 1
find_comma pos (b ∷ bs) = let rest = find_comma (pos + 1) bs in if eqb b 44 then pos else rest

-- `substr(0, pos - 9)`.
unfoldable pub date_of : Text → Text
unfolding find_comma
date_of text = take (min (length text) ((find_comma 0 text + 2 ^ 64 - 9) % 2 ^ 64)) text

module _ {fl : Floats} where
  -- The loop of `BuildDateIndex`; in every case the date becomes `lastDate`.
  unfoldable pub build_date_index : Text → List (ScalarPoint fl) → List (DateEntry fl)
  unfolding date_of
  build_date_index last [] = []
  build_date_index last (p ∷ ps) =
      let date = date_of p.local_time in
      let rest = build_date_index date ps in
      if is_empty date
      then rest
      else if not (text_eq date last)
      then record { step = p.step; value = p.value; date = date } ∷ rest
      else rest

  -- The operations of each line, by `GetLineOps`.
  unfoldable pub plan_lines : List LineType → OpMap fl → Option (List (LineType × List (LineOp fl)))
  unfolding get_line_ops
  plan_lines [] ops = some []
  plan_lines (type ∷ types) ops = do
    line_ops ← get_line_ops type ops
    rest ← plan_lines types ops
    some ((type, line_ops) ∷ rest)

  -- The body of the loop over the lines.
  unfoldable pub add_line : LineType → List (ScalarPoint fl) → ScalarResponse fl → ScalarResponse fl
  unfolding build_date_index cast_line_type_str
  add_line type points r = record r {
    lines = r.lines ++ record { line_type_name = cast_line_type_str type; points = points } ∷ [];
    date_index =
        if is_empty r.date_index && not (is_empty points)
        then build_date_index [] points
        else r.date_index;
  }

  -- That loop.
  unfoldable pub process_lines :
      List (LineType × List (LineOp fl))
      → ScalarResponse fl
      → Server fl
      → Option (ScalarResponse fl × Server fl)
  unfolding process_all get_line_data make_line add_line
  process_lines [] r s = some (r, s)
  process_lines ((type, ops) ∷ plan) r s = do
    (line, t) ← process_all ops (make_line fl type) s
    (points, moved) ← get_line_data line
    process_lines plan (add_line type points r) t

module _ {fl : Floats} (j : Json fl) where
  -- ProcessSingleGraphReq; `none` is an exception, a failed assertion or an access outside a
  -- container.
  unfoldable pub process_single :
      SingleGraphReqInfo j.Value → Server fl → Option (ScalarResponse fl × Server fl)
  unfolding read_config map_all build_line_op build_line plan_lines process_lines
  process_single req s = do
    configs ← map_all (read_config j) req.graph_lines
    ops ← build_line_op configs req.info
    plan ← plan_lines (build_line ops) ops
    process_lines plan
        (record { tag = req.info.tag; file = req.info.file; lines = []; date_index = [] }) s

  -- The loop of `run`.
  unfoldable pub process_requests :
      List (SingleGraphReqInfo j.Value) → Server fl → Option (List (ScalarResponse fl) × Server fl)
  unfolding process_single
  process_requests [] s = some ([], s)
  process_requests (req ∷ reqs) s = do
    (response, t) ← process_single req s
    (rest, u) ← process_requests reqs t
    some (response ∷ rest, u)

  -- The answer of a parsed request.
  unfoldable pub answer_scalar_data :
      Parsed (List (SingleGraphReqInfo j.Value))
      → Server fl
      → Option (Parsed (List (ScalarResponse fl)) × Server fl)
  unfolding process_requests
  answer_scalar_data (rejected code) s = some (rejected code, s)
  answer_scalar_data (accepted reqs) s = do
    (responses, t) ← process_requests reqs s
    some (accepted responses, t)

  -- run.
  unfoldable pub run_scalar_data :
      Text → Server fl → Option (Parsed (List (ScalarResponse fl)) × Server fl)
  unfolding parse_scalar_data answer_scalar_data
  run_scalar_data body s = do parsed ← parse_scalar_data j body; answer_scalar_data parsed s

  -- The answer to a request without settings of lines.
  abbrev pub normal_response : LineBasicInfo → List (ScalarPoint fl) → ScalarResponse fl
  normal_response info points = record {
    tag = info.tag;
    file = info.file;
    lines = record { line_type_name = codes "normal"; points = points } ∷ [];
    date_index = build_date_index [] points;
  }

  plan_lines-normal :
      (info : LineBasicInfo)
      → plan_lines (build_line (with_defaults {fl = fl} info [])) (with_defaults {fl = fl} info [])
        ≡ some ((LineType.normal, normal_ops info) ∷ [])
  unfolding plan_lines with_defaults build_line build_line_types get_line_ops clone_all clone
      op_types line_type_same Map.has Map.get Map.emplace
  plan_lines-normal info = refl

  add_line-normal :
      (info : LineBasicInfo) (points : List (ScalarPoint fl))
      → add_line LineType.normal points
          (record { tag = info.tag; file = info.file; lines = []; date_index = [] })
        ≡ normal_response info points
  unfolding add_line build_date_index
  add_line-normal info [] = refl
  add_line-normal info (p ∷ points) = refl

  process_single-normal_ops :
      (info : LineBasicInfo) (points : List (ScalarPoint fl)) (line after : GraphLine fl)
      (s : Server fl)
      → process_all (normal_ops info) (make_line fl LineType.normal) s ≡ some (line, s)
      → get_line_data line ≡ some (points, after)
      → process_single (record { info = info; graph_lines = [] }) s
        ≡ some (normal_response info points, s)
  unfolding process_single process_lines
  process_single-normal_ops info points line after s e f =
      rw (process_single, plan_lines-normal info, process_lines, e, f, add_line-normal info points)
        refl

  -- A request without settings of lines, for a tag of a well-formed file that the server has with
  -- at most 20001 points of the tag, and with ordered ends, is answered with one normal line that
  -- holds exactly the points whose steps lie between the ends, and with the dates of these points;
  -- the server is left as it was.
  pub process_single_normal :
      (info : LineBasicInfo) (f : File fl) (s : Server fl) (p : ScalarPoint fl)
      (ps : List (ScalarPoint fl))
      → Serves info.tag info.file f s
      → IsFile f
      → Map.get info.tag f.points ≡ some (p ∷ ps)
      → length (p ∷ ps) ≤ 20001
      → info.start ≤ info.end_
      → process_single (record { info = info; graph_lines = [] }) s
        ≡ some (normal_response info (between info.start info.end_ (p ∷ ps)), s)
  process_single_normal info f s p ps serves inv here small h =
      let (line, after, done, read) = normal_line-between info f s p ps serves inv here small h in
      process_single-normal_ops info _ line after s done read

  read_config-untyped :
      (conf : j.Value)
      → (get_member j (codes "type") j.text conf ≡ none)
        ⊎ (get_member j (codes "enable") j.bool conf ≡ none)
      → read_config j conf ≡ none
  unfolding read_config
  read_config-untyped conf (inl e) = rw (read_config, e) refl
  read_config-untyped conf (inr e) = elim (Option-cases (get_member j (codes "type") j.text conf)) [
    | inl f ↦ rw (read_config, f) refl
    | inr (name, f) ↦ rw (read_config, f, e) refl
  ]

  -- An entry of a request that passes the check, and whose first settings of a line have no
  -- readable "type" or no readable "enable", is read, and its processing fails an assertion.
  pub process_single_untyped :
      (item conf : j.Value) (rest : List j.Value) (s : Server fl)
      → check_graph j item ≡ some true
      → get_member j (codes "graphConfig") j.array item ≡ some (conf ∷ rest)
      → (get_member j (codes "type") j.text conf ≡ none)
        ⊎ (get_member j (codes "enable") j.bool conf ≡ none)
      → (r : SingleGraphReqInfo j.Value) × (read_graph j item ≡ some r)
        × (process_single r s ≡ none)
  unfolding process_single map_all
  process_single_untyped item conf rest s h g u =
      let (r, made, lines) = check_graph_total j item h in
      let same : r.graph_lines ≡ conf ∷ rest = some-injective _ _ (sym lines ∙ g) in
      (r, made, rw (process_single, same, map_all, read_config-untyped conf u) refl)
