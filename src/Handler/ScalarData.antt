-- ===== src/Handler/ScalarData.antt =====
-- Scalar/server/src/plugin/Handler/ScalarVisuallyGetScalarDataHandler.cpp with the settings of a line
-- from LineOpFactory.h and SmootherFactory.h of Scalar/server/src/GraphLine.
use mathlib.Core.Option
use blue_workspace_build.Base.{
  ◌≡◌, refl, Bool, true, false, ◌&&◌, Option, none, some, List, if◌then◌else◌, length, Text, codes,
  text_eq,
}
use blue_workspace_build.Base.Floats.{Floats}
use blue_workspace_build.Json.{
  Json, ◌>>=◌, both, both-true, map_all, member_is, get_member, get_member_total, all_members,
  all_members_total, member_or,
}
use blue_workspace_build.Smoother.Factory.{
  SmoothingParam, ir_param, median_param, topx_param, smoothing_name, window_median_name,
  window_topx_name,
}
use blue_workspace_build.Line.{LineType, cast_line_type}
use blue_workspace_build.Request.{LineBasicInfo, Config}
use blue_workspace_build.Handler.{Parsed, parse_request}

-- struct SingleGraphReqInfo.
pub record SingleGraphReqInfo (V : Type 0) : Type 0 where
  pub info : LineBasicInfo
  pub graph_lines : List V

-- The condition of the line settings that make a smoothing parameter.
unfoldable pub is_smoothing : LineType → Bool
is_smoothing LineType.smoothing = true
is_smoothing LineType.normal = false
is_smoothing LineType.sample = false
is_smoothing LineType.token = false
is_smoothing LineType.normal_smoothing = false
is_smoothing LineType.token_smoothing = false
is_smoothing LineType.unknown = false

module _ {fl : Floats} (j : Json fl) where
  -- The lambda of `CheckParamValid`.
  unfoldable pub check_graph : j.Value → Option Bool
  unfolding both member_is
  check_graph item = both (member_is j (codes "tag") j.text item) (
      both (member_is j (codes "file") j.text item) (
        both (member_is j (codes "start") j.int64 item) (
          both (member_is j (codes "end") j.int64 item)
            (member_is j (codes "graphConfig") j.array item))))

  -- CheckParamValid.
  unfoldable pub check_scalar_data : j.Value → Option Bool
  unfolding check_graph all_members
  check_scalar_data v =
      both (member_is j (codes "graphList") j.array v)
        (all_members j (codes "graphList") check_graph v)

  -- One entry of "graphList".
  unfoldable pub read_graph : j.Value → Option (SingleGraphReqInfo j.Value)
  unfolding get_member
  read_graph item = do
    tag ← get_member j (codes "tag") j.text item
    file ← get_member j (codes "file") j.text item
    start ← get_member j (codes "start") j.int64 item
    end_ ← get_member j (codes "end") j.int64 item
    configs ← get_member j (codes "graphConfig") j.array item
    some record {
      info = record { tag = tag; file = file; start = start; end_ = end_ };
      graph_lines = configs;
    }

  -- The part of `ParseRequestFromJson` behind the check.
  unfoldable pub read_scalar_data : j.Value → Option (List (SingleGraphReqInfo j.Value))
  unfolding read_graph map_all
  read_scalar_data v = do
    items ← get_member j (codes "graphList") j.array v
    map_all read_graph items

  -- ParseRequestFromJson.
  unfoldable pub parse_scalar_data : Text → Option (Parsed (List (SingleGraphReqInfo j.Value)))
  unfolding parse_request
  parse_scalar_data = parse_request j check_scalar_data read_scalar_data

  -- The constructors of the parameters from JSON.
  unfoldable pub read_ir_param : j.Value → Option (SmoothingParam fl)
  unfolding member_or
  read_ir_param v = do
    weight ← member_or j fl.fzero (codes "weight") j.float v
    some (ir_param weight)

  unfoldable pub read_median_param : j.Value → Option (SmoothingParam fl)
  unfolding member_or
  read_median_param v = do
    size ← member_or j 0 (codes "windowSize") j.uint64 v
    some (median_param size)

  unfoldable pub read_topx_param : j.Value → Option (SmoothingParam fl)
  unfolding member_or
  read_topx_param v = do
    size ← member_or j 0 (codes "windowSize") j.uint64 v
    top ← member_or j fl.dzero (codes "top") j.double v
    some (topx_param size top)

  -- SmootherParamFactory::BuildSmoothingParam; a null pointer is an inner `none`.
  unfoldable pub build_smoothing_param : j.Value → Option (Option (SmoothingParam fl))
  unfolding read_ir_param read_median_param read_topx_param
  build_smoothing_param v = do
    algorithm ← get_member j (codes "algorithm") j.text v
    if text_eq algorithm smoothing_name
        then Option.map some (read_ir_param v)
        else if text_eq algorithm window_median_name
        then Option.map some (read_median_param v)
        else if text_eq algorithm window_topx_name
        then Option.map some (read_topx_param v)
        else some none

  -- What `BuildLineOps` reads of the settings of one line.
  unfoldable pub read_config : j.Value → Option (Config fl)
  unfolding build_smoothing_param is_smoothing cast_line_type
  read_config v = do
    name ← get_member j (codes "type") j.text v
    enable ← get_member j (codes "enable") j.bool v
    param ←
        (if enable && is_smoothing (cast_line_type name)
          then build_smoothing_param v
          else some none)
    some record { type_name = name; enable = enable; param = param }

  pub check_graph_total :
      (item : j.Value)
      → check_graph item ≡ some true
      → (r : SingleGraphReqInfo j.Value) × (read_graph item ≡ some r)
        × (get_member j (codes "graphConfig") j.array item ≡ some r.graph_lines)
  unfolding check_graph read_graph
  check_graph_total item h =
      let (tagged, h1) = both-true _ _ h in
      let (filed, h2) = both-true _ _ h1 in
      let (started, h3) = both-true _ _ h2 in
      let (ended, listed) = both-true _ _ h3 in
      let (tag, a) = get_member_total j (codes "tag") j.text item tagged in
      let (file, b) = get_member_total j (codes "file") j.text item filed in
      let (start, c) = get_member_total j (codes "start") j.int64 item started in
      let (end_, d) = get_member_total j (codes "end") j.int64 item ended in
      let (configs, e) = get_member_total j (codes "graphConfig") j.array item listed in
      (
        record {
          info = record { tag = tag; file = file; start = start; end_ = end_ };
          graph_lines = configs;
        },
        rw (read_graph, a, b, c, d, e) refl,
        e,
      )

  -- A document that passes `CheckParamValid` is read without a failed assertion, with one graph for
  -- each entry of its list.
  pub read_scalar_data_total :
      (v : j.Value)
      → check_scalar_data v ≡ some true
      → (items : List j.Value) × (r : List (SingleGraphReqInfo j.Value)) × (get_member j
            (codes "graphList")
            j.array
            v
          ≡ some items)
        × (read_scalar_data v ≡ some r)
        × (length r ≡ length items)
  unfolding check_scalar_data read_scalar_data
  read_scalar_data_total v h =
      let (_, checked) = both-true (member_is j (codes "graphList") j.array v) _ h in
      let (items, r, got, made, same) =
        all_members_total j (codes "graphList") check_graph read_graph v read checked in
      (items, r, got, rw (read_scalar_data, got) made, same)
    where
      read :
          (item : j.Value)
          → check_graph item ≡ some true
          → (r : SingleGraphReqInfo j.Value) × (read_graph item ≡ some r)
      read item e = let (r, made, _) = check_graph_total item e in (r, made)
