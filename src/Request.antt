-- ===== src/Request.antt =====
-- The line operations of Scalar/server/src/GraphLine/LineOp, and how
-- Scalar/server/src/plugin/Handler/ScalarVisuallyGetScalarDataHandler.cpp makes and runs those of
-- one graph of a request. What the JSON library reads from a line's settings is the record `Config`.
pub mod Lines
pub mod Normal
use mathlib.Core.Option
use blue_workspace_build.Base.{
  ℕ, zero, suc, ◌+◌, ◌-◌, ◌*◌, ◌/◌, ◌%◌, ◌^◌, ◌≤◌, ◌<◌, min, max, ◌≡◌, refl, sym, ap, ◌∙◌, ◌≢◌, ◌↔◌,
  ◌⊎◌, inl, inr, Bool, true, false, not, ◌&&◌, ◌||◌, Option, none, some, List, [], ◌∷◌, ◌++◌, map,
  arith, ltb, leb, eqb, if◌then◌else◌, ltb→lt, lt→ltb, eqb_iff, Bool-cases, Option-cases, length,
  get_elem?, take, drop, is_empty, all_of, any_of, last_or, length-append, last_or-append, All,
  All-append, All-mono, length-take, length-drop, take-append-drop, length-map, get_elem?_total,
  drop-append, drop-nil, Text, codes, text_eq, text_lt, text_eq_iff, text_lt_irrefl, text_lt_trans,
  text_lt_total,
}
use blue_workspace_build.Base.Map
use blue_workspace_build.Base.Map.{Map}
use blue_workspace_build.Concept.{DataMode, ScalarPoint}
use blue_workspace_build.Concept.View.{DataView, get_elements}
use blue_workspace_build.Line.{
  LineType, line_type_key, GraphLine, add_line_data, cast_line_type, build_line_types,
}
use blue_workspace_build.Line.Sample.{sample_process}
use blue_workspace_build.Smoother.Factory.{SmoothingParam}
use blue_workspace_build.Graphs.{Server, find_file}
use blue_workspace_build.Graphs.Virtual.{get_graph_data, update_graph_smoothing}
use blue_workspace_build.Base.Floats.{Floats}
use blue_workspace_build.File.{get_token_cof}
use blue_workspace_build.Manager.{file_of, Stored}

-- struct LineBasicInfo.
pub record LineBasicInfo : Type 0 where
  pub tag : Text
  pub file : Text
  pub start : ℕ
  pub end_ : ℕ

-- NormalLineOp, SmoothingLineOp, TokenLineOp and SampleLineOp; a null parameter is `none`.
pub data LineOp (fl : Floats) : Type 0 where
  normal_op : LineBasicInfo → DataMode → LineOp fl
  smoothing_op : LineBasicInfo → DataMode → Option (SmoothingParam fl) → LineOp fl
  token_op : LineBasicInfo → DataMode → LineOp fl
  sample_op : LineBasicInfo → DataMode → LineOp fl

-- The settings of a line: "type", "enable" and what `BuildSmoothingParam` makes of the rest.
pub record Config (fl : Floats) : Type 0 where
  pub type_name : Text
  pub enable : Bool
  pub param : Option (SmoothingParam fl)

abbrev pub OpMap : Floats → Type 0
OpMap fl = Map LineType (LineOp fl)

-- The operations of a line, by its type.
unfoldable pub op_types : LineType → List LineType
op_types LineType.normal = LineType.normal ∷ LineType.sample ∷ []
op_types LineType.normal_smoothing = LineType.smoothing ∷ LineType.sample ∷ []
op_types LineType.smoothing = LineType.smoothing ∷ LineType.sample ∷ []
op_types LineType.token = LineType.normal ∷ LineType.sample ∷ LineType.token ∷ []
op_types LineType.token_smoothing = LineType.smoothing ∷ LineType.sample ∷ LineType.token ∷ []
op_types LineType.sample = []
op_types LineType.unknown = []

module _ {fl : Floats} where
  -- The switch of `BuildLineOps` with `BuildFromJson`; `none` is a null pointer.
  unfoldable pub make_op : LineType → LineBasicInfo → Config fl → Option (LineOp fl)
  make_op LineType.smoothing info c = some (smoothing_op info DataMode.smoothing c.param)
  make_op LineType.normal info c = some (normal_op info DataMode.normal)
  make_op LineType.token info c = some (token_op info DataMode.token)
  make_op LineType.sample info c = none
  make_op LineType.normal_smoothing info c = none
  make_op LineType.token_smoothing info c = none
  make_op LineType.unknown info c = none

  -- BuildLineOps; `none` is the call of a member of a null pointer.
  unfoldable pub build_line_ops : Config fl → LineBasicInfo → OpMap fl → Option (OpMap fl)
  unfolding make_op cast_line_type
  build_line_ops c info ops =
      let type = cast_line_type c.type_name in
      if not c.enable
      then some ops
      else Option.map (λ op. Map.emplace type op ops) (make_op type info c)

  -- SetDataMode.
  unfoldable pub set_data_mode : DataMode → LineOp fl → LineOp fl
  set_data_mode mode (normal_op info old) = normal_op info mode
  set_data_mode mode (smoothing_op info old param) = smoothing_op info mode param
  set_data_mode mode (token_op info old) = token_op info mode
  set_data_mode mode (sample_op info old) = sample_op info mode

  unfoldable pub change_mode : LineType → DataMode → OpMap fl → OpMap fl
  unfolding set_data_mode
  change_mode type mode ops = elim (Map.get type ops) [
    | none ↦ ops
    | some op ↦ Map.put type (set_data_mode mode op) ops
  ]

  configured : List (Config fl) → LineBasicInfo → OpMap fl → Option (OpMap fl)
  unfolding build_line_ops
  configured [] info ops = some ops
  configured (c ∷ cs) info ops = elim (build_line_ops c info ops) [
    | none ↦ none
    | some ops' ↦ configured cs info ops'
  ]

  -- The part of `BuildLineOP` behind the loop.
  unfoldable pub with_defaults : LineBasicInfo → OpMap fl → OpMap fl
  unfolding change_mode
  with_defaults info ops =
      let sampled = Map.emplace LineType.sample (sample_op info DataMode.sample) ops in
      let all = Map.emplace LineType.normal (normal_op info DataMode.normal) sampled in
      if Map.has LineType.token all
      then change_mode LineType.smoothing DataMode.token_smoothing
          (change_mode LineType.normal DataMode.token_normal all)
      else all

  -- BuildLineOP.
  unfoldable pub build_line_op : List (Config fl) → LineBasicInfo → Option (OpMap fl)
  unfolding configured with_defaults
  build_line_op configs info = Option.map (with_defaults info) (configured configs info [])

  -- Clone; `none` is the use of a null parameter.
  unfoldable pub clone : LineOp fl → Option (LineOp fl)
  clone (normal_op info mode) = some (normal_op info mode)
  clone (smoothing_op info mode none) = none
  clone (smoothing_op info mode (some param)) = some (smoothing_op info mode (some param))
  clone (token_op info mode) = some (token_op info DataMode.token)
  clone (sample_op info mode) = some (sample_op info DataMode.sample)

  -- `opMap.at(type)->Clone()` of each type; `none` is also the exception of `at`.
  unfoldable pub clone_all : List LineType → OpMap fl → Option (List (LineOp fl))
  unfolding clone
  clone_all [] ops = some []
  clone_all (type ∷ types) ops = elim (Map.get type ops) [
    | none ↦ none
    | some op ↦ elim (clone op) [
      | none ↦ none
      | some copy ↦ Option.map (◌∷◌ copy) (clone_all types ops)
    ]
  ]

  -- GetLineOps.
  unfoldable pub get_line_ops : LineType → OpMap fl → Option (List (LineOp fl))
  unfolding clone_all op_types
  get_line_ops type ops = clone_all (op_types type) ops

  -- BuildLine, by the types of the lines.
  unfoldable pub build_line : OpMap fl → List LineType
  unfolding build_line_types
  build_line ops = build_line_types (Map.has LineType.token ops) (Map.has LineType.smoothing ops)

  -- Read the views of a line's graph.
  unfoldable pub fetch : LineBasicInfo → DataMode → GraphLine fl → Server fl → Option (GraphLine fl)
  unfolding get_graph_data
  fetch info mode line s =
      Option.map (λ vs. record line { data_view = vs })
        (get_graph_data info.tag info.file info.start info.end_ mode s)

  -- A point whose step counts tokens.
  unfoldable pub token_point : fl.Double → ScalarPoint fl → ScalarPoint fl
  token_point cof p = record p { step = fl.int_of_d (fl.dmul cof (fl.d_of_int p.step)) }

  -- The tokens of one step; 1 where they are not above 0.
  unfoldable pub token_cof : Stored fl → fl.Double
  unfolding get_token_cof file_of
  token_cof o =
      let cof = get_token_cof (file_of o) in
      if fl.dlt cof fl.dzero || fl.deq cof fl.dzero then fl.done else cof

  -- The loop of `TransViewToData`.
  unfoldable pub trans_views : List (DataView fl) → GraphLine fl → Server fl → Option (GraphLine fl)
  unfolding token_point token_cof get_elements add_line_data find_file
  trans_views [] line s = some line
  trans_views (v ∷ vs) line s = elim (find_file v.file s) [
    | none ↦ trans_views vs line s
    | some (i, o) ↦ elim (get_elements v) [
      | none ↦ none
      | some points ↦ trans_views vs (add_line_data (map (token_point (token_cof o)) points) line) s
    ]
  ]

  -- Process of each operation; `none` is an exception or an access outside a container.
  unfoldable pub process : LineOp fl → GraphLine fl → Server fl → Option (GraphLine fl × Server fl)
  unfolding fetch trans_views sample_process update_graph_smoothing
  process (normal_op info mode) line s = Option.map (λ l. (l, s)) (fetch info mode line s)
  process (smoothing_op info mode param) line s =
      elim (update_graph_smoothing info.tag info.file param s) [
        | none ↦ none
        | some t ↦ Option.map (λ l. (l, t)) (fetch info mode line t)
      ]
  process (token_op info mode) line s =
      if line.view
      then Option.map (λ l. (l, s)) (trans_views line.data_view (record line { view = false }) s)
      else some (line, s)
  process (sample_op info mode) line s = Option.map (λ l. (l, s)) (sample_process line)

  -- The operations of a line, one after the other.
  unfoldable pub process_all :
      List (LineOp fl) → GraphLine fl → Server fl → Option (GraphLine fl × Server fl)
  unfolding process
  process_all [] line s = some (line, s)
  process_all (op ∷ ops) line s = elim (process op line s) [
    | none ↦ none
    | some (l, t) ↦ process_all ops l t
  ]
