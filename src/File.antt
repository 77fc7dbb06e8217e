-- ===== src/File.antt =====
-- Scalar/server/src/FileManager/File.h and File.cpp: the data of one file.
pub mod Boundary
pub mod Invariant
use mathlib.Core.Option
use blue_workspace_build.Base.{
  ℕ, zero, suc, ◌+◌, ◌-◌, ◌*◌, ◌/◌, ◌%◌, ◌^◌, ◌≤◌, ◌<◌, min, max, ◌≡◌, refl, sym, ap, ◌∙◌, ◌≢◌, ◌↔◌,
  ◌⊎◌, inl, inr, Bool, true, false, not, ◌&&◌, ◌||◌, Option, none, some, List, [], ◌∷◌, ◌++◌, map,
  arith, ltb, leb, eqb, if◌then◌else◌, ltb→lt, lt→ltb, eqb_iff, Bool-cases, Option-cases, length,
  get_elem?, take, drop, is_empty, all_of, any_of, last_or, length-append, last_or-append, All,
  All-append, All-mono, length-take, length-drop, take-append-drop, length-map, get_elem?_total,
  drop-append, drop-nil, Text, codes, text_eq, text_lt, text_eq_iff, text_lt_irrefl, text_lt_trans,
  text_lt_total,
}
use blue_workspace_build.Base.Floats.{Floats}
use blue_workspace_build.Base.Map
use blue_workspace_build.Base.Map.{Map, text_key}
use blue_workspace_build.Base.StringSet
use blue_workspace_build.Base.StringSet.{StringSet}
use blue_workspace_build.Concept.{ScalarPoint, DataMode, ParseDataType}
use blue_workspace_build.Concept.View.{DataView, make_view}
use blue_workspace_build.Smoother.Factory.{Smoother, SmoothingParam, smoother_for, sample, equal}

-- enum class FileType.
pub data FileType : Type 0 where
  normal visual : FileType

-- std::numeric_limits<uint64_t>::max().
abbrev pub max_u64 : ℕ
max_u64 = 2 ^ 64 - 1

pub record File (fl : Floats) : Type 0 where
  pub type : FileType
  pub points : Map Text (List (ScalarPoint fl))
  pub smoothed : Map Text (List (ScalarPoint fl))
  pub smoother : Map Text (Smoother fl)
  pub range : Map Text (ℕ × ℕ)
  pub tags : StringSet
  pub file_path : Text
  pub data_type : ParseDataType
  pub offset : ℕ
  pub empty : Bool
  pub imported : Bool
  pub global_batch_size : fl.Double
  pub seq_length : fl.Double

-- The constructor of a file, and the values of its fields in File.h.
unfoldable pub make_file : (fl : Floats) → Text → ParseDataType → File fl
make_file fl path data_type = record {
  type = normal;
  points = [];
  smoothed = [];
  smoother = [];
  range = [];
  tags = [];
  file_path = path;
  data_type = data_type;
  offset = 0;
  empty = false;
  imported = true;
  global_batch_size = fl.dminus_one;
  seq_length = fl.dminus_one;
}

abbrev is_text_log : ParseDataType → Bool
is_text_log ParseDataType.text_log = true
is_text_log ParseDataType.mindspore_summary = false
is_text_log ParseDataType.tf_event = false
is_text_log ParseDataType.unknown = false

-- The range of a tag after new points with the range `new`.
unfoldable pub joined_range : ℕ × ℕ → Option (ℕ × ℕ) → ℕ × ℕ
joined_range new none = new
joined_range new (some old) = (old.0, new.1)

-- The modes in which the ends of the range count tokens.
unfoldable pub counts_tokens : DataMode → Bool
counts_tokens DataMode.token_normal = true
counts_tokens DataMode.token_smoothing = true
counts_tokens DataMode.normal = false
counts_tokens DataMode.smoothing = false
counts_tokens DataMode.token = false
counts_tokens DataMode.sample = false

module _ {fl : Floats} where
  -- GetRangeFromData.
  unfoldable pub get_range_from_data : List (ScalarPoint fl) → ℕ × ℕ
  get_range_from_data [] = (max_u64, max_u64)
  get_range_from_data (p ∷ ps) = (p.step, (last_or p ps).step)

  -- UpdateTokenParam.
  unfoldable pub update_token_param : fl.Double → fl.Double → File fl → File fl
  update_token_param batch_size seq_length f =
      let g =
        if fl.dlt fl.dzero batch_size then record f { global_batch_size = batch_size } else f in
      if fl.dlt fl.dzero seq_length && not (is_text_log f.data_type)
      then record g { seq_length = seq_length }
      else g

  -- GetTokenCof.
  unfoldable pub get_token_cof : File fl → fl.Double
  get_token_cof f =
      if fl.dlt f.global_batch_size fl.dzero || fl.dlt f.seq_length fl.dzero
      then fl.done
      else fl.dmul (fl.dmul f.global_batch_size f.seq_length) fl.dmilli

  -- UpdateRange.
  unfoldable pub update_range : Text → List (ScalarPoint fl) → File fl → File fl
  unfolding get_range_from_data joined_range
  update_range tag points f =
      let new = get_range_from_data points in
      if is_empty points || eqb new.0 max_u64
      then f
      else record f { range = Map.put tag (joined_range new (Map.get tag f.range)) f.range }

  -- The part of `UpdateData` that runs under `dataMutex_`.
  unfoldable pub append_points : Text → List (ScalarPoint fl) → File fl → File fl
  unfolding update_range
  append_points tag points f =
      let g = update_range tag points (record f { tags = StringSet.insert tag f.tags }) in
      record g { points = Map.put tag (Map.get_or [] tag g.points ++ points) g.points }

  -- Run the smoother `s` of a tag on the tag's points and store what it leaves; `none` is an
  -- access outside the smoother's window.
  unfoldable pub run_smoother : Text → Smoother fl → File fl → Option (File fl)
  run_smoother tag s f =
      Option.map
        (λ (r : List (ScalarPoint fl) × Smoother fl). record f {
          smoothed = Map.put tag r.0 f.smoothed;
          smoother = Map.put tag r.1 f.smoother;
        })
        (sample (Map.get_or [] tag f.points) (Map.get_or [] tag f.smoothed) s)

  -- UpdateData.
  unfoldable pub update_data : Text → List (ScalarPoint fl) → File fl → Option (File fl)
  unfolding append_points run_smoother
  update_data tag points f =
      if is_empty points
      then some f
      else (let g = append_points tag points f in
          elim (Map.get tag g.smoother) [ none ↦ some g | some s ↦ run_smoother tag s g ])

  -- UpdateSmoothingData, with the smoother that the tag has. `data_[tag]` makes an entry for a tag
  -- with no points.
  unfoldable pub update_smoothing_data : Text → Smoother fl → File fl → Option (File fl)
  unfolding run_smoother
  update_smoothing_data tag s f =
      run_smoother tag s (record f { points = Map.emplace tag [] f.points })

  -- UpdateSmoothingParam; a null parameter changes nothing.
  unfoldable pub update_smoothing_param :
      Text → Option (SmoothingParam fl) → File fl → Option (File fl)
  unfolding update_smoothing_data
  update_smoothing_param tag none f = some f
  update_smoothing_param tag (some param) f = elim (smoother_for param) [
    | none ↦ none
    | some new ↦ elim (Map.get tag f.smoother) [
      | none ↦ update_smoothing_data tag new f
      | some old ↦ if equal old new then some f else update_smoothing_data tag new f
    ]
  ]

  -- `std::lower_bound` by the step: the first point that is not below `left`.
  unfoldable pub lower_bound : ℕ → List (ScalarPoint fl) → ℕ
  lower_bound left [] = 0
  lower_bound left (p ∷ ps) = if ltb p.step left then suc (lower_bound left ps) else 0

  -- `std::upper_bound` by the step: the first point that is above `right`.
  unfoldable pub upper_bound : ℕ → List (ScalarPoint fl) → ℕ
  upper_bound right [] = 0
  upper_bound right (p ∷ ps) = if ltb right p.step then 0 else suc (upper_bound right ps)

  -- GetBoundary; the points ascend.
  unfoldable pub get_boundary : List (ScalarPoint fl) → ℕ → ℕ → ℕ × ℕ
  unfolding lower_bound upper_bound
  get_boundary points left right = (lower_bound left points, upper_bound right points)

  -- GetIntersectionRange.
  unfoldable pub get_intersection_range : Text → ℕ → ℕ → File fl → Option (ℕ × ℕ)
  get_intersection_range tag left right f = elim (Map.get tag f.range) [
    | none ↦ none
    | some (left_cur, right_cur) ↦
        if ltb right_cur left || ltb right left_cur
        then none
        else some (max left left_cur, min right right_cur)
  ]

  -- The view of the points from `left` to `right`; none where there is no point.
  unfoldable pub view_between : Text → List (ScalarPoint fl) → ℕ → ℕ → List (DataView fl)
  unfolding get_boundary make_view
  view_between path [] left right = []
  view_between path (p ∷ ps) left right =
      let (lower, upper) = get_boundary (p ∷ ps) left right in
      make_view (p ∷ ps) lower upper path ∷ []

  -- GetDataNormal; `none` is the exception of `data_.at`.
  unfoldable pub get_data_normal : Text → ℕ → ℕ → File fl → Option (List (DataView fl))
  unfolding view_between
  get_data_normal tag left right f =
      Option.map (λ ps. view_between f.file_path ps left right) (Map.get tag f.points)

  -- GetSmoothingData.
  unfoldable pub get_smoothing_data : Text → ℕ → ℕ → File fl → List (DataView fl)
  unfolding view_between
  get_smoothing_data tag left right f =
      if not (Map.has tag f.smoother) then [] else elim (Map.get tag f.smoothed) [
        | none ↦ []
        | some ps ↦ view_between f.file_path ps left right
      ]

  -- The switch of `GetData`.
  unfoldable pub data_of_mode : DataMode → Text → ℕ → ℕ → File fl → Option (List (DataView fl))
  unfolding get_data_normal get_smoothing_data
  data_of_mode DataMode.token tag left right f = get_data_normal tag left right f
  data_of_mode DataMode.token_normal tag left right f = get_data_normal tag left right f
  data_of_mode DataMode.normal tag left right f = get_data_normal tag left right f
  data_of_mode DataMode.token_smoothing tag left right f =
      some (get_smoothing_data tag left right f)
  data_of_mode DataMode.smoothing tag left right f = some (get_smoothing_data tag left right f)
  data_of_mode DataMode.sample tag left right f = some []

  -- The ends of the range as steps.
  unfoldable pub step_ends : DataMode → ℕ → ℕ → File fl → ℕ × ℕ
  unfolding counts_tokens get_token_cof
  step_ends mode left right f =
      if counts_tokens mode
      then (fl.floor_div left (get_token_cof f), fl.ceil_div right (get_token_cof f))
      else (left, right)

  -- GetData; `none` is an exception.
  unfoldable pub get_data : Text → ℕ → ℕ → DataMode → File fl → Option (List (DataView fl))
  unfolding get_intersection_range data_of_mode step_ends
  get_data tag left right mode f =
      let (left', right') = step_ends mode left right f in
      if not (StringSet.contains tag f.tags)
      then some []
      else elim (get_intersection_range tag left' right' f) [
        | none ↦ some []
        | some (l, r) ↦ data_of_mode mode tag l r f
      ]

  -- ContainsData.
  unfoldable pub contains_data : Text → File fl → Bool
  contains_data tag f = Map.has tag f.points
