-- ===== src/Handler/Answer.antt =====
-- The answers of Scalar/server/src/plugin/Handler as texts: `run` and `SetResponse` of the handlers
-- that only ask the server (ScalarVisuallyGetAllGraphHandler.cpp, ScalarVisuallyGetIncrementalTag.cpp,
-- ScalarVisuallyQueryCreatedFile.cpp), of ScalarVisuallyGetParseState.cpp, and `SetResponse` of
-- ScalarVisuallyFileMergeHandler.cpp and ScalarVisuallyImportFileHandler.cpp.
pub mod Read
pub mod Served
pub mod States
pub mod Replies
use mathlib.Core.Option
use blue_workspace_build.Base.{
  ℕ, zero, suc, ◌+◌, ◌-◌, ◌*◌, ◌/◌, ◌%◌, ◌^◌, ◌≤◌, ◌<◌, min, max, ◌≡◌, refl, sym, ap, ◌∙◌, ◌≢◌, ◌↔◌,
  ◌⊎◌, inl, inr, Bool, true, false, not, ◌&&◌, ◌||◌, Option, none, some, List, [], ◌∷◌, ◌++◌, map,
  arith, ltb, leb, eqb, if◌then◌else◌, ltb→lt, lt→ltb, eqb_iff, Bool-cases, Option-cases, length,
  get_elem?, take, drop, is_empty, all_of, any_of, last_or, length-append, last_or-append, All,
  All-append, All-mono, length-take, length-drop, take-append-drop, length-map, get_elem?_total,
  drop-append, drop-nil, Text, codes, text_eq, text_lt, text_eq_iff, text_lt_irrefl, text_lt_trans,
  text_lt_total,
}
use blue_workspace_build.Base.Floats.{Floats}
use blue_workspace_build.Base.StringSet.{StringSet}
use blue_workspace_build.Base.Map.{Map, text_key}
use blue_workspace_build.Concept.{ErrCode}
use blue_workspace_build.Json.{Json, ◌>>=◌, map_all}
use blue_workspace_build.Json.Writer.{
  Writer, basic_response, add_members, texts_value, set_response_error, set_body,
}
use blue_workspace_build.Graphs.{Server, get_all_graph_info, get_incremental}
use blue_workspace_build.Manager.{get_created}
use blue_workspace_build.Progress.{ParseState}
use blue_workspace_build.Handler.{Parsed, accepted, rejected}
use blue_workspace_build.Handler.ImportFile.{parse_parse_state, query_states}
use blue_workspace_build.Handler.FileMerge.{FileMergeResponse}

-- GetReadableFileName; `fs::path::filename` is a parameter.
unfoldable pub get_readable_file_name : (Text → Text) → Text → Text
get_readable_file_name filename path = if is_empty path then [] else filename path

-- The message of a request that was rejected; what the parser of JSON tells is a parameter.
unfoldable pub error_message : (Text → Text) → Text → ErrCode → Text
error_message parse_error body code = elim code [
  | ErrCode.invalid_request_json ↦ codes "Invalid request json, error:" ++ parse_error body
  | _ ↦ codes "Invalid request param"
]

module _ {fl : Floats} {j : Json fl} (wr : Writer j) where
  -- The array that a SetResponse makes of a container, under a name of the body.
  unfoldable pub set_list : {A : Type 0} → Text → (A → Option j.Value) → List A → Text → Option Text
  unfolding set_body map_all
  set_list name write xs text = do vs ← map_all write xs; set_body wr name (wr.array_value vs) text

  -- An item of `fileList` of a graph.
  unfoldable pub write_graph_file : (Text → Text) → Text → Option j.Value
  unfolding add_members get_readable_file_name
  write_graph_file filename file =
      add_members wr
        ((codes "path", wr.text_value file)
          ∷ (codes "name", wr.text_value (get_readable_file_name filename file))
          ∷ [])
        wr.empty_object

  -- The body of the loop over the graphs.
  unfoldable pub write_graph : (Text → Text) → Text × List Text → Option j.Value
  unfolding add_members write_graph_file map_all
  write_graph filename (tag, files) = do
    list ← map_all (write_graph_file filename) files
    add_members wr ((codes "tag", wr.text_value tag) ∷ (codes "fileList", wr.array_value list) ∷ [])
        wr.empty_object

  -- `run` of the request for all graphs; the value of `run` is true.
  unfoldable pub run_get_all_graph : (Text → Text) → Server fl → Option Text
  unfolding set_list write_graph
  run_get_all_graph filename s =
      set_list (codes "data") (write_graph filename) (get_all_graph_info s) basic_response

  -- The body of the loop over the folders.
  unfoldable pub write_created : Text × StringSet → Option j.Value
  unfolding add_members texts_value
  write_created (dir, files) =
      add_members wr
        ((codes "dir", wr.text_value dir) ∷ (codes "fileList", texts_value wr files) ∷ [])
        wr.empty_object

  -- `run` of the request for the files that were created.
  unfoldable pub run_query_created_file : Server fl → Option (Text × Server fl)
  unfolding set_list write_created get_created
  run_query_created_file s = do
    let (created, manager) = get_created s.manager
    text ← set_list (codes "data") write_created created basic_response
    some (text, record s { manager = manager })

  -- An item of `fileList` of a tag that is new, with the parts of its path.
  unfoldable pub write_tag_file :
      (Text → Text) → (Text → Option (List Text)) → Text → Option j.Value
  unfolding add_members get_readable_file_name texts_value
  write_tag_file filename hierarchy file = do
    dirs ← hierarchy file
    add_members wr
        ((codes "name", wr.text_value (get_readable_file_name filename file))
          ∷ (codes "path", wr.text_value file)
          ∷ (codes "dirs", texts_value wr dirs)
          ∷ [])
        wr.empty_object

  -- The body of the loop over the tags.
  unfoldable pub write_tag :
      (Text → Text) → (Text → Option (List Text)) → Text × StringSet → Option j.Value
  unfolding add_members write_tag_file map_all
  write_tag filename hierarchy (tag, files) = do
    list ← map_all (write_tag_file filename hierarchy) files
    add_members wr ((codes "tag", wr.text_value tag) ∷ (codes "fileList", wr.array_value list) ∷ [])
        wr.empty_object

  -- `run` of the request for the tags that are new.
  unfoldable pub run_get_incremental :
      (Text → Text) → (Text → Option (List Text)) → Server fl → Option (Text × Server fl)
  unfolding set_list write_tag get_incremental
  run_get_incremental filename hierarchy s = do
    let (tags, t) = get_incremental s
    text ← set_list (codes "data") (write_tag filename hierarchy) tags basic_response
    some (text, t)

  -- The lambda of SetResponse of the parse states.
  unfoldable pub write_state : Text × Bool × ℕ → Option j.Value
  unfolding add_members
  write_state (name, finish, percent) =
      add_members wr
        ((codes "projectName", wr.text_value name)
          ∷ (codes "finish", wr.bool_value finish)
          ∷ (codes "percent", wr.int_value percent)
          ∷ [])
        wr.empty_object

  -- `run` of the parse states, with its value.
  unfoldable pub answer_parse_state :
      (Text → Text)
      → Text
      → Parsed (List Text)
      → Map Text ParseState
      → Option (Bool × Text × Map Text ParseState)
  unfolding set_response_error set_list write_state query_states error_message
  answer_parse_state parse_error body (rejected code) states = do
    text ← set_response_error wr code (error_message parse_error body code) basic_response
    some (false, text, states)
  answer_parse_state parse_error body (accepted names) states = do
    let (replies, after) = query_states names states
    text ← set_list (codes "stateList") write_state replies basic_response
    some (true, text, after)

  unfoldable pub run_get_parse_state :
      (Text → Text) → Text → Map Text ParseState → Option (Bool × Text × Map Text ParseState)
  unfolding parse_parse_state answer_parse_state
  run_get_parse_state parse_error body states = do
    parsed ← parse_parse_state j body
    answer_parse_state parse_error body parsed states

  -- SetResponse of a merge.
  unfoldable pub set_merge_response : FileMergeResponse → Text → Option Text
  unfolding add_members texts_value set_body
  set_merge_response r text = do
    data_ ←
        add_members wr
          ((codes "file", wr.text_value r.file)
            ∷ (codes "tags", texts_value wr r.tag)
            ∷ (codes "fileList", texts_value wr r.sub_files)
            ∷ (codes "action", wr.text_value r.action)
            ∷ [])
          wr.empty_object
    set_body wr (codes "data") data_ text

  -- SetResponse of an import.
  unfoldable pub set_import_response : Text → Text → Option Text
  unfolding set_body
  set_import_response project text = set_body wr (codes "projectName") (wr.text_value project) text
