-- ===== src/Handler/ImportFile.antt =====
-- Scalar/server/src/plugin/Handler/ScalarVisuallyImportFileHandler.cpp and
-- ScalarVisuallyGetParseState.cpp, with the members of ScalarVisuallyServer that they change.

use mathlib.Core.Option.{some-injective}
use blue_workspace_build.Base.{
  ℕ, ◌+◌, ◌%◌, ◌^◌, ◌≡◌, refl, Bool, true, Option, some, List, [], ◌∷◌, if◌then◌else◌, length, Text,
  codes,
}
use blue_workspace_build.Base.Floats.{Floats}
use blue_workspace_build.Base.Map.{Map, text_key}
use blue_workspace_build.Base.StringSet
use blue_workspace_build.Base.StringSet.{StringSet}
use blue_workspace_build.Concept.{ParseDataType}
use blue_workspace_build.Json.{
  Json, ◌>>=◌, both, both-true, map_all, member_is, get_member, get_member_total, all_members,
  all_members_total,
}
use blue_workspace_build.Graphs.{Server}
use blue_workspace_build.Watcher.{Inotify, Watcher, reset_watcher}
use blue_workspace_build.Progress.{ParseState, get_project_parse_status}
use blue_workspace_build.Import.{FileSystem, get_import_files}
use blue_workspace_build.Plugin.{Reader, reset_server, add_parse_task}
use blue_workspace_build.Handler.{Parsed, parse_request}

-- struct ImportFileRequest.
pub record ImportFileRequest : Type 0 where
  pub append : Bool
  pub path_list : List Text

-- class ScalarVisuallyServer; `next_project` is `projectId` of `GetProjectName`.
pub record Visual (fl : Floats) (n : Inotify) : Type 0 where
  pub server : Server fl
  pub watcher : Watcher n
  pub states : Map Text ParseState
  pub imported_paths : StringSet
  pub next_project : ℕ

module _ {fl : Floats} (j : Json fl) where
  -- CheckParamValid of the import.
  unfoldable pub check_import : j.Value → Option Bool
  unfolding both member_is all_members
  check_import v = both (member_is j (codes "append") j.bool v) (
      both (member_is j (codes "pathList") j.array v)
        (all_members j (codes "pathList") (λ item. some (j.text.is item)) v))

  unfoldable pub read_import : j.Value → Option ImportFileRequest
  unfolding get_member map_all
  read_import v = do
    append ← get_member j (codes "append") j.bool v
    items ← get_member j (codes "pathList") j.array v
    paths ← map_all j.text.get items
    some record { append = append; path_list = paths }

  -- ParseReqeustFromJson of the import.
  unfoldable pub parse_import : Text → Option (Parsed ImportFileRequest)
  unfolding parse_request
  parse_import = parse_request j check_import read_import

  -- CheckParamValid of the parse states.
  unfoldable pub check_parse_state : j.Value → Option Bool
  unfolding both member_is all_members
  check_parse_state v = both (some (j.object.is v)) (
      both (member_is j (codes "projectNameLists") j.array v)
        (all_members j (codes "projectNameLists") (λ item. some (j.text.is item)) v))

  unfoldable pub read_parse_state : j.Value → Option (List Text)
  unfolding get_member map_all
  read_parse_state v = do
    items ← get_member j (codes "projectNameLists") j.array v
    map_all j.text.get items

  -- ParseRequestFromJson of the parse states.
  unfoldable pub parse_parse_state : Text → Option (Parsed (List Text))
  unfolding parse_request
  parse_parse_state = parse_request j check_parse_state read_parse_state

  -- A document that passes the check of an import is read without a failed assertion, with a path
  -- for each entry of its list.
  pub read_import_total :
      (v : j.Value)
      → check_import v ≡ some true
      → (r : ImportFileRequest) × (items : List j.Value) × (read_import v ≡ some r)
        × (get_member j (codes "pathList") j.array v ≡ some items)
        × (length r.path_list ≡ length items)
  unfolding check_import read_import
  read_import_total v h =
      let (appended, h1) = both-true _ _ h in
      let (_, listed) = both-true (member_is j (codes "pathList") j.array v) _ h1 in
      let (append, a) = get_member_total j (codes "append") j.bool v appended in
      let (items, paths, c, d, same) =
        all_members_total j (codes "pathList") (λ item. some (j.text.is item)) j.text.get v read
          listed in
      (
        record { append = append; path_list = paths },
        items,
        rw (read_import, a, c, d) refl,
        c,
        same,
      )
    where
      read : (x : j.Value) → some (j.text.is x) ≡ some true → (t : Text) × (j.text.get x ≡ some t)
      read x e = j.text.total x (some-injective _ _ e)

-- The states that `run` of the parse states asks for, one after the other.
unfoldable pub query_states :
    List Text → Map Text ParseState → List (Text × Bool × ℕ) × Map Text ParseState
unfolding get_project_parse_status
query_states [] states = ([], states)
query_states (name ∷ names) states =
    let (reply, after) = get_project_parse_status name states in
    let (replies, last) = query_states names after in (reply ∷ replies, last)

-- `AddImportedPath` for each path of a request.
unfoldable pub add_imported_paths : FileSystem → (Text → Text) → List Text → StringSet → StringSet
add_imported_paths fs parent_path [] imported = imported
add_imported_paths fs parent_path (path ∷ paths) imported =
    add_imported_paths fs parent_path paths
      (StringSet.insert (if fs.is_directory path then path else parent_path path) imported)

module _ {fl : Floats} {n : Inotify} where
  -- ScalarVisuallyServer::Reset.
  unfoldable pub reset_visual : Visual fl n → Visual fl n
  unfolding reset_server reset_watcher
  reset_visual v = record v {
    server = reset_server v.server;
    watcher = reset_watcher v.watcher;
    states = [];
    imported_paths = [];
  }

  module _ (fs : FileSystem) (supported : Text → Bool) (parent_path : Text → Text)
      (file_size : Text → ℕ) (to_string : ℕ → Text) (type_of : Text → ParseDataType)
      (parser : ParseDataType → Option (Reader fl)) where
    -- `run` of the import behind the parsing: the name of the project. `none` is a run out of fuel
    -- in the scan, or the use of a null pointer.
    unfoldable pub import_files : ℕ → ImportFileRequest → Visual fl n → Option (Text × Visual fl n)
    unfolding reset_visual add_imported_paths get_import_files add_parse_task
    import_files fuel r visual = do
      let start = if r.append then visual else reset_visual visual
      let project = to_string start.next_project
      files ← get_import_files fs supported fuel r.path_list
      (states, server) ←
          add_parse_task type_of parser file_size project files start.states start.server
      some (
        project,
        record start {
          server = server;
          states = states;
          imported_paths = add_imported_paths fs parent_path r.path_list start.imported_paths;
          next_project = (start.next_project + 1) % 2 ^ 64;
        },
      )
