-- ===== src/Plugin.antt =====
-- Scalar/server/src/plugin/ScalarVisuallyServer.cpp: importing files and keeping them up to date, with
-- `OnFileCreated` and `OnFileWriteClose` of Scalar/server/src/FileManager/FileWatcherLinuxImpl.cpp
-- and `CreateFileParse` of Scalar/server/src/parser/ParserFactory.h. A task is the number of the file
-- that it parses.
pub mod Update
use mathlib.Core.Option
use blue_workspace_build.Base.{
  ℕ, zero, suc, ◌+◌, ◌-◌, ◌*◌, ◌/◌, ◌%◌, ◌^◌, ◌≤◌, ◌<◌, min, max, ◌≡◌, refl, sym, ap, ◌∙◌, ◌≢◌, ◌↔◌,
  ◌⊎◌, inl, inr, Bool, true, false, not, ◌&&◌, ◌||◌, Option, none, some, List, [], ◌∷◌, ◌++◌, map,
  arith, ltb, leb, eqb, if◌then◌else◌, ltb→lt, lt→ltb, eqb_iff, Bool-cases, Option-cases, length,
  get_elem?, take, drop, is_empty, all_of, any_of, last_or, length-append, last_or-append, All,
  All-append, All-mono, length-take, length-drop, take-append-drop, length-map, get_elem?_total,
  drop-append, drop-nil, Text, codes, text_eq, text_lt, text_eq_iff, text_lt_irrefl, text_lt_trans,
  text_lt_total,
}
use blue_workspace_build.Base.Floats.{Floats}
use blue_workspace_build.Base.Map
use blue_workspace_build.Base.Map.{Map, nat_key, text_key}
use blue_workspace_build.Base.StringSet
use blue_workspace_build.Base.StringSet.{StringSet}
use blue_workspace_build.Concept.{ParseDataType}
use blue_workspace_build.File.{File}
use blue_workspace_build.Manager.{
  Manager, Stored, file_of, set_file, add_file, get_file_info, on_file_create, reset_manager,
}
use blue_workspace_build.Graphs.{Server, find_file, store_file}
use blue_workspace_build.Parser.Cache.{empty_cache, is_file_imported}
use blue_workspace_build.Parser.Loop.{
  Outcome, returned, overrun, out_of_fuel, ScalarData, parser_data,
}
use blue_workspace_build.Progress.{ParseState, new_state}

-- A parser: how it reads a record, and the scalar data of one.
pub record Reader (fl : Floats) : Type 0 where
  pub read_record : List ℕ → Option (List ℕ × List ℕ)
  pub parse_record_to_scalar : List ℕ → Option (ScalarData fl)

-- CreateFileParse, of the three parsers.
unfoldable pub create_file_parse :
    {fl : Floats} → Reader fl → Reader fl → Reader fl → ParseDataType → Option (Reader fl)
create_file_parse tf ms log ParseDataType.tf_event = some tf
create_file_parse tf ms log ParseDataType.mindspore_summary = some ms
create_file_parse tf ms log ParseDataType.text_log = some log
create_file_parse tf ms log ParseDataType.unknown = none

-- An `int` as a `uint64_t`: the low 32 bits with their sign.
unfoldable pub sign_extended : ℕ → ℕ
sign_extended n = if ltb (n % 2 ^ 32) (2 ^ 31) then n % 2 ^ 32 else n % 2 ^ 32 + (2 ^ 64 - 2 ^ 32)

-- The sum of the sizes of the files, whose accumulator is an `int`.
unfoldable pub data_size : ℕ → List ℕ → ℕ
unfolding sign_extended
data_size total [] = total
data_size total (size ∷ sizes) = data_size ((sign_extended total + size) % 2 ^ 64) sizes

-- `dir + "/" + fileName`.
abbrev pub in_dir : Text → Text → Text
in_dir dir name = dir ++ (codes "/" ++ name)

module _ {fl : Floats} where
  -- ScalarVisuallyServer::Reset, but for the file watcher and the parse states.
  unfoldable pub reset_server : Server fl → Server fl
  unfolding reset_manager
  reset_server s = record s { manager = reset_manager s.manager; graphs = []; incremental = [] }

  -- Change the file behind a pointer.
  unfoldable pub update_pointer : ℕ → (File fl → File fl) → Server fl → Server fl
  unfolding store_file set_file file_of
  update_pointer i change s = elim (Map.get i s.manager.heap) [
    | none ↦ s
    | some o ↦ store_file i (set_file (change (file_of o)) o) s
  ]

  -- Empty() of the file behind a pointer.
  unfoldable pub pointer_empty : ℕ → Server fl → Bool
  unfolding file_of
  pointer_empty i s = elim (Map.get i s.manager.heap) [ none ↦ false | some o ↦ (file_of o).empty ]

  -- AddFile, of the type that `GetFileType` gives; `none` is a null pointer.
  unfoldable pub server_add_file : Text → ParseDataType → Server fl → Option ℕ × Server fl
  unfolding add_file
  server_add_file path type s =
      let (i, m) = add_file path type s.manager in (i, record s { manager = m })

  -- OnFileCreate.
  unfoldable pub server_file_create : Text → Text → Server fl → Server fl
  unfolding on_file_create
  server_file_create dir name s = record s { manager = on_file_create dir name s.manager }

  -- OnFileCreated of the watcher; `none` is the use of a null pointer.
  unfoldable pub on_file_created :
      (Text → ParseDataType) → Text → Text → Server fl → Option (Server fl)
  unfolding server_add_file update_pointer server_file_create
  on_file_created type_of dir name s =
      let path = in_dir dir name in
      let (added, t) = server_add_file path (type_of path) s in
      elim added [
        | none ↦ none
        | some i ↦ some (
            server_file_create dir name
              (update_pointer i (λ f. record f { empty = true; imported = false }) t))
      ]

  module _ (parser : ParseDataType → Option (Reader fl)) (open_file : Text → Option (List ℕ)) where
    -- What `OnFileDataUpdate` does with the outcome of `ParserData`; `none` is an access outside a
    -- smoother's window.
    unfoldable pub after_parse : Text → Text → ℕ → Outcome fl → Option (Server fl)
    unfolding update_pointer server_file_create
    after_parse dir name i overrun = none
    after_parse dir name i out_of_fuel = none
    after_parse dir name i (returned empty offset c t) =
        let read = update_pointer i (λ f. record f { offset = offset }) t in
        let was_empty = pointer_empty i t in
        if not empty && was_empty
        then some
            (update_pointer i (λ f. record f { empty = false }) (server_file_create dir name read))
        else some read

    -- OnFileDataUpdate.
    unfoldable pub on_file_data_update : Text → Text → Server fl → Option (Server fl)
    unfolding after_parse parser_data find_file file_of
    on_file_data_update dir name s =
        let path = in_dir dir name in
        elim (find_file path s) [
          | none ↦ some s
          | some (i, o) ↦ elim (parser (file_of o).data_type) [
            | none ↦ some s
            | some p ↦ after_parse dir name i (
                parser_data path p.parse_record_to_scalar p.read_record (open_file path)
                  (file_of o).offset (empty_cache fl) s)
          ]
        ]

    -- OnFileWriteClose of the watcher.
    unfoldable pub on_file_write_close : Text → Text → Server fl → Option (Server fl)
    unfolding is_file_imported on_file_data_update
    on_file_write_close dir name s =
        if not (is_file_imported (in_dir dir name) s)
        then some s
        else on_file_data_update dir name s

  -- The first loop of `AddParseTask`: the pointers of the files that are not imported yet.
  unfoldable pub collect_files :
      (Text → ParseDataType) → List Text → Server fl → List (Option ℕ) × Server fl
  unfolding is_file_imported server_add_file
  collect_files type_of [] s = ([], s)
  collect_files type_of (path ∷ paths) s = elim (is_file_imported path s) [
    | true ↦ collect_files type_of paths s
    | false ↦
        let (i, t) = server_add_file path (type_of path) s in
        let (pointers, u) = collect_files type_of paths t in (i ∷ pointers, u)
  ]

  -- The objects behind the pointers; `none` is a null pointer.
  unfoldable pub pointed : List (Option ℕ) → Server fl → Option (List (ℕ × File fl))
  unfolding file_of
  pointed [] s = some []
  pointed (none ∷ pointers) s = none
  pointed (some i ∷ pointers) s = elim (Map.get i s.manager.heap) [
    | none ↦ none
    | some o ↦ Option.map (λ files. (i, file_of o) ∷ files) (pointed pointers s)
  ]

  module _ (type_of : Text → ParseDataType) (parser : ParseDataType → Option (Reader fl))
      (file_size : Text → ℕ) where
    -- The second loop of `AddParseTask`: a task for each file that has a parser.
    unfoldable pub add_tasks : List (ℕ × File fl) → ParseState → ParseState
    add_tasks [] state = state
    add_tasks ((i, f) ∷ files) state = add_tasks files (elim (parser f.data_type) [
      | none ↦ state
      | some p ↦ record state {
        parsed_results = Map.emplace f.file_path i state.parsed_results;
        file_infos = state.file_infos ++ i ∷ [];
      }
    ])

    -- The entry of `parseStateMap_` that it leaves.
    unfoldable pub task_state : List (ℕ × File fl) → ParseState → ParseState
    unfolding add_tasks data_size
    task_state files state = add_tasks files (record state {
      data_size = data_size 0 (map (λ e. file_size e.1.file_path) files);
      percent = 0;
      finish = false;
    })

    -- AddParseTask.
    unfoldable pub add_parse_task :
        Text
        → List Text
        → Map Text ParseState
        → Server fl
        → Option (Map Text ParseState × Server fl)
    unfolding collect_files pointed task_state
    add_parse_task project paths states s =
        let (pointers, t) = collect_files type_of paths s in
        elim (pointed pointers t) [
          | none ↦ none
          | some files ↦
              some
                (Map.put project (task_state files (Map.get_or new_state project states)) states, t)
        ]
