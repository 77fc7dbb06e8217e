-- ===== src/Tests/Writing.antt =====
-- The answers of the handlers: the theorems at concrete values, with the library of Tests/Trees.antt.
use blue_workspace_build.Base.{
  ℕ, zero, suc, ◌+◌, ◌-◌, ◌*◌, ◌/◌, ◌%◌, ◌^◌, ◌≤◌, ◌<◌, min, max, ◌≡◌, refl, sym, ap, ◌∙◌, ◌≢◌, ◌↔◌,
  ◌⊎◌, inl, inr, Bool, true, false, not, ◌&&◌, ◌||◌, Option, none, some, List, [], ◌∷◌, ◌++◌, map,
  arith, ltb, leb, eqb, if◌then◌else◌, ltb→lt, lt→ltb, eqb_iff, Bool-cases, Option-cases, length,
  get_elem?, take, drop, is_empty, all_of, any_of, last_or, length-append, last_or-append, All,
  All-append, All-mono, length-take, length-drop, take-append-drop, length-map, get_elem?_total,
  drop-append, drop-nil, Text, codes, text_eq, text_lt, text_eq_iff, text_lt_irrefl, text_lt_trans,
  text_lt_total,
}
use blue_workspace_build.Base.Map.{Map, text_key}
use blue_workspace_build.Graphs.{Server, get_all_graph_info}
use blue_workspace_build.Manager.{empty_manager}
use blue_workspace_build.Progress.{ParseState, IsSound, new_state}
use blue_workspace_build.Handler.{Parsed, accepted}
use blue_workspace_build.Handler.ImportFile.{parse_parse_state, query_states}
use blue_workspace_build.Handler.Answer.{
  run_query_created_file, run_get_all_graph, run_get_parse_state, error_message,
}
use blue_workspace_build.Handler.Answer.Read.{read_status, read_list}
use blue_workspace_build.Handler.Answer.Served.{
  read_created, read_graph_info, shown_graph, run_query_created_file-Reads, run_get_all_graph-Reads,
}
use blue_workspace_build.Handler.Answer.States.{Tells, run_get_parse_state-Tells}
use blue_workspace_build.Tests.Values.{whole, loss}
use blue_workspace_build.Tests.Trees.{
  text_tree, object_end, array_end, item, field, trees, tree_writer, dump_tree,
}

-- A graph with two files, and a folder with one created file.
abbrev polled_server : Server whole
polled_server = record {
  manager = record (empty_manager whole) { created = (codes "runs", codes "runs/b.log" ∷ []) ∷ [] };
  graphs = (loss, record { tag = loss; data_files = codes "a.log" ∷ codes "runs/b.log" ∷ [] }) ∷ [];
  incremental = [];
}

-- `fs::path::filename` for paths in one folder of four letters.
abbrev file_part : Text → Text
file_part path = drop 5 path

run_query_created_file-Reads_example :
    (text again : Text) × (t : Server whole) × (run_query_created_file tree_writer polled_server
      ≡ some (text, t))
    × (read_status trees text ≡ some (0, true, []))
    × (read_list trees (codes "data") (read_created trees) text
        ≡ some ((codes "runs", codes "runs/b.log" ∷ []) ∷ []))
    × (run_query_created_file tree_writer t ≡ some (again, t))
    × (read_list trees (codes "data") (read_created trees) again ≡ some [])
run_query_created_file-Reads_example = run_query_created_file-Reads tree_writer polled_server

run_get_all_graph-Reads_example :
    (text : Text) × (run_get_all_graph tree_writer file_part polled_server ≡ some text)
    × (read_status trees text ≡ some (0, true, []))
    × (read_list trees (codes "data") (read_graph_info trees) text
        ≡ some (map (shown_graph file_part) (get_all_graph_info polled_server)))
run_get_all_graph-Reads_example = run_get_all_graph-Reads tree_writer file_part polled_server

abbrev running : Map Text ParseState
running = (codes "0", record new_state { percent = 40 }) ∷ []

running-IsSound : All (λ (e : Text × ParseState). IsSound e.1) running
running-IsSound = ((omega arith, λ h. cc), tt)

-- The text of a request for the states of two projects.
abbrev state_request : Text
state_request = dump_tree (
    field (codes "projectNameLists")
      (item (text_tree (codes "0")) (item (text_tree (codes "1")) array_end)) object_end)

run_get_parse_state-Tells_example :
    (p : Parsed (List Text)) × (r : Bool × Text × Map Text ParseState) × (parse_parse_state trees
        state_request
      ≡ some p)
    × (run_get_parse_state tree_writer (λ body. []) state_request running ≡ some r)
    × Tells trees (error_message (λ body. []) state_request) running p r
run_get_parse_state-Tells_example =
    run_get_parse_state-Tells tree_writer (λ body. []) state_request running running-IsSound

-- The two states that the request is answered with.
read_states_lem :
    query_states (codes "0" ∷ codes "1" ∷ []) running
    ≡ ((codes "0", false, 40) ∷ (codes "1", true, 100) ∷ [], running)
unfolding query_states blue_workspace_build.Base.Map.get
read_states_lem = refl

parse_state_request :
    parse_parse_state trees state_request ≡ some (accepted (codes "0" ∷ codes "1" ∷ []))
unfolding parse_parse_state blue_workspace_build.Handler.ImportFile.check_parse_state
    blue_workspace_build.Base.Map.get blue_workspace_build.Handler.ImportFile.read_parse_state
parse_state_request = refl
