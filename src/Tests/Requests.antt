-- ===== src/Tests/Requests.antt =====
-- The handlers: the theorems at concrete values.
use blue_workspace_build.Base.{
  ℕ, zero, suc, ◌+◌, ◌-◌, ◌*◌, ◌/◌, ◌%◌, ◌^◌, ◌≤◌, ◌<◌, min, max, ◌≡◌, refl, sym, ap, ◌∙◌, ◌≢◌, ◌↔◌,
  ◌⊎◌, inl, inr, Bool, true, false, not, ◌||◌, Option, none, some, List, [], ◌∷◌, ◌++◌, map, arith,
  ltb, leb, eqb, if◌then◌else◌, ltb→lt, lt→ltb, eqb_iff, Bool-cases, Option-cases, length,
  get_elem?, take, drop, is_empty, all_of, last_or, length-append, last_or-append, All, All-append,
  All-mono, length-take, length-drop, take-append-drop, length-map, get_elem?_total, drop-append,
  drop-nil, codes, text_lt, text_eq_iff, text_lt_irrefl, text_lt_trans, text_lt_total,
}
use blue_workspace_build.Base.Map
use blue_workspace_build.Tests.Values.{whole, point, three_points, loss}
use blue_workspace_build.Tests.Documents.{Doc, request, documents}
use blue_workspace_build.Tests.Server.{log_path, server, loaded, info, one_file-IsManager}
use blue_workspace_build.Tests.Data.{loaded_file, loaded_file-IsFile}
use blue_workspace_build.Concept.{ScalarPoint}
use blue_workspace_build.File.{File, make_file}
use blue_workspace_build.File.Boundary.{between}
use blue_workspace_build.Json.{get_member}
use blue_workspace_build.Graphs.{Server, find_file}
use blue_workspace_build.Manager.{Stored, plain}
use blue_workspace_build.Request.Normal.{Serves}
use blue_workspace_build.Handler.ScalarData.{
  SingleGraphReqInfo, check_scalar_data, read_scalar_data, read_scalar_data_total,
}
use blue_workspace_build.Handler.Response.{process_single, process_single_normal, normal_response}
use blue_workspace_build.Handler.FileMerge.{FileMergeRequest}
use blue_workspace_build.Base.StringSet
use blue_workspace_build.Handler.TokenSet.{TokenInfo, set_file_token, set_file_token_lem}

loaded-Serves : Serves loss log_path loaded_file loaded
unfolding find_file Map.get Map.put blue_workspace_build.Graphs.inner_file
    blue_workspace_build.Base.StringSet.contains blue_workspace_build.Manager.add_file
    blue_workspace_build.Base.StringSet.insert Map.get_or
loaded-Serves = (record { tag = loss; data_files = log_path ∷ [] }, 0, refl, refl, refl, refl)

process_single_normal_example :
    process_single documents (record { info = info; graph_lines = [] }) loaded
    ≡ some (normal_response documents info (between 0 20 three_points), loaded)
unfolding Map.get blue_workspace_build.File.append_points Map.put make_file Map.get_or
process_single_normal_example =
    process_single_normal documents info loaded_file loaded (point 2 7) (point 5 4 ∷ point 9 6 ∷ [])
      loaded-Serves loaded_file-IsFile refl (omega arith) (omega arith)

read_scalar_data_total_example :
    (items : List Doc) × (r : List (SingleGraphReqInfo Doc)) × (get_member documents
        (codes "graphList")
        documents.array
        request
      ≡ some items)
    × (read_scalar_data documents request ≡ some r)
    × (length r ≡ length items)
unfolding check_scalar_data
read_scalar_data_total_example = read_scalar_data_total documents request refl

abbrev merge_again : FileMergeRequest
merge_again = record { merge = true; name = log_path; files = log_path ∷ [] }

abbrev first_file : File whole
first_file = make_file whole log_path blue_workspace_build.Concept.ParseDataType.text_log

abbrev tokens : TokenInfo whole
tokens = record { file = log_path; global_batch_size = 8; seq_length = 4 }

set_file_token_lem_example :
    ((set_file_token tokens server).0 ≡ [])
    × (g : File whole) × (find_file log_path (set_file_token tokens server).1 ≡ some (0, plain g))
    × (g.global_batch_size ≡ 8)
    × (g.seq_length ≡ 4)
    × (record g {
      global_batch_size = first_file.global_batch_size;
      seq_length = first_file.seq_length;
    }
        ≡ first_file)
unfolding find_file make_file blue_workspace_build.Base.StringSet.contains
    blue_workspace_build.Manager.add_file blue_workspace_build.Base.StringSet.insert Map.get_or
    Map.put
set_file_token_lem_example =
    set_file_token_lem tokens 0 first_file server one_file-IsManager refl refl
