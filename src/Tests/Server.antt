-- ===== src/Tests/Server.antt =====
-- The file manager, the graphs, the parsers and the parse states: the theorems at concrete values.
use blue_workspace_build.Base.{
  ℕ, ◌≡◌, refl, true, false, none, some, List, [], ◌∷◌, ◌++◌, arith, if◌then◌else◌, take, All, Text,
  codes, text_eq,
}
use blue_workspace_build.Base.Map
use blue_workspace_build.Concept.{ParseDataType, DataMode}
use blue_workspace_build.Base.Map.{nat_key, Map, text_key}
use blue_workspace_build.Base.StringSet
use blue_workspace_build.Base.StringSet.{StringSet}
use blue_workspace_build.Tests.Values.{whole, three_points, loss, new_file}
use blue_workspace_build.Graphs.{
  get_file_tags, Server, is_incremental, get_incremental, add_incremental, Graph, inner_file,
}
use blue_workspace_build.Manager.{
  Manager, add_file, del_file, empty_manager, plain, get_file_info, Stored, virtual, file_of,
}
use blue_workspace_build.Parser.Cache.{
  IsBounded, IsCounted, cache_data, empty_cache, update_cache-IsBounded,
}
use blue_workspace_build.Progress.{ParseState, new_state}
use blue_workspace_build.Manager.Index.{IsManager, del_file-IsManager, add_file-IsManager}
use blue_workspace_build.Parser.Frame.{read_record, frame, read_record_partial, read_record-frame}
use blue_workspace_build.Graphs.Files.{is_incremental-update_graph}
use blue_workspace_build.File.{append_points, make_file}
use blue_workspace_build.Concept.View.{DataView, make_view}
use blue_workspace_build.Graphs.Virtual.{del_virtual_file, sub_views}
use blue_workspace_build.Graphs.Virtual.Order.{del_virtual_file_lem, StartsFrom}
use blue_workspace_build.Graphs.Virtual.Views.{Shows, Covers, object_get_data-Shows}
use blue_workspace_build.Concept.{ScalarPoint}
use blue_workspace_build.Graphs.Virtual.{keyed}
use blue_workspace_build.Request.Lines.{AllClone}
use blue_workspace_build.Request.{LineBasicInfo}
use blue_workspace_build.Pool.{
  Ascends, submit, Pool, worker_turn, new_pool-IsOrdered, Steps, more, new_pool, submitted, done,
  taken,
}

pub empty_manager-IsManager : IsManager (empty_manager whole)
unfolding StringSet.contains Map.get
empty_manager-IsManager = record { known = λ path e. cc; missing = λ path e. refl }

abbrev pub log_path : Text
log_path = codes "a.log"

abbrev pub one_file : Manager whole
one_file = (add_file log_path ParseDataType.text_log (empty_manager whole)).1

pub one_file-IsManager : IsManager one_file
one_file-IsManager =
    (add_file-IsManager log_path ParseDataType.text_log ParseDataType.text_log (empty_manager whole)
      empty_manager-IsManager).2

del_file-IsManager_example :
    ((del_file log_path one_file).0 ≡ StringSet.contains log_path one_file.paths)
    × IsManager (del_file log_path one_file).1
    × ((other : Text)
        → (get_file_info other (del_file log_path one_file).1).0
          ≡ (if text_eq log_path other then none else (get_file_info other one_file).0))
del_file-IsManager_example = del_file-IsManager log_path one_file one_file-IsManager

abbrev pub server : Server whole
server = record { manager = one_file; graphs = []; incremental = [] }

abbrev pub loaded : Server whole
loaded = record {
  manager = record one_file {
    heap = Map.put 0 (plain (append_points loss three_points new_file)) one_file.heap;
  };
  graphs = Map.put loss (record { tag = loss; data_files = log_path ∷ [] }) [];
  incremental = [];
}

is_incremental-update_graph_example :
    is_incremental log_path loss (record server {
      graphs = Map.put loss (record { tag = loss; data_files = log_path ∷ [] }) [];
    })
    ≡ false
unfolding blue_workspace_build.Graphs.update_graph StringSet.contains Map.get_or
    blue_workspace_build.Graphs.new_graph StringSet.insert
is_incremental-update_graph_example =
    is_incremental-update_graph loss log_path [] server
      (record server {
        graphs = Map.put loss (record { tag = loss; data_files = log_path ∷ [] }) [];
      })
      refl loss log_path

abbrev pub sum : List ℕ
sum = 1 ∷ 2 ∷ 3 ∷ 4 ∷ []

read_record-frame_example :
    read_record (frame sum (7 ∷ 8 ∷ []) sum ++ 9 ∷ []) ≡ some (7 ∷ 8 ∷ [], 9 ∷ [])
read_record-frame_example = read_record-frame sum (7 ∷ 8 ∷ []) sum (9 ∷ []) (omega arith) refl refl

read_record_partial_example : read_record (take 17 (frame sum (7 ∷ 8 ∷ []) sum)) ≡ none
unfolding frame
read_record_partial_example =
    read_record_partial sum (7 ∷ 8 ∷ []) sum 17 (omega arith) refl refl (omega arith)

update_cache-IsBounded_example :
    IsCounted (cache_data log_path loss three_points (empty_cache whole))
    × IsBounded (cache_data log_path loss three_points (empty_cache whole))
    × (false ≡ true → cache_data log_path loss three_points (empty_cache whole) ≡ empty_cache whole)
unfolding blue_workspace_build.Parser.Cache.update_cache StringSet.insert
    blue_workspace_build.Parser.Cache.held
update_cache-IsBounded_example =
    update_cache-IsBounded log_path loss three_points false (empty_cache whole)
      (cache_data log_path loss three_points (empty_cache whole)) server server (refl, tt)
      (omega arith, omega arith) (omega arith) refl

abbrev running : Map Text ParseState
running = (loss, new_state) ∷ []

abbrev merged_file : Stored whole
merged_file = virtual (record new_file { tags = loss ∷ []; file_path = codes "m" }) (log_path ∷ [])

abbrev shown : List (DataView whole)
shown = make_view three_points 1 3 (codes "a.log") ∷ []

object_get_data-Shows_example :
    All (Shows loss 3 20 DataMode.normal loaded (log_path ∷ [])) shown
    × All (Covers loss 3 20 DataMode.normal loaded shown) (log_path ∷ [])
    × (ls : List (ScalarPoint whole × DataView whole)) × (keyed shown ≡ some ls)
    × StartsFrom 0 ls
unfolding blue_workspace_build.Graphs.Virtual.object_get_data StringSet.contains add_file
    StringSet.insert Map.get_or Map.put append_points make_file Map.has
object_get_data-Shows_example =
    object_get_data-Shows loss 3 20 DataMode.normal loaded (file_of merged_file) (log_path ∷ [])
      shown refl

abbrev dropped : Stored whole
dropped = virtual (record new_file { tags = loss ∷ [] }) []

del_virtual_file_lem_example :
    ((get_file_info log_path (del_virtual_file dropped server).manager).0 ≡ none)
    × ((tag : Text)
        → StringSet.contains tag (loss ∷ []) ≡ true
        → is_incremental log_path tag (del_virtual_file dropped server) ≡ true)
unfolding blue_workspace_build.Graphs.find_file StringSet.contains add_file StringSet.insert file_of
    make_file Map.get_or Map.put
del_virtual_file_lem_example =
    del_virtual_file_lem dropped (0, plain (make_file whole log_path ParseDataType.text_log)) server
      one_file-IsManager refl

abbrev pub info : LineBasicInfo
info = record { tag = loss; file = log_path; start = 0; end_ = 20 }

no_ops-AllClone : AllClone {fl = whole} []
unfolding Map.has Map.get
no_ops-AllClone type e = cc

abbrev one_task : Pool
one_task = record { stop = false; tasks = 0 ∷ []; dequeued = []; next = 1 }

abbrev one_started : Pool
one_started = record { stop = false; tasks = []; dequeued = 0 ∷ []; next = 1 }

one_started-Steps : Steps new_pool one_started
unfolding submit worker_turn
one_started-Steps = more (submitted {q = one_task} refl) (more (taken 0 refl) (done refl))

new_pool-IsOrdered_example : Ascends 0 1 (0 ∷ [])
new_pool-IsOrdered_example = new_pool-IsOrdered one_started one_started-Steps
