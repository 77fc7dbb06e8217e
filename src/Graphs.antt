-- ===== src/Graphs.antt =====
-- Scalar/server/src/GraphManager/GraphManager.h and GraphManager.cpp, Scalar/server/src/FileManager/
-- VirtualFile.h and VirtualFile.cpp, and what Scalar/server/src/plugin/ScalarVisuallyServer.cpp does
-- with the graphs: the graphs by their tags, over the files of the manager.
pub mod Files
pub mod Lookup
pub mod Polls
pub mod Virtual
use mathlib.Core.Option
use blue_workspace_build.Base.{
  ℕ, zero, suc, ◌+◌, ◌-◌, ◌*◌, ◌/◌, ◌%◌, ◌^◌, ◌≤◌, ◌<◌, min, max, ◌≡◌, refl, sym, ap, ◌∙◌, ◌≢◌, ◌↔◌,
  ◌⊎◌, inl, inr, Bool, true, false, not, ◌&&◌, ◌||◌, Option, none, some, List, [], ◌∷◌, ◌++◌, map,
  arith, ltb, leb, eqb, if◌then◌else◌, ltb→lt, lt→ltb, eqb_iff, Bool-cases, Option-cases, length,
  get_elem?, take, drop, is_empty, all_of, any_of, last_or, length-append, last_or-append, All,
  All-append, All-mono, length-take, length-drop, take-append-drop, length-map, get_elem?_total,
  drop-append, drop-nil, Text, codes, text_eq, text_lt, text_eq_iff, text_lt_irrefl, text_lt_trans,
  text_lt_total,
}
use blue_workspace_build.Base.Map
use blue_workspace_build.Base.Map.{Map, text_key, nat_key}
use blue_workspace_build.Base.StringSet
use blue_workspace_build.Base.StringSet.{StringSet}
use blue_workspace_build.Concept.{ParseDataType, ScalarPoint, DataMode}
use blue_workspace_build.Concept.View.{DataView}
use blue_workspace_build.Smoother.Factory.{SmoothingParam}
use blue_workspace_build.File.{
  File, FileType, get_data, contains_data, update_data, update_smoothing_param,
}
use blue_workspace_build.Manager.{
  Manager, Stored, plain, virtual, file_of, add_file, del_file, get_file_info, add_pointer,
  set_file,
}
use blue_workspace_build.Base.Floats.{Floats}

-- class Graph; a pointer to a graph is kept in the map only.
pub record Graph : Type 0 where
  pub tag : Text
  pub data_files : StringSet

-- class GraphManager, and the members of ScalarVisuallyServer that work with it.
pub record Server (fl : Floats) : Type 0 where
  pub manager : Manager fl
  pub graphs : Map Text Graph
  pub incremental : Map Text StringSet

-- The constructor of a graph.
unfoldable pub new_graph : Text → Graph
new_graph tag = record { tag = tag; data_files = [] }

-- InnerFile.
unfoldable pub inner_file : Text → Graph → Bool
inner_file file g = StringSet.contains file g.data_files

-- Graph::DelFile, of the graph of a tag.
unfoldable pub graph_del_file : Text → Text → Map Text Graph → Map Text Graph
graph_del_file file tag graphs = elim (Map.get tag graphs) [
  | none ↦ graphs
  | some g ↦ Map.put tag (record g { data_files = StringSet.erase file g.data_files }) graphs
]

-- The tags whose graph has the file.
unfoldable pub add_tags : Text → Map Text Graph → StringSet → StringSet
unfolding inner_file
add_tags path [] tags = tags
add_tags path ((tag, g) ∷ graphs) tags =
    add_tags path graphs (if inner_file path g then StringSet.insert tag tags else tags)

-- The loop of `GetIncremental`: the entries that it moves out, and those it leaves; it stops behind
-- the entry that brings the number of files above the limit.
unfoldable pub drain : ℕ → Map Text StringSet → Map Text StringSet × Map Text StringSet
drain count [] = ([], [])
drain count ((tag, files) ∷ m) =
    let count' = (count + length files) % 2 ^ 64 in
    let (out, rest) = drain count' m in
    if ltb 1000 count' then ((tag, files) ∷ [], m) else ((tag, files) ∷ out, rest)

module _ {fl : Floats} where
  -- The object that `GetFileInfo` finds, with its pointer. Of a well-formed manager `GetFileInfo`
  -- changes nothing.
  unfoldable pub find_file : Text → Server fl → Option (ℕ × Stored fl)
  unfolding get_file_info
  find_file path s = elim (get_file_info path s.manager).0 [
    | none ↦ none
    | some i ↦ Option.map (λ o. (i, o)) (Map.get i s.manager.heap)
  ]

  -- Write an object back to the heap.
  unfoldable pub store_file : ℕ → Stored fl → Server fl → Server fl
  store_file i o s = record s { manager = record s.manager { heap = Map.put i o s.manager.heap } }

  -- What `Graph::UpdateData` does with the object that it found; `none` is an access outside a
  -- smoother's window.
  unfoldable pub update_object :
      Text → List (ScalarPoint fl) → Option (ℕ × Stored fl) → Server fl → Option (Server fl)
  unfolding store_file file_of set_file
  update_object tag points none s = some s
  update_object tag points (some (i, o)) s = elim (file_of o).type [
    | FileType.normal ↦
        Option.map (λ g. store_file i (set_file g o) s) (update_data tag points (file_of o))
    | FileType.visual ↦ some s
  ]

  -- Graph::UpdateData, of the graph of a tag.
  unfoldable pub graph_update_data :
      Text → Graph → Text → List (ScalarPoint fl) → Server fl → Option (Server fl)
  unfolding inner_file update_object find_file
  graph_update_data tag g file points s =
      let h =
        if not (inner_file file g)
        then record g { data_files = StringSet.insert file g.data_files }
        else g in
      let t = record s { graphs = Map.put tag h s.graphs } in
      if is_empty points then some t else update_object g.tag points (find_file file t) t

  -- GraphManager::UpdateGraphData and ScalarVisuallyServer::UpdateGraph.
  unfoldable pub update_graph : Text → Text → List (ScalarPoint fl) → Server fl → Option (Server fl)
  unfolding graph_update_data
  update_graph tag file points s =
      graph_update_data tag (Map.get_or (new_graph tag) tag s.graphs) file points s

  -- IsIncremental.
  unfoldable pub is_incremental : Text → Text → Server fl → Bool
  unfolding inner_file
  is_incremental file tag s = elim (Map.get tag s.graphs) [
    | none ↦ true
    | some g ↦ not (inner_file file g)
  ]

  -- AddIncremental.
  unfoldable pub add_incremental : Text → Text → Server fl → Server fl
  add_incremental file tag s = record s {
    incremental =
        Map.put tag (StringSet.insert file (Map.get_or [] tag s.incremental)) s.incremental;
  }

  -- GetGraphContainsFile.
  unfoldable pub get_graph_contains_file : Text → Server fl → List Text
  get_graph_contains_file tag s = elim (Map.get tag s.graphs) [ none ↦ [] | some g ↦ g.data_files ]

  -- GetAllGraphInfo.
  unfoldable pub get_all_graph_info : Server fl → Map Text (List Text)
  get_all_graph_info s = map (λ (e : Text × Graph). (e.0, e.1.data_files)) s.graphs

  -- GetFileTags.
  unfoldable pub get_file_tags : Text → StringSet → Server fl → StringSet
  unfolding add_tags
  get_file_tags path tags s = add_tags path s.graphs tags

  -- GetIncremental.
  unfoldable pub get_incremental : Server fl → Map Text StringSet × Server fl
  unfolding drain
  get_incremental s =
      let (out, rest) = drain 0 s.incremental in (out, record s { incremental = rest })
