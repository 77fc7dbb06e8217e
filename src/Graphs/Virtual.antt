-- ===== src/Graphs/Virtual.antt =====
-- The operations of Scalar/server/src/FileManager/VirtualFile.cpp, those of GraphManager.cpp that
-- ask a file object by a virtual call, and `AddVirtualFile` and `DelVirtualFile` of
-- Scalar/server/src/plugin/ScalarVisuallyServer.cpp.
pub mod Order
pub mod Views
use mathlib.Core.Option
use blue_workspace_build.Base.{
  ℕ, zero, suc, ◌+◌, ◌-◌, ◌*◌, ◌/◌, ◌%◌, ◌^◌, ◌≤◌, ◌<◌, min, max, ◌≡◌, refl, sym, ap, ◌∙◌, ◌≢◌, ◌↔◌,
  ◌⊎◌, inl, inr, Bool, true, false, not, ◌&&◌, ◌||◌, Option, none, some, List, [], ◌∷◌, ◌++◌, map,
  arith, ltb, leb, eqb, if◌then◌else◌, ltb→lt, lt→ltb, eqb_iff, Bool-cases, Option-cases, length,
  get_elem?, take, drop, is_empty, all_of, any_of, last_or, length-append, last_or-append, All,
  All-append, All-mono, length-take, length-drop, take-append-drop, length-map, get_elem?_total,
  drop-append, drop-nil, Text, codes, text_eq, text_lt, text_eq_iff, text_lt_irrefl, text_lt_trans,
  text_lt_total,
}
use blue_workspace_build.Base.Map
use blue_workspace_build.Base.Map.{Map, text_key, nat_key}
use blue_workspace_build.Base.StringSet
use blue_workspace_build.Base.StringSet.{StringSet}
use blue_workspace_build.Concept.{ScalarPoint, DataMode, int_lt}
use blue_workspace_build.Concept.View.{DataView}
use blue_workspace_build.Smoother.Factory.{SmoothingParam, param_algorithm}
use blue_workspace_build.File.{File, FileType, get_data, contains_data, update_smoothing_param}
use blue_workspace_build.Manager.{Stored, plain, virtual, file_of, set_file, del_file, add_pointer}
use blue_workspace_build.Graphs.{
  Graph, Server, inner_file, find_file, store_file, graph_del_file, Floats,
}

-- Add a file to the graph of a tag, if there is one.
unfoldable pub graph_add_file : Text → Text → Map Text Graph → Map Text Graph
graph_add_file file tag graphs = elim (Map.get tag graphs) [
  | none ↦ graphs
  | some g ↦
      if not (inner_file file g)
      then Map.put tag (record g { data_files = StringSet.insert file g.data_files }) graphs
      else graphs
]

unfoldable pub each_tag :
    (Text → Map Text Graph → Map Text Graph) → StringSet → Map Text Graph → Map Text Graph
each_tag act [] graphs = graphs
each_tag act (tag ∷ tags) graphs = each_tag act tags (act tag graphs)

module _ {fl : Floats} where
  -- The loop of `AddSubFiles`: the sub-files and the tags of the virtual file.
  unfoldable pub add_subs : List Text → Server fl → StringSet × StringSet → StringSet × StringSet
  unfolding find_file file_of
  add_subs [] s r = r
  add_subs (file ∷ files) s (subs, tags) = add_subs files s (
      if StringSet.contains file subs then (subs, tags) else elim (find_file file s) [
        | none ↦ (subs, tags)
        | some (i, o) ↦ (StringSet.insert file subs, StringSet.insert_all (file_of o).tags tags)
      ])

  -- AddSubFiles; that of `File` does nothing.
  unfoldable pub add_sub_files : List Text → Server fl → Stored fl → Stored fl
  unfolding add_subs
  add_sub_files files s (plain f) = plain f
  add_sub_files files s (virtual f subs) =
      let (subs', tags) = add_subs files s (subs, f.tags) in
      virtual (record f { tags = tags }) subs'

  -- The views of the sub-files, one file after the other; `none` is an exception.
  unfoldable pub sub_views :
      StringSet → Text → ℕ → ℕ → DataMode → Server fl → Option (List (DataView fl))
  unfolding find_file file_of get_data contains_data
  sub_views [] tag left right mode s = some []
  sub_views (file ∷ files) tag left right mode s =
      let rest = sub_views files tag left right mode s in
      elim (find_file file s) [
        | none ↦ rest
        | some (i, o) ↦ elim (file_of o).type [
          | FileType.visual ↦ rest
          | FileType.normal ↦
              if not (contains_data tag (file_of o))
              then rest
              else elim (get_data tag left right mode (file_of o)) [
                | none ↦ none
                | some vs ↦ Option.map (◌++◌ vs) rest
              ]
        ]
      ]

  -- Each view with the point at its lower end; `none` where it has none.
  unfoldable pub keyed : List (DataView fl) → Option (List (ScalarPoint fl × DataView fl))
  keyed [] = some []
  keyed (v ∷ vs) = elim (get_elem? v.base v.lower) [
    | none ↦ none
    | some p ↦ Option.map (λ r. (p, v) ∷ r) (keyed vs)
  ]

  -- The order of the views.
  unfoldable pub point_before : ScalarPoint fl → ScalarPoint fl → Bool
  unfolding int_lt
  point_before l r =
      if not (eqb l.step r.step) then int_lt l.step r.step else fl.dlt l.wall_time r.wall_time

  unfoldable pub insert_view :
      ScalarPoint fl × DataView fl
      → List (ScalarPoint fl × DataView fl)
      → List (ScalarPoint fl × DataView fl)
  unfolding point_before
  insert_view x [] = x ∷ []
  insert_view x (y ∷ ys) = if point_before y.0 x.0 then y ∷ insert_view x ys else x ∷ y ∷ ys

  -- `std::sort` by that order.
  unfoldable pub sort_keyed :
      List (ScalarPoint fl × DataView fl) → List (ScalarPoint fl × DataView fl)
  unfolding insert_view
  sort_keyed [] = []
  sort_keyed (x ∷ xs) = insert_view x (sort_keyed xs)

  unfoldable pub sort_views : List (DataView fl) → Option (List (DataView fl))
  unfolding keyed sort_keyed
  sort_views vs = Option.map (λ ks. map (λ k. k.1) (sort_keyed ks)) (keyed vs)

  -- GetData, by a virtual call.
  unfoldable pub object_get_data :
      Text → ℕ → ℕ → DataMode → Stored fl → Server fl → Option (List (DataView fl))
  unfolding sub_views sort_views
  object_get_data tag left right mode (plain f) s = get_data tag left right mode f
  object_get_data tag left right mode (virtual f subs) s =
      elim (sub_views subs tag left right mode s) [ none ↦ none | some vs ↦ sort_views vs ]

  -- Graph::GetFileData.
  unfoldable pub get_file_data :
      Text → ℕ → ℕ → DataMode → Graph → Server fl → Option (List (DataView fl))
  unfolding inner_file object_get_data
  get_file_data file left right mode g s =
      if not (inner_file file g) then some [] else elim (find_file file s) [
        | none ↦ some []
        | some (i, o) ↦ object_get_data g.tag left right mode o s
      ]

  -- GraphManager::GetGraphData.
  unfoldable pub get_graph_data :
      Text → Text → ℕ → ℕ → DataMode → Server fl → Option (List (DataView fl))
  unfolding get_file_data
  get_graph_data tag file left right mode s = elim (Map.get tag s.graphs) [
    | none ↦ some []
    | some g ↦ get_file_data file left right mode g s
  ]

  -- UpdateSmoothingParam of one stored object that is no virtual file.
  unfoldable pub smooth_file :
      Text → SmoothingParam fl → ℕ → Stored fl → Server fl → Option (Server fl)
  unfolding store_file set_file
  smooth_file tag param i o s =
      Option.map (λ g. store_file i (set_file g o) s)
        (update_smoothing_param tag (some param) (file_of o))

  -- UpdateSmoothingParam of each sub-file; `none` is also a sub-file that is a virtual file itself.
  unfoldable pub smooth_subs : StringSet → Text → SmoothingParam fl → Server fl → Option (Server fl)
  unfolding smooth_file
  smooth_subs [] tag param s = some s
  smooth_subs (file ∷ files) tag param s = elim (find_file file s) [
    | none ↦ smooth_subs files tag param s
    | some (i, virtual f subs) ↦ none
    | some (i, plain f) ↦ elim (smooth_file tag param i (plain f) s) [
      | none ↦ none
      | some t ↦ smooth_subs files tag param t
    ]
  ]

  unfoldable pub smooth_object :
      Text → SmoothingParam fl → ℕ → Stored fl → Server fl → Option (Server fl)
  unfolding smooth_subs
  smooth_object tag param i (plain f) s = smooth_file tag param i (plain f) s
  smooth_object tag param i (virtual f subs) s = smooth_subs subs tag param s

  unfoldable pub smooth_in_graph :
      Text → SmoothingParam fl → Option Graph → Server fl → Option (Server fl)
  unfolding smooth_object
  smooth_in_graph file param none s = some s
  smooth_in_graph file param (some g) s = elim (find_file file s) [
    | none ↦ some s
    | some (i, o) ↦ smooth_object g.tag param i o s
  ]

  -- GraphManager::UpdateGraphSmoothingParam with Graph::UpdateSmoothingParam; a null parameter
  -- changes nothing.
  unfoldable pub update_graph_smoothing :
      Text → Text → Option (SmoothingParam fl) → Server fl → Option (Server fl)
  unfolding smooth_in_graph
  update_graph_smoothing tag file none s = some s
  update_graph_smoothing tag file (some param) s =
      smooth_in_graph file param (Map.get tag s.graphs) s

  -- AddVirtualFile, of the object `o` at `i`.
  unfoldable pub add_virtual_file : ℕ → Stored fl → Server fl → Server fl
  unfolding graph_add_file each_tag
  add_virtual_file i o s = record s {
    manager = add_pointer i (file_of o).file_path s.manager;
    graphs = each_tag (graph_add_file (file_of o).file_path) (file_of o).tags s.graphs;
  }

  -- DelVirtualFile.
  unfoldable pub del_virtual_file : Stored fl → Server fl → Server fl
  unfolding each_tag
  del_virtual_file o s = elim (find_file (file_of o).file_path s) [
    | none ↦ s
    | some found ↦ record s {
      manager = (del_file (file_of o).file_path s.manager).1;
      graphs = each_tag (graph_del_file (file_of o).file_path) (file_of o).tags s.graphs;
    }
  ]
