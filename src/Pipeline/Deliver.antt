-- ===== src/Pipeline/Deliver.antt =====
-- `UpdateDataToGraph` appends the points of each entry to the file.
use mathlib.Core.Option
use mathlib.Core.Option.{some-injective}
use blue_workspace_build.Base.{
  ℕ, ◌≡◌, refl, sym, ap, ◌∙◌, ◌⊎◌, inl, inr, true, none, some, List, [], ◌∷◌, arith, if◌then◌else◌,
  Bool-cases, All, Text, text_eq, text_eq_iff,
}
use blue_workspace_build.Base.Floats.{Floats}
use blue_workspace_build.Base.Map
use blue_workspace_build.Base.Map.{text_key, nat_key}
use blue_workspace_build.Base.StringSet
use blue_workspace_build.Concept.{ScalarPoint}
use blue_workspace_build.File.{
  File, FileType, append_points, update_data, update_range, run_smoother,
}
use blue_workspace_build.Manager.{plain, file_of, set_file}
use blue_workspace_build.Graphs.{
  Graph, Server, inner_file, find_file, store_file, update_object, graph_update_data, update_graph,
  new_graph, is_incremental, add_incremental,
}
use blue_workspace_build.Graphs.Lookup.{
  charted_graph, charted_graph-tag, charted_graph-inner, graph_or_new-tag, find_file-known,
}
use blue_workspace_build.Parser.Cache.{Entry, deliver, deliver_all, is_file_imported}
use blue_workspace_build.Pipeline.{push, push_all, Imports}

module _ {fl : Floats} where
  -- What new points leave alone, and the tags behind them.
  pub push-parts :
      (tag : Text) (ps : List (ScalarPoint fl)) (f : File fl)
      → ((push tag ps f).type ≡ f.type)
        × ((push tag ps f).imported ≡ f.imported)
        × ((push tag ps f).smoother ≡ f.smoother)
        × ((push tag ps f).data_type ≡ f.data_type)
        × ((other : Text)
            → StringSet.contains other (push tag ps f).tags ≡ true
            → (text_eq tag other ≡ true) ⊎ (StringSet.contains other f.tags ≡ true))
  unfolding push append_points update_range
  push-parts tag [] f = (refl, refl, refl, refl, λ other h. inr h)
  push-parts tag (p ∷ ps) f = (
    ground arith,
    ground arith,
    ground arith,
    ground arith,
    λ other h. ground (arith, h, StringSet.contains-insert tag other f.tags),
  )

  update_data-push :
      (tag : Text) (ps : List (ScalarPoint fl)) (f : File fl)
      → f.smoother ≡ []
      → update_data tag ps f ≡ some (push tag ps f)
  unfolding update_data push Map.get
  update_data-push tag [] f h = refl
  update_data-push tag (p ∷ ps) f h =
      let g = append_points tag (p ∷ ps) f in
      let none_there : Map.get tag g.smoother ≡ none =
        ap (Map.get tag) ((push-parts tag (p ∷ ps) f).2 ∙ h) in
      ap (λ o. elim o [ none ↦ some g | some s ↦ run_smoother tag s g ]) none_there

  module _ (path : Text) (i : ℕ) (f : File fl) where
    pub find_file-Imports :
        (s : Server fl) → Imports path i f s → find_file path s ≡ some (i, plain f)
    find_file-Imports s h = find_file-known path i (plain f) s h.known h.pointer h.object

    -- The server with the new points and the graph of their tag.
    abbrev pushed : Text → List (ScalarPoint fl) → Graph → Server fl → Server fl
    pushed tag ps g s =
        store_file i (plain (push tag ps f)) (record s { graphs = Map.put tag g s.graphs })

    store_file_same :
        (s : Server fl) → Map.get i s.manager.heap ≡ some (plain f) → store_file i (plain f) s ≡ s
    unfolding store_file
    store_file_same s h =
        ap (λ heap. record s { manager = record s.manager { heap = heap } })
          (Map.put-get i (plain f) s.manager.heap h)

    update_object-pushed :
        (tag : Text) (ps : List (ScalarPoint fl)) (s : Server fl)
        → f.type ≡ FileType.normal
        → f.smoother ≡ []
        → update_object tag ps (some (i, plain f)) s ≡ some (store_file i (plain (push tag ps f)) s)
    unfolding update_object file_of set_file
    update_object-pushed tag ps s normal smoother =
        let stored = Option.map (λ g. store_file i (set_file g (plain f)) s) in
        ap
          (λ type. elim type [
            | FileType.normal ↦ stored (update_data tag ps f)
            | FileType.visual ↦ some s
          ])
          normal
        ∙ ap stored (update_data-push tag ps f smoother)

    graph_update_data-pushed :
        (tag : Text) (g : Graph) (ps : List (ScalarPoint fl)) (s : Server fl)
        → Imports path i f s
        → g.tag ≡ tag
        → graph_update_data tag g path ps s ≡ some (pushed tag ps (charted_graph path g) s)
    unfolding graph_update_data push
    graph_update_data-pushed tag g [] s h e = ap some (
        sym (
          store_file_same (record s { graphs = Map.put tag (charted_graph path g) s.graphs })
            h.object))
    graph_update_data-pushed tag g (p ∷ ps) s h e =
        let t = record s { graphs = Map.put tag (charted_graph path g) s.graphs } in
        let found : find_file path t ≡ some (i, plain f) =
          find_file-known path i (plain f) t h.known h.pointer h.object in
        ap (λ o. update_object g.tag (p ∷ ps) o t) found
        ∙ ap (λ name. update_object name (p ∷ ps) (some (i, plain f)) t) e
        ∙ update_object-pushed tag (p ∷ ps) t h.normal h.plain_data

    pushed-Imports :
        (tag : Text) (g : Graph) (ps : List (ScalarPoint fl)) (s : Server fl)
        → Imports path i f s
        → g.tag ≡ tag
        → inner_file path g ≡ true
        → Imports path i (push tag ps f) (pushed tag ps g s)
    unfolding store_file
    pushed-Imports tag g ps s h e inner =
        let (type, imported, smoother, _, tags) = push-parts tag ps f in
        record {
          known = h.known;
          pointer = h.pointer;
          object = Map.get-put_self i _ s.manager.heap;
          normal = type ∙ h.normal;
          imported = imported ∙ h.imported;
          plain_data = smoother ∙ h.plain_data;
          named = λ other k here. elim (Bool-cases (text_eq tag other)) [
            | inl same ↦
                let this : g ≡ k = some-injective _ _ (sym (rw (Map.get-put, same) refl) ∙ here) in
                sym (ap (λ x. x.tag) this) ∙ e ∙ (text_eq_iff tag other).0 same
            | inr same ↦ h.named other k (rw (Map.get-put, same) at here)
          ];
          charted = λ other here. elim (Bool-cases (text_eq tag other)) [
            | inl same ↦ (g, rw (Map.get-put, same) refl, inner)
            | inr same ↦
                let (k, there, within) = h.charted other (ground (arith, tags other here, same)) in
                (k, rw (Map.get-put, same) there, within)
          ];
        }

    noted-Imports :
        (tag : Text) (s : Server fl)
        → Imports path i f s
        → Imports path i f (if is_incremental path tag s then add_incremental path tag s else s)
    unfolding add_incremental
    noted-Imports tag s h = elim (Bool-cases (is_incremental path tag s)) [
      | inl e ↦ rw e (record {
        known = h.known;
        pointer = h.pointer;
        object = h.object;
        normal = h.normal;
        imported = h.imported;
        plain_data = h.plain_data;
        named = h.named;
        charted = h.charted;
      })
      | inr e ↦ rw e h
    ]

    deliver-Imports :
        (tag : Text) (ps : List (ScalarPoint fl)) (s : Server fl)
        → Imports path i f s
        → (t : Server fl) × (deliver (record { file = path; tag = tag; points = ps }) s ≡ some t)
          × Imports path i (push tag ps f) t
    unfolding deliver update_graph
    deliver-Imports tag ps s h =
        let noted = if is_incremental path tag s then add_incremental path tag s else s in
        let same : Imports path i f noted = noted-Imports tag s h in
        let g = Map.get_or (new_graph tag) tag noted.graphs in
        let its_tag = graph_or_new-tag tag noted.graphs (same.named tag) in
        (
          pushed tag ps (charted_graph path g) noted,
          graph_update_data-pushed tag g ps noted same its_tag,
          pushed-Imports tag (charted_graph path g) ps noted same
              (charted_graph-tag path g ∙ its_tag) (charted_graph-inner path g),
        )

    pub is_file_imported-Imports :
        (s : Server fl) → Imports path i f s → is_file_imported path s ≡ true
    unfolding is_file_imported
    is_file_imported-Imports s h = rw (is_file_imported, find_file-Imports s h) h.imported

  -- The entries are all of one file.
  abbrev pub OfFile : Text → List (Entry fl) → Type 0
  OfFile path = All λ e. e.file ≡ path

  -- All entries are delivered, and the file has their points.
  pub deliver_all-Imports :
      (path : Text) (i : ℕ) (es : List (Entry fl)) (f : File fl) (s : Server fl)
      → OfFile path es
      → Imports path i f s
      → (t : Server fl) × (deliver_all es s ≡ some (true, [], t)) × Imports path i (push_all es f) t
  unfolding deliver_all push_all
  deliver_all-Imports path i [] f s own h = (s, refl, h)
  deliver_all-Imports path i (e ∷ es) f s own h =
      let (t, done, next) = deliver-Imports path i f e.tag e.points s h in
      let here : deliver e s ≡ some t =
        ap (λ file. deliver (record { file = file; tag = e.tag; points = e.points }) s) own.0
        ∙ done in
      let imported : is_file_imported e.file s ≡ true =
        ap (λ file. is_file_imported file s) own.0 ∙ is_file_imported-Imports path i f s h in
      let (u, rest, last) = deliver_all-Imports path i es (push e.tag e.points f) t own.1 next in
      (u, rw (deliver_all, imported, here) rest, last)
