-- ===== src/Graphs/Files.antt =====
-- The files of the graphs, and the tags and files that are reported as new.
use mathlib.Core.Option
use mathlib.Core.Option.{some-injective}
use blue_workspace_build.File.{update_data, File}
use blue_workspace_build.Base.{
  ℕ, ◌+◌, ◌%◌, ◌^◌, ◌<◌, ◌≡◌, refl, sym, ap, ◌⊎◌, inl, inr, Bool, true, false, not, ◌&&◌, ◌||◌,
  Option, none, some, List, [], ◌∷◌, ◌++◌, arith, ltb, if◌then◌else◌, Bool-cases, Option-cases,
  length, is_empty, any_of, Text, text_eq, text_eq_iff,
}
use blue_workspace_build.Base.Map
use blue_workspace_build.Base.Map.{Map, text_key}
use blue_workspace_build.Base.StringSet
use blue_workspace_build.Base.StringSet.{StringSet}
use blue_workspace_build.Concept.{ScalarPoint}
use blue_workspace_build.File.{FileType}
use blue_workspace_build.Manager.{Stored}
use blue_workspace_build.Graphs.{
  Graph, Server, inner_file, update_object, graph_update_data, update_graph, is_incremental,
  add_tags, get_file_tags, drain, get_incremental, store_file, new_graph, Floats, file_of, set_file,
}

-- The number of files in the entries.
unfoldable pub total_files : Map Text StringSet → ℕ
total_files [] = 0
total_files ((tag, files) ∷ m) = length files + total_files m

drain_lem :
    (count : ℕ) (m : Map Text StringSet)
    → count + total_files m < 2 ^ 64
    → ((drain count m).0 ++ (drain count m).1 ≡ m)
      × (((drain count m).1 ≡ []) ⊎ (1000 < count + total_files (drain count m).0))
unfolding drain total_files
drain_lem count [] b = (refl, inl refl)
drain_lem count ((tag, files) ∷ m) b =
    let small : (count + length files) % 2 ^ 64 ≡ count + length files = omega arith in
    let (all, more) = drain_lem (count + length files) m (omega arith) in
    elim (Bool-cases (ltb 1000 (count + length files))) [
      | inl f ↦ (rw (small, f) refl, inr (rw (small, f) (ground arith)))
      | inr f ↦ (
        rw (small, f) (ap (◌∷◌ (tag, files)) all),
        rw (small, f) (elim more [ inl z ↦ inl z | inr z ↦ inr (omega arith) ]),
      )
    ]

add_tags-contains :
    (path tag : Text) (graphs : Map Text Graph) (tags : StringSet)
    → StringSet.contains tag (add_tags path graphs tags) ≡ (
        StringSet.contains tag tags
        || any_of (λ (e : Text × Graph). text_eq e.0 tag && inner_file path e.1) graphs)
unfolding add_tags
add_tags-contains path tag [] tags = ground arith
add_tags-contains path tag ((t, g) ∷ graphs) tags = ground (
  arith,
  add_tags-contains path tag graphs tags,
  add_tags-contains path tag graphs (StringSet.insert t tags),
  StringSet.contains-insert t tag tags,
)

-- The graph of a tag with one more file.
joined : Text → Text → Map Text Graph → Graph
unfolding inner_file
joined tag file graphs =
    let g = Map.get_or (new_graph tag) tag graphs in
    if not (inner_file file g)
    then record g { data_files = StringSet.insert file g.data_files }
    else g

-- Whether a file of a tag is new.
abbrev pub is_new : Text → Option Graph → Bool
is_new file none = true
is_new file (some g) = not (inner_file file g)

get_or-is_new :
    (tag file : Text) (graphs : Map Text Graph)
    → not (inner_file file (Map.get_or (new_graph tag) tag graphs))
      ≡ is_new file (Map.get tag graphs)
unfolding Map.get_or inner_file new_graph StringSet.contains
get_or-is_new tag file graphs = elim (Option-cases (Map.get tag graphs)) [
  | inl e ↦ rw (Map.get_or, e) refl
  | inr (g, e) ↦ rw (Map.get_or, e) refl
]

joined-inner_file :
    (tag file file' : Text) (graphs : Map Text Graph)
    → is_new file' (some (joined tag file graphs))
      ≡ (if text_eq file file' then false else is_new file' (Map.get tag graphs))
unfolding joined inner_file
joined-inner_file tag file file' graphs = ground (
  arith,
  sym (get_or-is_new tag file' graphs),
  text_eq_iff file file',
  StringSet.contains-insert file file' (Map.get_or (new_graph tag) tag graphs).data_files,
)

module _ {fl : Floats} where
  stored-graphs :
      (i : ℕ) (q : Stored fl) (type : FileType) (o : Option (File fl)) (s t : Server fl)
      → elim type [
        | FileType.normal ↦ Option.map (λ g. store_file i (set_file g q) s) o
        | FileType.visual ↦ some s
      ]
        ≡ some t
      → t.graphs ≡ s.graphs
  unfolding store_file
  stored-graphs i q FileType.normal none s t e = cc
  stored-graphs i q FileType.normal (some g) s t e = ap (λ u. u.graphs) (sym (some-injective _ _ e))
  stored-graphs i q FileType.visual o s t e = ap (λ u. u.graphs) (sym (some-injective _ _ e))

  update_object-graphs :
      (tag : Text) (points : List (ScalarPoint fl)) (o : Option (ℕ × Stored fl)) (s t : Server fl)
      → update_object tag points o s ≡ some t
      → t.graphs ≡ s.graphs
  unfolding update_object store_file
  update_object-graphs tag points none s t e = ground arith
  update_object-graphs tag points (some (i, o)) s t e =
      stored-graphs i o (file_of o).type (update_data tag points (file_of o)) s t e

  update_graph-graphs :
      (tag file : Text) (points : List (ScalarPoint fl)) (s t : Server fl)
      → update_graph tag file points s ≡ some t
      → t.graphs ≡ Map.put tag (joined tag file s.graphs) s.graphs
  unfolding update_graph joined graph_update_data
  update_graph-graphs tag file points s t e = elim (Bool-cases (is_empty points)) [
    | inl f ↦ ap (λ u. u.graphs) (sym (some-injective _ _ (rw f at e)))
    | inr f ↦ update_object-graphs _ points _ _ t (rw f at e)
  ]

  pub is_incremental-is_new :
      (file tag : Text) (s : Server fl)
      → is_incremental file tag s ≡ is_new file (Map.get tag s.graphs)
  unfolding is_incremental
  is_incremental-is_new file tag s = elim (Option-cases (Map.get tag s.graphs)) [
    | inl e ↦ rw (is_incremental, e) refl
    | inr (g, e) ↦ rw (is_incremental, e) refl
  ]

  -- If `UpdateGraph` ends for a tag and a file, this pair is not new any more, and whether
  -- another pair is new has not changed.
  pub is_incremental-update_graph :
      (tag file : Text) (points : List (ScalarPoint fl)) (s t : Server fl)
      → update_graph tag file points s ≡ some t
      → (tag' file' : Text)
      → is_incremental file' tag' t
        ≡ (if text_eq tag tag' && text_eq file file' then false else is_incremental file' tag' s)
  is_incremental-update_graph tag file points s t e tag' file' =
      rw
        (
          is_incremental-is_new file' tag' t,
          is_incremental-is_new file' tag' s,
          update_graph-graphs tag file points s t e,
          Map.get-put,
        )
        (elim (Bool-cases (text_eq tag tag')) [
          | inl same ↦
              rw (same, sym ((text_eq_iff tag tag').0 same))
                (joined-inner_file tag file file' s.graphs)
          | inr same ↦ rw same refl
        ])

  -- The tags of a file are those that the caller had, and those whose graph has the file.
  pub get_file_tags-contains :
      (path tag : Text) (tags : StringSet) (s : Server fl)
      → StringSet.contains tag (get_file_tags path tags s) ≡ (
          StringSet.contains tag tags
          || any_of (λ (e : Text × Graph). text_eq e.0 tag && inner_file path e.1) s.graphs)
  unfolding get_file_tags
  get_file_tags-contains path tag tags s = add_tags-contains path tag s.graphs tags

  -- With fewer than 2 ^ 64 files in all, a call moves the first entries out, in order, and keeps
  -- the others; it moves all of them, or more than 1000 files.
  pub get_incremental_lem :
      (s : Server fl)
      → total_files s.incremental < 2 ^ 64
      → ((get_incremental s).0 ++ (get_incremental s).1.incremental ≡ s.incremental)
        × (((get_incremental s).1.incremental ≡ []) ⊎ (1000 < total_files (get_incremental s).0))
  unfolding get_incremental
  get_incremental_lem s b =
      let (all, more) = drain_lem 0 s.incremental (omega arith) in
      (all, elim more [ inl z ↦ inl z | inr z ↦ inr (omega arith) ])
