-- ===== src/Graphs/Lookup.antt =====
-- `GetFileInfo` of a well-formed manager, by the tables that it looks into, and the graph that
-- `UpdateData` leaves.
use mathlib.Core.Option.{some-injective}
use blue_workspace_build.Base.{
  ℕ, ◌<◌, ◌≡◌, refl, sym, ap, ◌∙◌, inl, inr, true, not, none, some, arith, if◌then◌else◌,
  Bool-cases, Option-cases, Text,
}
use blue_workspace_build.Base.Floats.{Floats}
use blue_workspace_build.Base.Map
use blue_workspace_build.Base.Map.{Map, nat_key, text_key}
use blue_workspace_build.Base.StringSet
use blue_workspace_build.Manager.{Manager, Stored, get_file_info, index_files}
use blue_workspace_build.Manager.Index.{IsManager, lookup-eq}
use blue_workspace_build.Graphs.{Graph, new_graph, inner_file, Server, find_file}

-- The graph behind `UpdateData`.
abbrev pub charted_graph : Text → Graph → Graph
charted_graph path g =
    if not (inner_file path g)
    then record g { data_files = StringSet.insert path g.data_files }
    else g

pub charted_graph-inner : (path : Text) (g : Graph) → inner_file path (charted_graph path g) ≡ true
unfolding inner_file
charted_graph-inner path g = elim (Bool-cases (inner_file path g)) [
  | inl e ↦ rw (e) e
  | inr e ↦ rw (e) (rw (inner_file, StringSet.contains-insert, Map.same_refl path) refl)
]

pub charted_graph-tag : (path : Text) (g : Graph) → (charted_graph path g).tag ≡ g.tag
charted_graph-tag path g = ground arith

-- The graph of a tag, new if there is none, stands under its tag.
pub graph_or_new-tag :
    (tag : Text) (graphs : Map Text Graph)
    → ((g : Graph) → Map.get tag graphs ≡ some g → g.tag ≡ tag)
    → (Map.get_or (new_graph tag) tag graphs).tag ≡ tag
unfolding Map.get_or new_graph
graph_or_new-tag tag graphs h = elim (Option-cases (Map.get tag graphs)) [
  | inl e ↦ rw (Map.get_or, e) refl
  | inr (g, e) ↦ rw (Map.get_or, e) (h g e)
]

module _ {fl : Floats} where
  pub find_file-known :
      (name : Text) (i : ℕ) (o : Stored fl) (s : Server fl)
      → StringSet.contains name s.manager.paths ≡ true
      → Map.get name s.manager.files ≡ some (some i)
      → Map.get i s.manager.heap ≡ some o
      → find_file name s ≡ some (i, o)
  unfolding find_file get_file_info index_files
  find_file-known name i o s k f g =
      rw (find_file, get_file_info, k, Map.get_or-get none (some i) name s.manager.files f, g) refl

  -- What a successful `GetFileInfo` of a well-formed manager says of its tables.
  pub find_file-parts :
      (name : Text) (i : ℕ) (o : Stored fl) (s : Server fl)
      → IsManager s.manager
      → find_file name s ≡ some (i, o)
      → (StringSet.contains name s.manager.paths ≡ true)
        × (Map.get name s.manager.files ≡ some (some i))
        × (i < s.manager.next)
        × (Map.get i s.manager.heap ≡ some o)
  unfolding find_file get_file_info
  find_file-parts name i o s m h = elim (Bool-cases (StringSet.contains name s.manager.paths)) [
    | inl e ↦
        let (k, p, found, below, there) = m.known name e in
        let same = sym (find_file-known name k p s e found there) ∙ h in
        let first : k ≡ i = ap (λ r. r.0) (some-injective _ _ same) in
        let second : p ≡ o = ap (λ r. r.1) (some-injective _ _ same) in
        (e, found ∙ ap (λ x. some (some x)) first, omega arith, rw⁻¹ (first, second) there)
    | inr e ↦ cc (rw (find_file, get_file_info, e) at h)
  ]

  -- What a pointer that `GetFileInfo` gives says of them.
  pub pointer-parts :
      (name : Text) (i : ℕ) (m : Manager fl)
      → IsManager m
      → (get_file_info name m).0 ≡ some i
      → (o : Stored fl) × (StringSet.contains name m.paths ≡ true)
        × (Map.get name m.files ≡ some (some i))
        × (Map.get i m.heap ≡ some o)
  unfolding get_file_info
  pointer-parts name i m h e = elim (Bool-cases (StringSet.contains name m.paths)) [
    | inl known ↦
        let (k, o, found, _, there) = h.known name known in
        let stored = Map.get_or-get none (some k) name m.files found in
        let same : k ≡ i = some-injective _ _ (sym stored ∙ sym (lookup-eq name m h) ∙ e) in
        (
          o,
          known,
          found ∙ ap (λ x. some (some x)) same,
          ap (λ x. Map.get x m.heap) (sym same) ∙ there,
        )
    | inr unknown ↦ cc (rw (get_file_info, unknown) at e)
  ]
