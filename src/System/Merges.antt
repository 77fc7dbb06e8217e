-- ===== src/System/Merges.antt =====
-- The steps of smoothing and of merged files keep the invariant.
use mathlib.Core.Path.{subst}
use mathlib.Core.Option.{some-injective}
use blue_workspace_build.Base.{
  ℕ, ◌<◌, ◌≡◌, refl, sym, ap, ◌∙◌, ◌⊎◌, inl, inr, Option, none, some, [], ◌∷◌, arith, Bool-cases,
  Option-cases, Text,
}
use blue_workspace_build.Base.Floats.{Floats}
use blue_workspace_build.Base.Map
use blue_workspace_build.Base.Map.{Map, text_key, nat_key}
use blue_workspace_build.Base.StringSet
use blue_workspace_build.Base.StringSet.{StringSet}
use blue_workspace_build.Smoother.Factory.{SmoothingParam}
use blue_workspace_build.File.{FileType, make_file, update_smoothing_param}
use blue_workspace_build.Manager.{Stored, plain, virtual, file_of, add_pointer, del_file}
use blue_workspace_build.Graphs.{Graph, Server, find_file, store_file, graph_del_file, inner_file}
use blue_workspace_build.Graphs.Lookup.{find_file-parts}
use blue_workspace_build.Graphs.Virtual.{
  smooth_file, smooth_subs, smooth_object, smooth_in_graph, update_graph_smoothing, graph_add_file,
  each_tag, add_virtual_file, del_virtual_file, add_sub_files,
}
use blue_workspace_build.Handler.FileMerge.{
  FileMergeRequest, merged, unset, file_merge, file_unmerge, new_virtual, make_virtual,
}
use blue_workspace_build.System.{IsServer, IsObject, AreNamed}
use blue_workspace_build.System.Tables.{
  managed, graphs-IsServer, grown, grown-IsServer, linked-IsServer, erased-IsServer,
}
use blue_workspace_build.System.Files.{set_file-IsServer, update_smoothing_param-Keeps}

type_cases : (type : FileType) → (type ≡ FileType.normal) ⊎ (type ≡ FileType.visual)
type_cases FileType.normal = inl refl
type_cases FileType.visual = inr refl

-- What a change of the graph of one tag leaves.
each_tag-AreNamed :
    (act : Text → Map Text Graph → Map Text Graph) (tags : StringSet) (graphs : Map Text Graph)
    → ((tag : Text) (gs : Map Text Graph) → AreNamed gs → AreNamed (act tag gs))
    → AreNamed graphs
    → AreNamed (each_tag act tags graphs)
unfolding each_tag
each_tag-AreNamed act [] graphs k h = h
each_tag-AreNamed act (tag ∷ tags) graphs k h =
    each_tag-AreNamed act tags (act tag graphs) k (k tag graphs h)

put-AreNamed :
    (tag : Text) (g : Graph) (graphs : Map Text Graph)
    → AreNamed graphs
    → g.tag ≡ tag
    → AreNamed (Map.put tag g graphs)
put-AreNamed tag g graphs h e other k f = elim (Map.put-inv tag other g k graphs f) [
  | inl (at, same) ↦ sym (ap (λ x. x.tag) same) ∙ e ∙ at
  | inr old ↦ h other k old
]

graph_add_file-AreNamed :
    (file tag : Text) (graphs : Map Text Graph)
    → AreNamed graphs
    → AreNamed (graph_add_file file tag graphs)
unfolding graph_add_file
graph_add_file-AreNamed file tag graphs h = elim (Option-cases (Map.get tag graphs)) [
  | inl e ↦ rw (graph_add_file, e) h
  | inr (g, e) ↦ elim (Bool-cases (inner_file file g)) [
    | inl f ↦ rw (graph_add_file, e, f) h
    | inr f ↦ rw (graph_add_file, e, f) (put-AreNamed tag _ graphs h (h tag g e))
  ]
]

graph_del_file-AreNamed :
    (file tag : Text) (graphs : Map Text Graph)
    → AreNamed graphs
    → AreNamed (graph_del_file file tag graphs)
unfolding graph_del_file
graph_del_file-AreNamed file tag graphs h = elim (Option-cases (Map.get tag graphs)) [
  | inl e ↦ rw (graph_del_file, e) h
  | inr (g, e) ↦ rw (graph_del_file, e) (put-AreNamed tag _ graphs h (h tag g e))
]

module _ {fl : Floats} where
  smooth_file-IsServer :
      (tag : Text) (param : SmoothingParam fl) (i : ℕ) (o : Stored fl) (s t : Server fl)
      → IsServer s
      → Map.get i s.manager.heap ≡ some o
      → smooth_file tag param i o s ≡ some t
      → IsServer t
  unfolding smooth_file
  smooth_file-IsServer tag param i o s t h there e =
      elim (Option-cases (update_smoothing_param tag (some param) (file_of o))) [
        | inl f ↦ cc (rw (smooth_file, f) at e)
        | inr (g, f) ↦ subst IsServer (some-injective _ _ (rw (smooth_file, f) at e)) (
            set_file-IsServer i o g s h there
              (update_smoothing_param-Keeps tag (some param) (file_of o) g f))
      ]

  smooth_subs-IsServer :
      (files : StringSet) (tag : Text) (param : SmoothingParam fl) (s t : Server fl)
      → IsServer s
      → smooth_subs files tag param s ≡ some t
      → IsServer t
  unfolding smooth_subs
  smooth_subs-IsServer [] tag param s t h e = subst IsServer (some-injective _ _ e) h
  smooth_subs-IsServer (file ∷ files) tag param s t h e = elim (Option-cases (find_file file s)) [
    | inl f ↦ smooth_subs-IsServer files tag param s t h (rw (smooth_subs, f) at e)
    | inr ((i, virtual g subs), f) ↦ cc (rw (smooth_subs, f) at e)
    | inr ((i, plain g), f) ↦
        let (_, _, _, there) = find_file-parts file i (plain g) s h.manager f in
        elim (Option-cases (smooth_file tag param i (plain g) s)) [
          | inl k ↦ cc (rw (smooth_subs, f, k) at e)
          | inr (u, k) ↦
              smooth_subs-IsServer files tag param u t
                (smooth_file-IsServer tag param i (plain g) s u h there k)
                (rw (smooth_subs, f, k) at e)
        ]
  ]

  smooth_object-IsServer :
      (tag : Text) (param : SmoothingParam fl) (i : ℕ) (o : Stored fl) (s t : Server fl)
      → IsServer s
      → Map.get i s.manager.heap ≡ some o
      → smooth_object tag param i o s ≡ some t
      → IsServer t
  unfolding smooth_object
  smooth_object-IsServer tag param i (plain f) s t h there e =
      smooth_file-IsServer tag param i (plain f) s t h there e
  smooth_object-IsServer tag param i (virtual f subs) s t h there e =
      smooth_subs-IsServer subs tag param s t h e

  pub update_graph_smoothing-IsServer :
      (tag file : Text) (param : Option (SmoothingParam fl)) (s t : Server fl)
      → IsServer s
      → update_graph_smoothing tag file param s ≡ some t
      → IsServer t
  unfolding update_graph_smoothing smooth_in_graph
  update_graph_smoothing-IsServer tag file none s t h e = subst IsServer (some-injective _ _ e) h
  update_graph_smoothing-IsServer tag file (some param) s t h e =
      elim (Option-cases (Map.get tag s.graphs)) [
        | inl f ↦ subst IsServer (some-injective _ _ (rw (update_graph_smoothing, f) at e)) h
        | inr (g, f) ↦ elim (Option-cases (find_file file s)) [
          | inl k ↦
              subst IsServer
                (some-injective _ _ (rw (update_graph_smoothing, f, smooth_in_graph, k) at e)) h
          | inr ((i, o), k) ↦
              let (_, _, _, there) = find_file-parts file i o s h.manager k in
              smooth_object-IsServer g.tag param i o s t h there
                (rw (update_graph_smoothing, f, smooth_in_graph, k) at e)
        ]
      ]

  -- A pointer to an object of this path.
  add_pointer-IsServer :
      (i : ℕ) (o : Stored fl) (path : Text) (s : Server fl)
      → IsServer s
      → Map.get i s.manager.heap ≡ some o
      → i < s.manager.next
      → (file_of o).file_path ≡ path
      → IsServer (managed (add_pointer i path s.manager) s)
  unfolding add_pointer Map.emplace
  add_pointer-IsServer i o path s h there below same =
      elim (Bool-cases (StringSet.contains path s.manager.paths)) [
        | inl e ↦ rw (add_pointer, e) h
        | inr e ↦
            rw (add_pointer, e, Map.emplace, h.manager.missing path e)
              (linked-IsServer path i o s h there below same)
      ]

  pub merged-IsServer :
      (r : FileMergeRequest) (s : Server fl) → IsServer s → IsServer (merged r s).1
  unfolding merged file_merge new_virtual add_virtual_file make_virtual add_sub_files file_of
      store_file make_file Map.has Map.get
  merged-IsServer r s h =
      let o = add_sub_files r.files s (make_virtual fl r.name) in
      let good : IsObject o = (refl, λ tag k. absurd (ground (arith, k))) in
      let linked =
        add_pointer-IsServer s.manager.next o r.name (grown o s) (grown-IsServer o s h good)
          (Map.get-put_self s.manager.next o s.manager.heap) (omega arith) refl in
      graphs-IsServer _
        (managed (add_pointer s.manager.next r.name (grown o s).manager) (grown o s)) linked
        (each_tag-AreNamed (graph_add_file r.name) (file_of o).tags s.graphs
          (graph_add_file-AreNamed r.name) h.named)

  del_file-IsServer :
      (path : Text) (s : Server fl) → IsServer s → IsServer (managed (del_file path s.manager).1 s)
  unfolding del_file
  del_file-IsServer path s h = elim (Bool-cases (StringSet.contains path s.manager.paths)) [
    | inl e ↦ rw (del_file, e) (erased-IsServer path s h)
    | inr e ↦ rw (del_file, e) h
  ]

  del_virtual_file-IsServer :
      (o : Stored fl) (s : Server fl) → IsServer s → IsServer (del_virtual_file o s)
  unfolding del_virtual_file
  del_virtual_file-IsServer o s h =
      let path = (file_of o).file_path in
      elim (Option-cases (find_file path s)) [
        | inl e ↦ rw (del_virtual_file, e) h
        | inr (found, e) ↦
            rw (del_virtual_file, e)
              (graphs-IsServer _ (managed (del_file path s.manager).1 s)
                (del_file-IsServer path s h)
                (each_tag-AreNamed (graph_del_file path) (file_of o).tags s.graphs
                  (graph_del_file-AreNamed path) h.named))
      ]

  file_unmerge-IsServer :
      (name : Text) (s : Server fl) → IsServer s → IsServer (file_unmerge name s)
  unfolding file_unmerge
  file_unmerge-IsServer [] s h = h
  file_unmerge-IsServer (b ∷ bs) s h = elim (Option-cases (find_file (b ∷ bs) s)) [
    | inl e ↦ rw (file_unmerge, e) h
    | inr ((i, o), e) ↦ rw (file_unmerge, e) (typed o (file_of o).type)
  ]
    where
      typed :
          (o : Stored fl) (type : FileType)
          → IsServer (elim type as (λ _. Server fl) [
            | FileType.normal ↦ s
            | FileType.visual ↦ del_virtual_file o s
          ])
      typed o FileType.normal = h
      typed o FileType.visual = del_virtual_file-IsServer o s h

  pub unset-IsServer : (r : FileMergeRequest) (s : Server fl) → IsServer s → IsServer (unset r s).1
  unfolding unset
  unset-IsServer r s h = elim (Option-cases (find_file r.name s)) [
    | inl e ↦ rw (unset, e) h
    | inr ((i, o), e) ↦ elim (type_cases (file_of o).type) [
      | inl k ↦ rw (unset, e, k) h
      | inr k ↦ rw (unset, e, k) (file_unmerge-IsServer r.name s h)
    ]
  ]
