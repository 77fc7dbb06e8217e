-- ===== src/System/Files.antt =====
-- What the operations of a file, of a graph and of a parser keep of a server.
use mathlib.Core.Option
use mathlib.Core.Path.{subst}
use mathlib.Core.Option.{some-injective}
use blue_workspace_build.Base.{
  ℕ, ◌≡◌, refl, sym, ap, ◌∙◌, inl, inr, ◌||◌, Option, none, some, List, [], ◌∷◌, ◌++◌, arith, eqb,
  Bool-cases, Option-cases, is_empty, Text,
}
use blue_workspace_build.Base.Floats.{Floats}
use blue_workspace_build.Base.Map
use blue_workspace_build.Base.Map.{Map, text_key, nat_key}
use blue_workspace_build.Concept.{ScalarPoint}
use blue_workspace_build.Smoother.Factory.{Smoother, SmoothingParam, smoother_for, sample, equal}
use blue_workspace_build.File.{
  File, FileType, append_points, update_range, update_data, run_smoother, update_smoothing_data,
  update_smoothing_param, max_u64, get_range_from_data, joined_range,
}
use blue_workspace_build.Manager.{Stored, plain, virtual, file_of, set_file}
use blue_workspace_build.Graphs.{
  Graph, Server, new_graph, find_file, store_file, update_object, graph_update_data, update_graph,
}
use blue_workspace_build.Graphs.Lookup.{
  find_file-parts, charted_graph, charted_graph-tag, graph_or_new-tag,
}
use blue_workspace_build.System.{IsServer, IsObject, IsReadable}
use blue_workspace_build.System.Tables.{graphs-IsServer, store_file-IsServer}

module _ {fl : Floats} where
  -- A change of a file that leaves its type and its path, and a file that can be read one that can.
  abbrev pub Keeps : File fl → File fl → Type 0
  Keeps f g = (g.type ≡ f.type) × (g.file_path ≡ f.file_path) × (IsReadable f → IsReadable g)

  Keeps-trans : (f g h : File fl) → Keeps f g → Keeps g h → Keeps f h
  Keeps-trans f g h k l = (l.0 ∙ k.0, l.1 ∙ k.1, λ r. l.2 (k.2 r))

  append_points-Keeps :
      (tag : Text) (ps : List (ScalarPoint fl)) (f : File fl) → Keeps f (append_points tag ps f)
  unfolding append_points update_range
  append_points-Keeps tag ps f =
      elim (Bool-cases (is_empty ps || eqb (get_range_from_data ps).0 max_u64)) [
        | inl e ↦
            rw (append_points, update_range, e)
              (
                refl,
                refl,
                λ r other h. ground (
                  arith,
                  r other,
                  h,
                  Map.has-put tag other (Map.get_or [] tag f.points ++ ps) f.points,
                ),
              )
        | inr e ↦
            rw (append_points, update_range, e)
              (
                refl,
                refl,
                λ r other h. ground (
                  arith,
                  r other,
                  h,
                  Map.has-put tag other (Map.get_or [] tag f.points ++ ps) f.points,
                  Map.has-put tag other
                      (joined_range (get_range_from_data ps) (Map.get tag f.range)) f.range,
                ),
              )
      ]

  run_smoother-Keeps :
      (tag : Text) (s : Smoother fl) (f g : File fl) → run_smoother tag s f ≡ some g → Keeps f g
  unfolding run_smoother
  run_smoother-Keeps tag s f g e =
      elim (Option-cases (sample (Map.get_or [] tag f.points) (Map.get_or [] tag f.smoothed) s)) [
        | inl h ↦ cc (rw (h) at e)
        | inr (r, h) ↦ subst (Keeps f) (some-injective _ _ (rw (h) at e)) (refl, refl, λ r. r)
      ]

  update_data-Keeps :
      (tag : Text) (ps : List (ScalarPoint fl)) (f g : File fl)
      → update_data tag ps f ≡ some g
      → Keeps f g
  unfolding update_data
  update_data-Keeps tag [] f g e = subst (Keeps f) (some-injective _ _ e) (refl, refl, λ r. r)
  update_data-Keeps tag (p ∷ ps) f g e =
      let k = append_points tag (p ∷ ps) f in
      let kept = append_points-Keeps tag (p ∷ ps) f in
      elim (Option-cases (Map.get tag k.smoother)) [
        | inl h ↦ subst (Keeps f) (some-injective _ _ (rw (update_data, h) at e)) kept
        | inr (s, h) ↦
            Keeps-trans f k g kept (run_smoother-Keeps tag s k g (rw (update_data, h) at e))
      ]

  update_smoothing_data-Keeps :
      (tag : Text) (s : Smoother fl) (f g : File fl)
      → update_smoothing_data tag s f ≡ some g
      → Keeps f g
  unfolding update_smoothing_data
  update_smoothing_data-Keeps tag s f g e =
      let k : File fl = record f { points = Map.emplace tag [] f.points } in
      let kept : Keeps f k = (
        refl,
        refl,
        λ r other h. ground (arith, r other h, Map.has-emplace tag other [] f.points),
      ) in
      Keeps-trans f k g kept (run_smoother-Keeps tag s k g e)

  pub update_smoothing_param-Keeps :
      (tag : Text) (param : Option (SmoothingParam fl)) (f g : File fl)
      → update_smoothing_param tag param f ≡ some g
      → Keeps f g
  unfolding update_smoothing_param
  update_smoothing_param-Keeps tag none f g e =
      subst (Keeps f) (some-injective _ _ e) (refl, refl, λ r. r)
  update_smoothing_param-Keeps tag (some param) f g e = elim (Option-cases (smoother_for param)) [
    | inl h ↦ cc (rw (update_smoothing_param, h) at e)
    | inr (new, h) ↦ elim (Option-cases (Map.get tag f.smoother)) [
      | inl k ↦ update_smoothing_data-Keeps tag new f g (rw (update_smoothing_param, h, k) at e)
      | inr (old, k) ↦ elim (Bool-cases (equal old new)) [
        | inl l ↦
            subst (Keeps f) (some-injective _ _ (rw (update_smoothing_param, h, k, l) at e))
              (refl, refl, λ r. r)
        | inr l ↦
            update_smoothing_data-Keeps tag new f g (rw (update_smoothing_param, h, k, l) at e)
      ]
    ]
  ]

  set_file-IsObject :
      (o : Stored fl) (g : File fl)
      → IsObject o
      → Keeps (file_of o) g
      → IsObject (set_file g o) × ((file_of (set_file g o)).file_path ≡ (file_of o).file_path)
  unfolding set_file file_of
  set_file-IsObject (plain f) g h k = ((k.0 ∙ h.0, k.2 h.1), k.1)
  set_file-IsObject (virtual f subs) g h k = ((k.0 ∙ h.0, k.2 h.1), k.1)

  -- A change of the file behind a pointer.
  pub set_file-IsServer :
      (i : ℕ) (o : Stored fl) (g : File fl) (s : Server fl)
      → IsServer s
      → Map.get i s.manager.heap ≡ some o
      → Keeps (file_of o) g
      → IsServer (store_file i (set_file g o) s)
  set_file-IsServer i o g s h there k =
      let (good, same) = set_file-IsObject o g (h.objects i o there) k in
      store_file-IsServer i o (set_file g o) s h there good same

  -- A change of the graph of a tag that leaves its name.
  pub put_graph-IsServer :
      (tag : Text) (g : Graph) (s : Server fl)
      → IsServer s
      → g.tag ≡ tag
      → IsServer (record s { graphs = Map.put tag g s.graphs })
  put_graph-IsServer tag g s h e = graphs-IsServer (Map.put tag g s.graphs) s h (λ other k f.
      elim (Map.put-inv tag other g k s.graphs f) [
        | inl (at, same) ↦ sym (ap (λ x. x.tag) same) ∙ e ∙ at
        | inr old ↦ h.named other k old
      ])

  update_object-IsServer :
      (tag path : Text) (ps : List (ScalarPoint fl)) (s t : Server fl)
      → IsServer s
      → update_object tag ps (find_file path s) s ≡ some t
      → IsServer t
  unfolding update_object
  update_object-IsServer tag path ps s t h e = elim (Option-cases (find_file path s)) [
    | inl f ↦ subst IsServer (some-injective _ _ (rw (f, update_object) at e)) h
    | inr ((i, o), f) ↦
        let (_, _, _, there) = find_file-parts path i o s h.manager f in
        stored i o there (file_of o).type refl (rw (f, update_object) at e)
  ]
    where
      stored :
          (i : ℕ) (o : Stored fl)
          → Map.get i s.manager.heap ≡ some o
          → (type : FileType) → (file_of o).type ≡ type
          → elim type [
            | FileType.normal ↦
                Option.map (λ g. store_file i (set_file g o) s) (update_data tag ps (file_of o))
            | FileType.visual ↦ some s
          ]
            ≡ some t
          → IsServer t
      stored i o there FileType.visual k l = subst IsServer (some-injective _ _ l) h
      stored i o there FileType.normal k l = elim (Option-cases (update_data tag ps (file_of o))) [
        | inl n ↦ cc (rw (n) at l)
        | inr (g, n) ↦
            subst IsServer (some-injective _ _ (rw (n) at l))
              (set_file-IsServer i o g s h there (update_data-Keeps tag ps (file_of o) g n))
      ]

  pub update_graph-IsServer :
      (tag path : Text) (ps : List (ScalarPoint fl)) (s t : Server fl)
      → IsServer s
      → update_graph tag path ps s ≡ some t
      → IsServer t
  unfolding update_graph graph_update_data
  update_graph-IsServer tag path ps s t h e =
      let g = Map.get_or (new_graph tag) tag s.graphs in
      let k = charted_graph path g in
      let tagged = charted_graph-tag path g ∙ graph_or_new-tag tag s.graphs (h.named tag) in
      let u = record s { graphs = Map.put tag k s.graphs } in
      let good : IsServer u = put_graph-IsServer tag k s h tagged in
      elim (Bool-cases (is_empty ps)) [
        | inl f ↦
            subst IsServer (some-injective _ _ (rw (update_graph, graph_update_data, f) at e)) good
        | inr f ↦
            update_object-IsServer g.tag path ps u t good
              (rw (update_graph, graph_update_data, f) at e)
      ]
