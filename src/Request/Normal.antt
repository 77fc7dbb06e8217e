-- ===== src/Request/Normal.antt =====
-- The normal line of a request from the server's files to the points of the answer.
use blue_workspace_build.Base.{
  ℕ, ◌+◌, ◌-◌, ◌/◌, ◌%◌, ◌^◌, ◌≤◌, ◌<◌, ◌≡◌, refl, ap, ◌∙◌, inl, inr, true, false, some, List, [],
  ◌∷◌, arith, length, take, drop, Text,
}
use blue_workspace_build.Base.Map
use blue_workspace_build.Base.Map.{text_key}
use blue_workspace_build.Concept.{ScalarPoint, DataMode}
use blue_workspace_build.Concept.View.{
  DataView, make_view, get_elements, gather_element, distance, distance-eq,
}
use blue_workspace_build.Line.{
  LineType, GraphLine, make_line, get_line_data, add_line_data, add_views, append_from, move_data,
  keep_below,
}
use blue_workspace_build.Line.Sample.{sample_process, gather_views, total_distance, sample_step}
use blue_workspace_build.Graphs.{Graph, Server, inner_file, find_file}
use blue_workspace_build.Request.{
  LineBasicInfo, normal_op, sample_op, process_all, LineOp, process, fetch,
}
use blue_workspace_build.Base.Floats.{Floats}
use blue_workspace_build.Manager.{plain}
use blue_workspace_build.File.{File, get_data}
use blue_workspace_build.File.Invariant.{IsFile}
use blue_workspace_build.File.Boundary.{between}
use blue_workspace_build.File.Invariant.Query.{get_data-Answers}
use blue_workspace_build.Graphs.Virtual.{get_graph_data, get_file_data, object_get_data}
use blue_workspace_build.Concept.Elements.{get_elements-gather_element}

-- At most 20001 positions are sampled with step 1.
sample_step-small : (n : ℕ) → n ≤ 20001 → sample_step n ≡ 1
unfolding sample_step
sample_step-small n h = let small : n / 10001 ≤ 1 = omega arith in ground arith

module _ {fl : Floats} where
  -- The server has the file `f` under this path, in the graph of this tag.
  abbrev pub Serves : Text → Text → File fl → Server fl → Type 0
  Serves tag file f s =
      (g : Graph) × (i : ℕ) × (Map.get tag s.graphs ≡ some g)
      × (g.tag ≡ tag)
      × (inner_file file g ≡ true)
      × (find_file file s ≡ some (i, plain f))

  get_graph_data-Serves :
      (tag file : Text) (left right : ℕ) (mode : DataMode) (f : File fl) (s : Server fl)
      → Serves tag file f s
      → get_graph_data tag file left right mode s ≡ get_data tag left right mode f
  unfolding get_graph_data get_file_data object_get_data
  get_graph_data-Serves tag file left right mode f s (g, i, graph, same, inner, found) =
      rw (get_graph_data, graph) (rw (inner, found) (ap (λ t. get_data t left right mode f) same))

  -- The line that the normal operation leaves.
  abbrev fetched : List (DataView fl) → GraphLine fl
  fetched vs = record (make_line fl LineType.normal) { data_view = vs }

  -- The operations of the normal line.
  abbrev pub normal_ops : LineBasicInfo → List (LineOp fl)
  normal_ops info = normal_op info DataMode.normal ∷ sample_op info DataMode.sample ∷ []

  get_line_data-fetched :
      (w : DataView fl) (ps : List (ScalarPoint fl))
      → get_elements w ≡ some ps
      → (after : GraphLine fl) × (get_line_data (fetched (w ∷ [])) ≡ some (ps, after))
  unfolding get_line_data add_line_data make_line add_views append_from move_data keep_below
  get_line_data-fetched w [] e =
      (record (fetched (w ∷ [])) { view = false }, rw (get_line_data, add_views, e) refl)
  get_line_data-fetched w (p ∷ ps) e =
      (record (fetched (w ∷ [])) { view = false }, rw (get_line_data, add_views, e) refl)

  gather_views-one :
      (v w : DataView fl) → gather_element 1 v ≡ some w → gather_views 1 (v ∷ []) ≡ some (w ∷ [])
  unfolding gather_views
  gather_views-one v w e = rw (gather_views, e) refl

  sample_process-small :
      (base : List (ScalarPoint fl)) (lower upper : ℕ) (file : Text) (w : DataView fl)
      → lower ≤ upper
      → upper - lower ≤ 20001
      → upper < 2 ^ 63
      → gather_element 1 (make_view base lower upper file) ≡ some w
      → sample_process (fetched (make_view base lower upper file ∷ [])) ≡ some (fetched (w ∷ []))
  unfolding sample_process total_distance make_view
  sample_process-small base lower upper file w h k b e =
      let total : (0 + distance lower upper) % 2 ^ 64 ≡ upper - lower =
        omega (arith, distance-eq lower upper h b) in
      let one : sample_step (upper - lower) ≡ 1 = sample_step-small (upper - lower) k in
      rw (total, one, gather_views-one _ w e) refl

  sample_process-none : sample_process (fetched []) ≡ some (fetched [])
  unfolding sample_process
  sample_process-none = refl

  get_elements-take :
      (base : List (ScalarPoint fl)) (lower upper : ℕ) (file : Text)
      → lower ≤ upper
      → upper ≤ length base
      → get_elements (make_view base lower upper file)
        ≡ some (take (upper - lower) (drop lower base))
  unfolding get_elements make_view
  get_elements-take base lower upper file h k = ground arith

  process_all-normal :
      (info : LineBasicInfo) (s : Server fl) (vs : List (DataView fl)) (out : GraphLine fl)
      → get_graph_data info.tag info.file info.start info.end_ DataMode.normal s ≡ some vs
      → sample_process (fetched vs) ≡ some out
      → process_all (normal_ops info) (make_line fl LineType.normal) s ≡ some (out, s)
  unfolding process_all process fetch
  process_all-normal info s vs out got sampled = rw (process_all, process, fetch, got, sampled) refl

  -- If the server has a well-formed file under the path and the tag of the request, with at most
  -- 20001 points of the tag, and the ends of the request are ordered, then the operations of the
  -- normal line succeed without a change of the server, and the line that they leave answers
  -- exactly the points of the tag whose steps lie between the ends.
  pub normal_line-between :
      (info : LineBasicInfo) (f : File fl) (s : Server fl) (p : ScalarPoint fl)
      (ps : List (ScalarPoint fl))
      → Serves info.tag info.file f s
      → IsFile f
      → Map.get info.tag f.points ≡ some (p ∷ ps)
      → length (p ∷ ps) ≤ 20001
      → info.start ≤ info.end_
      → (line : GraphLine fl) × (after : GraphLine fl) × (process_all
            (normal_ops info)
            (make_line fl LineType.normal)
            s
          ≡ some (line, s))
        × (get_line_data line ≡ some (between info.start info.end_ (p ∷ ps), after))
  unfolding get_line_data make_line move_data
  normal_line-between info f s p ps serves inv here small h =
      let served =
        get_graph_data-Serves info.tag info.file info.start info.end_ DataMode.normal f s serves in
      elim (get_data-Answers f info.tag p ps info.start info.end_ inv here h) [
        | inr (e, none_asked) ↦ (
          fetched [],
          record (fetched []) { view = false },
          process_all-normal info s [] (fetched []) (served ∙ e) (sample_process-none),
          rw none_asked refl,
        )
        | inl (lower, upper, e, ordered, inside, asked) ↦
            let (w, made, same) =
              get_elements-gather_element (p ∷ ps) lower upper f.file_path ordered inside
                (omega arith) in
            let (after, answer) = get_line_data-fetched w (between info.start info.end_ (p ∷ ps)) (
              same
              ∙ get_elements-take (p ∷ ps) lower upper f.file_path ordered inside
              ∙ ap some asked) in
            (
              fetched (w ∷ []),
              after,
              process_all-normal info s _ _ (served ∙ e) (
                  sample_process-small (p ∷ ps) lower upper f.file_path w ordered (omega arith)
                    (omega arith) made),
              answer,
            )
      ]
