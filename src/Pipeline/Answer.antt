-- ===== src/Pipeline/Answer.antt =====
-- From the records of a log to the answer of a request.
use mathlib.Core.Path.{subst}
use mathlib.Core.List.{append_assoc, append-nil}
use blue_workspace_build.Base.{
  ℕ, suc, ◌≤◌, ◌<◌, ◌≡◌, refl, sym, ap, ◌∙◌, inl, inr, Bool, true, Option, none, some, List, [],
  ◌∷◌, ◌++◌, arith, if◌then◌else◌, Bool-cases, Option-cases, length, All, Text, text_eq,
  text_eq_iff,
}
use blue_workspace_build.Base.Floats.{Floats}
use blue_workspace_build.Base.Map
use blue_workspace_build.Base.Map.{text_key, nat_key}
use blue_workspace_build.Base.StringSet
use blue_workspace_build.Concept.{ScalarPoint}
use blue_workspace_build.Line.Merge.{IsAscending, AscendsFrom}
use blue_workspace_build.File.{File, max_u64}
use blue_workspace_build.File.Boundary.{between}
use blue_workspace_build.File.Invariant.{IsFile, Describes}
use blue_workspace_build.File.Invariant.Update.{
  points_of, append_points-IsFile, append_points-points,
}
use blue_workspace_build.Graphs.{Server}
use blue_workspace_build.Json.{Json}
use blue_workspace_build.Request.{LineBasicInfo}
use blue_workspace_build.Request.Normal.{Serves}
use blue_workspace_build.Handler.Response.{process_single, process_single_normal, normal_response}
use blue_workspace_build.Parser.Cache.{Entry, empty_cache}
use blue_workspace_build.Parser.Frame.{read_record}
use blue_workspace_build.Parser.Loop.{returned, ScalarData, parser_data}
use blue_workspace_build.Parser.Resume.{FileRecord, IsFileRecord, contents, sized}
use blue_workspace_build.Pipeline.{push, push_all, tag_points, record_entries, Imports}
use blue_workspace_build.Pipeline.Deliver.{find_file-Imports}
use blue_workspace_build.Pipeline.Parse.{parser_data-Imports}

module _ {fl : Floats} where
  -- Every step of an entry is below the largest `uint64_t`.
  abbrev pub InRange : Entry fl → Type 0
  InRange e = All (λ p. p.step < max_u64) e.points

  ascending-prefix :
      (low : ℕ) (ps qs : List (ScalarPoint fl)) → AscendsFrom low (ps ++ qs) → AscendsFrom low ps
  ascending-prefix low [] qs h = tt
  ascending-prefix low (p ∷ ps) qs h = (h.0, ascending-prefix (suc p.step) ps qs h.1)

  push-points :
      (tag other : Text) (ps : List (ScalarPoint fl)) (f : File fl)
      → All (λ p. p.step < max_u64) ps
      → points_of other (push tag ps f)
        ≡ (if text_eq tag other then points_of other f ++ ps else points_of other f)
  unfolding push
  push-points tag other [] f h = ground (arith, append-nil (points_of other f))
  push-points tag other (p ∷ ps) f h = elim (Bool-cases (text_eq tag other)) [
    | inl e ↦
        append_points-points tag other p ps f h.0
        ∙ rw e (ap (λ t. points_of t f ++ p ∷ ps) ((text_eq_iff tag other).0 e))
    | inr e ↦ append_points-points tag other p ps f h.0 ∙ rw e refl
  ]

  push-IsFile :
      (tag : Text) (ps : List (ScalarPoint fl)) (f : File fl)
      → All (λ p. p.step < max_u64) ps
      → IsFile f
      → IsAscending (points_of tag f ++ ps)
      → IsFile (push tag ps f)
  unfolding push
  push-IsFile tag [] f h inv a = inv
  push-IsFile tag (p ∷ ps) f h inv a = append_points-IsFile tag p ps f h.0 inv a

  -- The points of a tag behind one entry and those of the entries that follow it.
  push-tag_points :
      (tag : Text) (e : Entry fl) (es : List (Entry fl)) (f : File fl)
      → InRange e
      → points_of tag (push e.tag e.points f) ++ tag_points tag es
        ≡ points_of tag f ++ tag_points tag (e ∷ es)
  unfolding tag_points
  push-tag_points tag e es f h = elim (Bool-cases (text_eq e.tag tag)) [
    | inl same ↦
        rw (push-points e.tag tag e.points f h, same)
          (append_assoc (points_of tag f) e.points (tag_points tag es))
    | inr other ↦ rw (push-points e.tag tag e.points f h, other) refl
  ]

  push_all-points :
      (tag : Text) (es : List (Entry fl)) (f : File fl)
      → All InRange es
      → points_of tag (push_all es f) ≡ points_of tag f ++ tag_points tag es
  unfolding push_all tag_points
  push_all-points tag [] f h = sym (append-nil (points_of tag f))
  push_all-points tag (e ∷ es) f h =
      push_all-points tag es (push e.tag e.points f) h.1 ∙ push-tag_points tag e es f h.0

  push_all-IsFile :
      (es : List (Entry fl)) (f : File fl)
      → All InRange es
      → IsFile f
      → ((tag : Text) → IsAscending (points_of tag f ++ tag_points tag es))
      → IsFile (push_all es f)
  unfolding push_all tag_points
  push_all-IsFile [] f h inv a = inv
  push_all-IsFile (e ∷ es) f h inv a =
      let whole : IsAscending (points_of e.tag f ++ (e.points ++ tag_points e.tag es)) =
        rw (tag_points, Map.same_refl e.tag) at (a e.tag) in
      let here : IsAscending (points_of e.tag f ++ e.points) =
        ascending-prefix 0 _ (tag_points e.tag es)
          (subst IsAscending (sym (append_assoc (points_of e.tag f) e.points _)) whole) in
      push_all-IsFile es (push e.tag e.points f) h.1 (push-IsFile e.tag e.points f h.0 inv here)
        (λ tag. subst IsAscending (sym (push-tag_points tag e es f h.0)) (a tag))

  -- A tag that has points is found.
  get-points_of :
      (tag : Text) (p : ScalarPoint fl) (ps : List (ScalarPoint fl)) (f : File fl)
      → points_of tag f ≡ p ∷ ps
      → Map.get tag f.points ≡ some (p ∷ ps)
  unfolding Map.get_or
  get-points_of tag p ps f h = elim (Option-cases (Map.get tag f.points)) [
    | inl e ↦ absurd (ground (arith, rw (Map.get_or, e) at h))
    | inr (qs, e) ↦ e ∙ ap some (rw (Map.get_or, e) at h)
  ]

  module _ (path : Text) (i : ℕ) where
    Imports-Serves :
        (tag : Text) (f : File fl) (s : Server fl)
        → Imports path i f s
        → StringSet.contains tag f.tags ≡ true
        → Serves tag path f s
    Imports-Serves tag f s h tagged =
        let (g, graph, inner) = h.charted tag tagged in
        (g, i, graph, h.named tag g graph, inner, find_file-Imports path i f s h)

    -- If a server has an imported, well-formed file without smoothers under the path of a log, whose offset
    -- stands behind `before` and is followed by whole records and then something that is no whole
    -- record, and the points that the records hold for each tag continue those of the file in
    -- ascending order, with steps below the largest `uint64_t`, then `ParserData` returns, and a request for
    -- a tag with at least one and at most 20001 points then, with ordered ends and no settings of lines,
    -- is answered with exactly the points of the file and of the records between its ends.
    pub process_single-parser_data :
        (j : Json fl) (scalars : List ℕ → Option (ScalarData fl)) (before : List ℕ)
        (rs : List FileRecord) (tail : List ℕ) (f : File fl) (s : Server fl) (tag : Text)
        (start end_ : ℕ) (p : ScalarPoint fl) (ps : List (ScalarPoint fl))
        → All IsFileRecord rs
        → read_record tail ≡ none
        → Imports path i f s
        → IsFile f
        → All InRange (record_entries path scalars (sized rs))
        → ((other : Text)
            → IsAscending
                (points_of other f ++ tag_points other (record_entries path scalars (sized rs))))
        → points_of tag f ++ tag_points tag (record_entries path scalars (sized rs)) ≡ p ∷ ps
        → length (p ∷ ps) ≤ 20001
        → start ≤ end_
        → let info : LineBasicInfo = record {
          tag = tag;
          file = path;
          start = start;
          end_ = end_;
        } in
          (ok : Bool) × (last : ℕ) × (t : Server fl) × (parser_data path scalars read_record
              (some (before ++ (contents rs ++ tail)))
              (length before)
              (empty_cache fl)
              s
            ≡ returned ok last (empty_cache fl) t)
          × (process_single j (record { info = info; graph_lines = [] }) t
              ≡ some (normal_response j info (between start end_ (p ∷ ps)), t))
    process_single-parser_data j scalars before rs tail f s tag start end_ p ps w stop h inv range
          ascends all few ordered =
        let es = record_entries path scalars (sized rs) in
        let g = push_all es f in
        let (ok, last, t, done, imports, _) =
          parser_data-Imports path i scalars before rs tail f s w stop h in
        let good : IsFile g = push_all-IsFile es f range inv ascends in
        let here : points_of tag g ≡ p ∷ ps = push_all-points tag es f range ∙ all in
        let tagged : StringSet.contains tag g.tags ≡ true =
          (subst (λ l. Describes l (Map.get tag g.range) (StringSet.contains tag g.tags)) here
            (good tag)).1 in
        (
          ok,
          last,
          t,
          done,
          process_single_normal j (record { tag = tag; file = path; start = start; end_ = end_ }) g
              t p ps (Imports-Serves tag g t imports tagged) good (get-points_of tag p ps g here)
              few ordered,
        )
