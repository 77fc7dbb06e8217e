-- ===== src/File/Invariant/Query.antt =====
-- `File::GetData` in the normal mode against its specification.
use mathlib.Core.List.{append-nil}
use blue_workspace_build.Base.{
  ℕ, ◌-◌, ◌≤◌, min, max, ◌≡◌, refl, ap, ◌∙◌, ◌⊎◌, inl, inr, true, ◌||◌, Option, some, List, [], ◌∷◌,
  arith, ltb, Bool-cases, length, take, drop, last_or, Text,
}
use blue_workspace_build.Base.Floats.{Floats}
use blue_workspace_build.Base.Map
use blue_workspace_build.Base.Map.{text_key}
use blue_workspace_build.Base.StringSet
use blue_workspace_build.Concept.{ScalarPoint, DataMode}
use blue_workspace_build.Concept.View.{DataView, get_elements, make_view}
use blue_workspace_build.Line.Merge.{IsAscending}
use blue_workspace_build.File.{File, get_data, view_between, get_boundary, lower_bound, upper_bound}
use blue_workspace_build.File.Boundary.{between, read_views, bounds_between, ends, clip, outside}
use blue_workspace_build.File.Invariant.{IsFile}

module _ {fl : Floats} where
  view_between-read :
      (path : Text) (p : ScalarPoint fl) (ps : List (ScalarPoint fl)) (left right : ℕ)
      → IsAscending (p ∷ ps)
      → left ≤ right
      → read_views (view_between path (p ∷ ps) left right) ≡ some (between left right (p ∷ ps))
  unfolding view_between read_views get_elements make_view get_boundary
  view_between-read path p ps left right a h =
      let (x, y, z) = bounds_between 0 left right (p ∷ ps) a h in
      ground (arith, x, y, z, append-nil (between left right (p ∷ ps)))

  -- In a well-formed file, a request in normal mode with ordered ends for a tag with points is
  -- answered, and the views of the answer hold exactly the points of the tag whose steps lie
  -- between the ends, both included.
  pub get_data-between :
      (f : File fl) (tag : Text) (p : ScalarPoint fl) (ps : List (ScalarPoint fl)) (left right : ℕ)
      → IsFile f
      → Map.get tag f.points ≡ some (p ∷ ps)
      → left ≤ right
      → (vs : List (DataView fl)) × (get_data tag left right DataMode.normal f ≡ some vs)
        × (read_views vs ≡ some (between left right (p ∷ ps)))
  unfolding get_data read_views
  get_data-between f tag p ps left right inv here h =
      let last = (last_or p ps).step in
      let (range, tagged, a) = holds in
      let bounds = ends 0 p ps a in
      elim (Bool-cases (ltb last left || ltb right p.step)) [
        | inl e ↦
            let empty = outside p.step last left right (p ∷ ps) bounds (ground arith) in
            ([], ground (arith, range, tagged, e), rw empty refl)
        | inr e ↦
            let l = max left p.step in
            let r = min right last in
            (
              view_between f.file_path (p ∷ ps) l r,
              ground (arith, range, tagged, e, here),
              view_between-read f.file_path p ps l r a (ground arith)
                  ∙ ap some (clip p.step last left right (p ∷ ps) bounds),
            )
      ]
    where
      holds :
          (Map.get tag f.range ≡ some (p.step, (last_or p ps).step))
          × (StringSet.contains tag f.tags ≡ true)
          × IsAscending (p ∷ ps)
      holds = rw (Map.get_or-get [] (p ∷ ps) tag f.points here) at (inv tag)

  -- What `GetData` answers: one view that lies in the points, or none where no point is asked for.
  abbrev pub Answers : Text → List (ScalarPoint fl) → ℕ → ℕ → Option (List (DataView fl)) → Type 0
  Answers path points left right o =
      ((lower : ℕ) × (upper : ℕ) × (o ≡ some (make_view points lower upper path ∷ []))
        × (lower ≤ upper)
        × (upper ≤ length points)
        × (take (upper - lower) (drop lower points) ≡ between left right points))
      ⊎ ((o ≡ some []) × (between left right points ≡ []))

  pub get_data-Answers :
      (f : File fl) (tag : Text) (p : ScalarPoint fl) (ps : List (ScalarPoint fl)) (left right : ℕ)
      → IsFile f
      → Map.get tag f.points ≡ some (p ∷ ps)
      → left ≤ right
      → Answers f.file_path (p ∷ ps) left right (get_data tag left right DataMode.normal f)
  unfolding get_data view_between get_boundary
  get_data-Answers f tag p ps left right inv here h =
      let last = (last_or p ps).step in
      let (range, tagged, a) = holds in
      let bounds = ends 0 p ps a in
      elim (Bool-cases (ltb last left || ltb right p.step)) [
        | inl e ↦ inr (
          ground (arith, range, tagged, e),
          outside p.step last left right (p ∷ ps) bounds (ground arith),
        )
        | inr e ↦
            let l = max left p.step in
            let r = min right last in
            let (x, y, z) = bounds_between 0 l r (p ∷ ps) a (ground arith) in
            inl (
              lower_bound l (p ∷ ps),
              upper_bound r (p ∷ ps),
              ground (arith, range, tagged, e, here),
              x,
              y,
              z ∙ clip p.step last left right (p ∷ ps) bounds,
            )
      ]
    where
      holds :
          (Map.get tag f.range ≡ some (p.step, (last_or p ps).step))
          × (StringSet.contains tag f.tags ≡ true)
          × IsAscending (p ∷ ps)
      holds = rw (Map.get_or-get [] (p ∷ ps) tag f.points here) at (inv tag)
