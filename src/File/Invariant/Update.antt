-- ===== src/File/Invariant/Update.antt =====
-- `File::UpdateData` and `File::UpdateSmoothingParam` keep the invariant of a file.
use mathlib.Core.Path.{subst}
use mathlib.Core.Option.{some-injective}
use blue_workspace_build.Base.{
  ℕ, ◌<◌, ◌≡◌, refl, sym, ap, ◌∙◌, inl, inr, Bool, true, false, ◌||◌, Option, none, some, List, [],
  ◌∷◌, ◌++◌, arith, if◌then◌else◌, Option-cases, last_or, last_or-append, Text, text_eq,
}
use blue_workspace_build.Base.Floats.{Floats}
use blue_workspace_build.Base.Map
use blue_workspace_build.Base.Map.{text_key}
use blue_workspace_build.Base.StringSet
use blue_workspace_build.Concept.{ScalarPoint}
use blue_workspace_build.Line.Merge.{IsAscending}
use blue_workspace_build.Smoother.Factory.{Smoother, sample}
use blue_workspace_build.File.{
  File, append_points, update_data, run_smoother, max_u64, joined_range,
}
use blue_workspace_build.File.Invariant.{IsFile, Describes}

module _ {fl : Floats} where
  -- The points of a tag; none if it has no entry.
  abbrev pub points_of : Text → File fl → List (ScalarPoint fl)
  points_of tag f = Map.get_or [] tag f.points

  append-Describes :
      (old : List (ScalarPoint fl)) (p : ScalarPoint fl) (ps : List (ScalarPoint fl))
      → (range : Option (ℕ × ℕ)) (tagged : Bool) → Describes old range tagged
      → IsAscending (old ++ p ∷ ps)
      → Describes (old ++ p ∷ ps) (some (joined_range (p.step, (last_or p ps).step) range)) true
  unfolding joined_range
  append-Describes [] p ps range tagged h a = ground arith
  append-Describes (q ∷ old) p ps range tagged h a =
      (ground (arith, h.0, last_or-append q p old ps), refl, a)

  -- The file after points have been appended to a tag.
  appended : Text → ScalarPoint fl → List (ScalarPoint fl) → File fl → File fl
  appended tag p ps f = record f {
    tags = StringSet.insert tag f.tags;
    range = Map.put tag (joined_range (p.step, (last_or p ps).step) (Map.get tag f.range)) f.range;
    points = Map.put tag (points_of tag f ++ p ∷ ps) f.points;
  }

  append_points-eq :
      (tag : Text) (p : ScalarPoint fl) (ps : List (ScalarPoint fl)) (f : File fl)
      → p.step < max_u64
      → append_points tag (p ∷ ps) f ≡ appended tag p ps f
  unfolding append_points appended
  append_points-eq tag p ps f b = ground arith

  appended-IsFile :
      (tag : Text) (p : ScalarPoint fl) (ps : List (ScalarPoint fl)) (f : File fl)
      → IsFile f
      → IsAscending (points_of tag f ++ p ∷ ps)
      → IsFile (appended tag p ps f)
  unfolding appended
  appended-IsFile tag p ps f inv a other =
      rw (Map.get_or-put, Map.get-put, StringSet.contains-insert) (split (text_eq tag other) refl)
    where
      split :
          (b : Bool)
          → text_eq tag other ≡ b
          → Describes
              (if b then points_of tag f ++ p ∷ ps else points_of other f)
              (if b
                then some (joined_range (p.step, (last_or p ps).step) (Map.get tag f.range))
                else Map.get other f.range)
              (b || StringSet.contains other f.tags)
      split true e = append-Describes (points_of tag f) p ps _ _ (inv tag) a
      split false e = inv other

  pub append_points-IsFile :
      (tag : Text) (p : ScalarPoint fl) (ps : List (ScalarPoint fl)) (f : File fl)
      → p.step < max_u64
      → IsFile f
      → IsAscending (points_of tag f ++ p ∷ ps)
      → IsFile (append_points tag (p ∷ ps) f)
  append_points-IsFile tag p ps f b inv a =
      subst IsFile (sym (append_points-eq tag p ps f b)) (appended-IsFile tag p ps f inv a)

  pub append_points-points :
      (tag other : Text) (p : ScalarPoint fl) (ps : List (ScalarPoint fl)) (f : File fl)
      → p.step < max_u64
      → points_of other (append_points tag (p ∷ ps) f)
        ≡ (if text_eq tag other then points_of tag f ++ p ∷ ps else points_of other f)
  unfolding appended
  append_points-points tag other p ps f b = rw (append_points-eq tag p ps f b, Map.get_or-put) refl

  -- Running a smoother leaves points, ranges and tags alone.
  run_smoother-IsFile :
      (tag : Text) (s : Smoother fl) (f g : File fl)
      → run_smoother tag s f ≡ some g
      → IsFile f
      → IsFile g × (g.points ≡ f.points)
  unfolding run_smoother
  run_smoother-IsFile tag s f g e inv =
      elim (Option-cases (sample (points_of tag f) (Map.get_or [] tag f.smoothed) s)) [
        | inl h ↦ cc (rw (h) at e)
        | inr (r, h) ↦
            subst (λ k. IsFile k × (k.points ≡ f.points)) (some-injective _ _ (rw (h) at e))
              (inv, refl)
      ]

  -- Running the smoother of a tag, if it has one.
  after_append :
      (tag : Text) (f g : File fl) (s : Option (Smoother fl))
      → elim s [ none ↦ some f | some s ↦ run_smoother tag s f ] ≡ some g
      → IsFile f
      → IsFile g × (g.points ≡ f.points)
  after_append tag f g none e inv =
      subst (λ k. IsFile k × (k.points ≡ f.points)) (some-injective _ _ e) (inv, refl)
  after_append tag f g (some s) e inv = run_smoother-IsFile tag s f g e inv

  -- If `UpdateData` ends on a well-formed file, and the new points, at least one and from a step
  -- below the largest `uint64_t` on, continue those of their tag in ascending order, the file is
  -- well-formed again, whether the tag has a smoother or not, and the new points stand behind
  -- the old ones.
  pub update_data-IsFile :
      (tag : Text) (p : ScalarPoint fl) (ps : List (ScalarPoint fl)) (f g : File fl)
      → IsFile f
      → IsAscending (points_of tag f ++ p ∷ ps)
      → p.step < max_u64
      → update_data tag (p ∷ ps) f ≡ some g
      → IsFile g × (points_of tag g ≡ points_of tag f ++ p ∷ ps)
  unfolding update_data
  update_data-IsFile tag p ps f g inv a b e =
      let base = append_points-IsFile tag p ps f b inv a in
      let done = after_append tag (append_points tag (p ∷ ps) f) g _ e base in
      let here : points_of tag (append_points tag (p ∷ ps) f) ≡ points_of tag f ++ p ∷ ps =
        append_points-points tag tag p ps f b ∙ rw (Map.same_refl tag) refl in
      (done.0, ap (Map.get_or [] tag) done.1 ∙ here)
