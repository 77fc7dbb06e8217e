-- ===== src/Line/Merge.antt =====
-- What `GraphLine::AddLineData` and `GetLineData` leave in a line.
use blue_workspace_build.Base.{
  ℕ, suc, ◌≤◌, ◌≡◌, refl, ◌∙◌, inl, inr, false, some, List, [], ◌∷◌, ◌++◌, arith, ltb, Bool-cases,
  All,
}
use blue_workspace_build.Base.Floats.{Floats}
use blue_workspace_build.Concept.{ScalarPoint}
use blue_workspace_build.Concept.View.{DataView, get_elements}
use blue_workspace_build.Line.{GraphLine, keep_below, add_line_data, get_line_data, add_views}

module _ {fl : Floats} where
  -- The steps ascend strictly, and stay above or at `low`.
  abbrev pub AscendsFrom : ℕ → List (ScalarPoint fl) → Type 0
  AscendsFrom low [] = Unit {0}
  AscendsFrom low (p ∷ ps) = (low ≤ p.step) × AscendsFrom (suc p.step) ps

  abbrev pub IsAscending : List (ScalarPoint fl) → Type 0
  IsAscending ps = AscendsFrom 0 ps

  weaken : (a b : ℕ) (ps : List (ScalarPoint fl)) → a ≤ b → AscendsFrom b ps → AscendsFrom a ps
  weaken a b [] l k = tt
  weaken a b (p ∷ ps) l k = (omega arith, k.1)

  keep_below-AscendsFrom :
      (low left : ℕ) (old new : List (ScalarPoint fl))
      → AscendsFrom low old
      → AscendsFrom left new
      → low ≤ left
      → AscendsFrom low (keep_below left old ++ new)
  unfolding keep_below
  keep_below-AscendsFrom low left [] new h k l = weaken low left new l k
  keep_below-AscendsFrom low left (p ∷ old) new h k l = elim (Bool-cases (ltb p.step left)) [
    | inl e ↦ rw e (h.0, keep_below-AscendsFrom (suc p.step) left old new h.1 k (ground arith))
    | inr e ↦ rw e (weaken low left new l k)
  ]

  -- Adding points in ascending order to a line whose data ascends keeps the data in ascending
  -- order.
  pub add_line_data-IsAscending :
      (points : List (ScalarPoint fl)) (line : GraphLine fl)
      → IsAscending points
      → IsAscending line.src_data
      → IsAscending (add_line_data points line).src_data
  unfolding add_line_data
  add_line_data-IsAscending [] line h k = ground arith
  add_line_data-IsAscending (p ∷ ps) line h k = elim (Bool-cases line.view) [
    | inl e ↦ rw e k
    | inr e ↦
        rw e (
          keep_below-AscendsFrom 0 p.step line.src_data (p ∷ ps) k (omega arith, h.1) (omega arith))
  ]

  -- Each view reads to points in ascending order.
  abbrev pub AllAscending : List (DataView fl) → Type 0
  AllAscending = All λ v. (ps : List (ScalarPoint fl)) × (get_elements v ≡ some ps) × IsAscending ps

  add_line_data-view :
      (points : List (ScalarPoint fl)) (line : GraphLine fl)
      → (add_line_data points line).view ≡ line.view
  unfolding add_line_data
  add_line_data-view [] line = ground arith
  add_line_data-view (p ∷ ps) line = ground arith

  add_views-IsAscending :
      (vs : List (DataView fl)) (line : GraphLine fl)
      → AllAscending vs
      → IsAscending line.src_data
      → (out : GraphLine fl) × (add_views vs line ≡ some out)
        × IsAscending out.src_data
        × (out.view ≡ line.view)
  unfolding add_views
  add_views-IsAscending [] line h k = (line, refl, k, refl)
  add_views-IsAscending (v ∷ vs) line h k =
      let (ps, read, up) = h.0 in
      let (out, done, up', same) =
        add_views-IsAscending vs (add_line_data ps line) h.1
          (add_line_data-IsAscending ps line up k) in
      (out, ground (arith, read, done), up', same ∙ add_line_data-view ps line)

  -- However the ranges of its views overlap, a line whose data ascends and whose views read to
  -- ascending points yields its data in strictly ascending order of the steps, and yields no
  -- point when it is asked again.
  pub get_line_data-IsAscending :
      (line : GraphLine fl)
      → AllAscending line.data_view
      → IsAscending line.src_data
      → (ps : List (ScalarPoint fl)) × (after : GraphLine fl) × (get_line_data line
          ≡ some (ps, after))
        × IsAscending ps
        × (get_line_data after ≡ some ([], after))
  unfolding get_line_data
  get_line_data-IsAscending line h k = elim (Bool-cases line.view) [
    | inl e ↦
        let (out, done, up, same) =
          add_views-IsAscending line.data_view (record line { view = false }) h k in
        (
          out.src_data,
          record out { src_data = [] },
          ground (arith, e, done),
          up,
          ground (arith, same),
        )
    | inr e ↦
        (line.src_data, record line { src_data = [] }, ground (arith, e), k, ground (arith, e))
  ]
