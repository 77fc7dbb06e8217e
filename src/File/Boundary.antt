-- ===== src/File/Boundary.antt =====
-- What the binary searches of `File::GetBoundary` cut out of ascending points.
use blue_workspace_build.Base.{
  ℕ, suc, ◌-◌, ◌≤◌, ◌<◌, min, max, ◌≡◌, refl, ◌⊎◌, inl, inr, ◌&&◌, Option, none, some, List, [],
  ◌∷◌, ◌++◌, arith, ltb, leb, if◌then◌else◌, Bool-cases, length, take, drop, last_or, All, All-mono,
}
use blue_workspace_build.Base.Floats.{Floats}
use blue_workspace_build.Concept.{ScalarPoint}
use blue_workspace_build.Concept.View.{DataView, get_elements}
use blue_workspace_build.Line.Merge.{AscendsFrom}
use blue_workspace_build.File.{lower_bound, upper_bound}

module _ {fl : Floats} where
  -- The points whose steps lie between `left` and `right`, both ends included.
  unfoldable pub between : ℕ → ℕ → List (ScalarPoint fl) → List (ScalarPoint fl)
  between left right [] = []
  between left right (p ∷ ps) =
      if leb left p.step && leb p.step right
      then p ∷ between left right ps
      else between left right ps

  above :
      (low left right : ℕ) (ps : List (ScalarPoint fl))
      → AscendsFrom low ps
      → right < low
      → between left right ps ≡ []
  unfolding between
  above low left right [] a h = refl
  above low left right (p ∷ ps) a h = ground (arith, above (suc p.step) left right ps)

  from_start :
      (low left : ℕ) (ps : List (ScalarPoint fl))
      → AscendsFrom low ps
      → left ≤ low
      → lower_bound left ps ≡ 0
  unfolding lower_bound
  from_start low left [] a h = refl
  from_start low left (p ∷ ps) a h = ground arith

  -- On ascending points, with the ends in order, the search cuts out exactly the points between.
  pub bounds_between :
      (low left right : ℕ) (ps : List (ScalarPoint fl))
      → AscendsFrom low ps
      → left ≤ right
      → (lower_bound left ps ≤ upper_bound right ps)
        × (upper_bound right ps ≤ length ps)
        × (take (upper_bound right ps - lower_bound left ps) (drop (lower_bound left ps) ps)
            ≡ between left right ps)
  unfolding lower_bound upper_bound between
  bounds_between low left right [] a h = (omega arith, omega arith, refl)
  bounds_between low left right (p ∷ ps) a h =
      let (x, y, z) = bounds_between (suc p.step) left right ps a.1 h in
      elim (Bool-cases (ltb p.step left)) [
        | inl e ↦
            let m : suc (upper_bound right ps) - suc (lower_bound left ps)
                ≡ upper_bound right ps - lower_bound left ps =
              omega arith in
            (ground (arith, x), ground (arith, y), ground (arith, z, m))
        | inr e ↦ elim (Bool-cases (ltb right p.step)) [
          | inl f ↦
              (ground arith, ground arith, ground (arith, above (suc p.step) left right ps a.1))
          | inr f ↦
              let start = from_start (suc p.step) left ps a.1 (ground arith) in
              let m : suc (upper_bound right ps) - 0 ≡ suc (upper_bound right ps) = omega arith in
              let n : upper_bound right ps - 0 ≡ upper_bound right ps = omega arith in
              let z' = rw (start, n) at z in
              (ground arith, ground (arith, y), ground (arith, m, z'))
        ]
      ]

  -- All steps lie between the first and the last.
  pub ends :
      (low : ℕ) (p : ScalarPoint fl) (ps : List (ScalarPoint fl))
      → AscendsFrom low (p ∷ ps)
      → All (λ q. (p.step ≤ q.step) × (q.step ≤ (last_or p ps).step)) (p ∷ ps)
  ends low p [] a = ((omega arith, omega arith), tt)
  ends low p (q ∷ ps) a =
      let rest = ends (suc p.step) q ps a.1 in
      ((omega arith, omega arith), All-mono (λ r h. omega arith) (q ∷ ps) rest)

  pub clip :
      (first last left right : ℕ) (ps : List (ScalarPoint fl))
      → All (λ q. (first ≤ q.step) × (q.step ≤ last)) ps
      → between (max left first) (min right last) ps ≡ between left right ps
  unfolding between
  clip first last left right [] h = refl
  clip first last left right (p ∷ ps) h = ground (arith, clip first last left right ps h.1)

  pub outside :
      (first last left right : ℕ) (ps : List (ScalarPoint fl))
      → All (λ q. (first ≤ q.step) × (q.step ≤ last)) ps
      → (last < left) ⊎ (right < first)
      → between left right ps ≡ []
  unfolding between
  outside first last left right [] h k = refl
  outside first last left right (p ∷ ps) h k =
      ground (arith, outside first last left right ps h.1 k)

  -- The elements of the views, one view after the other.
  unfoldable pub read_views : List (DataView fl) → Option (List (ScalarPoint fl))
  read_views [] = some []
  read_views (v ∷ vs) = elim (get_elements v) [
    | none ↦ none
    | some ps ↦ elim (read_views vs) [ none ↦ none | some qs ↦ some (ps ++ qs) ]
  ]
