-- ===== src/Concept/Elements.antt =====
-- What `DataView::GetElements` reads, before and after `GatherElement`.
use blue_workspace_build.Base.{
  ℕ, zero, suc, ◌+◌, ◌-◌, ◌/◌, ◌%◌, ◌^◌, ◌≤◌, ◌<◌, ◌≡◌, refl, ap, some, List, [], ◌∷◌, arith,
  length, get_elem?, take, drop, All, All-mono, Text,
}
use blue_workspace_build.Base.Floats.{Floats}
use blue_workspace_build.Concept.{ScalarPoint}
use blue_workspace_build.Concept.View.{
  get_elements, read_points, DataView, make_view, gather_element,
}
use blue_workspace_build.Concept.Gather.{gathered, strided, gather_element-Gathered, gathered-All}

gathered_one : (lower upper : ℕ) → gathered lower upper 1 ≡ strided lower 1 (upper - lower)
unfolding gathered
gathered_one lower upper =
    let n : (upper - lower) / 1 ≡ upper - lower = omega arith in
    let z : (upper - lower) % 1 ≡ 0 = omega arith in ground (arith, n, z)

module _ {fl : Floats} where
  get_elem?_total :
      (base : List (ScalarPoint fl)) (i : ℕ)
      → i < length base
      → (p : ScalarPoint fl) × (get_elem? base i ≡ some p) × (drop i base ≡ p ∷ drop (suc i) base)
  get_elem?_total [] i h = absurd (omega arith)
  get_elem?_total (p ∷ base) zero h = (p, refl, refl)
  get_elem?_total (p ∷ base) (suc i) h = get_elem?_total base i (omega arith)

  -- Positions inside the vector are read one by one.
  pub read_points_total :
      (base : List (ScalarPoint fl)) (is : List ℕ)
      → All (λ i. i < length base) is
      → (ps : List (ScalarPoint fl)) × (read_points base is ≡ some ps) × (length ps ≡ length is)
  unfolding read_points
  read_points_total base [] h = ([], refl, refl)
  read_points_total base (i ∷ is) h =
      let (p, here, _) = get_elem?_total base i h.0 in
      let (ps, rest, same) = read_points_total base is h.1 in
      (p ∷ ps, ground (arith, here, rest), ap suc same)

  read_points-strided :
      (base : List (ScalarPoint fl)) (count lower : ℕ)
      → lower + count ≤ length base
      → read_points base (strided lower 1 count) ≡ some (take count (drop lower base))
  unfolding read_points strided
  read_points-strided base zero lower h = refl
  read_points-strided base (suc count) lower h =
      let (p, here, split) = get_elem?_total base lower (omega arith) in
      let next : lower + 1 ≡ suc lower = omega arith in
      ground (arith, here, split, next, read_points-strided base count (lower + 1))

  -- On a continuous view that lies in a vector shorter than 2 ^ 63, a selection by a step of at
  -- least 1 ends, and reading the selected points stays inside the vector and gives one point
  -- for each selected position.
  pub get_elements_total :
      (base : List (ScalarPoint fl)) (lower upper : ℕ) (file : Text) (step : ℕ)
      → 0 < step
      → lower ≤ upper
      → upper ≤ length base
      → length base < 2 ^ 63
      → (w : DataView fl) × (ps : List (ScalarPoint fl)) × (gather_element step
            (make_view base lower upper file)
          ≡ some w)
        × (get_elements w ≡ some ps)
        × (length ps ≡ length (gathered lower upper step))
  unfolding get_elements
  get_elements_total base lower upper file step p h k b =
      let (w, made, kind, chosen, same, _, _) =
        gather_element-Gathered base lower upper file step p h (omega arith) in
      let (ps, read, count) =
        read_points_total base (gathered lower upper step)
          (All-mono (λ i b. omega arith) _ (gathered-All lower upper step p h)) in
      (w, ps, made, ground (arith, kind, chosen, same, read), count)

  -- On a continuous view that lies in a vector shorter than 2 ^ 63, a selection with step 1 ends
  -- and reads to the same points as the view itself.
  pub get_elements-gather_element :
      (base : List (ScalarPoint fl)) (lower upper : ℕ) (file : Text)
      → lower ≤ upper
      → upper ≤ length base
      → length base < 2 ^ 63
      → (w : DataView fl) × (gather_element 1 (make_view base lower upper file) ≡ some w)
        × (get_elements w ≡ get_elements (make_view base lower upper file))
  unfolding get_elements make_view
  get_elements-gather_element base lower upper file h k b =
      let (w, made, kind, chosen, same, _, _) =
        gather_element-Gathered base lower upper file 1 (omega arith) h (omega arith) in
      (
        w,
        made,
        ground (
          arith,
          kind,
          chosen,
          same,
          gathered_one lower upper,
          read_points-strided base (upper - lower) lower,
        ),
      )
