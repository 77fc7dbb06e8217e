-- ===== src/Line/Sample.antt =====
-- SampleLineOp of Scalar/server/src/GraphLine/LineOp/SampleLineOp.h.
use mathlib.Core.Option
use blue_workspace_build.Base.{
  ℕ, ◌+◌, ◌-◌, ◌*◌, ◌/◌, ◌%◌, ◌^◌, ◌≤◌, ◌<◌, ◌≡◌, refl, ap, ◌∙◌, inl, inr, true, Option, none, some,
  List, [], ◌∷◌, arith, eqb, if◌then◌else◌, Bool-cases, length, is_empty, All,
}
use blue_workspace_build.Base.Floats.{Floats}
use blue_workspace_build.Concept.View.{
  DataView, gather_element, make_view, view_length, distance, distance-eq,
}
use blue_workspace_build.Concept.Gather.{gathered, gather_element-Gathered, length-gathered}
use blue_workspace_build.Line.{GraphLine}
use native.Mathlib.Decide.{dec_le}
use native.Mathlib.Nat.{mul-le-mul_left}

-- maxDataCount.
abbrev pub max_data_count : ℕ
max_data_count = 10001

module _ {fl : Floats} where
  -- The sum of `std::distance(lower, upper)` over the views, as a `uint64_t`.
  unfoldable pub total_distance : ℕ → List (DataView fl) → ℕ
  total_distance count [] = count
  total_distance count (v ∷ vs) = total_distance ((count + distance v.lower v.upper) % 2 ^ 64) vs

  -- `GatherElement(step)` on each view.
  unfoldable pub gather_views : ℕ → List (DataView fl) → Option (List (DataView fl))
  gather_views step [] = some []
  gather_views step (v ∷ vs) = elim (gather_element step v) [
    | none ↦ none
    | some w ↦ Option.map (◌∷◌ w) (gather_views step vs)
  ]

-- The step that `Process` computes; it is at least 1.
unfoldable pub sample_step : ℕ → ℕ
sample_step total = if eqb (total / max_data_count) 0 then 1 else total / max_data_count

stretch :
    (lower upper step : ℕ) → step * length (gathered lower upper step) ≤ (upper - lower) + 2 * step
stretch lower upper step = grind (arith, length-gathered lower upper step)

cancel : (s c n l : ℕ) → n < 20002 * s → s * c ≤ n + 2 * s * l → c ≤ 20001 + 2 * l
cancel s c n l p q = elim (dec_le c (20001 + 2 * l)) [
  | yes h ↦ h
  | no h ↦
      let more : 20002 + 2 * l ≤ c = omega arith in
      let scaled : s * (20002 + 2 * l) ≤ s * c = mul-le-mul_left s more in absurd (omega arith)
]

-- The step is at least 1, and more than a 20002nd part of the total.
sample_step_lem : (total : ℕ) → (0 < sample_step total) × (total < 20002 * sample_step total)
unfolding sample_step
sample_step_lem total = ground arith

module _ {fl : Floats} where
  -- Process.
  unfoldable pub sample_process : GraphLine fl → Option (GraphLine fl)
  unfolding total_distance sample_step gather_views
  sample_process line =
      if is_empty line.data_view
      then some line
      else Option.map (λ vs. record line { data_view = vs })
          (gather_views (sample_step (total_distance 0 line.data_view)) line.data_view)

  -- Views as `File::GetData` makes them: continuous, with ordered ends.
  abbrev pub IsFresh : DataView fl → Type 0
  IsFresh v =
      (v ≡ make_view v.base v.lower v.upper v.file) × (v.lower ≤ v.upper) × (v.upper < 2 ^ 63)

  -- The number of positions in the views, and of the points that they hold.
  unfoldable pub span : List (DataView fl) → ℕ
  span [] = 0
  span (v ∷ vs) = (v.upper - v.lower) + span vs

  unfoldable pub point_count : List (DataView fl) → ℕ
  point_count [] = 0
  point_count (v ∷ vs) = view_length v + point_count vs

  total_distance-span :
      (vs : List (DataView fl)) (count : ℕ)
      → All IsFresh vs
      → count + span vs < 2 ^ 64
      → total_distance count vs ≡ count + span vs
  unfolding total_distance span
  total_distance-span [] count f h = omega arith
  total_distance-span (v ∷ vs) count f h =
      let d = v.upper - v.lower in
      let e : (count + distance v.lower v.upper) % 2 ^ 64 ≡ count + d =
        omega (arith, distance-eq v.lower v.upper f.0.1 f.0.2) in
      rw e (omega (arith, total_distance-span vs (count + d) f.1))

  gather_views_count :
      (step : ℕ) (vs : List (DataView fl))
      → 0 < step
      → All IsFresh vs
      → (ws : List (DataView fl)) × (gather_views step vs ≡ some ws)
        × (step * point_count ws ≤ span vs + 2 * step * length vs)
  unfolding gather_views span point_count view_length
  gather_views_count step [] p h = ([], refl, omega arith)
  gather_views_count step (v ∷ vs) p h =
      let (w, made, kind, chosen, _, _, _) =
        gather_element-Gathered v.base v.lower v.upper v.file step p h.0.1 h.0.2 in
      let (ws, rest, count) = gather_views_count step vs p h.1 in
      let here : gather_element step v ≡ some w = ap (gather_element step) h.0.0 ∙ made in
      let size : view_length w ≡ length (gathered v.lower v.upper step) =
        ground (arith, kind, chosen) in
      (w ∷ ws, ground (arith, here, rest), grind (arith, size, stretch v.lower v.upper step, count))

  no_points : (vs : List (DataView fl)) → is_empty vs ≡ true → point_count vs ≡ 0
  unfolding point_count
  no_points [] e = refl
  no_points (v ∷ vs) e = cc

  -- Where the views are continuous with ordered ends and cover fewer than 2 ^ 64 points, every
  -- view is sampled, and together the samples hold at most 20001 points and two more for each
  -- view.
  pub sample_process_bound :
      (line : GraphLine fl)
      → All IsFresh line.data_view
      → span line.data_view < 2 ^ 64
      → (out : GraphLine fl) × (sample_process line ≡ some out)
        × (point_count out.data_view ≤ 20001 + 2 * length line.data_view)
  unfolding sample_process
  sample_process_bound line h k = elim (Bool-cases (is_empty line.data_view)) [
    | inl e ↦ (line, rw e, rw (no_points line.data_view e) (omega arith))
    | inr e ↦
        let vs = line.data_view in
        let total : total_distance 0 vs ≡ span vs = omega (arith, total_distance-span vs 0 h) in
        let (p, q) = sample_step_lem (span vs) in
        let (ws, sampled, count) = gather_views_count (sample_step (span vs)) vs p h in
        (
          record line { data_view = ws },
          rw (e, total, sampled),
          cancel (sample_step (span vs)) _ _ _ q count,
        )
  ]
