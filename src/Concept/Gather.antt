-- ===== src/Concept/Gather.antt =====
-- What `DataView::GatherElement` selects from a continuous view.
use blue_workspace_build.Base.{
  ℕ, zero, suc, ◌+◌, ◌-◌, ◌*◌, ◌/◌, ◌%◌, ◌^◌, ◌≤◌, ◌<◌, ◌≡◌, refl, ap, ◌≢◌, inl, inr, false, Option,
  some, List, [], ◌∷◌, ◌++◌, arith, ltb, eqb, if◌then◌else◌, Bool-cases, length, last_or,
  length-append, last_or-append, All, All-append, Text,
}
use blue_workspace_build.Base.Floats.{Floats}
use blue_workspace_build.Concept.{ScalarPoint}
use blue_workspace_build.Concept.View.{
  DataView, discrete, gather_loop, gather_element, make_view, close_view, distance, distance-eq,
}

-- The positions `index`, `index + step`, … (`count` of them).
unfoldable pub strided : ℕ → ℕ → ℕ → List ℕ
strided index step zero = []
strided index step (suc count) = index ∷ strided (index + step) step count

loop-exact :
    (q fuel index step upper remain : ℕ)
    → 0 < step
    → index + q * step ≡ upper
    → remain ≡ q * step + 1
    → q < fuel
    → gather_loop fuel upper step index remain ≡ some (strided index step q, upper)
unfolding gather_loop strided
loop-exact q zero index step upper remain p e h f = absurd (omega arith)
loop-exact zero (suc fuel) index step upper remain p e h f = ground arith
loop-exact (suc q) (suc fuel) index step upper remain p e h f =
    ground (arith, loop-exact q fuel (index + step) step upper (remain - step))

loop-rest :
    (q fuel index step upper remain r : ℕ)
    → 0 < r
    → r < step
    → index + q * step + r ≡ upper
    → remain ≡ q * step + r + 1
    → suc q < fuel
    → (last : ℕ) × (last ≢ upper)
      × (gather_loop fuel upper step index remain ≡ some (strided index step (suc q), last))
unfolding gather_loop strided
loop-rest q zero index step upper remain r p s e h f = absurd (omega arith)
loop-rest zero (suc zero) index step upper remain r p s e h f = absurd (omega arith)
loop-rest zero (suc (suc fuel)) index step upper remain r p s e h f =
    elim (Bool-cases (ltb remain step)) [
      | inl short ↦ (index, omega arith, ground arith)
      | inr even ↦ (index + step, ground arith, ground arith)
    ]
loop-rest (suc q) (suc fuel) index step upper remain r p s e h f =
    let (last, ne, ih) =
      loop-rest q fuel (index + step) step upper (remain - step) r p s (grind arith) (grind arith)
        (omega arith) in
    (last, ne, ground (arith, ih))

-- Every `step`-th position of [lower, upper), and the last one where `step` does not divide the
-- number of positions.
unfoldable pub gathered : ℕ → ℕ → ℕ → List ℕ
unfolding strided
gathered lower upper step =
    let n = upper - lower in
    if eqb (n % step) 0
    then strided lower step (n / step)
    else strided lower step (suc (n / step)) ++ (upper - 1) ∷ []

module _ {fl : Floats} (base : List (ScalarPoint fl)) (lower upper : ℕ) (file : Text)
    (step : ℕ) where
  abbrev pub Gathered : Option (DataView fl) → Type 0
  Gathered o =
      (w : DataView fl) × (o ≡ some w)
      × (w.view_type ≡ discrete)
      × (w.points ≡ gathered lower upper step)
      × (w.base ≡ base)
      × (w.file ≡ file)
      × (w.lower ≡ lower)

  closed : List ℕ × ℕ → DataView fl
  closed = close_view (make_view base lower upper file)

  exact_case :
      0 < step
      → lower ≤ upper
      → upper < 2 ^ 63
      → (upper - lower) % step ≡ 0
      → Gathered (gather_element step (make_view base lower upper file))
  unfolding gather_element make_view close_view gathered closed
  exact_case p h b e =
      let size : (distance lower upper + 1) % 2 ^ 64 ≡ upper - lower + 1 =
        omega (arith, distance-eq lower upper h b) in
      let run =
        loop-exact ((upper - lower) / step) (suc (upper - lower + 1)) lower step upper
          (upper - lower + 1) p (grind arith) (grind arith) (grind arith) in
      (
        closed (strided lower step ((upper - lower) / step), upper),
        ground (arith, run, size),
        ground arith,
        ground arith,
        ground arith,
        ground arith,
        ground arith,
      )

  rest_case :
      0 < step
      → lower ≤ upper
      → upper < 2 ^ 63
      → 0 < (upper - lower) % step
      → Gathered (gather_element step (make_view base lower upper file))
  unfolding gather_element make_view close_view gathered closed
  rest_case p h b e =
      let size : (distance lower upper + 1) % 2 ^ 64 ≡ upper - lower + 1 =
        omega (arith, distance-eq lower upper h b) in
      let (last, ne, run) =
        loop-rest ((upper - lower) / step) (suc (upper - lower + 1)) lower step upper
          (upper - lower + 1) ((upper - lower) % step) e (grind arith) (grind arith) (grind arith)
          (grind arith) in
      (
        closed (strided lower step (suc ((upper - lower) / step)), last),
        ground (arith, run, size),
        ground arith,
        ground arith,
        ground arith,
        ground arith,
        ground arith,
      )

  -- On a continuous view with `lower ≤ upper < 2 ^ 63` and a step of at least 1 the loop ends
  -- within its fuel, and the view becomes the discrete view of exactly the positions `gathered`,
  -- over the same vector and file.
  pub gather_element-Gathered :
      0 < step
      → lower ≤ upper
      → upper < 2 ^ 63
      → Gathered (gather_element step (make_view base lower upper file))
  gather_element-Gathered p h b = elim (Bool-cases (eqb ((upper - lower) % step) 0)) [
    | inl e ↦ exact_case p h b (ground arith)
    | inr e ↦ rest_case p h b (ground arith)
  ]

strided-All :
    (lower upper : ℕ) (count index step : ℕ)
    → 0 < step
    → lower ≤ index
    → index + count * step < upper + step
    → All (λ i. (lower ≤ i) × (i < upper)) (strided index step count)
unfolding strided
strided-All lower upper zero index step p h k = tt
strided-All lower upper (suc count) index step p h k = (
  (omega arith, grind arith),
  strided-All lower upper count (index + step) step p (omega arith) (grind arith),
)

-- Every position that a step of at least 1 selects lies in [lower, upper).
pub gathered-All :
    (lower upper step : ℕ)
    → 0 < step
    → lower ≤ upper
    → All (λ i. (lower ≤ i) × (i < upper)) (gathered lower upper step)
unfolding gathered
gathered-All lower upper step p h = elim (Bool-cases (eqb ((upper - lower) % step) 0)) [
  | inl e ↦
      rw e
        (strided-All lower upper ((upper - lower) / step) lower step p (omega arith) (grind arith))
  | inr e ↦ rw e (
      All-append (λ i. (lower ≤ i) × (i < upper))
        (strided lower step (suc ((upper - lower) / step))) ((upper - 1) ∷ [])
        (strided-All lower upper (suc ((upper - lower) / step)) lower step p (omega arith)
          (last_stride e))
        ((grind arith, grind arith), tt))
]
  where
    nonzero : eqb ((upper - lower) % step) 0 ≡ false → 0 < (upper - lower) % step
    nonzero e = ground arith

    last_stride :
        eqb ((upper - lower) % step) 0 ≡ false
        → lower + suc ((upper - lower) / step) * step < upper + step
    last_stride e = grind (arith, nonzero e)

length-strided : (count index step : ℕ) → length (strided index step count) ≡ count
unfolding strided
length-strided zero index step = refl
length-strided (suc count) index step = ap suc (length-strided count (index + step) step)

-- At most n / step + 2 positions are selected from n.
pub length-gathered :
    (lower upper step : ℕ) → length (gathered lower upper step) ≤ (upper - lower) / step + 2
unfolding gathered
length-gathered lower upper step = ground (
  arith,
  length-strided ((upper - lower) / step) lower step,
  length-strided (suc ((upper - lower) / step)) lower step,
  length-append (strided lower step (suc ((upper - lower) / step))) ((upper - 1) ∷ []),
)

last_or-strided :
    (d count index step : ℕ) → last_or d (strided index step (suc count)) ≡ index + count * step
unfolding strided
last_or-strided d zero index step = omega arith
last_or-strided d (suc count) index step =
    omega (arith, last_or-strided index count (index + step) step)

-- Of a view that is not empty, with a step of at least 1, the last position is selected where
-- the step does not divide the number of positions; else the last selected one stands a whole
-- step before the end.
pub last_or-gathered :
    (d lower upper step : ℕ)
    → 0 < step
    → lower < upper
    → last_or d (gathered lower upper step)
      ≡ (if eqb ((upper - lower) % step) 0 then upper - step else upper - 1)
unfolding gathered
last_or-gathered d lower upper step p h = elim (Bool-cases (eqb ((upper - lower) % step) 0)) [
  | inl e ↦ rw e (divides (ground arith))
  | inr e ↦
      rw e (last_or-append d (upper - 1) (strided lower step (suc ((upper - lower) / step))) [])
]
  where
    divides :
        (upper - lower) % step ≡ 0
        → last_or d (strided lower step ((upper - lower) / step)) ≡ upper - step
    divides e =
        let some_steps : (upper - lower) / step ≡ suc ((upper - lower) / step - 1) = grind arith in
        rw some_steps (grind (arith, last_or-strided d ((upper - lower) / step - 1) lower step))
