-- ===== src/Smoother/Loop.antt =====
-- The loop that `Sample` of WindowMedianSmoother.cpp and of WindowTopXSmoother.cpp run over the
-- points that were not smoothed yet, over the smoother's step.
use mathlib.Core.Option
use mathlib.Core.List.{map-append, append-nil, append_assoc}
use blue_workspace_build.Base.{
  ℕ, ◌+◌, ◌%◌, ◌^◌, ◌<◌, max, ◌≡◌, refl, sym, ap, ◌∙◌, inl, inr, Option, none, some, List, [], ◌∷◌,
  ◌++◌, map, arith, leb, if◌then◌else◌, Bool-cases, Option-cases, length, drop, length-drop,
  drop-append, drop-nil,
}
use blue_workspace_build.Base.Floats.{Floats}
use blue_workspace_build.Concept.{ScalarPoint}

module _ {fl : Floats} {S : Type 0} (step : ScalarPoint fl → S → Option (ScalarPoint fl × S)) where
  unfoldable pub sample_loop : List (ScalarPoint fl) → S → Option (List (ScalarPoint fl) × S)
  sample_loop [] s = some ([], s)
  sample_loop (p ∷ ps) s = elim (step p s) [
    | none ↦ none
    | some (q, t) ↦
        Option.map (λ (r : List (ScalarPoint fl) × S). (q ∷ r.0, r.1)) (sample_loop ps t)
  ]

  -- From position `num_accum` of `original`; what is made is appended to `dst`.
  unfoldable pub sample_from :
      (S → ℕ)
      → List (ScalarPoint fl)
      → List (ScalarPoint fl)
      → S
      → Option (List (ScalarPoint fl) × S)
  unfolding sample_loop
  sample_from num_accum original dst s =
      if leb (length original) (num_accum s)
      then some (dst, s)
      else Option.map (λ (r : List (ScalarPoint fl) × S). (dst ++ r.0, r.1))
          (sample_loop (drop (num_accum s) original) s)

-- `numAccum_++` of a `uint32_t`.
abbrev pub count_up : ℕ → ℕ
count_up n = (n + 1) % 2 ^ 32

abbrev pub steps : {fl : Floats} → List (ScalarPoint fl) → List ℕ
steps = map λ p. p.step

-- What a step of a well-formed smoother does.
abbrev pub StepsTo :
    (fl : Floats) {S : Type 0}
    → (S → ℕ)
    → (S → Type 0)
    → ScalarPoint fl
    → S
    → Option (ScalarPoint fl × S)
    → Type 0
StepsTo fl {S} num_accum Good p s o =
    (q : ScalarPoint fl) × (t : S) × (o ≡ some (q, t))
    × (q.step ≡ p.step)
    × Good t
    × (num_accum t ≡ count_up (num_accum s))

module _ {fl : Floats} {S : Type 0} (step : ScalarPoint fl → S → Option (ScalarPoint fl × S))
    (num_accum : S → ℕ) (Good : S → Type 0)
    (step_total : (p : ScalarPoint fl) (s : S)
      → Good s
      → StepsTo fl num_accum Good p s (step p s)) where
  sample_loop_total :
      (ps : List (ScalarPoint fl)) (s : S)
      → Good s
      → num_accum s + length ps < 2 ^ 32
      → (qs : List (ScalarPoint fl)) × (t : S) × (sample_loop step ps s ≡ some (qs, t))
        × (steps qs ≡ steps ps)
        × Good t
        × (num_accum t ≡ num_accum s + length ps)
  unfolding sample_loop
  sample_loop_total [] s g b = ([], s, refl, refl, g, omega arith)
  sample_loop_total (p ∷ ps) s g b =
      let (q, t, made, same, good, count) = step_total p s g in
      let (qs, u, rest, same', good', count') = sample_loop_total ps t good (omega arith) in
      (q ∷ qs, u, ground (arith, made, rest), ground (arith, same, same'), good', omega arith)

  sample_loop-append :
      (xs ys : List (ScalarPoint fl)) (s t u : S) (vs ws : List (ScalarPoint fl))
      → sample_loop step xs s ≡ some (vs, t)
      → sample_loop step ys t ≡ some (ws, u)
      → sample_loop step (xs ++ ys) s ≡ some (vs ++ ws, u)
  unfolding sample_loop
  sample_loop-append [] ys s t u vs ws h k = ground arith
  sample_loop-append (x ∷ xs) ys s t u vs ws h k = elim (Option-cases (step x s)) [
    | inl e ↦ cc (rw (e, sample_loop) at h)
    | inr ((q, s'), e) ↦ elim (Option-cases (sample_loop step xs s')) [
      | inl f ↦ cc (rw (e, f, sample_loop) at h)
      | inr ((vs', t'), f) ↦ ground (arith, e, f, sample_loop-append xs ys s' t' u vs' ws)
    ]
  ]

  -- At most `length original` points are done: `sample_from` runs the loop over the rest.
  sample_from-loop :
      (original dst vs : List (ScalarPoint fl)) (s t : S)
      → sample_loop step (drop (num_accum s) original) s ≡ some (vs, t)
      → sample_from step num_accum original dst s ≡ some (dst ++ vs, t)
  unfolding sample_from sample_loop
  sample_from-loop original dst vs s t h = elim (Bool-cases (leb (length original) (num_accum s))) [
    | inl e ↦
        let h' = rw (drop-nil (num_accum s) original (ground arith)) at h in
        ground (arith, e, h', append-nil dst)
    | inr e ↦ ground (arith, e, h)
  ]

  -- Smoothing the points that have arrived and later the rest gives what one pass gives.
  pub sample_from-append :
      (xs ys dst : List (ScalarPoint fl)) (s : S)
      → Good s
      → num_accum s ≡ 0
      → length xs + length ys < 2 ^ 32
      → (mid : List (ScalarPoint fl)) × (t : S) × (sample_from step num_accum xs dst s
          ≡ some (mid, t))
        × (sample_from step num_accum (xs ++ ys) mid t
            ≡ sample_from step num_accum (xs ++ ys) dst s)
  sample_from-append xs ys dst s g z b =
      let (vs, t, made, _, good, count) = sample_loop_total xs s g (omega arith) in
      let (ws, u, made', _, _, _) = sample_loop_total ys t good (omega arith) in
      let all = sample_loop-append xs ys s t u vs ws made made' in
      let done : num_accum t ≡ length xs = omega arith in
      let rest : drop (num_accum t) (xs ++ ys) ≡ ys = rw done (
        drop-append (length xs) xs ys (omega arith)
        ∙ ap (λ l. l ++ ys) (drop-nil (length xs) xs (omega arith))) in
      (
        dst ++ vs,
        t,
        sample_from-loop xs dst vs s t (rw z made),
        sample_from-loop (xs ++ ys) (dst ++ vs) ws t u (rw rest made')
            ∙ (rw append_assoc (sym (sample_from-loop (xs ++ ys) dst (vs ++ ws) s u (rw z all)))),
      )

  pub sample_from_total :
      (original dst : List (ScalarPoint fl)) (s : S)
      → Good s
      → length original < 2 ^ 32
      → (out : List (ScalarPoint fl)) × (t : S) × (sample_from step num_accum original dst s
          ≡ some (out, t))
        × (steps out ≡ steps dst ++ steps (drop (num_accum s) original))
        × Good t
        × (num_accum t ≡ max (num_accum s) (length original))
  unfolding sample_from
  sample_from_total original dst s g b = elim (Bool-cases (leb (length original) (num_accum s))) [
    | inl e ↦ (
      dst,
      s,
      ground (arith, e),
      rw (drop-nil (num_accum s) original (ground arith)) (sym (append-nil (steps dst))),
      g,
      ground arith,
    )
    | inr e ↦
        let (qs, t, made, same, good, count) =
          sample_loop_total (drop (num_accum s) original) s g
            (ground (arith, length-drop (num_accum s) original)) in
        (
          dst ++ qs,
          t,
          ground (arith, e, made),
          rw map-append (ap (◌++◌ (steps dst)) same),
          good,
          ground (arith, length-drop (num_accum s) original),
        )
  ]
