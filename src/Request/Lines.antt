-- ===== src/Request/Lines.antt =====
-- The operations that `GetLineOps` looks up for the lines that `BuildLine` makes.
use mathlib.Core.Option.{some-injective}
use blue_workspace_build.Request.{op_types}
use blue_workspace_build.Base.{
  suc, ◌<◌, ◌≡◌, refl, sym, ap, ◌∙◌, inl, inr, Bool, true, false, ◌||◌, Option, none, some, List,
  [], ◌∷◌, arith, Bool-cases, Option-cases, length, All,
}
use blue_workspace_build.Base.Map
use blue_workspace_build.Base.Map.{Map}
use blue_workspace_build.Concept.{DataMode}
use blue_workspace_build.Line.{LineType, line_type_key, build_line_types}
use blue_workspace_build.Request.{
  LineOp, OpMap, LineBasicInfo, normal_op, smoothing_op, token_op, sample_op, clone, clone_all,
  get_line_ops, build_line, with_defaults, change_mode, set_data_mode, Floats,
}

or_true : (b : Bool) → (b || true) ≡ true
or_true true = refl
or_true false = refl

module _ {fl : Floats} where
  -- A pointer that can be cloned: it has its parameter.
  abbrev pub CanClone : Option (LineOp fl) → Type 0
  CanClone o = (op : LineOp fl) × (copy : LineOp fl) × (o ≡ some op) × (clone op ≡ some copy)

  -- The operations that are there can be cloned.
  abbrev pub AllClone : OpMap fl → Type 0
  AllClone ops = (type : LineType) → Map.has type ops ≡ true → CanClone (Map.get type ops)

  clone_all_total :
      (types : List LineType) (ops : OpMap fl)
      → All (λ type. CanClone (Map.get type ops)) types
      → (copies : List (LineOp fl)) × (clone_all types ops ≡ some copies)
        × (length copies ≡ length types)
  unfolding clone_all
  clone_all_total [] ops h = ([], refl, refl)
  clone_all_total (type ∷ types) ops h =
      let (op, copy, found, cloned) = h.0 in
      let (copies, rest, same) = clone_all_total types ops h.1 in
      (copy ∷ copies, rw (clone_all, found, cloned, rest) refl, ap suc same)

  has-emplace :
      (i j : LineType) (op : LineOp fl) (ops : OpMap fl)
      → Map.has j (Map.emplace i op ops) ≡ (line_type_key.same i j || Map.has j ops)
  unfolding Map.has
  has-emplace i j op ops = ground (arith, Map.get-emplace i j op ops)

  CanClone-get_or :
      (j : LineType) (op copy : LineOp fl) (ops : OpMap fl)
      → AllClone ops
      → clone op ≡ some copy
      → CanClone (some (Map.get_or op j ops))
  unfolding Map.get_or Map.has
  CanClone-get_or j op copy ops h c = elim (Option-cases (Map.get j ops)) [
    | inl e ↦ rw (Map.get_or, e) (op, copy, refl, c)
    | inr (o, e) ↦
        let (p, q, found, cloned) = h j (rw (Map.has, e) refl) in
        rw (Map.get_or, found) (p, q, refl, cloned)
  ]

  emplace-AllClone :
      (i : LineType) (op copy : LineOp fl) (ops : OpMap fl)
      → AllClone ops
      → clone op ≡ some copy
      → AllClone (Map.emplace i op ops)
  emplace-AllClone i op copy ops h c j there = elim (Bool-cases (line_type_key.same i j)) [
    | inl e ↦ rw (Map.get-emplace, e) (CanClone-get_or j op copy ops h c)
    | inr e ↦ rw (Map.get-emplace, e) (h j (ground (arith, e, there, has-emplace i j op ops)))
  ]

  set_data_mode-clone :
      (mode : DataMode) (op copy : LineOp fl)
      → clone op ≡ some copy
      → CanClone (some (set_data_mode mode op))
  unfolding set_data_mode clone
  set_data_mode-clone mode (normal_op info old) copy e =
      (normal_op info mode, normal_op info mode, refl, refl)
  set_data_mode-clone mode (smoothing_op info old none) copy e = cc
  set_data_mode-clone mode (smoothing_op info old (some param)) copy e =
      (smoothing_op info mode (some param), smoothing_op info mode (some param), refl, refl)
  set_data_mode-clone mode (token_op info old) copy e =
      (token_op info mode, token_op info DataMode.token, refl, refl)
  set_data_mode-clone mode (sample_op info old) copy e =
      (sample_op info mode, sample_op info DataMode.sample, refl, refl)

  has-change_mode :
      (i j : LineType) (mode : DataMode) (ops : OpMap fl)
      → Map.has j (change_mode i mode ops) ≡ Map.has j ops
  unfolding change_mode Map.has
  has-change_mode i j mode ops = elim (Option-cases (Map.get i ops)) [
    | inl e ↦ rw (change_mode, e) refl
    | inr (op, e) ↦
        ground (arith, e, Map.get-put i j (set_data_mode mode op) ops, line_type_key.same_iff i j)
  ]

  cloned : (op : LineOp fl) → CanClone (some op) → (copy : LineOp fl) × (clone op ≡ some copy)
  cloned op (p, copy, e, c) = (copy, ap clone (some-injective _ _ e) ∙ c)

  change_mode-AllClone :
      (i : LineType) (mode : DataMode) (ops : OpMap fl)
      → AllClone ops
      → AllClone (change_mode i mode ops)
  unfolding change_mode Map.has
  change_mode-AllClone i mode ops h j there = elim (Option-cases (Map.get i ops)) [
    | inl e ↦ rw (change_mode, e) (h j old)
    | inr (op, e) ↦
        let (copy, c) = cloned op (rw e at (h i (rw (Map.has, e) refl))) in
        rw (change_mode, e, Map.get-put)
          (elim (Bool-cases (line_type_key.same i j)) [
            | inl f ↦ rw f (set_data_mode-clone mode op copy c)
            | inr f ↦ rw f (h j old)
          ])
  ]
    where
      old : Map.has j ops ≡ true
      old = sym (has-change_mode i j mode ops) ∙ there

  with_defaults-AllClone :
      (info : LineBasicInfo) (ops : OpMap fl)
      → AllClone ops
      → AllClone (with_defaults info ops)
        × (Map.has LineType.normal (with_defaults info ops) ≡ true)
        × (Map.has LineType.sample (with_defaults info ops) ≡ true)
  unfolding with_defaults clone
  with_defaults-AllClone info ops h =
      let sampled = Map.emplace LineType.sample (sample_op info DataMode.sample) ops in
      let all = Map.emplace LineType.normal (normal_op info DataMode.normal) sampled in
      let normal_mode = change_mode LineType.normal DataMode.token_normal all in
      let good : AllClone all =
        emplace-AllClone _ _ _ sampled (emplace-AllClone _ _ _ ops h refl) refl in
      let normal_there : Map.has LineType.normal all ≡ true =
        rw (has-emplace, Map.same_refl LineType.normal) refl in
      let sample_first : Map.has LineType.sample sampled ≡ true =
        rw (has-emplace, Map.same_refl LineType.sample) refl in
      let sample_there : Map.has LineType.sample all ≡ true =
        has-emplace LineType.normal LineType.sample (normal_op info DataMode.normal) sampled
        ∙ (rw sample_first (or_true (line_type_key.same LineType.normal LineType.sample))) in
      elim (Bool-cases (Map.has LineType.token all)) [
        | inl e ↦ rw e (
          change_mode-AllClone _ _ normal_mode (change_mode-AllClone _ _ all good),
          has-change_mode LineType.smoothing LineType.normal _ normal_mode
              ∙ has-change_mode LineType.normal LineType.normal _ all
              ∙ normal_there,
          has-change_mode LineType.smoothing LineType.sample _ normal_mode
              ∙ has-change_mode LineType.normal LineType.sample _ all
              ∙ sample_there,
        )
        | inr e ↦ rw e (good, normal_there, sample_there)
      ]

  -- Each line that is built from the operations has its own operations.
  abbrev pub HasOps : OpMap fl → LineType → Type 0
  HasOps ops type =
      (copies : List (LineOp fl)) × (get_line_ops type ops ≡ some copies) × (0 < length copies)

  HasOps-op_types :
      (ops : OpMap fl) (type : LineType)
      → All (λ t. CanClone (Map.get t ops)) (op_types type)
      → 0 < length (op_types type)
      → HasOps ops type
  unfolding get_line_ops
  HasOps-op_types ops type h p =
      let (copies, made, same) = clone_all_total (op_types type) ops h in
      (copies, made, omega arith)

  -- For the lines that `BuildLine` makes of the operations of a request `GetLineOps` finds each
  -- operation that it asks for, if the operations that the settings named can be cloned.
  pub get_line_ops_total :
      (info : LineBasicInfo) (ops : OpMap fl)
      → AllClone ops
      → All (HasOps (with_defaults info ops)) (build_line (with_defaults info ops))
  unfolding build_line build_line_types op_types
  get_line_ops_total info ops h =
      let d = with_defaults info ops in
      let (good, normal_there, sample_there) = with_defaults-AllClone info ops h in
      let n = good LineType.normal normal_there in
      let s = good LineType.sample sample_there in
      elim (Bool-cases (Map.has LineType.token d)) [
        | inl t ↦ elim (Bool-cases (Map.has LineType.smoothing d)) [
          | inl m ↦
              rw (t, m)
                (
                  HasOps-op_types d LineType.token (n, (s, (good LineType.token t, tt)))
                      (omega arith),
                  (
                    HasOps-op_types d LineType.token_smoothing
                        (good LineType.smoothing m, (s, (good LineType.token t, tt))) (omega arith),
                    tt,
                  ),
                )
          | inr m ↦
              rw (t, m)
                (
                  HasOps-op_types d LineType.token (n, (s, (good LineType.token t, tt)))
                      (omega arith),
                  tt,
                )
        ]
        | inr t ↦ elim (Bool-cases (Map.has LineType.smoothing d)) [
          | inl m ↦
              rw (t, m)
                (
                  HasOps-op_types d LineType.normal (n, (s, tt)) (omega arith),
                  (
                    HasOps-op_types d LineType.normal_smoothing (good LineType.smoothing m, (s, tt))
                        (omega arith),
                    tt,
                  ),
                )
          | inr m ↦ rw (t, m) (HasOps-op_types d LineType.normal (n, (s, tt)) (omega arith), tt)
        ]
      ]
