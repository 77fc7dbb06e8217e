-- ===== src/Parser/Cache.antt =====
-- `UpdateData`, `ReachLimit` and `UpdateDataToGraph` of Scalar/server/src/parser/FileParser.cpp, and
-- the loop of `ParserData`. `ParseRecordToScalar` and the reading of a record are parameters.
use mathlib.Core.Option
use mathlib.Core.Path.{subst}
use mathlib.Core.Option.{some-injective}
use blue_workspace_build.Base.{
  ℕ, ◌+◌, ◌-◌, ◌%◌, ◌^◌, ◌≤◌, ◌<◌, ◌≡◌, refl, sym, ap, ◌∙◌, inl, inr, Bool, true, false, not, ◌||◌,
  Option, none, some, List, [], ◌∷◌, ◌++◌, arith, ltb, if◌then◌else◌, Bool-cases, Option-cases,
  length, All, All-append, All-mono, Text, text_eq_iff,
}
use blue_workspace_build.Base.Map.{text_key}
use blue_workspace_build.Base.StringSet
use blue_workspace_build.Base.StringSet.{StringSet}
use blue_workspace_build.Concept.{ScalarPoint}
use blue_workspace_build.Manager.{file_of}
use blue_workspace_build.Graphs.{Server, find_file, is_incremental, add_incremental, update_graph}
use blue_workspace_build.Base.Floats.{Floats}

-- An entry of `dataCache_`.
pub record Entry (fl : Floats) : Type 0 where
  pub file : Text
  pub tag : Text
  pub points : List (ScalarPoint fl)

pub record Cache (fl : Floats) : Type 0 where
  pub data_count : ℕ
  pub tag_set : StringSet
  pub entries : List (Entry fl)

abbrev pub empty_cache : (fl : Floats) → Cache fl
empty_cache fl = record { data_count = 0; tag_set = []; entries = [] }

abbrev pub max_tag_count : ℕ
max_tag_count = 100

abbrev pub max_data_count : ℕ
max_data_count = 10000

module _ {fl : Floats} where
  -- ScalarVisuallyServer::IsFileImported.
  unfoldable pub is_file_imported : Text → Server fl → Bool
  unfolding file_of
  is_file_imported path s = elim (find_file path s) [
    | none ↦ false
    | some (i, o) ↦ (file_of o).imported
  ]

  -- ReachLimit.
  unfoldable pub reach_limit : Cache fl → Bool
  reach_limit c = ltb max_tag_count (length c.tag_set) || ltb max_data_count c.data_count

  -- The body of the loop of `UpdateDataToGraph` from the second test on.
  unfoldable pub deliver : Entry fl → Server fl → Option (Server fl)
  unfolding is_incremental add_incremental update_graph
  deliver e s =
      let t = if is_incremental e.file e.tag s then add_incremental e.file e.tag s else s in
      update_graph e.tag e.file e.points t

  -- That loop: the entries that are left, and whether all were delivered. `none` is an access
  -- outside a smoother's window.
  unfoldable pub deliver_all :
      List (Entry fl) → Server fl → Option (Bool × List (Entry fl) × Server fl)
  unfolding is_file_imported deliver
  deliver_all [] s = some (true, [], s)
  deliver_all (e ∷ es) s =
      if not (is_file_imported e.file s)
      then some (false, e ∷ es, s)
      else elim (deliver e s) [ none ↦ none | some t ↦ deliver_all es t ]

  unfoldable pub settle :
      Cache fl → Bool × List (Entry fl) × Server fl → Bool × Cache fl × Server fl
  settle c (true, es, s) = (true, record { data_count = 0; tag_set = []; entries = es }, s)
  settle c (false, es, s) = (false, record c { entries = es }, s)

  -- UpdateDataToGraph.
  unfoldable pub update_data_to_graph : Cache fl → Server fl → Option (Bool × Cache fl × Server fl)
  unfolding deliver_all settle
  update_data_to_graph c s = Option.map (settle c) (deliver_all c.entries s)

  -- Keep new points in the cache.
  unfoldable pub cache_data : Text → Text → List (ScalarPoint fl) → Cache fl → Cache fl
  cache_data file [] points c = c
  cache_data file (b ∷ bs) points c = record {
    data_count = (c.data_count + length points) % 2 ^ 32;
    tag_set = StringSet.insert (b ∷ bs) c.tag_set;
    entries = c.entries ++ record { file = file; tag = b ∷ bs; points = points } ∷ [];
  }

  -- UpdateData.
  unfoldable pub update_cache :
      Text
      → Text
      → List (ScalarPoint fl)
      → Bool
      → Cache fl
      → Server fl
      → Option (Bool × Cache fl × Server fl)
  unfolding cache_data reach_limit update_data_to_graph
  update_cache file tag points force c s =
      let d = cache_data file tag points c in
      if reach_limit d || force then update_data_to_graph d s else some (true, d, s)

  -- The points that wait.
  unfoldable pub held : List (Entry fl) → ℕ
  held [] = 0
  held (e ∷ es) = length e.points + held es

  -- The counter is the number of points that wait, and the tags of these are in the set.
  abbrev pub IsCounted : Cache fl → Type 0
  IsCounted c =
      (c.data_count ≡ held c.entries)
      × All (λ (e : Entry fl). StringSet.contains e.tag c.tag_set ≡ true) c.entries

  -- The points that wait, and their tags, are no more than the limits.
  abbrev pub IsBounded : Cache fl → Type 0
  IsBounded c = (length c.tag_set ≤ max_tag_count) × (held c.entries ≤ max_data_count)

  held-append : (es rest : List (Entry fl)) → held (es ++ rest) ≡ held es + held rest
  unfolding held
  held-append [] rest = omega arith
  held-append (e ∷ es) rest = omega (arith, held-append es rest)

  cache_data-IsCounted :
      (file tag : Text) (points : List (ScalarPoint fl)) (c : Cache fl)
      → IsCounted c
      → held c.entries + length points < 2 ^ 32
      → IsCounted (cache_data file tag points c)
  unfolding cache_data held
  cache_data-IsCounted file [] points c h small = h
  cache_data-IsCounted file (b ∷ bs) points c h small =
      let new : Entry fl = record { file = file; tag = b ∷ bs; points = points } in
      let all = StringSet.insert (b ∷ bs) c.tag_set in
      let kept : (e : Entry fl)
          → StringSet.contains e.tag c.tag_set ≡ true
          → StringSet.contains e.tag all ≡ true =
        λ e k. ground (arith, StringSet.contains-insert (b ∷ bs) e.tag c.tag_set, k) in
      let here : StringSet.contains (b ∷ bs) all ≡ true = ground (
        arith,
        StringSet.contains-insert (b ∷ bs) (b ∷ bs) c.tag_set,
        (text_eq_iff (b ∷ bs) (b ∷ bs)).1 refl,
      ) in
      (
        omega (arith, h.0, small, held-append c.entries (new ∷ [])),
        All-append (λ (e : Entry fl). StringSet.contains e.tag all ≡ true) c.entries (new ∷ [])
            (All-mono kept c.entries h.1) (here, tt),
      )

  deliver_all-done :
      (es rest : List (Entry fl)) (s t : Server fl)
      → deliver_all es s ≡ some (true, rest, t)
      → rest ≡ []
  unfolding deliver_all
  deliver_all-done [] rest s t h = ground arith
  deliver_all-done (e ∷ es) rest s t h = elim (Bool-cases (is_file_imported e.file s)) [
    | inl f ↦ elim (Option-cases (deliver e s)) [
      | inl g ↦ cc (rw (deliver_all, f, g) at h)
      | inr (u, g) ↦ deliver_all-done es rest u t (rw (deliver_all, f, g) at h)
    ]
    | inr f ↦ cc (rw (deliver_all, f) at h)
  ]

  settle-done :
      (c d : Cache fl) (s t : Server fl) (o : Option (Bool × List (Entry fl) × Server fl))
      → deliver_all c.entries s ≡ o
      → Option.map (settle c) o ≡ some (true, d, t)
      → d ≡ empty_cache fl
  unfolding settle
  settle-done c d s t none e h = cc
  settle-done c d s t (some (true, es, u)) e h =
      sym (ap (λ r. r.1) (some-injective _ _ h))
      ∙ ap (λ l. record { data_count = 0; tag_set = []; entries = l })
          (deliver_all-done c.entries es s u e)
  settle-done c d s t (some (false, es, u)) e h = cc

  -- Where the counter is the number of points that wait, at most 10000, the set holds at most 100 tags,
  -- those of these points among them, and fewer than 2 ^ 32 - 10000 points are given, a successful `UpdateData` leaves a cache with the
  -- counter and the set right, in which at most 10000 points of at most 100 tags wait, and none at
  -- all if the call was forced.
  pub update_cache-IsBounded :
      (file tag : Text) (points : List (ScalarPoint fl)) (force : Bool) (c d : Cache fl)
      (s t : Server fl)
      → IsCounted c
      → IsBounded c
      → length points < 2 ^ 32 - 10000
      → update_cache file tag points force c s ≡ some (true, d, t)
      → IsCounted d × IsBounded d × (force ≡ true → d ≡ empty_cache fl)
  unfolding update_cache held
  update_cache-IsBounded file tag points force c d s t counted bounded small h =
      let e = cache_data file tag points c in
      let good = cache_data-IsCounted file tag points c counted (omega (arith, bounded.1, small)) in
      elim (Bool-cases (reach_limit e || force)) [
        | inl f ↦
            let cleared = settle-done e d s t _ refl (rw (update_data_to_graph, f) at h) in
            (
              subst IsCounted (sym cleared) (refl, tt),
              subst IsBounded (sym cleared) (omega arith, omega arith),
              λ forced. cleared,
            )
        | inr f ↦
            let kept : d ≡ e = sym (ap (λ r. r.1) (some-injective _ _ (rw f at h))) in
            let inside : (length e.tag_set ≤ max_tag_count) × (e.data_count ≤ max_data_count) =
              ground (arith, f) in
            (
              subst IsCounted (sym kept) good,
              subst IsBounded (sym kept) (inside.0, omega (arith, good.0, inside.1)),
              λ forced. absurd (ground (arith, f, forced)),
            )
      ]
