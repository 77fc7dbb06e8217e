-- ===== src/Concept/View.antt =====
-- class DataView of Scalar/server/src/defs/ConceptDefs.h. An iterator is an index into the vector
-- that the view was taken from, which the view carries.
use mathlib.Core.Option
use blue_workspace_build.Base.{
  ℕ, zero, suc, ◌+◌, ◌-◌, ◌%◌, ◌^◌, ◌≤◌, ◌<◌, ◌≡◌, not, ◌&&◌, Option, none, some, List, [], ◌∷◌,
  ◌++◌, arith, ltb, leb, eqb, if◌then◌else◌, length, get_elem?, take, drop, Text,
}
use blue_workspace_build.Base.Floats.{Floats}
use blue_workspace_build.Concept.{ScalarPoint}

-- enum ViewType.
pub data ViewType : Type 0 where
  continues discrete : ViewType

pub record DataView (fl : Floats) : Type 0 where
  pub file : Text
  pub base : List (ScalarPoint fl)
  pub lower : ℕ
  pub upper : ℕ
  pub view_type : ViewType
  pub len : ℕ
  pub points : List ℕ

-- `std::distance`, as a `uint64_t`.
unfoldable pub distance : ℕ → ℕ → ℕ
distance lower upper = (upper + 2 ^ 64 - lower) % 2 ^ 64

pub distance-eq :
    (lower upper : ℕ) → lower ≤ upper → upper < 2 ^ 63 → distance lower upper ≡ upper - lower
unfolding distance
distance-eq lower upper h b = omega arith

-- The loop of `GatherElement`: the positions that it appends to `points_` and the last `index`;
-- `none` if the fuel runs out.
unfoldable pub gather_loop : ℕ → ℕ → ℕ → ℕ → ℕ → Option (List ℕ × ℕ)
gather_loop zero upper step index remain = none
gather_loop (suc fuel) upper step index remain =
    let more =
      Option.map (λ (r : List ℕ × ℕ). (index ∷ r.0, r.1))
        (gather_loop fuel upper step (index + step) (remain - step)) in
    if ltb 0 remain && not (eqb index upper)
    then (if ltb remain step then some (index ∷ [], index) else more)
    else some ([], index)

module _ {fl : Floats} where
  -- The constructor of a continuous view.
  unfoldable pub make_view : List (ScalarPoint fl) → ℕ → ℕ → Text → DataView fl
  make_view base lower upper file = record {
    file = file;
    base = base;
    lower = lower;
    upper = upper;
    view_type = continues;
    len = (distance lower upper + 1) % 2 ^ 64;
    points = [];
  }

  -- The last position is added where the loop did not end at `upper_`.
  unfoldable pub close_view : DataView fl → List ℕ × ℕ → DataView fl
  close_view v (ps, index) =
      if eqb index v.upper
      then record v { view_type = discrete; len = 0; points = ps }
      else record v {
        view_type = discrete;
        len = 0;
        points = ps ++ (v.upper - 1) ∷ [];
        upper = v.upper - 1;
      }

  gather_typed : ViewType → ℕ → DataView fl → Option (DataView fl)
  unfolding close_view
  gather_typed discrete step v = some v
  gather_typed continues step v =
      Option.map (close_view v) (gather_loop (suc v.len) v.upper step v.lower v.len)

  -- GatherElement.
  unfoldable pub gather_element : ℕ → DataView fl → Option (DataView fl)
  unfolding gather_typed
  gather_element step v = gather_typed v.view_type step v

  -- The points at a list of positions; `none` is a read outside the vector.
  unfoldable pub read_points : List (ScalarPoint fl) → List ℕ → Option (List (ScalarPoint fl))
  read_points base [] = some []
  read_points base (i ∷ is) = elim (get_elem? base i) [
    | none ↦ none
    | some p ↦ Option.map (◌∷◌ p) (read_points base is)
  ]

  elements_typed : ViewType → DataView fl → Option (List (ScalarPoint fl))
  unfolding read_points
  elements_typed continues v =
      if leb v.lower v.upper && leb v.upper (length v.base)
      then some (take (v.upper - v.lower) (drop v.lower v.base))
      else none
  elements_typed discrete v = read_points v.base v.points

  -- GetElements.
  unfoldable pub get_elements : DataView fl → Option (List (ScalarPoint fl))
  unfolding elements_typed
  get_elements v = elements_typed v.view_type v

  -- Length.
  unfoldable pub view_length : DataView fl → ℕ
  view_length v = elim v.view_type [ continues ↦ v.len | discrete ↦ length v.points ]
