-- ===== src/Json.antt =====
-- What the handlers of Scalar/server/src/plugin/Handler and the parameters of the smoothers ask of
-- the JSON library. The library is a parameter: a record of its operations, with what its
-- documentation says of a getter whose test succeeded. A getter of the wrong type, which is a failed
-- assertion of the library, is `none`.
pub mod Writer
pub mod Answers
use mathlib.Core.Option
use mathlib.Core.Option.{some-injective}
use blue_workspace_build.Base.{
  ℕ, suc, ◌≡◌, refl, ap, inl, inr, Bool, true, false, Option, none, some, List, [], ◌∷◌,
  if◌then◌else◌, Option-cases, length, Text,
}
use blue_workspace_build.Base.Floats.{Floats}

-- `m.then(f)` of two results; the first failure is the result.
infixl 5 ◌>>=◌
abbrev pub ◌>>=◌ {ℓ κ} : {A : Type ℓ} {B : Type κ} → Option A → (A → Option B) → Option B
none >>= f = none
some a >>= f = f a

-- A test of a value, `IsX`, with its getter, `GetX`.
pub record Accessor (V : Type 0) (A : Type 0) : Type 0 where
  pub is : V → Bool
  pub get : V → Option A
  pub total : (v : V) → is v ≡ true → (a : A) × (get v ≡ some a)

-- `Value` with `Document::Parse`; the members of an object are found by name.
pub record Json (fl : Floats) : Type 1 where
  pub Value : Type 0
  pub parse : Text → Option Value
  pub object : Accessor Value (Text → Option Value)
  pub array : Accessor Value (List Value)
  pub text : Accessor Value Text
  pub bool : Accessor Value Bool
  pub int64 : Accessor Value ℕ
  pub uint64 : Accessor Value ℕ
  pub float : Accessor Value fl.Float
  pub double : Accessor Value fl.Double
  -- `IsNumber` with `GetDouble`.
  pub number : Accessor Value fl.Double

-- `first() && second()` of tests that can fail.
unfoldable pub both : Option Bool → Option Bool → Option Bool
both none second = none
both (some false) second = some false
both (some true) second = second

-- `std::all_of` with such a test.
unfoldable pub all_checked : {A : Type 0} → (A → Option Bool) → List A → Option Bool
unfolding both
all_checked test [] = some true
all_checked test (x ∷ xs) = both (test x) (all_checked test xs)

-- `std::transform` with a function that can fail.
unfoldable pub map_all : {A B : Type 0} → (A → Option B) → List A → Option (List B)
map_all f [] = some []
map_all f (x ∷ xs) = do y ← f x; Option.map (◌∷◌ y) (map_all f xs)

pub both-true :
    (first second : Option Bool)
    → both first second ≡ some true
    → (first ≡ some true) × (second ≡ some true)
unfolding both
both-true none second h = cc
both-true (some false) second h = cc
both-true (some true) second h = (refl, h)

-- What every entry passed is read of every entry.
pub map_all_total :
    {A B : Type 0} (test : A → Option Bool) (f : A → Option B)
    → ((a : A) → test a ≡ some true → (b : B) × (f a ≡ some b))
    → (xs : List A) → all_checked test xs ≡ some true
    → (ys : List B) × (map_all f xs ≡ some ys) × (length ys ≡ length xs)
unfolding all_checked map_all
map_all_total test f h [] e = ([], refl, refl)
map_all_total test f h (x ∷ xs) e =
    let (here, rest) = both-true (test x) (all_checked test xs) e in
    let (y, made) = h x here in
    let (ys, made_rest, same) = map_all_total test f h xs rest in
    (y ∷ ys, rw (map_all, made, made_rest) refl, ap suc same)

module _ {fl : Floats} (j : Json fl) where
  -- HasMember.
  unfoldable pub has_member : Text → j.Value → Option Bool
  has_member name v = do
    members ← j.object.get v
    elim (members name) [ none ↦ some false | some x ↦ some true ]

  -- `v[name]`.
  unfoldable pub member : Text → j.Value → Option j.Value
  member name v = do members ← j.object.get v; members name

  -- `v.HasMember(name) && v[name].IsX()`.
  unfoldable pub member_is : {A : Type 0} → Text → Accessor j.Value A → j.Value → Option Bool
  unfolding has_member member both
  member_is name access v = both (has_member name v) (Option.map access.is (member name v))

  -- `v[name].GetX()`.
  unfoldable pub get_member : {A : Type 0} → Text → Accessor j.Value A → j.Value → Option A
  unfolding member
  get_member name access v = do x ← member name v; access.get x

  -- `std::all_of` over `v[name]`.
  unfoldable pub all_members : Text → (j.Value → Option Bool) → j.Value → Option Bool
  unfolding get_member all_checked
  all_members name test v = do xs ← get_member name j.array v; all_checked test xs

  -- A member that passed its test is read.
  pub get_member_total :
      {A : Type 0} (name : Text) (access : Accessor j.Value A) (v : j.Value)
      → member_is name access v ≡ some true
      → (a : A) × (get_member name access v ≡ some a)
  unfolding member_is get_member
  get_member_total name access v h =
      let (_, tested) = both-true (has_member name v) _ h in
      elim (Option-cases (member name v)) [
        | inl e ↦ cc (rw e at tested)
        | inr (x, e) ↦
            let (a, got) = access.total x (some-injective _ _ (rw e at tested)) in
            (a, rw (get_member, e) got)
      ]

  -- What every entry of an array passed is read of every entry.
  pub all_members_total :
      {B : Type 0} (name : Text) (test : j.Value → Option Bool) (f : j.Value → Option B)
      (v : j.Value)
      → ((x : j.Value) → test x ≡ some true → (b : B) × (f x ≡ some b))
      → all_members name test v ≡ some true
      → (xs : List j.Value) × (ys : List B) × (get_member name j.array v ≡ some xs)
        × (map_all f xs ≡ some ys)
        × (length ys ≡ length xs)
  unfolding all_members
  all_members_total name test f v h e = elim (Option-cases (get_member name j.array v)) [
    | inl g ↦ cc (rw g at e)
    | inr (xs, g) ↦
        let (ys, made, same) = map_all_total test f h xs (rw g at e) in (xs, ys, g, made, same)
  ]

  -- `HasMember(name) && v[name].IsX()` as a condition of the constructors: the value, or `d`.
  unfoldable pub member_or : {A : Type 0} → A → Text → Accessor j.Value A → j.Value → Option A
  unfolding member_is get_member
  member_or d name access v = do
    there ← member_is name access v
    if there then get_member name access v else some d
