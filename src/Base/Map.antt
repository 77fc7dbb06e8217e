-- ===== src/Base/Map.antt =====
-- `std::map` and `std::unordered_map` as association lists; a map is used through its lookups.
use mathlib.Core.Path.{◌≡◌, refl, sym, ◌∙◌}
use mathlib.Core.Logic.{◌↔◌, ◌⊎◌, inl, inr}
use mathlib.Core.Option.{some-injective}
use mathlib.Core.Bool.{Bool, true, false, ◌||◌}
use mathlib.Core.Option.{Option, none, some}
use mathlib.Core.List.{List, [], ◌∷◌}
use native.Mathlib.Omega.{arith}
use blue_workspace_build.Base.Tests.{if◌then◌else◌, eqb, eqb_iff, Bool-cases}
use blue_workspace_build.Base.Texts.{Text, text_eq, text_eq_iff}
use Prim.Native.Nat.{ℕ}

-- The equality of the keys.
pub record Key {ℓ} (K : Type ℓ) : Type ℓ where
  pub same : K → K → Bool
  pub same_iff : (a b : K) → (same a b ≡ true) ↔ (a ≡ b)

instance abbrev pub text_key : Key Text
text_key = record { same = text_eq; same_iff = text_eq_iff }

instance abbrev pub nat_key : Key ℕ
nat_key = record { same = eqb; same_iff = eqb_iff }

abbrev pub Map {ℓ κ} : Type ℓ → Type κ → Type (ℓ ⊔ κ)
Map K V = List (K × V)

pub same_refl {ℓ} : {K : Type ℓ} ⦃k : Key K⦄ (i : K) → k.same i i ≡ true
same_refl ⦃k⦄ i = (k.same_iff i i).1 refl

module _ {ℓ κ} {K : Type ℓ} {V : Type κ} ⦃k : Key K⦄ where
  -- `find(key)`.
  unfoldable pub get : K → Map K V → Option V
  get i [] = none
  get i ((j, v) ∷ m) = if k.same j i then some v else get i m

  -- `m[key] = value`.
  unfoldable pub put : K → V → Map K V → Map K V
  put i v [] = (i, v) ∷ []
  put i v ((j, w) ∷ m) = if k.same j i then (i, v) ∷ m else (j, w) ∷ put i v m

  -- `emplace(key, value)` and `insert({key, value})`: a key that is there keeps its value.
  unfoldable pub emplace : K → V → Map K V → Map K V
  unfolding get put
  emplace i v m = elim (get i m) [ none ↦ put i v m | some w ↦ m ]

  -- `erase(key)`.
  unfoldable pub erase : K → Map K V → Map K V
  erase i [] = []
  erase i ((j, w) ∷ m) = if k.same j i then erase i m else (j, w) ∷ erase i m

  -- `count(key) != 0`, `find(key) != end()`.
  unfoldable pub has : K → Map K V → Bool
  unfolding get
  has i m = elim (get i m) [ none ↦ false | some v ↦ true ]

  -- `m[key]` as an rvalue: a missing key reads as the default.
  unfoldable pub get_or : V → K → Map K V → V
  unfolding get
  get_or d i m = elim (get i m) [ none ↦ d | some v ↦ v ]

  pub get-put :
      (i j : K) (v : V) (m : Map K V) → get j (put i v m) ≡ (if k.same i j then some v else get j m)
  unfolding get put
  get-put i j v [] = refl
  get-put i j v ((h, w) ∷ m) =
      ground (arith, k.same_iff h i, k.same_iff h j, k.same_iff i j, get-put i j v m)

  pub get-put_self : (i : K) (v : V) (m : Map K V) → get i (put i v m) ≡ some v
  get-put_self i v m = ground (arith, get-put i i v m, same_refl i)

  -- What is found behind `m[key] = value` is the value, or was there before.
  pub put-inv :
      (i j : K) (v w : V) (m : Map K V)
      → get j (put i v m) ≡ some w
      → ((i ≡ j) × (v ≡ w)) ⊎ (get j m ≡ some w)
  put-inv i j v w m h = elim (Bool-cases (k.same i j)) [
    | inl e ↦ inl ((k.same_iff i j).0 e, some-injective _ _ (sym (rw (get-put, e) refl) ∙ h))
    | inr e ↦ inr (sym (rw (get-put, e) refl) ∙ h)
  ]

  -- What is there is found behind it, perhaps changed.
  pub put-there :
      (i j : K) (v w : V) (m : Map K V) → get j m ≡ some w → (u : V) × (get j (put i v m) ≡ some u)
  put-there i j v w m h = elim (Bool-cases (k.same i j)) [
    | inl e ↦ (v, rw (get-put, e) refl)
    | inr e ↦ (w, rw (get-put, e) h)
  ]

  pub put-get : (i : K) (v : V) (m : Map K V) → get i m ≡ some v → put i v m ≡ m
  unfolding get put
  put-get i v [] h = ground (arith, h)
  put-get i v ((j, w) ∷ m) h = ground (arith, h, k.same_iff j i, put-get i v m)

  pub get-erase :
      (i j : K) (m : Map K V) → get j (erase i m) ≡ (if k.same i j then none else get j m)
  unfolding get erase
  get-erase i j [] = ground arith
  get-erase i j ((h, w) ∷ m) =
      ground (arith, k.same_iff h i, k.same_iff h j, k.same_iff i j, get-erase i j m)

  pub get-emplace :
      (i j : K) (v : V) (m : Map K V)
      → get j (emplace i v m) ≡ (if k.same i j then some (get_or v j m) else get j m)
  unfolding emplace get_or
  get-emplace i j v m = ground (arith, get-put i j v m, k.same_iff i j)

  pub has-put : (i j : K) (v : V) (m : Map K V) → has j (put i v m) ≡ (k.same i j || has j m)
  unfolding has
  has-put i j v m = ground (arith, get-put i j v m)

  pub has-emplace :
      (i j : K) (v : V) (m : Map K V) → has j (emplace i v m) ≡ (k.same i j || has j m)
  unfolding has
  has-emplace i j v m = ground (arith, get-emplace i j v m)

  pub get_or-get : (d v : V) (i : K) (m : Map K V) → get i m ≡ some v → get_or d i m ≡ v
  unfolding get_or
  get_or-get d v i m e = rw (e, get_or)

  pub get_or-put :
      (d v : V) (i j : K) (m : Map K V)
      → get_or d j (put i v m) ≡ (if k.same i j then v else get_or d j m)
  unfolding get_or
  get_or-put d v i j m = ground (arith, get-put i j v m)

  pub get_or-erase :
      (d : V) (i j : K) (m : Map K V)
      → get_or d j (erase i m) ≡ (if k.same i j then d else get_or d j m)
  unfolding get_or
  get_or-erase d i j m = ground (arith, get-erase i j m)
