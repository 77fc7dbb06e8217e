-- ===== src/Tests/Trees.antt =====
-- A JSON library that writes and parses: its values are trees, and the text of a value is a program
-- that builds it on a stack.
use mathlib.Core.Option
use mathlib.Core.Option.{some-injective}
use blue_workspace_build.Base.{
  ℕ, zero, suc, ◌≡◌, refl, sym, ap, ◌∙◌, inl, inr, Bool, true, false, Option, none, some, List, [],
  ◌∷◌, ◌++◌, eqb, if◌then◌else◌, Bool-cases, Option-cases, Text, codes, text_eq, text_eq_iff,
}
use blue_workspace_build.Base.Map
use blue_workspace_build.Base.Map.{text_key}
use blue_workspace_build.Json.{Json}
use blue_workspace_build.Json.Writer.{Writer, basic_response}
use blue_workspace_build.Tests.Values.{whole}
use blue_workspace_build.Tests.Documents.{accessor}

-- An array or an object is its first entry with the rest of it.
pub data Tree : Type 0 where
  text_tree : Text → Tree
  bool_tree : Bool → Tree
  int_tree : ℕ → Tree
  array_end : Tree
  item : Tree → Tree → Tree
  object_end : Tree
  field : Text → Tree → Tree → Tree

abbrev texts : Tree → Option Text
texts (text_tree t) = some t
texts _ = none

abbrev bools : Tree → Option Bool
bools (bool_tree b) = some b
bools _ = none

abbrev ints : Tree → Option ℕ
ints (int_tree n) = some n
ints _ = none

abbrev entries : Tree → Option (List Tree)
entries array_end = some []
entries (item x xs) = Option.map (◌∷◌ x) (entries xs)
entries _ = none

abbrev fields : Tree → Option (List (Text × Tree))
fields object_end = some []
fields (field name x xs) = Option.map (◌∷◌ (name, x)) (fields xs)
fields _ = none

abbrev array_tree : List Tree → Tree
array_tree [] = array_end
array_tree (x ∷ xs) = item x (array_tree xs)

abbrev pub add_field : Text → Tree → Tree → Option Tree
add_field name x object_end = some (field name x object_end)
add_field name x (field k y xs) = Option.map (field k y) (add_field name x xs)
add_field name x _ = none

abbrev set_field : Text → Tree → Tree → Option Tree
set_field name x (field k y xs) =
    let rest = set_field name x xs in
    if text_eq k name then some (field k x xs) else Option.map (field k y) rest
set_field name x _ = none

-- One command on the stack.
abbrev step : ℕ → List Tree → List Tree
step zero st = text_tree [] ∷ st
step (suc zero) st = bool_tree false ∷ st
step (suc (suc zero)) st = bool_tree true ∷ st
step (suc (suc (suc zero))) (text_tree (n ∷ []) ∷ st) = int_tree n ∷ st
step (suc (suc (suc (suc zero)))) st = array_end ∷ st
step (suc (suc (suc (suc (suc zero))))) (xs ∷ x ∷ st) = item x xs ∷ st
step (suc (suc (suc (suc (suc (suc zero)))))) st = object_end ∷ st
step (suc (suc (suc (suc (suc (suc (suc zero))))))) (xs ∷ x ∷ text_tree name ∷ st) =
    field name x xs ∷ st
step (suc (suc (suc (suc (suc (suc (suc (suc n)))))))) (text_tree t ∷ st) = text_tree (n ∷ t) ∷ st
step n st = []

abbrev run : Text → List Tree → Option Tree
run [] (t ∷ []) = some t
run [] st = none
run (n ∷ ns) st = run ns (step n st)

abbrev write_text : Text → Text → Text
write_text [] rest = 0 ∷ rest
write_text (c ∷ t) rest = write_text t (suc (suc (suc (suc (suc (suc (suc (suc c))))))) ∷ rest)

-- The program of a tree, before `rest`.
abbrev write : Tree → Text → Text
write (text_tree t) rest = write_text t rest
write (bool_tree false) rest = 1 ∷ rest
write (bool_tree true) rest = 2 ∷ rest
write (int_tree n) rest = write_text (n ∷ []) (3 ∷ rest)
write array_end rest = 4 ∷ rest
write (item x xs) rest = write x (write xs (5 ∷ rest))
write object_end rest = 6 ∷ rest
write (field name x xs) rest = write_text name (write x (write xs (7 ∷ rest)))

run-write_text :
    (t rest : Text) (st : List Tree) → run (write_text t rest) st ≡ run rest (text_tree t ∷ st)
run-write_text [] rest st = refl
run-write_text (c ∷ t) rest st = run-write_text t _ st

pub run-write :
    (v : Tree) (rest : Text) (st : List Tree) → run (write v rest) st ≡ run rest (v ∷ st)
run-write (text_tree t) rest st = run-write_text t rest st
run-write (bool_tree false) rest st = refl
run-write (bool_tree true) rest st = refl
run-write (int_tree n) rest st = refl
run-write array_end rest st = refl
run-write (item x xs) rest st = run-write x _ st ∙ run-write xs _ (x ∷ st)
run-write object_end rest st = refl
run-write (field name x xs) rest st =
    run-write_text name _ st
    ∙ run-write x _ (text_tree name ∷ st)
    ∙ run-write xs _ (x ∷ text_tree name ∷ st)

abbrev basic_tree : Tree
basic_tree = field (codes "body") object_end (
    field (codes "msg") (text_tree [])
      (field (codes "errCode") (int_tree 0) (field (codes "result") (bool_tree true) object_end)))

-- A program has a zero in front.
abbrev parse_tree : Text → Option Tree
parse_tree [] = none
parse_tree (c ∷ t) =
    if eqb c 0 then run t [] else if text_eq (c ∷ t) basic_response then some basic_tree else none

abbrev pub dump_tree : Tree → Text
dump_tree v = 0 ∷ write v []

abbrev pub trees : Json whole
trees = record {
  Value = Tree;
  parse = parse_tree;
  object = accessor (λ v. Option.map (λ ms. λ name. Map.get name ms) (fields v));
  array = accessor entries;
  text = accessor texts;
  bool = accessor bools;
  int64 = accessor ints;
  uint64 = accessor ints;
  float = accessor (λ v. none);
  double = accessor (λ v. none);
  number = accessor ints;
}

pub array_tree-entries : (vs : List Tree) → entries (array_tree vs) ≡ some vs
array_tree-entries [] = refl
array_tree-entries (v ∷ vs) = ap (Option.map (◌∷◌ v)) (array_tree-entries vs)

pub add_field-fields :
    (name : Text) (x v : Tree) (ms : List (Text × Tree))
    → fields v ≡ some ms
    → (w : Tree) × (add_field name x v ≡ some w) × (fields w ≡ some (ms ++ (name, x) ∷ []))
add_field-fields name x object_end ms h =
    (field name x object_end, refl, ap (λ l. some (l ++ (name, x) ∷ [])) (some-injective _ _ h))
add_field-fields name x (field k y xs) ms h = elim (Option-cases (fields xs)) [
  | inl e ↦ cc (rw e at h)
  | inr (ns, e) ↦
      let (w, added, held) = add_field-fields name x xs ns e in
      (
        field k y w,
        rw added refl,
        rw held (ap (λ l. some (l ++ (name, x) ∷ [])) (some-injective _ _ (rw e at h))),
      )
]
add_field-fields name x (text_tree t) ms h = cc
add_field-fields name x (bool_tree b) ms h = cc
add_field-fields name x (int_tree n) ms h = cc
add_field-fields name x array_end ms h = cc
add_field-fields name x (item y ys) ms h = cc

pub set_field-fields :
    (name : Text) (x u v : Tree) (ms : List (Text × Tree))
    → fields v ≡ some ms
    → Map.get name ms ≡ some u
    → (w : Tree) × (set_field name x v ≡ some w) × (fields w ≡ some (Map.put name x ms))
unfolding Map.get Map.put
set_field-fields name x u object_end ms h g = cc (rw (sym (some-injective _ _ h)) at g)
set_field-fields name x u (field k y xs) ms h g = elim (Option-cases (fields xs)) [
  | inl e ↦ cc (rw e at h)
  | inr (ns, e) ↦
      let same = some-injective _ _ (rw e at h) in
      elim (Bool-cases (text_eq k name)) [
        | inl q ↦ (field k x xs, rw q refl, rw (e, sym same, q, (text_eq_iff k name).0 q) refl)
        | inr q ↦
            let (w, added, held) = set_field-fields name x u xs ns e (rw (sym same, q) at g) in
            (field k y w, rw (q, added) refl, rw (held, sym same, q) refl)
      ]
]
set_field-fields name x u (text_tree t) ms h g = cc
set_field-fields name x u (bool_tree b) ms h g = cc
set_field-fields name x u (int_tree n) ms h g = cc
set_field-fields name x u array_end ms h g = cc
set_field-fields name x u (item y ys) ms h g = cc

-- Every tree can be written.
abbrev pub tree_writer : Writer trees
tree_writer = record {
  text_value = text_tree;
  bool_value = bool_tree;
  int_value = int_tree;
  array_value = array_tree;
  empty_object = object_end;
  add_member = add_field;
  set_member = set_field;
  dump = dump_tree;
  IsPlain = λ v. Unit {0};
  parse-dump = λ v h. run-write v [] [];
  text_plain = λ t. tt;
  text_read = λ t. refl;
  bool_plain = λ b. tt;
  bool_read = λ b. refl;
  int_plain = λ n h. tt;
  int_read = λ n h. refl;
  array_plain = λ vs h. tt;
  array_read = array_tree-entries;
  Members = λ v ms. fields v ≡ some ms;
  found = λ v ms h. ((λ name. Map.get name ms), rw h refl, λ name. refl);
  empty-Members = refl;
  empty_plain = tt;
  add_member-Members = λ name x v ms h p q.
      let (w, added, held) = add_field-fields name x v ms h in (w, added, held, tt);
  set_member-Members = λ name x y v ms h p q g.
      let (w, set, held) = set_field-fields name x y v ms h g in (w, set, held, tt);
  basic = (basic_tree, object_end, refl, refl, refl, tt, tt);
}
