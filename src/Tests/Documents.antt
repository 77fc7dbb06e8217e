-- ===== src/Tests/Documents.antt =====
-- A JSON document with one request, as a library that knows only the values of this document.
use blue_workspace_build.Base.{
  ℕ, ◌≡◌, refl, Bool, true, false, Option, none, some, List, [], ◌∷◌, if◌then◌else◌, is_empty, Text,
  codes, text_eq,
}
use blue_workspace_build.Json.{Json, Accessor}
use blue_workspace_build.Tests.Values.{whole}

-- The values of a request for one graph, with one set of line settings that is an empty object.
pub data Doc : Type 0 where
  request graph_list graph tag file start end_ configs conf : Doc

abbrev pub is_some : {A : Type 0} → Option A → Bool
is_some none = false
is_some (some a) = true

pub is_some_total : {A : Type 0} → (o : Option A) → is_some o ≡ true → (a : A) × (o ≡ some a)
is_some_total none e = cc
is_some_total (some a) e = (a, refl)

-- An accessor whose test says where its getter succeeds.
abbrev pub accessor : {V A : Type 0} → (V → Option A) → Accessor V A
accessor f = record { is = λ v. is_some (f v); get = f; total = λ v e. is_some_total (f v) e }

abbrev members : Doc → Option (Text → Option Doc)
members request = some (λ name. if text_eq name (codes "graphList") then some graph_list else none)
members graph = some (λ name.
    if text_eq name (codes "tag")
    then some tag
    else if text_eq name (codes "file")
    then some file
    else if text_eq name (codes "start")
    then some start
    else if text_eq name (codes "end")
    then some end_
    else if text_eq name (codes "graphConfig")
    then some configs
    else none)
members conf = some (λ name. none)
members graph_list = none
members tag = none
members file = none
members start = none
members end_ = none
members configs = none

abbrev entries : Doc → Option (List Doc)
entries graph_list = some (graph ∷ [])
entries configs = some (conf ∷ [])
entries request = none
entries graph = none
entries conf = none
entries tag = none
entries file = none
entries start = none
entries end_ = none

abbrev texts : Doc → Option Text
texts tag = some (codes "loss")
texts file = some (codes "a.log")
texts request = none
texts graph = none
texts conf = none
texts graph_list = none
texts start = none
texts end_ = none
texts configs = none

abbrev numbers : Doc → Option ℕ
numbers start = some 0
numbers end_ = some 20
numbers request = none
numbers graph = none
numbers conf = none
numbers graph_list = none
numbers tag = none
numbers file = none
numbers configs = none

-- The document is what every text but the empty one parses to.
abbrev pub documents : Json whole
documents = record {
  Value = Doc;
  parse = λ body. if is_empty body then none else some request;
  object = accessor members;
  array = accessor entries;
  text = accessor texts;
  bool = accessor (λ v. none);
  int64 = accessor numbers;
  uint64 = accessor numbers;
  float = accessor (λ v. none);
  double = accessor (λ v. none);
  number = accessor numbers;
}
