-- ===== src/Handler/Answer/Read.antt =====
-- How a client reads an answer of Scalar/server/src/plugin/Handler: its status and the entries of a
-- list of its body.

use blue_workspace_build.Base.{
  ℕ, ◌≡◌, refl, Bool, true, Option, some, List, [], map, All, Text, codes, text_eq_iff,
}
use blue_workspace_build.Base.Floats.{Floats}
use blue_workspace_build.Base.Map
use blue_workspace_build.Base.Map.{text_key}
use blue_workspace_build.Concept.{ErrCode}
use blue_workspace_build.Json.{Json, Accessor, ◌>>=◌, member, get_member, map_all}
use blue_workspace_build.Json.Writer.{Writer, basic_response, err_code, Answers}
use blue_workspace_build.Json.Answers.{
  member-Holds, get_member-Holds, map_all-Reads, basic-Answers, set_body-Answers, err_code_small,
}
use blue_workspace_build.Handler.Answer.{set_list}

module _ {fl : Floats} (j : Json fl) where
  -- `errCode`, `result` and `msg`.
  unfoldable pub read_status : Text → Option (ℕ × Bool × Text)
  unfolding get_member
  read_status text = do
    v ← j.parse text
    code ← get_member j (codes "errCode") j.int64 v
    result ← get_member j (codes "result") j.bool v
    msg ← get_member j (codes "msg") j.text v
    some (code, result, msg)

  -- A member of the body.
  unfoldable pub read_body : {A : Type 0} → Text → Accessor j.Value A → Text → Option A
  unfolding member get_member
  read_body name access text = do
    v ← j.parse text
    body ← member j (codes "body") v
    get_member j name access body

  -- A list of the body, entry by entry.
  unfoldable pub read_list : {B : Type 0} → Text → (j.Value → Option B) → Text → Option (List B)
  unfolding read_body map_all
  read_list name read text = do vs ← read_body name j.array text; map_all read vs

module _ {fl : Floats} {j : Json fl} (wr : Writer j) where
  pub read_status-Answers :
      (text : Text) (ms : List (Text × j.Value)) (msg : Text) (code : ErrCode) (result : Bool)
      → Answers wr text ms msg code result
      → read_status j text ≡ some (err_code code, result, msg)
  unfolding read_status Map.get
  read_status-Answers text ms msg code result (v, body, parsed, held, inner) =
      let coded =
        get_member-Holds wr (codes "errCode") j.int64 v _ _ _ held refl
          (wr.int_read (err_code code) (err_code_small code)) in
      let ended =
        get_member-Holds wr (codes "result") j.bool v _ _ _ held refl (wr.bool_read result) in
      let told = get_member-Holds wr (codes "msg") j.text v _ _ _ held refl (wr.text_read msg) in
      rw (read_status, parsed, coded, ended, told) refl

  pub read_body-Answers :
      {A : Type 0} (name : Text) (access : Accessor j.Value A) (x : j.Value) (a : A) (text : Text)
      (ms : List (Text × j.Value)) (msg : Text) (code : ErrCode) (result : Bool)
      → Answers wr text ms msg code result
      → Map.get name ms ≡ some x
      → access.get x ≡ some a
      → read_body j name access text ≡ some a
  unfolding read_body Map.get
  read_body-Answers name access x a text ms msg code result (v, body, parsed, held, inner) e got =
      let at_body = member-Holds wr (codes "body") v body _ held refl in
      let at_name = get_member-Holds wr name access body x ms a inner e got in
      rw (read_body, parsed, at_body) at_name

  -- A list that was written to the body of the first answer is read again, under a good status.
  pub set_list-Reads :
      {A B : Type 0} (P : A → Type 0) (name : Text) (write : A → Option j.Value)
      (read : j.Value → Option B) (f : A → B) (xs : List A)
      → All P xs
      → ((a : A) → P a → (v : j.Value) × (write a ≡ some v) × wr.IsPlain v × (read v ≡ some (f a)))
      → (text : Text) × (set_list wr name write xs basic_response ≡ some text)
        × (read_status j text ≡ some (0, true, []))
        × (read_list j name read text ≡ some (map f xs))
  unfolding set_list read_list Map.get err_code
  set_list-Reads P name write read f xs all h =
      let (vs, made, plain, got) = map_all-Reads wr P write read f h xs all in
      let (text, set, answers) =
        set_body-Answers wr name (wr.array_value vs) basic_response [] [] ErrCode.ok true
          (basic-Answers wr) (wr.array_plain vs plain) in
      let listed =
        read_body-Answers name j.array (wr.array_value vs) vs text _ [] ErrCode.ok true answers
          (rw ((text_eq_iff name name).1 refl) refl) (wr.array_read vs) in
      (
        text,
        rw (set_list, made) set,
        read_status-Answers text _ [] ErrCode.ok true answers,
        rw (read_list, listed) got,
      )
