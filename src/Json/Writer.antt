-- ===== src/Json/Writer.antt =====
-- How the handlers of Scalar/server/src/plugin/Handler write an answer: the part of the JSON library
-- that makes values, with what its documentation says of it, and AddJsonMember, SetResponseError and
-- GetBasicResponse of Scalar/server/src/Util/ScalaryProtocolUtil.h.
use blue_workspace_build.Base.{
  ℕ, ◌^◌, ◌<◌, ◌≡◌, Bool, true, false, Option, some, List, [], ◌∷◌, ◌++◌, map, All, Text, codes,
}
use blue_workspace_build.Base.Floats.{Floats}
use blue_workspace_build.Base.Map
use blue_workspace_build.Base.Map.{text_key}
use blue_workspace_build.Concept.{ErrCode}
use blue_workspace_build.Json.{Json, ◌>>=◌, member}

-- GetBasicResponse.
abbrev pub basic_response : Text
basic_response = codes "{\"body\":{}, \"msg\":\"\", \"errCode\":0, \"result\":true}"

-- The members of an answer, in the order in which they are written.
abbrev pub answer_members : {V : Type 0} → V → V → V → V → List (Text × V)
answer_members body msg code result =
    (codes "body", body)
    ∷ (codes "msg", msg)
    ∷ (codes "errCode", code)
    ∷ (codes "result", result)
    ∷ []

-- The constructors of a value, `AddMember`, the assignment to a member that is there, and the
-- writer. `none` is a failed assertion.
pub record Writer {fl : Floats} (j : Json fl) : Type 1 where
  pub text_value : Text → j.Value
  pub bool_value : Bool → j.Value
  pub int_value : ℕ → j.Value
  pub array_value : List j.Value → j.Value
  pub empty_object : j.Value
  pub add_member : Text → j.Value → j.Value → Option j.Value
  pub set_member : Text → j.Value → j.Value → Option j.Value
  pub dump : j.Value → Text
  -- The value is made of texts, truth values, integers that fit into 63 bits, arrays and objects,
  -- and so it is written as a text that is valid JSON and has it as its value.
  pub IsPlain : j.Value → Type 0
  pub parse-dump : (v : j.Value) → IsPlain v → j.parse (dump v) ≡ some v
  pub text_plain : (t : Text) → IsPlain (text_value t)
  pub text_read : (t : Text) → j.text.get (text_value t) ≡ some t
  pub bool_plain : (b : Bool) → IsPlain (bool_value b)
  pub bool_read : (b : Bool) → j.bool.get (bool_value b) ≡ some b
  pub int_plain : (n : ℕ) → n < 2 ^ 63 → IsPlain (int_value n)
  pub int_read : (n : ℕ) → n < 2 ^ 63 → j.int64.get (int_value n) ≡ some n
  pub array_plain : (vs : List j.Value) → All IsPlain vs → IsPlain (array_value vs)
  pub array_read : (vs : List j.Value) → j.array.get (array_value vs) ≡ some vs
  -- The members of an object, in order; a name finds the first that has it.
  pub Members : j.Value → List (Text × j.Value) → Type 0
  pub found :
      (v : j.Value) (ms : List (Text × j.Value))
      → Members v ms
      → (f : Text → Option j.Value) × (j.object.get v ≡ some f)
        × ((name : Text) → f name ≡ Map.get name ms)
  pub empty-Members : Members empty_object []
  pub empty_plain : IsPlain empty_object
  pub add_member-Members :
      (name : Text) (x v : j.Value) (ms : List (Text × j.Value))
      → Members v ms
      → IsPlain v
      → IsPlain x
      → (w : j.Value) × (add_member name x v ≡ some w)
        × Members w (ms ++ (name, x) ∷ [])
        × IsPlain w
  pub set_member-Members :
      (name : Text) (x y v : j.Value) (ms : List (Text × j.Value))
      → Members v ms
      → IsPlain v
      → IsPlain x
      → Map.get name ms ≡ some y
      → (w : j.Value) × (set_member name x v ≡ some w) × Members w (Map.put name x ms) × IsPlain w
  -- What the text of `GetBasicResponse` is parsed to.
  pub basic :
      (v body : j.Value) × (j.parse basic_response ≡ some v)
      × Members v (answer_members body (text_value []) (int_value 0) (bool_value true))
      × Members body []
      × IsPlain v
      × IsPlain body

-- The numbers of the codes.
unfoldable pub err_code : ErrCode → ℕ
err_code ErrCode.ok = 0
err_code ErrCode.invalid_request_json = 1
err_code ErrCode.request_invalid_param = 2
err_code ErrCode.invalid_path = 3

module _ {fl : Floats} {j : Json fl} (wr : Writer j) where
  -- Calls of AddJsonMember, one after the other.
  unfoldable pub add_members : List (Text × j.Value) → j.Value → Option j.Value
  add_members [] v = some v
  add_members ((name, x) ∷ ms) v = do w ← wr.add_member name x v; add_members ms w

  -- The array of strings of AddJsonMember.
  unfoldable pub texts_value : List Text → j.Value
  texts_value ts = wr.array_value (map wr.text_value ts)

  -- SetResponseError.
  unfoldable pub set_response_error : ErrCode → Text → Text → Option Text
  unfolding err_code
  set_response_error code msg text = do
    document ← j.parse text
    coded ← wr.set_member (codes "errCode") (wr.int_value (err_code code)) document
    told ← wr.set_member (codes "msg") (wr.text_value msg) coded
    failed ← wr.set_member (codes "result") (wr.bool_value false) told
    some (wr.dump failed)

  -- `document["body"]` of an answer with one more member, which is the frame of each SetResponse.
  unfoldable pub set_body : Text → j.Value → Text → Option Text
  unfolding member
  set_body name x text = do
    document ← j.parse text
    body ← member j (codes "body") document
    filled ← wr.add_member name x body
    answer ← wr.set_member (codes "body") filled document
    some (wr.dump answer)

  -- An object that holds exactly these members and can be written.
  abbrev pub Holds : j.Value → List (Text × j.Value) → Type 0
  Holds v ms = wr.Members v ms × wr.IsPlain v

  -- A text that is parsed to an answer with these values.
  abbrev pub Answers : Text → List (Text × j.Value) → Text → ErrCode → Bool → Type 0
  Answers text ms msg code result =
      (v body : j.Value) × (j.parse text ≡ some v)
      × Holds v (
          answer_members body (wr.text_value msg) (wr.int_value (err_code code))
            (wr.bool_value result))
      × Holds body ms
