-- ===== src/Json/Answers.antt =====
-- What is read back of the objects, the arrays and the answers that Json/Writer.antt writes.
use mathlib.Core.List.{append_assoc, append-nil}
use blue_workspace_build.Base.{
  ◌^◌, ◌<◌, ◌≡◌, refl, sym, ◌∙◌, Bool, true, false, Option, some, List, [], ◌∷◌, ◌++◌, map, arith,
  All, Text, codes,
}
use blue_workspace_build.Base.Floats.{Floats}
use blue_workspace_build.Base.Map
use blue_workspace_build.Base.Map.{text_key}
use blue_workspace_build.Concept.{ErrCode}
use blue_workspace_build.Json.{Json, Accessor, member, get_member, map_all}
use blue_workspace_build.Json.Writer.{
  Writer, basic_response, err_code, add_members, texts_value, set_response_error, set_body, Holds,
  Answers,
}

pub err_code_small : (code : ErrCode) → err_code code < 2 ^ 63
unfolding err_code
err_code_small ErrCode.ok = omega arith
err_code_small ErrCode.invalid_request_json = omega arith
err_code_small ErrCode.request_invalid_param = omega arith
err_code_small ErrCode.invalid_path = omega arith

module _ {fl : Floats} {j : Json fl} (wr : Writer j) where
  -- The member of an object that was built.
  pub member-Holds :
      (name : Text) (v x : j.Value) (ms : List (Text × j.Value))
      → Holds wr v ms
      → Map.get name ms ≡ some x
      → member j name v ≡ some x
  unfolding member
  member-Holds name v x ms h e =
      let (f, got, same) = wr.found v ms h.0 in rw (member, got) (same name ∙ e)

  -- Its value.
  pub get_member-Holds :
      {A : Type 0} (name : Text) (access : Accessor j.Value A) (v x : j.Value)
      (ms : List (Text × j.Value)) (a : A)
      → Holds wr v ms
      → Map.get name ms ≡ some x
      → access.get x ≡ some a
      → get_member j name access v ≡ some a
  unfolding get_member
  get_member-Holds name access v x ms a h e got = rw (get_member, member-Holds name v x ms h e) got

  -- Members that were added stand behind those that were there.
  pub add_members-Holds :
      (ns : List (Text × j.Value)) (v : j.Value) (ms : List (Text × j.Value))
      → Holds wr v ms
      → All (λ n. wr.IsPlain n.1) ns
      → (w : j.Value) × (add_members wr ns v ≡ some w) × Holds wr w (ms ++ ns)
  unfolding add_members
  add_members-Holds [] v ms h plain = (v, refl, rw (append-nil ms) h)
  add_members-Holds ((name, x) ∷ ns) v ms h plain =
      let (u, added, held, good) = wr.add_member-Members name x v ms h.0 h.1 plain.0 in
      let (w, rest, all) = add_members-Holds ns u (ms ++ (name, x) ∷ []) (held, good) plain.1 in
      (w, rw (add_members, added) rest, rw (sym (append_assoc ms ((name, x) ∷ []) ns)) all)

  -- An object is built of its members.
  pub add_members-empty :
      (ns : List (Text × j.Value))
      → All (λ n. wr.IsPlain n.1) ns
      → (w : j.Value) × (add_members wr ns wr.empty_object ≡ some w) × Holds wr w ns
  add_members-empty ns plain =
      add_members-Holds ns wr.empty_object [] (wr.empty-Members, wr.empty_plain) plain

  -- What is written of every entry is read of every entry.
  pub map_all-Reads :
      {A B : Type 0} (P : A → Type 0) (write : A → Option j.Value) (read : j.Value → Option B)
      (f : A → B)
      → ((a : A) → P a → (v : j.Value) × (write a ≡ some v) × wr.IsPlain v × (read v ≡ some (f a)))
      → (xs : List A) → All P xs
      → (vs : List j.Value) × (map_all write xs ≡ some vs)
        × All wr.IsPlain vs
        × (map_all read vs ≡ some (map f xs))
  unfolding map_all
  map_all-Reads P write read f h [] all = ([], refl, tt, refl)
  map_all-Reads P write read f h (x ∷ xs) all =
      let (v, made, plain, got) = h x all.0 in
      let (vs, rest, plains, gots) = map_all-Reads P write read f h xs all.1 in
      (v ∷ vs, rw (map_all, made, rest) refl, (plain, plains), rw (map_all, got, gots) refl)

  -- An array of strings.
  pub texts_value-plain : (ts : List Text) → wr.IsPlain (texts_value wr ts)
  unfolding texts_value
  texts_value-plain ts = wr.array_plain (map wr.text_value ts) (plains ts)
    where
      plains : (ts : List Text) → All wr.IsPlain (map wr.text_value ts)
      plains [] = tt
      plains (t ∷ ts) = (wr.text_plain t, plains ts)

  pub texts_value-read :
      (ts : List Text)
      → (vs : List j.Value) × (j.array.get (texts_value wr ts) ≡ some vs)
        × (map_all j.text.get vs ≡ some ts)
  unfolding texts_value map_all
  texts_value-read ts = (map wr.text_value ts, wr.array_read (map wr.text_value ts), reads ts)
    where
      reads : (ts : List Text) → map_all j.text.get (map wr.text_value ts) ≡ some ts
      reads [] = refl
      reads (t ∷ ts) = rw (map_all, wr.text_read t, reads ts) refl

  -- The answer that every handler starts from.
  pub basic-Answers : Answers wr basic_response [] [] ErrCode.ok true
  unfolding err_code
  basic-Answers =
      let (v, body, parsed, held, empty, plain, plain_body) = wr.basic in
      (v, body, parsed, (held, plain), (empty, plain_body))

  -- One more member of the body.
  pub set_body-Answers :
      (name : Text) (x : j.Value) (text : Text) (ms : List (Text × j.Value)) (msg : Text)
      (code : ErrCode) (result : Bool)
      → Answers wr text ms msg code result
      → wr.IsPlain x
      → (t : Text) × (set_body wr name x text ≡ some t)
        × Answers wr t (ms ++ (name, x) ∷ []) msg code result
  unfolding set_body Map.get Map.put
  set_body-Answers name x text ms msg code result (v, body, parsed, held, inner) plain =
      let at_body = member-Holds (codes "body") v body _ held refl in
      let (filled, added, filled_members, filled_plain) =
        wr.add_member-Members name x body ms inner.0 inner.1 plain in
      let (w, set, members, good) =
        wr.set_member-Members (codes "body") filled body v _ held.0 held.1 filled_plain refl in
      (
        wr.dump w,
        rw (set_body, parsed, at_body, added, set) refl,
        (w, filled, wr.parse-dump w good, (members, good), (filled_members, filled_plain)),
      )

  -- An error is told with its code and its message, and the body is kept.
  pub set_response_error-Answers :
      (text : Text) (ms : List (Text × j.Value)) (msg : Text) (code : ErrCode) (result : Bool)
      (new_code : ErrCode) (new_msg : Text)
      → Answers wr text ms msg code result
      → (t : Text) × (set_response_error wr new_code new_msg text ≡ some t)
        × Answers wr t ms new_msg new_code false
  unfolding set_response_error Map.get Map.put err_code
  set_response_error-Answers text ms msg code result new_code new_msg
        (v, body, parsed, held, inner) =
      let (u, set, members, good) =
        wr.set_member-Members (codes "errCode") (wr.int_value (err_code new_code))
          (wr.int_value (err_code code)) v _ held.0 held.1
          (wr.int_plain _ (err_code_small new_code)) refl in
      let (t, set1, members1, good1) =
        wr.set_member-Members (codes "msg") (wr.text_value new_msg) (wr.text_value msg) u _ members
          good (wr.text_plain new_msg) refl in
      let (w, set2, members2, good2) =
        wr.set_member-Members (codes "result") (wr.bool_value false) (wr.bool_value result) t _
          members1 good1 (wr.bool_plain false) refl in
      (
        wr.dump w,
        rw (set_response_error, parsed, set, set1, set2) refl,
        (w, body, wr.parse-dump w good2, (members2, good2), inner),
      )
