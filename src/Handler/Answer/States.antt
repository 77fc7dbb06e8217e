-- ===== src/Handler/Answer/States.antt =====
-- ScalarVisuallyGetParseState of Scalar/server/src/plugin/Handler: the check of a request always
-- ends, and every request is answered.
use mathlib.Core.Option.{some-injective}
use blue_workspace_build.Base.{
  ℕ, ◌^◌, ◌≤◌, ◌<◌, ◌≡◌, refl, sym, ap, ◌∙◌, inl, inr, Bool, true, false, some, List, [], ◌∷◌,
  arith, Bool-cases, Option-cases, All, Text, codes, text_eq,
}
use blue_workspace_build.Base.Floats.{Floats}
use blue_workspace_build.Base.Map
use blue_workspace_build.Base.Map.{Map, text_key}
use blue_workspace_build.Concept.{ErrCode}
use blue_workspace_build.Json.{
  Json, Accessor, both, both-true, all_checked, has_member, member, member_is, all_members,
  get_member_total, all_members_total,
}
use blue_workspace_build.Json.Writer.{Writer, basic_response, err_code}
use blue_workspace_build.Json.Answers.{basic-Answers, set_response_error-Answers}
use blue_workspace_build.Progress.{ParseState, IsSound, get_project_parse_status}
use blue_workspace_build.Handler.{Parsed, accepted, rejected, parse_request, read_checked}
use blue_workspace_build.Handler.ImportFile.{
  parse_parse_state, check_parse_state, read_parse_state, query_states,
}
use blue_workspace_build.Handler.Answer.{
  error_message, answer_parse_state, run_get_parse_state, write_state,
}
use blue_workspace_build.Handler.Answer.Read.{
  read_status, read_list, read_status-Answers, set_list-Reads,
}
use blue_workspace_build.Handler.Answer.Served.{read_state, write_state-Reads, map_same}

-- A test that never fails is done with every entry.
all_checked_total :
    {A : Type 0} (test : A → Bool) (xs : List A)
    → (b : Bool) × (all_checked (λ x. some (test x)) xs ≡ some b)
unfolding all_checked both
all_checked_total test [] = (true, refl)
all_checked_total test (x ∷ xs) =
    let (b, e) = all_checked_total test xs in
    elim (Bool-cases (test x)) [
      | inl h ↦ (b, rw (all_checked, both, h) e)
      | inr h ↦ (false, rw (all_checked, both, h) refl)
    ]

module _ {fl : Floats} (j : Json fl) where
  -- The test of a member of an object.
  member_is_total :
      {A : Type 0} (name : Text) (access : Accessor j.Value A) (v : j.Value)
      → j.object.is v ≡ true
      → (b : Bool) × (member_is j name access v ≡ some b)
  unfolding member_is has_member member both
  member_is_total name access v h =
      let (f, got) = j.object.total v h in
      elim (Option-cases (f name)) [
        | inl e ↦ (false, rw (member_is, has_member, member, got, e) refl)
        | inr (x, e) ↦ (access.is x, rw (member_is, has_member, member, got, e) refl)
      ]

  check_parse_state_total : (v : j.Value) → (b : Bool) × (check_parse_state j v ≡ some b)
  unfolding check_parse_state both all_members
  check_parse_state_total v = elim (Bool-cases (j.object.is v)) [
    | inr h ↦ (false, rw (check_parse_state, h) refl)
    | inl h ↦
        let (there, e) = member_is_total (codes "projectNameLists") j.array v h in
        elim (Bool-cases there) [
          | inr h1 ↦ (false, rw (check_parse_state, h, e, h1) refl)
          | inl h1 ↦
              let tested = e ∙ ap some h1 in
              let (xs, got) = get_member_total j (codes "projectNameLists") j.array v tested in
              let (b, done) = all_checked_total j.text.is xs in
              (b, rw (check_parse_state, h, tested, all_members, got) done)
        ]
  ]

  -- Every text is read as a request or rejected.
  pub parse_parse_state_total :
      (body : Text) → (p : Parsed (List Text)) × (parse_parse_state j body ≡ some p)
  unfolding parse_parse_state parse_request read_checked read_parse_state check_parse_state both
  parse_parse_state_total body = elim (Option-cases (j.parse body)) [
    | inl e ↦ (rejected ErrCode.invalid_request_json, rw (parse_parse_state, parse_request, e) refl)
    | inr (v, e) ↦
        let (b, checked) = check_parse_state_total v in
        elim (Bool-cases b) [
          | inr h ↦ (
            rejected ErrCode.request_invalid_param,
            rw (parse_parse_state, parse_request, e, read_checked, checked, h) refl,
          )
          | inl h ↦
              let (names, read) = read_total v (checked ∙ ap some h) in
              (
                accepted names,
                rw (parse_parse_state, parse_request, e, read_checked, checked, h, read) refl,
              )
        ]
  ]
    where
      read_total :
          (v : j.Value)
          → check_parse_state j v ≡ some true
          → (names : List Text) × (read_parse_state j v ≡ some names)
      read_total v h =
          let (_, h1) = both-true (some (j.object.is v)) _ h in
          let (_, listed) = both-true (member_is j (codes "projectNameLists") j.array v) _ h1 in
          let (items, names, got, read, _) =
            all_members_total j (codes "projectNameLists") (λ item. some (j.text.is item))
              j.text.get v (λ x e. j.text.total x (some-injective _ _ e)) listed in
          (names, rw (read_parse_state, got) read)

-- A state that is found is sound.
get-IsSound :
    (name : Text) (s : ParseState) (states : Map Text ParseState)
    → All (λ (e : Text × ParseState). IsSound e.1) states
    → Map.get name states ≡ some s
    → IsSound s
unfolding Map.get
get-IsSound name s [] all h = cc
get-IsSound name s ((other, t) ∷ states) all h = elim (Bool-cases (text_eq other name)) [
  | inl e ↦ rw (sym (some-injective _ _ (rw e at h))) all.0
  | inr e ↦ get-IsSound name s states all.1 (rw e at h)
]

erase-IsSound :
    (name : Text) (states : Map Text ParseState)
    → All (λ (e : Text × ParseState). IsSound e.1) states
    → All (λ (e : Text × ParseState). IsSound e.1) (Map.erase name states)
unfolding Map.erase
erase-IsSound name [] all = tt
erase-IsSound name ((other, t) ∷ states) all = elim (Bool-cases (text_eq other name)) [
  | inl e ↦ rw e (erase-IsSound name states all.1)
  | inr e ↦ rw e (all.0, erase-IsSound name states all.1)
]

-- What is reported of sound states is at most 100 percent, and they stay sound.
status-IsSound :
    (name : Text) (states : Map Text ParseState)
    → All (λ (e : Text × ParseState). IsSound e.1) states
    → ((get_project_parse_status name states).0.2 ≤ 100)
      × All (λ (e : Text × ParseState). IsSound e.1) (get_project_parse_status name states).1
unfolding get_project_parse_status
status-IsSound name states all = elim (Option-cases (Map.get name states)) [
  | inl e ↦ rw (get_project_parse_status, e) (omega arith, all)
  | inr (s, e) ↦
      let sound = get-IsSound name s states all e in
      elim (Bool-cases s.finish) [
        | inl f ↦ rw (get_project_parse_status, e, f) (sound.0, erase-IsSound name states all)
        | inr f ↦ rw (get_project_parse_status, e, f) (sound.0, all)
      ]
]

query_states-small :
    (names : List Text) (states : Map Text ParseState)
    → All (λ (e : Text × ParseState). IsSound e.1) states
    → All (λ (r : Text × Bool × ℕ). r.2 < 2 ^ 63) (query_states names states).0
unfolding query_states
query_states-small [] states all = tt
query_states-small (name ∷ names) states all =
    let (small, after) = status-IsSound name states all in
    (omega (arith, small), query_states-small names _ after)

-- What the answer to a request that was read or rejected tells a client: the error of a rejected
-- one with its message, and the state of each project that was asked for, in order.
pub data Tells {fl : Floats} (j : Json fl) (message : ErrCode → Text) (states : Map Text ParseState)
    : Parsed (List Text) → Bool × Text × Map Text ParseState → Type 0 where
  told :
      {code : ErrCode} {text : Text}
      → read_status j text ≡ some (err_code code, false, message code)
      → Tells j message states (rejected code) (false, text, states)
  served :
      {names : List Text} {text : Text}
      → read_status j text ≡ some (0, true, [])
      → read_list j (codes "stateList") (read_state j) text ≡ some (query_states names states).0
      → Tells j message states (accepted names) (true, text, (query_states names states).1)

module _ {fl : Floats} {j : Json fl} (wr : Writer j) where
  answer_parse_state-Tells :
      (parse_error : Text → Text) (body : Text) (p : Parsed (List Text))
      (states : Map Text ParseState)
      → All (λ (e : Text × ParseState). IsSound e.1) states
      → (r : Bool × Text × Map Text ParseState) × (answer_parse_state wr parse_error body p states
          ≡ some r)
        × Tells j (error_message parse_error body) states p r
  unfolding answer_parse_state
  answer_parse_state-Tells parse_error body (rejected code) states all =
      let msg = error_message parse_error body code in
      let (text, set, answers) =
        set_response_error-Answers wr basic_response [] [] ErrCode.ok true code msg
          (basic-Answers wr) in
      (
        (false, text, states),
        rw (answer_parse_state, set) refl,
        told (read_status-Answers wr text [] msg code false answers),
      )
  answer_parse_state-Tells parse_error body (accepted names) states all =
      let replies = (query_states names states).0 in
      let (text, set, good, listed) =
        set_list-Reads wr (λ (r : Text × Bool × ℕ). r.2 < 2 ^ 63) (codes "stateList")
          (write_state wr) (read_state j) (λ r. r) replies (query_states-small names states all)
          (write_state-Reads wr) in
      (
        (true, text, (query_states names states).1),
        rw (answer_parse_state, set) refl,
        served good (listed ∙ ap some (map_same replies)),
      )

  -- While every state is sound, every request for parse states is answered, whatever its text is. A
  -- request that is rejected has the value false and leaves the states, and a client reads its
  -- error and message; for any other a client reads the state of each project asked for, in order,
  -- under a good status.
  pub run_get_parse_state-Tells :
      (parse_error : Text → Text) (body : Text) (states : Map Text ParseState)
      → All (λ (e : Text × ParseState). IsSound e.1) states
      → (p : Parsed (List Text)) × (r : Bool × Text × Map Text ParseState) × (parse_parse_state j
            body
          ≡ some p)
        × (run_get_parse_state wr parse_error body states ≡ some r)
        × Tells j (error_message parse_error body) states p r
  unfolding run_get_parse_state
  run_get_parse_state-Tells parse_error body states all =
      let (p, parsed) = parse_parse_state_total j body in
      let (r, made, tells) = answer_parse_state-Tells parse_error body p states all in
      (p, r, parsed, rw (run_get_parse_state, parsed) made, tells)
