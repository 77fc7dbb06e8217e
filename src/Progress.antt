-- ===== src/Progress.antt =====
-- The parse states of Scalar/server/src/plugin/ScalarVisuallyServer.cpp: one pass of the loop of
-- `parseWatcher`, and `GetProjectParseStatus`. Whether a future is ready, how far a file has been
-- read and the quotient of two `long double` are parameters.
use blue_workspace_build.Base.{
  ℕ, ◌+◌, ◌%◌, ◌^◌, ◌≤◌, min, ◌≡◌, refl, ap, inl, inr, Bool, true, false, none, some, List, [], ◌∷◌,
  arith, if◌then◌else◌, Bool-cases, Option-cases, all_of, All, Text,
}
use blue_workspace_build.Base.Map
use blue_workspace_build.Base.Map.{Map, text_key}

-- struct ParseState; a future and a file are numbers.
pub record ParseState : Type 0 where
  pub parsed_results : Map Text ℕ
  pub file_infos : List ℕ
  pub data_size : ℕ
  pub percent : ℕ
  pub finish : Bool

abbrev pub new_state : ParseState
new_state = record {
  parsed_results = [];
  file_infos = [];
  data_size = 0;
  percent = 0;
  finish = false;
}

-- The sum of the offsets, as a `uint64_t`.
unfoldable pub parsed_size : (ℕ → ℕ) → ℕ → List ℕ → ℕ
parsed_size offset size [] = size
parsed_size offset size (f ∷ fs) = parsed_size offset ((size + offset f) % 2 ^ 64) fs

-- What is reported of a state: at most 100 percent, and 100 once it is finished.
abbrev pub IsSound : ParseState → Type 0
IsSound s = (s.percent ≤ 100) × (s.finish ≡ true → s.percent ≡ 100)

module _ (ready : ℕ → Bool) (offset : ℕ → ℕ) (percent_of : ℕ → ℕ → ℕ) where
  -- The body of the loop over the states.
  unfoldable pub watch_state : ParseState → ParseState
  unfolding parsed_size
  watch_state s =
      if s.finish
      then s
      else if all_of (λ (r : Text × ℕ). ready r.1) s.parsed_results
      then record s { finish = true; percent = 100 }
      else record s {
        percent = min 100 (percent_of (parsed_size offset 0 s.file_infos) s.data_size);
      }

  -- One pass of `parseWatcher`.
  unfoldable pub watch_pass : Map Text ParseState → Map Text ParseState
  unfolding watch_state
  watch_pass [] = []
  watch_pass ((name, s) ∷ states) = (name, watch_state s) ∷ watch_pass states

  watch_state-IsSound : (s : ParseState) → IsSound s → IsSound (watch_state s)
  unfolding watch_state
  watch_state-IsSound s h = ground (arith, h.0, h.1)

  -- If every state is at most at 100 percent, and at 100 once it is finished, the same holds
  -- after a pass.
  pub watch_pass-IsSound :
      (states : Map Text ParseState)
      → All (λ (e : Text × ParseState). IsSound e.1) states
      → All (λ (e : Text × ParseState). IsSound e.1) (watch_pass states)
  unfolding watch_pass
  watch_pass-IsSound [] h = tt
  watch_pass-IsSound ((name, s) ∷ states) h =
      (watch_state-IsSound s h.0, watch_pass-IsSound states h.1)

-- GetProjectParseStatus.
unfoldable pub get_project_parse_status :
    Text → Map Text ParseState → (Text × Bool × ℕ) × Map Text ParseState
get_project_parse_status name states = elim (Map.get name states) [
  | none ↦ ((name, true, 100), states)
  | some s ↦ ((name, s.finish, s.percent), if s.finish then Map.erase name states else states)
]

-- When a project is reported as finished, its state is dropped, and a further call reports it as
-- finished again, with 100 percent.
pub get_project_parse_status_finished :
    (name : Text) (percent : ℕ) (states after : Map Text ParseState)
    → get_project_parse_status name states ≡ ((name, true, percent), after)
    → (Map.get name after ≡ none)
      × (get_project_parse_status name after ≡ ((name, true, 100), after))
unfolding get_project_parse_status
get_project_parse_status_finished name percent states after h =
    (gone, rw (get_project_parse_status, gone) refl)
  where
    gone : Map.get name after ≡ none
    gone = elim (Option-cases (Map.get name states)) [
      | inl e ↦ rw⁻¹ (ap (λ r. r.1) (rw (get_project_parse_status, e) at h)) e
      | inr (s, e) ↦ elim (Bool-cases s.finish) [
        | inl f ↦
            rw⁻¹ (ap (λ r. r.1) (rw (get_project_parse_status, e, f) at h))
              (rw (Map.get-erase, Map.same_refl name) refl)
        | inr f ↦ cc (rw (get_project_parse_status, e, f) at h)
      ]
    ]
