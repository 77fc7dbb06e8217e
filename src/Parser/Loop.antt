-- ===== src/Parser/Loop.antt =====
-- `ParserData` of Scalar/server/src/parser/FileParser.cpp. How a record is read and what scalar data
-- it holds are the virtual calls of a parser, and parameters here.
use blue_workspace_build.Base.{
  ℕ, zero, suc, ◌+◌, ◌-◌, ◌<◌, ◌≡◌, ◌≢◌, inl, inr, Bool, true, false, Option, none, some, List, [],
  ◌∷◌, arith, Option-cases, length, drop, length-drop, Text,
}
use blue_workspace_build.Base.Floats.{Floats}
use blue_workspace_build.Concept.{ScalarPoint}
use blue_workspace_build.Graphs.{Server}
use blue_workspace_build.Parser.Cache.{Cache, update_cache}

-- What a call of `ParserData` leads to: its value with the offset, the cache and the server that it
-- leaves, or an access outside a smoother's window.
pub data Outcome (fl : Floats) : Type 0 where
  returned : Bool → ℕ → Cache fl → Server fl → Outcome fl
  overrun : Outcome fl
  out_of_fuel : Outcome fl

-- The scalar data of one record: points by their tags.
abbrev pub ScalarData : Floats → Type 0
ScalarData fl = List (Text × List (ScalarPoint fl))

module _ {fl : Floats} (file : Text) where
  -- `UpdateData` for each tag; it stops at the first failure.
  unfoldable pub update_all :
      ScalarData fl → Cache fl → Server fl → Option (Bool × Cache fl × Server fl)
  unfolding update_cache
  update_all [] c s = some (true, c, s)
  update_all ((tag, points) ∷ tags) c s = elim (update_cache file tag points false c s) [
    | none ↦ none
    | some (true, d, t) ↦ update_all tags d t
    | some (false, d, t) ↦ some (false, d, t)
  ]

  -- The forced `UpdateData` behind the loop, whose result is not looked at.
  unfoldable pub finish : Bool → ℕ → Cache fl → Server fl → Outcome fl
  unfolding update_cache
  finish flag offset c s = elim (update_cache file [] [] true c s) [
    | none ↦ overrun
    | some (ok, d, t) ↦ returned flag offset d t
  ]

  -- The body of the loop behind the reading of a record, with what the loop does next.
  unfoldable pub next :
      (Bool → Cache fl → Server fl → Outcome fl)
      → ℕ
      → ScalarData fl
      → Bool
      → Cache fl
      → Server fl
      → Outcome fl
  unfolding update_all
  next continue offset [] flag c s = continue flag c s
  next continue offset (e ∷ es) flag c s = elim (update_all (e ∷ es) c s) [
    | none ↦ overrun
    | some (true, d, t) ↦ continue false d t
    | some (false, d, t) ↦ returned false offset d t
  ]

  module _ (scalars : List ℕ → Option (ScalarData fl)) where
    -- The loop; the input is what is left of a file of `size` bytes.
    unfoldable pub parse_loop :
        (List ℕ → Option (List ℕ × List ℕ))
        → ℕ
        → ℕ
        → List ℕ
        → ℕ
        → Bool
        → Cache fl
        → Server fl
        → Outcome fl
    unfolding next finish
    parse_loop read size zero input offset flag c s = out_of_fuel
    parse_loop read size (suc fuel) input offset flag c s = elim (read input) [
      | none ↦ finish flag offset c s
      | some (payload, rest) ↦ elim (scalars payload) [
        | none ↦ finish flag offset c s
        | some tags ↦
            let behind = size - length rest in
            next (parse_loop read size fuel rest behind) behind tags flag c s
      ]
    ]

    -- ParserData, of the bytes of the file; `none` is a file that cannot be opened.
    unfoldable pub parser_data :
        (List ℕ → Option (List ℕ × List ℕ))
        → Option (List ℕ)
        → ℕ
        → Cache fl
        → Server fl
        → Outcome fl
    unfolding parse_loop
    parser_data read none offset c s = returned true offset c s
    parser_data read (some bytes) offset c s =
        parse_loop read (length bytes) (suc (length bytes)) (drop offset bytes) offset true c s

    -- The parse of a list of records, each with its size in the file.
    unfoldable pub parse_records : List (ℕ × List ℕ) → ℕ → Bool → Cache fl → Server fl → Outcome fl
    unfolding next finish
    parse_records [] offset flag c s = finish flag offset c s
    parse_records ((size, payload) ∷ rs) offset flag c s = elim (scalars payload) [
      | none ↦ finish flag offset c s
      | some tags ↦ next (parse_records rs (offset + size)) (offset + size) tags flag c s
    ]

    finish_ends :
        (flag : Bool) (offset : ℕ) (c : Cache fl) (s : Server fl)
        → finish flag offset c s ≢ out_of_fuel
    unfolding finish
    finish_ends flag offset c s h = elim (Option-cases (update_cache file [] [] true c s)) [
      | inl e ↦ cc (rw (finish, e) at h)
      | inr (r, e) ↦ cc (rw (finish, e) at h)
    ]

    next_ends :
        (continue : Bool → Cache fl → Server fl → Outcome fl) (offset : ℕ) (tags : ScalarData fl)
        (flag : Bool) (c : Cache fl) (s : Server fl)
        → ((g : Bool) (d : Cache fl) (t : Server fl) → continue g d t ≢ out_of_fuel)
        → next continue offset tags flag c s ≢ out_of_fuel
    unfolding next
    next_ends continue offset [] flag c s ends h = ends flag c s h
    next_ends continue offset (e ∷ es) flag c s ends h =
        elim (Option-cases (update_all (e ∷ es) c s)) [
          | inl f ↦ cc (rw (next, f) at h)
          | inr ((true, d, t), f) ↦ ends false d t (rw (next, f) at h)
          | inr ((false, d, t), f) ↦ cc (rw (next, f) at h)
        ]

    module _ (read : List ℕ → Option (List ℕ × List ℕ)) where
      -- A record leaves less input.
      abbrev pub Shrinks : Type 0
      Shrinks =
          (input payload rest : List ℕ)
          → read input ≡ some (payload, rest)
          → length rest < length input

      parse_loop_ends :
          (size fuel : ℕ) (input : List ℕ) (offset : ℕ) (flag : Bool) (c : Cache fl) (s : Server fl)
          → Shrinks
          → length input < fuel
          → parse_loop read size fuel input offset flag c s ≢ out_of_fuel
      unfolding parse_loop
      parse_loop_ends size zero input offset flag c s shrinks h = absurd (omega arith)
      parse_loop_ends size (suc fuel) input offset flag c s shrinks h =
          elim (Option-cases (read input)) [
            | inl e ↦ rw (parse_loop, e) (finish_ends flag offset c s)
            | inr ((payload, rest), e) ↦ elim (Option-cases (scalars payload)) [
              | inl f ↦ rw (parse_loop, e, f) (finish_ends flag offset c s)
              | inr (tags, f) ↦
                  rw (parse_loop, e, f)
                    (next_ends _ _ tags flag c s (λ g d t.
                      parse_loop_ends size fuel rest _ g d t shrinks
                        (omega (arith, shrinks input payload rest e))))
            ]
          ]

      -- If each record that is read leaves less input, then the loop of `ParserData` ends for every
      -- file, offset, cache and server: the length of the file is enough fuel.
      pub parser_data_ends :
          (content : Option (List ℕ)) (offset : ℕ) (c : Cache fl) (s : Server fl)
          → Shrinks
          → parser_data read content offset c s ≢ out_of_fuel
      unfolding parser_data
      parser_data_ends none offset c s shrinks h = cc
      parser_data_ends (some bytes) offset c s shrinks h =
          parse_loop_ends (length bytes) (suc (length bytes)) (drop offset bytes) offset true c s
            shrinks (omega (arith, length-drop offset bytes)) h
