-- ===== src/Graphs/Polls.antt =====
-- A client that asks for the new tags again and again, as the handler of
-- Scalar/server/src/plugin/Handler/ScalarVisuallyGetIncrementalTag.cpp lets it, over `GetIncremental`
-- of Scalar/server/src/plugin/ScalarVisuallyServer.cpp.
use blue_workspace_build.Base.{
  ℕ, zero, suc, ◌+◌, ◌^◌, ◌≤◌, ◌<◌, ◌≡◌, refl, sym, ap, ◌∙◌, inl, inr, [], ◌∷◌, ◌++◌, arith, ltb,
  Bool-cases, length, length-append, Text,
}
use blue_workspace_build.Base.Floats.{Floats}
use blue_workspace_build.Base.Map.{Map}
use blue_workspace_build.Base.StringSet.{StringSet}
use blue_workspace_build.Graphs.{Server, drain, get_incremental}
use blue_workspace_build.Graphs.Files.{total_files, get_incremental_lem}

-- A report takes at least one entry, if there is one.
drain_some : (count : ℕ) (m : Map Text StringSet) → 0 < length m → 0 < length (drain count m).0
unfolding drain
drain_some count [] h = absurd (omega arith)
drain_some count ((tag, files) ∷ m) h = ground arith

total_files-append :
    (m o : Map Text StringSet) → total_files (m ++ o) ≡ total_files m + total_files o
unfolding total_files
total_files-append [] o = omega arith
total_files-append ((tag, files) ∷ m) o = omega (arith, total_files-append m o)

no_entries : (m : Map Text StringSet) → length m ≤ 0 → m ≡ []
no_entries [] h = refl
no_entries (e ∷ m) h = absurd (omega arith)

module _ {fl : Floats} where
  -- What a number of reports hold together, and the server behind them.
  unfoldable pub poll : ℕ → Server fl → Map Text StringSet × Server fl
  poll zero s = ([], s)
  poll (suc count) s =
      let (out, t) = get_incremental s in let (later, u) = poll count t in (out ++ later, u)

  get_incremental_some :
      (s : Server fl) → 0 < length s.incremental → 0 < length (get_incremental s).0
  unfolding get_incremental
  get_incremental_some s h = drain_some 0 s.incremental h

  -- As many reports as there are entries with new tags, whose files number fewer than 2 ^ 64, give
  -- each entry exactly once and in order, and leave none.
  pub poll-drained :
      (count : ℕ) (s : Server fl)
      → total_files s.incremental < 2 ^ 64
      → length s.incremental ≤ count
      → ((poll count s).0 ≡ s.incremental) × ((poll count s).1.incremental ≡ [])
  unfolding poll
  poll-drained zero s b h = let none_left = no_entries s.incremental h in (sym none_left, none_left)
  poll-drained (suc count) s b h =
      let (all, _) = get_incremental_lem s b in
      let out = (get_incremental s).0 in
      let rest = (get_incremental s).1.incremental in
      let lengths = sym (length-append out rest) ∙ ap length all in
      let files = sym (total_files-append out rest) ∙ ap total_files all in
      let fewer : length rest ≤ count = elim (Bool-cases (ltb 0 (length s.incremental))) [
        | inl f ↦ let moved = get_incremental_some s (ground (arith, f)) in omega arith
        | inr f ↦ ground (arith, f, lengths)
      ] in
      let (later, nothing) = poll-drained count (get_incremental s).1 (omega arith) fewer in
      (ap (◌++◌ out) later ∙ all, nothing)
