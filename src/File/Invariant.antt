-- ===== src/File/Invariant.antt =====
-- The invariant of a file's data, ranges and tags, and what `GetData` and `UpdateData` do to it.
pub mod Query
pub mod Update
use mathlib.Core.Option
use blue_workspace_build.Base.{
  ℕ, zero, suc, ◌+◌, ◌-◌, ◌*◌, ◌/◌, ◌%◌, ◌^◌, ◌≤◌, ◌<◌, min, max, ◌≡◌, refl, sym, ap, ◌∙◌, ◌≢◌, ◌↔◌,
  ◌⊎◌, inl, inr, Bool, true, false, not, ◌&&◌, ◌||◌, Option, none, some, List, [], ◌∷◌, ◌++◌, map,
  arith, ltb, leb, eqb, if◌then◌else◌, ltb→lt, lt→ltb, eqb_iff, Bool-cases, Option-cases, length,
  get_elem?, take, drop, is_empty, all_of, any_of, last_or, length-append, last_or-append, All,
  All-append, All-mono, length-take, length-drop, take-append-drop, length-map, get_elem?_total,
  drop-append, drop-nil, Text, codes, text_eq, text_lt, text_eq_iff, text_lt_irrefl, text_lt_trans,
  text_lt_total,
}
use blue_workspace_build.Base.Floats.{Floats}
use blue_workspace_build.Base.Map
use blue_workspace_build.Base.Map.{text_key}
use blue_workspace_build.Base.StringSet
use blue_workspace_build.Concept.{ScalarPoint}
use blue_workspace_build.Line.Merge.{IsAscending}
use blue_workspace_build.File.{File}

module _ {fl : Floats} where
  -- What the range and the tag set hold for a tag with these points.
  abbrev pub Describes : List (ScalarPoint fl) → Option (ℕ × ℕ) → Bool → Type 0
  Describes [] range tagged = range ≡ none
  Describes (p ∷ ps) range tagged =
      (range ≡ some (p.step, (last_or p ps).step)) × (tagged ≡ true) × IsAscending (p ∷ ps)

  -- Each tag's points ascend, its range is their first and last step, and it is in the tag set.
  abbrev pub IsFile : File fl → Type 0
  IsFile f =
      (tag : Text)
      → Describes (Map.get_or [] tag f.points) (Map.get tag f.range) (StringSet.contains tag f.tags)
