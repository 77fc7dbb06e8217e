-- ===== src/Pipeline.antt =====
-- The way of the points of a log from the parser through the cache and the graphs to the object of
-- its file, as one list of entries that are appended in order: `ParserData` and `UpdateData` of
-- Scalar/server/src/parser/FileParser.cpp, `UpdateGraph` and `UpdateData` of a file.
pub mod Deliver
pub mod Parse
pub mod Answer
pub mod Follow
pub mod Grow
pub mod Begin
use blue_workspace_build.Base.{
  ℕ, zero, suc, ◌+◌, ◌-◌, ◌*◌, ◌/◌, ◌%◌, ◌^◌, ◌≤◌, ◌<◌, min, max, ◌≡◌, refl, sym, ap, ◌∙◌, ◌≢◌, ◌↔◌,
  ◌⊎◌, inl, inr, Bool, true, false, not, ◌&&◌, ◌||◌, Option, none, some, List, [], ◌∷◌, ◌++◌, map,
  arith, ltb, leb, eqb, if◌then◌else◌, ltb→lt, lt→ltb, eqb_iff, Bool-cases, Option-cases, length,
  get_elem?, take, drop, is_empty, all_of, any_of, last_or, length-append, last_or-append, All,
  All-append, All-mono, length-take, length-drop, take-append-drop, length-map, get_elem?_total,
  drop-append, drop-nil, Text, codes, text_eq, text_lt, text_eq_iff, text_lt_irrefl, text_lt_trans,
  text_lt_total,
}
use blue_workspace_build.Base.Floats.{Floats}
use blue_workspace_build.Base.Map
use blue_workspace_build.Base.Map.{text_key, nat_key}
use blue_workspace_build.Base.StringSet
use blue_workspace_build.Concept.{ScalarPoint}
use blue_workspace_build.File.{File, FileType, append_points}
use blue_workspace_build.Manager.{Stored, plain}
use blue_workspace_build.Graphs.{Graph, Server, inner_file}
use blue_workspace_build.Parser.Cache.{Entry}
use blue_workspace_build.Parser.Loop.{ScalarData}

module _ {fl : Floats} where
  -- The file behind new points of a tag.
  unfoldable pub push : Text → List (ScalarPoint fl) → File fl → File fl
  unfolding append_points
  push tag [] f = f
  push tag (p ∷ ps) f = append_points tag (p ∷ ps) f

  unfoldable pub push_all : List (Entry fl) → File fl → File fl
  unfolding push
  push_all [] f = f
  push_all (e ∷ es) f = push_all es (push e.tag e.points f)

  -- The entries of the data of one record; those under the empty tag are left out.
  unfoldable pub entries_of : Text → ScalarData fl → List (Entry fl)
  entries_of file [] = []
  entries_of file (([], points) ∷ tags) = entries_of file tags
  entries_of file ((b ∷ bs, points) ∷ tags) =
      record { file = file; tag = b ∷ bs; points = points } ∷ entries_of file tags

  -- A record that can be parsed.
  abbrev pub Parses : (List ℕ → Option (ScalarData fl)) → ℕ × List ℕ → Type 0
  Parses scalars r = (tags : ScalarData fl) × (scalars r.1 ≡ some tags)

  -- The entries of the records in front of the first one that cannot be parsed.
  unfoldable pub record_entries :
      Text → (List ℕ → Option (ScalarData fl)) → List (ℕ × List ℕ) → List (Entry fl)
  unfolding entries_of
  record_entries file scalars [] = []
  record_entries file scalars (r ∷ rs) = elim (scalars r.1) [
    | none ↦ []
    | some tags ↦ entries_of file tags ++ record_entries file scalars rs
  ]

  -- The points of a tag in a list of entries.
  unfoldable pub tag_points : Text → List (Entry fl) → List (ScalarPoint fl)
  tag_points tag [] = []
  tag_points tag (e ∷ es) =
      let rest = tag_points tag es in if text_eq e.tag tag then e.points ++ rest else rest

  -- The server has the file `f`, which is imported and has no smoothers, under the path, and the
  -- graph of each of its tags has the path.
  pub record Imports (path : Text) (i : ℕ) (f : File fl) (s : Server fl) : Type 0 where
    pub known : StringSet.contains path s.manager.paths ≡ true
    pub pointer : Map.get path s.manager.files ≡ some (some i)
    pub object : Map.get i s.manager.heap ≡ some (plain f)
    pub normal : f.type ≡ FileType.normal
    pub imported : f.imported ≡ true
    pub plain_data : f.smoother ≡ []
    pub named : (tag : Text) (g : Graph) → Map.get tag s.graphs ≡ some g → g.tag ≡ tag
    pub charted :
        (tag : Text)
        → StringSet.contains tag f.tags ≡ true
        → (g : Graph) × (Map.get tag s.graphs ≡ some g) × (inner_file path g ≡ true)
