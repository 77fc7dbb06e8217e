-- ===== src/Import.antt =====
-- Scalar/server/src/plugin/Handler/ScalarVisuallyImportFileHandler.cpp: which files a request imports.
-- The file system is a parameter; a scan takes it as it is at one moment, and the exceptions of the
-- file system are left out.
pub mod Scan
use mathlib.Core.Option
use blue_workspace_build.Base.{
  ℕ, zero, suc, ◌+◌, ◌-◌, ◌*◌, ◌/◌, ◌%◌, ◌^◌, ◌≤◌, ◌<◌, min, max, ◌≡◌, refl, sym, ap, ◌∙◌, ◌≢◌, ◌↔◌,
  ◌⊎◌, inl, inr, Bool, true, false, not, ◌&&◌, ◌||◌, Option, none, some, List, [], ◌∷◌, ◌++◌, map,
  arith, ltb, leb, eqb, if◌then◌else◌, ltb→lt, lt→ltb, eqb_iff, Bool-cases, Option-cases, length,
  get_elem?, take, drop, is_empty, all_of, any_of, last_or, length-append, last_or-append, All,
  All-append, All-mono, length-take, length-drop, take-append-drop, length-map, get_elem?_total,
  drop-append, drop-nil, Text, codes, text_eq, text_lt, text_eq_iff, text_lt_irrefl, text_lt_trans,
  text_lt_total,
}

-- The calls of `fs`. `entries` is the list of a directory's paths.
pub record FileSystem : Type 0 where
  pub exists : Text → Bool
  pub is_directory : Text → Bool
  pub is_regular_file : Text → Bool
  pub owner_read : Text → Bool
  pub entries : Text → List Text

abbrev pub max_depth : ℕ
max_depth = 7

-- `IsFileSupported` is a parameter here.
module _ (fs : FileSystem) (supported : Text → Bool) where
  -- PathInvalid.
  unfoldable pub path_invalid : Text → Bool
  path_invalid path =
      if is_empty path then true else not (fs.is_regular_file path) && not (fs.is_directory path)

  -- The loop over the entries of a directory: what it pushes to the queue, and the files.
  unfoldable pub scan_entries : ℕ → List Text → List (Text × ℕ) × List Text
  scan_entries depth [] = ([], [])
  scan_entries depth (path ∷ paths) =
      let (queue, files) = scan_entries depth paths in
      if fs.is_directory path
      then ((path, depth + 1) ∷ queue, files)
      else if fs.is_regular_file path && supported path
      then (queue, path ∷ files)
      else (queue, files)

  -- The body of the loop of `RecursiveScanFolder`, of an entry of the queue.
  unfoldable pub scan_dir : Text → ℕ → List (Text × ℕ) × List Text
  unfolding scan_entries
  scan_dir path depth =
      if eqb depth max_depth
      then ([], [])
      else if not (fs.owner_read path)
      then ([], [])
      else scan_entries depth (fs.entries path)

  -- That loop; `none` is a run out of fuel.
  unfoldable pub scan_loop : ℕ → List (Text × ℕ) → Option (List Text)
  unfolding scan_dir
  scan_loop zero queue = none
  scan_loop (suc fuel) [] = some []
  scan_loop (suc fuel) ((path, depth) ∷ queue) =
      let (pushed, files) = scan_dir path depth in
      Option.map (◌++◌ files) (scan_loop fuel (queue ++ pushed))

  -- RecursiveScanFolder, of the depth that the source passes.
  unfoldable pub recursive_scan_folder : ℕ → Text → Option (List Text)
  unfolding scan_loop
  recursive_scan_folder fuel path =
      if is_empty path
      then some []
      else if not (fs.exists path) || not (fs.is_directory path)
      then some []
      else scan_loop fuel ((path, 0) ∷ [])

  -- GetImportFiles.
  unfoldable pub get_import_files : ℕ → List Text → Option (List Text)
  unfolding recursive_scan_folder
  get_import_files fuel [] = some []
  get_import_files fuel (path ∷ paths) =
      let own = if not (fs.is_directory path) && supported path then path ∷ [] else [] in
      elim (recursive_scan_folder fuel path) [
        | none ↦ none
        | some files ↦ Option.map (λ rest. own ++ (files ++ rest)) (get_import_files fuel paths)
      ]
