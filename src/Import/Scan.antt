-- ===== src/Import/Scan.antt =====
-- The queue of `RecursiveScanFolder` in
-- Scalar/server/src/plugin/Handler/ScalarVisuallyImportFileHandler.cpp, level by level.
use mathlib.Core.Option
use mathlib.Core.List.{append_assoc, append-nil}
use blue_workspace_build.Base.{
  ℕ, zero, suc, ◌+◌, ◌-◌, ◌<◌, ◌≡◌, refl, sym, ap, ◌∙◌, Bool, true, false, ◌&&◌, Option, none, some,
  List, [], ◌∷◌, ◌++◌, map, arith, if◌then◌else◌, length, is_empty, Text,
}
use blue_workspace_build.Import.{
  FileSystem, scan_entries, scan_dir, scan_loop, recursive_scan_folder,
}

-- Directories at one depth, as they stand in the queue.
abbrev pub at_depth : ℕ → List Text → List (Text × ℕ)
at_depth d = map (λ path. (path, d))

at_depth-append :
    (d : ℕ) (ps qs : List Text) → at_depth d (ps ++ qs) ≡ at_depth d ps ++ at_depth d qs
at_depth-append d [] qs = refl
at_depth-append d (p ∷ ps) qs = ap (◌∷◌ (p, d)) (at_depth-append d ps qs)

map-some_nil : (o : Option (List Text)) → Option.map (◌++◌ []) o ≡ o
map-some_nil none = refl
map-some_nil (some xs) = refl

map-append :
    (xs ys : List Text) (o : Option (List Text))
    → Option.map (◌++◌ xs) (Option.map (◌++◌ ys) o) ≡ Option.map (◌++◌ (xs ++ ys)) o
map-append xs ys none = refl
map-append xs ys (some zs) = ap some (sym (append_assoc xs ys zs))

module _ (fs : FileSystem) (supported : Text → Bool) where
  -- The directories and the files to import among the entries of a directory.
  unfoldable pub dirs_in : List Text → List Text
  dirs_in [] = []
  dirs_in (path ∷ paths) = if fs.is_directory path then path ∷ dirs_in paths else dirs_in paths

  unfoldable pub files_in : List Text → List Text
  files_in [] = []
  files_in (path ∷ paths) =
      if fs.is_directory path
      then files_in paths
      else if fs.is_regular_file path && supported path
      then path ∷ files_in paths
      else files_in paths

  -- The same of a directory that its owner may read.
  unfoldable pub dirs_of : Text → List Text
  unfolding dirs_in
  dirs_of path = if fs.owner_read path then dirs_in (fs.entries path) else []

  unfoldable pub files_of : Text → List Text
  unfolding files_in
  files_of path = if fs.owner_read path then files_in (fs.entries path) else []

  -- The same of each directory of a level.
  unfoldable pub all_dirs : List Text → List Text
  unfolding dirs_of
  all_dirs [] = []
  all_dirs (path ∷ paths) = dirs_of path ++ all_dirs paths

  unfoldable pub all_files : List Text → List Text
  unfolding files_of
  all_files [] = []
  all_files (path ∷ paths) = files_of path ++ all_files paths

  -- The files of a number of levels, the first one of which is given.
  unfoldable pub levels : ℕ → List Text → List Text
  unfolding all_dirs all_files
  levels zero dirs = []
  levels (suc k) dirs = all_files dirs ++ levels k (all_dirs dirs)

  -- The number of directories that pass through the queue.
  unfoldable pub dir_count : ℕ → List Text → ℕ
  unfolding all_dirs
  dir_count zero dirs = length dirs
  dir_count (suc k) dirs = length dirs + dir_count k (all_dirs dirs)

  scan_entries-parts :
      (d : ℕ) (paths : List Text)
      → scan_entries fs supported d paths ≡ (at_depth (d + 1) (dirs_in paths), files_in paths)
  unfolding scan_entries dirs_in files_in
  scan_entries-parts d [] = refl
  scan_entries-parts d (path ∷ paths) = ground (arith, scan_entries-parts d paths)

  scan_dir-below :
      (d : ℕ) (path : Text)
      → d < 7
      → scan_dir fs supported path d ≡ (at_depth (d + 1) (dirs_of path), files_of path)
  unfolding scan_dir dirs_of files_of
  scan_dir-below d path h = ground (arith, scan_entries-parts d (fs.entries path))

  -- Equal fuel, and one turn of the loop.
  with_fuel :
      {a b : ℕ} (queue : List (Text × ℕ))
      → a ≡ b
      → scan_loop fs supported a queue ≡ scan_loop fs supported b queue
  with_fuel queue e = ap (λ fuel. scan_loop fs supported fuel queue) e

  scan_loop-turn :
      (fuel d : ℕ) (path : Text) (queue pushed : List (Text × ℕ)) (files : List Text)
      → scan_dir fs supported path d ≡ (pushed, files)
      → scan_loop fs supported (suc fuel) ((path, d) ∷ queue)
        ≡ Option.map (◌++◌ files) (scan_loop fs supported fuel (queue ++ pushed))
  unfolding scan_loop
  scan_loop-turn fuel d path queue pushed files e = rw (scan_loop, e) refl

  scan_dir-bottom : (path : Text) → scan_dir fs supported path 7 ≡ ([], [])
  unfolding scan_dir
  scan_dir-bottom path = refl

  scan_loop-bottom :
      (fuel : ℕ) (dirs : List Text)
      → scan_loop fs supported (length dirs + suc fuel) (at_depth 7 dirs) ≡ some []
  unfolding scan_loop scan_dir
  scan_loop-bottom fuel [] = with_fuel {b = suc fuel} [] (omega arith)
  scan_loop-bottom fuel (p ∷ dirs) =
      with_fuel {b = suc (length dirs + suc fuel)} (at_depth 7 (p ∷ dirs)) (omega arith)
      ∙ scan_loop-turn (length dirs + suc fuel) 7 p (at_depth 7 dirs) [] [] (scan_dir-bottom p)
      ∙ map-some_nil _
      ∙ ap (scan_loop fs supported (length dirs + suc fuel)) (append-nil (at_depth 7 dirs))
      ∙ scan_loop-bottom fuel dirs

  scan_loop-level :
      (d fuel : ℕ) (dirs next : List Text)
      → d < 7
      → scan_loop fs supported (length dirs + fuel) (at_depth d dirs ++ at_depth (d + 1) next)
        ≡ Option.map
            (◌++◌ (all_files dirs))
            (scan_loop fs supported fuel (at_depth (d + 1) (next ++ all_dirs dirs)))
  unfolding scan_loop all_files all_dirs
  scan_loop-level d fuel [] next h =
      with_fuel (at_depth (d + 1) next) (omega arith)
      ∙ ap (λ ps. scan_loop fs supported fuel (at_depth (d + 1) ps)) (sym (append-nil next))
      ∙ sym (map-some_nil _)
  scan_loop-level d fuel (p ∷ dirs) next h =
      let later = at_depth (d + 1) next in
      let pushed = at_depth (d + 1) (dirs_of p) in
      let queue : (at_depth d dirs ++ later) ++ pushed
          ≡ at_depth d dirs ++ at_depth (d + 1) (next ++ dirs_of p) =
        append_assoc (at_depth d dirs) later pushed
        ∙ ap (◌++◌ (at_depth d dirs)) (sym (at_depth-append (d + 1) next (dirs_of p))) in
      with_fuel {b = suc (length dirs + fuel)} (at_depth d (p ∷ dirs) ++ later) (omega arith)
      ∙ scan_loop-turn (length dirs + fuel) d p (at_depth d dirs ++ later) pushed (files_of p)
          (scan_dir-below d p h)
      ∙ ap (λ q. Option.map (◌++◌ (files_of p)) (scan_loop fs supported (length dirs + fuel) q))
          queue
      ∙ ap (Option.map (◌++◌ (files_of p))) (scan_loop-level d fuel dirs (next ++ dirs_of p) h)
      ∙ map-append (files_of p) (all_files dirs) _
      ∙ ap
          (λ ps.
            Option.map (◌++◌ (files_of p ++ all_files dirs))
              (scan_loop fs supported fuel (at_depth (d + 1) ps)))
          (append_assoc next (dirs_of p) (all_dirs dirs))

  scan_loop-levels :
      (k d fuel : ℕ) (dirs : List Text)
      → d + k ≡ 7
      → scan_loop fs supported (dir_count k dirs + suc fuel) (at_depth d dirs)
        ≡ some (levels k dirs)
  unfolding levels dir_count
  scan_loop-levels zero d fuel dirs h =
      let same : d ≡ 7 = omega arith in
      ap (λ n. scan_loop fs supported (length dirs + suc fuel) (at_depth n dirs)) same
      ∙ scan_loop-bottom fuel dirs
  scan_loop-levels (suc k) d fuel dirs h =
      let rest = dir_count k (all_dirs dirs) + suc fuel in
      with_fuel (at_depth d dirs) (omega arith)
      ∙ ap (scan_loop fs supported (length dirs + rest)) (sym (append-nil (at_depth d dirs)))
      ∙ scan_loop-level d rest dirs [] (omega arith)
      ∙ ap (Option.map (◌++◌ (all_files dirs)))
          (scan_loop-levels k (d + 1) fuel (all_dirs dirs) (omega arith))

  -- With more fuel than the number of directories that are at most 7 levels deep, the scan of an
  -- existing directory ends, and its result are the supported regular files of the first 7 levels,
  -- in the order of the levels, where a directory that its owner may not read is left out with all
  -- that is below it.
  pub recursive_scan_folder-levels :
      (path : Text) (fuel : ℕ)
      → is_empty path ≡ false
      → fs.exists path ≡ true
      → fs.is_directory path ≡ true
      → dir_count 7 (path ∷ []) < fuel
      → recursive_scan_folder fs supported fuel path ≡ some (levels 7 (path ∷ []))
  unfolding recursive_scan_folder
  recursive_scan_folder-levels path fuel e there dir h =
      let more = fuel - dir_count 7 (path ∷ []) - 1 in
      rw (e, there, dir)
        (with_fuel (at_depth 0 (path ∷ [])) (omega arith)
          ∙ scan_loop-levels 7 0 more (path ∷ []) refl)
