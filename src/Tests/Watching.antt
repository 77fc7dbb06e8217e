-- ===== src/Tests/Watching.antt =====
-- The file watcher, the import and the polling of new tags: the theorems at concrete values.
use blue_workspace_build.Base.{
  ℕ, ◌≡◌, refl, ◌≢◌, ◌⊎◌, inl, inr, true, false, Option, none, some, List, [], ◌∷◌, arith, eqb,
  if◌then◌else◌, Text, codes, text_eq, text_eq_iff,
}
use blue_workspace_build.Base.Map
use blue_workspace_build.Base.Map.{Map, text_key, nat_key}
use blue_workspace_build.Base.StringSet
use blue_workspace_build.Base.StringSet.{StringSet}
use blue_workspace_build.Tests.Values.{whole, loss}
use blue_workspace_build.Tests.Server.{log_path, server, one_file-IsManager}
use blue_workspace_build.Concept.{ParseDataType}
use blue_workspace_build.Manager.{Stored, file_of}
use blue_workspace_build.Graphs.{Server, find_file, add_incremental}
use blue_workspace_build.Graphs.Polls.{poll, poll-drained}
use blue_workspace_build.Watcher.{
  Inotify, Paths, Watcher, file_write_close, add_watch_file, reset_watcher, watch_event,
}
use blue_workspace_build.Watcher.Tables.{Documented, IsWatcher, add_watch_file-IsWatcher}
use blue_workspace_build.Watcher.Reset.{reset_watcher-IsWatcher}
use blue_workspace_build.Import.{FileSystem, recursive_scan_folder}
use blue_workspace_build.Import.Scan.{levels, dir_count, recursive_scan_folder-levels}
use blue_workspace_build.Plugin.{Reader, on_file_created, on_file_write_close, in_dir}
use blue_workspace_build.Plugin.Update.{on_file_created_lem}

-- A link to the folder of the logs.
unfoldable pub resolve : Text → Text
resolve path = if text_eq path (codes "/link") then codes "/logs" else path

-- A kernel that watches at most one directory, under the descriptor 1.
abbrev one_slot : Inotify
one_slot = record {
  Kernel = Option Text;
  Directory = Text;
  directory = resolve;
  add_watch = λ dir k. elim k [
    | none ↦ (some 1, some (resolve dir))
    | some d ↦ if text_eq d (resolve dir) then (some 1, some d) else (none, some d)
  ];
  rm_watch = λ fd k. if eqb fd 1 then (true, none) else (false, k);
  watched = λ fd k. if eqb fd 1 then k else none;
}

one_slot-Documented : Documented one_slot
one_slot-Documented = record {
  add_known = known;
  add_failed = failed;
  add_here = here;
  add_free = free;
  add_other = other;
  rm_here = λ fd k. ground arith;
  rm_other = λ fd i k h. gone fd i k h;
}
  where
    known :
        (dir : Text) (fd : ℕ) (k : Option Text)
        → one_slot.watched fd k ≡ some (resolve dir)
        → one_slot.add_watch dir k ≡ (some fd, k)
    known dir fd none e = absurd (ground (arith, e))
    known dir fd (some d) e = ground (arith, e, text_eq_iff d (resolve dir))

    failed :
        (dir : Text) (k : Option Text)
        → (one_slot.add_watch dir k).0 ≡ none
        → (fd : ℕ) → one_slot.watched fd (one_slot.add_watch dir k).1 ≡ one_slot.watched fd k
    failed dir none e fd = cc
    failed dir (some d) e fd = ground (arith, e)

    here :
        (dir : Text) (fd : ℕ) (k : Option Text)
        → (one_slot.add_watch dir k).0 ≡ some fd
        → one_slot.watched fd (one_slot.add_watch dir k).1 ≡ some (resolve dir)
    here dir fd none e = ground (arith, e)
    here dir fd (some d) e = ground (arith, e, text_eq_iff d (resolve dir))

    free :
        (dir : Text) (fd : ℕ) (k : Option Text)
        → (one_slot.add_watch dir k).0 ≡ some fd
        → (one_slot.watched fd k ≡ none) ⊎ (one_slot.watched fd k ≡ some (resolve dir))
    free dir fd none e = inl (ground arith)
    free dir fd (some d) e = inr (ground (arith, e, text_eq_iff d (resolve dir)))

    other :
        (dir : Text) (fd i : ℕ) (k : Option Text)
        → (one_slot.add_watch dir k).0 ≡ some fd
        → i ≢ fd
        → one_slot.watched i (one_slot.add_watch dir k).1 ≡ one_slot.watched i k
    other dir fd i none e h = ground (arith, e, h)
    other dir fd i (some d) e h = ground (arith, e, h)

    gone :
        (fd i : ℕ) (k : Option Text)
        → i ≢ fd
        → one_slot.watched i (one_slot.rm_watch fd k).1 ≡ one_slot.watched i k
    gone fd i k h = ground (arith, h)

abbrev dir : Text
dir = codes "/logs"

abbrev idle : Watcher one_slot
idle = record { kernel = none; dir_fd = []; fd_dir = []; dir_files = [] }

idle-IsWatcher : IsWatcher idle
unfolding Map.get
idle-IsWatcher = record {
  names = λ fd. ground arith;
  fds = λ dir fd e. cc;
  back = λ x fd e. absurd (ground (arith, e));
}

abbrev watching : Watcher one_slot
watching = add_watch_file dir log_path idle

watching-IsWatcher : IsWatcher watching
watching-IsWatcher = add_watch_file-IsWatcher dir log_path idle one_slot-Documented idle-IsWatcher

-- The same folder is watched by its link.
add_watch_file-IsWatcher_example : IsWatcher (add_watch_file (codes "/link") log_path watching)
add_watch_file-IsWatcher_example =
    add_watch_file-IsWatcher (codes "/link") log_path watching one_slot-Documented
      watching-IsWatcher

reset_watcher-IsWatcher_example :
    ((fd : ℕ) → one_slot.watched fd (reset_watcher watching).kernel ≡ none)
    × IsWatcher (reset_watcher watching)
reset_watcher-IsWatcher_example =
    reset_watcher-IsWatcher watching one_slot-Documented watching-IsWatcher

-- A close after writing is an event that leads to a call, under the path of its descriptor.
written_event :
    watch_event (record { wd = some 1; mask = 8; name = log_path } ∷ []) watching
    ≡ file_write_close dir log_path
unfolding watch_event Map.has add_watch_file Map.emplace Map.get_or
written_event = refl

abbrev paths : Paths
paths = record { parent_path = λ p. dir; filename = λ p. log_path; root_directory = λ p. codes "/" }

-- One directory with one file.
abbrev files : FileSystem
files = record {
  exists = λ p. true;
  is_directory = λ p. text_eq p dir;
  is_regular_file = λ p. text_eq p log_path;
  owner_read = λ p. true;
  entries = λ p. log_path ∷ [];
}

recursive_scan_folder-levels_example :
    recursive_scan_folder files (λ p. true) 9 dir ≡ some (levels files (λ p. true) 7 (dir ∷ []))
unfolding dir_count
recursive_scan_folder-levels_example =
    recursive_scan_folder-levels files (λ p. true) dir 9 refl refl refl (omega arith)

abbrev type_of : Text → ParseDataType
type_of path = ParseDataType.text_log

on_file_created_lem_example :
    (t : Server whole) × (i : ℕ) × (o : Stored whole) × (on_file_created type_of dir log_path server
      ≡ some t)
    × (find_file (in_dir dir log_path) t ≡ some (i, o))
    × ((file_of o).empty ≡ true)
    × ((file_of o).imported ≡ false)
    × (StringSet.contains log_path (Map.get_or [] dir t.manager.created) ≡ true)
    × ((parser : ParseDataType → Option (Reader whole)) (open_file : Text → Option (List ℕ))
        → on_file_write_close parser open_file dir log_path t ≡ some t)
on_file_created_lem_example = on_file_created_lem type_of dir log_path server one_file-IsManager

poll-drained_example :
    ((poll 2 (add_incremental log_path loss server)).0
      ≡ (add_incremental log_path loss server).incremental)
    × ((poll 2 (add_incremental log_path loss server)).1.incremental ≡ [])
unfolding add_incremental Map.put StringSet.insert Map.get_or
    blue_workspace_build.Graphs.Files.total_files
poll-drained_example =
    poll-drained 2 (add_incremental log_path loss server) (omega arith) (omega arith)
