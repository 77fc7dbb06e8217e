-- ===== src/Watcher.antt =====
-- Scalar/server/src/FileManager/FileWatcherLinuxImpl.cpp: the tables of watched directories. The
-- kernel's inotify instance and the parts of a path are parameters; a directory's descriptor is a
-- number, and -1 is `none`. The locks and the thread are left out.
pub mod Tables
pub mod Reset
use blue_workspace_build.Base.{
  ℕ, zero, suc, ◌+◌, ◌-◌, ◌*◌, ◌/◌, ◌%◌, ◌^◌, ◌≤◌, ◌<◌, min, max, ◌≡◌, refl, sym, ap, ◌∙◌, ◌≢◌, ◌↔◌,
  ◌⊎◌, inl, inr, Bool, true, false, not, ◌&&◌, ◌||◌, Option, none, some, List, [], ◌∷◌, ◌++◌, map,
  arith, ltb, leb, eqb, if◌then◌else◌, ltb→lt, lt→ltb, eqb_iff, Bool-cases, Option-cases, length,
  get_elem?, take, drop, is_empty, all_of, any_of, last_or, length-append, last_or-append, All,
  All-append, All-mono, length-take, length-drop, take-append-drop, length-map, get_elem?_total,
  drop-append, drop-nil, Text, codes, text_eq, text_lt, text_eq_iff, text_lt_irrefl, text_lt_trans,
  text_lt_total,
}
use blue_workspace_build.Base.Map
use blue_workspace_build.Base.Map.{Map, text_key, nat_key}
use blue_workspace_build.Base.StringSet
use blue_workspace_build.Base.StringSet.{StringSet}

-- An inotify instance with its two calls. Several paths can lead to one directory: `directory` is
-- the one that a path leads to, and `watched` the one that a descriptor stands for.
pub record Inotify : Type 1 where
  pub Kernel : Type 0
  pub Directory : Type 0
  pub directory : Text → Directory
  pub add_watch : Text → Kernel → Option ℕ × Kernel
  pub rm_watch : ℕ → Kernel → Bool × Kernel
  pub watched : ℕ → Kernel → Option Directory

-- The parts of an `fs::path`.
pub record Paths : Type 0 where
  pub parent_path : Text → Text
  pub filename : Text → Text
  pub root_directory : Text → Text

-- class FileWatcherLinuxImpl.
pub record Watcher (n : Inotify) : Type 0 where
  pub kernel : n.Kernel
  pub dir_fd : Map Text ℕ
  pub fd_dir : Map ℕ Text
  pub dir_files : Map Text StringSet

-- `inotify_rm_watch` of each descriptor.
unfoldable pub remove_all : (n : Inotify) → Map Text ℕ → n.Kernel → n.Kernel
remove_all n [] k = k
remove_all n ((dir, fd) ∷ m) k = remove_all n m (n.rm_watch fd k).1

module _ {n : Inotify} where
  -- IsDirWatched of a path.
  unfoldable pub is_dir_watched : Text → Watcher n → Bool
  is_dir_watched dir w = Map.has dir w.dir_fd

  -- IsFileWatched; the subscript adds an empty set where the directory has none.
  unfoldable pub is_file_watched : Text → Text → Watcher n → Bool × Watcher n
  unfolding is_dir_watched
  is_file_watched dir file w = if not (is_dir_watched dir w) then (false, w) else (
    StringSet.contains file (Map.get_or [] dir w.dir_files),
    record w { dir_files = Map.emplace dir [] w.dir_files },
  )

  -- What `AddWatchPath` does with the descriptor of a file's directory.
  unfoldable pub enter_watch : Text → Text → ℕ → Watcher n → Watcher n
  enter_watch dir file fd w = record w {
    dir_fd = Map.emplace dir fd w.dir_fd;
    fd_dir = Map.emplace fd dir w.fd_dir;
    dir_files = Map.put dir (StringSet.insert file (Map.get_or [] dir w.dir_files)) w.dir_files;
  }

  -- `inotify_add_watch` with what follows it.
  unfoldable pub watch_dir : Text → Text → Watcher n → Watcher n
  unfolding enter_watch
  watch_dir dir file w =
      let (fd, kernel) = n.add_watch dir w.kernel in
      elim fd [
        | none ↦ record w { kernel = kernel }
        | some i ↦ enter_watch dir file i (record w { kernel = kernel })
      ]

  -- The body of the loop of `AddWatchPath`, of the directory and the name of a file.
  unfoldable pub add_watch_file : Text → Text → Watcher n → Watcher n
  unfolding is_file_watched watch_dir
  add_watch_file dir file w =
      let (watched, v) = is_file_watched dir file w in if watched then v else watch_dir dir file v

  -- What `DelWatchPath` does with a descriptor that was removed.
  unfoldable pub leave_watch : Text → Text → ℕ → Watcher n → Watcher n
  leave_watch dir file fd w =
      let files = StringSet.erase file (Map.get_or [] dir w.dir_files) in
      if is_empty files
      then record w {
        dir_fd = Map.erase dir w.dir_fd;
        fd_dir = Map.erase fd w.fd_dir;
        dir_files = Map.erase dir w.dir_files;
      }
      else record w { dir_files = Map.put dir files w.dir_files }

  -- The body of the loop of `DelWatchPath`.
  unfoldable pub del_watch_file : Text → Text → Watcher n → Watcher n
  unfolding is_file_watched leave_watch
  del_watch_file dir file w =
      let (watched, v) = is_file_watched dir file w in
      if not watched
      then v
      else let fd = Map.get_or 0 dir v.dir_fd in
        let (removed, kernel) = n.rm_watch fd v.kernel in
        if removed
        then leave_watch dir file fd (record v { kernel = kernel })
        else record v { kernel = kernel }

  -- Reset.
  unfoldable pub reset_watcher : Watcher n → Watcher n
  unfolding remove_all
  reset_watcher w = record w { kernel = remove_all n w.dir_fd w.kernel; dir_fd = []; fd_dir = [] }

  -- IsDirWatched of a descriptor.
  unfoldable pub is_fd_watched : Option ℕ → Watcher n → Bool
  is_fd_watched none w = false
  is_fd_watched (some fd) w = Map.has fd w.fd_dir

  -- GetWatchedDirName.
  unfoldable pub get_watched_dir_name : Option ℕ → Watcher n → Text
  get_watched_dir_name none w = []
  get_watched_dir_name (some fd) w = Map.get_or [] fd w.fd_dir

module _ (paths : Paths) {n : Inotify} where
  -- AddWatchPath.
  unfoldable pub add_watch_path : List Text → Watcher n → Watcher n
  unfolding add_watch_file
  add_watch_path [] w = w
  add_watch_path (file ∷ files) w =
      add_watch_path files (add_watch_file (paths.parent_path file) (paths.filename file) w)

  -- DelWatchPath.
  unfoldable pub del_watch_path : List Text → Watcher n → Watcher n
  unfolding del_watch_file
  del_watch_path [] w = w
  del_watch_path (file ∷ files) w =
      del_watch_path files (del_watch_file (paths.root_directory file) (paths.filename file) w)

-- struct inotify_event: its descriptor, its mask and its name.
pub record WatchEvent : Type 0 where
  pub wd : Option ℕ
  pub mask : ℕ
  pub name : Text

-- The bits of a mask, as <sys/inotify.h> numbers them.
abbrev pub in_modify : ℕ
in_modify = 2

abbrev pub in_close_write : ℕ
in_close_write = 8

abbrev pub in_moved_to : ℕ
in_moved_to = 128

abbrev pub in_create : ℕ
in_create = 256

-- `mask & bit` of a power of two.
unfoldable pub has_bit : ℕ → ℕ → Bool
has_bit mask bit = eqb (mask / bit % 2) 1

-- What the loop of `WatchFunc` calls for an event.
pub data WatchCall : Type 0 where
  no_call : WatchCall
  file_write_close : Text → Text → WatchCall
  file_created : Text → Text → WatchCall

module _ {n : Inotify} where
  -- The body of that loop behind the read. Only the first event of a read is looked at.
  unfoldable pub watch_event : List WatchEvent → Watcher n → WatchCall
  unfolding is_fd_watched get_watched_dir_name has_bit
  watch_event [] w = no_call
  watch_event (e ∷ es) w =
      let dir = get_watched_dir_name e.wd w in
      if not (is_fd_watched e.wd w)
      then no_call
      else if has_bit e.mask in_modify || has_bit e.mask in_close_write
      then file_write_close dir e.name
      else if has_bit e.mask in_create || has_bit e.mask in_moved_to
      then file_created dir e.name
      else no_call
