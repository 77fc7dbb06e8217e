-- ===== src/Watcher/Reset.antt =====
-- `Reset` and `DelWatchPath` of
-- Scalar/server/src/FileManager/FileWatcherLinuxImpl.cpp, over well-formed tables.
use blue_workspace_build.Base.{
  ℕ, ◌≡◌, refl, sym, ap, ◌∙◌, ◌⊎◌, inl, inr, false, none, some, List, [], ◌∷◌, arith, Bool-cases,
  Option-cases, Text, codes,
}
use mathlib.Core.Option.{some-injective}
use blue_workspace_build.Base.Map
use blue_workspace_build.Base.Map.{Map, text_key, nat_key}
use blue_workspace_build.Watcher.{
  Inotify, Paths, Watcher, is_dir_watched, is_file_watched, del_watch_file, del_watch_path,
  remove_all, reset_watcher,
}
use blue_workspace_build.Watcher.Tables.{Documented, IsWatcher}

module _ {n : Inotify} where
  remove_all_gone :
      (m : Map Text ℕ) (fd : ℕ) (k : n.Kernel)
      → Documented n
      → n.watched fd k ≡ none
      → n.watched fd (remove_all n m k) ≡ none
  unfolding remove_all
  remove_all_gone [] fd k d h = h
  remove_all_gone ((dir, i) ∷ m) fd k d h =
      remove_all_gone m fd (n.rm_watch i k).1 d (elim (Bool-cases (nat_key.same fd i)) [
        | inl e ↦ rw ((nat_key.same_iff fd i).0 e) (d.rm_here i k)
        | inr e ↦ d.rm_other i fd k (λ g. absurd (ground (arith, e, g))) ∙ h
      ])

  remove_all_there :
      (m : Map Text ℕ) (dir : Text) (fd : ℕ) (k : n.Kernel)
      → Documented n
      → Map.get dir m ≡ some fd
      → n.watched fd (remove_all n m k) ≡ none
  unfolding remove_all Map.get
  remove_all_there [] dir fd k d h = cc
  remove_all_there ((dir', i) ∷ m) dir fd k d h = elim (Bool-cases (text_key.same dir' dir)) [
    | inl e ↦
        let same : i ≡ fd = some-injective _ _ (rw e at h) in
        remove_all_gone m fd (n.rm_watch i k).1 d
          (ap (λ x. n.watched x (n.rm_watch i k).1) (sym same) ∙ d.rm_here i k)
    | inr e ↦ remove_all_there m dir fd (n.rm_watch i k).1 d (rw e at h)
  ]

  -- If inotify behaves as documented, and the tables say what the kernel watches, where several paths
  -- may lead to one directory, then the kernel watches nothing behind `Reset`, and the tables,
  -- which are empty, say so.
  pub reset_watcher-IsWatcher :
      (w : Watcher n)
      → Documented n
      → IsWatcher w
      → ((fd : ℕ) → n.watched fd (reset_watcher w).kernel ≡ none) × IsWatcher (reset_watcher w)
  unfolding reset_watcher Map.get
  reset_watcher-IsWatcher w d h = (
    silent,
    record {
      names = λ fd. sym (silent fd);
      fds = λ dir fd e. cc;
      back = λ x fd e. absurd (cc (sym (silent fd) ∙ e));
    },
  )
    where
      silent : (fd : ℕ) → n.watched fd (remove_all n w.dir_fd w.kernel) ≡ none
      silent fd = elim (Option-cases (n.watched fd w.kernel)) [
        | inl e ↦ remove_all_gone w.dir_fd fd w.kernel d e
        | inr (x, e) ↦
            let (dir, there) = h.back x fd e in remove_all_there w.dir_fd dir fd w.kernel d there
      ]

module _ (paths : Paths) {n : Inotify} where
  del_watch_file_idle :
      (dir file : Text) (w : Watcher n)
      → is_dir_watched dir w ≡ false
      → del_watch_file dir file w ≡ w
  unfolding del_watch_file is_file_watched
  del_watch_file_idle dir file w h = rw h refl

  -- As `root_directory` of a path is "/" or empty, and while neither of the two is watched,
  -- `DelWatchPath` changes nothing, whatever files it is given.
  pub del_watch_path_idle :
      (files : List Text) (w : Watcher n)
      → ((file : Text) → (paths.root_directory file ≡ codes "/") ⊎ (paths.root_directory file ≡ []))
      → is_dir_watched (codes "/") w ≡ false
      → is_dir_watched [] w ≡ false
      → del_watch_path paths files w ≡ w
  unfolding del_watch_path
  del_watch_path_idle [] w roots a b = refl
  del_watch_path_idle (file ∷ files) w roots a b =
      let name = paths.filename file in
      let idle : del_watch_file (paths.root_directory file) name w ≡ w = elim (roots file) [
        | inl e ↦ ap (λ dir. del_watch_file dir name w) e ∙ del_watch_file_idle (codes "/") name w a
        | inr e ↦ ap (λ dir. del_watch_file dir name w) e ∙ del_watch_file_idle [] name w b
      ] in
      ap (del_watch_path paths files) idle ∙ del_watch_path_idle files w roots a b
