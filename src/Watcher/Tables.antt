-- ===== src/Watcher/Tables.antt =====
-- The two tables of watched directories say what the kernel watches, also where several paths lead
-- to one directory.
use blue_workspace_build.Base.{
  ℕ, ◌≡◌, refl, sym, ap, ◌∙◌, ◌≢◌, ◌⊎◌, inl, inr, none, some, arith, if◌then◌else◌, Bool-cases,
  Option-cases, Text,
}
use mathlib.Core.Option
use mathlib.Core.Option.{some-injective}
use blue_workspace_build.Base.Map
use blue_workspace_build.Base.Map.{Map, text_key, nat_key}
use blue_workspace_build.Watcher.{
  Inotify, Watcher, is_dir_watched, is_file_watched, enter_watch, add_watch_file, watch_dir,
}

-- What the documentation of inotify says of the two calls: a directory that is watched has one
-- descriptor, which every path to it gets.
pub record Documented (n : Inotify) : Type 0 where
  pub add_known :
      (dir : Text) (fd : ℕ) (k : n.Kernel)
      → n.watched fd k ≡ some (n.directory dir)
      → n.add_watch dir k ≡ (some fd, k)
  pub add_failed :
      (dir : Text) (k : n.Kernel)
      → (n.add_watch dir k).0 ≡ none
      → (fd : ℕ) → n.watched fd (n.add_watch dir k).1 ≡ n.watched fd k
  pub add_here :
      (dir : Text) (fd : ℕ) (k : n.Kernel)
      → (n.add_watch dir k).0 ≡ some fd
      → n.watched fd (n.add_watch dir k).1 ≡ some (n.directory dir)
  pub add_free :
      (dir : Text) (fd : ℕ) (k : n.Kernel)
      → (n.add_watch dir k).0 ≡ some fd
      → (n.watched fd k ≡ none) ⊎ (n.watched fd k ≡ some (n.directory dir))
  pub add_other :
      (dir : Text) (fd other : ℕ) (k : n.Kernel)
      → (n.add_watch dir k).0 ≡ some fd
      → other ≢ fd
      → n.watched other (n.add_watch dir k).1 ≡ n.watched other k
  pub rm_here : (fd : ℕ) (k : n.Kernel) → n.watched fd (n.rm_watch fd k).1 ≡ none
  pub rm_other :
      (fd other : ℕ) (k : n.Kernel)
      → other ≢ fd
      → n.watched other (n.rm_watch fd k).1 ≡ n.watched other k

module _ {n : Inotify} where
  -- The tables say what the kernel watches: a descriptor's path leads to its directory, a path's
  -- descriptor stands for its directory, and each watched descriptor is that of some path.
  pub record IsWatcher (w : Watcher n) : Type 0 where
    pub names : (fd : ℕ) → Option.map n.directory (Map.get fd w.fd_dir) ≡ n.watched fd w.kernel
    pub fds :
        (dir : Text) (fd : ℕ)
        → Map.get dir w.dir_fd ≡ some fd
        → n.watched fd w.kernel ≡ some (n.directory dir)
    pub back :
        (d : n.Directory) (fd : ℕ)
        → n.watched fd w.kernel ≡ some d
        → (dir : Text) × (Map.get dir w.dir_fd ≡ some fd)

  -- A path that has a descriptor gets it again.
  same_fd :
      (dir : Text) (i : ℕ) (w : Watcher n)
      → Documented n
      → IsWatcher w
      → (n.add_watch dir w.kernel).0 ≡ some i
      → Map.get_or i dir w.dir_fd ≡ i
  unfolding Map.get_or
  same_fd dir i w d h e = elim (Option-cases (Map.get dir w.dir_fd)) [
    | inl f ↦ rw (Map.get_or, f) refl
    | inr (fd, f) ↦
        let again = ap (λ r. r.0) (d.add_known dir fd w.kernel (h.fds dir fd f)) in
        rw (Map.get_or, f) (some-injective _ _ (sym again ∙ e))
  ]

  -- The path that a descriptor has leads to this directory.
  same_dir :
      (dir : Text) (i : ℕ) (w : Watcher n)
      → Documented n
      → IsWatcher w
      → (n.add_watch dir w.kernel).0 ≡ some i
      → n.directory (Map.get_or dir i w.fd_dir) ≡ n.directory dir
  unfolding Map.get_or
  same_dir dir i w d h e = elim (Option-cases (Map.get i w.fd_dir)) [
    | inl f ↦ rw (Map.get_or, f) refl
    | inr (path, f) ↦
        let here : some (n.directory path) ≡ n.watched i w.kernel = rw f at (h.names i) in
        elim (d.add_free dir i w.kernel e) [
          | inl free ↦ cc
          | inr taken ↦ rw (Map.get_or, f) (some-injective _ _ (here ∙ taken))
        ]
  ]

  module _ (dir : Text) (i : ℕ) (w : Watcher n) (d : Documented n) (h : IsWatcher w)
      (e : (n.add_watch dir w.kernel).0 ≡ some i) where
    -- What a descriptor stands for behind the call.
    watched-add :
        (fd : ℕ)
        → n.watched fd (n.add_watch dir w.kernel).1
          ≡ (if nat_key.same i fd then some (n.directory dir) else n.watched fd w.kernel)
    watched-add fd = elim (Bool-cases (nat_key.same i fd)) [
      | inl f ↦ rw (f, sym ((nat_key.same_iff i fd).0 f)) (d.add_here dir i w.kernel e)
      | inr f ↦ rw f (d.add_other dir i fd w.kernel e (λ g. cc (rw (sym g, Map.same_refl fd) at f)))
    ]

    -- What stood for something stands for the same.
    watched-kept :
        (x : n.Directory) (fd : ℕ)
        → n.watched fd w.kernel ≡ some x
        → n.watched fd (n.add_watch dir w.kernel).1 ≡ some x
    watched-kept x fd f = elim (Bool-cases (nat_key.same i fd)) [
      | inr g ↦ watched-add fd ∙ (rw g f)
      | inl g ↦
          let here : n.watched i w.kernel ≡ some x = rw ((nat_key.same_iff i fd).0 g) f in
          elim (d.add_free dir i w.kernel e) [
            | inl free ↦ cc
            | inr taken ↦ watched-add fd ∙ (rw g (sym taken ∙ here))
          ]
    ]

    enter_names :
        (fd : ℕ)
        → Option.map n.directory (Map.get fd (Map.emplace i dir w.fd_dir))
          ≡ n.watched fd (n.add_watch dir w.kernel).1
    enter_names fd = elim (Bool-cases (nat_key.same i fd)) [
      | inl g ↦
          rw
            (
              watched-add fd,
              Map.get-emplace i fd dir w.fd_dir,
              g,
              sym ((nat_key.same_iff i fd).0 g),
            )
            (ap some (same_dir dir i w d h e))
      | inr g ↦ rw (watched-add fd, Map.get-emplace i fd dir w.fd_dir, g) (h.names fd)
    ]

    -- A path that was in the table keeps its descriptor.
    get-kept :
        (path : Text) (fd : ℕ)
        → Map.get path w.dir_fd ≡ some fd
        → Map.get path (Map.emplace dir i w.dir_fd) ≡ some fd
    get-kept path fd f =
        ground (arith, f, Map.get-emplace dir path i w.dir_fd, Map.get_or-get i fd path w.dir_fd f)

    get_dir : Map.get dir (Map.emplace dir i w.dir_fd) ≡ some i
    get_dir = ground (
      arith,
      Map.get-emplace dir dir i w.dir_fd,
      same_fd dir i w d h e,
      text_key.same_iff dir dir,
    )

    enter_fds :
        (path : Text) (fd : ℕ)
        → Map.get path (Map.emplace dir i w.dir_fd) ≡ some fd
        → n.watched fd (n.add_watch dir w.kernel).1 ≡ some (n.directory path)
    enter_fds path fd f = elim (Bool-cases (text_key.same dir path)) [
      | inl g ↦
          let same = (text_key.same_iff dir path).0 g in
          let equal : i ≡ fd =
            some-injective _ _
              (sym get_dir ∙ (ap (λ p. Map.get p (Map.emplace dir i w.dir_fd)) same ∙ f)) in
          rw (sym equal, sym same) (d.add_here dir i w.kernel e)
      | inr g ↦
          let old : Map.get path w.dir_fd ≡ some fd =
            rw (Map.get-emplace dir path i w.dir_fd, g) at f in
          watched-kept (n.directory path) fd (h.fds path fd old)
    ]

    enter_back :
        (x : n.Directory) (fd : ℕ)
        → n.watched fd (n.add_watch dir w.kernel).1 ≡ some x
        → (path : Text) × (Map.get path (Map.emplace dir i w.dir_fd) ≡ some fd)
    enter_back x fd f = elim (Bool-cases (nat_key.same i fd)) [
      | inl g ↦ (dir, get_dir ∙ ap some ((nat_key.same_iff i fd).0 g))
      | inr g ↦
          let was : n.watched fd w.kernel ≡ some x = rw (watched-add fd, g) at f in
          let (path, there) = h.back x fd was in (path, get-kept path fd there)
    ]

  enter_watch-IsWatcher :
      (dir file : Text) (i : ℕ) (w : Watcher n)
      → Documented n
      → IsWatcher w
      → (n.add_watch dir w.kernel).0 ≡ some i
      → IsWatcher (enter_watch dir file i (record w { kernel = (n.add_watch dir w.kernel).1 }))
  unfolding enter_watch
  enter_watch-IsWatcher dir file i w d h e = record {
    names = enter_names dir i w d h e;
    fds = enter_fds dir i w d h e;
    back = enter_back dir i w d h e;
  }

  watch_dir-IsWatcher :
      (dir file : Text) (w : Watcher n)
      → Documented n
      → IsWatcher w
      → IsWatcher (watch_dir dir file w)
  unfolding watch_dir
  watch_dir-IsWatcher dir file w d h = elim (Option-cases (n.add_watch dir w.kernel).0) [
    | inl e ↦
        let same = d.add_failed dir w.kernel e in
        rw (watch_dir, e)
          (record {
            names = λ fd. h.names fd ∙ sym (same fd);
            fds = λ dir' fd f. same fd ∙ h.fds dir' fd f;
            back = λ d' fd f. h.back d' fd (sym (same fd) ∙ f);
          })
    | inr (i, e) ↦ rw (watch_dir, e) (enter_watch-IsWatcher dir file i w d h e)
  ]

  is_file_watched-IsWatcher :
      (dir file : Text) (w : Watcher n) → IsWatcher w → IsWatcher (is_file_watched dir file w).1
  unfolding is_file_watched
  is_file_watched-IsWatcher dir file w h = elim (Bool-cases (is_dir_watched dir w)) [
    | inl e ↦ rw (is_file_watched, e) (record { names = h.names; fds = h.fds; back = h.back })
    | inr e ↦ rw (is_file_watched, e) h
  ]

  -- Several paths may lead to one directory. If inotify behaves as documented, and the tables have
  -- for each descriptor a path to the directory that the kernel watches under it, for each path in
  -- them a descriptor that the kernel watches its directory under, and every watched descriptor for
  -- some path, they do so behind the step of `AddWatchPath` for one file, whether its directory is
  -- watched already, also by another path, is refused by the kernel, or is new.
  pub add_watch_file-IsWatcher :
      (dir file : Text) (w : Watcher n)
      → Documented n
      → IsWatcher w
      → IsWatcher (add_watch_file dir file w)
  unfolding add_watch_file
  add_watch_file-IsWatcher dir file w d h =
      let there = is_file_watched-IsWatcher dir file w h in
      elim (Bool-cases (is_file_watched dir file w).0) [
        | inl e ↦ rw (add_watch_file, e) there
        | inr e ↦
            rw (add_watch_file, e)
              (watch_dir-IsWatcher dir file (is_file_watched dir file w).1 d there)
      ]
