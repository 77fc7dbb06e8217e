-- ===== src/Manager/Index.antt =====
-- `FileInfoManager` keeps `filePaths_` and `fileInfoMap_` in step, and looks up what was added.
use blue_workspace_build.Base.{
  ℕ, ◌+◌, ◌<◌, ◌≡◌, refl, sym, ap, ◌∙◌, inl, inr, Bool, true, false, Option, none, some, List, [],
  ◌∷◌, arith, if◌then◌else◌, Bool-cases, all_of, any_of, Text, text_eq, text_eq_iff,
}
use blue_workspace_build.Base.Map
use blue_workspace_build.Base.Map.{Map, text_key, nat_key}
use blue_workspace_build.Base.StringSet
use blue_workspace_build.Concept.{ParseDataType}
use blue_workspace_build.File.{make_file}
use blue_workspace_build.Manager.{
  Manager, Stored, plain, add_file, del_file, get_file_info, index_files, first_type, get_file_type,
  is_file_supported, file_types, Floats,
}

-- Whether a data type is one that a parser exists for.
abbrev pub is_known : ParseDataType → Bool
is_known ParseDataType.mindspore_summary = true
is_known ParseDataType.tf_event = true
is_known ParseDataType.text_log = true
is_known ParseDataType.unknown = false

module _ {fl : Floats} where
  -- The paths are the keys of the map, each with a pointer to an object of the heap, and the numbers
  -- from `next` on are free.
  pub record IsManager (m : Manager fl) : Type 0 where
    pub known :
        (path : Text)
        → StringSet.contains path m.paths ≡ true
        → (i : ℕ) × (s : Stored fl) × (Map.get path m.files ≡ some (some i))
          × (i < m.next)
          × (Map.get i m.heap ≡ some s)
    pub missing :
        (path : Text) → StringSet.contains path m.paths ≡ false → Map.get path m.files ≡ none

  index_files-there :
      (path : Text) (v : Option ℕ) (m : Manager fl)
      → Map.get path m.files ≡ some v
      → index_files path m ≡ (Map.get_or none path m.files, m)
  unfolding index_files Map.emplace
  index_files-there path v m found = rw (index_files, Map.emplace, found) refl

  get_file_info-eq :
      (path : Text) (m : Manager fl)
      → IsManager m
      → get_file_info path m ≡ (Map.get_or none path m.files, m)
  unfolding get_file_info index_files Map.emplace Map.get_or
  get_file_info-eq path m h = elim (Bool-cases (StringSet.contains path m.paths)) [
    | inl e ↦
        let (i, s, found, _, _) = h.known path e in rw e (index_files-there path (some i) m found)
    | inr e ↦ let none_there = h.missing path e in rw (e, Map.get_or, none_there) refl
  ]

  pub lookup-eq :
      (path : Text) (m : Manager fl)
      → IsManager m
      → (get_file_info path m).0 ≡ Map.get_or none path m.files
  lookup-eq path m h = ap (λ r. r.0) (get_file_info-eq path m h)

  -- The manager with one more file.
  abbrev pub added : Text → Stored fl → Manager fl → Manager fl
  added path s m = record m {
    paths = StringSet.insert path m.paths;
    files = Map.put path (some m.next) m.files;
    heap = Map.put m.next s m.heap;
    next = m.next + 1;
  }

  pub added-IsManager :
      (path : Text) (s : Stored fl) (m : Manager fl) → IsManager m → IsManager (added path s m)
  added-IsManager path s m h = record {
    known = λ other e. elim (Bool-cases (text_eq path other)) [
      | inl same ↦
          (m.next, s, rw (Map.get-put, same) refl, omega arith, Map.get-put_self m.next s m.heap)
      | inr same ↦
          let (i, t, found, below, here) =
            h.known other (ground (arith, StringSet.contains-insert path other m.paths)) in
          (
            i,
            t,
            rw (Map.get-put, same) found,
            omega arith,
            ground (arith, here, Map.get-put m.next i s m.heap),
          )
    ];
    missing = λ other e.
        let gone = h.missing other (ground (arith, StringSet.contains-insert path other m.paths)) in
        ground (
          arith,
          gone,
          StringSet.contains-insert path other m.paths,
          Map.get-put path other (some m.next) m.files,
        );
  }

  pub add_file-there :
      (path : Text) (type : ParseDataType) (i : ℕ) (m : Manager fl)
      → StringSet.contains path m.paths ≡ true
      → Map.get path m.files ≡ some (some i)
      → add_file path type m ≡ (some i, m)
  unfolding add_file index_files Map.emplace Map.get_or
  add_file-there path type i m e found = rw e (
      index_files-there path (some i) m found
      ∙ ap (λ v. (v, m)) (Map.get_or-get none (some i) path m.files found))

  pub add_file-new :
      (path : Text) (type : ParseDataType) (m : Manager fl)
      → StringSet.contains path m.paths ≡ false
      → add_file path type m ≡ (some m.next, added path (plain (make_file fl path type)) m)
  unfolding add_file
  add_file-new path type m e = rw e refl

  -- What `AddFile` does, of the pointer that it returns.
  abbrev pub Adds : Text → ParseDataType → Manager fl → Option ℕ × Manager fl → Type 0
  Adds path type m r =
      (i : ℕ) × (r.0 ≡ some i)
      × IsManager r.1
      × ((other : Text)
          → (get_file_info other r.1).0
            ≡ (if text_eq path other then some i else (get_file_info other m).0))
      × (add_file path type r.1 ≡ (some i, r.1))

  pub add_file-IsManager :
      (path : Text) (type again : ParseDataType) (m : Manager fl)
      → IsManager m
      → Adds path again m (add_file path type m)
  add_file-IsManager path type again m h = elim (Bool-cases (StringSet.contains path m.paths)) [
    | inl e ↦
        let (i, s, found, below, here) = h.known path e in
        rw (add_file-there path type i m e found) (
          i,
          refl,
          h,
          λ other. elim (Bool-cases (text_eq path other)) [
            | inl same ↦
                rw
                  (
                    same,
                    sym ((text_eq_iff path other).0 same),
                    lookup-eq path m h,
                    Map.get_or-get none (some i) path m.files found,
                  )
                  refl
            | inr same ↦ rw same refl
          ],
          add_file-there path again i m e found,
        )
    | inr e ↦
        let n = added path (plain (make_file fl path type)) m in
        let good : IsManager n = added-IsManager path _ m h in
        rw (add_file-new path type m e) (
          m.next,
          refl,
          good,
          λ other. rw (lookup-eq other n good, lookup-eq other m h, Map.get_or-put) refl,
          add_file-there path again m.next n
              (rw (StringSet.contains-insert, Map.same_refl path) refl)
              (Map.get-put_self path _ m.files),
        )
  ]

  abbrev pub erased : Text → Manager fl → Manager fl
  erased path m = record m { paths = StringSet.erase path m.paths; files = Map.erase path m.files }

  pub erased-IsManager : (path : Text) (m : Manager fl) → IsManager m → IsManager (erased path m)
  erased-IsManager path m h = record {
    known = λ other e. elim (Bool-cases (text_eq path other)) [
      | inl same ↦ absurd (ground (arith, same, e, StringSet.contains-erase path other m.paths))
      | inr same ↦
          let (i, s, found, below, here) =
            h.known other (ground (arith, same, e, StringSet.contains-erase path other m.paths)) in
          (i, s, rw (Map.get-erase, same) found, below, here)
    ];
    missing = λ other e. elim (Bool-cases (text_eq path other)) [
      | inl same ↦ rw (Map.get-erase, same) refl
      | inr same ↦
          rw (Map.get-erase, same)
            (h.missing other (ground (arith, same, e, StringSet.contains-erase path other m.paths)))
    ];
  }

  -- On a well-formed manager, deleting a file reports whether its path was there, keeps the
  -- invariant, and takes the pointer of this path and of no other.
  pub del_file-IsManager :
      (path : Text) (m : Manager fl)
      → IsManager m
      → ((del_file path m).0 ≡ StringSet.contains path m.paths)
        × IsManager (del_file path m).1
        × ((other : Text)
            → (get_file_info other (del_file path m).1).0
              ≡ (if text_eq path other then none else (get_file_info other m).0))
  unfolding del_file Map.get_or
  del_file-IsManager path m h = elim (Bool-cases (StringSet.contains path m.paths)) [
    | inl e ↦
        let good = erased-IsManager path m h in
        rw e (
          refl,
          good,
          λ other.
              rw (lookup-eq other (erased path m) good, lookup-eq other m h)
                (Map.get_or-erase none path other m.files),
        )
    | inr e ↦
        let gone = h.missing path e in
        rw e (
          refl,
          h,
          λ other. elim (Bool-cases (text_eq path other)) [
            | inl same ↦
                rw (same, sym ((text_eq_iff path other).0 same), lookup-eq path m h)
                  (rw (Map.get_or, gone) refl)
            | inr same ↦ rw same refl
          ],
        )
  ]

module _ (search : Text → Text → Bool) (file_name : Text → Text) where
  first_type-any :
      (types : List (Text × ParseDataType)) (path : Text)
      → all_of (λ t. is_known t.1) types ≡ true
      → is_known (first_type search file_name types path)
        ≡ any_of (λ (t : Text × ParseDataType). search t.0 (file_name path)) types
  unfolding first_type
  first_type-any [] path h = refl
  first_type-any ((pattern', type) ∷ types) path h = ground (arith, first_type-any types path)

  -- A file is supported where its type is known, whatever the expressions match.
  pub is_file_supported-is_known :
      (path : Text)
      → is_file_supported search file_name path ≡ is_known (get_file_type search file_name path)
  unfolding is_file_supported get_file_type
  is_file_supported-is_known path = sym (first_type-any file_types path refl)
