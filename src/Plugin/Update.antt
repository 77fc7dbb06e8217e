-- ===== src/Plugin/Update.antt =====
-- What the events of the file watcher do to a well-formed server, in
-- Scalar/server/src/plugin/ScalarVisuallyServer.cpp and
-- Scalar/server/src/FileManager/FileWatcherLinuxImpl.cpp.
use blue_workspace_build.Base.{
  ℕ, ◌+◌, ◌%◌, ◌^◌, ◌<◌, ◌≡◌, refl, ap, ◌∙◌, true, false, Option, some, List, [], ◌∷◌, arith, Text,
}
use blue_workspace_build.Base.Floats.{Floats}
use blue_workspace_build.Base.Map
use blue_workspace_build.Base.Map.{Map, nat_key, text_key}
use blue_workspace_build.Base.StringSet
use blue_workspace_build.Concept.{ParseDataType}
use blue_workspace_build.File.{File}
use blue_workspace_build.Manager.{plain, virtual, Stored, file_of, set_file}
use blue_workspace_build.Manager.Index.{IsManager, add_file-IsManager}
use blue_workspace_build.Graphs.{Server, find_file, store_file}
use blue_workspace_build.Graphs.Lookup.{find_file-known, pointer-parts}
use blue_workspace_build.Plugin.{
  in_dir, on_file_created, server_add_file, update_pointer, server_file_create, data_size,
  sign_extended, Reader, on_file_write_close,
}
use blue_workspace_build.Parser.Cache.{is_file_imported}

module _ {fl : Floats} where
  file_of-set_file : (f : File fl) (o : Stored fl) → file_of (set_file f o) ≡ f
  unfolding file_of set_file
  file_of-set_file f (plain g) = refl
  file_of-set_file f (virtual g subs) = refl

  -- The object behind a pointer that was added.
  abbrev pub Added : Text → ParseDataType → Server fl → Type 0
  Added path type s =
      (i : ℕ) × (o : Stored fl) × ((server_add_file path type s).0 ≡ some i)
      × (StringSet.contains path (server_add_file path type s).1.manager.paths ≡ true)
      × (Map.get path (server_add_file path type s).1.manager.files ≡ some (some i))
      × (Map.get i (server_add_file path type s).1.manager.heap ≡ some o)

  server_add_file-Added :
      (path : Text) (type : ParseDataType) (s : Server fl) → IsManager s.manager → Added path type s
  unfolding server_add_file
  server_add_file-Added path type s h =
      let (i, same, good, lookup, _) = add_file-IsManager path type type s.manager h in
      let here = lookup path ∙ (rw (Map.same_refl path) refl) in
      let (o, known, found, there) = pointer-parts path i _ good here in
      (i, o, same, known, found, there)

  not_imported :
      (path : Text) (i : ℕ) (o : Stored fl) (s : Server fl)
      → find_file path s ≡ some (i, o)
      → (file_of o).imported ≡ false
      → is_file_imported path s ≡ false
  unfolding is_file_imported
  not_imported path i o s h e = rw (is_file_imported, h) e

  on_file_write_close-closed :
      (parser : ParseDataType → Option (Reader fl)) (open_file : Text → Option (List ℕ))
      (dir name : Text) (s : Server fl)
      → is_file_imported (in_dir dir name) s ≡ false
      → on_file_write_close parser open_file dir name s ≡ some s
  unfolding on_file_write_close
  on_file_write_close-closed parser open_file dir name s h = rw (on_file_write_close, h) refl

  pub update_pointer-there :
      (i : ℕ) (o : Stored fl) (change : File fl → File fl) (s : Server fl)
      → Map.get i s.manager.heap ≡ some o
      → update_pointer i change s ≡ store_file i (set_file (change (file_of o)) o) s
  unfolding update_pointer
  update_pointer-there i o change s h = rw (update_pointer, h) refl

  -- A well-formed server behind `OnFileCreated` knows the file, as one that is empty and not
  -- imported, and lists its name for its directory; a write to it then changes nothing.
  pub on_file_created_lem :
      (type_of : Text → ParseDataType) (dir name : Text) (s : Server fl)
      → IsManager s.manager
      → (t : Server fl) × (i : ℕ) × (o : Stored fl) × (on_file_created type_of dir name s ≡ some t)
        × (find_file (in_dir dir name) t ≡ some (i, o))
        × ((file_of o).empty ≡ true)
        × ((file_of o).imported ≡ false)
        × (StringSet.contains name (Map.get_or [] dir t.manager.created) ≡ true)
        × ((parser : ParseDataType → Option (Reader fl)) (open_file : Text → Option (List ℕ))
            → on_file_write_close parser open_file dir name t ≡ some t)
  unfolding on_file_created
  on_file_created_lem type_of dir name s h =
      let path = in_dir dir name in
      let (i, o, added, known, found, there) = server_add_file-Added path (type_of path) s h in
      let u = (server_add_file path (type_of path) s).1 in
      let f : File fl = record (file_of o) { empty = true; imported = false } in
      let t = server_file_create dir name (store_file i (set_file f o) u) in
      let same = file_of-set_file f o in
      let here =
        find_file-known path i (set_file f o) t known found (Map.get-put_self i _ u.manager.heap) in
      let shut = ap (λ g. g.imported) same in
      let closed = not_imported path i (set_file f o) t here shut in
      (
        t,
        i,
        set_file f o,
        rw (on_file_created, added, update_pointer-there i o _ u there) refl,
        here,
        ap (λ g. g.empty) same,
        shut,
        listed dir name u.manager.created,
        λ parser open_file. on_file_write_close-closed parser open_file dir name t closed,
      )
    where
      listed :
          (dir name : Text) (m : Map Text StringSet.StringSet)
          → StringSet.contains name
              (Map.get_or [] dir (Map.put dir (StringSet.insert name (Map.get_or [] dir m)) m))
            ≡ true
      listed dir name m =
          rw (Map.get_or-put, Map.same_refl dir, StringSet.contains-insert, Map.same_refl name) refl

-- The sum that `AddParseTask` computes, as far as an `int` holds it.
pub data_size_pair :
    (a b : ℕ)
    → a < 2 ^ 64
    → a % 2 ^ 32 < 2 ^ 31
    → b < 2 ^ 63
    → data_size 0 (a ∷ b ∷ []) ≡ a % 2 ^ 32 + b
unfolding data_size sign_extended
data_size_pair a b h k l = ground arith
