-- ===== src/System/Changes.antt =====
-- The steps of an import, of the watcher and of the token parameters keep the invariant.
use mathlib.Core.Path.{subst}
use mathlib.Core.Option.{some-injective}
use blue_workspace_build.Base.{
  ℕ, ◌≡◌, refl, sym, inl, inr, true, false, some, List, [], ◌∷◌, arith, Bool-cases, Option-cases,
  Text,
}
use blue_workspace_build.Base.Floats.{Floats}
use blue_workspace_build.Base.Map
use blue_workspace_build.Base.Map.{Map, text_key, nat_key}
use blue_workspace_build.Base.StringSet
use blue_workspace_build.Base.StringSet.{StringSet}
use blue_workspace_build.Concept.{ParseDataType}
use blue_workspace_build.File.{File, FileType, make_file}
use blue_workspace_build.Manager.{Stored, plain, file_of, set_file}
use blue_workspace_build.Manager.Index.{add_file-there, add_file-new}
use blue_workspace_build.Graphs.{Server, find_file, store_file}
use blue_workspace_build.Graphs.Lookup.{find_file-parts}
use blue_workspace_build.Parser.Cache.{is_file_imported}
use blue_workspace_build.Plugin.{
  server_add_file, collect_files, update_pointer, server_file_create, on_file_created, in_dir,
}
use blue_workspace_build.Handler.TokenSet.{TokenInfo, set_file_token, with_tokens}
use blue_workspace_build.System.{IsServer, IsObject}
use blue_workspace_build.System.Tables.{
  managed, created-IsServer, grown, grown-IsServer, linked-IsServer,
}
use blue_workspace_build.System.Files.{Keeps, set_file-IsServer}

new_file-IsObject :
    (fl : Floats) (path : Text) (type : ParseDataType) → IsObject (plain (make_file fl path type))
unfolding make_file Map.has Map.get
new_file-IsObject fl path type = (refl, λ tag h. absurd (ground (arith, h)))

module _ {fl : Floats} where
  server_add_file-IsServer :
      (path : Text) (type : ParseDataType) (s : Server fl)
      → IsServer s
      → IsServer (server_add_file path type s).1
  unfolding server_add_file make_file file_of
  server_add_file-IsServer path type s h =
      elim (Bool-cases (StringSet.contains path s.manager.paths)) [
        | inl e ↦
            let (i, o, found, _, _) = h.manager.known path e in
            subst (λ r. IsServer (managed r.1 s))
              (sym (add_file-there path type i s.manager e found)) h
        | inr e ↦
            let o : Stored fl = plain (make_file fl path type) in
            subst (λ r. IsServer (managed r.1 s)) (sym (add_file-new path type s.manager e))
              (linked-IsServer path s.manager.next o (grown o s)
                (grown-IsServer o s h (new_file-IsObject fl path type))
                (Map.get-put_self s.manager.next o s.manager.heap) (omega arith) refl)
      ]

  pub collect_files-IsServer :
      (type_of : Text → ParseDataType) (paths : List Text) (s : Server fl)
      → IsServer s
      → IsServer (collect_files type_of paths s).1
  unfolding collect_files
  collect_files-IsServer type_of [] s h = h
  collect_files-IsServer type_of (path ∷ paths) s h = elim (Bool-cases (is_file_imported path s)) [
    | inl e ↦ rw (collect_files, e) (collect_files-IsServer type_of paths s h)
    | inr e ↦
        rw (collect_files, e)
          (collect_files-IsServer type_of paths (server_add_file path (type_of path) s).1
            (server_add_file-IsServer path (type_of path) s h))
  ]

  pub update_pointer-IsServer :
      (i : ℕ) (change : File fl → File fl) (s : Server fl)
      → ((f : File fl) → Keeps f (change f))
      → IsServer s
      → IsServer (update_pointer i change s)
  unfolding update_pointer
  update_pointer-IsServer i change s k h = elim (Option-cases (Map.get i s.manager.heap)) [
    | inl e ↦ rw (update_pointer, e) h
    | inr (o, e) ↦ rw (update_pointer, e) (set_file-IsServer i o _ s h e (k (file_of o)))
  ]

  pub server_file_create-IsServer :
      (dir name : Text) (s : Server fl) → IsServer s → IsServer (server_file_create dir name s)
  unfolding server_file_create
  server_file_create-IsServer dir name s h = created-IsServer _ s h

  pub on_file_created-IsServer :
      (type_of : Text → ParseDataType) (dir name : Text) (s t : Server fl)
      → IsServer s
      → on_file_created type_of dir name s ≡ some t
      → IsServer t
  unfolding on_file_created
  on_file_created-IsServer type_of dir name s t h e =
      let path = in_dir dir name in
      let u = (server_add_file path (type_of path) s).1 in
      let change : File fl → File fl = λ f. record f { empty = true; imported = false } in
      elim (Option-cases (server_add_file path (type_of path) s).0) [
        | inl f ↦ cc (rw (on_file_created, f) at e)
        | inr (i, f) ↦ subst IsServer (some-injective _ _ (rw (on_file_created, f) at e)) (
            server_file_create-IsServer dir name (update_pointer i change u) (
              update_pointer-IsServer i change u (λ g. (refl, refl, λ r. r))
                (server_add_file-IsServer path (type_of path) s h)))
      ]

  pub set_file_token-IsServer :
      (info : TokenInfo fl) (s : Server fl) → IsServer s → IsServer (set_file_token info s).1
  unfolding set_file_token with_tokens
  set_file_token-IsServer info s h = elim (Option-cases (find_file info.file s)) [
    | inl e ↦ rw (set_file_token, e) h
    | inr ((i, o), e) ↦
        let (_, _, _, there) = find_file-parts info.file i o s h.manager e in
        rw (set_file_token, e) (stored i o there (file_of o).type)
  ]
    where
      stored :
          (i : ℕ) (o : Stored fl)
          → Map.get i s.manager.heap ≡ some o
          → (type : FileType)
          → IsServer
              (elim type as (λ _. StringSet × Server fl) [
                | FileType.visual ↦ ([], s)
                | FileType.normal ↦
                    ((file_of o).tags, store_file i (set_file (with_tokens info (file_of o)) o) s)
              ]).1
      stored i o there FileType.visual = h
      stored i o there FileType.normal =
          set_file-IsServer i o (with_tokens info (file_of o)) s h there (refl, refl, λ r. r)
