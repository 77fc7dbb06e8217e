-- ===== src/System/Reach.antt =====
-- Every step keeps the invariant of the server, and what follows for every state that it reaches.
use blue_workspace_build.Base.{
  ℕ, ◌≡◌, refl, inl, inr, Bool, true, false, some, List, [], arith, if◌then◌else◌, Bool-cases,
  Option-cases, Text,
}
use blue_workspace_build.Base.Floats.{Floats}
use blue_workspace_build.Base.Map
use blue_workspace_build.Base.Map.{text_key, nat_key}
use blue_workspace_build.Base.StringSet
use blue_workspace_build.Concept.{DataMode}
use blue_workspace_build.Concept.View.{DataView}
use blue_workspace_build.File.{
  File, get_data, get_data_normal, data_of_mode, get_intersection_range, step_ends, view_between,
  get_smoothing_data, FileType,
}
use blue_workspace_build.Manager.{virtual, plain, get_created, reset_manager, file_of, Stored}
use blue_workspace_build.Graphs.{Server, find_file, get_incremental, drain, add_incremental}
use blue_workspace_build.Graphs.Lookup.{find_file-parts}
use blue_workspace_build.Plugin.{server_file_create, reset_server}
use blue_workspace_build.System.{
  IsServer, IsReadable, Step, imports, notes, updates, reads, fills, creates, sets_tokens, smooths,
  merges, unsets, polls_tags, polls_files, resets, Reaches, here, next, empty_server, IsObject,
}
use blue_workspace_build.System.Tables.{incremental-IsServer, created-IsServer}
use blue_workspace_build.System.Files.{update_graph-IsServer}
use blue_workspace_build.System.Changes.{
  collect_files-IsServer, update_pointer-IsServer, on_file_created-IsServer,
  set_file_token-IsServer, server_file_create-IsServer,
}
use blue_workspace_build.System.Merges.{
  update_graph_smoothing-IsServer, merged-IsServer, unset-IsServer,
}

unfoldable pub is_virtual : {fl : Floats} → Stored fl → Bool
is_virtual (plain f) = false
is_virtual (virtual f subs) = true

object-type :
    {fl : Floats} (o : Stored fl)
    → IsObject o
    → (file_of o).type ≡ (if is_virtual o then FileType.visual else FileType.normal)
unfolding file_of is_virtual
object-type (plain f) h = h.0
object-type (virtual f subs) h = h.0

module _ {fl : Floats} where
  nothing-IsServer : (s : Server fl) → IsServer s → IsServer (reset_server s)
  unfolding reset_server reset_manager StringSet.contains Map.get
  nothing-IsServer s h = record {
    manager = record { known = λ path e. absurd (ground (arith, e)); missing = λ path e. refl };
    named = λ tag g e. absurd (ground (arith, e));
    objects = h.objects;
    filed = λ path i o e f. absurd (ground (arith, e));
  }

  empty_server-IsServer : IsServer (empty_server {fl = fl})
  unfolding StringSet.contains Map.get
  empty_server-IsServer = record {
    manager = record { known = λ path e. absurd (ground (arith, e)); missing = λ path e. refl };
    named = λ tag g e. absurd (ground (arith, e));
    objects = λ i o e. absurd (ground (arith, e));
    filed = λ path i o e f. absurd (ground (arith, e));
  }

  Step-IsServer : {s t : Server fl} → Step s t → IsServer s → IsServer t
  unfolding get_incremental get_created add_incremental
  Step-IsServer {s = s} (imports type_of paths) h = collect_files-IsServer type_of paths s h
  Step-IsServer {s = s} (notes file tag) h = incremental-IsServer _ s h
  Step-IsServer {s = s} (updates tag file points t d) h =
      update_graph-IsServer tag file points s t h d
  Step-IsServer {s = s} (reads i offset) h =
      update_pointer-IsServer i (λ f. record f { offset = offset }) s (λ f. (refl, refl, λ r. r)) h
  Step-IsServer {s = s} (fills i dir name) h =
      update_pointer-IsServer i (λ f. record f { empty = false }) (server_file_create dir name s)
        (λ f. (refl, refl, λ r. r)) (server_file_create-IsServer dir name s h)
  Step-IsServer {s = s} (creates type_of dir name t d) h =
      on_file_created-IsServer type_of dir name s t h d
  Step-IsServer {s = s} (sets_tokens info) h = set_file_token-IsServer info s h
  Step-IsServer {s = s} (smooths tag file param t d) h =
      update_graph_smoothing-IsServer tag file param s t h d
  Step-IsServer {s = s} (merges r) h = merged-IsServer r s h
  Step-IsServer {s = s} (unsets r) h = unset-IsServer r s h
  Step-IsServer {s = s} polls_tags h = incremental-IsServer (drain 0 s.incremental).1 s h
  Step-IsServer {s = s} polls_files h = created-IsServer [] s h
  Step-IsServer {s = s} resets h = nothing-IsServer s h

  -- In every state that any sequence of the server's calls leads to from the start, each of an
  -- import, a parser, the watcher or a request, in any order and each run to its end before the
  -- next, the tables of the files agree, each graph stands under its tag and each file under its
  -- path, and every object that was ever made has the type of its class and points for each tag with
  -- a range.
  pub Reaches-IsServer : {s : Server fl} → Reaches empty_server s → IsServer s
  Reaches-IsServer here = empty_server-IsServer
  Reaches-IsServer (next r st) = Step-IsServer st (Reaches-IsServer r)

  get_data_normal-total :
      (tag : Text) (left right : ℕ) (f : File fl)
      → Map.has tag f.points ≡ true
      → (vs : List (DataView fl)) × (get_data_normal tag left right f ≡ some vs)
  unfolding get_data_normal Map.has
  get_data_normal-total tag left right f h = elim (Option-cases (Map.get tag f.points)) [
    | inl e ↦ absurd (ground (arith, rw (Map.has, e) at h))
    | inr (ps, e) ↦ (view_between f.file_path ps left right, rw (get_data_normal, e) refl)
  ]

  data_of_mode-total :
      (mode : DataMode) (tag : Text) (left right : ℕ) (f : File fl)
      → Map.has tag f.points ≡ true
      → (vs : List (DataView fl)) × (data_of_mode mode tag left right f ≡ some vs)
  unfolding data_of_mode
  data_of_mode-total DataMode.token tag left right f h = get_data_normal-total tag left right f h
  data_of_mode-total DataMode.token_normal tag left right f h =
      get_data_normal-total tag left right f h
  data_of_mode-total DataMode.normal tag left right f h = get_data_normal-total tag left right f h
  data_of_mode-total DataMode.token_smoothing tag left right f h =
      (get_smoothing_data tag left right f, refl)
  data_of_mode-total DataMode.smoothing tag left right f h =
      (get_smoothing_data tag left right f, refl)
  data_of_mode-total DataMode.sample tag left right f h = ([], refl)

  ranged :
      (tag : Text) (left right a b : ℕ) (f : File fl)
      → get_intersection_range tag left right f ≡ some (a, b)
      → Map.has tag f.range ≡ true
  unfolding get_intersection_range Map.has
  ranged tag left right a b f h = elim (Option-cases (Map.get tag f.range)) [
    | inl e ↦ cc (rw (get_intersection_range, e) at h)
    | inr (r, e) ↦ rw (Map.has, e) refl
  ]

  -- In every state that steps of the server lead to from the start, the type of an object that a
  -- path stands for, which the handlers ask for before they treat it as a virtual file, is that
  -- of its class.
  pub Reaches-type :
      (path : Text) (i : ℕ) (o : Stored fl) (s : Server fl)
      → Reaches empty_server s
      → find_file path s ≡ some (i, o)
      → (file_of o).type ≡ (if is_virtual o then FileType.visual else FileType.normal)
  Reaches-type path i o s r e =
      let h = Reaches-IsServer r in
      let (_, _, _, there) = find_file-parts path i o s h.manager e in
      object-type o (h.objects i o there)

  -- In every state that steps of the server lead to from the start, `GetData` of the file that a
  -- path stands for, if that is no virtual file, is answered without an exception, for every tag,
  -- range and mode.
  pub get_data_total :
      (path tag : Text) (left right : ℕ) (mode : DataMode) (i : ℕ) (f : File fl) (s : Server fl)
      → Reaches empty_server s
      → find_file path s ≡ some (i, plain f)
      → (vs : List (DataView fl)) × (get_data tag left right mode f ≡ some vs)
  unfolding get_data Map.has
  get_data_total path tag left right mode i f s r e =
      let h = Reaches-IsServer r in
      let (_, _, _, there) = find_file-parts path i (plain f) s h.manager e in
      let readable : IsReadable f = (h.objects i (plain f) there).1 in
      let (left', right') = step_ends mode left right f in
      elim (Bool-cases (StringSet.contains tag f.tags)) [
        | inr k ↦ ([], rw (get_data, k) refl)
        | inl k ↦ elim (Option-cases (get_intersection_range tag left' right' f)) [
          | inl l ↦ ([], rw (get_data, k, l) refl)
          | inr ((a, b), l) ↦
              let (vs, m) =
                data_of_mode-total mode tag a b f
                  (readable tag (ranged tag left' right' a b f l)) in
              (vs, rw (get_data, k, l) m)
        ]
      ]
