-- ===== src/Handler/FileMerge.antt =====
-- Scalar/server/src/plugin/Handler/ScalarVisuallyFileMergeHandler.cpp: merging files to a virtual
-- file, and the way back. The name that `GeneratorFileName` makes is not used by the source.
pub mod Known
use mathlib.Core.Option
use mathlib.Core.Option.{some-injective}
use blue_workspace_build.Base.{
  ℕ, zero, suc, ◌+◌, ◌-◌, ◌*◌, ◌/◌, ◌%◌, ◌^◌, ◌≤◌, ◌<◌, min, max, ◌≡◌, refl, sym, ap, ◌∙◌, ◌≢◌, ◌↔◌,
  ◌⊎◌, inl, inr, Bool, true, false, not, ◌&&◌, ◌||◌, Option, none, some, List, [], ◌∷◌, ◌++◌, map,
  arith, ltb, leb, eqb, if◌then◌else◌, ltb→lt, lt→ltb, eqb_iff, Bool-cases, Option-cases, length,
  get_elem?, take, drop, is_empty, all_of, any_of, last_or, length-append, last_or-append, All,
  All-append, All-mono, length-take, length-drop, take-append-drop, length-map, get_elem?_total,
  drop-append, drop-nil, Text, codes, text_eq, text_lt, text_eq_iff, text_lt_irrefl, text_lt_trans,
  text_lt_total,
}
use blue_workspace_build.Base.Floats.{Floats}
use blue_workspace_build.Base.Map
use blue_workspace_build.Base.Map.{nat_key, text_key}
use blue_workspace_build.Base.StringSet
use blue_workspace_build.Base.StringSet.{StringSet}
use blue_workspace_build.Concept.{ErrCode, ParseDataType}
use blue_workspace_build.Json.{
  Json, ◌>>=◌, both, both-true, all_checked, map_all, map_all_total, member_is, get_member,
  get_member_total, all_members, all_members_total, has_member,
}
use blue_workspace_build.File.{File, FileType, make_file}
use blue_workspace_build.Manager.{
  Stored, virtual, plain, file_of, get_file_info, index_files, add_pointer,
}
use blue_workspace_build.Manager.Index.{IsManager}
use blue_workspace_build.Graphs.{Server, find_file, store_file}
use blue_workspace_build.Graphs.Virtual.{add_sub_files, add_virtual_file, del_virtual_file}
use blue_workspace_build.Handler.{Parsed, rejected, accepted, read_checked}
use mathlib.Core.Option.{some-injective}

-- struct FileMergeRequest.
pub record FileMergeRequest : Type 0 where
  pub merge : Bool
  pub name : Text
  pub files : List Text

-- struct FileMergeResponse.
pub record FileMergeResponse : Type 0 where
  pub file : Text
  pub action : Text
  pub name : Text
  pub sub_files : StringSet
  pub tag : StringSet

module _ {fl : Floats} (j : Json fl) where
  -- CheckParamValid.
  unfoldable pub check_file_merge : j.Value → Option Bool
  unfolding both member_is all_members
  check_file_merge v = both (member_is j (codes "action") j.text v) (
      both (member_is j (codes "name") j.text v) (
        both (member_is j (codes "fileList") j.array v)
          (all_members j (codes "fileList") (λ item. some (j.text.is item)) v)))

  -- The part of `ParseRequestFromJson` behind the check.
  unfoldable pub read_file_merge : j.Value → Option FileMergeRequest
  unfolding get_member map_all
  read_file_merge v = do
    action ← get_member j (codes "action") j.text v
    name ← get_member j (codes "name") j.text v
    items ← get_member j (codes "fileList") j.array v
    files ← map_all j.text.get items
    some record { merge = text_eq action (codes "merge"); name = name; files = files }

  -- ParseRequestFromJson, which goes on with `failed`, what a document holds when its text could not
  -- be parsed.
  unfoldable pub parse_file_merge : j.Value → Text → Option (Parsed FileMergeRequest)
  unfolding read_checked
  parse_file_merge failed body = elim (j.parse body) [
    | none ↦ read_checked j check_file_merge read_file_merge failed
    | some v ↦ read_checked j check_file_merge read_file_merge v
  ]

  -- A document that passes the check is read without a failed assertion, with a name for each entry
  -- of its list.
  pub read_file_merge_total :
      (v : j.Value)
      → check_file_merge v ≡ some true
      → (r : FileMergeRequest) × (items : List j.Value) × (read_file_merge v ≡ some r)
        × (get_member j (codes "fileList") j.array v ≡ some items)
        × (length r.files ≡ length items)
  unfolding check_file_merge read_file_merge
  read_file_merge_total v h =
      let (acted, h1) = both-true _ _ h in
      let (named, h2) = both-true _ _ h1 in
      let (_, listed) = both-true (member_is j (codes "fileList") j.array v) _ h2 in
      let (action, a) = get_member_total j (codes "action") j.text v acted in
      let (name, b) = get_member_total j (codes "name") j.text v named in
      let (items, files, c, d, same) =
        all_members_total j (codes "fileList") (λ item. some (j.text.is item)) j.text.get v read
          listed in
      (
        record { merge = text_eq action (codes "merge"); name = name; files = files },
        items,
        rw (read_file_merge, a, b, c, d) refl,
        c,
        same,
      )
    where
      read : (x : j.Value) → some (j.text.is x) ≡ some true → (t : Text) × (j.text.get x ≡ some t)
      read x e = j.text.total x (some-injective _ _ e)

  -- A request whose text cannot be parsed fails an assertion, if a document then holds a value that
  -- is no object.
  pub parse_file_merge_unparsed :
      (failed : j.Value) (body : Text)
      → j.object.get failed ≡ none
      → j.parse body ≡ none
      → parse_file_merge failed body ≡ none
  unfolding parse_file_merge check_file_merge member_is has_member
  parse_file_merge_unparsed failed body h e =
      rw (parse_file_merge, e, read_checked, check_file_merge, both, member_is, has_member, h) refl

-- The constructor of a virtual file.
unfoldable pub make_virtual : (fl : Floats) → Text → Stored fl
unfolding make_file
make_virtual fl name =
    virtual (record (make_file fl name ParseDataType.text_log) { type = FileType.visual }) []

module _ {fl : Floats} where
  -- The lambda `InValidFile`.
  unfoldable pub invalid_file : Server fl → Text → Bool
  unfolding find_file file_of
  invalid_file s file = elim (find_file file s) [
    | none ↦ true
    | some (i, o) ↦ elim (file_of o).type [ FileType.normal ↦ false | FileType.visual ↦ true ]
  ]

  -- `std::make_shared<VirtualFile>` with `AddSubFiles`: the new object with its pointer.
  unfoldable pub new_virtual : List Text → Text → Server fl → Stored fl × ℕ × Server fl
  unfolding make_virtual add_sub_files store_file
  new_virtual files name s =
      let i = s.manager.next in
      let o = add_sub_files files s (make_virtual fl name) in
      let t = store_file i o s in (o, i, record t { manager = record t.manager { next = i + 1 } })

  -- FileMerge.
  unfoldable pub file_merge : List Text → Text → Server fl → Stored fl × Server fl
  unfolding new_virtual add_virtual_file
  file_merge files name s = let (o, i, t) = new_virtual files name s in (o, add_virtual_file i o t)

  -- FileUnMerge.
  unfoldable pub file_unmerge : Text → Server fl → Server fl
  unfolding find_file file_of del_virtual_file
  file_unmerge [] s = s
  file_unmerge (b ∷ bs) s = elim (find_file (b ∷ bs) s) [
    | none ↦ s
    | some (i, o) ↦ elim (file_of o).type [
      | FileType.normal ↦ s
      | FileType.visual ↦ del_virtual_file o s
    ]
  ]

  -- GetSubFiles.
  unfoldable pub get_sub_files : Stored fl → StringSet
  get_sub_files (plain f) = []
  get_sub_files (virtual f subs) = subs

  -- The two branches of `run`.
  unfoldable pub merged : FileMergeRequest → Server fl → Parsed FileMergeResponse × Server fl
  unfolding file_merge get_sub_files file_of
  merged r s =
      let (o, t) = file_merge r.files r.name s in
      (
        accepted record {
          file = (file_of o).file_path;
          action = codes "merge";
          name = r.name;
          sub_files = get_sub_files o;
          tag = (file_of o).tags;
        },
        t,
      )

  unfoldable pub unset : FileMergeRequest → Server fl → Parsed FileMergeResponse × Server fl
  unfolding file_unmerge find_file file_of
  unset r s = elim (find_file r.name s) [
    | none ↦ (rejected ErrCode.request_invalid_param, s)
    | some (i, o) ↦ elim (file_of o).type [
      | FileType.normal ↦ (rejected ErrCode.request_invalid_param, s)
      | FileType.visual ↦ (
        accepted record {
          file = (file_of o).file_path;
          action = codes "unset";
          name = r.name;
          sub_files = [];
          tag = (file_of o).tags;
        },
        file_unmerge r.name s,
      )
    ]
  ]

  -- `run` behind the parsing, with its value.
  unfoldable pub answer_file_merge :
      Parsed FileMergeRequest → Server fl → Bool × Parsed FileMergeResponse × Server fl
  unfolding invalid_file merged unset
  answer_file_merge (rejected code) s = (false, rejected code, s)
  answer_file_merge (accepted r) s =
      if any_of (invalid_file s) r.files
      then (false, rejected ErrCode.request_invalid_param, s)
      else let (reply, t) = (if r.merge then merged r s else unset r s) in (true, reply, t)
