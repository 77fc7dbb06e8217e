-- ===== src/Handler/Answer/Replies.antt =====
-- What a client reads of the answers to the requests for new tags, to a merge and to an import, of
-- Scalar/server/src/plugin/Handler.

use blue_workspace_build.Base.{◌≡◌, refl, true, Option, some, List, [], ◌∷◌, map, All, Text, codes}
use blue_workspace_build.Base.Floats.{Floats}
use blue_workspace_build.Base.StringSet.{StringSet}
use blue_workspace_build.Base.Map
use blue_workspace_build.Base.Map.{Map, text_key}
use blue_workspace_build.Concept.{ErrCode}
use blue_workspace_build.Json.{Json, ◌>>=◌, get_member, map_all}
use blue_workspace_build.Json.Writer.{Writer, basic_response, texts_value, err_code}
use blue_workspace_build.Json.Answers.{
  get_member-Holds, map_all-Reads, add_members-empty, texts_value-plain, basic-Answers,
  set_body-Answers,
}
use blue_workspace_build.Graphs.{Server, get_incremental}
use blue_workspace_build.Handler.FileMerge.{FileMergeResponse}
use blue_workspace_build.Handler.Answer.{
  get_readable_file_name, write_tag_file, write_tag, run_get_incremental, set_merge_response,
  set_import_response,
}
use blue_workspace_build.Handler.Answer.Read.{
  read_status, read_list, read_body, read_status-Answers, read_body-Answers, set_list-Reads,
}
use blue_workspace_build.Handler.Answer.Served.{read_texts, read_texts-lem}

module _ {fl : Floats} (j : Json fl) where
  -- A file of a new tag: its name that is shown, its path, and the parts of the path.
  unfoldable pub read_tag_file : j.Value → Option (Text × Text × List Text)
  unfolding get_member read_texts
  read_tag_file v = do
    name ← get_member j (codes "name") j.text v
    path ← get_member j (codes "path") j.text v
    dirs ← read_texts j (codes "dirs") v
    some (name, path, dirs)

  unfoldable pub read_tag : j.Value → Option (Text × List (Text × Text × List Text))
  unfolding get_member read_tag_file map_all
  read_tag v = do
    tag ← get_member j (codes "tag") j.text v
    items ← get_member j (codes "fileList") j.array v
    files ← map_all read_tag_file items
    some (tag, files)

  -- The file, its tags, its parts and the action of a merge.
  unfoldable pub read_merge : j.Value → Option (Text × List Text × List Text × Text)
  unfolding get_member read_texts
  read_merge v = do
    file ← get_member j (codes "file") j.text v
    tags ← read_texts j (codes "tags") v
    files ← read_texts j (codes "fileList") v
    action ← get_member j (codes "action") j.text v
    some (file, tags, files, action)

-- A new tag as a client sees it.
abbrev pub shown_tag :
    (Text → Text) → (Text → List Text) → Text × StringSet → Text × List (Text × Text × List Text)
shown_tag filename parts (tag, files) =
    (tag, map (λ file. (get_readable_file_name filename file, file, parts file)) files)

module _ {fl : Floats} {j : Json fl} (wr : Writer j) where
  write_tag_file-Reads :
      (filename : Text → Text) (hierarchy : Text → Option (List Text)) (parts : Text → List Text)
      (file : Text)
      → hierarchy file ≡ some (parts file)
      → (v : j.Value) × (write_tag_file wr filename hierarchy file ≡ some v)
        × wr.IsPlain v
        × (read_tag_file j v ≡ some (get_readable_file_name filename file, file, parts file))
  unfolding write_tag_file read_tag_file Map.get
  write_tag_file-Reads filename hierarchy parts file h =
      let shown = get_readable_file_name filename file in
      let dirs = parts file in
      let ns : List (Text × j.Value) =
        (codes "name", wr.text_value shown)
        ∷ (codes "path", wr.text_value file)
        ∷ (codes "dirs", texts_value wr dirs)
        ∷ [] in
      let (v, made, held) =
        add_members-empty wr ns
          (wr.text_plain shown, (wr.text_plain file, (texts_value-plain wr dirs, tt))) in
      let a = get_member-Holds wr (codes "name") j.text v _ _ _ held refl (wr.text_read shown) in
      let b = get_member-Holds wr (codes "path") j.text v _ _ _ held refl (wr.text_read file) in
      let c = read_texts-lem wr (codes "dirs") v ns dirs held refl in
      (v, rw (write_tag_file, h) made, held.1, rw (read_tag_file, a, b, c) refl)

  write_tag-Reads :
      (filename : Text → Text) (hierarchy : Text → Option (List Text)) (parts : Text → List Text)
      (e : Text × StringSet)
      → All (λ file. hierarchy file ≡ some (parts file)) e.1
      → (v : j.Value) × (write_tag wr filename hierarchy e ≡ some v)
        × wr.IsPlain v
        × (read_tag j v ≡ some (shown_tag filename parts e))
  unfolding write_tag read_tag Map.get
  write_tag-Reads filename hierarchy parts (tag, files) h =
      let (vs, listed, plain, got) =
        map_all-Reads wr (λ file. hierarchy file ≡ some (parts file))
          (write_tag_file wr filename hierarchy) (read_tag_file j)
          (λ file. (get_readable_file_name filename file, file, parts file))
          (write_tag_file-Reads filename hierarchy parts) files h in
      let ns : List (Text × j.Value) =
        (codes "tag", wr.text_value tag) ∷ (codes "fileList", wr.array_value vs) ∷ [] in
      let (v, made, held) =
        add_members-empty wr ns (wr.text_plain tag, (wr.array_plain vs plain, tt)) in
      let here = get_member-Holds wr (codes "tag") j.text v _ _ _ held refl (wr.text_read tag) in
      let there =
        get_member-Holds wr (codes "fileList") j.array v _ _ _ held refl (wr.array_read vs) in
      (v, rw (write_tag, listed) made, held.1, rw (read_tag, here, there, got) refl)

  -- If the path of every new file has parts, the request for the new tags is answered; from its
  -- text a client reads every new tag with its files, each with its shown name, its path and the
  -- parts of the path, under a good status, and the server has no new tags afterwards.
  pub run_get_incremental-Reads :
      (filename : Text → Text) (hierarchy : Text → Option (List Text)) (parts : Text → List Text)
      (s : Server fl)
      → All
          (λ (e : Text × StringSet). All (λ file. hierarchy file ≡ some (parts file)) e.1)
          (get_incremental s).0
      → (text : Text) × (run_get_incremental wr filename hierarchy s
          ≡ some (text, (get_incremental s).1))
        × (read_status j text ≡ some (0, true, []))
        × (read_list j (codes "data") (read_tag j) text
            ≡ some (map (shown_tag filename parts) (get_incremental s).0))
  unfolding run_get_incremental
  run_get_incremental-Reads filename hierarchy parts s h =
      let (text, set, good, listed) =
        set_list-Reads wr
          (λ (e : Text × StringSet). All (λ file. hierarchy file ≡ some (parts file)) e.1)
          (codes "data") (write_tag wr filename hierarchy) (read_tag j) (shown_tag filename parts)
          (get_incremental s).0 h (write_tag-Reads filename hierarchy parts) in
      (text, rw (run_get_incremental, set) refl, good, listed)

  -- The answer to a merge or its undoing tells a client the file, its tags, its parts and the
  -- action, under a good status.
  pub set_merge_response-Reads :
      (r : FileMergeResponse)
      → (text : Text) × (v : j.Value) × (set_merge_response wr r basic_response ≡ some text)
        × (read_status j text ≡ some (0, true, []))
        × (read_body j
              (codes "data")
              (record { is = λ v. true; get = λ v. some v; total = λ v h. (v, refl) })
              text
            ≡ some v)
        × (read_merge j v ≡ some (r.file, r.tag, r.sub_files, r.action))
  unfolding set_merge_response read_merge Map.get err_code
  set_merge_response-Reads r =
      let ns : List (Text × j.Value) =
        (codes "file", wr.text_value r.file)
        ∷ (codes "tags", texts_value wr r.tag)
        ∷ (codes "fileList", texts_value wr r.sub_files)
        ∷ (codes "action", wr.text_value r.action)
        ∷ [] in
      let (v, made, held) = add_members-empty wr ns (
        wr.text_plain r.file,
        (
          texts_value-plain wr r.tag,
          (texts_value-plain wr r.sub_files, (wr.text_plain r.action, tt)),
        ),
      ) in
      let (text, set, answers) =
        set_body-Answers wr (codes "data") v basic_response [] [] ErrCode.ok true (basic-Answers wr)
          held.1 in
      let a = get_member-Holds wr (codes "file") j.text v _ _ _ held refl (wr.text_read r.file) in
      let b = read_texts-lem wr (codes "tags") v ns r.tag held refl in
      let c = read_texts-lem wr (codes "fileList") v ns r.sub_files held refl in
      let d =
        get_member-Holds wr (codes "action") j.text v _ _ _ held refl (wr.text_read r.action) in
      (
        text,
        v,
        rw (set_merge_response, made) set,
        read_status-Answers wr text _ [] ErrCode.ok true answers,
        read_body-Answers wr (codes "data") _ v v text _ [] ErrCode.ok true answers refl refl,
        rw (read_merge, a, b, c, d) refl,
      )

  -- The answer to an import tells a client the name of the project, under a good status.
  pub set_import_response-Reads :
      (project : Text)
      → (text : Text) × (set_import_response wr project basic_response ≡ some text)
        × (read_status j text ≡ some (0, true, []))
        × (read_body j (codes "projectName") j.text text ≡ some project)
  unfolding set_import_response Map.get err_code
  set_import_response-Reads project =
      let (text, set, answers) =
        set_body-Answers wr (codes "projectName") (wr.text_value project) basic_response [] []
          ErrCode.ok true (basic-Answers wr) (wr.text_plain project) in
      (
        text,
        rw (set_import_response, set) refl,
        read_status-Answers wr text _ [] ErrCode.ok true answers,
        read_body-Answers wr (codes "projectName") j.text _ project text _ [] ErrCode.ok true
            answers refl (wr.text_read project),
      )
