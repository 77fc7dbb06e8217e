-- ===== src/Handler/Answer/Served.antt =====
-- The lists of the answers of Scalar/server/src/plugin/Handler: how a client reads their entries,
-- and that it reads what the server holds.

use blue_workspace_build.Base.{
  ℕ, ◌^◌, ◌<◌, ◌≡◌, refl, ap, ◌∙◌, Bool, true, Option, some, List, [], ◌∷◌, map, All, Text, codes,
}
use blue_workspace_build.Base.Floats.{Floats}
use blue_workspace_build.Base.StringSet.{StringSet}
use blue_workspace_build.Base.Map
use blue_workspace_build.Base.Map.{Map, text_key}
use blue_workspace_build.Json.{Json, ◌>>=◌, get_member, map_all}
use blue_workspace_build.Json.Writer.{Writer, texts_value}
use blue_workspace_build.Json.Answers.{
  get_member-Holds, map_all-Reads, add_members-empty, texts_value-plain, texts_value-read,
}
use blue_workspace_build.Graphs.{Server, get_all_graph_info}
use blue_workspace_build.Manager.{get_created}
use blue_workspace_build.Handler.Answer.{
  get_readable_file_name, write_graph_file, write_graph, run_get_all_graph, write_created,
  run_query_created_file, write_state,
}
use blue_workspace_build.Handler.Answer.Read.{read_status, read_list, set_list-Reads}

-- `xs` as it is.
pub map_same : {A : Type 0} (xs : List A) → map (λ x. x) xs ≡ xs
map_same [] = refl
map_same (x ∷ xs) = ap (◌∷◌ x) (map_same xs)

pub All-any : {A : Type 0} (xs : List A) → All (λ x. Unit {0}) xs
All-any [] = tt
All-any (x ∷ xs) = (tt, All-any xs)

-- A graph as a client sees it.
abbrev pub shown_graph : (Text → Text) → Text × List Text → Text × List (Text × Text)
shown_graph filename (tag, files) =
    (tag, map (λ file. (file, get_readable_file_name filename file)) files)

module _ {fl : Floats} (j : Json fl) where
  -- A list of strings that is a member.
  unfoldable pub read_texts : Text → j.Value → Option (List Text)
  unfolding get_member map_all
  read_texts name v = do items ← get_member j name j.array v; map_all j.text.get items

  -- A folder with the files that were created in it.
  unfoldable pub read_created : j.Value → Option (Text × List Text)
  unfolding get_member read_texts
  read_created v = do
    dir ← get_member j (codes "dir") j.text v
    files ← read_texts (codes "fileList") v
    some (dir, files)

  -- A file with its path and the name that is shown.
  unfoldable pub read_graph_file : j.Value → Option (Text × Text)
  unfolding get_member
  read_graph_file v = do
    path ← get_member j (codes "path") j.text v
    name ← get_member j (codes "name") j.text v
    some (path, name)

  -- A graph with its tag and its files.
  unfoldable pub read_graph_info : j.Value → Option (Text × List (Text × Text))
  unfolding get_member read_graph_file map_all
  read_graph_info v = do
    tag ← get_member j (codes "tag") j.text v
    items ← get_member j (codes "fileList") j.array v
    files ← map_all read_graph_file items
    some (tag, files)

  -- A project with its name, whether it is finished, and the percentage.
  unfoldable pub read_state : j.Value → Option (Text × Bool × ℕ)
  unfolding get_member
  read_state v = do
    name ← get_member j (codes "projectName") j.text v
    finish ← get_member j (codes "finish") j.bool v
    percent ← get_member j (codes "percent") j.int64 v
    some (name, finish, percent)

module _ {fl : Floats} {j : Json fl} (wr : Writer j) where
  pub read_texts-lem :
      (name : Text) (v : j.Value) (ms : List (Text × j.Value)) (ts : List Text)
      → wr.Members v ms × wr.IsPlain v
      → Map.get name ms ≡ some (texts_value wr ts)
      → read_texts j name v ≡ some ts
  unfolding read_texts
  read_texts-lem name v ms ts held e =
      let (vs, got, read) = texts_value-read wr ts in
      let there = get_member-Holds wr name j.array v (texts_value wr ts) ms vs held e got in
      rw (read_texts, there) read

  pub write_created-Reads :
      (e : Text × StringSet)
      → Unit {0}
      → (v : j.Value) × (write_created wr e ≡ some v) × wr.IsPlain v × (read_created j v ≡ some e)
  unfolding write_created read_created Map.get
  write_created-Reads (dir, files) _ =
      let ns : List (Text × j.Value) =
        (codes "dir", wr.text_value dir) ∷ (codes "fileList", texts_value wr files) ∷ [] in
      let (v, made, held) =
        add_members-empty wr ns (wr.text_plain dir, (texts_value-plain wr files, tt)) in
      let here = get_member-Holds wr (codes "dir") j.text v _ _ _ held refl (wr.text_read dir) in
      let there = read_texts-lem (codes "fileList") v _ files held refl in
      (v, made, held.1, rw (read_created, here, there) refl)

  write_graph_file-Reads :
      (filename : Text → Text) (file : Text)
      → Unit {0}
      → (v : j.Value) × (write_graph_file wr filename file ≡ some v)
        × wr.IsPlain v
        × (read_graph_file j v ≡ some (file, get_readable_file_name filename file))
  unfolding write_graph_file read_graph_file Map.get
  write_graph_file-Reads filename file _ =
      let shown = get_readable_file_name filename file in
      let ns : List (Text × j.Value) =
        (codes "path", wr.text_value file) ∷ (codes "name", wr.text_value shown) ∷ [] in
      let (v, made, held) =
        add_members-empty wr ns (wr.text_plain file, (wr.text_plain shown, tt)) in
      let here = get_member-Holds wr (codes "path") j.text v _ _ _ held refl (wr.text_read file) in
      let there =
        get_member-Holds wr (codes "name") j.text v _ _ _ held refl (wr.text_read shown) in
      (v, made, held.1, rw (read_graph_file, here, there) refl)

  write_graph-Reads :
      (filename : Text → Text) (e : Text × List Text)
      → Unit {0}
      → (v : j.Value) × (write_graph wr filename e ≡ some v)
        × wr.IsPlain v
        × (read_graph_info j v ≡ some (shown_graph filename e))
  unfolding write_graph read_graph_info Map.get
  write_graph-Reads filename (tag, files) _ =
      let (vs, listed, plain, got) =
        map_all-Reads wr (λ file. Unit {0}) (write_graph_file wr filename) (read_graph_file j)
          (λ file. (file, get_readable_file_name filename file)) (write_graph_file-Reads filename)
          files (All-any files) in
      let ns : List (Text × j.Value) =
        (codes "tag", wr.text_value tag) ∷ (codes "fileList", wr.array_value vs) ∷ [] in
      let (v, made, held) =
        add_members-empty wr ns (wr.text_plain tag, (wr.array_plain vs plain, tt)) in
      let here = get_member-Holds wr (codes "tag") j.text v _ _ _ held refl (wr.text_read tag) in
      let there =
        get_member-Holds wr (codes "fileList") j.array v _ _ _ held refl (wr.array_read vs) in
      (v, rw (write_graph, listed) made, held.1, rw (read_graph_info, here, there, got) refl)

  pub write_state-Reads :
      (e : Text × Bool × ℕ)
      → e.2 < 2 ^ 63
      → (v : j.Value) × (write_state wr e ≡ some v) × wr.IsPlain v × (read_state j v ≡ some e)
  unfolding write_state read_state Map.get
  write_state-Reads (name, finish, percent) small =
      let ns : List (Text × j.Value) =
        (codes "projectName", wr.text_value name)
        ∷ (codes "finish", wr.bool_value finish)
        ∷ (codes "percent", wr.int_value percent)
        ∷ [] in
      let (v, made, held) =
        add_members-empty wr ns
          (wr.text_plain name, (wr.bool_plain finish, (wr.int_plain percent small, tt))) in
      let a =
        get_member-Holds wr (codes "projectName") j.text v _ _ _ held refl (wr.text_read name) in
      let b = get_member-Holds wr (codes "finish") j.bool v _ _ _ held refl (wr.bool_read finish) in
      let c =
        get_member-Holds wr (codes "percent") j.int64 v _ _ _ held refl
          (wr.int_read percent small) in
      (v, made, held.1, rw (read_state, a, b, c) refl)

  -- The request for the created files is answered; from its text a client reads every folder with
  -- its created files as the manager has them, under a good status, and the next request is
  -- answered with none.
  pub run_query_created_file-Reads :
      (s : Server fl)
      → (text again : Text) × (t : Server fl) × (run_query_created_file wr s ≡ some (text, t))
        × (read_status j text ≡ some (0, true, []))
        × (read_list j (codes "data") (read_created j) text ≡ some s.manager.created)
        × (run_query_created_file wr t ≡ some (again, t))
        × (read_list j (codes "data") (read_created j) again ≡ some [])
  unfolding run_query_created_file get_created
  run_query_created_file-Reads s =
      let created = s.manager.created in
      let t : Server fl = record s { manager = record s.manager { created = [] } } in
      let (text, set, good, listed) =
        set_list-Reads wr (λ e. Unit {0}) (codes "data") (write_created wr) (read_created j)
          (λ e. e) created (All-any created) write_created-Reads in
      let (again, set_again, _, none_listed) =
        set_list-Reads wr (λ e. Unit {0}) (codes "data") (write_created wr) (read_created j)
          (λ e. e) [] tt write_created-Reads in
      (
        text,
        again,
        t,
        rw (run_query_created_file, set) refl,
        good,
        listed ∙ ap some (map_same created),
        rw (run_query_created_file, set_again) refl,
        none_listed,
      )

  -- The request for all graphs is answered; from its text a client reads every tag with its files
  -- in the order of the graph, each with its path and its shown name, under a good status.
  pub run_get_all_graph-Reads :
      (filename : Text → Text) (s : Server fl)
      → (text : Text) × (run_get_all_graph wr filename s ≡ some text)
        × (read_status j text ≡ some (0, true, []))
        × (read_list j (codes "data") (read_graph_info j) text
            ≡ some (map (shown_graph filename) (get_all_graph_info s)))
  unfolding run_get_all_graph
  run_get_all_graph-Reads filename s =
      set_list-Reads wr (λ e. Unit {0}) (codes "data") (write_graph wr filename) (read_graph_info j)
        (shown_graph filename) (get_all_graph_info s) (All-any (get_all_graph_info s))
        (write_graph-Reads filename)
