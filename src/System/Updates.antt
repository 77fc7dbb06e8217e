-- ===== src/System/Updates.antt =====
-- What the watcher does with a file that was written: `OnFileDataUpdate` of
-- Scalar/server/src/plugin/ScalarVisuallyServer.cpp.
use blue_workspace_build.Base.{ℕ, ◌≡◌, true, false, Option, none, some, Text}
use blue_workspace_build.Base.Floats.{Floats}
use blue_workspace_build.Base.Map.{nat_key}
use blue_workspace_build.Concept.{ParseDataType}
use blue_workspace_build.Manager.{Stored, file_of}
use blue_workspace_build.Graphs.{Server, find_file}
use blue_workspace_build.Plugin.{update_pointer, server_file_create}
use blue_workspace_build.Plugin.{Reader, in_dir, pointer_empty}
use blue_workspace_build.System.Parses.{Delivers}

module _ {fl : Floats} where
  -- What `OnFileDataUpdate` can do: nothing, where the file is not known or has no parser; or
  -- deliveries of entries of the file with the new offset, and perhaps, for a file that is noted as
  -- empty, the note that it is not any more.
  pub data Updates (parser : ParseDataType → Option (Reader fl)) (dir name : Text) (s : Server fl)
      : Server fl → Type 0 where
    unknown : find_file (in_dir dir name) s ≡ none → Updates parser dir name s s
    unparsed :
        (i : ℕ) (o : Stored fl)
        → find_file (in_dir dir name) s ≡ some (i, o)
        → parser (file_of o).data_type ≡ none
        → Updates parser dir name s s
    read :
        (i offset : ℕ) (o : Stored fl) (t : Server fl)
        → find_file (in_dir dir name) s ≡ some (i, o)
        → Delivers (in_dir dir name) s t
        → Updates parser dir name s (update_pointer i (λ f. record f { offset = offset }) t)
    filled :
        (i offset : ℕ) (o : Stored fl) (t : Server fl)
        → find_file (in_dir dir name) s ≡ some (i, o)
        → Delivers (in_dir dir name) s t
        → pointer_empty i t ≡ true
        → Updates parser dir name s (
            update_pointer i
              (λ f. record f { empty = false })
              (server_file_create dir name
                (update_pointer i (λ f. record f { offset = offset }) t)))
