-- ===== src/Pipeline/Begin.antt =====
-- A log from its import to the answer of a request: `AddParseTask` of
-- Scalar/server/src/plugin/ScalarVisuallyServer.cpp in front of `ParserData`.
use blue_workspace_build.Base.{ℕ, ◌+◌, refl, Option, some, [], ◌∷◌, arith, Text}
use blue_workspace_build.Base.Floats.{Floats}
use blue_workspace_build.Base.Map
use blue_workspace_build.Base.Map.{Map, text_key, nat_key}
use blue_workspace_build.Base.StringSet
use blue_workspace_build.Concept.{ParseDataType}
use blue_workspace_build.File.{make_file}
use blue_workspace_build.Manager.{plain}
use blue_workspace_build.Graphs.{Server}
use blue_workspace_build.Json.{Json}
use blue_workspace_build.Progress.{ParseState, new_state}
use blue_workspace_build.Plugin.{Reader, task_state}
use blue_workspace_build.System.{AreNamed}
use blue_workspace_build.Pipeline.{Imports}

module _ {fl : Floats} where
  -- The server with a new file.
  abbrev pub with_file : Text → ParseDataType → Server fl → Server fl
  with_file path type s = record s {
    manager = record s.manager {
      paths = StringSet.insert path s.manager.paths;
      files = Map.put path (some s.manager.next) s.manager.files;
      heap = Map.put s.manager.next (plain (make_file fl path type)) s.manager.heap;
      next = s.manager.next + 1;
    };
  }

  pub with_file-Imports :
      (path : Text) (type : ParseDataType) (s : Server fl)
      → AreNamed s.graphs
      → Imports path s.manager.next (make_file fl path type) (with_file path type s)
  unfolding make_file StringSet.contains
  with_file-Imports path type s named = record {
    known = rw (StringSet.contains-insert, Map.same_refl path) refl;
    pointer = Map.get-put_self path _ s.manager.files;
    object = Map.get-put_self s.manager.next _ s.manager.heap;
    normal = refl;
    imported = refl;
    plain_data = refl;
    named = named;
    charted = λ tag h. absurd (ground (arith, h));
  }

  module _ (type_of : Text → ParseDataType) (parser : ParseDataType → Option (Reader fl))
      (file_size : Text → ℕ) where
    -- The parse states with the task for a new file.
    abbrev pub with_task : Text → Text → Map Text ParseState → Server fl → Map Text ParseState
    with_task project path states s =
        Map.put project
          (task_state type_of parser file_size
            ((s.manager.next, make_file fl path (type_of path)) ∷ [])
            (Map.get_or new_state project states))
          states
