-- ===== src/Handler/FileMerge/Known.antt =====
-- A merge under a name that the server already has, in
-- Scalar/server/src/plugin/Handler/ScalarVisuallyFileMergeHandler.cpp.
use blue_workspace_build.Base.{Bool, true, false, none, some, Text}
use blue_workspace_build.Base.Floats.{Floats}
use blue_workspace_build.Base.Map
use blue_workspace_build.Base.Map.{text_key}
use blue_workspace_build.Base.StringSet
use blue_workspace_build.Base.StringSet.{StringSet}
use blue_workspace_build.Graphs.{Server, find_file}

module _ {fl : Floats} where
  -- The server finds a file under the path.
  unfoldable pub is_found : Text → Server fl → Bool
  unfolding find_file
  is_found file s = elim (find_file file s) [ none ↦ false | some found ↦ true ]
