-- ===== src/Tests/Logs.antt =====
-- A log from its import to an answer, and while it grows: the theorems at concrete values.
use blue_workspace_build.Base.{
  ℕ, ◌≡◌, refl, Bool, Option, none, some, List, [], ◌∷◌, ◌++◌, arith, length, All, Text, codes,
}
use blue_workspace_build.Base.Map
use blue_workspace_build.Base.Map.{text_key, nat_key}
use blue_workspace_build.Base.StringSet
use blue_workspace_build.Concept.{ParseDataType, DataMode}
use blue_workspace_build.File.{make_file, get_data, FileType}
use blue_workspace_build.Manager.{file_of, plain}
use blue_workspace_build.Graphs.{Server, find_file}
use blue_workspace_build.Request.{LineBasicInfo}
use blue_workspace_build.Parser.Cache.{empty_cache}
use blue_workspace_build.Parser.Frame.{read_record}
use blue_workspace_build.Parser.Loop.{returned, parser_data}
use blue_workspace_build.Parser.Resume.{contents, sized}
use blue_workspace_build.Plugin.{Reader, in_dir}
use blue_workspace_build.Pipeline.{push_all, record_entries, Imports, Parses}
use blue_workspace_build.System.{AreNamed, empty_server, here, next, Reaches, imports, IsServer}
use blue_workspace_build.System.Reach.{get_data_total, Reaches-type, Reaches-IsServer, is_virtual}
use blue_workspace_build.Plugin.{on_file_data_update}
use blue_workspace_build.System.Updates.{Updates}
use blue_workspace_build.Pipeline.Begin.{with_file, with_file-Imports}
use blue_workspace_build.Pipeline.Parse.{parser_data-Imports}
use blue_workspace_build.Pipeline.Follow.{Stage, moved}
use blue_workspace_build.Pipeline.Grow.{follow, written, follow-Imports}
use blue_workspace_build.Tests.Values.{whole, three_points, loss}
use blue_workspace_build.Tests.Parsing.{scalars, first_record, empty_record}
use blue_workspace_build.Concept.View.{DataView}

nothing-AreNamed : AreNamed []
unfolding Map.get
nothing-AreNamed tag g h = absurd (ground (arith, h))

abbrev dir : Text
dir = codes "d"

abbrev name : Text
name = codes "a"

abbrev path : Text
path = in_dir dir name

abbrev log_info : LineBasicInfo
log_info = record { tag = loss; file = path; start = 3; end_ = 9 }

type_of : Text → ParseDataType
type_of file = ParseDataType.tf_event

parser_data-Imports_example :
    (ok : Bool) × (last : ℕ) × (t : Server whole) × (parser_data path scalars read_record
        (some (contents (first_record ∷ []) ++ 1 ∷ []))
        0
        (empty_cache whole)
        (with_file path ParseDataType.tf_event empty_server)
      ≡ returned ok last (empty_cache whole) t)
    × Imports path 0
        (push_all
          (record_entries path scalars (sized (first_record ∷ [])))
          (make_file whole path ParseDataType.tf_event))
        t
    × (All (Parses scalars) (sized (first_record ∷ []))
        → last ≡ length (contents (first_record ∷ [])))
unfolding read_record
parser_data-Imports_example =
    parser_data-Imports path 0 scalars [] (first_record ∷ []) (1 ∷ [])
      (make_file whole path ParseDataType.tf_event)
      (with_file path ParseDataType.tf_event empty_server) ((omega arith, refl, refl), tt) refl
      (with_file-Imports path ParseDataType.tf_event empty_server nothing-AreNamed)

-- The log is closed in the middle of its second record, and behind it.
abbrev stages : List Stage
stages =
    record { records = first_record ∷ []; tail = 1 ∷ [] }
    ∷ record { records = empty_record ∷ []; tail = [] }
    ∷ []

parsers : ParseDataType → Option (Reader whole)
parsers type = some (record { read_record = read_record; parse_record_to_scalar = scalars })

follow-Imports_example :
    (e : Bool) × (t : Server whole) × (follow dir name 0 parsers scalars [] stages
        (with_file path ParseDataType.tf_event empty_server)
      ≡ some t)
    × Imports path 0
        (moved (length (contents (first_record ∷ empty_record ∷ []))) e (
          push_all
            (record_entries path scalars (sized (first_record ∷ empty_record ∷ [])))
            (make_file whole path ParseDataType.tf_event)))
        t
unfolding read_record scalars written parsers make_file
follow-Imports_example =
    follow-Imports dir name 0 parsers scalars [] stages
      (make_file whole path ParseDataType.tf_event)
      (with_file path ParseDataType.tf_event empty_server)
      (
        ((((omega arith, refl, refl), tt), refl), ((((loss, three_points) ∷ []), refl), tt)),
        (((((omega arith, refl, refl), tt), refl), (([], refl), tt)), tt),
      )
      refl refl (with_file-Imports path ParseDataType.tf_event empty_server nothing-AreNamed)

-- The server behind the import of the log.
abbrev with_log : Server whole
with_log = with_file path ParseDataType.tf_event empty_server

with_log-Reaches : Reaches empty_server with_log
unfolding type_of Map.put StringSet.insert StringSet.contains
    blue_workspace_build.Plugin.collect_files find_file
with_log-Reaches = next here (imports type_of (path ∷ []))

Reaches-IsServer_example : IsServer with_log
Reaches-IsServer_example = Reaches-IsServer with_log-Reaches

get_data_total_example :
    (vs : List (DataView whole)) × (get_data loss 3 9 DataMode.normal
        (make_file whole path ParseDataType.tf_event)
      ≡ some vs)
unfolding find_file StringSet.contains StringSet.insert Map.get_or Map.put
get_data_total_example =
    get_data_total path loss 3 9 DataMode.normal 0 (make_file whole path ParseDataType.tf_event)
      with_log with_log-Reaches refl

Reaches-type_example : (make_file whole path ParseDataType.tf_event).type ≡ FileType.normal
unfolding find_file StringSet.contains StringSet.insert is_virtual file_of make_file Map.put
    Map.get_or
Reaches-type_example =
    Reaches-type path 0 (plain (make_file whole path ParseDataType.tf_event)) with_log
      with_log-Reaches refl

-- The server behind an update, or the one in front of it.
or_before : Option (Server whole) → Server whole → Server whole
or_before none s = s
or_before (some t) s = t

abbrev log_content : Text → Option (List ℕ)
log_content file = some (contents (first_record ∷ []))

abbrev updated : Option (Server whole)
updated = on_file_data_update parsers log_content dir name with_log
