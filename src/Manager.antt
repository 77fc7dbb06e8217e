-- ===== src/Manager.antt =====
-- Scalar/server/src/FileManager/FileInfoManager.h and FileInfoManager.cpp: the files by their
-- paths. A `std::shared_ptr` is a number, and the heap holds what it points to.
pub mod Index
use mathlib.Core.Option
use blue_workspace_build.Base.{
  ℕ, zero, suc, ◌+◌, ◌-◌, ◌*◌, ◌/◌, ◌%◌, ◌^◌, ◌≤◌, ◌<◌, min, max, ◌≡◌, refl, sym, ap, ◌∙◌, ◌≢◌, ◌↔◌,
  ◌⊎◌, inl, inr, Bool, true, false, not, ◌&&◌, ◌||◌, Option, none, some, List, [], ◌∷◌, ◌++◌, map,
  arith, ltb, leb, eqb, if◌then◌else◌, ltb→lt, lt→ltb, eqb_iff, Bool-cases, Option-cases, length,
  get_elem?, take, drop, is_empty, all_of, any_of, last_or, length-append, last_or-append, All,
  All-append, All-mono, length-take, length-drop, take-append-drop, length-map, get_elem?_total,
  drop-append, drop-nil, Text, codes, text_eq, text_lt, text_eq_iff, text_lt_irrefl, text_lt_trans,
  text_lt_total,
}
use blue_workspace_build.Base.Map
use blue_workspace_build.Base.Map.{Map, text_key, nat_key}
use blue_workspace_build.Base.StringSet
use blue_workspace_build.Base.StringSet.{StringSet}
use blue_workspace_build.Concept.{ParseDataType}
use blue_workspace_build.File.{File, make_file}
use blue_workspace_build.Base.Floats.{Floats}

-- A file, or a virtual file with its `subFiles_`.
pub data Stored (fl : Floats) : Type 0 where
  plain : File fl → Stored fl
  virtual : File fl → StringSet → Stored fl

-- A null pointer in the map is `none`.
pub record Manager (fl : Floats) : Type 0 where
  pub paths : StringSet
  pub files : Map Text (Option ℕ)
  pub created : Map Text StringSet
  pub heap : Map ℕ (Stored fl)
  pub next : ℕ

abbrev pub empty_manager : (fl : Floats) → Manager fl
empty_manager fl = record { paths = []; files = []; created = []; heap = []; next = 0 }

-- The part of an object that its class shares with `File`.
unfoldable pub file_of : {fl : Floats} → Stored fl → File fl
file_of (plain f) = f
file_of (virtual f subs) = f

-- The object with this part replaced.
unfoldable pub set_file : {fl : Floats} → File fl → Stored fl → Stored fl
set_file g (plain f) = plain g
set_file g (virtual f subs) = virtual g subs

module _ {fl : Floats} where
  -- `fileInfoMap_[path]`: a missing path gets a null pointer.
  unfoldable pub index_files : Text → Manager fl → Option ℕ × Manager fl
  index_files path m =
      (Map.get_or none path m.files, record m { files = Map.emplace path none m.files })

  -- AddFile(filePath, dataType).
  unfoldable pub add_file : Text → ParseDataType → Manager fl → Option ℕ × Manager fl
  unfolding index_files
  add_file path data_type m = if StringSet.contains path m.paths then index_files path m else (
    some m.next,
    record m {
      paths = StringSet.insert path m.paths;
      files = Map.put path (some m.next) m.files;
      heap = Map.put m.next (plain (make_file fl path data_type)) m.heap;
      next = m.next + 1;
    },
  )

  -- DelFileFromMap.
  unfoldable pub del_file : Text → Manager fl → Bool × Manager fl
  del_file path m =
      if not (StringSet.contains path m.paths)
      then (false, m)
      else (true, record m { paths = StringSet.erase path m.paths; files = Map.erase path m.files })

  -- GetFileInfo.
  unfoldable pub get_file_info : Text → Manager fl → Option ℕ × Manager fl
  unfolding index_files
  get_file_info path m =
      if not (StringSet.contains path m.paths) then (none, m) else index_files path m

  -- Reset.
  unfoldable pub reset_manager : Manager fl → Manager fl
  reset_manager m = record m { paths = []; files = [] }

  -- OnFileCreate.
  unfoldable pub on_file_create : Text → Text → Manager fl → Manager fl
  on_file_create dir name m = record m {
    created = Map.put dir (StringSet.insert name (Map.get_or [] dir m.created)) m.created;
  }

  -- GetCreatedFileGroupByDir.
  unfoldable pub get_created : Manager fl → Map Text StringSet × Manager fl
  get_created m = (m.created, record m { created = [] })

  -- AddFile(fileInfo), of the pointer to a file with the path `path`.
  unfoldable pub add_pointer : ℕ → Text → Manager fl → Manager fl
  add_pointer i path m = if StringSet.contains path m.paths then m else record m {
    files = Map.emplace path (some i) m.files;
    paths = StringSet.insert path m.paths;
  }

-- fileTypeMap_, in the order of its keys.
abbrev pub file_types : List (Text × ParseDataType)
file_types =
    (codes "npu_.*\\.log", ParseDataType.text_log)
    ∷ (codes "out.events.summary", ParseDataType.mindspore_summary)
    ∷ (codes "out.tfevent", ParseDataType.tf_event)
    ∷ (codes "rank_.*\\.log", ParseDataType.text_log)
    ∷ (codes "worker_[0-9]+.*\\.log", ParseDataType.text_log)
    ∷ []

-- `std::regex_search` with a pattern of the table and `fs::path(path).filename()` are parameters.
module _ (search : Text → Text → Bool) (file_name : Text → Text) where
  unfoldable pub first_type : List (Text × ParseDataType) → Text → ParseDataType
  first_type [] path = ParseDataType.unknown
  first_type ((pattern', type) ∷ rest) path =
      if search pattern' (file_name path) then type else first_type rest path

  -- GetFileType.
  unfoldable pub get_file_type : Text → ParseDataType
  unfolding first_type
  get_file_type = first_type file_types

  -- IsFileSupported.
  unfoldable pub is_file_supported : Text → Bool
  is_file_supported path =
      any_of (λ (t : Text × ParseDataType). search t.0 (file_name path)) file_types
