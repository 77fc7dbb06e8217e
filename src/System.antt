-- ===== src/System.antt =====
-- The server as a whole: the calls that parsers, the watcher and requests make on its state, one
-- after the other, and what holds in every state that they lead to. Two calls at the same time are
-- not modelled: the source takes its locks within a call, and in some calls none. The parts of Scalar/server/src/plugin/ScalarVisuallyServer.cpp and
-- of the handlers that change the state stand in the modules that this one uses.
pub mod Tables
pub mod Files
pub mod Changes
pub mod Merges
pub mod Parses
pub mod Updates
pub mod Reach
use blue_workspace_build.Base.{
  ℕ, zero, suc, ◌+◌, ◌-◌, ◌*◌, ◌/◌, ◌%◌, ◌^◌, ◌≤◌, ◌<◌, min, max, ◌≡◌, refl, sym, ap, ◌∙◌, ◌≢◌, ◌↔◌,
  ◌⊎◌, inl, inr, Bool, true, false, not, ◌&&◌, ◌||◌, Option, none, some, List, [], ◌∷◌, ◌++◌, map,
  arith, ltb, leb, eqb, if◌then◌else◌, ltb→lt, lt→ltb, eqb_iff, Bool-cases, Option-cases, length,
  get_elem?, take, drop, is_empty, all_of, any_of, last_or, length-append, last_or-append, All,
  All-append, All-mono, length-take, length-drop, take-append-drop, length-map, get_elem?_total,
  drop-append, drop-nil, Text, codes, text_eq, text_lt, text_eq_iff, text_lt_irrefl, text_lt_trans,
  text_lt_total,
}
use blue_workspace_build.Base.Floats.{Floats}
use blue_workspace_build.Base.Map
use blue_workspace_build.Base.Map.{Map, text_key, nat_key}
use blue_workspace_build.Concept.{ParseDataType, ScalarPoint}
use blue_workspace_build.Smoother.Factory.{SmoothingParam}
use blue_workspace_build.File.{File, FileType}
use blue_workspace_build.Manager.{Stored, plain, virtual, file_of, get_created, empty_manager}
use blue_workspace_build.Manager.Index.{IsManager}
use blue_workspace_build.Graphs.{Graph, Server, get_incremental, add_incremental, update_graph}
use blue_workspace_build.Graphs.Virtual.{update_graph_smoothing}
use blue_workspace_build.Plugin.{
  reset_server, update_pointer, server_file_create, on_file_created, collect_files,
}
use blue_workspace_build.Handler.TokenSet.{TokenInfo, set_file_token}
use blue_workspace_build.Handler.FileMerge.{FileMergeRequest, merged, unset}

module _ {fl : Floats} where
  -- The calls that change the server, each run to its end before another begins: those of an import,
  -- of a parser with the offset that it leaves, of the watcher and of the handlers, and a reset. A
  -- parser's note of a new tag and its update of a graph are two calls, as they lock separately.
  pub data Step (s : Server fl) : Server fl → Type 0 where
    imports :
        (type_of : Text → ParseDataType) (paths : List Text)
        → Step s (collect_files type_of paths s).1
    notes : (file tag : Text) → Step s (add_incremental file tag s)
    updates :
        (tag file : Text) (points : List (ScalarPoint fl)) (t : Server fl)
        → update_graph tag file points s ≡ some t
        → Step s t
    reads : (i offset : ℕ) → Step s (update_pointer i (λ f. record f { offset = offset }) s)
    fills :
        (i : ℕ) (dir name : Text)
        → Step s
            (update_pointer i (λ f. record f { empty = false }) (server_file_create dir name s))
    creates :
        (type_of : Text → ParseDataType) (dir name : Text) (t : Server fl)
        → on_file_created type_of dir name s ≡ some t
        → Step s t
    sets_tokens : (info : TokenInfo fl) → Step s (set_file_token info s).1
    smooths :
        (tag file : Text) (param : Option (SmoothingParam fl)) (t : Server fl)
        → update_graph_smoothing tag file param s ≡ some t
        → Step s t
    merges : (r : FileMergeRequest) → Step s (merged r s).1
    unsets : (r : FileMergeRequest) → Step s (unset r s).1
    polls_tags : Step s (get_incremental s).1
    polls_files : Step s (record s { manager = (get_created s.manager).1 })
    resets : Step s (reset_server s)

  -- Any number of steps.
  pub data Reaches (s : Server fl) : Server fl → Type 0 where
    here : Reaches s s
    next : {t u : Server fl} → Reaches s t → Step t u → Reaches s u

  abbrev pub empty_server : Server fl
  empty_server = record { manager = empty_manager fl; graphs = []; incremental = [] }

  -- A tag with a range has points, so that `data_.at` finds them.
  abbrev pub IsReadable : File fl → Type 0
  IsReadable f = (tag : Text) → Map.has tag f.range ≡ true → Map.has tag f.points ≡ true

  -- The type of an object is that of its class, and its data can be read.
  abbrev pub IsObject : Stored fl → Type 0
  IsObject (plain f) = (f.type ≡ FileType.normal) × IsReadable f
  IsObject (virtual f subs) = (f.type ≡ FileType.visual) × IsReadable f

-- Each graph stands under its tag.
abbrev pub AreNamed : Map Text Graph → Type 0
AreNamed graphs = (tag : Text) (g : Graph) → Map.get tag graphs ≡ some g → g.tag ≡ tag

module _ {fl : Floats} where
  -- The tables of the files agree, each graph stands under its tag and each file under its path, and
  -- every object that was ever made can be read.
  pub record IsServer (s : Server fl) : Type 0 where
    pub manager : IsManager s.manager
    pub named : AreNamed s.graphs
    pub objects : (i : ℕ) (o : Stored fl) → Map.get i s.manager.heap ≡ some o → IsObject o
    pub filed :
        (path : Text) (i : ℕ) (o : Stored fl)
        → Map.get path s.manager.files ≡ some (some i)
        → Map.get i s.manager.heap ≡ some o
        → (file_of o).file_path ≡ path
