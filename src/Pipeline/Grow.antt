-- ===== src/Pipeline/Grow.antt =====
-- Every close of a log that grows, one after the other.
use mathlib.Core.Path.{subst}
use mathlib.Core.List.{append_assoc, append-nil, map-append}
use blue_workspace_build.Base.{
  ℕ, ◌≡◌, refl, sym, ap, ◌∙◌, Bool, Option, some, List, [], ◌∷◌, ◌++◌, length, All, Text,
}
use blue_workspace_build.Base.Floats.{Floats}
use blue_workspace_build.Concept.{ParseDataType}
use blue_workspace_build.File.{File}
use blue_workspace_build.Graphs.{Server}
use blue_workspace_build.Parser.Loop.{ScalarData}
use blue_workspace_build.Parser.Resume.{FileRecord, contents, sized, on_disk}
use blue_workspace_build.Json.{◌>>=◌}
use blue_workspace_build.Plugin.{Reader, in_dir, on_file_write_close}
use blue_workspace_build.Pipeline.{push_all, record_entries, Parses, Imports, entries_of}
use blue_workspace_build.Pipeline.Parse.{push_all-append}
use blue_workspace_build.Pipeline.Follow.{
  Stage, IsStage, moved, reader, push_all-moved, push_all-data_type, on_file_write_close-Imports,
}

-- All records that are written.
unfoldable pub written : List Stage → List FileRecord
written [] = []
written (g ∷ gs) = g.records ++ written gs

contents-append : (rs qs : List FileRecord) → contents (rs ++ qs) ≡ contents rs ++ contents qs
unfolding contents
contents-append [] qs = refl
contents-append (r ∷ rs) qs =
    ap (λ l. on_disk r ++ l) (contents-append rs qs)
    ∙ sym (append_assoc (on_disk r) (contents rs) (contents qs))

module _ {fl : Floats} where
  record_entries-append :
      (path : Text) (scalars : List ℕ → Option (ScalarData fl)) (rs qs : List (ℕ × List ℕ))
      → All (Parses scalars) rs
      → record_entries path scalars (rs ++ qs)
        ≡ record_entries path scalars rs ++ record_entries path scalars qs
  unfolding record_entries
  record_entries-append path scalars [] qs all = refl
  record_entries-append path scalars (r ∷ rs) qs all =
      let (tags, e) = all.0 in
      rw (record_entries, e)
        (ap (λ l. entries_of path tags ++ l) (record_entries-append path scalars rs qs all.1)
          ∙ sym (
              append_assoc (entries_of path tags) (record_entries path scalars rs)
                (record_entries path scalars qs)))

  module _ (dir name : Text) (i : ℕ) (parser : ParseDataType → Option (Reader fl))
      (scalars : List ℕ → Option (ScalarData fl)) where
    -- All records of a stage can be parsed.
    abbrev pub IsParsed : Stage → Type 0
    IsParsed g = IsStage g × All (Parses scalars) (sized g.records)

    record_entries-written :
        (g : Stage) (gs : List Stage) (f : File fl)
        → All (Parses scalars) (sized g.records)
        → push_all
            (record_entries (in_dir dir name) scalars (sized (written gs)))
            (push_all (record_entries (in_dir dir name) scalars (sized g.records)) f)
          ≡ push_all (record_entries (in_dir dir name) scalars (sized (written (g ∷ gs)))) f
    unfolding written
    record_entries-written g gs f all =
        let path = in_dir dir name in
        sym (push_all-append (record_entries path scalars (sized g.records)) _ f)
        ∙ ap (λ es. push_all es f)
            (sym (record_entries-append path scalars (sized g.records) (sized (written gs)) all)
              ∙ ap (record_entries path scalars) (sym (map-append _ g.records (written gs))))

    -- The closes of a log that the server follows, from the bytes that it has read on.
    unfoldable pub follow : List ℕ → List Stage → Server fl → Option (Server fl)
    unfolding contents on_file_write_close
    follow before [] s = some s
    follow before (g ∷ gs) s = do
      t ←
          on_file_write_close parser (λ _. some (before ++ (contents g.records ++ g.tail))) dir name
            s
      follow (before ++ contents g.records) gs t

    -- However often a log is closed while it grows, and wherever in a record the writer has stopped, if all
    -- its records can be parsed, and the server has the file of the log imported, without smoothers
    -- and with the offset behind what it has read, then `OnFileWriteClose` succeeds each time, and
    -- to the points of the file those of all records that have become whole are appended, each once
    -- and in their order, but for points under the empty tag, which are dropped; the offset stands
    -- behind these records.
    pub follow-Imports :
        (before : List ℕ) (gs : List Stage) (f : File fl) (s : Server fl)
        → All IsParsed gs
        → parser f.data_type ≡ some (reader dir name i parser scalars)
        → f.offset ≡ length before
        → Imports (in_dir dir name) i f s
        → (e : Bool) × (t : Server fl) × (follow before gs s ≡ some t)
          × Imports
              (in_dir dir name)
              i
              (moved
                (length (before ++ contents (written gs)))
                e
                (push_all (record_entries (in_dir dir name) scalars (sized (written gs))) f))
              t
    unfolding follow written push_all record_entries contents
    follow-Imports before [] f s w has_parser stands h = (
      f.empty,
      s,
      refl,
      subst (λ n. Imports (in_dir dir name) i (moved n f.empty f) s)
          (stands ∙ ap length (sym (append-nil before))) h,
    )
    follow-Imports before (g ∷ gs) f s w has_parser stands h =
        let path = in_dir dir name in
        let es = record_entries path scalars (sized g.records) in
        let k = push_all es f in
        let n = length (before ++ contents g.records) in
        let (e, t, done, imports) =
          on_file_write_close-Imports dir name i parser scalars before g f s w.0.0 w.0.1 has_parser
            stands h in
        let (last, u, rest, final) =
          follow-Imports (before ++ contents g.records) gs (moved n e k) t w.1
            (ap parser (push_all-data_type es f) ∙ has_parser) refl imports in
        let all : push_all (record_entries path scalars (sized (written gs))) (moved n e k)
            ≡ moved n e (push_all (record_entries path scalars (sized (written (g ∷ gs)))) f) =
          push_all-moved n e (record_entries path scalars (sized (written gs))) k
          ∙ ap (moved n e) (record_entries-written g gs f w.0.1) in
        let behind : length ((before ++ contents g.records) ++ contents (written gs))
            ≡ length (before ++ contents (written (g ∷ gs))) =
          ap length (
            append_assoc before (contents g.records) (contents (written gs))
            ∙ ap (λ l. before ++ l) (sym (contents-append g.records (written gs)))) in
        let x = push_all (record_entries path scalars (sized (written (g ∷ gs)))) f in
        let m = length ((before ++ contents g.records) ++ contents (written gs)) in
        (
          last,
          u,
          rw (follow, done) rest,
          subst (λ m. Imports path i (moved m last x) u) behind
              (subst (λ y. Imports path i (moved m last y) u) all final),
        )
