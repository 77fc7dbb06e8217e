-- ===== src/Pipeline/Follow.antt =====
-- A log that grows while the server follows it: `OnFileWriteClose` of
-- Scalar/server/src/FileManager/FileWatcherLinuxImpl.cpp with `OnFileDataUpdate`.
use mathlib.Core.Path.{subst}
use blue_workspace_build.Base.{
  ℕ, ◌≡◌, refl, sym, ap, ◌∙◌, inl, inr, Bool, false, not, ◌&&◌, Option, none, some, List, [], ◌∷◌,
  ◌++◌, eqb, Bool-cases, length, All, Text,
}
use blue_workspace_build.Base.Floats.{Floats}
use blue_workspace_build.Base.Map
use blue_workspace_build.Base.Map.{text_key, nat_key}
use blue_workspace_build.Concept.{ScalarPoint, ParseDataType}
use blue_workspace_build.File.{File, append_points, update_range, max_u64}
use blue_workspace_build.Manager.{plain, file_of, set_file}
use blue_workspace_build.Graphs.{Server, store_file}
use blue_workspace_build.Parser.Cache.{Entry, empty_cache}
use blue_workspace_build.Parser.Frame.{read_record}
use blue_workspace_build.Parser.Loop.{returned, ScalarData, parser_data}
use blue_workspace_build.Parser.Resume.{FileRecord, IsFileRecord, contents, sized}
use blue_workspace_build.Plugin.{
  Reader, in_dir, update_pointer, pointer_empty, server_file_create, after_parse,
  on_file_data_update, on_file_write_close,
}
use blue_workspace_build.Pipeline.{push, push_all, record_entries, Parses, Imports}
use blue_workspace_build.Pipeline.Deliver.{find_file-Imports, is_file_imported-Imports, push-parts}
use blue_workspace_build.Pipeline.Parse.{parser_data-Imports}
use blue_workspace_build.Plugin.Update.{update_pointer-there}

-- What a writer leaves at each close: the records that have become whole, and the part of one behind.
pub record Stage : Type 0 where
  pub records : List FileRecord
  pub tail : List ℕ

abbrev pub IsStage : Stage → Type 0
IsStage g = All IsFileRecord g.records × (read_record g.tail ≡ none)

module _ {fl : Floats} where
  -- A file with another offset and another value of `empty_`.
  abbrev pub moved : ℕ → Bool → File fl → File fl
  moved offset empty f = record f { offset = offset; empty = empty }

  push-moved :
      (offset : ℕ) (empty : Bool) (tag : Text) (ps : List (ScalarPoint fl)) (f : File fl)
      → push tag ps (moved offset empty f) ≡ moved offset empty (push tag ps f)
  unfolding push append_points update_range
  push-moved offset empty tag [] f = refl
  push-moved offset empty tag (p ∷ ps) f = elim (Bool-cases (eqb p.step max_u64)) [
    | inl e ↦ rw (append_points, update_range, e) refl
    | inr e ↦ rw (append_points, update_range, e) refl
  ]

  pub push_all-moved :
      (offset : ℕ) (empty : Bool) (es : List (Entry fl)) (f : File fl)
      → push_all es (moved offset empty f) ≡ moved offset empty (push_all es f)
  unfolding push_all
  push_all-moved offset empty [] f = refl
  push_all-moved offset empty (e ∷ es) f =
      ap (push_all es) (push-moved offset empty e.tag e.points f)
      ∙ push_all-moved offset empty es (push e.tag e.points f)

  pub push_all-data_type :
      (es : List (Entry fl)) (f : File fl) → (push_all es f).data_type ≡ f.data_type
  unfolding push_all
  push_all-data_type [] f = refl
  push_all-data_type (e ∷ es) f =
      push_all-data_type es (push e.tag e.points f) ∙ (push-parts e.tag e.points f).3

  module _ (dir name : Text) (i : ℕ) where
    store_file-Imports :
        (offset : ℕ) (empty : Bool) (f : File fl) (s : Server fl)
        → Imports (in_dir dir name) i f s
        → Imports
            (in_dir dir name)
            i
            (moved offset empty f)
            (store_file i (plain (moved offset empty f)) s)
    unfolding store_file
    store_file-Imports offset empty f s h = record {
      known = h.known;
      pointer = h.pointer;
      object = Map.get-put_self i _ s.manager.heap;
      normal = h.normal;
      imported = h.imported;
      plain_data = h.plain_data;
      named = h.named;
      charted = h.charted;
    }

    update_pointer-Imports :
        (offset : ℕ) (empty : Bool) (change : File fl → File fl) (f : File fl) (s : Server fl)
        → change f ≡ moved offset empty f
        → Imports (in_dir dir name) i f s
        → Imports (in_dir dir name) i (moved offset empty f) (update_pointer i change s)
    unfolding set_file file_of
    update_pointer-Imports offset empty change f s e h =
        subst (Imports (in_dir dir name) i (moved offset empty f))
          (ap (λ g. store_file i (plain g) s) (sym e)
            ∙ sym (update_pointer-there i (plain f) change s h.object))
          (store_file-Imports offset empty f s h)

    server_file_create-Imports :
        (f : File fl) (s : Server fl)
        → Imports (in_dir dir name) i f s
        → Imports (in_dir dir name) i f (server_file_create dir name s)
    unfolding server_file_create
    server_file_create-Imports f s h = record {
      known = h.known;
      pointer = h.pointer;
      object = h.object;
      normal = h.normal;
      imported = h.imported;
      plain_data = h.plain_data;
      named = h.named;
      charted = h.charted;
    }

    module _ (parser : ParseDataType → Option (Reader fl))
        (scalars : List ℕ → Option (ScalarData fl)) where
      abbrev pub reader : Reader fl
      reader = record { read_record = read_record; parse_record_to_scalar = scalars }

      after_parse-Imports :
          (open_file : Text → Option (List ℕ)) (empty : Bool) (offset : ℕ) (f : File fl)
          (s : Server fl)
          → Imports (in_dir dir name) i f s
          → (e : Bool) × (t : Server fl) × (after_parse parser open_file dir name i
                (returned empty offset (empty_cache fl) s)
              ≡ some t)
            × Imports (in_dir dir name) i (moved offset e f) t
      unfolding after_parse
      after_parse-Imports open_file empty offset f s h =
          let read = update_pointer i (λ g. record g { offset = offset }) s in
          let here =
            update_pointer-Imports offset f.empty (λ g. record g { offset = offset }) f s refl h in
          elim (Bool-cases (not empty && pointer_empty i s)) [
            | inl e ↦ (
              false,
              update_pointer i (λ g. record g { empty = false }) (server_file_create dir name read),
              rw (after_parse, e) refl,
              update_pointer-Imports offset false (λ g. record g { empty = false })
                  (moved offset f.empty f) (server_file_create dir name read) refl
                  (server_file_create-Imports (moved offset f.empty f) read here),
            )
            | inr e ↦ (f.empty, read, rw (after_parse, e) refl, here)
          ]

      on_file_write_close-open :
          (open_file : Text → Option (List ℕ)) (f : File fl) (s : Server fl)
          → Imports (in_dir dir name) i f s
          → on_file_write_close parser open_file dir name s
            ≡ on_file_data_update parser open_file dir name s
      unfolding on_file_write_close
      on_file_write_close-open open_file f s h =
          rw (on_file_write_close, is_file_imported-Imports (in_dir dir name) i f s h) refl

      on_file_data_update-parse :
          (open_file : Text → Option (List ℕ)) (f : File fl) (s : Server fl)
          → parser f.data_type ≡ some reader
          → Imports (in_dir dir name) i f s
          → on_file_data_update parser open_file dir name s
            ≡ after_parse parser open_file dir name i (
                parser_data
                  (in_dir dir name)
                  scalars
                  read_record
                  (open_file (in_dir dir name))
                  f.offset
                  (empty_cache fl)
                  s)
      unfolding on_file_data_update file_of
      on_file_data_update-parse open_file f s has_parser h =
          rw (on_file_data_update, find_file-Imports (in_dir dir name) i f s h, has_parser) refl

      -- One close of the log: the file has the points of the new records, and its offset stands behind them.
      pub on_file_write_close-Imports :
          (before : List ℕ) (g : Stage) (f : File fl) (s : Server fl)
          → IsStage g
          → All (Parses scalars) (sized g.records)
          → parser f.data_type ≡ some reader
          → f.offset ≡ length before
          → Imports (in_dir dir name) i f s
          → (e : Bool) × (t : Server fl) × (on_file_write_close parser
                (λ _. some (before ++ (contents g.records ++ g.tail)))
                dir
                name
                s
              ≡ some t)
            × Imports
                (in_dir dir name)
                i
                (moved
                  (length (before ++ contents g.records))
                  e
                  (push_all (record_entries (in_dir dir name) scalars (sized g.records)) f))
                t
      unfolding on_file_write_close on_file_data_update file_of
      on_file_write_close-Imports before g f s w all has_parser stands h =
          let path = in_dir dir name in
          let bytes = before ++ (contents g.records ++ g.tail) in
          let open_file : Text → Option (List ℕ) = λ _. some bytes in
          let (ok, last, t, parsed, imports, behind) =
            parser_data-Imports path i scalars before g.records g.tail f s w.0 w.1 h in
          let k = push_all (record_entries path scalars (sized g.records)) f in
          let (e, u, ended, final) = after_parse-Imports open_file ok last k t imports in
          (
            e,
            u,
            on_file_write_close-open open_file f s h
                ∙ on_file_data_update-parse open_file f s has_parser h
                ∙ ap
                    (λ n.
                      after_parse parser open_file dir name i
                        (parser_data path scalars read_record (some bytes) n (empty_cache fl) s))
                    stands
                ∙ ap (after_parse parser open_file dir name i) parsed
                ∙ ended,
            subst (λ n. Imports path i (moved n e k) u) (behind all) final,
          )
