-- ===== src/Pipeline/Parse.antt =====
-- `ParserData` appends the points of its records to the file, whatever stays in the cache for a while.
use mathlib.Core.Path.{subst}
use mathlib.Core.List.{append_assoc, append-nil}
use blue_workspace_build.Base.{
  ℕ, ◌+◌, ◌≡◌, refl, sym, ap, ◌∙◌, inl, inr, Bool, true, false, ◌||◌, Option, none, some, List, [],
  ◌∷◌, ◌++◌, arith, Bool-cases, Option-cases, length, length-append, All, All-append, Text,
}
use blue_workspace_build.Base.Floats.{Floats}
use blue_workspace_build.Concept.{ScalarPoint}
use blue_workspace_build.File.{File}
use blue_workspace_build.Graphs.{Server}
use blue_workspace_build.Parser.Cache.{
  Entry, Cache, cache_data, update_cache, update_data_to_graph, reach_limit, empty_cache,
}
use blue_workspace_build.Parser.Loop.{
  Outcome, returned, ScalarData, update_all, next, finish, parse_records, parser_data,
}
use blue_workspace_build.Pipeline.{push, push_all, entries_of, record_entries, Imports, Parses}
use blue_workspace_build.Pipeline.Deliver.{OfFile, deliver_all-Imports}
use blue_workspace_build.Parser.Resume.{
  FileRecord, IsFileRecord, contents, sized, parser_data-records, total, on_disk,
}
use blue_workspace_build.Parser.Frame.{read_record}

total-contents : (rs : List FileRecord) → total (sized rs) ≡ length (contents rs)
unfolding total contents
total-contents [] = refl
total-contents (r ∷ rs) = omega (arith, length-append (on_disk r) (contents rs), total-contents rs)

module _ {fl : Floats} where
  pub push_all-append :
      (es ds : List (Entry fl)) (f : File fl) → push_all (es ++ ds) f ≡ push_all ds (push_all es f)
  unfolding push_all
  push_all-append [] ds f = refl
  push_all-append (e ∷ es) ds f = push_all-append es ds (push e.tag e.points f)

  module _ (path : Text) (i : ℕ) where
    -- The cache and the file together hold `f` with the points of `es`.
    pub record Holds (f : File fl) (es : List (Entry fl)) (c : Cache fl) (s : Server fl)
        : Type 0 where
      pub now : File fl
      pub imports : Imports path i now s
      pub own : OfFile path c.entries
      pub same : push_all c.entries now ≡ push_all es f

    Holds-cong :
        (f : File fl) (es ds : List (Entry fl)) (c : Cache fl) (s : Server fl)
        → es ≡ ds
        → Holds f es c s
        → Holds f ds c s
    Holds-cong f es ds c s e = subst (λ l. Holds f l c s) e

    -- What is delivered is taken from the cache.
    update_data_to_graph-Holds :
        (f : File fl) (es : List (Entry fl)) (c : Cache fl) (s : Server fl)
        → Holds f es c s
        → (t : Server fl) × (update_data_to_graph c s ≡ some (true, empty_cache fl, t))
          × Imports path i (push_all es f) t
    unfolding update_data_to_graph
    update_data_to_graph-Holds f es c s h =
        let (t, done, imports) = deliver_all-Imports path i c.entries h.now s h.own h.imports in
        (t, rw (update_data_to_graph, done) refl, subst (λ g. Imports path i g t) h.same imports)

    cache_data-Holds :
        (f : File fl) (es : List (Entry fl)) (tag : Text) (ps : List (ScalarPoint fl))
        (c : Cache fl) (s : Server fl)
        → Holds f es c s
        → Holds f (es ++ entries_of path ((tag, ps) ∷ [])) (cache_data path tag ps c) s
    unfolding cache_data entries_of
    cache_data-Holds f es [] ps c s h = Holds-cong f es (es ++ []) c s (sym (append-nil es)) h
    cache_data-Holds f es (b ∷ bs) ps c s h =
        let e : Entry fl = record { file = path; tag = b ∷ bs; points = ps } in
        record {
          now = h.now;
          imports = h.imports;
          own = All-append (λ d. d.file ≡ path) c.entries (e ∷ []) h.own (refl, tt);
          same =
              push_all-append c.entries (e ∷ []) h.now
              ∙ ap (push_all (e ∷ [])) h.same
              ∙ sym (push_all-append es (e ∷ []) f);
        }

    update_cache-Holds :
        (f : File fl) (es : List (Entry fl)) (tag : Text) (ps : List (ScalarPoint fl))
        (c : Cache fl) (s : Server fl)
        → Holds f es c s
        → (d : Cache fl) × (t : Server fl) × (update_cache path tag ps false c s
            ≡ some (true, d, t))
          × Holds f (es ++ entries_of path ((tag, ps) ∷ [])) d t
    unfolding update_cache push_all
    update_cache-Holds f es tag ps c s h =
        let all = es ++ entries_of path ((tag, ps) ∷ []) in
        let kept = cache_data-Holds f es tag ps c s h in
        elim (Bool-cases (reach_limit (cache_data path tag ps c) || false)) [
          | inl e ↦
              let (t, done, imports) = update_data_to_graph-Holds f all _ s kept in
              (
                empty_cache fl,
                t,
                rw (update_cache, e) done,
                record { now = push_all all f; imports = imports; own = tt; same = refl },
              )
          | inr e ↦ (cache_data path tag ps c, s, rw (update_cache, e) refl, kept)
        ]

    entries_of-cons :
        (tag : Text) (ps : List (ScalarPoint fl)) (tags : ScalarData fl)
        → entries_of path ((tag, ps) ∷ []) ++ entries_of path tags
          ≡ entries_of path ((tag, ps) ∷ tags)
    unfolding entries_of
    entries_of-cons [] ps tags = refl
    entries_of-cons (b ∷ bs) ps tags = refl

    update_all-Holds :
        (tags : ScalarData fl) (f : File fl) (es : List (Entry fl)) (c : Cache fl) (s : Server fl)
        → Holds f es c s
        → (d : Cache fl) × (t : Server fl) × (update_all path tags c s ≡ some (true, d, t))
          × Holds f (es ++ entries_of path tags) d t
    unfolding update_all entries_of
    update_all-Holds [] f es c s h =
        (c, s, refl, Holds-cong f es (es ++ []) c s (sym (append-nil es)) h)
    update_all-Holds ((tag, ps) ∷ tags) f es c s h =
        let (d, t, done, held) = update_cache-Holds f es tag ps c s h in
        let one = entries_of path ((tag, ps) ∷ []) in
        let (u, v, rest, last) = update_all-Holds tags f (es ++ one) d t held in
        (
          u,
          v,
          rw (update_all, done) rest,
          Holds-cong f _ _ u v
              (append_assoc es one (entries_of path tags)
                ∙ ap (λ l. es ++ l) (entries_of-cons tag ps tags))
              last,
        )

    finish-Holds :
        (flag : Bool) (offset : ℕ) (f : File fl) (es : List (Entry fl)) (c : Cache fl)
        (s : Server fl)
        → Holds f es c s
        → (t : Server fl) × (finish path flag offset c s ≡ returned flag offset (empty_cache fl) t)
          × Imports path i (push_all es f) t
    unfolding finish update_cache cache_data
    finish-Holds flag offset f es c s h =
        let (t, done, imports) = update_data_to_graph-Holds f es c s h in
        let forced : (reach_limit c || true) ≡ true = ground arith in
        (t, rw (finish, update_cache, forced, done) refl, imports)

    next-Holds :
        (continue : Bool → Cache fl → Server fl → Outcome fl) (offset : ℕ) (tags : ScalarData fl)
        (flag : Bool) (f : File fl) (es : List (Entry fl)) (c : Cache fl) (s : Server fl)
        → Holds f es c s
        → (g : Bool) × (d : Cache fl) × (t : Server fl) × (next path continue offset tags flag c s
            ≡ continue g d t)
          × Holds f (es ++ entries_of path tags) d t
    unfolding next entries_of
    next-Holds continue offset [] flag f es c s h =
        (flag, c, s, refl, Holds-cong f es (es ++ []) c s (sym (append-nil es)) h)
    next-Holds continue offset (e ∷ tags) flag f es c s h =
        let (d, t, done, held) = update_all-Holds (e ∷ tags) f es c s h in
        (false, d, t, rw (next, done) refl, held)

    parse_records-Holds :
        (scalars : List ℕ → Option (ScalarData fl)) (rs : List (ℕ × List ℕ)) (offset : ℕ)
        (flag : Bool) (f : File fl) (es : List (Entry fl)) (c : Cache fl) (s : Server fl)
        → Holds f es c s
        → (ok : Bool) × (last : ℕ) × (t : Server fl) × (parse_records path scalars rs offset flag c
              s
            ≡ returned ok last (empty_cache fl) t)
          × Imports path i (push_all (es ++ record_entries path scalars rs) f) t
          × (All (Parses scalars) rs → last ≡ offset + total rs)
    unfolding parse_records record_entries total
    parse_records-Holds scalars [] offset flag f es c s h =
        let (t, done, imports) = finish-Holds flag offset f es c s h in
        (
          flag,
          offset,
          t,
          done,
          subst (λ l. Imports path i (push_all l f) t) (sym (append-nil es)) imports,
          λ _. omega arith,
        )
    parse_records-Holds scalars ((size, payload) ∷ rs) offset flag f es c s h =
        elim (Option-cases (scalars payload)) [
          | inl e ↦
              let (t, done, imports) = finish-Holds flag offset f es c s h in
              (
                flag,
                offset,
                t,
                rw (parse_records, e) done,
                subst (λ l. Imports path i (push_all l f) t)
                    (sym (rw (record_entries, e) (append-nil es))) imports,
                λ all. cc (all.0.1, e),
              )
          | inr (tags, e) ↦
              let (g, d, t, went, held) =
                next-Holds (parse_records path scalars rs (offset + size)) (offset + size) tags flag
                  f es c s h in
              let (ok, last, u, done, imports, behind) =
                parse_records-Holds scalars rs (offset + size) g f (es ++ entries_of path tags) d t
                  held in
              (
                ok,
                last,
                u,
                rw (parse_records, e) (went ∙ done),
                subst (λ l. Imports path i (push_all l f) u)
                    (append_assoc es (entries_of path tags) (record_entries path scalars rs)
                      ∙ sym (rw (record_entries, e) refl))
                    imports,
                λ all. omega (arith, behind all.1),
              )
        ]

    -- If a server has an imported file without smoothers under the path of a log whose offset stands
    -- behind `before`, and whole records of less than 2 ^ 63 bytes and then something that is no whole
    -- record follow, then `ParserData` returns with an empty cache, and the file is the old one with the
    -- points of the records, of all in front of the first one that cannot be parsed, appended under
    -- their tags in the order of the records, but for points under the empty tag, which are dropped;
    -- if all can be parsed, the offset stands behind them.
    pub parser_data-Imports :
        (scalars : List ℕ → Option (ScalarData fl)) (before : List ℕ) (rs : List FileRecord)
        (tail : List ℕ) (f : File fl) (s : Server fl)
        → All IsFileRecord rs
        → read_record tail ≡ none
        → Imports path i f s
        → (ok : Bool) × (last : ℕ) × (t : Server fl) × (parser_data path scalars read_record
              (some (before ++ (contents rs ++ tail)))
              (length before)
              (empty_cache fl)
              s
            ≡ returned ok last (empty_cache fl) t)
          × Imports path i (push_all (record_entries path scalars (sized rs)) f) t
          × (All (Parses scalars) (sized rs) → last ≡ length (before ++ contents rs))
    unfolding push_all
    parser_data-Imports scalars before rs tail f s w p h =
        let held : Holds f [] (empty_cache fl) s = record {
          now = f;
          imports = h;
          own = tt;
          same = refl;
        } in
        let (ok, last, t, done, imports, behind) =
          parse_records-Holds scalars (sized rs) (length before) true f [] (empty_cache fl) s
            held in
        (
          ok,
          last,
          t,
          parser_data-records path scalars before rs tail (empty_cache fl) s w p ∙ done,
          imports,
          λ all. omega (arith, behind all, total-contents rs, length-append before (contents rs)),
        )
