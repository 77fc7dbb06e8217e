-- ===== src/System/Parses.antt =====
-- A pass of a parser: deliveries of entries of its file, each of which is one or two calls of the
-- server.
use mathlib.Core.Path.{subst}
use mathlib.Core.Option.{some-injective}
use blue_workspace_build.Base.{
  ℕ, zero, suc, ◌-◌, ◌≡◌, refl, sym, ap, ◌∙◌, inl, inr, Bool, true, false, ◌||◌, Option, none, some,
  List, [], ◌∷◌, Bool-cases, Option-cases, length, drop, All, All-append, Text,
}
use blue_workspace_build.Base.Floats.{Floats}
use blue_workspace_build.Base.Map.{nat_key}
use blue_workspace_build.Concept.{ScalarPoint}
use blue_workspace_build.Graphs.{Server, is_incremental}
use blue_workspace_build.Parser.Cache.{
  Entry, Cache, deliver, deliver_all, settle, update_data_to_graph, cache_data, reach_limit,
  update_cache, is_file_imported, empty_cache,
}
use blue_workspace_build.Parser.Loop.{
  Outcome, returned, overrun, out_of_fuel, ScalarData, update_all, finish, next, parse_loop,
  parser_data,
}
use blue_workspace_build.System.{Reaches, notes, updates}

module _ {fl : Floats} where
  -- Deliveries of entries of one file.
  pub data Delivers (path : Text) (s : Server fl) : Server fl → Type 0 where
    nothing : Delivers path s s
    one_more :
        {t u : Server fl}
        → Delivers path s t
        → (e : Entry fl) → e.file ≡ path
        → deliver e t ≡ some u
        → Delivers path s u

  deliver-Reaches : (e : Entry fl) (s t : Server fl) → deliver e s ≡ some t → Reaches s t
  unfolding deliver
  deliver-Reaches e s t h = elim (Bool-cases (is_incremental e.file e.tag s)) [
    | inl f ↦
        Reaches.next (Reaches.next Reaches.here (notes e.file e.tag))
          (updates e.tag e.file e.points t (rw (deliver, f) at h))
    | inr f ↦ Reaches.next Reaches.here (updates e.tag e.file e.points t (rw (deliver, f) at h))
  ]

  Reaches-trans : {s t u : Server fl} → Reaches s t → Reaches t u → Reaches s u
  Reaches-trans p Reaches.here = p
  Reaches-trans p (Reaches.next q st) = Reaches.next (Reaches-trans p q) st

  pub Delivers-Reaches : (path : Text) {s t : Server fl} → Delivers path s t → Reaches s t
  Delivers-Reaches path nothing = Reaches.here
  Delivers-Reaches path (one_more {u = u} d e own h) =
      Reaches-trans (Delivers-Reaches path d) (deliver-Reaches e _ u h)

  settle-server : (c : Cache fl) (r : Bool × List (Entry fl) × Server fl) → (settle c r).2 ≡ r.2
  unfolding settle
  settle-server c (true, es, s) = refl
  settle-server c (false, es, s) = refl

  settle-entries :
      (c : Cache fl) (r : Bool × List (Entry fl) × Server fl) → (settle c r).1.entries ≡ r.1
  unfolding settle
  settle-entries c (true, es, s) = refl
  settle-entries c (false, es, s) = refl

  module _ (file : Text) where
    -- Entries of the file.
    abbrev pub Own : List (Entry fl) → Type 0
    Own = All (λ (e : Entry fl). e.file ≡ file)

    Delivers-trans : {s t u : Server fl} → Delivers file s t → Delivers file t u → Delivers file s u
    Delivers-trans p nothing = p
    Delivers-trans p (one_more q e own h) = one_more (Delivers-trans p q) e own h

    abbrev pub Leads : Server fl → Outcome fl → Type 0
    Leads s overrun = Unit {0}
    Leads s out_of_fuel = Unit {0}
    Leads s (returned flag offset c t) = Delivers file s t

    deliver_all-Delivers :
        (es rest : List (Entry fl)) (all : Bool) (s t : Server fl)
        → Own es
        → deliver_all es s ≡ some (all, rest, t)
        → Delivers file s t × Own rest
    unfolding deliver_all
    deliver_all-Delivers [] rest all s t own h =
        let same = some-injective _ _ h in
        (subst (Delivers file s) (ap (λ r. r.2) same) nothing, subst Own (ap (λ r. r.1) same) tt)
    deliver_all-Delivers (e ∷ es) rest all s t own h =
        elim (Bool-cases (is_file_imported e.file s)) [
          | inl f ↦ elim (Option-cases (deliver e s)) [
            | inl g ↦ cc (rw (deliver_all, f, g) at h)
            | inr (u, g) ↦
                let (d, k) =
                  deliver_all-Delivers es rest all u t own.1 (rw (deliver_all, f, g) at h) in
                (Delivers-trans (one_more nothing e own.0 g) d, k)
          ]
          | inr f ↦
              let same = some-injective _ _ (rw (deliver_all, f) at h) in
              (
                subst (Delivers file s) (ap (λ r. r.2) same) nothing,
                subst Own (ap (λ r. r.1) same) own,
              )
        ]

    update_data_to_graph-Delivers :
        (c d : Cache fl) (all : Bool) (s t : Server fl)
        → Own c.entries
        → update_data_to_graph c s ≡ some (all, d, t)
        → Delivers file s t × Own d.entries
    unfolding update_data_to_graph
    update_data_to_graph-Delivers c d all s t own h =
        elim (Option-cases (deliver_all c.entries s)) [
          | inl e ↦ cc (rw (update_data_to_graph, e) at h)
          | inr ((b, rest, u), e) ↦
              let same = some-injective _ _ (rw (update_data_to_graph, e) at h) in
              let (went, left) = deliver_all-Delivers c.entries rest b s u own e in
              let server : u ≡ t = sym (settle-server c (b, rest, u)) ∙ ap (λ r. r.2) same in
              let entries : rest ≡ d.entries =
                sym (settle-entries c (b, rest, u)) ∙ ap (λ r. r.1.entries) same in
              (subst (Delivers file s) server went, subst Own entries left)
        ]

    cache_data-Own :
        (tag : Text) (ps : List (ScalarPoint fl)) (c : Cache fl)
        → Own c.entries
        → Own (cache_data file tag ps c).entries
    unfolding cache_data
    cache_data-Own [] ps c own = own
    cache_data-Own (b ∷ bs) ps c own =
        All-append (λ (e : Entry fl). e.file ≡ file) c.entries _ own (refl, tt)

    update_cache-Delivers :
        (tag : Text) (ps : List (ScalarPoint fl)) (force all : Bool) (c d : Cache fl)
        (s t : Server fl)
        → Own c.entries
        → update_cache file tag ps force c s ≡ some (all, d, t)
        → Delivers file s t × Own d.entries
    unfolding update_cache
    update_cache-Delivers tag ps force all c d s t own h =
        let kept = cache_data-Own tag ps c own in
        elim (Bool-cases (reach_limit (cache_data file tag ps c) || force)) [
          | inl e ↦ update_data_to_graph-Delivers _ d all s t kept (rw (update_cache, e) at h)
          | inr e ↦
              let same = some-injective _ _ (rw (update_cache, e) at h) in
              (
                subst (Delivers file s) (ap (λ r. r.2) same) nothing,
                subst Own (ap (λ r. r.1.entries) same) kept,
              )
        ]

    update_all-Delivers :
        (tags : ScalarData fl) (all : Bool) (c d : Cache fl) (s t : Server fl)
        → Own c.entries
        → update_all file tags c s ≡ some (all, d, t)
        → Delivers file s t × Own d.entries
    unfolding update_all
    update_all-Delivers [] all c d s t own h =
        let same = some-injective _ _ h in
        (
          subst (Delivers file s) (ap (λ r. r.2) same) nothing,
          subst Own (ap (λ r. r.1.entries) same) own,
        )
    update_all-Delivers ((tag, ps) ∷ tags) all c d s t own h =
        elim (Option-cases (update_cache file tag ps false c s)) [
          | inl e ↦ cc (rw (update_all, e) at h)
          | inr ((true, k, u), e) ↦
              let (first, kept) = update_cache-Delivers tag ps false true c k s u own e in
              let (then_, left) =
                update_all-Delivers tags all k d u t kept (rw (update_all, e) at h) in
              (Delivers-trans first then_, left)
          | inr ((false, k, u), e) ↦
              let same = some-injective _ _ (rw (update_all, e) at h) in
              let (first, kept) = update_cache-Delivers tag ps false false c k s u own e in
              (
                subst (Delivers file s) (ap (λ r. r.2) same) first,
                subst Own (ap (λ r. r.1.entries) same) kept,
              )
        ]

    finish-Leads :
        (flag : Bool) (offset : ℕ) (c : Cache fl) (s : Server fl)
        → Own c.entries
        → Leads s (finish file flag offset c s)
    unfolding finish
    finish-Leads flag offset c s own = elim (Option-cases (update_cache file [] [] true c s)) [
      | inl e ↦ rw (finish, e) tt
      | inr ((all, d, t), e) ↦ rw (finish, e) (update_cache-Delivers [] [] true all c d s t own e).0
    ]

    Leads-trans : (s t : Server fl) (o : Outcome fl) → Delivers file s t → Leads t o → Leads s o
    Leads-trans s t overrun p h = tt
    Leads-trans s t out_of_fuel p h = tt
    Leads-trans s t (returned flag offset c u) p h = Delivers-trans p h

    next-Leads :
        (continue : Bool → Cache fl → Server fl → Outcome fl) (offset : ℕ) (tags : ScalarData fl)
        (flag : Bool) (c : Cache fl) (s : Server fl)
        → Own c.entries
        → ((g : Bool) (d : Cache fl) (t : Server fl) → Own d.entries → Leads t (continue g d t))
        → Leads s (next file continue offset tags flag c s)
    unfolding next
    next-Leads continue offset [] flag c s own goes = goes flag c s own
    next-Leads continue offset (e ∷ es) flag c s own goes =
        elim (Option-cases (update_all file (e ∷ es) c s)) [
          | inl f ↦ rw (next, f) tt
          | inr ((true, d, t), f) ↦
              let (went, kept) = update_all-Delivers (e ∷ es) true c d s t own f in
              rw (next, f) (Leads-trans s t (continue false d t) went (goes false d t kept))
          | inr ((false, d, t), f) ↦
              rw (next, f) (update_all-Delivers (e ∷ es) false c d s t own f).0
        ]

    module _ (scalars : List ℕ → Option (ScalarData fl))
        (read_record : List ℕ → Option (List ℕ × List ℕ)) where
      parse_loop-Leads :
          (size fuel : ℕ) (input : List ℕ) (offset : ℕ) (flag : Bool) (c : Cache fl) (s : Server fl)
          → Own c.entries
          → Leads s (parse_loop file scalars read_record size fuel input offset flag c s)
      unfolding parse_loop
      parse_loop-Leads size zero input offset flag c s own = tt
      parse_loop-Leads size (suc fuel) input offset flag c s own =
          elim (Option-cases (read_record input)) [
            | inl e ↦ rw (parse_loop, e) (finish-Leads flag offset c s own)
            | inr ((payload, rest), e) ↦ elim (Option-cases (scalars payload)) [
              | inl f ↦ rw (parse_loop, e, f) (finish-Leads flag offset c s own)
              | inr (tags, f) ↦
                  rw (parse_loop, e, f)
                    (next-Leads _ _ tags flag c s own
                      (λ g d t k. parse_loop-Leads size fuel rest (size - length rest) g d t k))
            ]
          ]

      pub parser_data-Leads :
          (content : Option (List ℕ)) (offset : ℕ) (s : Server fl)
          → Leads s (parser_data file scalars read_record content offset (empty_cache fl) s)
      unfolding parser_data
      parser_data-Leads none offset s = nothing
      parser_data-Leads (some bytes) offset s =
          parse_loop-Leads (length bytes) (suc (length bytes)) (drop offset bytes) offset true
            (empty_cache fl) s tt
