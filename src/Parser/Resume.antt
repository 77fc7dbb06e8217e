-- ===== src/Parser/Resume.antt =====
-- `ParserData` of Scalar/server/src/parser/FileParser.cpp on a file of whole records, with what may
-- follow them while the file is still written.
use mathlib.Core.List.{append_assoc}
use blue_workspace_build.Base.{
  ℕ, zero, suc, ◌+◌, ◌-◌, ◌^◌, ◌≤◌, ◌<◌, ◌≡◌, refl, sym, ap, ◌∙◌, ◌⊎◌, inl, inr, Bool, true, false,
  Option, none, some, List, [], ◌∷◌, ◌++◌, map, arith, Option-cases, length, take, length-append,
  All, length-map, Text,
}
use blue_workspace_build.Base.Floats.{Floats}
use blue_workspace_build.Graphs.{Server}
use blue_workspace_build.Parser.Cache.{Cache, update_cache}
use blue_workspace_build.Parser.Frame.{frame, read_record, read_record-frame, drop-prefix, bytes}
use blue_workspace_build.Parser.Loop.{
  Outcome, returned, ScalarData, next, finish, update_all, parse_loop, parser_data, parse_records,
}

-- A record of a file with its two check sums.
pub record FileRecord : Type 0 where
  pub length_sum : List ℕ
  pub payload : List ℕ
  pub payload_sum : List ℕ

abbrev pub IsFileRecord : FileRecord → Type 0
IsFileRecord r =
    (length r.payload < 2 ^ 63) × (length r.length_sum ≡ 4) × (length r.payload_sum ≡ 4)

unfoldable pub on_disk : FileRecord → List ℕ
on_disk r = frame r.length_sum r.payload r.payload_sum

-- The bytes of a list of records.
unfoldable pub contents : List FileRecord → List ℕ
unfolding on_disk
contents [] = []
contents (r ∷ rs) = on_disk r ++ contents rs

-- Each record's size in the file, and its payload.
abbrev pub sized : List FileRecord → List (ℕ × List ℕ)
sized = map (λ r. (length (on_disk r), r.payload))

-- The bytes of whole records in front.
unfoldable pub total : List (ℕ × List ℕ) → ℕ
total [] = 0
total (r ∷ rs) = r.0 + total rs

on_disk_some : (r : FileRecord) → 0 < length (on_disk r)
unfolding on_disk frame bytes
on_disk_some r = omega arith

length-contents : (rs : List FileRecord) → length rs ≤ length (contents rs)
unfolding contents
length-contents [] = omega arith
length-contents (r ∷ rs) =
    omega (arith, on_disk_some r, length-append (on_disk r) (contents rs), length-contents rs)

read_record-on_disk :
    (r : FileRecord) (rest : List ℕ)
    → IsFileRecord r
    → read_record (on_disk r ++ rest) ≡ some (r.payload, rest)
unfolding on_disk
read_record-on_disk r rest w =
    read_record-frame r.length_sum r.payload r.payload_sum rest w.0 w.1 w.2

module _ {fl : Floats} (file : Text) (scalars : List ℕ → Option (ScalarData fl)) where
  next-cong :
      (continue goes_on : Bool → Cache fl → Server fl → Outcome fl) (offset : ℕ)
      (tags : ScalarData fl) (flag : Bool) (c : Cache fl) (s : Server fl)
      → ((g : Bool) (d : Cache fl) (t : Server fl) → continue g d t ≡ goes_on g d t)
      → next file continue offset tags flag c s ≡ next file goes_on offset tags flag c s
  unfolding next
  next-cong continue goes_on offset [] flag c s h = h flag c s
  next-cong continue goes_on offset (e ∷ es) flag c s h =
      elim (Option-cases (update_all file (e ∷ es) c s)) [
        | inl f ↦ rw (next, f) refl
        | inr ((true, d, t), f) ↦ rw (next, f) (h false d t)
        | inr ((false, d, t), f) ↦ rw (next, f) refl
      ]

  parse_loop-records :
      (rs : List FileRecord) (tail : List ℕ) (size fuel offset : ℕ) (flag : Bool) (c : Cache fl)
      (s : Server fl)
      → All IsFileRecord rs
      → read_record tail ≡ none
      → size ≡ offset + length (contents rs ++ tail)
      → length rs < fuel
      → parse_loop file scalars read_record size fuel (contents rs ++ tail) offset flag c s
        ≡ parse_records file scalars (sized rs) offset flag c s
  unfolding parse_loop parse_records contents
  parse_loop-records rs tail size zero offset flag c s w p e h = absurd (omega arith)
  parse_loop-records [] tail size (suc fuel) offset flag c s w p e h = rw (parse_loop, p) refl
  parse_loop-records (r ∷ rs) tail size (suc fuel) offset flag c s w p e h =
      let rest = contents rs ++ tail in
      let here = read_record-on_disk r rest w.0 in
      let all = length-append (on_disk r) rest in
      let split = append_assoc (on_disk r) (contents rs) tail in
      let behind : size - length rest ≡ offset + length (on_disk r) =
        omega (arith, all, ap length split) in
      let later : size ≡ (offset + length (on_disk r)) + length rest =
        omega (arith, all, ap length split) in
      elim (Option-cases (scalars r.payload)) [
        | inl f ↦ rw (parse_loop, split, here, parse_records, f) refl
        | inr (tags, f) ↦
            rw (parse_loop, split, here, parse_records, f, behind)
              (next-cong _ _ _ tags flag c s (λ g d t.
                parse_loop-records rs tail size fuel (offset + length (on_disk r)) g d t w.1 p later
                  (omega arith)))
      ]

  -- If the offset stands behind `before`, and whole records of less than 2 ^ 63 bytes and then
  -- something that is no whole record follow, `ParserData` handles exactly these records, in
  -- order, with the offset behind each one.
  pub parser_data-records :
      (before : List ℕ) (rs : List FileRecord) (tail : List ℕ) (c : Cache fl) (s : Server fl)
      → All IsFileRecord rs
      → read_record tail ≡ none
      → parser_data file scalars read_record
          (some (before ++ (contents rs ++ tail)))
          (length before)
          c
          s
        ≡ parse_records file scalars (sized rs) (length before) true c s
  unfolding parser_data
  parser_data-records before rs tail c s w p =
      let bytes = before ++ (contents rs ++ tail) in
      let size = length-append before (contents rs ++ tail) in
      let rest = length-append (contents rs) tail in
      rw (drop-prefix before (contents rs ++ tail)) (
        parse_loop-records rs tail (length bytes) (suc (length bytes)) (length before) true c s w p
          size (omega (arith, size, rest, length-contents rs)))

  finish_offset :
      (flag ok : Bool) (offset last : ℕ) (c d : Cache fl) (s t : Server fl)
      → finish file flag offset c s ≡ returned ok last d t
      → last ≡ offset
  unfolding finish
  finish_offset flag ok offset last c d s t h =
      elim (Option-cases (update_cache file [] [] true c s)) [
        | inl e ↦ cc (rw (finish, e) at h)
        | inr (r, e) ↦ cc (rw (finish, e) at h)
      ]

  -- A record's data lead to the rest of the loop, or end it behind the record.
  next_offset :
      (continue : Bool → Cache fl → Server fl → Outcome fl) (offset last : ℕ) (tags : ScalarData fl)
      (flag ok : Bool) (c d : Cache fl) (s t : Server fl)
      → next file continue offset tags flag c s ≡ returned ok last d t
      → (last ≡ offset)
        ⊎ ((g : Bool) × (e : Cache fl) × (u : Server fl) × (continue g e u ≡ returned ok last d t))
  unfolding next
  next_offset continue offset last [] flag ok c d s t h = inr (flag, c, s, h)
  next_offset continue offset last (e ∷ es) flag ok c d s t h =
      elim (Option-cases (update_all file (e ∷ es) c s)) [
        | inl f ↦ cc (rw (next, f) at h)
        | inr ((true, k, u), f) ↦ inr (false, k, u, rw (next, f) at h)
        | inr ((false, k, u), f) ↦ inl (cc (rw (next, f) at h))
      ]

  parse_records_offset :
      (rs : List (ℕ × List ℕ)) (offset last : ℕ) (flag ok : Bool) (c d : Cache fl) (s t : Server fl)
      → parse_records file scalars rs offset flag c s ≡ returned ok last d t
      → (n : ℕ) × (n ≤ length rs) × (last ≡ offset + total (take n rs))
  unfolding parse_records total
  parse_records_offset [] offset last flag ok c d s t h =
      (0, omega arith, omega (arith, finish_offset flag ok offset last c d s t h))
  parse_records_offset ((size, payload) ∷ rs) offset last flag ok c d s t h =
      elim (Option-cases (scalars payload)) [
        | inl f ↦
            let same = finish_offset flag ok offset last c d s t (rw (parse_records, f) at h) in
            (0, omega arith, omega arith)
        | inr (tags, f) ↦
            let went =
              next_offset _ (offset + size) last tags flag ok c d s t
                (rw (parse_records, f) at h) in
            elim went [
              | inl same ↦ (1, omega arith, omega arith)
              | inr (g, e, u, k) ↦
                  let (n, inside, same) =
                    parse_records_offset rs (offset + size) last g ok e d u t k in
                  (suc n, omega arith, omega arith)
            ]
      ]

  total-sized :
      (n : ℕ) (rs : List FileRecord) → total (take n (sized rs)) ≡ length (contents (take n rs))
  unfolding total contents
  total-sized zero rs = refl
  total-sized (suc n) [] = refl
  total-sized (suc n) (r ∷ rs) =
      omega (arith, length-append (on_disk r) (contents (take n rs)), total-sized n rs)

  -- If the offset stands behind `before`, whole records of less than 2 ^ 63 bytes and then something
  -- that is no whole record follow, and `ParserData` returns, the offset that it leaves stands
  -- behind some of these records and never within one, so that the next call can start there.
  pub parser_data_offset :
      (before : List ℕ) (rs : List FileRecord) (tail : List ℕ) (c d : Cache fl) (s t : Server fl)
      (ok : Bool) (last : ℕ)
      → All IsFileRecord rs
      → read_record tail ≡ none
      → parser_data file scalars read_record
          (some (before ++ (contents rs ++ tail)))
          (length before)
          c
          s
        ≡ returned ok last d t
      → (n : ℕ) × (n ≤ length rs) × (last ≡ length (before ++ contents (take n rs)))
  parser_data_offset before rs tail c d s t ok last w p h =
      let counted : length (sized rs) ≡ length rs =
        length-map rs (λ r. (length (on_disk r), r.payload)) in
      let (n, inside, same) =
        parse_records_offset (sized rs) (length before) last true ok c d s t
          (sym (parser_data-records before rs tail c s w p) ∙ h) in
      (
        n,
        omega arith,
        omega (arith, same, total-sized n rs, length-append before (contents (take n rs))),
      )
