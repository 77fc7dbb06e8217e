-- ===== src/Parser/Frame.antt =====
-- `ReadCheckSumRecord` of Scalar/server/src/parser/FileParser.cpp and `ReadRecord` of
-- TFEventParser.cpp and SummaryParser.cpp: a record in a file is its length, a check sum of the
-- length, its bytes and a check sum of these. The input is the list of the bytes that are left, and
-- `none` is the result false, behind which nothing more is read.

use mathlib.Core.List.{append_assoc}
use mathlib.Core.Path.{ap₂}
use blue_workspace_build.Base.{
  ℕ, zero, suc, ◌+◌, ◌-◌, ◌*◌, ◌/◌, ◌%◌, ◌^◌, ◌<◌, ◌≡◌, refl, sym, ap, ◌∙◌, inl, inr, Option, none,
  some, List, [], ◌∷◌, ◌++◌, arith, ltb, if◌then◌else◌, Bool-cases, Option-cases, length, take,
  drop, length-append, length-take, length-drop,
}

-- ReadCheckSumRecord: `size` bytes, and four bytes that are skipped.
unfoldable pub read_check_sum_record : ℕ → List ℕ → Option (List ℕ × List ℕ)
read_check_sum_record size input =
    if ltb (2 ^ 63 - 1) size
    then none
    else if ltb (length input) size
    then none
    else if ltb (length (drop size input)) 4
    then none
    else some (take size input, drop 4 (drop size input))

-- The `uint64_t` at the buffer's front, least byte first.
unfoldable pub little_endian : List ℕ → ℕ
little_endian [] = 0
little_endian (b ∷ bs) = b + 256 * little_endian bs

-- ReadRecord of the two parsers.
unfoldable pub read_record : List ℕ → Option (List ℕ × List ℕ)
unfolding read_check_sum_record little_endian
read_record input = elim (read_check_sum_record 8 input) [
  | none ↦ none
  | some (buffer, rest) ↦ read_check_sum_record (little_endian buffer) rest
]

-- The bytes of a number, least byte first.
unfoldable pub bytes : ℕ → ℕ → List ℕ
bytes zero n = []
bytes (suc count) n = n % 256 ∷ bytes count (n / 256)

-- A record as it stands in a file.
unfoldable pub frame : List ℕ → List ℕ → List ℕ → List ℕ
unfolding bytes
frame length_sum payload payload_sum =
    bytes 8 (length payload) ++ (length_sum ++ (payload ++ payload_sum))

length-bytes : (count n : ℕ) → length (bytes count n) ≡ count
unfolding bytes
length-bytes zero n = refl
length-bytes (suc count) n = ap suc (length-bytes count (n / 256))

little_endian-bytes : (count n : ℕ) → n < 256 ^ count → little_endian (bytes count n) ≡ n
unfolding little_endian bytes
little_endian-bytes zero n h = omega arith
little_endian-bytes (suc count) n h =
    let split : n ≡ 256 * (n / 256) + n % 256 = omega arith in
    let power : 256 ^ suc count ≡ 256 * 256 ^ count = grind arith in
    let less : n / 256 < 256 ^ count = omega arith in
    rw (little_endian-bytes count (n / 256) less) (omega arith)

take-prefix :
    (xs ys : List ℕ) (count : ℕ) → take (length xs + count) (xs ++ ys) ≡ xs ++ take count ys
take-prefix [] ys count = let e : 0 + count ≡ count = omega arith in ap (λ k. take k ys) e
take-prefix (x ∷ xs) ys count =
    let e : suc (length xs) + count ≡ suc (length xs + count) = omega arith in
    ap (λ k. take k (x ∷ xs ++ ys)) e ∙ ap (◌∷◌ x) (take-prefix xs ys count)

pub drop-prefix : (xs ys : List ℕ) → drop (length xs) (xs ++ ys) ≡ ys
drop-prefix [] ys = refl
drop-prefix (x ∷ xs) ys = drop-prefix xs ys

prefix_only : (xs ys : List ℕ) → take (length xs) (xs ++ ys) ≡ xs
prefix_only [] ys = refl
prefix_only (x ∷ xs) ys = ap (◌∷◌ x) (prefix_only xs ys)

read_check_sum_record-prefix :
    (size : ℕ) (xs sum rest : List ℕ)
    → length xs ≡ size
    → size < 2 ^ 63
    → length sum ≡ 4
    → read_check_sum_record size (xs ++ (sum ++ rest)) ≡ some (xs, rest)
unfolding read_check_sum_record
read_check_sum_record-prefix size xs sum rest e h s =
    let all = length-append xs (sum ++ rest) in
    let some_left = length-append sum rest in
    let behind : drop size (xs ++ (sum ++ rest)) ≡ sum ++ rest =
      rw⁻¹ e (drop-prefix xs (sum ++ rest)) in
    let front : take size (xs ++ (sum ++ rest)) ≡ xs = rw⁻¹ e (prefix_only xs (sum ++ rest)) in
    let last : drop 4 (sum ++ rest) ≡ rest = rw⁻¹ s (drop-prefix sum rest) in
    ground (arith, all, some_left, behind, front, last)

read_check_sum_record-short :
    (size : ℕ) (input : List ℕ) → length input < size + 4 → read_check_sum_record size input ≡ none
unfolding read_check_sum_record
read_check_sum_record-short size input h = ground (arith, length-drop size input)

-- A record in its parts, of the bytes `b` of its length.
read_record-parts :
    (b length_sum payload payload_sum rest : List ℕ)
    → length b ≡ 8
    → little_endian b ≡ length payload
    → length payload < 2 ^ 63
    → length length_sum ≡ 4
    → length payload_sum ≡ 4
    → read_record (b ++ (length_sum ++ (payload ++ (payload_sum ++ rest)))) ≡ some (payload, rest)
unfolding read_record
read_record-parts b length_sum payload payload_sum rest e v h s t =
    let first =
      read_check_sum_record-prefix 8 b length_sum (payload ++ (payload_sum ++ rest)) e (omega arith)
        s in
    let second = read_check_sum_record-prefix (length payload) payload payload_sum rest refl h t in
    rw (read_record, first, v) second

-- The same of a record that ends within its payload or the last check sum.
read_record-cut :
    (b length_sum input : List ℕ) (size : ℕ)
    → length b ≡ 8
    → little_endian b ≡ size
    → length length_sum ≡ 4
    → length input < size + 4
    → read_record (b ++ (length_sum ++ input)) ≡ none
unfolding read_record
read_record-cut b length_sum input size e v s h =
    rw (read_record, read_check_sum_record-prefix 8 b length_sum input e (omega arith) s, v)
      (read_check_sum_record-short size input h)

read_record-short : (input : List ℕ) → length input < 12 → read_record input ≡ none
unfolding read_record
read_record-short input h = rw (read_record, read_check_sum_record-short 8 input (omega arith)) refl

little_endian-length : (n : ℕ) → n < 2 ^ 63 → little_endian (bytes 8 n) ≡ n
little_endian-length n h = little_endian-bytes 8 n (omega arith)

-- A record of less than 2 ^ 63 bytes is read back, whatever its check sums of four bytes are,
-- and what follows it is left.
pub read_record-frame :
    (length_sum payload payload_sum rest : List ℕ)
    → length payload < 2 ^ 63
    → length length_sum ≡ 4
    → length payload_sum ≡ 4
    → read_record (frame length_sum payload payload_sum ++ rest) ≡ some (payload, rest)
unfolding frame
read_record-frame length_sum payload payload_sum rest h s t =
    let n = length payload in
    let parts =
      read_record-parts (bytes 8 n) length_sum payload payload_sum rest (length-bytes 8 n)
        (little_endian-length n h) h s t in
    simp (append_assoc) parts

cut_prefix :
    (xs ys zs : List ℕ) (j count : ℕ)
    → count ≡ length (xs ++ ys) + j
    → take count (xs ++ (ys ++ zs)) ≡ xs ++ (ys ++ take j zs)
cut_prefix xs ys zs j count e =
    ap₂ take e (sym (append_assoc xs ys zs))
    ∙ take-prefix (xs ++ ys) zs j
    ∙ append_assoc xs ys (take j zs)

-- Of a record of less than 2 ^ 63 bytes that was not written to its end, check sums of four
-- bytes included, nothing is read.
pub read_record_partial :
    (length_sum payload payload_sum : List ℕ) (count : ℕ)
    → length payload < 2 ^ 63
    → length length_sum ≡ 4
    → length payload_sum ≡ 4
    → count < length (frame length_sum payload payload_sum)
    → read_record (take count (frame length_sum payload payload_sum)) ≡ none
unfolding frame
read_record_partial length_sum payload payload_sum count h s t k =
    let n = length payload in
    let b = bytes 8 n in
    let tail = payload ++ payload_sum in
    let e : length b ≡ 8 = length-bytes 8 n in
    let size : length tail ≡ n + 4 = omega (arith, length-append payload payload_sum) in
    let head : length (b ++ length_sum) ≡ 12 = omega (arith, length-append b length_sum) in
    let whole : length (b ++ (length_sum ++ tail)) ≡ n + 16 =
      omega (arith, length-append b (length_sum ++ tail), length-append length_sum tail) in
    elim (Bool-cases (ltb count 12)) [
      | inl f ↦
          read_record-short (take count (b ++ (length_sum ++ tail)))
            (ground (arith, f, length-take count (b ++ (length_sum ++ tail))))
      | inr f ↦
          let j = count - 12 in
          let cut : take count (b ++ (length_sum ++ tail)) ≡ b ++ (length_sum ++ take j tail) =
            cut_prefix b length_sum tail j count (ground (arith, f)) in
          rw cut (
            read_record-cut b length_sum (take j tail) n e (little_endian-length n h) s
              (ground (arith, f, length-take j tail)))
    ]

read_check_sum_record-shrinks :
    (size : ℕ) (input payload rest : List ℕ)
    → read_check_sum_record size input ≡ some (payload, rest)
    → length rest < length input
unfolding read_check_sum_record
read_check_sum_record-shrinks size input payload rest h =
    ground (arith, length-drop size input, length-drop 4 (drop size input))

-- Behind a record less of the input is left.
pub read_record-shrinks :
    (input payload rest : List ℕ)
    → read_record input ≡ some (payload, rest)
    → length rest < length input
unfolding read_record
read_record-shrinks input payload rest h = elim (Option-cases (read_check_sum_record 8 input)) [
  | inl e ↦ cc (rw (read_record, e) at h)
  | inr ((buffer, middle), e) ↦
      let first = read_check_sum_record-shrinks 8 input buffer middle e in
      let second =
        read_check_sum_record-shrinks (little_endian buffer) middle payload rest
          (rw (read_record, e) at h) in
      omega arith
]
