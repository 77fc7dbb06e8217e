-- ===== src/Util.antt =====
-- Scalar/server/src/Util/FileUtil.h and `GetFileHierarchy` of
-- Scalar/server/src/plugin/ScalarVisuallyServer.cpp. A string is the list of its bytes.
pub mod Utf8
use mathlib.Core.List.{append-nil}
use blue_workspace_build.Base.{
  ℕ, zero, suc, ◌+◌, ◌-◌, ◌*◌, ◌/◌, ◌%◌, ◌^◌, ◌≤◌, ◌<◌, min, max, ◌≡◌, refl, sym, ap, ◌∙◌, ◌≢◌, ◌↔◌,
  ◌⊎◌, inl, inr, Bool, true, false, not, ◌&&◌, ◌||◌, Option, none, some, List, [], ◌∷◌, ◌++◌, map,
  arith, ltb, leb, eqb, if◌then◌else◌, ltb→lt, lt→ltb, eqb_iff, Bool-cases, Option-cases, length,
  get_elem?, take, drop, is_empty, all_of, any_of, last_or, length-append, last_or-append, All,
  All-append, All-mono, length-take, length-drop, take-append-drop, length-map, get_elem?_total,
  drop-append, drop-nil, Text, codes, text_eq, text_lt, text_eq_iff, text_lt_irrefl, text_lt_trans,
  text_lt_total,
}
use blue_workspace_build.Base.StringSet.{StringSet}

-- `byte & k` for the mask `k` of a byte that clears the bits below `low`.
abbrev pub masked : ℕ → ℕ → ℕ
masked low byte = byte - byte % low

-- ByteNum: the table's entries in the order of their keys 0xE0, 0xF0, 0xF8, 0xFC and 0xFE.
unfoldable pub byte_num : ℕ → ℕ
byte_num byte =
    if eqb (masked 32 byte) 192
    then 1
    else if eqb (masked 16 byte) 224
    then 2
    else if eqb (masked 8 byte) 240
    then 3
    else if eqb (masked 4 byte) 248
    then 4
    else if eqb (masked 2 byte) 252
    then 5
    else 0

-- The loop of `IsUtf8String`, with its `byteNum`.
unfoldable pub utf8_loop : ℕ → Text → Bool
unfolding byte_num
utf8_loop n [] = true
utf8_loop zero (b ∷ bs) =
    let next = utf8_loop (byte_num b) bs in
    let same = utf8_loop 0 bs in
    if eqb (masked 128 b) 0 then same else if eqb (byte_num b) 0 then false else next
utf8_loop (suc n) (b ∷ bs) =
    let next = utf8_loop n bs in if not (eqb (masked 64 b) 128) then false else next

-- IsUtf8String.
unfoldable pub is_utf8_string : Text → Bool
unfolding utf8_loop
is_utf8_string = utf8_loop 0

-- `path.find(pathPrefix) == 0`.
unfoldable pub starts_with : Text → Text → Bool
starts_with [] path = true
starts_with (a ∷ rest) [] = false
starts_with (a ∷ rest) (b ∷ bs) = eqb a b && starts_with rest bs

-- The parts of an `fs::path` are a parameter.
module _ (parts : Text → List Text) where
  -- FileUtil::GetFileHierarchy; `none` is the exception of `substr`.
  unfoldable pub get_file_hierarchy : Text → Text → Option (List Text)
  unfolding starts_with
  get_file_hierarchy path_prefix path =
      if not (starts_with path_prefix path)
      then some []
      else if ltb (length path) (length path_prefix + 1)
      then none
      else some (parts (drop (length path_prefix + 1) path))

  -- ScalarVisuallyServer::GetFileHierarchy, of the imported paths.
  unfoldable pub server_file_hierarchy : StringSet → Text → Option (List Text)
  unfolding get_file_hierarchy
  server_file_hierarchy [] path = some []
  server_file_hierarchy (path_prefix ∷ imported) path =
      if starts_with path_prefix path
      then get_file_hierarchy path_prefix path
      else server_file_hierarchy imported path

  starts_with-append : (xs bs : Text) → starts_with xs (xs ++ bs) ≡ true
  unfolding starts_with
  starts_with-append [] bs = refl
  starts_with-append (a ∷ xs) bs = ground (arith, starts_with-append xs bs)

  drop-append_one : (xs rest : Text) (c : ℕ) → drop (length xs + 1) (xs ++ c ∷ rest) ≡ rest
  drop-append_one [] rest c = refl
  drop-append_one (a ∷ xs) rest c =
      let e : suc (length xs) + 1 ≡ suc (length xs + 1) = omega arith in
      ap (λ k. drop k (a ∷ xs ++ c ∷ rest)) e ∙ drop-append_one xs rest c

  -- A path behind a prefix and one separator is split into its parts; the prefix itself has no
  -- such rest, and `substr` throws.
  pub get_file_hierarchy_below :
      (path_prefix rest : Text) (separator : ℕ)
      → (get_file_hierarchy path_prefix (path_prefix ++ separator ∷ rest) ≡ some (parts rest))
        × (get_file_hierarchy path_prefix path_prefix ≡ none)
  unfolding get_file_hierarchy
  get_file_hierarchy_below path_prefix rest separator =
      let whole = starts_with-append path_prefix (separator ∷ rest) in
      let here = starts_with-append path_prefix [] in
      let size = length-append path_prefix (separator ∷ rest) in
      (
        ground (arith, whole, size, drop-append_one path_prefix rest separator),
        ground (arith, here, append-nil path_prefix),
      )
