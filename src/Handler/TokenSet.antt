-- ===== src/Handler/TokenSet.antt =====
-- Scalar/server/src/plugin/Handler/ScalarVisuallyTokenSet.cpp: the token parameters of files. The
-- message of an unknown file is left out of the answer.

use blue_workspace_build.Base.{
  ℕ, ◌≡◌, refl, ap, ◌∙◌, Bool, true, Option, none, some, List, [], ◌∷◌, length, Text, codes,
}
use blue_workspace_build.Base.Floats.{Floats}
use blue_workspace_build.Base.Map
use blue_workspace_build.Base.Map.{nat_key, text_key}
use blue_workspace_build.Base.StringSet.{StringSet}
use blue_workspace_build.Concept.{ErrCode}
use blue_workspace_build.Json.{
  Json, ◌>>=◌, both, both-true, map_all, member_is, get_member, get_member_total, all_members,
  all_members_total,
}
use blue_workspace_build.File.{File, FileType}
use blue_workspace_build.Manager.{plain, file_of, set_file}
use blue_workspace_build.Manager.Index.{IsManager}
use blue_workspace_build.Graphs.{Server, find_file, store_file}
use blue_workspace_build.Graphs.Lookup.{find_file-known, find_file-parts}
use blue_workspace_build.Handler.{Parsed, rejected, accepted, parse_request}

-- An entry of `tokenInfo_`.
pub record TokenInfo (fl : Floats) : Type 0 where
  pub file : Text
  pub global_batch_size : fl.Double
  pub seq_length : fl.Double

-- struct TokenSetResponseItem.
pub record TokenSetResponseItem (fl : Floats) : Type 0 where
  pub info : TokenInfo fl
  pub tags : StringSet

module _ {fl : Floats} (j : Json fl) where
  -- The lambda of `CheckParamValid`.
  unfoldable pub check_token_item : j.Value → Option Bool
  unfolding both member_is
  check_token_item item = both (some (j.object.is item)) (
      both (member_is j (codes "file") j.text item) (
        both (member_is j (codes "globalBatchSize") j.number item)
          (member_is j (codes "seqLength") j.number item)))

  -- CheckParamValid.
  unfoldable pub check_token_set : j.Value → Option Bool
  unfolding both member_is all_members check_token_item
  check_token_set v =
      both (member_is j (codes "params") j.array v)
        (all_members j (codes "params") check_token_item v)

  unfoldable pub read_token_item : j.Value → Option (TokenInfo fl)
  unfolding get_member
  read_token_item param = do
    file ← get_member j (codes "file") j.text param
    size ← get_member j (codes "globalBatchSize") j.number param
    seq ← get_member j (codes "seqLength") j.number param
    some record { file = file; global_batch_size = size; seq_length = seq }

  unfoldable pub read_token_set : j.Value → Option (List (TokenInfo fl))
  unfolding read_token_item map_all
  read_token_set v = do
    items ← get_member j (codes "params") j.array v
    map_all read_token_item items

  -- ParseReqeustFromJson.
  unfoldable pub parse_token_set : Text → Option (Parsed (List (TokenInfo fl)))
  unfolding parse_request
  parse_token_set = parse_request j check_token_set read_token_set

  read_token_item_total :
      (item : j.Value)
      → check_token_item item ≡ some true
      → (r : TokenInfo fl) × (read_token_item item ≡ some r)
  unfolding check_token_item read_token_item
  read_token_item_total item h =
      let (_, h1) = both-true (some (j.object.is item)) _ h in
      let (filed, h2) = both-true _ _ h1 in
      let (sized, long) = both-true _ _ h2 in
      let (file, a) = get_member_total j (codes "file") j.text item filed in
      let (size, b) = get_member_total j (codes "globalBatchSize") j.number item sized in
      let (seq, c) = get_member_total j (codes "seqLength") j.number item long in
      (
        record { file = file; global_batch_size = size; seq_length = seq },
        rw (read_token_item, a, b, c) refl,
      )

  -- A document that passes the check is read without a failed assertion, with one file's parameters
  -- for each entry.
  pub read_token_set_total :
      (v : j.Value)
      → check_token_set v ≡ some true
      → (items : List j.Value) × (r : List (TokenInfo fl)) × (get_member j
            (codes "params")
            j.array
            v
          ≡ some items)
        × (read_token_set v ≡ some r)
        × (length r ≡ length items)
  unfolding check_token_set read_token_set
  read_token_set_total v h =
      let (_, checked) = both-true (member_is j (codes "params") j.array v) _ h in
      let (items, r, got, made, same) =
        all_members_total j (codes "params") check_token_item read_token_item v
          read_token_item_total checked in
      (items, r, got, rw (read_token_set, got) made, same)

module _ {fl : Floats} where
  -- SetGlobalBatchSize and SetSeqLength.
  unfoldable pub with_tokens : TokenInfo fl → File fl → File fl
  with_tokens info f = record f {
    global_batch_size = info.global_batch_size;
    seq_length = info.seq_length;
  }

  -- SetFileToken.
  unfoldable pub set_file_token : TokenInfo fl → Server fl → StringSet × Server fl
  unfolding find_file file_of set_file store_file with_tokens
  set_file_token info s = elim (find_file info.file s) [
    | none ↦ ([], s)
    | some (i, o) ↦ elim (file_of o).type [
      | FileType.visual ↦ ([], s)
      | FileType.normal ↦
          ((file_of o).tags, store_file i (set_file (with_tokens info (file_of o)) o) s)
    ]
  ]

  -- The loop of `run`.
  unfoldable pub set_tokens :
      List (TokenInfo fl) → Server fl → List (TokenSetResponseItem fl) × Server fl
  unfolding set_file_token
  set_tokens [] s = ([], s)
  set_tokens (info ∷ infos) s =
      let (tags, t) = set_file_token info s in
      let (items, u) = set_tokens infos t in (record { info = info; tags = tags } ∷ items, u)

  -- `run` behind the parsing: a request that was rejected is answered with its error and with no
  -- items, and its value is true as well.
  unfoldable pub answer_token_set :
      Parsed (List (TokenInfo fl))
      → Server fl
      → Bool × ErrCode × List (TokenSetResponseItem fl) × Server fl
  unfolding set_tokens
  answer_token_set (rejected code) s = (true, code, [], s)
  answer_token_set (accepted infos) s =
      let (items, t) = set_tokens infos s in (true, ErrCode.ok, items, t)

  -- For a file of a well-formed manager that is no virtual file, the file is found again under its path
  -- with the batch size and the sequence length of the request and is otherwise the same, and the
  -- answer holds its tags.
  pub set_file_token_lem :
      (info : TokenInfo fl) (i : ℕ) (f : File fl) (s : Server fl)
      → IsManager s.manager
      → find_file info.file s ≡ some (i, plain f)
      → f.type ≡ FileType.normal
      → ((set_file_token info s).0 ≡ f.tags)
        × (g : File fl) × (find_file info.file (set_file_token info s).1 ≡ some (i, plain g))
        × (g.global_batch_size ≡ info.global_batch_size)
        × (g.seq_length ≡ info.seq_length)
        × (record g { global_batch_size = f.global_batch_size; seq_length = f.seq_length } ≡ f)
  unfolding set_file_token store_file with_tokens
  set_file_token_lem info i f s m h e =
      let (known, found, _, there) = find_file-parts info.file i (plain f) s m h in
      let t = store_file i (plain (with_tokens info f)) s in
      let after =
        find_file-known info.file i (plain (with_tokens info f)) t known found
          (Map.get-put_self i _ s.manager.heap) in
      let stored : StringSet × Server fl = (f.tags, t) in
      let eq : set_file_token info s ≡ stored =
        rw (set_file_token, h)
          (ap (λ type. elim type [ FileType.visual ↦ ([], s) | FileType.normal ↦ stored ]) e) in
      (
        ap (λ r. r.0) eq,
        with_tokens info f,
        ap (λ r. find_file info.file r.1) eq ∙ after,
        refl,
        refl,
        refl,
      )
