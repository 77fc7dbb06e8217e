-- ===== src/Tests/Parsing.antt =====
-- The loop over the records of a file: the theorems at concrete values.
use blue_workspace_build.Base.{
  ℕ, ◌≤◌, ◌≡◌, refl, ◌≢◌, true, Option, some, List, [], ◌∷◌, ◌++◌, arith, eqb, if◌then◌else◌,
  length, take,
}
use blue_workspace_build.Tests.Values.{whole, three_points, loss}
use blue_workspace_build.Tests.Server.{log_path, server, sum}
use blue_workspace_build.Parser.Cache.{empty_cache}
use blue_workspace_build.Parser.Frame.{read_record, read_record-shrinks}
use blue_workspace_build.Parser.Loop.{out_of_fuel, ScalarData, parser_data, parser_data_ends}
use blue_workspace_build.Parser.Resume.{FileRecord, contents, parser_data_offset}

-- Records of two bytes hold the three points, and others nothing.
unfoldable pub scalars : List ℕ → Option (ScalarData whole)
scalars bytes = if eqb (length bytes) 2 then some ((loss, three_points) ∷ []) else some []

abbrev pub first_record : FileRecord
first_record = record { length_sum = sum; payload = 7 ∷ 8 ∷ []; payload_sum = sum }

abbrev pub empty_record : FileRecord
empty_record = record { length_sum = sum; payload = []; payload_sum = sum }

abbrev before : List ℕ
before = 0 ∷ 0 ∷ []

parser_data_ends_example :
    parser_data log_path scalars read_record (some before) 0 (empty_cache whole) server
    ≢ out_of_fuel
parser_data_ends_example =
    parser_data_ends log_path scalars read_record (some before) 0 (empty_cache whole) server
      read_record-shrinks

parser_data_offset_example :
    (n : ℕ) × (n ≤ 1) × (18 ≡ length (before ++ contents (take n (empty_record ∷ []))))
unfolding read_record parser_data scalars contents blue_workspace_build.Parser.Frame.frame
parser_data_offset_example =
    parser_data_offset log_path scalars before (empty_record ∷ []) (1 ∷ []) (empty_cache whole)
      (empty_cache whole) server server true 18 ((omega arith, refl, refl), tt) refl refl
