-- ===== src/Util/Utf8.antt =====
-- What `IsUtf8String` accepts.
use blue_workspace_build.Base.{
  ℕ, zero, suc, ◌≤◌, ◌<◌, ◌≡◌, refl, ◌⊎◌, inl, inr, true, [], ◌∷◌, ◌++◌, arith, length, All, Text,
}
use blue_workspace_build.Util.{byte_num, utf8_loop, is_utf8_string}

-- A byte that goes on a character.
abbrev pub IsContinuation : ℕ → Type 0
IsContinuation b = (128 ≤ b) × (b < 192)

-- The encoding of one character: an ASCII byte, or a first byte with as many others as it says.
abbrev pub IsCharacter : Text → Type 0
IsCharacter [] = Unit {0}
IsCharacter (b ∷ bs) =
    ((b < 128) × (bs ≡ []))
    ⊎ ((128 ≤ b) × (0 < byte_num b) × (length bs ≡ byte_num b) × All IsContinuation bs)

utf8_loop-tail :
    (bs rest : Text) → All IsContinuation bs → utf8_loop (length bs) (bs ++ rest) ≡ utf8_loop 0 rest
unfolding utf8_loop
utf8_loop-tail [] rest h = refl
utf8_loop-tail (b ∷ bs) rest h = ground (arith, h.0, utf8_loop-tail bs rest h.1)

-- Behind the whole encoding of a character the test gives what it gives for the rest alone.
pub is_utf8_string_character :
    (c rest : Text) → IsCharacter c → is_utf8_string (c ++ rest) ≡ is_utf8_string rest
unfolding is_utf8_string utf8_loop
is_utf8_string_character [] rest h = refl
is_utf8_string_character (b ∷ bs) rest h = elim h [
  | inl (small, none_left) ↦ rw none_left (ground (arith, small))
  | inr (big, lead, size, tail) ↦
      let rest_of : utf8_loop (byte_num b) (bs ++ rest) ≡ utf8_loop 0 rest =
        rw⁻¹ size (utf8_loop-tail bs rest tail) in
      ground (arith, big, lead, rest_of)
]

utf8_loop-partial :
    (n : ℕ) (bs : Text) → All IsContinuation bs → length bs ≤ n → utf8_loop n bs ≡ true
unfolding utf8_loop
utf8_loop-partial zero [] h k = refl
utf8_loop-partial (suc n) [] h k = refl
utf8_loop-partial zero (b ∷ bs) h k = absurd (omega arith)
utf8_loop-partial (suc n) (b ∷ bs) h k = ground (arith, h.0, utf8_loop-partial n bs h.1)

-- A string that consists of a first byte and fewer continuation bytes than it asks for is
-- accepted.
pub is_utf8_string_truncated :
    (b : ℕ) (bs : Text)
    → 128 ≤ b
    → b < 256
    → length bs < byte_num b
    → All IsContinuation bs
    → is_utf8_string (b ∷ bs) ≡ true
unfolding is_utf8_string utf8_loop
is_utf8_string_truncated b bs p q k h =
    let inside = utf8_loop-partial (byte_num b) bs h (omega arith) in ground (arith, inside)
