-- ===== src/Print/Escape.antt =====
-- `escape_json` of path.cpp, `JsonPathVisitor::escape` of jsoncons.cpp, and the strings of JSON that
-- they make.
use janosh.Common.{
  ℕ, suc, zero, ◌+◌, ◌-◌, ◌*◌, ◌/◌, ◌%◌, ◌<◌, ◌≡◌, refl, ◌∙◌, [], ◌∷◌, ◌++◌, Option, none, some,
  Bytes, codes, arith, ltb, leb, ◌==◌, ◌||◌, ◌&&◌, if◌then◌else◌, ◌⊎◌, All,
}
use janosh.Result.{Result, ok, err, undefined_behaviour, ◌>>=◌}

-- One hexadecimal digit.
unfoldable pub hex_digit : ℕ → ℕ
hex_digit v = if ltb v 10 then b'0' + v else b'a' + (v - 10)

-- The four hexadecimal digits of a number below 256.
unfoldable pub hex_code : ℕ → Bytes
unfolding hex_digit
hex_code c = b'0' ∷ b'0' ∷ hex_digit (c / 16) ∷ hex_digit (c % 16) ∷ []

-- A `char` above 127 is negative, and so no control character. The five bytes that `sprintf` writes
-- for the other control characters are one more than its buffer has.
unfoldable pub escape_char : ℕ → Result Bytes
escape_char c =
    if c == b'"'
    then ok (codes "\\\"")
    else if c == b'\\'
    then ok (codes "\\\\")
    else if c == 8
    then ok (codes "\\b")
    else if c == 12
    then ok (codes "\\f")
    else if c == 10
    then ok (codes "\\n")
    else if c == 13
    then ok (codes "\\r")
    else if c == 9
    then ok (codes "\\t")
    else if leb c 0x1f
    then err undefined_behaviour
    else ok (c ∷ [])

unfoldable pub escape_json : Bytes → Result Bytes
escape_json [] = ok []
escape_json (c ∷ s) = do t ← escape_char c; rest ← escape_json s; ok (t ++ rest)

-- A character in `JsonPathVisitor::escape`, which writes the code of a control character to a stream.
unfoldable pub stream_char : ℕ → Bytes
unfolding hex_code
stream_char c =
    if c == b'"'
    then codes "\\\""
    else if c == b'\\'
    then codes "\\\\"
    else if c == 8
    then codes "\\b"
    else if c == 12
    then codes "\\f"
    else if c == 10
    then codes "\\n"
    else if c == 13
    then codes "\\r"
    else if c == 9
    then codes "\\t"
    else if leb c 0x1f
    then codes "\\u" ++ hex_code c
    else c ∷ []

unfoldable pub escape : Bytes → Bytes
escape [] = []
escape (c ∷ s) = stream_char c ++ escape s

-- The content of a JSON string, as RFC 8259 reads it: between characters, behind a backslash, or
-- among the digits behind "\u". A code point is one byte here, so that it must be below 128.
pub data Reading : Type 0 where
  plain escaped : Reading
  digits : ℕ → ℕ → Reading

unfoldable pub hex_value : ℕ → Option ℕ
hex_value d =
    if leb b'0' d && leb d b'9'
    then some (d - b'0')
    else if leb b'a' d && leb d b'f'
    then some (d - b'a' + 10)
    else if leb b'A' d && leb d b'F'
    then some (d - b'A' + 10)
    else none

-- The digit `v` was read, and `left` are to come.
abbrev pub with_digit : ℕ → ℕ → Option ℕ → Option (Bytes × Reading)
with_digit left code none = none
with_digit zero code (some v) =
    if ltb (code * 16 + v) 128 then some ((code * 16 + v) ∷ [], plain) else none
with_digit (suc left) code (some v) = some ([], digits left (code * 16 + v))

unfoldable pub next_read : Reading → ℕ → Option (Bytes × Reading)
next_read plain c =
    if c == b'\\'
    then some ([], escaped)
    else if (c == b'"') || ltb c 32
    then none
    else some (c ∷ [], plain)
next_read escaped c =
    if (c == b'"') || (c == b'\\') || (c == b'/')
    then some (c ∷ [], plain)
    else if c == b'b'
    then some (8 ∷ [], plain)
    else if c == b'f'
    then some (12 ∷ [], plain)
    else if c == b'n'
    then some (10 ∷ [], plain)
    else if c == b'r'
    then some (13 ∷ [], plain)
    else if c == b't'
    then some (9 ∷ [], plain)
    else if c == b'u'
    then some ([], digits 3 0)
    else none
next_read (digits left code) c = with_digit left code (hex_value c)

abbrev pub behind : Bytes → Option Bytes → Option Bytes
behind s none = none
behind s (some t) = some (s ++ t)

unfoldable pub read_string : Reading → Bytes → Option Bytes
read_string plain [] = some []
read_string escaped [] = none
read_string (digits left code) [] = none
read_string r (c ∷ s) = elim (next_read r c) [
  | none ↦ none
  | some (out, r') ↦ behind out (read_string r' s)
]

hex_value-hex_digit : (v : ℕ) → v < 16 → hex_value (hex_digit v) ≡ some v
unfolding hex_value hex_digit
hex_value-hex_digit v h = ground arith

behind_nothing : (o : Option Bytes) → behind [] o ≡ o
behind_nothing none = refl
behind_nothing (some t) = refl

read_digit :
    (d v left code : ℕ) (rest : Bytes)
    → hex_value d ≡ some v
    → read_string (digits (suc left) code) (d ∷ rest)
      ≡ read_string (digits left (code * 16 + v)) rest
unfolding read_string next_read
read_digit d v left code rest e =
    ground (arith, behind_nothing (read_string (digits left (code * 16 + v)) rest))

read_last_digit :
    (d v code : ℕ) (rest : Bytes)
    → hex_value d ≡ some v
    → code * 16 + v < 128
    → read_string (digits 0 code) (d ∷ rest)
      ≡ behind ((code * 16 + v) ∷ []) (read_string plain rest)
unfolding read_string next_read
read_last_digit d v code rest e h = ground arith

read_string-hex_code :
    (c : ℕ) (rest : Bytes)
    → c < 128
    → read_string (digits 3 0) (hex_code c ++ rest) ≡ behind (c ∷ []) (read_string plain rest)
unfolding hex_code
read_string-hex_code c rest h =
    let whole : (0 * 16 + 0) * 16 + c / 16 ≡ c / 16 = omega arith in
    let again : c / 16 * 16 + c % 16 ≡ c = omega arith in
    read_digit b'0' 0 2 0 _ (unfold hex_value in refl)
    ∙ read_digit b'0' 0 1 (0 * 16 + 0) _ (unfold hex_value in refl)
    ∙ read_digit (hex_digit (c / 16)) (c / 16) 0 _ _ (hex_value-hex_digit (c / 16) (omega arith))
    ∙ rw whole (
        read_last_digit (hex_digit (c % 16)) (c % 16) (c / 16) rest
          (hex_value-hex_digit (c % 16) (omega arith)) (omega arith)
        ∙ rw again refl)

read_string-stream_char :
    (c : ℕ) (rest : Bytes)
    → read_string plain (stream_char c ++ rest) ≡ behind (c ∷ []) (read_string plain rest)
unfolding stream_char read_string next_read
read_string-stream_char c rest = ground (arith, read_string-hex_code c rest)

-- Of any bytes, the stream makes the content of a JSON string that is read as these bytes.
pub read_string-escape : (s : Bytes) → read_string plain (escape s) ≡ some s
unfolding escape
read_string-escape [] = unfold read_string in refl
read_string-escape (c ∷ s) = read_string-stream_char c (escape s) ∙ rw (read_string-escape s) refl

-- No control character, but those that have a letter of their own.
abbrev pub HasLetter : ℕ → Type 0
HasLetter c = (31 < c) ⊎ ((c ≡ 8) ⊎ (c ≡ 9) ⊎ (c ≡ 10) ⊎ (c ≡ 12) ⊎ (c ≡ 13))

escape_char-stream_char : (c : ℕ) → HasLetter c → escape_char c ≡ ok (stream_char c)
unfolding escape_char stream_char
escape_char-stream_char c h = ground arith

escape_json-escape : (s : Bytes) → All HasLetter s → escape_json s ≡ ok (escape s)
unfolding escape_json escape
escape_json-escape [] h = refl
escape_json-escape (c ∷ s) (h, hs) = rw (escape_char-stream_char c h, escape_json-escape s hs) refl

-- For a text without control characters other than backspace, tab, line feed, form feed and
-- carriage return, `escape_json` returns a text that is the one the visitor of JSON paths makes of
-- it, and that is read as the content of a JSON string, and as the text that was given.
pub read_string-escape_json :
    (s : Bytes)
    → All HasLetter s
    → (t : Bytes) × (escape_json s ≡ ok t) × (escape s ≡ t) × (read_string plain t ≡ some s)
read_string-escape_json s h = (escape s, escape_json-escape s h, refl, read_string-escape s)
