-- ===== src/Utils/Base64.antt =====
-- `encoding/base64`: `StdEncoding` and `URLEncoding`, which differ in two characters.
pub mod RoundTrip
use mrvacommander.Prelude.{
  ℕ, ◌+◌, ◌-◌, ◌*◌, ◌/◌, ◌%◌, Bytes, [], ◌∷◌, ◌++◌, Bool, true, false, ◌&&◌, ◌||◌, Option, none,
  some, if◌then◌else◌, ltb, leb, nat_beq, ◌>>=◌,
}

-- The characters for 62 and 63.
pub record Encoding : Type 0 where
  pub plus : ℕ
  pub slash : ℕ

abbrev pub std_encoding : Encoding
std_encoding = record { plus = b'+'; slash = b'/' }

abbrev pub url_encoding : Encoding
url_encoding = record { plus = b'-'; slash = b'_' }

unfoldable pub encode_char : Encoding → ℕ → ℕ
encode_char e x =
    if ltb x 26
    then b'A' + x
    else if ltb x 52
    then b'a' + (x - 26)
    else if ltb x 62
    then b'0' + (x - 52)
    else if nat_beq x 62
    then e.plus
    else e.slash

unfoldable pub decode_char : Encoding → ℕ → Option ℕ
decode_char e c =
    if leb b'A' c && leb c b'Z'
    then some (c - b'A')
    else if leb b'a' c && leb c b'z'
    then some (c - b'a' + 26)
    else if leb b'0' c && leb c b'9'
    then some (c - b'0' + 52)
    else if nat_beq c e.plus
    then some 62
    else if nat_beq c e.slash
    then some 63
    else none

-- `EncodeToString`: three bytes to four characters, and padding behind one or two bytes.
unfoldable pub encode : Encoding → Bytes → Bytes
encode e [] = []
encode e (a ∷ []) = encode_char e (a / 4) ∷ encode_char e (a % 4 * 16) ∷ b'=' ∷ b'=' ∷ []
encode e (a ∷ b ∷ []) =
    encode_char e (a / 4)
    ∷ encode_char e (a % 4 * 16 + b / 16)
    ∷ encode_char e (b % 16 * 4)
    ∷ b'='
    ∷ []
encode e (a ∷ b ∷ c ∷ rest) =
    encode_char e (a / 4)
    ∷ encode_char e (a % 4 * 16 + b / 16)
    ∷ encode_char e (b % 16 * 4 + c / 64)
    ∷ encode_char e (c % 64)
    ∷ encode e rest

-- Line ends are passed over.
unfoldable pub without_newlines : Bytes → Bytes
without_newlines [] = []
without_newlines (c ∷ s) =
    let rest = without_newlines s in if nat_beq c b'\n' || nat_beq c b'\r' then rest else c ∷ rest

-- The bytes of four characters; `x` to `w` are their values.
abbrev pub byte_1 : ℕ → ℕ → ℕ
byte_1 x y = x * 4 + y / 16

abbrev pub byte_2 : ℕ → ℕ → ℕ
byte_2 y z = y % 16 * 16 + z / 4

abbrev pub byte_3 : ℕ → ℕ → ℕ
byte_3 z w = z % 4 * 64 + w

abbrev is_empty : Bytes → Bool
is_empty [] = true
is_empty (c ∷ s) = false

-- The last four characters, of which one or two are padding.
unfoldable pub decode_padded : Encoding → ℕ → ℕ → ℕ → Option Bytes
decode_padded e a b c = do
  x ← decode_char e a
  y ← decode_char e b
  (if nat_beq c b'='
      then some (byte_1 x y ∷ [])
      else (do z ← decode_char e c; some (byte_1 x y ∷ byte_2 y z ∷ [])))

unfoldable pub decode_quad : Encoding → ℕ → ℕ → ℕ → ℕ → Option Bytes
decode_quad e a b c d = do
  x ← decode_char e a
  y ← decode_char e b
  z ← decode_char e c
  w ← decode_char e d
  some (byte_1 x y ∷ byte_2 y z ∷ byte_3 z w ∷ [])

-- Characters behind the padding are refused, and so is an incomplete group.
unfoldable pub decode_groups : Encoding → Bytes → Option Bytes
decode_groups e [] = some []
decode_groups e (a ∷ b ∷ c ∷ d ∷ rest) =
    let more = (do
      bytes ← decode_quad e a b c d
      tail ← decode_groups e rest
      some (bytes ++ tail)) in
    if nat_beq d b'=' then (if is_empty rest then decode_padded e a b c else none) else more
decode_groups e s = none

-- `DecodeString`; `none` stands for its `CorruptInputError`.
unfoldable pub decode : Encoding → Bytes → Option Bytes
unfolding without_newlines
decode e s = decode_groups e (without_newlines s)
