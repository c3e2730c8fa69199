-- ===== src/Utils/Base64/RoundTrip.antt =====
-- What is encoded is decoded.
use mrvacommander.Prelude.{
  ℕ, ◌+◌, ◌*◌, ◌/◌, ◌%◌, ◌<◌, Bytes, [], ◌∷◌, ◌⊎◌, inl, inr, ◌≡◌, ◌≢◌, refl, some, arith, All,
}
use mrvacommander.Utils.Base64.{
  Encoding, std_encoding, url_encoding, encode_char, decode_char, encode, without_newlines,
  decode_padded, decode_quad, decode_groups, decode, byte_1, byte_2, byte_3,
}

abbrev pub IsByte : ℕ → Type 0
IsByte c = c < 256

-- The two encodings of the program.
abbrev pub Known : Encoding → Type 0
Known e = (e ≡ std_encoding) ⊎ (e ≡ url_encoding)

-- What a character of an encoding is: it stands for its value, and ends no line and no text.
abbrev Stands : Encoding → ℕ → ℕ → Type 0
Stands e x c = (decode_char e c ≡ some x) × (c ≢ b'=') × (c ≢ b'\n') × (c ≢ b'\r')

encode_char-Stands : (e : Encoding) → Known e → (x : ℕ) → x < 64 → Stands e x (encode_char e x)
unfolding encode_char decode_char
encode_char-Stands e (inl k) x h = rw k (ground arith)
encode_char-Stands e (inr k) x h = rw k (ground arith)

module _ (e : Encoding) (k : Known e) where
  -- A character of the encoding is no line end, and is not passed over.
  without_newlines-char :
      (x : ℕ)
      → x < 64
      → (s : Bytes) → without_newlines (encode_char e x ∷ s) ≡ encode_char e x ∷ without_newlines s
  unfolding without_newlines
  without_newlines-char x h s = ground (arith, encode_char-Stands e k x h)

  without_newlines-encode :
      (bytes : Bytes) → All IsByte bytes → without_newlines (encode e bytes) ≡ encode e bytes
  unfolding encode
  without_newlines-encode [] h = unfold without_newlines in refl
  without_newlines-encode (a ∷ []) h =
      simp
        (
          without_newlines-char (a / 4) (omega arith),
          without_newlines-char (a % 4 * 16) (omega arith),
        )
        (unfold without_newlines in refl)
  without_newlines-encode (a ∷ b ∷ []) h =
      simp
        (
          without_newlines-char (a / 4) (omega arith),
          without_newlines-char (a % 4 * 16 + b / 16) (omega arith),
          without_newlines-char (b % 16 * 4) (omega arith),
        )
        (unfold without_newlines in refl)
  without_newlines-encode (a ∷ b ∷ c ∷ rest) h = simp (
    without_newlines-char (a / 4) (omega arith),
    without_newlines-char (a % 4 * 16 + b / 16) (omega arith),
    without_newlines-char (b % 16 * 4 + c / 64) (omega arith),
    without_newlines-char (c % 64) (omega arith),
    without_newlines-encode rest h.1.1.1,
  )

  decode_quad-chars :
      (x y z w : ℕ)
      → x < 64
      → y < 64
      → z < 64
      → w < 64
      → decode_quad e (encode_char e x) (encode_char e y) (encode_char e z) (encode_char e w)
        ≡ some (byte_1 x y ∷ byte_2 y z ∷ byte_3 z w ∷ [])
  unfolding decode_quad
  decode_quad-chars x y z w hx hy hz hw = rw (
    (encode_char-Stands e k x hx).0,
    (encode_char-Stands e k y hy).0,
    (encode_char-Stands e k z hz).0,
    (encode_char-Stands e k w hw).0,
  )

  decode_padded-one :
      (x y : ℕ)
      → x < 64
      → y < 64
      → decode_padded e (encode_char e x) (encode_char e y) b'=' ≡ some (byte_1 x y ∷ [])
  unfolding decode_padded
  decode_padded-one x y hx hy =
      rw ((encode_char-Stands e k x hx).0, (encode_char-Stands e k y hy).0)

  decode_padded-two :
      (x y z : ℕ)
      → x < 64
      → y < 64
      → z < 64
      → decode_padded e (encode_char e x) (encode_char e y) (encode_char e z)
        ≡ some (byte_1 x y ∷ byte_2 y z ∷ [])
  unfolding decode_padded
  decode_padded-two x y z hx hy hz =
      ground (
        arith,
        encode_char-Stands e k x hx,
        encode_char-Stands e k y hy,
        encode_char-Stands e k z hz,
      )

  decode_groups-encode :
      (bytes : Bytes) → All IsByte bytes → decode_groups e (encode e bytes) ≡ some bytes
  unfolding decode_groups encode
  decode_groups-encode [] h = refl
  decode_groups-encode (a ∷ []) h = ground (arith, decode_padded-one (a / 4) (a % 4 * 16))
  decode_groups-encode (a ∷ b ∷ []) h =
      ground (arith, decode_padded-two (a / 4) (a % 4 * 16 + b / 16) (b % 16 * 4))
  decode_groups-encode (a ∷ b ∷ c ∷ rest) h = ground (
    arith,
    decode_quad-chars (a / 4) (a % 4 * 16 + b / 16) (b % 16 * 4 + c / 64) (c % 64),
    encode_char-Stands e k (c % 64),
    decode_groups-encode rest h.1.1.1,
  )

-- Decoding what was encoded gives the bytes back, in the standard and in the URL alphabet.
pub decode-encode :
    (e : Encoding)
    → Known e
    → (bytes : Bytes) → All IsByte bytes
    → decode e (encode e bytes) ≡ some bytes
unfolding decode
decode-encode e k bytes h =
    rw (without_newlines-encode e k bytes h) (decode_groups-encode e k bytes h)
