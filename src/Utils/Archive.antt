-- ===== src/Utils/Archive.antt =====
-- utils/archive.go: the test that a submitted query pack looks like a base64-encoded gzip file.
use mrvacommander.Prelude.{
  ℕ, ◌≤◌, leb, nat_beq, Bytes, [], ◌∷◌, Bool, true, false, ◌&&◌, Option, none, some, ◌≡◌, ◌↔◌, refl,
  length, take, if◌then◌else◌, arith, All, inl,
}
use mrvacommander.Utils.Base64.{std_encoding, encode, decode}
use mrvacommander.Utils.Base64.RoundTrip.{IsByte, decode-encode}

-- `bytes.Equal(hdr[0:2], magic)`, where `hdr` is zero behind what was decoded.
abbrev has_magic : Option Bytes → Bool
has_magic none = false
has_magic (some []) = false
has_magic (some (a ∷ [])) = false
has_magic (some (a ∷ b ∷ rest)) = nat_beq a 0x1f && nat_beq b 0x8b

unfoldable pub is_base64_gzip : Bytes → Bool
is_base64_gzip val =
    if leb 4 (length val) then has_magic (decode std_encoding (take 4 val)) else false

-- What a gzip file begins with.
abbrev pub IsGzip : Bytes → Type 0
IsGzip [] = ⊥
IsGzip (a ∷ []) = ⊥
IsGzip (a ∷ b ∷ rest) = (a ≡ 0x1f) × (b ≡ 0x8b)

-- The first four characters are those of the first three bytes, or of all if there are fewer.
take-encode_one :
    (a : ℕ)
    → (take 4 (encode std_encoding (a ∷ [])) ≡ encode std_encoding (a ∷ []))
      × (4 ≤ length (encode std_encoding (a ∷ [])))
unfolding encode
take-encode_one a = (refl, omega arith)

take-encode_two :
    (a b : ℕ)
    → (take 4 (encode std_encoding (a ∷ b ∷ [])) ≡ encode std_encoding (a ∷ b ∷ []))
      × (4 ≤ length (encode std_encoding (a ∷ b ∷ [])))
unfolding encode
take-encode_two a b = (refl, omega arith)

take-encode_three :
    (a b c : ℕ) (rest : Bytes)
    → (take 4 (encode std_encoding (a ∷ b ∷ c ∷ rest)) ≡ encode std_encoding (a ∷ b ∷ c ∷ []))
      × (4 ≤ length (encode std_encoding (a ∷ b ∷ c ∷ rest)))
unfolding encode
take-encode_three a b c rest = (refl, omega arith)

-- Of a file that was encoded as base64, the test on the first four characters finds exactly
-- whether the file begins as a gzip file does.
pub is_base64_gzip-encode :
    (bytes : Bytes)
    → All IsByte bytes
    → (is_base64_gzip (encode std_encoding bytes) ≡ true) ↔ IsGzip bytes
unfolding is_base64_gzip
is_base64_gzip-encode [] h = unfold encode in ground arith
is_base64_gzip-encode (a ∷ []) h =
    ground (arith, take-encode_one a, decode-encode std_encoding (inl refl) (a ∷ []) h)
is_base64_gzip-encode (a ∷ b ∷ []) h =
    ground (arith, take-encode_two a b, decode-encode std_encoding (inl refl) (a ∷ b ∷ []) h)
is_base64_gzip-encode (a ∷ b ∷ c ∷ rest) h = ground (
  arith,
  take-encode_three a b c rest,
  decode-encode std_encoding (inl refl) (a ∷ b ∷ c ∷ []) (h.0, (h.1.0, (h.1.1.0, tt))),
)
