-- ===== src/Prelude/Decimal.antt =====
-- `%d`, `strconv.Itoa` and `strconv.ParseInt` in base ten.
use Prim.Native.Nat.{ℕ, zero, suc, ◌+◌, ◌-◌, ◌*◌, ◌/◌, ◌%◌, ◌^◌, ◌≤◌, ◌<◌}
use mathlib.Core.Path.{◌≡◌, refl, sym, ap, ◌∙◌}
use mathlib.Core.Logic.{inl, inr}
use mathlib.Core.Bool.{◌&&◌}
use mathlib.Core.List.{[], ◌∷◌, ◌++◌}
use mathlib.Core.Option.{Option, none, some}
use native.Mathlib.Omega.{arith}
use mrvacommander.Prelude.Tests.{ltb, leb, if◌then◌else◌, Bool-cases}
use mrvacommander.Prelude.Lists.{All}
use mrvacommander.Prelude.Text.{Bytes}
use mrvacommander.Prelude.Int.{ℤ, pos, negsuc}

-- The digits of a number, with one round of fuel for each; `suc n` rounds are enough.
digits_from : ℕ → ℕ → Bytes
digits_from zero n = []
digits_from (suc f) n =
    let more = digits_from f (n / 10) ++ (b'0' + n % 10) ∷ [] in
    if ltb n 10 then (b'0' + n) ∷ [] else more

unfoldable pub digits : ℕ → Bytes
unfolding digits_from
digits n = digits_from (suc n) n

unfoldable pub format_int : ℤ → Bytes
unfolding digits
format_int (pos n) = digits n
format_int (negsuc n) = b'-' ∷ digits (suc n)

-- Reading digits behind a number; `none` at any other byte.
unfoldable pub scan : Bytes → ℕ → Option ℕ
scan [] n = some n
scan (c ∷ s) n = if leb b'0' c && leb c b'9' then scan s (n * 10 + (c - b'0')) else none

unfoldable pub parse_digits : Bytes → Option ℕ
unfolding scan
parse_digits [] = none
parse_digits (c ∷ s) = scan (c ∷ s) 0

-- The bound of a signed integer of `bits` bits is checked after the sign is known.
abbrev positive : ℕ → ℕ → Option ℤ
positive bits n = if ltb n (2 ^ (bits - 1)) then some (pos n) else none

abbrev negative : ℕ → ℕ → Option ℤ
negative bits zero = some (pos 0)
negative bits (suc n) = if ltb n (2 ^ (bits - 1)) then some (negsuc n) else none

abbrev bounded : (ℕ → Option ℤ) → Option ℕ → Option ℤ
bounded f none = none
bounded f (some n) = f n

-- `strconv.ParseInt(s, 10, bits)`; `none` stands for its syntax and range errors.
unfoldable pub parse_int : ℕ → Bytes → Option ℤ
unfolding parse_digits
parse_int bits [] = none
parse_int bits (c ∷ s) =
    if leb c b'+' && leb b'+' c
    then bounded (positive bits) (parse_digits s)
    else if leb c b'-' && leb b'-' c
    then bounded (negative bits) (parse_digits s)
    else bounded (positive bits) (parse_digits (c ∷ s))

abbrev pub IsDigit : ℕ → Type 0
IsDigit c = (b'0' ≤ c) × (c ≤ b'9')

scan-append : (xs ys : Bytes) (n m : ℕ) → scan xs n ≡ some m → scan (xs ++ ys) n ≡ scan ys m
unfolding scan
scan-append [] ys n m h = ground arith
scan-append (x ∷ xs) ys n m h = ground (arith, scan-append xs ys (n * 10 + (x - b'0')) m)

scan-digits_from : (f n : ℕ) → n < f → scan (digits_from f n) 0 ≡ some n
unfolding digits_from scan
scan-digits_from zero n h = elim h [ ]
scan-digits_from (suc f) n h = ground (
  arith,
  scan-digits_from f (n / 10),
  scan-append (digits_from f (n / 10)) ((b'0' + n % 10) ∷ []) 0 (n / 10),
)

All-append-IsDigit : (xs : Bytes) (c : ℕ) → All IsDigit xs → IsDigit c → All IsDigit (xs ++ c ∷ [])
All-append-IsDigit [] c h d = (d, tt)
All-append-IsDigit (x ∷ xs) c h d = (h.0, All-append-IsDigit xs c h.1 d)

digits_from-IsDigit : (f n : ℕ) → All IsDigit (digits_from f n)
unfolding digits_from
digits_from-IsDigit zero n = tt
digits_from-IsDigit (suc f) n = ground (
  arith,
  digits_from-IsDigit f (n / 10),
  All-append-IsDigit (digits_from f (n / 10)) (b'0' + n % 10),
)

pub digits-IsDigit : (n : ℕ) → All IsDigit (digits n)
unfolding digits
digits-IsDigit n = digits_from-IsDigit (suc n) n

scan-digits : (n : ℕ) → scan (digits n) 0 ≡ some n
unfolding digits
scan-digits n = scan-digits_from (suc n) n (omega arith)

digits-cons : (n : ℕ) → (c : ℕ) × (s : Bytes) × (digits n ≡ c ∷ s)
unfolding digits digits_from
digits-cons n = elim (Bool-cases (ltb n 10)) [
  | inl e ↦ (b'0' + n, [], rw e)
  | inr e ↦ rw e (append-cons (digits_from n (n / 10)) (b'0' + n % 10))
]
  where
    append-cons : (xs : Bytes) (d : ℕ) → (c : ℕ) × (s : Bytes) × (xs ++ d ∷ [] ≡ c ∷ s)
    append-cons [] d = (d, [], refl)
    append-cons (x ∷ xs) d = (x, xs ++ d ∷ [], refl)

parse_digits-scan : (t : Bytes) {c : ℕ} {s : Bytes} → t ≡ c ∷ s → parse_digits t ≡ scan t 0
unfolding parse_digits
parse_digits-scan [] e = cc
parse_digits-scan (x ∷ xs) e = refl

parse_digits-digits : (n : ℕ) → parse_digits (digits n) ≡ some n
parse_digits-digits n =
    let (c, s, e) = digits-cons n in parse_digits-scan (digits n) e ∙ scan-digits n

-- The values of a signed integer of `bits` bits.
abbrev pub InBits : ℕ → ℤ → Type 0
InBits bits (pos n) = n < 2 ^ (bits - 1)
InBits bits (negsuc n) = n < 2 ^ (bits - 1)

-- Whatever is accepted is in range.
pub parse_int-InBits :
    (bits : ℕ) (s : Bytes) (n : ℤ) → parse_int bits s ≡ some n → 0 < 2 ^ (bits - 1) → InBits bits n
unfolding parse_int
parse_int-InBits bits [] n h p = cc
parse_int-InBits bits (c ∷ s) n h p = ground arith

-- A number that fits is read back from its decimal form.
pub parse_int-format_int :
    (bits : ℕ) (n : ℤ) → InBits bits n → parse_int bits (format_int n) ≡ some n
unfolding parse_int format_int
parse_int-format_int bits (pos n) h =
    let (c, s, e) = digits-cons n in
    let d : All IsDigit (c ∷ s) = rw e at (digits-IsDigit n) in
    let p : parse_digits (c ∷ s) ≡ some n = rw e at (parse_digits-digits n) in rw e (ground arith)
parse_int-format_int bits (negsuc n) h = ground (arith, parse_digits-digits (suc n))

-- A number above the range is refused.
pub parse_int-too_large :
    (bits n : ℕ) → 2 ^ (bits - 1) ≤ n → parse_int bits (format_int (pos n)) ≡ none
unfolding parse_int format_int
parse_int-too_large bits n h =
    let (c, s, e) = digits-cons n in
    let d : All IsDigit (c ∷ s) = rw e at (digits-IsDigit n) in
    let p : parse_digits (c ∷ s) ≡ some n = rw e at (parse_digits-digits n) in rw e (ground arith)

digits-not-sign : (n : ℕ) (s : Bytes) → digits n ≡ b'-' ∷ s → ⊥
digits-not-sign n s e = let d : All IsDigit (b'-' ∷ s) = rw e at (digits-IsDigit n) in omega arith

digits-append-not-sign : (n : ℕ) (r s : Bytes) → digits n ++ r ≡ b'-' ∷ s → ⊥
digits-append-not-sign n r s e =
    let (c, t, split) = digits-cons n in
    let d : All IsDigit (c ∷ t) = rw split at (digits-IsDigit n) in
    let e' : (c ∷ t) ++ r ≡ b'-' ∷ s = rw split at e in ground arith

pub digits_injective : (n m : ℕ) → digits n ≡ digits m → n ≡ m
digits_injective n m e = cc (scan-digits n, scan-digits m)

pub format_int_injective : (n m : ℤ) → format_int n ≡ format_int m → n ≡ m
unfolding format_int
format_int_injective (pos n) (pos m) e = ap pos (digits_injective n m e)
format_int_injective (negsuc n) (negsuc m) e = ground (arith, digits_injective (suc n) (suc m))
format_int_injective (pos n) (negsuc m) e = absurd (digits-not-sign n (digits (suc m)) e)
format_int_injective (negsuc n) (pos m) e = absurd (digits-not-sign m (digits (suc n)) (sym e))

-- A text behind digits and a mark that is no digit determines both parts.
pub digits-append_injective :
    (xs ys : Bytes) (mark : ℕ) (r s : Bytes)
    → All IsDigit xs
    → All IsDigit ys
    → mark < b'0'
    → xs ++ mark ∷ r ≡ ys ++ mark ∷ s
    → (xs ≡ ys) × (r ≡ s)
digits-append_injective [] [] mark r s hx hy h e = ground arith
digits-append_injective [] (y ∷ ys) mark r s hx hy h e = ground arith
digits-append_injective (x ∷ xs) [] mark r s hx hy h e = ground arith
digits-append_injective (x ∷ xs) (y ∷ ys) mark r s hx hy h e =
    ground (arith, digits-append_injective xs ys mark r s)

-- So does one behind a signed number.
pub format_int-append_injective :
    (n m : ℤ) (r s : Bytes)
    → format_int n ++ b'-' ∷ r ≡ format_int m ++ b'-' ∷ s
    → (n ≡ m) × (r ≡ s)
unfolding format_int
format_int-append_injective (pos n) (pos m) r s e =
    let (d, rest) =
      digits-append_injective (digits n) (digits m) b'-' r s (digits-IsDigit n) (digits-IsDigit m)
        (omega arith) e in
    (ap pos (digits_injective n m d), rest)
format_int-append_injective (negsuc n) (negsuc m) r s e =
    let (d, rest) =
      digits-append_injective (digits (suc n)) (digits (suc m)) b'-' r s (digits-IsDigit (suc n))
        (digits-IsDigit (suc m)) (omega arith) (ground arith) in
    (ground (arith, digits_injective (suc n) (suc m)), rest)
format_int-append_injective (pos n) (negsuc m) r s e =
    absurd (digits-append-not-sign n (b'-' ∷ r) (digits (suc m) ++ b'-' ∷ s) e)
format_int-append_injective (negsuc n) (pos m) r s e =
    absurd (digits-append-not-sign m (b'-' ∷ s) (digits (suc n) ++ b'-' ∷ r) (sym e))
