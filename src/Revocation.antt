-- ===== src/Revocation.antt =====
-- raven/cert_revocation.py: certificates are revoked in the index file of the CA. A text is the list
-- of its code points, the index the list of its lines that are not blank, and a line the list of its
-- fields. `index_time` (strftime) is a parameter. The CRL that openssl makes of the index, the locks
-- and the cache of the file are left out.
pub mod Serials
pub mod Index
mod Examples
use c4raven_server.Prelude.{
  ℕ, zero, suc, ◌+◌, ◌-◌, ◌*◌, ◌/◌, ◌%◌, Bool, true, false, ◌&&◌, ◌||◌, not, Option, none, some,
  List, [], ◌∷◌, ◌++◌, map, ◌==◌, nat_eq, list_eq, option_eq, if◌then◌else◌, filter, any, is_empty,
  is_none, is_space, leb, ltb, length, contains,
}

abbrev pub Text : Type 0
Text = List ℕ

unfoldable pub lstrip_codes : Text → Text
unfolding is_space
lstrip_codes [] = []
lstrip_codes (c ∷ s) = let rest = lstrip_codes s in if is_space c then rest else c ∷ s

abbrev pub keep_code : ℕ → Text → Text
unfolding is_space
keep_code c [] = if is_space c then [] else c ∷ []
keep_code c (d ∷ s) = c ∷ d ∷ s

unfoldable pub rstrip_codes : Text → Text
unfolding keep_code
rstrip_codes [] = []
rstrip_codes (c ∷ s) = keep_code c (rstrip_codes s)

unfoldable pub strip_codes : Text → Text
unfolding lstrip_codes rstrip_codes
strip_codes s = rstrip_codes (lstrip_codes s)

-- `str.lower` of an ASCII letter; other characters are no digits in either case
abbrev pub lower_code : ℕ → ℕ
lower_code c = if leb 65 c && leb c 90 then c + 32 else c

-- a leading "0x"
abbrev pub drop_prefix : Text → Text
drop_prefix [] = []
drop_prefix (a ∷ []) = a ∷ []
drop_prefix (a ∷ b ∷ s) = if a == 48 && b == 120 then s else a ∷ b ∷ s

-- The ASCII digits. `int(text, 16)` also takes the decimal digits of other scripts, which no serial of
-- a certificate or of the index has.
unfoldable pub hex_value : ℕ → Option ℕ
hex_value c =
    if leb 48 c && leb c 57
    then some (c - 48)
    else if leb 97 c && leb c 102
    then some (c - 87)
    else none

-- the digits of a hexadecimal number, with single underscores between them
unfoldable pub parse_digits : ℕ → (after_digit : Bool) → Text → Option ℕ
unfolding hex_value
parse_digits n after_digit [] = if after_digit then some n else none
parse_digits n after_digit (c ∷ s) = elim (hex_value c) [
  | some d ↦ parse_digits (n * 16 + d) true s
  | none ↦ if c == 95 && after_digit then parse_digits n false s else none
]

abbrev pub drop_underscore : Text → Text
drop_underscore [] = []
drop_underscore (c ∷ s) = if c == 95 then s else c ∷ s

-- the number after the sign; int() takes a prefix of its own
unfoldable pub parse_unsigned : Text → Option ℕ
unfolding parse_digits
parse_unsigned s =
    if length (drop_prefix s) == length s
    then parse_digits 0 false s
    else parse_digits 0 false (drop_underscore (drop_prefix s))

abbrev pub if_zero : Option ℕ → Option ℕ
if_zero (some zero) = some 0
if_zero _ = none

-- `int(s, 16)` of a text in lower case, where it is a number from 0 on
unfoldable pub parse_int : Text → Option ℕ
unfolding parse_unsigned
parse_int [] = none
parse_int (c ∷ s) =
    if c == 43
    then parse_unsigned s
    else if c == 45
    then if_zero (parse_unsigned s)
    else parse_unsigned (c ∷ s)

-- one digit of `format(number, "X")`
abbrev pub digit_code : ℕ → ℕ
digit_code d = if ltb d 10 then d + 48 else d + 55

-- The digits of a number, the highest first; a number below 16 ^ fuel needs no more fuel.
unfoldable pub digits_of : ℕ → ℕ → List ℕ
digits_of zero n = n % 16 ∷ []
digits_of (suc fuel) n =
    let rest = digits_of fuel (n / 16) in if ltb n 16 then n ∷ [] else rest ++ (n % 16 ∷ [])

-- `format(number, "X")`
unfoldable pub hex : ℕ → Text
unfolding digits_of
hex n = map digit_code (digits_of n n)

-- A serial as it is given: a number, a negative number, a text, or None or a bool.
pub data Serial : Type 0 where
  number : ℕ → Serial
  negative no_serial : Serial
  text : Text → Serial

abbrev pub hex_of : Option ℕ → Option Text
unfolding hex
hex_of none = none
hex_of (some n) = some (hex n)

abbrev pub is_colon : ℕ → Bool
is_colon c = c == 58

unfoldable pub normalize_text : Text → Option Text
unfolding strip_codes parse_int hex
normalize_text s = hex_of (
    parse_int
      (strip_codes (drop_prefix (map lower_code (filter (λ c. not (is_colon c)) (strip_codes s))))))

unfoldable pub normalize_serial : Serial → Option Text
unfolding hex normalize_text
normalize_serial (number n) = some (hex n)
normalize_serial (text s) = normalize_text s
normalize_serial _ = none

-- `_index_serial`
unfoldable pub index_serial : Text → Text
index_serial s = if length s % 2 == 0 then s else 48 ∷ s
