-- ===== src/Revocation/Examples.antt =====
-- Tests of the revocation with one certificate that the index has, and the theorems at it.
use c4raven_server.Prelude.{
  ℕ, ◌≡◌, refl, true, false, none, some, List, [], ◌∷◌, All, any, filter, is_space, contains,
  nat_eq, list_eq, option_eq,
}
use c4raven_server.Revocation.{
  Text, Serial, number, text, strip_codes, lstrip_codes, rstrip_codes, keep_code, hex_value,
  parse_digits, parse_unsigned, parse_int, digits_of, hex, normalize_text, normalize_serial,
  index_serial,
}
use c4raven_server.Revocation.Serials.{normalize_serial-index_serial}
use c4raven_server.Revocation.Index.{
  Line, Entry, revokes, is_revoked_text, is_revoked, is_known, last_of, unspecified, revoke_line,
  revoke_serial, revoke_entry, revoke_all, revoke,
}
use c4raven_server.Revocation.Index.Outcomes.{
  is_revoked-revoke, revoke-entries, is_refused, revoke-refused,
}

abbrev reasons : List Text
reasons = unspecified ∷ []

abbrev no_date : ℕ → Text
no_date t = 57 ∷ []

-- serial 1A, valid
abbrev index : List Line
index = ((86 ∷ []) ∷ [] ∷ [] ∷ (49 ∷ 65 ∷ []) ∷ (47 ∷ []) ∷ (47 ∷ []) ∷ []) ∷ []

-- serial 2B, revoked
abbrev old : List Line
old = ((82 ∷ []) ∷ [] ∷ [] ∷ (50 ∷ 66 ∷ []) ∷ (47 ∷ []) ∷ (47 ∷ []) ∷ []) ∷ index

-- " 0x1a"
abbrev known : Serial
known = text (32 ∷ 48 ∷ 120 ∷ 49 ∷ 97 ∷ [])

abbrev entry : Serial → Entry
entry s = record { serial = s; not_after = 5; subject = 47 ∷ []; reason = none }

abbrev wrong_reason : Entry
wrong_reason = record (entry known) { reason = some (120 ∷ []) }

-- tests

hex_test : hex 43981 ≡ 65 ∷ 66 ∷ 67 ∷ 68 ∷ []
unfolding hex digits_of
hex_test = refl

normalize_test : normalize_serial known ≡ some (49 ∷ 65 ∷ [])
unfolding normalize_serial normalize_text hex digits_of strip_codes lstrip_codes rstrip_codes
    keep_code is_space filter parse_int parse_unsigned parse_digits hex_value
normalize_test = refl

new_test :
    (revoke reasons no_date (49 ∷ []) true (entry known ∷ entry (number 500) ∷ []) index).1
    ≡ some ((49 ∷ 65 ∷ []) ∷ (49 ∷ 70 ∷ 52 ∷ []) ∷ [])
unfolding revoke revoke_all revoke_entry revoke_serial revoke_line last_of is_known contains any
    normalize_serial normalize_text hex digits_of strip_codes lstrip_codes rstrip_codes keep_code
    is_space filter parse_int parse_unsigned parse_digits hex_value
new_test = refl

-- witnesses

normalize_serial-index_serial_example :
    normalize_serial (text (index_serial (hex 43981))) ≡ normalize_serial (number 43981)
normalize_serial-index_serial_example = normalize_serial-index_serial 43981

is_revoked-revoke_example :
    is_revoked (revoke reasons no_date (49 ∷ []) false (entry known ∷ []) old).0 (number 43) ≡ true
unfolding is_revoked is_revoked_text revokes any normalize_serial normalize_text hex digits_of
    strip_codes lstrip_codes rstrip_codes keep_code is_space filter parse_int parse_unsigned
    parse_digits hex_value
is_revoked-revoke_example =
    is_revoked-revoke reasons no_date (49 ∷ []) false (entry known ∷ []) old (number 43) refl

revoke-entries_example :
    All
      (λ (e : Entry).
        is_revoked
          (revoke reasons no_date (49 ∷ []) true (entry known ∷ entry (number 500) ∷ []) index).0
          e.serial
        ≡ true)
      (entry known ∷ entry (number 500) ∷ [])
revoke-entries_example =
    revoke-entries reasons no_date (49 ∷ []) true (entry known ∷ entry (number 500) ∷ []) index
      ((49 ∷ 65 ∷ []) ∷ (49 ∷ 70 ∷ 52 ∷ []) ∷ []) new_test

revoke-refused_example :
    revoke reasons no_date (49 ∷ []) true (entry (number 500) ∷ wrong_reason ∷ []) index
    ≡ (index, none)
unfolding any is_refused contains normalize_serial normalize_text hex digits_of strip_codes
    lstrip_codes rstrip_codes keep_code is_space filter parse_int parse_unsigned parse_digits
    hex_value
revoke-refused_example =
    revoke-refused reasons no_date (49 ∷ []) true (entry (number 500) ∷ wrong_reason ∷ []) index
      refl
