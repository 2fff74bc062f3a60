-- ===== src/Revocation/Serials.antt =====
-- Serials between the form of the index and the normalized form.
use native.Mathlib.Nat.{mod-lt}
use c4raven_server.Prelude.{
  ℕ, zero, suc, ◌+◌, ◌*◌, ◌/◌, ◌%◌, ◌≤◌, ◌<◌, ◌≡◌, refl, ap, ◌∙◌, arith, Bool, true, false, ◌&&◌,
  ◌||◌, not, Option, none, some, List, [], ◌∷◌, ◌++◌, map, ◌==◌, nat_eq, if◌then◌else◌, filter,
  is_space, ltb, length, is_empty, option_eq, ==→≡, ==_refl, ◌⊎◌, All, All-append, Bool-cases, inl,
  inr, if-case,
}
use c4raven_server.Revocation.{
  Text, lstrip_codes, rstrip_codes, keep_code, strip_codes, lower_code, drop_prefix,
  drop_underscore, hex_value, parse_digits, parse_unsigned, parse_int, digit_code, digits_of, hex,
  number, text, hex_of, is_colon, normalize_text, normalize_serial, index_serial,
}

abbrev pub IsDigit : ℕ → Type 0
IsDigit d = d < 16

digits_of-IsDigit : (fuel n : ℕ) → All IsDigit (digits_of fuel n)
unfolding digits_of
digits_of-IsDigit zero n = (mod-lt n (omega arith), tt)
digits_of-IsDigit (suc fuel) n =
    if-case (All IsDigit) (ltb n 16) (λ h. (ground arith, tt))
      (λ h.
        All-append IsDigit (digits_of fuel (n / 16)) (n % 16 ∷ []) (digits_of-IsDigit fuel (n / 16))
          (mod-lt n (omega arith), tt))

-- the number that digits stand for, after others
abbrev value_from : ℕ → List ℕ → ℕ
value_from n [] = n
value_from n (d ∷ ds) = value_from (n * 16 + d) ds

value_from-append :
    (n : ℕ) (ds : List ℕ) (d : ℕ) → value_from n (ds ++ (d ∷ [])) ≡ value_from n ds * 16 + d
value_from-append n [] d = refl
value_from-append n (e ∷ es) d = value_from-append (n * 16 + e) es d

value_from-digits_of : (fuel n : ℕ) → n ≤ fuel → value_from 0 (digits_of fuel n) ≡ n
unfolding digits_of
value_from-digits_of zero n h = omega arith
value_from-digits_of (suc fuel) n h =
    if-case (λ ds. value_from 0 ds ≡ n) (ltb n 16) (λ k. omega arith)
      (λ k.
        value_from-append 0 (digits_of fuel (n / 16)) (n % 16)
        ∙ omega (arith, value_from-digits_of fuel (n / 16) (ground arith)))

-- the digit as it is written, in lower case
abbrev small : ℕ → ℕ
small d = lower_code (digit_code d)

-- A test that passes for each of the numbers below a bound, tried one after the other.
passes_below : (test : ℕ → Bool) → ℕ → Bool
passes_below test zero = true
passes_below test (suc k) = if test k then passes_below test k else false

if_both : (a b : Bool) → (if a then b else false) ≡ true → (a ≡ true) × (b ≡ true)
if_both a b h = ground arith

equal_or_below : (d k : ℕ) → d < suc k → (d ≡ k) ⊎ (d < k)
equal_or_below d k h = ground arith

passes_below_lem :
    (test : ℕ → Bool) (k : ℕ) → passes_below test k ≡ true → (d : ℕ) → d < k → test d ≡ true
unfolding passes_below
passes_below_lem test zero h d lt = absurd (omega arith)
passes_below_lem test (suc k) h d lt =
    let tried = if_both (test k) (passes_below test k) h in
    elim (equal_or_below d k lt) [
      | inl e ↦ ap test e ∙ tried.0
      | inr less ↦ passes_below_lem test k tried.1 d less
    ]

hex_value-small : (d : ℕ) → d < 16 → hex_value (small d) ≡ some d
unfolding passes_below hex_value
hex_value-small d h =
    ==→≡ (hex_value (small d)) (some d)
      (passes_below_lem (λ x. hex_value (small x) == some x) 16 refl d h)

-- A code that no step before the digits takes away.
is_plain : ℕ → Bool
is_plain c =
    not (is_space c) && (not (c == 58) && (not (c == 120) && (not (c == 43) && not (c == 45))))

digit-plain : (d : ℕ) → d < 16 → (is_plain (digit_code d) && is_plain (small d)) ≡ true
unfolding passes_below is_plain is_space
digit-plain d h = passes_below_lem (λ x. is_plain (digit_code x) && is_plain (small x)) 16 refl d h

abbrev IsPlain : Text → Type 0
IsPlain = All (λ c. is_plain c ≡ true)

codes-IsPlain : (ds : List ℕ) → All IsDigit ds → IsPlain (map digit_code ds)
codes-IsPlain [] h = tt
codes-IsPlain (d ∷ ds) h = (ground (arith, digit-plain d h.0), codes-IsPlain ds h.1)

small-IsPlain : (ds : List ℕ) → All IsDigit ds → IsPlain (map small ds)
small-IsPlain [] h = tt
small-IsPlain (d ∷ ds) h = (ground (arith, digit-plain d h.0), small-IsPlain ds h.1)

plain-space : (c : ℕ) → is_plain c ≡ true → is_space c ≡ false
unfolding is_plain
plain-space c h = ground arith

lstrip-plain : (s : Text) → IsPlain s → lstrip_codes s ≡ s
unfolding lstrip_codes
lstrip-plain [] h = refl
lstrip-plain (c ∷ s) h = rw (plain-space c h.0) refl

keep-plain : (c : ℕ) (s : Text) → is_plain c ≡ true → keep_code c s ≡ c ∷ s
unfolding keep_code
keep-plain c [] h = rw (plain-space c h) refl
keep-plain c (d ∷ s) h = refl

rstrip-plain : (s : Text) → IsPlain s → rstrip_codes s ≡ s
unfolding rstrip_codes
rstrip-plain [] h = refl
rstrip-plain (c ∷ s) h = ap (keep_code c) (rstrip-plain s h.1) ∙ keep-plain c s h.0

strip-plain : (s : Text) → IsPlain s → strip_codes s ≡ s
unfolding strip_codes
strip-plain s h = ap rstrip_codes (lstrip-plain s h) ∙ rstrip-plain s h

second : (a b c : Bool) → (not a && (not b && c)) ≡ true → b ≡ false
second a b c h = ground arith

third : (a b c d : Bool) → (not a && (not b && (not c && d))) ≡ true → c ≡ false
third a b c d h = ground arith

signs :
    (a b c d e : Bool)
    → (not a && (not b && (not c && (not d && not e)))) ≡ true
    → (d ≡ false) × (e ≡ false)
signs a b c d e h = ground arith

plain-colon : (c : ℕ) → is_plain c ≡ true → (c == 58) ≡ false
unfolding is_plain
plain-colon c h = second (is_space c) (c == 58) _ h

plain-prefix : (c : ℕ) → is_plain c ≡ true → (c == 120) ≡ false
unfolding is_plain
plain-prefix c h = third (is_space c) (c == 58) (c == 120) _ h

plain-sign : (c : ℕ) → is_plain c ≡ true → ((c == 43) ≡ false) × ((c == 45) ≡ false)
unfolding is_plain
plain-sign c h = signs (is_space c) (c == 58) (c == 120) (c == 43) (c == 45) h

if_no : {A : Type 0} (x y : A) {b : Bool} → b ≡ false → (if b then x else y) ≡ y
if_no x y h = rw (h) refl

not_both : (a b : Bool) → b ≡ false → (a && b) ≡ false
not_both a b h = ground arith

colons-plain : (s : Text) → IsPlain s → filter (λ c. not (is_colon c)) s ≡ s
unfolding filter
colons-plain [] h = refl
colons-plain (c ∷ s) h = rw (plain-colon c h.0) (ap (λ r. c ∷ r) (colons-plain s h.1))

prefix-plain : (s : Text) → IsPlain s → drop_prefix s ≡ s
prefix-plain [] h = refl
prefix-plain (a ∷ []) h = refl
prefix-plain (a ∷ b ∷ s) h = if_no _ _ (not_both (a == 48) (b == 120) (plain-prefix b h.1.0))

parse_digits-small :
    (n : ℕ) (ds : List ℕ) (after : Bool)
    → All IsDigit ds
    → (after || not (is_empty ds)) ≡ true
    → parse_digits n after (map small ds) ≡ some (value_from n ds)
unfolding parse_digits
parse_digits-small n [] after h k = ground arith
parse_digits-small n (d ∷ ds) after h k =
    ap
      (λ o. elim o as (λ x. Option ℕ) [
        | some e ↦ parse_digits (n * 16 + e) true (map small ds)
        | none ↦ if small d == 95 && after then parse_digits n false (map small ds) else none
      ])
      (hex_value-small d h.0)
    ∙ parse_digits-small (n * 16 + d) ds true h.1 refl

parse_unsigned-plain : (s : Text) → IsPlain s → parse_unsigned s ≡ parse_digits 0 false s
unfolding parse_unsigned
parse_unsigned-plain s h =
    ap
      (λ r.
        if length r == length s
        then parse_digits 0 false s
        else parse_digits 0 false (drop_underscore r))
      (prefix-plain s h)
    ∙ rw (==_refl (length s)) refl

parse_int-plain :
    (c : ℕ) (s : Text) → IsPlain (c ∷ s) → parse_int (c ∷ s) ≡ parse_digits 0 false (c ∷ s)
unfolding parse_int
parse_int-plain c s h =
    if_no _ _ (plain-sign c h.0).0 ∙ if_no _ _ (plain-sign c h.0).1 ∙ parse_unsigned-plain (c ∷ s) h

map-small : (ds : List ℕ) → map lower_code (map digit_code ds) ≡ map small ds
map-small [] = refl
map-small (d ∷ ds) = ap (λ r. small d ∷ r) (map-small ds)

-- A text of digits is read as its number, however it was written.
normalize-digits :
    (d : ℕ) (ds : List ℕ)
    → All IsDigit (d ∷ ds)
    → normalize_text (map digit_code (d ∷ ds)) ≡ some (hex (value_from 0 (d ∷ ds)))
unfolding normalize_text
normalize-digits d ds h =
    let codes = codes-IsPlain (d ∷ ds) h in
    let lowered = small-IsPlain (d ∷ ds) h in
    ap
      (λ s.
        hex_of (
          parse_int
            (strip_codes (drop_prefix (map lower_code (filter (λ c. not (is_colon c)) s))))))
      (strip-plain (map digit_code (d ∷ ds)) codes)
    ∙ ap (λ s. hex_of (parse_int (strip_codes (drop_prefix (map lower_code s)))))
        (colons-plain (map digit_code (d ∷ ds)) codes)
    ∙ ap (λ s. hex_of (parse_int (strip_codes (drop_prefix s)))) (map-small (d ∷ ds))
    ∙ ap (λ s. hex_of (parse_int (strip_codes s))) (prefix-plain (map small (d ∷ ds)) lowered)
    ∙ ap (λ s. hex_of (parse_int s)) (strip-plain (map small (d ∷ ds)) lowered)
    ∙ ap hex_of (parse_int-plain (small d) (map small ds) lowered)
    ∙ ap hex_of (parse_digits-small 0 (d ∷ ds) false h refl)

-- `index_serial` writes a zero before an odd number of digits.
index_serial-digits :
    (ds : List ℕ)
    → (index_serial (map digit_code ds) ≡ map digit_code ds)
      ⊎ (index_serial (map digit_code ds) ≡ map digit_code (0 ∷ ds))
unfolding index_serial
index_serial-digits ds = elim (Bool-cases (length (map digit_code ds) % 2 == 0)) [
  | inl e ↦ inl (rw (e) refl)
  | inr e ↦ inr (rw (e) refl)
]

normalize-some :
    (ds : List ℕ) (n : ℕ)
    → is_empty ds ≡ false
    → All IsDigit ds
    → value_from 0 ds ≡ n
    → (normalize_text (map digit_code ds) ≡ some (hex n))
      × (normalize_text (map digit_code (0 ∷ ds)) ≡ some (hex n))
normalize-some [] n e h v = absurd (cc)
normalize-some (d ∷ ds) n e h v = (
  normalize-digits d ds h ∙ ap (λ m. some (hex m)) v,
  normalize-digits 0 (d ∷ ds) (omega arith, h) ∙ ap (λ m. some (hex m)) v,
)

digits_of-some : (fuel n : ℕ) → is_empty (digits_of fuel n) ≡ false
unfolding digits_of
digits_of-some zero n = refl
digits_of-some (suc fuel) n =
    if-case (λ (ds : List ℕ). is_empty ds ≡ false) (ltb n 16) (λ h. refl)
      (λ h. appended (digits_of fuel (n / 16)) (n % 16))
  where
    appended : (ds : List ℕ) (d : ℕ) → is_empty (ds ++ (d ∷ [])) ≡ false
    appended [] d = refl
    appended (e ∷ es) d = refl

-- A normalized serial is itself again after it is written to the index and read back, with a zero
-- before an odd number of digits or without one.
pub normalize_serial-index_serial :
    (n : ℕ) → normalize_serial (text (index_serial (hex n))) ≡ normalize_serial (number n)
unfolding normalize_serial hex
normalize_serial-index_serial n =
    let both =
      normalize-some (digits_of n n) n (digits_of-some n n) (digits_of-IsDigit n n)
        (value_from-digits_of n n (omega arith)) in
    elim (index_serial-digits (digits_of n n)) [
      | inl e ↦ ap normalize_text e ∙ both.0
      | inr e ↦ ap normalize_text e ∙ both.1
    ]
