-- ===== src/Tokens/Examples.antt =====
-- Tests of the tokens with one stored row, and their theorems at it.
use c4raven_server.Prelude.{
  ◌+◌, ◌≤◌, String, ◌≡◌, refl, ap, subst, true, false, ◌&&◌, Option, none, some, List, [], ◌∷◌,
  arith, ◌==◌, text_eq, nat_eq, if◌then◌else◌, find?, any, or_else,
}
use c4raven_server.Tokens.{
  Token, Claims, Request, text, number, claim, payload, hash_token, generate_token, verify_token,
  uses_of, is_used_up, matches_sub, admits, bump, bump_row,
}
use c4raven_server.Tokens.Uses.{found, uses, HasDistinctIds, one_if}
use c4raven_server.Tokens.Accepted.{requests, ChecksMax, requests_bounded, verify_token_sound}
use c4raven_server.Tokens.RoundTrip.{verify_token-generate_token}

-- A token of alice for two uses.
abbrev fresh : Token
fresh = record {
  id = 1;
  username = some "alice";
  max_uses = some 2;
  total_uses = none;
  creation = 1700000000;
  not_before = none;
  expiration = none;
  disabled = some false;
  token_hash = "hash";
}

-- The one text that is a token, and its claims.
abbrev alice_claims : Claims
alice_claims =
    ("sub", text "alice")
    ∷ ("iat", number 1700000000)
    ∷ ("iss", text "Raven")
    ∷ ("aud", text "Raven")
    ∷ ("max", number 2)
    ∷ []

abbrev claims_of : String → Option Claims
claims_of s = if s == "jwt" then some alice_claims else none

abbrev signed : Claims → String
signed claims = "jwt"

abbrev digest : Claims → String
digest claims = "hash"

abbrev same_case : String → String
same_case s = s

abbrev ask : String → Request
ask user = record {
  token = some "jwt";
  username = some user;
  consume = true;
  check_max = true;
  commits = true;
}

abbrev rows : List Token
rows = fresh ∷ []

rows-HasDistinctIds : HasDistinctIds rows
unfolding any
rows-HasDistinctIds = (refl, tt)

-- tests

other_user_test : (verify_token same_case claims_of digest (ask "bob") rows).1 ≡ false
unfolding verify_token claim find? matches_sub
other_user_test = refl

third_use_test :
    (requests same_case claims_of digest "hash"
      (ask "alice" ∷ ask "alice" ∷ ask "alice" ∷ [])
      rows).1
    ≡ 2
unfolding requests verify_token claim find? matches_sub admits is_used_up bump bump_row
third_use_test = refl

-- the theorems at this row

says_two : (user : String) → ChecksMax same_case claims_of digest "hash" 2 (ask user)
unfolding claim find?
says_two user = (
  refl,
  λ claims e h. subst (λ c. claim c "max" ≡ some (number 2)) (ap (λ o. or_else o []) e) refl,
)

requests_bounded_example :
    uses rows "hash"
      + (requests same_case claims_of digest "hash"
          (ask "alice" ∷ ask "bob" ∷ ask "alice" ∷ [])
          rows).1
    ≤ 2
unfolding claim find? uses
requests_bounded_example =
    requests_bounded same_case claims_of digest "hash" 2
      (ask "alice" ∷ ask "bob" ∷ ask "alice" ∷ []) rows
      (says_two "alice", (says_two "bob", (says_two "alice", tt))) (omega arith) rows-HasDistinctIds

verify_token-generate_token_example :
    ((verify_token same_case claims_of digest (ask "alice") rows).1 ≡ true)
    × (uses
          (verify_token same_case claims_of digest (ask "alice") rows).0
          (hash_token digest fresh).token_hash
        ≡ uses_of fresh + one_if true)
unfolding find? hash_token generate_token payload
verify_token-generate_token_example =
    verify_token-generate_token same_case signed claims_of digest fresh rows "jwt" "alice"
      (ask "alice") (refl, refl, refl, refl) rows-HasDistinctIds refl refl refl refl refl refl refl
      refl

verify_token_sound_example :
    (claims : Claims) × (t : Token) × (claims_of "jwt" ≡ some claims)
    × (claim claims "scope" ≡ none)
    × ((sub : String) × (claim claims "sub" ≡ some (text sub))
        × (same_case sub ≡ same_case "alice"))
    × (found rows (digest claims) ≡ some t)
    × (same_case (or_else t.username "") ≡ same_case "alice")
    × (or_else t.disabled false ≡ false)
    × ((true && is_used_up t (claim claims "max")) ≡ false)
unfolding verify_token claim find? matches_sub admits is_used_up
verify_token_sound_example = verify_token_sound same_case claims_of digest (ask "alice") rows refl
