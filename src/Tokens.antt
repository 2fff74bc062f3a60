-- ===== src/Tokens.antt =====
-- raven/models/Token.py: enrollment tokens, JWTs that a user's device presents in place of a password.
-- PyJWT (`encode`, `decode` with the server's keys), SHA-256 over the JSON text of the claims
-- (`hash_of`) and Python's str.lower (`lower`) are parameters.
pub mod Uses
pub mod Accepted
pub mod RoundTrip
mod Examples
use c4raven_server.Prelude.{
  ℕ, ◌+◌, String, Bool, true, false, ◌&&◌, ◌||◌, not, Option, none, some, List, [], ◌∷◌, ◌++◌, map,
  ◌==◌, nat_eq, text_eq, option_eq, if◌then◌else◌, any, find?, leb, is_none, or_else,
}
use c4raven_server.Chat.{truthy}

-- A value of a claim.
pub data Value : Type 0 where
  null other : Value
  text : String → Value
  number : ℕ → Value

-- A dict of claims, in its order.
abbrev pub Claims : Type 0
Claims = List (String × Value)

-- One row of tokens.
pub record Token : Type 0 where
  pub id : ℕ
  pub username : Option String
  pub max_uses : Option ℕ
  pub total_uses : Option ℕ
  pub creation : ℕ
  pub not_before : Option ℕ
  pub expiration : Option ℕ
  pub disabled : Option Bool
  pub token_hash : String

unfoldable pub claim : Claims → String → Option Value
claim claims key = elim (find? (λ (c : String × Value). c.0 == key) claims) [
  | none ↦ none
  | some c ↦ some c.1
]

abbrev pub name_value : Option String → Value
name_value none = null
name_value (some s) = text s

abbrev pub number_value : Option ℕ → Value
number_value none = null
number_value (some n) = number n

-- `if n:` of a number that may be None
abbrev pub nonzero : Option ℕ → Bool
nonzero none = false
nonzero (some n) = not (n == 0)

unfoldable pub to_json : Token → (hash : Bool) → Claims
to_json t hash =
    let max : Claims =
      if nonzero t.max_uses || not hash then ("max", number_value t.max_uses) ∷ [] else [] in
    let nbf : Claims =
      if nonzero t.not_before || not hash then ("nbf", number_value t.not_before) ∷ [] else [] in
    let exp : Claims =
      if nonzero t.expiration || not hash then ("exp", number_value t.expiration) ∷ [] else [] in
    ("sub", name_value t.username)
      ∷ ("iat", number t.creation)
      ∷ ("iss", text "Raven")
      ∷ ("aud", text "Raven")
      ∷ max
    ++ nbf
    ++ exp

-- The claims of `generate_token`, before they are encoded.
unfoldable pub payload : Token → Claims
payload t =
    let max : Claims = if nonzero t.max_uses then ("max", number_value t.max_uses) ∷ [] else [] in
    let nbf : Claims =
      if nonzero t.not_before then ("nbf", number_value t.not_before) ∷ [] else [] in
    let exp : Claims =
      if nonzero t.expiration then ("exp", number_value t.expiration) ∷ [] else [] in
    ("sub", name_value t.username)
      ∷ ("iat", number t.creation)
      ∷ ("iss", text "Raven")
      ∷ ("aud", text "Raven")
      ∷ max
    ++ nbf
    ++ exp

-- `total_uses or 0`
abbrev pub uses_of : Token → ℕ
uses_of t = or_else t.total_uses 0

-- The test of the uses; comparing with a max that is no number raises, which refuses the token too.
-- A float or a Boolean is comparable in Python; `other` stands for neither, since generate_token
-- writes whole numbers only.
unfoldable pub is_used_up : Token → Option Value → Bool
is_used_up t none = false
is_used_up t (some null) = true
is_used_up t (some other) = true
is_used_up t (some (text s)) = true
is_used_up t (some (number n)) = leb n (uses_of t)

-- One more use of the row; the commit writes it by its primary key.
unfoldable pub bump_row : ℕ → Token → Token
bump_row id t = if t.id == id then record t { total_uses = some (uses_of t + 1) } else t

unfoldable pub bump : ℕ → List Token → List Token
bump id rows = map (bump_row id) rows

-- A call of `verify_token`, with whether the commit that it may make succeeds.
pub record Request : Type 0 where
  pub token : Option String
  pub username : Option String
  pub consume : Bool
  pub check_max : Bool
  pub commits : Bool

-- `hash_token` without an argument
unfoldable pub hash_token : (hash_of : Claims → String) → Token → Token
hash_token hash_of t = record t { token_hash = hash_of (to_json t true) }

unfoldable pub generate_token : (encode : Claims → String) → Token → Option String
generate_token encode t = if truthy t.username then some (encode (payload t)) else none

module _ (lower : String → String) where
  -- `sub.lower() != str(username).lower()`, a sub that is no text never matches
  unfoldable pub matches_sub : Option Value → String → Bool
  matches_sub (some (text sub)) username = lower sub == lower username
  matches_sub _ username = false

  -- the tests of the row, once the subject matches the user
  unfoldable pub admits : Claims → Request → Token → Bool
  admits claims r t =
      truthy t.username
      && matches_sub (claim claims "sub") (or_else t.username "")
      && not (or_else t.disabled false)
      && not (r.check_max && is_used_up t (claim claims "max"))

module _ (lower : String → String) (decode : String → Option Claims)
    (hash_of : Claims → String) where
  verify_row : Claims → Request → Option Token → List Token → List Token × Bool
  verify_row claims r none rows = (rows, false)
  verify_row claims r (some t) rows =
      if not (admits lower claims r t)
      then (rows, false)
      else if not r.consume
      then (rows, true)
      else if r.commits
      then (bump t.id rows, true)
      else (rows, false)

  verify_claims : Option Claims → Request → List Token → List Token × Bool
  verify_claims none r rows = (rows, false)
  verify_claims (some claims) r rows =
      if not (is_none (claim claims "scope"))
      then (rows, false)
      else if not (matches_sub lower (claim claims "sub") (or_else r.username ""))
      then (rows, false)
      else verify_row claims r (find? (λ (t : Token). t.token_hash == hash_of claims) rows) rows

  -- `verify_token`, with the rows that it leaves
  unfoldable pub verify_token : Request → List Token → List Token × Bool
  unfolding verify_claims verify_row
  verify_token r rows =
      if not (truthy r.token) || not (truthy r.username)
      then (rows, false)
      else verify_claims (decode (or_else r.token "")) r rows
