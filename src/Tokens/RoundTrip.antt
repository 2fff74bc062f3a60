-- ===== src/Tokens/RoundTrip.antt =====
-- `generate_token` and `verify_token` together.
use c4raven_server.Prelude.{
  ℕ, ◌+◌, String, ◌≡◌, refl, ◌∙◌, ap, true, false, ◌||◌, not, Option, none, some, List, arith, ◌==◌,
  nat_eq, text_eq, option_eq, if◌then◌else◌, find?, leb, or_else, Bool-cases, inl, inr, ==_refl,
  ≡→==,
}
use c4raven_server.Chat.{truthy}
use c4raven_server.Tokens.{
  Token, Claims, Request, text, claim, uses_of, is_used_up, matches_sub, admits, verify_token,
  hash_token, to_json, payload, generate_token, nonzero, name_value, number_value,
}
use c4raven_server.Tokens.Uses.{
  found, uses, uses-found, uses-bump, HasDistinctIds, one_if, verify_accepts,
}

-- `generate_token` signs exactly the claims that `hash_token` hashes, in the same order.
pub payload-to_json : (t : Token) → payload t ≡ to_json t true
unfolding payload to_json
payload-to_json t = ground arith

-- A token as it is made: for a user, with its row stored and neither disabled nor used up.
abbrev pub IsFresh : (hash_of : Claims → String) → Token → List Token → Type 0
IsFresh hash_of t rows =
    (truthy t.username ≡ true)
    × (or_else t.disabled false ≡ false)
    × ((not (nonzero t.max_uses) || not (leb (or_else t.max_uses 0) (uses_of t))) ≡ true)
    × (found rows (hash_token hash_of t).token_hash ≡ some (hash_token hash_of t))

claim-sub : (t : Token) → claim (to_json t true) "sub" ≡ some (name_value t.username)
unfolding claim to_json find?
claim-sub t = refl

claim-scope : (t : Token) → claim (to_json t true) "scope" ≡ none
unfolding claim to_json find?
claim-scope t = ground arith

claim-max :
    (t : Token)
    → claim (to_json t true) "max"
      ≡ (if nonzero t.max_uses then some (number_value t.max_uses) else none)
unfolding claim to_json find?
claim-max t = ground arith

decoded :
    (encode : Claims → String) (decode : String → Option Claims) (t : Token) (text_ : String)
    (r : Request)
    → truthy t.username ≡ true
    → generate_token encode t ≡ some text_
    → r.token ≡ some text_
    → decode (encode (payload t)) ≡ some (payload t)
    → decode (or_else r.token "") ≡ some (to_json t true)
unfolding generate_token
decoded encode decode t text_ r u made token trip =
    let same : encode (payload t) ≡ text_ = ground arith in
    rw (token, ← same, trip) (ap some (payload-to_json t))

name_value-text : (o : Option String) → truthy o ≡ true → name_value o ≡ text (or_else o "")
name_value-text none h = cc
name_value-text (some s) h = refl

matches_own :
    (lower : String → String) (t : Token) (user : String)
    → truthy t.username ≡ true
    → lower (or_else t.username "") ≡ lower user
    → matches_sub lower (claim (to_json t true) "sub") user ≡ true
unfolding matches_sub
matches_own lower t user u same = rw (claim-sub t, name_value-text t.username u) (≡→== _ _ same)

max_value_lem :
    (t : Token) (max : Option ℕ)
    → (not (nonzero max) || not (leb (or_else max 0) (uses_of t))) ≡ true
    → is_used_up t (if nonzero max then some (number_value max) else none) ≡ false
unfolding is_used_up
max_value_lem t none h = refl
max_value_lem t (some n) h = elim (Bool-cases (n == 0)) [
  | inl e ↦ rw (e) refl
  | inr e ↦ rw (e) (ground arith)
]

admits_own :
    (lower : String → String) (hash_of : Claims → String) (t : Token) (r : Request)
    (rows : List Token)
    → IsFresh hash_of t rows
    → admits lower (to_json t true) r (hash_token hash_of t) ≡ true
unfolding admits hash_token
admits_own lower hash_of t r rows fresh =
    rw (fresh.0, matches_own lower t (or_else t.username "") fresh.0 refl, fresh.1, claim-max t)
      (elim (Bool-cases r.check_max) [
        | inl e ↦
            rw
              (
                e,
                max_value_lem (record t { token_hash = hash_of (to_json t true) }) t.max_uses
                    fresh.2,
              )
              refl
        | inr e ↦ rw (e) refl
      ])

-- For a user's row that is stored under its hash, not disabled and not used up, in a table with
-- distinct ids: the generated token is accepted, whatever the case of the name it is presented
-- with, with the maximum checked or not, and a consuming request counts exactly one use. The
-- commit succeeds, the names and the token have some text, and decoding gives the claims that
-- were encoded.
pub verify_token-generate_token :
    (lower : String → String) (encode : Claims → String) (decode : String → Option Claims)
    (hash_of : Claims → String) (t : Token) (rows : List Token) (text_ user : String) (r : Request)
    → IsFresh hash_of t rows
    → HasDistinctIds rows
    → decode (encode (payload t)) ≡ some (payload t)
    → generate_token encode t ≡ some text_
    → r.token ≡ some text_
    → truthy (some text_) ≡ true
    → r.username ≡ some user
    → truthy (some user) ≡ true
    → lower (or_else t.username "") ≡ lower user
    → r.commits ≡ true
    → ((verify_token lower decode hash_of r rows).1 ≡ true)
      × (uses (verify_token lower decode hash_of r rows).0 (hash_token hash_of t).token_hash
          ≡ uses_of t + one_if r.consume)
unfolding hash_token
verify_token-generate_token lower encode decode hash_of t rows text_ user r fresh d trip made token
      a username b same commits =
    let h = (hash_token hash_of t).token_hash in
    let result =
      verify_accepts lower decode hash_of r rows (to_json t true) (hash_token hash_of t)
        (rw (token) a) (rw (username) b) (decoded encode decode t text_ r fresh.0 made token trip)
        (rw (claim-scope t) refl) (rw (username) (matches_own lower t user fresh.0 same)) fresh.3
        (admits_own lower hash_of t r rows fresh) commits in
    (
      rw (result) refl,
      rw (result) (elim (Bool-cases r.consume) [
        | inl e ↦ rw (e) (
            uses-bump rows h (hash_token hash_of t) d fresh.3 h
            ∙ rw (==_refl h, uses-found rows h (hash_token hash_of t) fresh.3) refl)
        | inr e ↦ rw (e) (uses-found rows h (hash_token hash_of t) fresh.3 ∙ omega arith)
      ]),
    )
