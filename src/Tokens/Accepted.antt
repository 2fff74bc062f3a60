-- ===== src/Tokens/Accepted.antt =====
-- Which requests `verify_token` accepts, and how often.
use c4raven_server.Prelude.{
  ℕ, ◌+◌, ◌≤◌, ◌<◌, String, ◌≡◌, refl, sym, subst, ◌∙◌, true, false, ◌&&◌, Option, none, some, List,
  [], ◌∷◌, arith, ◌==◌, nat_eq, text_eq, option_eq, is_none, or_else, All, Bool-cases, inl, inr,
  ==→≡,
}
use c4raven_server.Tokens.{
  Token, Claims, Request, Value, null, other, text, number, claim, uses_of, is_used_up, matches_sub,
  admits, verify_token,
}
use c4raven_server.Tokens.Uses.{
  found, uses, uses-found, HasDistinctIds, one_if, is_for, verify_cases, uses-verify_token,
  verify_token-HasDistinctIds,
}

room : (t : Token) (max : ℕ) → is_used_up t (some (number max)) ≡ false → uses_of t < max
unfolding is_used_up
room t max h = ground arith

module _ (lower : String → String) (decode : String → Option Claims)
    (hash_of : Claims → String) where
  -- The requests one after the other: the rows at the end, and the number of accepted requests that
  -- consume a use of the token with the hash.
  unfoldable pub requests : String → List Request → List Token → List Token × ℕ
  requests h [] rows = (rows, 0)
  requests h (r ∷ rs) rows =
      let step = verify_token lower decode hash_of r rows in
      let rest = requests h rs step.0 in
      (rest.0, one_if (step.1 && r.consume && is_for lower decode hash_of h r) + rest.1)

  -- The claims of the token with the hash, where they are checked, say this maximum.
  abbrev pub ChecksMax : String → ℕ → Request → Type 0
  ChecksMax h max r =
      (r.check_max ≡ true)
      × ((claims : Claims)
          → decode (or_else r.token "") ≡ some claims
          → hash_of claims ≡ h
          → claim claims "max" ≡ some (number max))

  not_used_up :
      (claims : Claims) (r : Request) (t : Token)
      → admits lower claims r t ≡ true
      → r.check_max ≡ true
      → is_used_up t (claim claims "max") ≡ false
  unfolding admits
  not_used_up claims r t c k = ground arith

  free :
      (max : ℕ) (claims : Claims) (r : Request) (t : Token)
      → admits lower claims r t ≡ true
      → r.check_max ≡ true
      → claim claims "max" ≡ some (number max)
      → uses_of t < max
  free max claims r t c k m =
      room t max (subst (λ v. is_used_up t v ≡ false) m (not_used_up claims r t c k))

  one_request :
      (h : String) (max : ℕ) (r : Request) (rows : List Token)
      → ChecksMax h max r
      → uses rows h ≤ max
      → uses rows h
          + one_if (
              (verify_token lower decode hash_of r rows).1
              && r.consume
              && is_for lower decode hash_of h r)
        ≤ max
  one_request h max r rows checks small = elim (verify_cases lower decode hash_of r rows) [
    | inl e ↦ rw (e) (omega (arith, small))
    | inr (claims, t, e, a, b, f, c, result) ↦
        rw (result, e)
          (elim (Bool-cases (hash_of claims == h)) [
            | inr g ↦ rw (g) (ground (arith, small))
            | inl g ↦
                let same : hash_of claims ≡ h = ==→≡ (hash_of claims) h g in
                let fewer : uses_of t < max =
                  free max claims r t c checks.0 (checks.1 claims e same) in
                let here : uses rows h ≡ uses_of t = uses-found rows h t (rw (← same) f) in
                ground (arith, fewer, here)
          ])
  ]

  -- However many requests come, in whatever order and for whatever tokens: if each of them checks
  -- the maximum, if every token with the hash says that maximum in its claims, and if the counter
  -- is not above it to begin with, then the accepted requests that consume a use of the token with
  -- the hash never number more than the maximum leaves. The ids of the rows are distinct.
  pub requests_bounded :
      (h : String) (max : ℕ) (rs : List Request) (rows : List Token)
      → All (ChecksMax h max) rs
      → uses rows h ≤ max
      → HasDistinctIds rows
      → uses rows h + (requests h rs rows).1 ≤ max
  unfolding requests
  requests_bounded h max [] rows checks small d = omega arith
  requests_bounded h max (r ∷ rs) rows checks small d =
      let step = verify_token lower decode hash_of r rows in
      let counts = uses-verify_token lower decode hash_of r rows h d in
      let once = one_request h max r rows checks.0 small in
      let rest =
        requests_bounded h max rs step.0 checks.1 (omega (arith, counts, once))
          (verify_token-HasDistinctIds lower decode hash_of r rows d) in
      omega (arith, counts, once, rest)

matches_both :
    (lower : String → String) (sub : Option Value) (u v : String)
    → matches_sub lower sub u ≡ true
    → matches_sub lower sub v ≡ true
    → lower u ≡ lower v
unfolding matches_sub
matches_both lower none u v h k = cc
matches_both lower (some null) u v h k = cc
matches_both lower (some other) u v h k = cc
matches_both lower (some (number n)) u v h k = cc
matches_both lower (some (text s)) u v h k =
    sym (==→≡ (lower s) (lower u) h) ∙ ==→≡ (lower s) (lower v) k

text_of :
    (lower : String → String) (sub : Option Value) (u : String)
    → matches_sub lower sub u ≡ true
    → (s : String) × (sub ≡ some (text s)) × (lower s ≡ lower u)
unfolding matches_sub
text_of lower none u h = cc
text_of lower (some null) u h = cc
text_of lower (some other) u h = cc
text_of lower (some (number n)) u h = cc
text_of lower (some (text s)) u h = (s, refl, ==→≡ (lower s) (lower u) h)

admits_parts :
    (lower : String → String) (claims : Claims) (r : Request) (t : Token)
    → admits lower claims r t ≡ true
    → (matches_sub lower (claim claims "sub") (or_else t.username "") ≡ true)
      × (or_else t.disabled false ≡ false)
      × ((r.check_max && is_used_up t (claim claims "max")) ≡ false)
unfolding admits
admits_parts lower claims r t h = (ground arith, ground arith, ground arith)

none_of : {A : Type 0} (o : Option A) → is_none o ≡ true → o ≡ none
none_of none h = refl
none_of (some a) h = cc

-- What is accepted was presented by the user that it names: the claims have no scope, their claim
-- 'sub' is a text that equals the name of the presenting user but for case, and the stored row with
-- their hash belongs to that user too, is not disabled, and has uses left where that is checked.
pub verify_token_sound :
    (lower : String → String) (decode : String → Option Claims) (hash_of : Claims → String)
    (r : Request) (rows : List Token)
    → (verify_token lower decode hash_of r rows).1 ≡ true
    → (claims : Claims) × (t : Token) × (decode (or_else r.token "") ≡ some claims)
      × (claim claims "scope" ≡ none)
      × ((sub : String) × (claim claims "sub" ≡ some (text sub))
          × (lower sub ≡ lower (or_else r.username "")))
      × (found rows (hash_of claims) ≡ some t)
      × (lower (or_else t.username "") ≡ lower (or_else r.username ""))
      × (or_else t.disabled false ≡ false)
      × ((r.check_max && is_used_up t (claim claims "max")) ≡ false)
verify_token_sound lower decode hash_of r rows h = elim (verify_cases lower decode hash_of r rows) [
  | inl e ↦ cc (e, h)
  | inr (claims, t, e, a, b, f, c, result) ↦ (
    claims,
    t,
    e,
    none_of (claim claims "scope") a,
    text_of lower (claim claims "sub") _ b,
    f,
    matches_both lower (claim claims "sub") _ _ (admits_parts lower claims r t c).0 b,
    (admits_parts lower claims r t c).1,
    (admits_parts lower claims r t c).2,
  )
]
