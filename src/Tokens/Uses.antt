-- ===== src/Tokens/Uses.antt =====
-- The use counter of a token under one request.
use c4raven_server.Prelude.{
  ℕ, ◌⊎◌, ◌+◌, String, ◌≡◌, refl, ◌∙◌, Bool, true, false, ◌&&◌, ◌||◌, not, Option, none, some, List,
  [], ◌∷◌, arith, ◌==◌, nat_eq, text_eq, if◌then◌else◌, find?, is_none, or_else, any, Bool-cases,
  inl, inr, ==→≡, ==_refl, ==_sym, ≡→==, ap₂,
}
use c4raven_server.Chat.{truthy}
use c4raven_server.Tokens.{
  Token, Claims, Request, claim, uses_of, bump, bump_row, matches_sub, admits, verify_row,
  verify_claims, verify_token,
}

-- The counter of the token with this hash, as the lookup finds it.
abbrev pub found : List Token → String → Option Token
found rows h = find? (λ (t : Token). t.token_hash == h) rows

abbrev pub counted : Option Token → ℕ
counted none = 0
counted (some t) = uses_of t

unfoldable pub uses : List Token → String → ℕ
uses rows h = counted (found rows h)

pub uses-found :
    (rows : List Token) (h : String) (t : Token) → found rows h ≡ some t → uses rows h ≡ uses_of t
unfolding uses
uses-found rows h t e = rw (e) refl

-- No two rows have the same id.
abbrev pub HasDistinctIds : List Token → Type 0
HasDistinctIds [] = Unit
HasDistinctIds (t ∷ ts) = (any (λ (x : Token). x.id == t.id) ts ≡ false) × HasDistinctIds ts

abbrev pub one_if : Bool → ℕ
one_if true = 1
one_if false = 0

found-absent :
    (id : ℕ) (rows : List Token) (h : String) (t : Token)
    → any (λ (x : Token). x.id == id) rows ≡ false
    → found rows h ≡ some t
    → (t.id == id) ≡ false
unfolding any find?
found-absent id [] h t k e = cc
found-absent id (x ∷ xs) h t k e = elim (Bool-cases (x.token_hash == h)) [
  | inl yes' ↦ let same : x ≡ t = ground arith in rw (← same) (ground arith)
  | inr no' ↦ found-absent id xs h t (ground arith) (ground arith)
]

bump_row-other : (id : ℕ) (t : Token) → (t.id == id) ≡ false → bump_row id t ≡ t
unfolding bump_row
bump_row-other id t h = simp (h) refl

bump_row-same : (t : Token) → bump_row t.id t ≡ record t { total_uses = some (uses_of t + 1) }
unfolding bump_row
bump_row-same t = simp (==_refl t.id) refl

bump-absent :
    (id : ℕ) (rows : List Token)
    → any (λ (x : Token). x.id == id) rows ≡ false
    → bump id rows ≡ rows
unfolding any bump
bump-absent id [] k = refl
bump-absent id (x ∷ xs) k =
    ap₂ ◌∷◌ (bump_row-other id x (ground arith)) (bump-absent id xs (ground arith))

uses-cons :
    (x : Token) (xs : List Token) (k : String)
    → uses (x ∷ xs) k ≡ (if x.token_hash == k then uses_of x else uses xs k)
unfolding uses find?
uses-cons x xs k = elim (Bool-cases (x.token_hash == k)) [
  | inl e ↦ simp (e) refl
  | inr e ↦ simp (e) refl
]

bump-cons : (id : ℕ) (x : Token) (xs : List Token) → bump id (x ∷ xs) ≡ bump_row id x ∷ bump id xs
unfolding bump
bump-cons id x xs = refl

found-here :
    (x t : Token) (xs : List Token) (h : String)
    → (x.token_hash == h) ≡ true
    → found (x ∷ xs) h ≡ some t
    → x ≡ t
unfolding find?
found-here x t xs h e f = ground arith

found-there :
    (x t : Token) (xs : List Token) (h : String)
    → (x.token_hash == h) ≡ false
    → found (x ∷ xs) h ≡ some t
    → found xs h ≡ some t
unfolding find?
found-there x t xs h e f = ground arith

-- Bumping the row that a hash finds counts one use of that hash, and of no other.
pub uses-bump :
    (rows : List Token) (h : String) (t : Token)
    → HasDistinctIds rows
    → found rows h ≡ some t
    → (k : String) → uses (bump t.id rows) k ≡ uses rows k + one_if (h == k)
uses-bump [] h t d e k = unfold find? in cc
uses-bump (x ∷ xs) h t d e k = elim (Bool-cases (x.token_hash == h)) [
  | inl yes' ↦
      rw
        (
          ← found-here x t xs h yes' e,
          bump-cons x.id x xs,
          bump-absent x.id xs d.0,
          bump_row-same x,
          uses-cons x xs k,
          uses-cons (record x { total_uses = some (uses_of x + 1) }) xs k,
          ← ==→≡ x.token_hash h yes',
        )
        (ground arith)
  | inr no' ↦
      let below = found-there x t xs h no' e in
      rw
        (
          bump-cons t.id x xs,
          bump_row-other t.id x (==_sym x.id t.id ∙ found-absent x.id xs h t d.0 below),
          uses-cons x xs k,
          uses-cons x (bump t.id xs) k,
        )
        (ground (
          arith,
          uses-bump xs h t d.1 below k,
          ==→≡ x.token_hash k,
          ==_sym h x.token_hash,
          ≡→== x.token_hash k,
          ==→≡ h k,
        ))
]

bump_row-id : (id : ℕ) (t : Token) → (bump_row id t).id ≡ t.id
unfolding bump_row
bump_row-id id t = elim (Bool-cases (t.id == id)) [ inl e ↦ simp (e) refl | inr e ↦ simp (e) refl ]

bump-other_ids :
    (id k : ℕ) (ts : List Token)
    → any (λ (y : Token). y.id == k) ts ≡ false
    → any (λ (y : Token). y.id == k) (bump id ts) ≡ false
unfolding any bump
bump-other_ids id k [] h = refl
bump-other_ids id k (t ∷ ts) h = rw (bump_row-id id t) (ground (arith, bump-other_ids id k ts))

bump-HasDistinctIds :
    (id : ℕ) (rows : List Token) → HasDistinctIds rows → HasDistinctIds (bump id rows)
bump-HasDistinctIds id [] d = unfold bump in tt
bump-HasDistinctIds id (x ∷ xs) d =
    rw (bump-cons id x xs, bump_row-id id x)
      (bump-other_ids id x.id xs d.0, bump-HasDistinctIds id xs d.1)

module _ (lower : String → String) (decode : String → Option Claims)
    (hash_of : Claims → String) where
  abbrev pub has_hash : String → Option Claims → Bool
  has_hash h none = false
  has_hash h (some claims) = hash_of claims == h

  -- The request's token has this hash.
  abbrev pub is_for : String → Request → Bool
  is_for h r = has_hash h (decode (or_else r.token ""))

  -- A request either changes nothing and is refused, or its token's row admits it.
  abbrev pub Accepted : Request → List Token → List Token × Bool → Type 0
  Accepted r rows result =
      (claims : Claims) × (t : Token) × (decode (or_else r.token "") ≡ some claims)
      × (is_none (claim claims "scope") ≡ true)
      × (matches_sub lower (claim claims "sub") (or_else r.username "") ≡ true)
      × (found rows (hash_of claims) ≡ some t)
      × (admits lower claims r t ≡ true)
      × (result ≡ (if r.consume then bump t.id rows else rows, true))

  verify_row_cases :
      (claims : Claims) (r : Request) (o : Option Token) (rows : List Token)
      → (verify_row lower decode hash_of claims r o rows ≡ (rows, false))
        ⊎ ((t : Token) × (o ≡ some t)
            × (admits lower claims r t ≡ true)
            × (verify_row lower decode hash_of claims r o rows
                ≡ (if r.consume then bump t.id rows else rows, true)))
  unfolding verify_row
  verify_row_cases claims r none rows = inl refl
  verify_row_cases claims r (some t) rows = elim (Bool-cases (admits lower claims r t)) [
    | inr a ↦ inl (simp (a) refl)
    | inl a ↦ elim (Bool-cases r.consume) [
      | inr b ↦ inr (t, refl, a, simp (a, b) refl)
      | inl b ↦ elim (Bool-cases r.commits) [
        | inl c ↦ inr (t, refl, a, simp (a, b, c) refl)
        | inr c ↦ inl (simp (a, b, c) refl)
      ]
    ]
  ]

  verify_claims_cases :
      (o : Option Claims) (r : Request) (rows : List Token)
      → decode (or_else r.token "") ≡ o
      → (verify_claims lower decode hash_of o r rows ≡ (rows, false))
        ⊎ Accepted r rows (verify_claims lower decode hash_of o r rows)
  unfolding verify_claims
  verify_claims_cases none r rows e = inl refl
  verify_claims_cases (some claims) r rows e = elim (Bool-cases (is_none (claim claims "scope"))) [
    | inr a ↦ inl (simp (a) refl)
    | inl a ↦ elim (Bool-cases (matches_sub lower (claim claims "sub") (or_else r.username ""))) [
      | inr b ↦ inl (simp (a, b) refl)
      | inl b ↦ elim (verify_row_cases claims r (found rows (hash_of claims)) rows) [
        | inl c ↦ inl (simp (a, b) c)
        | inr (t, f, c, d) ↦ inr (claims, t, e, a, b, f, c, simp (a, b) d)
      ]
    ]
  ]

  pub verify_cases :
      (r : Request) (rows : List Token)
      → (verify_token lower decode hash_of r rows ≡ (rows, false))
        ⊎ Accepted r rows (verify_token lower decode hash_of r rows)
  unfolding verify_token
  verify_cases r rows = elim (Bool-cases (not (truthy r.token) || not (truthy r.username))) [
    | inl a ↦ inl (simp (a) refl)
    | inr a ↦ simp (a) (verify_claims_cases (decode (or_else r.token "")) r rows refl)
  ]

  -- One request counts a use of a token exactly when it is accepted, consumes, and is for it.
  pub uses-verify_token :
      (r : Request) (rows : List Token) (h : String)
      → HasDistinctIds rows
      → uses (verify_token lower decode hash_of r rows).0 h
        ≡ uses rows h
          + one_if ((verify_token lower decode hash_of r rows).1 && r.consume && is_for h r)
  uses-verify_token r rows h d = elim (verify_cases r rows) [
    | inl e ↦ rw (e) (omega arith)
    | inr (claims, t, e, a, b, f, c, result) ↦
        rw (result, e)
          (elim (Bool-cases r.consume) [
            | inl yes' ↦ rw (yes') (uses-bump rows (hash_of claims) t d f h)
            | inr no' ↦ rw (no') (omega arith)
          ])
  ]

  pub verify_token-HasDistinctIds :
      (r : Request) (rows : List Token)
      → HasDistinctIds rows
      → HasDistinctIds (verify_token lower decode hash_of r rows).0
  verify_token-HasDistinctIds r rows d = elim (verify_cases r rows) [
    | inl e ↦ rw (e) d
    | inr (claims, t, e, a, b, f, c, result) ↦ rw (result) (elim (Bool-cases r.consume) [
      | inl yes' ↦ rw (yes') (bump-HasDistinctIds t.id rows d)
      | inr no' ↦ rw (no') d
    ])
  ]

  -- A request that meets every test is accepted, and counted if it consumes.
  pub verify_accepts :
      (r : Request) (rows : List Token) (claims : Claims) (t : Token)
      → truthy r.token ≡ true
      → truthy r.username ≡ true
      → decode (or_else r.token "") ≡ some claims
      → is_none (claim claims "scope") ≡ true
      → matches_sub lower (claim claims "sub") (or_else r.username "") ≡ true
      → found rows (hash_of claims) ≡ some t
      → admits lower claims r t ≡ true
      → r.commits ≡ true
      → verify_token lower decode hash_of r rows
        ≡ (if r.consume then bump t.id rows else rows, true)
  unfolding verify_token verify_claims verify_row
  verify_accepts r rows claims t a b c d e f g h =
      simp (a, b, c)
        (simp (d, e, f)
          (simp (g, h)
            (elim (Bool-cases r.consume) [ inl i ↦ simp (i) refl | inr i ↦ simp (i) refl ])))
