-- ===== src/Revocation/Index/Revoking.antt =====
-- What `revoke` makes of the index.
use c4raven_server.Prelude.{
  ℕ, Bool, true, ◌||◌, Option, none, some, List, [], ◌∷◌, ◌++◌, ◌==◌, ◌≡◌, refl, sym, ap, ◌∙◌,
  nat_eq, list_eq, option_eq, if◌then◌else◌, any, any-append, contains, arith, Bool-cases,
  Option-cases, inl, inr, if-case, ==_refl,
}
use c4raven_server.Revocation.{
  Text, Serial, number, negative, no_serial, text, hex, hex_of, normalize_text, normalize_serial,
  index_serial,
}
use c4raven_server.Revocation.Serials.{normalize_serial-index_serial}
use c4raven_server.Revocation.Index.{
  Line, field, revoked_mark, revokes, is_revoked_text, is_known, last_of, update_last, Entry,
  mark_line, new_line, reason_of, revoke_line, revoke_serial,
}

-- A line that revokes a serial still does after it is marked.
mark-revokes :
    (s stamp : Text) (l : Line) → revokes s l ≡ true → revokes s (mark_line stamp l) ≡ true
unfolding revokes
mark-revokes s stamp [] h = h
mark-revokes s stamp (a ∷ []) h = h
mark-revokes s stamp (a ∷ b ∷ []) h = h
mark-revokes s stamp (a ∷ b ∷ c ∷ rest) h = ground arith

any-update_last :
    (p q : Line → Bool) (f : Line → Line)
    → ((l : Line) → q l ≡ true → q (f l) ≡ true)
    → (ls : List Line) → any q ls ≡ true
    → any q (update_last p f ls) ≡ true
unfolding any update_last
any-update_last p q f k [] h = h
any-update_last p q f k (x ∷ xs) h = elim (Bool-cases (any p xs)) [
  | inl e ↦ rw (e) (ground (arith, any-update_last p q f k xs))
  | inr e ↦ rw (e) (if-case (λ ls. any q ls ≡ true) (p x) (λ c. ground (arith, k x)) (λ c. h))
]

any-update_last_new :
    (p q : Line → Bool) (f : Line → Line)
    → ((l : Line) → p l ≡ true → q (f l) ≡ true)
    → (ls : List Line) → any p ls ≡ true
    → any q (update_last p f ls) ≡ true
unfolding any update_last
any-update_last_new p q f k [] h = absurd (cc)
any-update_last_new p q f k (x ∷ xs) h = elim (Bool-cases (any p xs)) [
  | inl e ↦ rw (e) (ground (arith, any-update_last_new p q f k xs e))
  | inr e ↦ rw (e) (
      if-case (λ ls. any q ls ≡ true) (p x) (λ c. ground (arith, k x c))
        (λ c. ground (arith, e, c)))
]

last_of-any :
    (p q : Line → Bool) (ls : List Line) (l : Line)
    → last_of p ls ≡ some l
    → ((x : Line) → p x ≡ true → x ≡ l → q x ≡ true)
    → any q ls ≡ true
unfolding last_of any
last_of-any p q [] l h k = absurd (cc)
last_of-any p q (x ∷ xs) l h k = elim (Option-cases (last_of p xs)) [
  | inr (y, e) ↦ ground (
    arith,
    last_of-any p q xs l
        (e
          ∙ sym (
              ap
                (λ o. elim o as (λ z. Option Line) [
                  | some z ↦ some z
                  | none ↦ if p x then some x else none
                ])
                e)
          ∙ h)
        k,
  )
  | inl e ↦ found (
      ap
        (λ o. elim o as (λ z. Option Line) [
          | some z ↦ some z
          | none ↦ if p x then some x else none
        ])
        (sym e)
      ∙ h)
]
  where
    found : (if p x then some x else none) ≡ some l → (q x || any q xs) ≡ true
    found g = ground (arith, k x)

last_of-none :
    (p : Line → Bool) (ls : List Line) (l : Line) → last_of p ls ≡ some l → any p ls ≡ true
last_of-none p ls l h = last_of-any p p ls l h (λ x a b. a)

normalized-hex : (v : Serial) (s : Text) → normalize_serial v ≡ some s → (n : ℕ) × (s ≡ hex n)
unfolding normalize_serial normalize_text
normalized-hex (number n) s h = (n, cc)
normalized-hex negative s h = absurd (cc)
normalized-hex no_serial s h = absurd (cc)
normalized-hex (text t) s h = hex_some _ h
  where
    hex_some : (o : Option ℕ) → hex_of o ≡ some s → (n : ℕ) × (s ≡ hex n)
    hex_some none g = absurd (cc)
    hex_some (some n) g = (n, cc)

-- A normalized serial is read back from the index.
read_back :
    (v : Serial) (s : Text) → normalize_serial v ≡ some s → normalize_text (index_serial s) ≡ some s
unfolding normalize_serial
read_back v s h =
    let w = normalized-hex v s h in
    ap (λ t. normalize_text (index_serial t)) w.1
    ∙ normalize_serial-index_serial w.0
    ∙ ap some (sym w.1)

known-revokes :
    (s : Text) (l : Line)
    → is_known s l ≡ true
    → (field 0 l == revoked_mark) ≡ true
    → revokes s l ≡ true
unfolding is_known revokes
known-revokes s l h k = ground arith

mark-known :
    (s stamp : Text) (l : Line) → is_known s l ≡ true → revokes s (mark_line stamp l) ≡ true
unfolding is_known revokes
mark-known s stamp [] h = absurd (ground arith)
mark-known s stamp (a ∷ []) h = absurd (ground arith)
mark-known s stamp (a ∷ b ∷ []) h = absurd (ground arith)
mark-known s stamp (a ∷ b ∷ c ∷ rest) h = ground arith

new-revokes :
    (s expires stamp subject : Text)
    → normalize_text (index_serial s) ≡ some s
    → revokes s (new_line expires stamp s subject) ≡ true
unfolding revokes
new-revokes s expires stamp subject h = rw (h) (==_refl (some s))

any-last :
    (q : Line → Bool) (ls : List Line) (l : Line) → q l ≡ true → any q (ls ++ (l ∷ [])) ≡ true
unfolding any
any-last q ls l h = any-append q ls (l ∷ []) ∙ ground (arith, h)

module _ (reasons : List Text) (index_time : ℕ → Text) (now : Text) where
  revoke_line-keeps :
      (e : Entry) (s : Text) (o : Option Line) (lines : List Line) (t : Text)
      → any (revokes t) lines ≡ true
      → any (revokes t) (revoke_line reasons index_time now e s o lines).0 ≡ true
  unfolding revoke_line
  revoke_line-keeps e s none lines t h = any-append (revokes t) lines _ ∙ ground (arith, h)
  revoke_line-keeps e s (some l) lines t h =
      if-case (λ (r : List Line × Option Text). any (revokes t) r.0 ≡ true)
        (field 0 l == revoked_mark) (λ k. h)
        (λ k. any-update_last (is_known s) (revokes t) _ (mark-revokes t _) lines h)

  revoke_line-revokes :
      (e : Entry) (s : Text) (o : Option Line) (lines : List Line)
      → last_of (is_known s) lines ≡ o
      → normalize_text (index_serial s) ≡ some s
      → any (revokes s) (revoke_line reasons index_time now e s o lines).0 ≡ true
  unfolding revoke_line
  revoke_line-revokes e s none lines h b =
      any-last (revokes s) lines _ (new-revokes s _ _ e.subject b)
  revoke_line-revokes e s (some l) lines h b =
      if-case (λ (r : List Line × Option Text). any (revokes s) r.0 ≡ true)
        (field 0 l == revoked_mark)
        (λ k.
          last_of-any (is_known s) (revokes s) lines l h
            (λ x a c. known-revokes s x a (ap (λ y. field 0 y == revoked_mark) c ∙ k)))
        (λ k.
          any-update_last_new (is_known s) (revokes s) _ (mark-known s _) lines
            (last_of-none (is_known s) lines l h))

  -- What an entry that is taken leaves: all that was revoked, and its own serial.
  abbrev pub IsEntered : Option Text → List Line → Option (List Line × Option Text) → Type 0
  IsEntered s lines none = Unit
  IsEntered s lines (some r) =
      ((t : Text) → any (revokes t) lines ≡ true → any (revokes t) r.0 ≡ true)
      × (is_revoked_text r.0 s ≡ true)
      × (r.1 ≡ none → r.0 ≡ lines)

  revoke_line-same :
      (e : Entry) (s : Text) (o : Option Line) (lines : List Line)
      → (revoke_line reasons index_time now e s o lines).1 ≡ none
      → (revoke_line reasons index_time now e s o lines).0 ≡ lines
  unfolding revoke_line
  revoke_line-same e s none lines = λ h. absurd (cc)
  revoke_line-same e s (some l) lines =
      if-case (λ (r : List Line × Option Text). r.1 ≡ none → r.0 ≡ lines)
        (field 0 l == revoked_mark) (λ k h. refl) (λ k h. absurd (cc))

  pub revoke_serial-IsEntered :
      (e : Entry) (s : Option Text) (lines : List Line)
      → normalize_serial e.serial ≡ s
      → IsEntered s lines (revoke_serial reasons index_time now e s lines)
  unfolding revoke_serial is_revoked_text
  revoke_serial-IsEntered e none lines h = tt
  revoke_serial-IsEntered e (some s) lines h =
      if-case (IsEntered (some s) lines) (contains reasons (reason_of e))
        (λ k. (
          revoke_line-keeps e s (last_of (is_known s) lines) lines,
          revoke_line-revokes e s (last_of (is_known s) lines) lines refl (read_back e.serial s h),
          revoke_line-same e s (last_of (is_known s) lines) lines,
        ))
        (λ k. tt)
