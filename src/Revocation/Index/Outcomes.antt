-- ===== src/Revocation/Index/Outcomes.antt =====
-- The whole of `revoke`: what is revoked after it, and what is left where it raises.
use c4raven_server.Prelude.{
  ℕ, Bool, true, false, ◌||◌, not, Option, none, some, List, [], ◌∷◌, ◌≡◌, refl, ap, ◌∙◌, subst,
  nat_eq, list_eq, option_eq, any, is_empty, contains, is_none, arith, All, Bool-cases, inl, inr,
  if-case,
}
use c4raven_server.Revocation.{Text, Serial, normalize_serial}
use c4raven_server.Revocation.Index.{
  Line, revokes, is_revoked_text, is_revoked, Entry, reason_of, revoke_serial, revoke_entry,
  with_new, revoke_all, finish, revoke,
}
use c4raven_server.Revocation.Index.Revoking.{IsEntered, revoke_serial-IsEntered}

-- An entry that is refused: its serial is no number, or its reason is not in the list.
unfoldable pub is_refused : (reasons : List Text) → Entry → Bool
is_refused reasons e = is_none (normalize_serial e.serial) || not (contains reasons (reason_of e))

module _ (reasons : List Text) (index_time : ℕ → Text) (now : Text) where
  -- What a loop that ends leaves: all that was revoked, the serials of its entries, and the same
  -- lines where nothing is new.
  record IsDone (es : List Entry) (lines : List Line) (new : List Text) (r : List Line × List Text)
      : Type 0 where
    keeps : (t : Text) → any (revokes t) lines ≡ true → any (revokes t) r.0 ≡ true
    entered : All (λ (e : Entry). is_revoked r.0 e.serial ≡ true) es
    unchanged : is_empty r.1 ≡ true → (r.0 ≡ lines) × (is_empty new ≡ true)

  abbrev IsDoneIfAny : List Entry → List Line → List Text → Option (List Line × List Text) → Type 0
  IsDoneIfAny es lines new none = Unit
  IsDoneIfAny es lines new (some r) = IsDone es lines new r

  still-revoked :
      (s : Option Text) (before after : List Line)
      → ((t : Text) → any (revokes t) before ≡ true → any (revokes t) after ≡ true)
      → is_revoked_text before s ≡ true
      → is_revoked_text after s ≡ true
  unfolding is_revoked_text
  still-revoked none before after k h = h
  still-revoked (some t) before after k h = k t h

  no_more :
      (o : Option Text) (new : List Text)
      → is_empty (with_new o new) ≡ true
      → (o ≡ none) × (is_empty new ≡ true)
  no_more none new h = (refl, h)
  no_more (some s) [] h = absurd (cc)
  no_more (some s) (x ∷ new) h = absurd (cc)

  one_more :
      (e : Entry) (es : List Entry) (lines : List Line) (new : List Text)
      (r : List Line × Option Text)
      → IsEntered reasons index_time now (normalize_serial e.serial) lines (some r)
      → (o : Option (List Line × List Text)) → IsDoneIfAny es r.0 (with_new r.1 new) o
      → IsDoneIfAny (e ∷ es) lines new o
  unfolding is_revoked
  one_more e es lines new r h none d = tt
  one_more e es lines new r h (some q) d = record {
    keeps = λ t k. d.keeps t (h.0 t k);
    entered = (still-revoked (normalize_serial e.serial) r.0 q.0 d.keeps h.1, d.entered);
    unchanged = λ k. (let u = d.unchanged k in let v = no_more r.1 new u.1 in (u.0 ∙ h.2 v.0, v.1));
  }

  revoke_all-IsDone :
      (es : List Entry) (lines : List Line) (new : List Text)
      → IsDoneIfAny es lines new (revoke_all reasons index_time now es lines new)
  unfolding revoke_all revoke_entry
  revoke_all-IsDone [] lines new = record {
    keeps = λ t h. h;
    entered = tt;
    unchanged = λ h. (refl, h);
  }
  revoke_all-IsDone (e ∷ es) lines new =
      go (revoke_entry reasons index_time now e lines)
        (revoke_serial-IsEntered reasons index_time now e (normalize_serial e.serial) lines refl)
        (λ r. revoke_all-IsDone es r.0 (with_new r.1 new))
    where
      go :
          (o : Option (List Line × Option Text))
          → IsEntered reasons index_time now (normalize_serial e.serial) lines o
          → ((r : List Line × Option Text)
              → IsDoneIfAny es r.0
                  (with_new r.1 new)
                  (revoke_all reasons index_time now es r.0 (with_new r.1 new)))
          → IsDoneIfAny (e ∷ es) lines new (elim o [
            | none ↦ none
            | some r ↦ revoke_all reasons index_time now es r.0 (with_new r.1 new)
          ])
      go none h ih = tt
      go (some r) h ih = one_more e es lines new r h _ (ih r)

  finish-keeps :
      (crl : Bool) (es : List Entry) (lines : List Line) (o : Option (List Line × List Text))
      (s : Option Text)
      → IsDoneIfAny es lines [] o
      → is_revoked_text lines s ≡ true
      → is_revoked_text (finish crl lines o).0 s ≡ true
  finish-keeps crl es lines none s d h = h
  finish-keeps crl es lines (some r) s d h =
      if-case (λ ls. is_revoked_text ls s ≡ true) (is_empty r.1) (λ k. h)
        (λ k. still-revoked s lines r.0 d.keeps h)

  finish-entered :
      (crl : Bool) (es : List Entry) (lines : List Line) (o : Option (List Line × List Text))
      (new : List Text)
      → IsDoneIfAny es lines [] o
      → (finish crl lines o).1 ≡ some new
      → All (λ (e : Entry). is_revoked (finish crl lines o).0 e.serial ≡ true) es
  finish-entered crl es lines none new d h = absurd (cc)
  finish-entered crl es lines (some r) new d h =
      if-case (λ ls. All (λ (e : Entry). is_revoked ls e.serial ≡ true) es) (is_empty r.1)
        (λ k.
          subst (λ ls. All (λ (e : Entry). is_revoked ls e.serial ≡ true) es) (d.unchanged k).0
            d.entered)
        (λ k. d.entered)

  -- Whatever is revoked, whether it ends in an error or openssl fails: a serial that was revoked
  -- before is still revoked, in any form that it is asked for.
  pub is_revoked-revoke :
      (crl : Bool) (es : List Entry) (lines : List Line) (v : Serial)
      → is_revoked lines v ≡ true
      → is_revoked (revoke reasons index_time now crl es lines).0 v ≡ true
  unfolding revoke is_revoked
  is_revoked-revoke crl es lines v h =
      finish-keeps crl es lines (revoke_all reasons index_time now es lines []) (normalize_serial v)
        (revoke_all-IsDone es lines []) h

  -- When `revoke` returns, the serial of every entry is revoked in the index, whether it was new, known
  -- to the index or revoked before, and whatever the other entries are.
  pub revoke-entries :
      (crl : Bool) (es : List Entry) (lines : List Line) (new : List Text)
      → (revoke reasons index_time now crl es lines).1 ≡ some new
      → All
          (λ (e : Entry). is_revoked (revoke reasons index_time now crl es lines).0 e.serial ≡ true)
          es
  unfolding revoke
  revoke-entries crl es lines new h =
      finish-entered crl es lines (revoke_all reasons index_time now es lines []) new
        (revoke_all-IsDone es lines []) h

  serial-refused :
      (e : Entry) (s : Option Text) (lines : List Line)
      → (is_none s || not (contains reasons (reason_of e))) ≡ true
      → revoke_serial reasons index_time now e s lines ≡ none
  unfolding revoke_serial
  serial-refused e none lines h = refl
  serial-refused e (some s) lines h =
      if-case (λ (o : Option (List Line × Option Text)). o ≡ none) (contains reasons (reason_of e))
        (λ k. absurd (both_ways h k)) (λ k. refl)
    where
      both_ways : {b : Bool} → not b ≡ true → b ≡ true → ⊥
      both_ways h k = ground arith

  all-refused :
      (es : List Entry) (lines : List Line) (new : List Text)
      → any (is_refused reasons) es ≡ true
      → revoke_all reasons index_time now es lines new ≡ none
  unfolding revoke_all revoke_entry is_refused any
  all-refused [] lines new h = absurd (cc)
  all-refused (e ∷ es) lines new h = elim (Bool-cases (is_refused reasons e)) [
    | inl k ↦
        ap
          (λ o. elim o as (λ z. Option (List Line × List Text)) [
            | none ↦ none
            | some r ↦ revoke_all reasons index_time now es r.0 (with_new r.1 new)
          ])
          (serial-refused e (normalize_serial e.serial) lines k)
    | inr k ↦ go (revoke_entry reasons index_time now e lines) (λ r.
        all-refused es r.0 (with_new r.1 new)
          (rest (is_refused reasons e) (any (is_refused reasons) es) h k))
  ]
    where
      rest : (a b : Bool) → (a || b) ≡ true → a ≡ false → b ≡ true
      rest a b h k = ground arith

      go :
          (o : Option (List Line × Option Text))
          → ((r : List Line × Option Text)
              → revoke_all reasons index_time now es r.0 (with_new r.1 new) ≡ none)
          → (elim o as (λ z. Option (List Line × List Text)) [
            | none ↦ none
            | some r ↦ revoke_all reasons index_time now es r.0 (with_new r.1 new)
          ])
            ≡ none
      go none ih = refl
      go (some r) ih = ih r

  -- When one of the entries has an invalid serial or reason, `revoke` raises and the index is as it
  -- was, also for the entries before that one.
  pub revoke-refused :
      (crl : Bool) (es : List Entry) (lines : List Line)
      → any (is_refused reasons) es ≡ true
      → revoke reasons index_time now crl es lines ≡ (lines, none)
  unfolding revoke
  revoke-refused crl es lines h = ap (finish crl lines) (all-refused es lines [] h)
