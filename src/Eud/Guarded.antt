-- ===== src/Eud/Guarded.antt =====
-- The guard of an SSL connection: what is published carries the user who logged in.
use c4raven_server.Prelude.{
  ℕ, Bool, true, false, ◌&&◌, not, Option, some, List, [], ◌∷◌, ◌≡◌, refl, sym, ap, ◌∙◌, arith, All,
  All-append, All-map, Bool-cases, inl, inr, if◌then◌else◌, option_eq, text_eq, if-case, or_else,
}
use c4raven_server.Chat.{truthy}
use c4raven_server.Groups.{Group, GroupUser}
use c4raven_server.Metrics.Reading.{category_label, cot_category}
use c4raven_server.Eud.Session.{
  User, Event, Output, counts, publishes, binds_control, reports_disconnect, sends, notes_rx,
  delivers_chat, announces, binds, unbinds, unbinds_groups, cancels, closes_channel, shuts_socket,
  closes_socket, Session, emit, user_id_of, is_opened,
}
use c4raven_server.Eud.Stream.{note_known, note_rx, publish_cot, is_ping, take_cot, handle_cot}
use c4raven_server.Eud.Identified.{parse_device_info-IsKept}
use c4raven_server.Eud.Kept.{
  IsQuiet, IsKept, IsKept-refl, IsKept-trans, emit-IsKept, if-IsKept, fields-IsKept,
}

-- What is published carries the id of the user, and there is one who logged in.
abbrev pub IsVouched : Bool → Option User → Output → Type 0
IsVouched login user (publishes uid text id) =
    (login ≡ true) × ((u : User) × (user ≡ some u) × (id ≡ some u.id))
IsVouched login user _ = Unit

-- What a CoT of an SSL connection stands for, at every moment.
pub record IsGuarded (s : Session) : Type 0 where
  pub over_ssl : s.is_ssl ≡ true
  pub vouched : All (IsVouched s.is_authenticated s.user) s.outputs
  pub none_waits : s.is_authenticated ≡ false → s.cached_messages ≡ []
  pub has_user : s.is_authenticated ≡ true → (u : User) × (s.user ≡ some u)

quiet-IsVouched :
    (login : Bool) (user : Option User) (o : Output) → IsQuiet o → IsVouched login user o
quiet-IsVouched login user (counts a b) q = tt
quiet-IsVouched login user (publishes a b c) q = absurd q
quiet-IsVouched login user (reports_disconnect a b) q = tt
quiet-IsVouched login user (sends a) q = tt
quiet-IsVouched login user (notes_rx a) q = tt
quiet-IsVouched login user (delivers_chat a b) q = tt
quiet-IsVouched login user (announces a b) q = tt
quiet-IsVouched login user (binds_control a b) q = tt
quiet-IsVouched login user (binds a) q = tt
quiet-IsVouched login user (unbinds a) q = tt
quiet-IsVouched login user (unbinds_groups a) q = tt
quiet-IsVouched login user (cancels a) q = tt
quiet-IsVouched login user closes_channel q = tt
quiet-IsVouched login user shuts_socket q = tt
quiet-IsVouched login user closes_socket q = tt

pub kept-IsGuarded : {s t : Session} → IsKept s t → IsGuarded s → IsGuarded t
kept-IsGuarded {s} {t} k g = record {
  over_ssl = k.same_ssl ∙ g.over_ssl;
  vouched =
      rw (k.same_login, k.same_user, k.adds)
        (All-append (IsVouched s.is_authenticated s.user) s.outputs k.added g.vouched
          (All-map (quiet-IsVouched s.is_authenticated s.user) k.added k.quiet));
  none_waits = λ h. k.same_cached ∙ g.none_waits (sym k.same_login ∙ h);
  has_user = λ h. (let w = g.has_user (sym k.same_login ∙ h) in (w.0, k.same_user ∙ w.1));
}

-- Without a login nothing is published yet, so that any login vouches for it.
pub unpublished :
    (user : Option User) (u : User) (o : Output)
    → IsVouched false user o
    → IsVouched true (some u) o
unpublished user u (counts a b) q = tt
unpublished user u (publishes a b c) q = absurd (cc)
unpublished user u (reports_disconnect a b) q = tt
unpublished user u (sends a) q = tt
unpublished user u (notes_rx a) q = tt
unpublished user u (delivers_chat a b) q = tt
unpublished user u (announces a b) q = tt
unpublished user u (binds_control a b) q = tt
unpublished user u (binds a) q = tt
unpublished user u (unbinds a) q = tt
unpublished user u (unbinds_groups a) q = tt
unpublished user u (cancels a) q = tt
unpublished user u closes_channel q = tt
unpublished user u shuts_socket q = tt
unpublished user u closes_socket q = tt

-- Before a login nothing is published, whoever the user of the certificate is.
pub for_user : (user u : Option User) (o : Output) → IsVouched false user o → IsVouched false u o
for_user user u (counts a b) q = tt
for_user user u (publishes a b c) q = absurd (cc)
for_user user u (reports_disconnect a b) q = tt
for_user user u (sends a) q = tt
for_user user u (notes_rx a) q = tt
for_user user u (delivers_chat a b) q = tt
for_user user u (announces a b) q = tt
for_user user u (binds_control a b) q = tt
for_user user u (binds a) q = tt
for_user user u (unbinds a) q = tt
for_user user u (unbinds_groups a) q = tt
for_user user u (cancels a) q = tt
for_user user u closes_channel q = tt
for_user user u shuts_socket q = tt
for_user user u closes_socket q = tt

pub publish-IsGuarded :
    (e : Event) (s : Session)
    → s.is_authenticated ≡ true
    → IsGuarded s
    → IsGuarded (publish_cot e s)
unfolding publish_cot
publish-IsGuarded e s login g = elim (Bool-cases (is_opened s.channel)) [
  | inl o ↦ rw (o) (record {
    over_ssl = g.over_ssl;
    vouched =
        All-append (IsVouched s.is_authenticated s.user) s.outputs
          (publishes s.uid e.text (user_id_of s.user) ∷ []) g.vouched
          (
            (
              login,
              ((g.has_user login).0, (g.has_user login).1, ap user_id_of (g.has_user login).1),
            ),
            tt,
          );
    none_waits = λ h. absurd (cc);
    has_user = g.has_user;
  })
  | inr o ↦ rw (o) (record {
    over_ssl = g.over_ssl;
    vouched = g.vouched;
    none_waits = λ h. absurd (cc);
    has_user = g.has_user;
  })
]

pub publish-login :
    (e : Event) (s : Session) → (publish_cot e s).is_authenticated ≡ s.is_authenticated
unfolding publish_cot
publish-login e s = elim (Bool-cases (is_opened s.channel)) [
  | inl o ↦ rw (o) refl
  | inr o ↦ rw (o) refl
]

note_rx-IsKept : (now : ℕ) (s : Session) → IsKept s (note_rx now s)
unfolding note_rx
note_rx-IsKept now s = if-IsKept _ (IsKept-refl s) (
    IsKept-trans (fields-IsKept refl refl refl refl refl)
      (emit-IsKept (notes_rx (or_else s.uid "") ∷ []) (record s { last_rx_write = now }) (tt, tt)))

take_cot-IsGuarded :
    (groups : List Group) (ms : List GroupUser) (e : Event) (s : Session)
    → s.is_authenticated ≡ true
    → IsGuarded s
    → IsGuarded (take_cot groups ms e s)
unfolding take_cot
take_cot-IsGuarded groups ms e s login g =
    let counted =
      emit (counts "raven_cot_received_total" (category_label (cot_category e.type_of)) ∷ []) s in
    let k =
      IsKept-trans
        (emit-IsKept
          (counts "raven_cot_received_total" (category_label (cot_category e.type_of)) ∷ []) s
          (tt, tt))
        (if-IsKept (truthy counted.uid) (IsKept-refl counted)
          (parse_device_info-IsKept groups ms e counted)) in
    publish-IsGuarded e _ (k.same_login ∙ login) (kept-IsGuarded k g)

pub if-IsGuarded :
    {s t : Session} (b : Bool) → IsGuarded s → IsGuarded t → IsGuarded (if b then s else t)
if-IsGuarded true g h = g
if-IsGuarded false g h = h

note_known-IsKept : (now : ℕ) (s : Session) → IsKept s (note_known now s)
unfolding note_known
note_known-IsKept now s = if-IsKept (truthy s.uid) (note_rx-IsKept now s) (IsKept-refl s)

logged_in : (ssl login : Bool) → ssl ≡ true → (ssl && not login) ≡ false → login ≡ true
logged_in ssl login h k = ground arith

pub logged_out : (ssl login : Bool) → (ssl && not login) ≡ true → login ≡ false
logged_out ssl login k = ground arith

pub handle_cot-IsGuarded :
    (groups : List Group) (ms : List GroupUser) (now : ℕ) (writes : Bool) (e : Event) (s : Session)
    → IsGuarded s
    → IsGuarded (handle_cot groups ms now writes e s)
unfolding handle_cot
handle_cot-IsGuarded groups ms now writes e s g =
    if-case IsGuarded (s.is_ssl && not s.is_authenticated)
      (λ h.
        kept-IsGuarded
          (emit-IsKept (counts "raven_cot_dropped_total" "reason=\"unauthenticated\"" ∷ []) s
            (tt, tt))
          g)
      (λ h.
        (let k = note_known-IsKept now s in
          if-IsGuarded (is_ping e && writes)
            (kept-IsGuarded
              (IsKept-trans k (emit-IsKept (sends e.text ∷ []) (note_known now s) (tt, tt))) g)
            (take_cot-IsGuarded groups ms e (note_known now s)
              (k.same_login ∙ logged_in s.is_ssl s.is_authenticated g.over_ssl h)
              (kept-IsGuarded k g))))
