-- ===== src/Eud/Broker.antt =====
-- The guard of an SSL connection, for what comes from RabbitMQ.
use c4raven_server.Prelude.{
  ℕ, zero, suc, String, Bool, true, false, Option, none, some, List, [], ◌∷◌, map, ◌==◌, ◌≡◌, refl,
  ◌∙◌, Bool-cases, inl, inr, ltb, option_eq, text_eq, if-case, or_else, length,
}
use c4raven_server.Eud.Session.{
  Event, Channel, opened, counts, binds_control, cancels, shuts_socket, Session, emit,
}
use c4raven_server.Eud.Stream.{
  publish_cot, publish_at, cached_at, publish_cached, bind_cert_control_queue, clear_cached,
  on_channel_open, on_channel_close, Delivery, kick, cot_of, on_message, Control, revoke, supersede,
  disconnect, step_aside, on_control_message,
}
use c4raven_server.Eud.Kept.{
  IsKept, IsKept-refl, IsKept-trans, emit-IsKept, if-IsKept, fields-IsKept, cancels-IsQuiet,
  close_connection-IsKept,
}
use c4raven_server.Eud.Guarded.{IsGuarded, kept-IsGuarded, publish-IsGuarded, publish-login}

publish_at-IsGuarded :
    (i : ℕ) (s : Session)
    → s.is_authenticated ≡ true
    → IsGuarded s
    → IsGuarded (publish_at i s) × ((publish_at i s).is_authenticated ≡ true)
unfolding publish_at
publish_at-IsGuarded i s a g = go (cached_at i s.cached_messages)
  where
    go :
        (o : Option Event)
        → IsGuarded (elim o [ none ↦ s | some e ↦ publish_cot e s ])
          × ((elim o as (λ x. Session) [ none ↦ s | some e ↦ publish_cot e s ]).is_authenticated
              ≡ true)
    go none = (g, a)
    go (some e) = (publish-IsGuarded e s a g, publish-login e s ∙ a)

abbrev pub IsGuardedIfAny : Option Session → Type 0
IsGuardedIfAny none = Unit
IsGuardedIfAny (some s) = IsGuarded s

publish_cached-IsGuarded :
    (n i : ℕ) (s : Session)
    → s.is_authenticated ≡ true
    → IsGuarded s
    → IsGuardedIfAny (publish_cached n i s)
unfolding publish_cached
publish_cached-IsGuarded zero i s a g = tt
publish_cached-IsGuarded (suc n) i s a g =
    if-case IsGuardedIfAny (ltb i (length s.cached_messages))
      (λ h.
        (let p = publish_at-IsGuarded i s a g in
          publish_cached-IsGuarded n (suc i) (publish_at i s) p.1 p.0))
      (λ h. g)

-- With no message waiting, the loop leaves the connection as it is.
publish_none_lem :
    (P : Option Session → Type 0) (n : ℕ) (s : Session)
    → s.cached_messages ≡ []
    → P none
    → P (some s)
    → P (publish_cached n 0 s)
unfolding publish_cached
publish_none_lem P zero s e z g = z
publish_none_lem P (suc n) s e z g =
    if-case P (ltb 0 (length s.cached_messages)) (λ h. absurd (nothing_in s.cached_messages e h))
      (λ h. g)
  where
    nothing_in : (es : List Event) → es ≡ [] → ltb 0 (length es) ≡ true → ⊥
    nothing_in [] e h = cc
    nothing_in (x ∷ xs) e h = cc

clear-IsGuarded : (o : Option Session) → IsGuardedIfAny o → IsGuardedIfAny (clear_cached o)
clear-IsGuarded none g = tt
clear-IsGuarded (some s) g = record {
  over_ssl = g.over_ssl;
  vouched = g.vouched;
  none_waits = λ h. refl;
  has_user = g.has_user;
}

-- Nobody is logged in.
abbrev pub IsLoggedOut : Option Session → Type 0
IsLoggedOut none = Unit
IsLoggedOut (some s) = s.is_authenticated ≡ false

clear-IsLoggedOut : (o : Option Session) → IsLoggedOut o → IsLoggedOut (clear_cached o)
clear-IsLoggedOut none g = tt
clear-IsLoggedOut (some s) g = g

pub bind_cert-IsKept :
    (is_revoked : String → Bool) (s : Session) → IsKept s (bind_cert_control_queue is_revoked s)
unfolding bind_cert_control_queue
bind_cert-IsKept is_revoked s = if-IsKept _ (IsKept-refl s) (
    if-case (IsKept s) (is_revoked (or_else s.cert_serial ""))
      (λ h. IsKept-trans (bound s) (close_connection-IsKept _)) (λ h. bound s))
  where
    bound :
        (s : Session)
        → IsKept s (
            emit
              (binds_control (or_else s.cert_serial "") s.conn_token ∷ [])
              (record s { cert_control_bound = true }))
    bound s = IsKept-trans (fields-IsKept refl refl refl refl refl) (
        emit-IsKept (binds_control (or_else s.cert_serial "") s.conn_token ∷ [])
          (record s { cert_control_bound = true }) (tt, tt))

pub channel-IsKept : (c : Channel) (s : Session) → IsKept s (record s { channel = c })
channel-IsKept c s = fields-IsKept refl refl refl refl refl

pub on_channel_open-IsGuarded :
    (is_revoked : String → Bool) (n : ℕ) (s : Session)
    → IsGuarded s
    → IsGuardedIfAny (on_channel_open is_revoked n s)
unfolding on_channel_open
on_channel_open-IsGuarded is_revoked n s g =
    let k =
      IsKept-trans (channel-IsKept opened s)
        (bind_cert-IsKept is_revoked (record s { channel = opened })) in
    clear-IsGuarded
      (publish_cached n 0 (bind_cert_control_queue is_revoked (record s { channel = opened })))
      (elim (Bool-cases s.is_authenticated) [
        | inl a ↦ publish_cached-IsGuarded n 0 _ (k.same_login ∙ a) (kept-IsGuarded k g)
        | inr a ↦
            publish_none_lem IsGuardedIfAny n _ (k.same_cached ∙ g.none_waits a) tt
              (kept-IsGuarded k g)
      ])

pub on_channel_open-IsLoggedOut :
    (is_revoked : String → Bool) (n : ℕ) (s : Session)
    → IsGuarded s
    → s.is_authenticated ≡ false
    → IsLoggedOut (on_channel_open is_revoked n s)
unfolding on_channel_open
on_channel_open-IsLoggedOut is_revoked n s g a =
    let k =
      IsKept-trans (channel-IsKept opened s)
        (bind_cert-IsKept is_revoked (record s { channel = opened })) in
    clear-IsLoggedOut
      (publish_cached n 0 (bind_cert_control_queue is_revoked (record s { channel = opened })))
      (publish_none_lem IsLoggedOut n _ (k.same_cached ∙ g.none_waits a) tt (k.same_login ∙ a))

pub on_message-IsKept :
    (event_type : String → Option String) (writes : Bool) (d : Delivery) (s : Session)
    → IsKept s (on_message event_type writes d s)
unfolding on_message
on_message-IsKept event_type writes kick s = close_connection-IsKept s
on_message-IsKept event_type writes (cot_of uid text) s = if-IsKept (uid == s.uid) (IsKept-refl s) (
    if-IsKept writes (emit-IsKept _ s (tt, (tt, tt))) (
      IsKept-trans
        (emit-IsKept (counts "raven_cot_dropped_total" "reason=\"send_error\"" ∷ []) s (tt, tt))
        (close_connection-IsKept _)))

step_aside-IsKept : (s : Session) → IsKept s (step_aside s)
step_aside-IsKept s = IsKept-trans (fields-IsKept refl refl refl refl refl) (
    emit-IsKept (map cancels s.consumer_tags) (record s { superseded = true; consumer_tags = [] })
      (cancels-IsQuiet s.consumer_tags))

pub on_control_message-IsKept : (c : Control) (s : Session) → IsKept s (on_control_message c s)
unfolding on_control_message
on_control_message-IsKept (revoke serial) s =
    if-IsKept _ (close_connection-IsKept s) (IsKept-refl s)
on_control_message-IsKept (supersede uid except) s =
    if-IsKept _ (IsKept-refl s) (step_aside-IsKept s)
on_control_message-IsKept (disconnect uid) s =
    if-IsKept _ (IsKept-trans (step_aside-IsKept s) (emit-IsKept (shuts_socket ∷ []) _ (tt, tt)))
      (IsKept-refl s)

pub channel_close-IsKept : (s : Session) → IsKept s (on_channel_close s)
unfolding on_channel_close
channel_close-IsKept s = fields-IsKept refl refl refl refl refl
