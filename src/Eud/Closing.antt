-- ===== src/Eud/Closing.antt =====
-- The end of a connection, and the loop of `on_channel_open` over what was kept for the channel.
use c4raven_server.Prelude.{
  ℕ, zero, suc, ◌<◌, String, Bool, true, false, ◌||◌, not, none, some, List, [], ◌∷◌, ◌++◌, map,
  ◌≡◌, refl, sym, ap, ◌∙◌, arith, if◌then◌else◌, if-case, ltb, length, length-append, or_else,
  append_assoc, append-nil,
}
use c4raven_server.Chat.{truthy}
use c4raven_server.Eud.Session.{
  Event, Channel, missing, opened, closing, closed, Output, publishes, binds_control, Session, emit,
  user_id_of, is_opened, is_usable, unbind_rabbitmq_queues, close_channel, report_disconnect,
  mark_device, close_connection,
}
use c4raven_server.Eud.Stream.{
  publish_cot, cached_at, publish_at, publish_cached, bind_cert_control_queue, clear_cached,
  on_channel_open,
}
use c4raven_server.Eud.Kept.{close_connection-IsKept}

if_true : {A : Type 0} {b : Bool} (x y : A) → b ≡ true → (if b then x else y) ≡ x
if_true x y h = rw (h) refl

if_false : {A : Type 0} {b : Bool} (x y : A) → b ≡ false → (if b then x else y) ≡ y
if_false x y h = rw (h) refl

close_shut : (s : Session) → s.shutdown ≡ true → close_connection s ≡ s
unfolding close_connection
close_shut s h = if_true _ _ h

-- `close_connection` a second time changes nothing, however the connection ended.
pub close_connection_again :
    (s : Session) → close_connection (close_connection s) ≡ close_connection s
unfolding close_connection
close_connection_again s =
    if-case (λ t. close_connection t ≡ t) s.shutdown (λ h. close_shut s h)
      (λ h. if-case (λ t. close_connection t ≡ t) s.superseded (λ k. refl) (λ k. refl))

unusable : (c : Channel) → is_usable c ≡ false → is_opened c ≡ false
unusable missing h = refl
unusable opened h = h
unusable closing h = refl
unusable closed h = refl

close_channel_unopened : (s : Session) → is_opened (close_channel s).channel ≡ false
close_channel_unopened s =
    if-case (λ (t : Session). is_opened t.channel ≡ false) (is_usable s.channel) (λ h. refl)
      (λ h. unusable s.channel h)

closed_unopened :
    (s : Session) → s.shutdown ≡ false → is_opened (close_connection s).channel ≡ false
unfolding close_connection
closed_unopened s h =
    ap (λ (t : Session). is_opened t.channel) (if_false _ _ h)
    ∙ if-case (λ (t : Session). is_opened t.channel ≡ false) s.superseded
        (λ k. close_channel_unopened s)
        (λ k. close_channel_unopened (mark_device (unbind_rabbitmq_queues (report_disconnect s))))

cached_at-some :
    (i : ℕ) (es : List Event) → ltb i (length es) ≡ true → (e : Event) × (cached_at i es ≡ some e)
cached_at-some i [] h = absurd (ground arith)
cached_at-some zero (e ∷ es) h = (e, refl)
cached_at-some (suc i) (e ∷ es) h = cached_at-some i es (ground arith)

publish_at-some :
    (i : ℕ) (e : Event) (s : Session)
    → cached_at i s.cached_messages ≡ some e
    → publish_at i s ≡ publish_cot e s
unfolding publish_at
publish_at-some i e s h =
    ap (λ o. elim o as (λ x. Session) [ none ↦ s | some x ↦ publish_cot x s ]) h

wait-publish :
    (e : Event) (s : Session)
    → is_opened s.channel ≡ false
    → publish_cot e s ≡ record s { cached_messages = s.cached_messages ++ (e ∷ []) }
unfolding publish_cot
wait-publish e s h = if_false _ _ h

-- Without an open channel, a message that is taken from the list joins it again: the loop has a next
-- one after any number of turns.
publish_cached_stuck :
    (n i : ℕ) (s : Session)
    → is_opened s.channel ≡ false
    → ltb i (length s.cached_messages) ≡ true
    → publish_cached n i s ≡ none
unfolding publish_cached
publish_cached_stuck zero i s c h = refl
publish_cached_stuck (suc n) i s c h =
    let w = cached_at-some i s.cached_messages h in
    if_true _ _ h
    ∙ ap (publish_cached n (suc i)) (publish_at-some i w.0 s w.1 ∙ wait-publish w.0 s c)
    ∙ publish_cached_stuck n (suc i)
        (record s { cached_messages = s.cached_messages ++ (w.0 ∷ []) }) c
        (more i w.0 s.cached_messages h)
  where
    more :
        (i : ℕ) (e : Event) (es : List Event)
        → ltb i (length es) ≡ true
        → ltb (suc i) (length (es ++ (e ∷ []))) ≡ true
    more i e es h = ground (arith, length-append es (e ∷ []))

abbrev pub bound_control : Session → Session
bound_control s =
    emit (binds_control (or_else s.cert_serial "") s.conn_token ∷ [])
      (record s { cert_control_bound = true })

bind-revoked :
    (is_revoked : String → Bool) (s : Session)
    → s.cert_control_bound ≡ false
    → truthy s.cert_serial ≡ true
    → is_opened s.channel ≡ true
    → is_revoked (or_else s.cert_serial "") ≡ true
    → bind_cert_control_queue is_revoked s ≡ close_connection (bound_control s)
unfolding bind_cert_control_queue
bind-revoked is_revoked s b c o r =
    if_false _ _ (unbound s.cert_control_bound (truthy s.cert_serial) (is_opened s.channel) b c o)
    ∙ if_true _ _ r
  where
    unbound : (a b c : Bool) → a ≡ false → b ≡ true → c ≡ true → (a || not b || not c) ≡ false
    unbound a b c h k l = ground arith

-- When the channel opens after the certificate has been revoked, with messages waiting for it, the
-- loop over these messages ends within no number of turns: the connection is closed first, so that
-- each message that is taken from the list is put back at its end. The connection has a serial and
-- was neither shut down nor bound to its serial's queue before.
pub on_channel_open_stuck :
    (is_revoked : String → Bool) (s : Session) (e : Event) (es : List Event)
    → s.cert_control_bound ≡ false
    → truthy s.cert_serial ≡ true
    → is_revoked (or_else s.cert_serial "") ≡ true
    → s.shutdown ≡ false
    → s.cached_messages ≡ e ∷ es
    → (n : ℕ) → on_channel_open is_revoked n s ≡ none
unfolding on_channel_open
on_channel_open_stuck is_revoked s e es b c r live waiting n =
    let start = record s { channel = opened } in
    ap (λ t. clear_cached (publish_cached n 0 t)) (bind-revoked is_revoked start b c refl r)
    ∙ ap clear_cached (
        publish_cached_stuck n 0 (close_connection (bound_control start))
          (closed_unopened (bound_control start) live)
          (ap (λ l. ltb 0 (length l))
              ((close_connection-IsKept (bound_control start)).same_cached ∙ waiting)
            ∙ nonempty e es))
  where
    nonempty : (e : Event) (es : List Event) → ltb 0 (length (e ∷ es)) ≡ true
    nonempty e es = ground arith

-- With an open channel: the messages from an index on are published in order.
abbrev pub published : Session → Event → Output
published s e = publishes s.uid e.text (user_id_of s.user)

cached_at-middle :
    (pre : List Event) (e : Event) (es : List Event)
    → cached_at (length pre) (pre ++ (e ∷ es)) ≡ some e
cached_at-middle [] e es = refl
cached_at-middle (x ∷ pre) e es = cached_at-middle pre e es

publish_cached-from :
    (n : ℕ) (pre rest : List Event) (s : Session)
    → is_opened s.channel ≡ true
    → s.cached_messages ≡ pre ++ rest
    → length rest < n
    → publish_cached n (length pre) s
      ≡ some (record s { outputs = s.outputs ++ map (published s) rest })
unfolding publish_cached publish_cot
publish_cached-from zero pre rest s o c h = absurd (omega arith)
publish_cached-from (suc n) pre [] s o c h =
    if_false _ _
      (ap (λ l. ltb (length pre) (length l)) (c ∙ append-nil pre) ∙ not_less (length pre))
    ∙ ap (λ os. some (record s { outputs = os })) (sym (append-nil s.outputs))
  where
    not_less : (n : ℕ) → ltb n n ≡ false
    not_less n = ground arith
publish_cached-from (suc n) pre (e ∷ es) s o c h =
    if_true _ _ (ap (λ l. ltb (length pre) (length l)) c ∙ less pre e es)
    ∙ ap (publish_cached n (suc (length pre))) (
        publish_at-some (length pre) e s (ap (cached_at (length pre)) c ∙ cached_at-middle pre e es)
        ∙ if_true _ _ o)
    ∙ ap (λ i. publish_cached n i (record s { outputs = s.outputs ++ (published s e ∷ []) }))
        (one_more pre e)
    ∙ publish_cached-from n (pre ++ (e ∷ [])) es
        (record s { outputs = s.outputs ++ (published s e ∷ []) }) o
        (c ∙ sym (append_assoc pre (e ∷ []) es)) (omega (arith, h))
    ∙ ap (λ os. some (record s { outputs = os }))
        (append_assoc s.outputs (published s e ∷ []) (map (published s) es))
  where
    less :
        (pre : List Event) (e : Event) (es : List Event)
        → ltb (length pre) (length (pre ++ (e ∷ es))) ≡ true
    less pre e es = ground (arith, length-append pre (e ∷ es))

    one_more : (pre : List Event) (e : Event) → suc (length pre) ≡ length (pre ++ (e ∷ []))
    one_more pre e = omega (arith, length-append pre (e ∷ []))

-- When the channel opens and the connection stays open, one turn for each message that waited and
-- one more are enough: all that waited is published in order, and nothing waits any more.
pub on_channel_open_publishes :
    (is_revoked : String → Bool) (s : Session)
    → is_opened (bind_cert_control_queue is_revoked (record s { channel = opened })).channel ≡ true
    → (let b = bind_cert_control_queue is_revoked (record s { channel = opened }) in
        on_channel_open is_revoked (suc (length b.cached_messages)) s
        ≡ some (record b {
          outputs = b.outputs ++ map (published b) b.cached_messages;
          cached_messages = [];
        }))
unfolding on_channel_open
on_channel_open_publishes is_revoked s o =
    let b = bind_cert_control_queue is_revoked (record s { channel = opened }) in
    ap clear_cached (
      publish_cached-from (suc (length b.cached_messages)) [] b.cached_messages b o refl
        (omega arith))
