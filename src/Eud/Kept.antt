-- ===== src/Eud/Kept.antt =====
-- The operations of a connection that publish nothing and leave its login alone: what that means, and
-- the end of a connection.
use c4raven_server.Prelude.{
  String, Bool, true, false, ◌&&◌, Option, none, some, List, [], ◌∷◌, ◌++◌, map, ◌≡◌, refl, sym, ap,
  ◌∙◌, All, All-append, if◌then◌else◌, append_assoc, append-nil, nat_eq, text_eq, option_eq,
}
use c4raven_server.Chat.{truthy}
use c4raven_server.Eud.Session.{
  Binding, Output, closing, publishes, unbinds, cancels, closes_channel, Session, emit, is_opened,
  is_usable, mark_disconnected, unbind_all, unbind_rabbitmq_queues, close_channel,
  report_disconnect, mark_device, close_connection,
}

-- The output publishes no CoT.
abbrev pub IsQuiet : Output → Type 0
IsQuiet (publishes uid text id) = ⊥
IsQuiet _ = Unit

-- One state of a connection and a later one, with the same login, and no CoT published between.
pub record IsKept (s t : Session) : Type 0 where
  pub same_ssl : t.is_ssl ≡ s.is_ssl
  pub same_login : t.is_authenticated ≡ s.is_authenticated
  pub same_user : t.user ≡ s.user
  pub same_cached : t.cached_messages ≡ s.cached_messages
  pub added : List Output
  pub adds : t.outputs ≡ s.outputs ++ added
  pub quiet : All IsQuiet added

pub IsKept-refl : (s : Session) → IsKept s s
IsKept-refl s = record {
  same_ssl = refl;
  same_login = refl;
  same_user = refl;
  same_cached = refl;
  added = [];
  adds = sym (append-nil s.outputs);
  quiet = tt;
}

pub IsKept-trans : {s t u : Session} → IsKept s t → IsKept t u → IsKept s u
IsKept-trans {s} {t} {u} a b = record {
  same_ssl = b.same_ssl ∙ a.same_ssl;
  same_login = b.same_login ∙ a.same_login;
  same_user = b.same_user ∙ a.same_user;
  same_cached = b.same_cached ∙ a.same_cached;
  added = a.added ++ b.added;
  adds = b.adds ∙ ap (λ l. l ++ b.added) a.adds ∙ append_assoc s.outputs a.added b.added;
  quiet = All-append IsQuiet a.added b.added a.quiet b.quiet;
}

pub emit-IsKept : (os : List Output) (s : Session) → All IsQuiet os → IsKept s (emit os s)
emit-IsKept os s q = record {
  same_ssl = refl;
  same_login = refl;
  same_user = refl;
  same_cached = refl;
  added = os;
  adds = refl;
  quiet = q;
}

-- A choice between two states that both keep it.
pub if-IsKept :
    {s t u : Session} (b : Bool) → IsKept s t → IsKept s u → IsKept s (if b then t else u)
if-IsKept true a c = a
if-IsKept false a c = c

-- A state that differs in other fields only.
pub fields-IsKept :
    {s t : Session}
    → t.is_ssl ≡ s.is_ssl
    → t.is_authenticated ≡ s.is_authenticated
    → t.user ≡ s.user
    → t.cached_messages ≡ s.cached_messages
    → t.outputs ≡ s.outputs
    → IsKept s t
fields-IsKept {s} a b c d e = record {
  same_ssl = a;
  same_login = b;
  same_user = c;
  same_cached = d;
  added = [];
  adds = e ∙ sym (append-nil s.outputs);
  quiet = tt;
}

unbinds-IsQuiet : (bs : List Binding) → All IsQuiet (map unbinds bs)
unbinds-IsQuiet [] = tt
unbinds-IsQuiet (b ∷ bs) = (tt, unbinds-IsQuiet bs)

pub cancels-IsQuiet : (ts : List String) → All IsQuiet (map cancels ts)
cancels-IsQuiet [] = tt
cancels-IsQuiet (t ∷ ts) = (tt, cancels-IsQuiet ts)

report_disconnect-IsKept : (s : Session) → IsKept s (report_disconnect s)
report_disconnect-IsKept s =
    if-IsKept (is_opened s.channel) (emit-IsKept _ s (tt, tt)) (IsKept-refl s)

unbind-IsKept : (s : Session) → IsKept s (unbind_rabbitmq_queues s)
unfolding unbind_rabbitmq_queues
unbind-IsKept s = go s.uid
  where
    go :
        (o : Option String)
        → IsKept s (elim o [
          | none ↦ s
          | some uid ↦
              if truthy s.uid && is_usable s.channel
              then emit (unbind_all uid s.bound_queues) s
              else s
        ])
    go none = IsKept-refl s
    go (some uid) =
        if-IsKept _ (emit-IsKept _ s (tt, (tt, unbinds-IsQuiet s.bound_queues))) (IsKept-refl s)

mark_device-IsKept : (s : Session) → IsKept s (mark_device s)
unfolding mark_disconnected
mark_device-IsKept s = go s.uid
  where
    go :
        (o : Option String)
        → IsKept s (elim o [
          | none ↦ s
          | some uid ↦
              if truthy s.uid then record s { devices = mark_disconnected uid s.devices } else s
        ])
    go none = IsKept-refl s
    go (some uid) = if-IsKept _ (fields-IsKept refl refl refl refl refl) (IsKept-refl s)

close_channel-IsKept : (s : Session) → IsKept s (close_channel s)
close_channel-IsKept s =
    if-IsKept (is_usable s.channel)
      (IsKept-trans (fields-IsKept refl refl refl refl refl)
        (emit-IsKept (closes_channel ∷ []) (record s { channel = closing }) (tt, tt)))
      (IsKept-refl s)

shut : Session → Session
shut s = record s { shutdown = true }

shut-IsKept : (s : Session) → IsKept s (shut s)
unfolding shut
shut-IsKept s = fields-IsKept refl refl refl refl refl

pub close_connection-IsKept : (s : Session) → IsKept s (close_connection s)
unfolding close_connection shut
close_connection-IsKept s = if-IsKept s.shutdown (IsKept-refl s) (
    if-IsKept s.superseded (IsKept-trans (close_channel-IsKept s) (shut-IsKept (close_channel s))) (
      IsKept-trans (report_disconnect-IsKept s) (
        IsKept-trans (unbind-IsKept (report_disconnect s)) (
          IsKept-trans (mark_device-IsKept (unbind_rabbitmq_queues (report_disconnect s))) (
            IsKept-trans (close_channel-IsKept _)
              (IsKept-trans (shut-IsKept _) (emit-IsKept _ _ (tt, (tt, tt)))))))))
