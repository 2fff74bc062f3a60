-- ===== src/Eud/Stream.antt =====
-- What a connection does with each message: `handle_cot`, `pong`, `note_rx`, `publish_cot`,
-- `on_channel_open`, `on_channel_close`, `on_message` and `on_control_message` of
-- raven/eud_handler/EudHandler.py. Whether a write to the socket succeeds is part of the input, as
-- is the time of the monotonic clock.
use c4raven_server.Prelude.{
  length, ℕ, zero, suc, String, Bool, true, ◌&&◌, ◌||◌, not, ◌-◌, Option, none, some, List, [], ◌∷◌,
  ◌++◌, map, ◌==◌, nat_eq, text_eq, option_eq, if◌then◌else◌, or_else, ltb,
}
use c4raven_server.Chat.{truthy}
use c4raven_server.Groups.{Group, GroupUser}
use c4raven_server.Metrics.Reading.{category_label, cot_category, cot_category_from_xml}
use c4raven_server.Eud.Session.{
  Event, opened, closed, counts, binds_control, publishes, sends, notes_rx, cancels, shuts_socket,
  Session, emit, user_id_of, is_opened, close_connection,
}
use c4raven_server.Eud.Identify.{parse_device_info}

abbrev pub rx_interval : ℕ
rx_interval = 30

-- `note_rx`; the record of the reception itself is Chat.Delivery.record_rx
unfoldable pub note_rx : ℕ → Session → Session
note_rx now s =
    if not (s.last_rx_write == 0) && ltb (now - s.last_rx_write) rx_interval
    then s
    else emit (notes_rx (or_else s.uid "") ∷ []) (record s { last_rx_write = now })

-- `publish_cot`: to the firehose and the CoT parser, or kept until the channel opens
unfoldable pub publish_cot : Event → Session → Session
publish_cot e s =
    if is_opened s.channel
    then emit (publishes s.uid e.text (user_id_of s.user) ∷ []) s
    else record s { cached_messages = s.cached_messages ++ (e ∷ []) }

abbrev pub is_ping : Event → Bool
is_ping e = e.type_of == some "t-x-c-t"

-- what `handle_cot` does once the ping is excluded
unfoldable pub take_cot : List Group → List GroupUser → Event → Session → Session
unfolding publish_cot parse_device_info cot_category
take_cot groups memberships e s =
    let counted =
      emit (counts "raven_cot_received_total" (category_label (cot_category e.type_of)) ∷ []) s in
    publish_cot e
      (if truthy counted.uid then counted else parse_device_info groups memberships e counted)

-- not on the first CoT, which has to find the time of the connection before
unfoldable pub note_known : ℕ → Session → Session
unfolding note_rx
note_known now s = if truthy s.uid then note_rx now s else s

-- `handle_cot`; `pong` sends the text of the ping itself, and where that fails the ping is taken
-- like any CoT
unfoldable pub handle_cot :
    List Group → List GroupUser → ℕ → (writes : Bool) → Event → Session → Session
unfolding note_known take_cot
handle_cot groups memberships now writes e s =
    if s.is_ssl && not s.is_authenticated
    then emit (counts "raven_cot_dropped_total" "reason=\"unauthenticated\"" ∷ []) s
    else if is_ping e && writes
    then emit (sends e.text ∷ []) (note_known now s)
    else take_cot groups memberships e (note_known now s)

-- the message at an index of the list
abbrev pub cached_at : ℕ → List Event → Option Event
cached_at i [] = none
cached_at zero (e ∷ es) = some e
cached_at (suc i) (e ∷ es) = cached_at i es

unfoldable pub publish_at : ℕ → Session → Session
unfolding publish_cot
publish_at i s = elim (cached_at i s.cached_messages) [ none ↦ s | some e ↦ publish_cot e s ]

-- `for message in self.cached_messages: self.publish_cot(message)`, which goes by the index: what it
-- leaves when it ends within so many turns. A message that is not published joins the list.
unfoldable pub publish_cached : ℕ → ℕ → Session → Option Session
unfolding publish_at
publish_cached zero i s = none
publish_cached (suc n) i s =
    let rest = publish_cached n (suc i) (publish_at i s) in
    if ltb i (length s.cached_messages) then rest else some s

-- `bind_cert_control_queue`: a certificate that was revoked since the handshake ends the connection
unfoldable pub bind_cert_control_queue : (is_revoked : String → Bool) → Session → Session
unfolding close_connection
bind_cert_control_queue is_revoked s =
    if s.cert_control_bound || not (truthy s.cert_serial) || not (is_opened s.channel)
    then s
    else let bound =
        emit (binds_control (or_else s.cert_serial "") s.conn_token ∷ [])
          (record s { cert_control_bound = true }) in
      if is_revoked (or_else s.cert_serial "") then close_connection bound else bound

abbrev pub clear_cached : Option Session → Option Session
clear_cached none = none
clear_cached (some s) = some (record s { cached_messages = [] })

-- `on_channel_open` with so many turns for its loop, without what it publishes for the web map
unfoldable pub on_channel_open : (is_revoked : String → Bool) → ℕ → Session → Option Session
unfolding publish_cached bind_cert_control_queue
on_channel_open is_revoked n s =
    clear_cached
      (publish_cached n 0 (bind_cert_control_queue is_revoked (record s { channel = opened })))

unfoldable pub on_channel_close : Session → Session
on_channel_close s = record s { channel = closed; shutdown = true }

-- A message of a consumed queue: a kick, or a CoT of a uid.
pub data Delivery : Type 0 where
  kick : Delivery
  cot_of : Option String → String → Delivery

-- `on_message`; a write that fails closes the connection
unfoldable pub on_message :
    (event_type : String → Option String) → (writes : Bool) → Delivery → Session → Session
unfolding close_connection cot_category_from_xml
on_message event_type writes kick s = close_connection s
on_message event_type writes (cot_of uid text) s =
    if uid == s.uid
    then s
    else if writes
    then emit
        (sends text
          ∷ counts "raven_cot_sent_total" (category_label (cot_category_from_xml event_type text))
          ∷ [])
        s
    else close_connection (emit (counts "raven_cot_dropped_total" "reason=\"send_error\"" ∷ []) s)

-- A message of the eud_control exchange.
pub data Control : Type 0 where
  revoke : Option String → Control
  supersede : Option String → Option String → Control
  disconnect : Option String → Control

abbrev pub step_aside : Session → Session
step_aside s =
    emit (map cancels s.consumer_tags) (record s { superseded = true; consumer_tags = [] })

-- `on_control_message`
unfoldable pub on_control_message : Control → Session → Session
unfolding close_connection
on_control_message (revoke serial) s =
    if truthy s.cert_serial && serial == s.cert_serial then close_connection s else s
on_control_message (supersede uid except) s =
    if not (uid == s.uid) || except == some s.conn_token then s else step_aside s
on_control_message (disconnect uid) s =
    if uid == s.uid then emit (shuts_socket ∷ []) (step_aside s) else s
