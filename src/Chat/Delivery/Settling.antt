-- ===== src/Chat/Delivery/Settling.antt =====
-- `deliver_pending` after another delivery or after data of the device, and the rows that
-- `settle_live_deliveries` and `drop_queue` take out of the queue.
use c4raven_server.Prelude.{
  ℕ, ◌+◌, ap₂, ◌-◌, String, ◌≡◌, refl, sym, ◌∙◌, ap, subst, Bool, true, false, ◌&&◌, ◌||◌, not,
  Option, none, some, List, [], ◌∷◌, map, arith, ◌==◌, nat_eq, text_eq, if◌then◌else◌, filter, any,
  contains, is_none, is_empty, find?, ltb, length, length-filter_split, map-map, map_congr,
  map_same, filter_congr, filter-true, All, All-take, All-sort_by, All-filter_of, All-filter-map,
  Bool-cases, inl, inr, if-case, take,
}
use c4raven_server.Chat.{Eud, Message, Tables}
use c4raven_server.Chat.Delivery.{
  rx_grace, before, is_settled, is_pending, stamp_before, deliver_pending, last_rx_of, record_rx,
  settles, settle_device, settle_live_deliveries, drop_queue, Outcomes,
}
use c4raven_server.Chat.Delivery.Sending.{
  is_due, starts, attempts, deliver_pending_sends, deliver_pending_stamps,
}

-- A property of the due rows holds of the messages that are written.
sent-All :
    (P : Message → Type 0) (keep : Option ℕ) (t : Tables) (uid : String) (o : Outcomes) (now at : ℕ)
    (user_id : Option ℕ) (rows : List Message)
    → All P (filter (is_due keep t uid o now at user_id rows) rows)
    → All P (deliver_pending keep t uid o now at user_id rows).sent
sent-All P keep t uid o now at user_id rows h =
    subst (All P) (sym (deliver_pending_sends keep t uid o now at user_id rows).0) (
      if-case (All P) (starts keep t uid o now at user_id rows)
        (λ e. All-take P (attempts o.writes o.last_written) _ (All-sort_by P before _ h)) (λ e. tt))

module _ (keep : Option ℕ) (t : Tables) (uid : String) (o : Outcomes) (now at : ℕ)
    (user_id : Option ℕ) (rows : List Message) where
  -- A delivery on the rows that this one leaves, by whatever connection, on whatever tables and with
  -- whatever outcomes, sends none of the messages that this one has written and whose commit was
  -- taken, which are the first `writes` of the messages written.
  pub deliver_pending_once :
      (keep' : Option ℕ) (t' : Tables) (uid' : String) (o' : Outcomes) (now' at' : ℕ)
      (user' : Option ℕ)
      → let d = deliver_pending keep t uid o now at user_id rows in
        All
          (λ m. any (λ (x : Message). m.id == x.id) (take o.writes d.sent) ≡ false)
          (deliver_pending keep' t' uid' o' now' at' user' d.rows).sent
  unfolding is_pending
  deliver_pending_once keep' t' uid' o' now' at' user' =
      sent-All _ keep' t' uid' o' now' at' user' _ (
        rw (deliver_pending_stamps keep t uid o now at user_id rows)
          (All-filter-map _ _ _ (λ x h. ground arith) rows))

last_rx_of-record_rx :
    (uid : String) (at : ℕ) (euds : List Eud)
    → any (λ (e : Eud). e.uid == uid) euds ≡ true
    → last_rx_of (record_rx uid at euds) uid ≡ some at
unfolding last_rx_of record_rx find? any
last_rx_of-record_rx uid at [] h = cc
last_rx_of-record_rx uid at (e ∷ es) h = elim (Bool-cases (e.uid == uid)) [
  | inl yes' ↦ ground arith
  | inr no' ↦ ground (arith, last_rx_of-record_rx uid at es (ground arith))
]

-- Once `record_rx` has stamped a known device with the time `r`, and committed that, a delivery to it
-- with this stamp writes no message from before `r` less the grace, whoever the connection that was
-- stamped belonged to and whoever the messages are for. Data received at `r` is not always stamped:
-- `note_rx` leaves at least LAST_RX_WRITE_INTERVAL between two stamps.
pub deliver_pending-record_rx :
    (r : ℕ) (keep : Option ℕ) (t : Tables) (uid : String) (o : Outcomes) (now at : ℕ)
    (user_id : Option ℕ) (rows : List Message)
    → any (λ (e : Eud). e.uid == uid) t.euds ≡ true
    → All
        (λ m. ltb m.created_at (r - rx_grace) ≡ false)
        (deliver_pending keep
          (record t { euds = record_rx uid r t.euds })
          uid
          o
          now
          at
          user_id
          rows).sent
unfolding is_pending is_settled
deliver_pending-record_rx r keep t uid o now at user_id rows h =
    sent-All _ keep (record t { euds = record_rx uid r t.euds }) uid o now at user_id rows
      (All-filter_of _ _ (rw (last_rx_of-record_rx uid r t.euds h) (λ m k. ground arith)) rows)

filter_none : (rows : List Message) → filter (λ m. false) rows ≡ []
unfolding filter
filter_none [] = refl
filter_none (m ∷ ms) = filter_none ms

abbrev pub row_of : String → Option ℕ → Message → Bool
row_of uid none m = false
row_of uid (some limit) m = is_settled uid limit m

-- The row is one that `settle_live_deliveries` stamps for the device.
abbrev pub settles_row : Message → Eud → Bool
settles_row m e = row_of e.uid (settles e) m

abbrev pub stamp_if : ℕ → (Message → Bool) → Message → Message
stamp_if now p m = if p m then record m { delivered_at = some now } else m

settle_device_lem :
    (now : ℕ) (uid : String) (limit : Option ℕ) (rows : List Message) (n : ℕ)
    → settle_device now uid limit (rows, n)
      ≡ (map (stamp_if now (row_of uid limit)) rows, n + length (filter (row_of uid limit) rows))
unfolding settle_device stamp_before
settle_device_lem now uid none rows n =
    rw (map_same _ (λ (m : Message). refl) rows, filter_none rows)
      (ap (λ k. (rows, k)) (omega arith))
settle_device_lem now uid (some limit) rows n = refl

-- Rows that one update stamps are not stamped, or counted, by a later one.
row_of_stamped :
    (now : ℕ) (uid : String) (limit : Option ℕ) (m : Message)
    → row_of uid limit (record m { delivered_at = some now }) ≡ false
unfolding is_settled
row_of_stamped now uid none m = refl
row_of_stamped now uid (some limit) m = ground arith

settles_row_stamped :
    (now : ℕ) (es : List Eud) (m : Message)
    → any (settles_row (record m { delivered_at = some now })) es ≡ false
unfolding any
settles_row_stamped now [] m = refl
settles_row_stamped now (e ∷ es) m =
    rw (row_of_stamped now e.uid (settles e) m) (settles_row_stamped now es m)

count_split :
    (now : ℕ) (p q : Message → Bool)
    → ((m : Message) → q (record m { delivered_at = some now }) ≡ false)
    → (rows : List Message)
    → length (filter p rows) + length (filter q (map (stamp_if now p) rows))
      ≡ length (filter (λ m. p m || q m) rows)
unfolding filter
count_split now p q h [] = refl
count_split now p q h (m ∷ ms) = elim (Bool-cases (p m)) [
  | inl yes' ↦ rw (yes', h m) (ground (arith, count_split now p q h ms))
  | inr no' ↦ rw (no') (ground (arith, count_split now p q h ms))
]

-- The rows that `settle_live_deliveries` stamps are exactly the undelivered rows of some connected
-- device from before the last data received from it less TCP_USER_TIMEOUT, each counted once; the
-- others are as before.
pub settle_live_deliveries_exact :
    (now : ℕ) (euds : List Eud) (rows : List Message) (n : ℕ)
    → settle_live_deliveries now euds (rows, n) ≡ (
      map (stamp_if now (λ m. any (settles_row m) euds)) rows,
      n + length (filter (λ m. any (settles_row m) euds) rows),
    )
unfolding settle_live_deliveries any
settle_live_deliveries_exact now [] rows n =
    rw (map_same _ (λ (m : Message). refl) rows, filter_none rows)
      (ap (λ k. (rows, k)) (omega arith))
settle_live_deliveries_exact now (e ∷ es) rows n =
    rw (settle_device_lem now e.uid (settles e) rows n) (
      settle_live_deliveries_exact now es (map (stamp_if now (row_of e.uid (settles e))) rows) _
      ∙ ap₂ (λ k c. (k, c)) (map-map _ _ rows ∙ map_congr _ _ (λ m. ground arith) rows)
          (omega (
            arith,
            count_split now (row_of e.uid (settles e)) (λ m. any (settles_row m) es)
                (settles_row_stamped now es) rows,
          )))

no_names : (names : List String) → is_empty names ≡ true → (u : String) → contains names u ≡ false
unfolding contains
no_names [] h u = refl
no_names (x ∷ xs) h u = cc

if_refused : (b : Bool) (s u : List Message × ℕ) → (if b || true then s else u) ≡ s
if_refused true s u = refl
if_refused false s u = refl

dropped_lem :
    (dropped : Message → Bool) (names : List String) (rows : List Message)
    → (is_empty names ≡ true → (m : Message) → dropped m ≡ false)
    → ◌≡◌ {A = List Message × ℕ}
        (if is_empty names || false then (rows, 0) else (
          filter (λ m. not (dropped m)) rows,
          length rows - length (filter (λ m. not (dropped m)) rows),
        ))
        (filter (λ m. not (dropped m)) rows, length (filter dropped rows))
dropped_lem dropped [] rows h = sym (
    ap₂ (λ k n. (k, n)) (filter_congr _ _ (λ m. ap not (h refl m)) rows ∙ filter-true rows)
      (ap length (filter_congr _ _ (h refl) rows ∙ filter_none rows)))
dropped_lem dropped (x ∷ xs) rows h =
    ap (λ n. (filter (λ m. not (dropped m)) rows, n))
      (omega (arith, length-filter_split dropped rows))

-- What is dropped is what the listed devices have undelivered, and the result is the number of
-- these; nothing is dropped when the database refuses, or no listed uid has any text.
pub drop_queue_exact :
    (uids : List String) (rows : List Message)
    → let dropped = (λ (m : Message).
      contains (filter (λ u. not (u == "")) uids) m.recipient_uid && is_none m.delivered_at) in
      (drop_queue true uids rows
        ≡ (filter (λ m. not (dropped m)) rows, length (filter dropped rows)))
      × (drop_queue false uids rows ≡ (rows, 0))
unfolding drop_queue
drop_queue_exact uids rows = (
  dropped_lem _ (filter (λ u. not (u == "")) uids) rows
      (λ h m. rw (no_names _ h m.recipient_uid) refl),
  if_refused _ _ _,
)
