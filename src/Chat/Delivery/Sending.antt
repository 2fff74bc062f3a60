-- ===== src/Chat/Delivery/Sending.antt =====
-- `deliver_pending`: what is written to the device's socket, in which order, and what of it is
-- stamped.
use c4raven_server.Prelude.{
  ℕ, zero, suc, ◌-◌, String, ◌≡◌, ◌⊎◌, refl, sym, ◌∙◌, ap, Bool, true, false, ◌&&◌, ◌||◌, not,
  Option, none, some, List, [], ◌∷◌, map, arith, ◌==◌, nat_eq, text_eq, option_eq, if◌then◌else◌,
  filter, any, take, length, sort_by, IsSorted, sort_by-IsSorted, filter-sort_by, filter-filter,
  filter-map_out, filter_congr, is_none, map-map, map_congr, map_same, Bool-cases, inl, inr, leb,
}
use c4raven_server.Chat.{Message, Tables}
use c4raven_server.Chat.Delivery.{
  rx_grace, entitled, before, is_pending, pending_messages, is_settled, stamp_before,
  mark_delivered, send_loop, last_rx_of, Outcomes, settle_on_reconnect, deliver_pending,
}

-- The rows that the reconnect cut-off settles: older than the device's last data, less the grace.
abbrev pub is_past : Option ℕ → String → Message → Bool
is_past none uid m = false
is_past (some last_rx) uid m = is_settled uid (last_rx - rx_grace) m

-- The messages that are written: those that are committed and, when a commit raises, one more.
abbrev pub attempts : ℕ → Bool → ℕ
attempts writes true = suc writes
attempts writes false = writes

module _ (t : Tables) (user_id : Option ℕ) (at : ℕ) where
  sent-send_loop :
      (writes : ℕ) (last_written : Bool) (ms rows : List Message)
      → (send_loop t user_id at writes last_written ms rows).sent
        ≡ take (attempts writes last_written) (filter (entitled t user_id) ms)
  unfolding send_loop filter
  sent-send_loop zero true [] rows = refl
  sent-send_loop zero false [] rows = refl
  sent-send_loop (suc writes) true [] rows = refl
  sent-send_loop (suc writes) false [] rows = refl
  sent-send_loop zero true (m ∷ ms) rows = ground (arith, sent-send_loop zero true ms rows)
  sent-send_loop zero false (m ∷ ms) rows = ground (arith, sent-send_loop zero false ms rows)
  sent-send_loop (suc writes) true (m ∷ ms) rows = ground (
    arith,
    sent-send_loop (suc writes) true ms rows,
    sent-send_loop writes true ms (map (mark_delivered at m.id) rows),
  )
  sent-send_loop (suc writes) false (m ∷ ms) rows = ground (
    arith,
    sent-send_loop (suc writes) false ms rows,
    sent-send_loop writes false ms (map (mark_delivered at m.id) rows),
  )

  complete-send_loop :
      (writes : ℕ) (w : Bool) (ms rows : List Message)
      → (send_loop t user_id at writes w ms rows).complete
        ≡ leb (length (filter (entitled t user_id) ms)) writes
  unfolding send_loop filter
  complete-send_loop zero w [] rows = ground arith
  complete-send_loop (suc writes) w [] rows = ground arith
  complete-send_loop zero w (m ∷ ms) rows = ground (arith, complete-send_loop zero w ms rows)
  complete-send_loop (suc writes) w (m ∷ ms) rows = ground (
    arith,
    complete-send_loop (suc writes) w ms rows,
    complete-send_loop writes w ms (map (mark_delivered at m.id) rows),
  )

-- A row whose id is among those of the sent messages is stamped.
abbrev pub mark_sent : ℕ → List Message → Message → Message
mark_sent at sent m =
    if any (λ (x : Message). m.id == x.id) sent then record m { delivered_at = some at } else m

mark_sent-mark_delivered :
    (at : ℕ) (x : Message) (sent : List Message) (m : Message)
    → mark_sent at sent (mark_delivered at x.id m) ≡ mark_sent at (x ∷ sent) m
unfolding mark_delivered any
mark_sent-mark_delivered at x sent m = ground arith

mark_sent-none : (at : ℕ) (m : Message) → mark_sent at [] m ≡ m
unfolding any
mark_sent-none at m = refl

rows-send_loop :
    (t : Tables) (user_id : Option ℕ) (at : ℕ) (writes : ℕ) (w : Bool) (ms rows : List Message)
    → (send_loop t user_id at writes w ms rows).rows
      ≡ map (mark_sent at (take writes (send_loop t user_id at writes w ms rows).sent)) rows
unfolding send_loop
rows-send_loop t user_id at zero w [] rows = sym (map_same _ (mark_sent-none at) rows)
rows-send_loop t user_id at (suc writes) w [] rows = sym (map_same _ (mark_sent-none at) rows)
rows-send_loop t user_id at zero w (m ∷ ms) rows = elim (Bool-cases (entitled t user_id m)) [
  | inl e ↦ rw (e) (sym (map_same _ (mark_sent-none at) rows))
  | inr e ↦ rw (e) (rows-send_loop t user_id at zero w ms rows)
]
rows-send_loop t user_id at (suc writes) w (m ∷ ms) rows =
    elim (Bool-cases (entitled t user_id m)) [
      | inl e ↦ rw (e) (
          rows-send_loop t user_id at writes w ms (map (mark_delivered at m.id) rows)
          ∙ map-map _ _ rows
          ∙ map_congr _ _ (mark_sent-mark_delivered at m _) rows)
      | inr e ↦ rw (e) (rows-send_loop t user_id at (suc writes) w ms rows)
    ]

before_total : (a b : Message) → before a b ≡ false → before b a ≡ true
before_total a b h = ground arith

before_trans : (a b c : Message) → before a b ≡ true → before b c ≡ true → before a c ≡ true
before_trans a b c h k = ground arith

stamp_sent :
    (at : ℕ) (uid : String) (sent : List Message) (last : Option ℕ) (rows : List Message)
    → map (mark_sent at sent) (settle_on_reconnect at uid last rows)
      ≡ map
          (λ m.
            if is_past last uid m || any (λ (x : Message). m.id == x.id) sent
            then record m { delivered_at = some at }
            else m)
          rows
unfolding settle_on_reconnect stamp_before
stamp_sent at uid sent none rows = refl
stamp_sent at uid sent (some last) rows = map-map _ _ rows ∙ map_congr _ _ (λ m. ground arith) rows

-- A settled row is no longer pending, and the others are as they were.
stamp_before_out :
    (keep : Option ℕ) (now at : ℕ) (uid : String) (limit : ℕ) (m : Message)
    → (stamp_before at uid limit m ≡ m)
        × (is_pending keep now uid m ≡ (is_pending keep now uid m && not (is_settled uid limit m)))
      ⊎ (is_pending keep now uid (stamp_before at uid limit m) ≡ false)
        × ((is_pending keep now uid m && not (is_settled uid limit m)) ≡ false)
unfolding stamp_before is_pending
stamp_before_out keep now at uid limit m = elim (Bool-cases (is_settled uid limit m)) [
  | inl e ↦ inr (ground arith, ground arith)
  | inr e ↦ inl (ground arith, ground arith)
]

nothing_sent : (n : ℕ) (m : Message) → any (λ (x : Message). m.id == x.id) (take n []) ≡ false
unfolding any
nothing_sent zero m = refl
nothing_sent (suc n) m = refl

module _ (keep : Option ℕ) (t : Tables) (uid : String) (o : Outcomes) (now at : ℕ)
    (user_id : Option ℕ) (rows : List Message) where
  -- The rows as the reconnect cut-off leaves them.
  abbrev settled : List Message
  settled = settle_on_reconnect at uid (last_rx_of t.euds uid) rows

  -- What is held for the device, newer than its last data, and meant for this connection.
  abbrev pub is_due : Message → Bool
  is_due m =
      is_pending keep now uid m
      && not (is_past (last_rx_of t.euds uid) uid m)
      && entitled t user_id m

  pending_settled :
      (last : Option ℕ)
      → filter (is_pending keep now uid) (settle_on_reconnect at uid last rows)
        ≡ filter (λ m. is_pending keep now uid m && not (is_past last uid m)) rows
  unfolding settle_on_reconnect
  pending_settled none = filter_congr _ _ (λ m. ground arith) rows
  pending_settled (some last) =
      filter-map_out (is_pending keep now uid) _ (stamp_before at uid (last - rx_grace))
        (stamp_before_out keep now at uid (last - rx_grace)) rows

  due_lem :
      filter (entitled t user_id) (pending_messages keep now uid settled)
      ≡ sort_by before (filter is_due rows)
  unfolding pending_messages
  due_lem =
      filter-sort_by before before_total before_trans (entitled t user_id) _
      ∙ ap (λ r. sort_by before (filter (entitled t user_id) r))
          (pending_settled (last_rx_of t.euds uid))
      ∙ ap (sort_by before) (filter-filter (entitled t user_id) _ rows)

  -- The delivery gets to its loop: the cut-off has nothing to settle, or its commit is taken.
  abbrev pub starts : Bool
  starts = is_none (last_rx_of t.euds uid) || o.settle_commits

  -- When the cut-off's update raises, nothing is written. Otherwise the messages written are the due
  -- ones, oldest first (ties by id), up to the first write or commit that raises; the message whose
  -- commit raises is written. The call comes to its end exactly when none of these raises.
  pub deliver_pending_sends :
      let due = sort_by before (filter is_due rows) in
      let d = deliver_pending keep t uid o now at user_id rows in
      (d.sent ≡ (if starts then take (attempts o.writes o.last_written) due else []))
      × (d.complete ≡ (starts && leb (length due) o.writes))
      × IsSorted before due
  unfolding deliver_pending
  deliver_pending_sends = (
    elim (Bool-cases starts) [
      | inl e ↦ rw (e) (
          sent-send_loop t user_id at o.writes o.last_written _ settled
          ∙ ap (take (attempts o.writes o.last_written)) due_lem)
      | inr e ↦ rw (e) refl
    ],
    elim (Bool-cases starts) [
      | inl e ↦ rw (e) (
          complete-send_loop t user_id at o.writes o.last_written _ settled
          ∙ ap (λ r. leb (length r) o.writes) due_lem)
      | inr e ↦ rw (e) refl
    ],
    sort_by-IsSorted before before_total before_trans (filter is_due rows),
  )

  -- Exactly these rows are stamped: those that the cut-off settles, when its commit is taken, and
  -- those of the messages that were written and whose commit was taken, which are the first `writes`
  -- of the messages written. The others are as before, so what a failed write or commit leaves is
  -- there for the next connection.
  pub deliver_pending_stamps :
      let d = deliver_pending keep t uid o now at user_id rows in
      d.rows
      ≡ map
          (λ m.
            if starts && is_past (last_rx_of t.euds uid) uid m
              || any (λ (x : Message). m.id == x.id) (take o.writes d.sent)
            then record m { delivered_at = some at }
            else m)
          rows
  unfolding deliver_pending
  deliver_pending_stamps = elim (Bool-cases starts) [
    | inl e ↦ rw (e) (
        rows-send_loop t user_id at o.writes o.last_written _ settled
        ∙ stamp_sent at uid _ (last_rx_of t.euds uid) rows)
    | inr e ↦ rw (e) (sym (map_same _ (λ m. ground (arith, nothing_sent o.writes m)) rows))
  ]
