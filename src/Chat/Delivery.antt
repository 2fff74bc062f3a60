-- ===== src/Chat/Delivery.antt =====
-- raven/offline_chat.py, the receiving side: what a device gets when it connects, and which rows
-- are settled without being sent.
pub mod Sending
pub mod Settling
use c4raven_server.Prelude.{
  ℕ, zero, suc, ◌+◌, ◌-◌, String, ◌≡◌, Bool, true, false, ◌&&◌, ◌||◌, not, Option, none, some, List,
  [], ◌∷◌, ◌++◌, map, ◌==◌, nat_eq, text_eq, option_eq, if◌then◌else◌, filter, any, contains, find?,
  is_empty, ltb, leb, sort_by, is_none, length,
}
use c4raven_server.Groups.{Direction, in_, out, GroupUser, direction_beq}
use c4raven_server.Chat.{Eud, Message, Tables, Store, no_user}
use c4raven_server.Chat.Queue.{is_enabled}

-- TCP_USER_TIMEOUT and RX_GRACE, in seconds
abbrev pub tcp_user_timeout : ℕ
tcp_user_timeout = 30

abbrev pub rx_grace : ℕ
rx_grace = 5

unfoldable pub user_reads : Tables → Option ℕ → List ℕ → Bool
user_reads t user_id read_groups =
    if is_empty read_groups
    then elim user_id [
      | none ↦ true
      | some u ↦
          if u == 0
          then true
          else not (
              any (λ (m : GroupUser). m.user_id == u && direction_beq m.direction out)
                t.memberships)
    ]
    else elim user_id [
      | none ↦ false
      | some u ↦
          if u == 0
          then false
          else any
              (λ (m : GroupUser).
                m.user_id == u
                && contains read_groups m.group_id
                && direction_beq m.direction out
                && is_enabled m)
              t.memberships
    ]

-- The memberships do not change during a delivery, so the cache of the source is not modelled.
unfoldable pub entitled : Tables → Option ℕ → Message → Bool
entitled t user_id m =
    if not (is_none m.recipient_user_id) && not (m.recipient_user_id == user_id)
    then false
    else elim m.read_groups [ none ↦ true | some groups ↦ user_reads t user_id groups ]

-- ORDER BY created_at, id
abbrev pub before : Message → Message → Bool
before a b = ltb a.created_at b.created_at || a.created_at == b.created_at && leb a.id b.id

-- Undelivered, and not older than the retention `keep` (None is forever).
unfoldable pub is_pending : (keep : Option ℕ) → (now : ℕ) → String → Message → Bool
is_pending keep now uid m =
    m.recipient_uid == uid
    && is_none m.delivered_at
    && (elim keep [ none ↦ true | some seconds ↦ leb (now - seconds) m.created_at ])

unfoldable pub pending_messages :
    (keep : Option ℕ) → (now : ℕ) → String → List Message → List Message
pending_messages keep now uid rows = sort_by before (filter (is_pending keep now uid) rows)

-- The WHERE clause of the two UPDATEs: the undelivered rows of `uid` from before `limit`.
unfoldable pub is_settled : String → ℕ → Message → Bool
is_settled uid limit m = m.recipient_uid == uid && is_none m.delivered_at && ltb m.created_at limit

unfoldable pub stamp_before : ℕ → String → ℕ → Message → Message
stamp_before at uid limit m =
    if is_settled uid limit m then record m { delivered_at = some at } else m

-- `message.delivered_at = utcnow_naive()` of one row
unfoldable pub mark_delivered : ℕ → ℕ → Message → Message
mark_delivered at id m = if m.id == id then record m { delivered_at = some at } else m

-- What the socket and the database do during a delivery. The first call of them that raises ends it:
-- `settle_commits` is false when that is the update of the cut-off or its commit; otherwise `writes`
-- messages are written and their stamps committed, and the call that raises is, in the next one,
-- the commit of the stamp when `last_written`, else the write.
pub record Outcomes : Type 0 where
  pub settle_commits : Bool
  pub writes : ℕ
  pub last_written : Bool

-- What a delivery leaves: the committed rows, the messages written to the socket, and whether it came
-- to its end (or a write or a commit raised, and the exception left the function).
pub record Delivered : Type 0 where
  pub rows : List Message
  pub sent : List Message
  pub complete : Bool

abbrev pub if_written : Bool → Message → List Message
if_written true m = m ∷ []
if_written false m = []

-- The loop of `deliver_pending`; `writes` more messages are written and committed before a write
-- raises, or a commit whose message has been written (`last_written`).
unfoldable pub send_loop :
    Tables
    → Option ℕ
    → (at : ℕ) → (writes : ℕ) → (last_written : Bool) → List Message
    → List Message
    → Delivered
send_loop t user_id at writes last_written [] rows = record {
  rows = rows;
  sent = [];
  complete = true;
}
send_loop t user_id at zero last_written (m ∷ ms) rows =
    let rest = send_loop t user_id at zero last_written ms rows in
    if entitled t user_id m
    then record { rows = rows; sent = if_written last_written m; complete = false }
    else rest
send_loop t user_id at (suc writes) last_written (m ∷ ms) rows =
    let skipped = send_loop t user_id at (suc writes) last_written ms rows in
    let rest = send_loop t user_id at writes last_written ms (map (mark_delivered at m.id) rows) in
    if entitled t user_id m then record rest { sent = m ∷ rest.sent } else skipped

-- `select(EUD.last_rx_at).where(EUD.uid == uid)`
unfoldable pub last_rx_of : List Eud → String → Option ℕ
last_rx_of euds uid = elim (find? (λ (e : Eud). e.uid == uid) euds) [
  | none ↦ none
  | some e ↦ e.last_rx_at
]

settle_on_reconnect : ℕ → String → Option ℕ → List Message → List Message
settle_on_reconnect at uid none rows = rows
settle_on_reconnect at uid (some last_rx) rows = map (stamp_before at uid (last_rx - rx_grace)) rows

unfoldable pub deliver_pending :
    (keep : Option ℕ)
    → Tables
    → String
    → Outcomes
    → (now at : ℕ) → Option ℕ
    → List Message
    → Delivered
unfolding settle_on_reconnect
deliver_pending keep t uid o now at user_id rows =
    let last_rx = last_rx_of t.euds uid in
    let settled = settle_on_reconnect at uid last_rx rows in
    if is_none last_rx || o.settle_commits
    then send_loop t user_id at o.writes o.last_written (pending_messages keep now uid settled)
        settled
    else record { rows = rows; sent = []; complete = false }

-- The rows of euds after `record_rx` and its commit.
unfoldable pub record_rx : String → ℕ → List Eud → List Eud
record_rx uid at euds =
    map (λ (e : Eud). if e.uid == uid then record e { last_rx_at = some at } else e) euds

-- The devices that `settle_live_deliveries` selects, with what it compares with.
unfoldable pub settles : Eud → Option ℕ
settles e =
    if e.connected
    then (elim e.last_rx_at [ none ↦ none | some last_rx ↦ some (last_rx - tcp_user_timeout) ])
    else none

settle_device : ℕ → String → Option ℕ → List Message × ℕ → List Message × ℕ
settle_device now uid none (rows, settled) = (rows, settled)
settle_device now uid (some limit) (rows, settled) =
    (map (stamp_before now uid limit) rows, settled + length (filter (is_settled uid limit) rows))

-- The source also leaves out the devices with no undelivered row, for which there is nothing to
-- stamp. The rows are those after the commit at its end.
unfoldable pub settle_live_deliveries : ℕ → List Eud → List Message × ℕ → List Message × ℕ
unfolding settle_device
settle_live_deliveries now [] s = s
settle_live_deliveries now (e ∷ es) s =
    settle_live_deliveries now es (settle_device now e.uid (settles e) s)

-- The falsy uids are dropped from the list first; the comparison with "" does that here.
unfoldable pub drop_queue : (commits : Bool) → List String → List Message → List Message × ℕ
drop_queue commits uids rows =
    let named = filter (λ u. not (u == "")) uids in
    let kept =
      filter (λ (m : Message). not (contains named m.recipient_uid && is_none m.delivered_at))
        rows in
    if is_empty named || not commits then (rows, 0) else (kept, length rows - length kept)
