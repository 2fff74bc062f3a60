-- ===== src/Chat/Examples.antt =====
-- Tests of the offline chat on small tables, and its theorems at these tables.
use c4raven_server.Prelude.{
  ℕ, ◌-◌, String, ◌≡◌, refl, Bool, true, false, ◌&&◌, ◌||◌, Option, none, some, List, [], ◌∷◌, map,
  ◌==◌, nat_eq, text_eq, filter, any, contains, take, length, sort_by, leb, ltb, if◌then◌else◌,
  find?, All, IsSorted,
}
use c4raven_server.Groups.{in_, out, direction_eq}
use c4raven_server.Chat.{Eud, Message, Dest, Event, Tables, Store}
use c4raven_server.Chat.Queue.{
  queue_offline_chat, addressing, read_groups_of, dest_loop, team_chat_recipients, put_recipient,
  is_reader, may_queue, add_messages,
}
use c4raven_server.Chat.Queue.Unique.{
  has_copy, HasOneCopyEach, recipients_of, queue_offline_chat-HasOneCopyEach,
  has_copy-queue_offline_chat,
}
use c4raven_server.Chat.Delivery.{
  Outcomes, mark_delivered, before, deliver_pending, record_rx, rx_grace, settle_live_deliveries,
  drop_queue, pending_messages, is_pending, entitled, send_loop, last_rx_of, stamp_before,
  is_settled, settles,
}
use c4raven_server.Chat.Delivery.Sending.{
  is_past, is_due, starts, attempts, deliver_pending_sends, deliver_pending_stamps,
}
use c4raven_server.Chat.Delivery.Settling.{deliver_pending_once, deliver_pending-record_rx}

abbrev device : String → String → Option ℕ → Option ℕ → Option ℕ → Bool → Eud
device uid callsign user team last_rx connected = record {
  uid = uid;
  callsign = some callsign;
  platform = some "ATAK-CIV";
  user_id = user;
  team_id = team;
  federated_from = none;
  last_rx_at = last_rx;
  connected = connected;
}

abbrev alpha : Eud
alpha = device "A" "ALPHA" (some 1) (some 5) (some 1000) true

abbrev bravo : Eud
bravo = device "B" "BRAVO" (some 2) (some 5) none false

abbrev bridge : Eud
bridge = record (device "M" "MESH" none none none false) { platform = some "Meshtastic" }

abbrev tables : Tables
tables = record {
  euds = alpha ∷ bravo ∷ bridge ∷ [];
  teams = ("Cyan", 5) ∷ [];
  groups = [];
  memberships =
      record { user_id = 1; group_id = 10; direction = in_; enabled = some true; expires_at = none }
      ∷ record {
        user_id = 2;
        group_id = 10;
        direction = out;
        enabled = some true;
        expires_at = none;
      }
      ∷ [];
}

abbrev chat_to : List Dest → Event
chat_to dests = record {
  uid = some "GeoChat.A.B.1";
  chat = some (record { id = some "B"; chatroom = some "Cyan" });
  has_remarks = true;
  dests = dests;
  xml = "<event/>";
}

abbrev to_bravo : Event
to_bravo = chat_to (
    record { mission = false; callsign = some "BRAVO"; uid = none }
    ∷ record { mission = false; callsign = none; uid = some "B" }
    ∷ record { mission = false; callsign = none; uid = some "M" }
    ∷ [])

abbrev nothing : Store
nothing = record { rows = []; next_id = 1 }

abbrev held : ℕ → String → Option ℕ → ℕ → Message
held id uid user created = record {
  id = id;
  recipient_uid = uid;
  recipient_user_id = user;
  read_groups = none;
  sender_uid = "A";
  chatroom_id = none;
  message_uid = "GeoChat.1";
  xml = "<event/>";
  created_at = created;
  delivered_at = none;
}

-- two messages for user 2 on device B, the newer one first, and one for device A
abbrev queue : List Message
queue = held 1 "B" (some 2) 900 ∷ held 2 "B" (some 2) 800 ∷ held 3 "A" (some 1) 100 ∷ []

abbrev all_taken : Outcomes
all_taken = record { settle_commits = true; writes = 5; last_written = false }

-- the second message is written and its commit raises
abbrev one_taken : Outcomes
one_taken = record { settle_commits = true; writes = 1; last_written = true }

-- tests

queue_test :
    map
      (λ (m : Message). m.recipient_uid)
      (queue_offline_chat true tables to_bravo (some "A") (some 1) 50 [] nothing).0.rows
    ≡ "B" ∷ []
unfolding queue_offline_chat addressing dest_loop find? put_recipient filter may_queue add_messages
    read_groups_of sort_by contains
queue_test = refl

team_test :
    map
      (λ (m : Message). m.recipient_uid)
      (queue_offline_chat true tables (chat_to []) (some "A") (some 1) 50 [] nothing).0.rows
    ≡ "B" ∷ []
unfolding queue_offline_chat addressing dest_loop find? put_recipient filter may_queue add_messages
    read_groups_of sort_by team_chat_recipients is_reader any contains
team_test = refl

deliver_test :
    map
      (λ (m : Message). m.id)
      (deliver_pending none tables "B" all_taken 1000 1000 (some 2) queue).sent
    ≡ 2 ∷ 1 ∷ []
unfolding deliver_pending pending_messages last_rx_of find? filter is_pending sort_by send_loop
    entitled
deliver_test = refl

other_user_test : (deliver_pending none tables "B" all_taken 1000 1000 (some 3) queue).sent ≡ []
unfolding deliver_pending pending_messages last_rx_of find? filter is_pending sort_by send_loop
    entitled
other_user_test = refl

-- Another user's connection leaves the messages queued, but once it has sent data the recipient's own
-- delivery writes none of them and stamps them delivered.
lost_test :
    let first = deliver_pending none tables "B" all_taken 1000 1000 (some 3) queue in
    let later = record tables { euds = record_rx "B" 1010 tables.euds } in
    let second = deliver_pending none later "B" all_taken 1100 1100 (some 2) first.rows in
    (map (λ (m : Message). m.delivered_at) first.rows ≡ none ∷ none ∷ none ∷ [])
    × (second.sent ≡ [])
    × (map (λ (m : Message). m.delivered_at) second.rows ≡ some 1100 ∷ some 1100 ∷ none ∷ [])
unfolding deliver_pending pending_messages last_rx_of find? filter is_pending sort_by send_loop
    entitled record_rx stamp_before is_settled
lost_test = (refl, refl, refl)

-- A commit that raises after a write: the message is on the socket, its row still pending, and the
-- next delivery writes it again.
lost_commit_test :
    let first = deliver_pending none tables "B" one_taken 1000 1000 (some 2) queue in
    let second = deliver_pending none tables "B" all_taken 1000 1000 (some 2) first.rows in
    (map (λ (m : Message). m.id) first.sent ≡ 2 ∷ 1 ∷ [])
    × (first.complete ≡ false)
    × (map (λ (m : Message). m.id) second.sent ≡ 1 ∷ [])
unfolding deliver_pending pending_messages last_rx_of find? filter is_pending sort_by send_loop
    entitled mark_delivered
lost_commit_test = (refl, refl, refl)

settle_test : (settle_live_deliveries 2000 tables.euds (queue, 0)).1 ≡ 1
unfolding settle_live_deliveries filter is_settled settles stamp_before
settle_test = refl

drop_test : (drop_queue true ("B" ∷ "" ∷ []) queue).1 ≡ 2
unfolding drop_queue filter contains
drop_test = refl

-- the theorems at these tables

queue_offline_chat-HasOneCopyEach_example :
    HasOneCopyEach
      (queue_offline_chat true tables to_bravo (some "A") (some 1) 50 [] nothing).0.rows
queue_offline_chat-HasOneCopyEach_example =
    queue_offline_chat-HasOneCopyEach true tables to_bravo (some "A") (some 1) 50 [] nothing tt

has_copy-queue_offline_chat_example :
    has_copy "GeoChat.A.B.1" "B"
      (queue_offline_chat true tables to_bravo (some "A") (some 1) 50 [] nothing).0.rows
    ≡ (has_copy "GeoChat.A.B.1" "B" []
        || ◌==◌ {A = String} "GeoChat.A.B.1" "GeoChat.A.B.1"
          && any (λ (e : Eud). "B" == e.uid) (recipients_of tables to_bravo (some "A") (some 1) []))
unfolding any addressing dest_loop find? put_recipient filter may_queue contains
has_copy-queue_offline_chat_example =
    has_copy-queue_offline_chat true tables to_bravo (some "A") (some 1) 50 [] nothing refl
      "GeoChat.A.B.1" "B"

deliver_pending_sends_example :
    let due =
      sort_by before (filter (is_due none tables "B" one_taken 1000 1000 (some 2) queue) queue) in
    let d = deliver_pending none tables "B" one_taken 1000 1000 (some 2) queue in
    let begins = starts none tables "B" one_taken 1000 1000 (some 2) queue in
    (d.sent ≡ (if begins then take (attempts 1 true) due else []))
    × (d.complete ≡ (begins && leb (length due) 1))
    × IsSorted before due
deliver_pending_sends_example =
    deliver_pending_sends none tables "B" one_taken 1000 1000 (some 2) queue

deliver_pending_stamps_example :
    let d = deliver_pending none tables "B" one_taken 1000 1000 (some 2) queue in
    d.rows
    ≡ map
        (λ m.
          if starts none tables "B" one_taken 1000 1000 (some 2) queue
              && is_past (last_rx_of tables.euds "B") "B" m
            || any (λ (x : Message). m.id == x.id) (take 1 d.sent)
          then record m { delivered_at = some 1000 }
          else m)
        queue
deliver_pending_stamps_example =
    deliver_pending_stamps none tables "B" one_taken 1000 1000 (some 2) queue

deliver_pending_once_example :
    let d = deliver_pending none tables "B" one_taken 1000 1000 (some 2) queue in
    All
      (λ m. any (λ (x : Message). m.id == x.id) (take 1 d.sent) ≡ false)
      (deliver_pending none tables "B" all_taken 1100 1100 (some 2) d.rows).sent
deliver_pending_once_example =
    deliver_pending_once none tables "B" one_taken 1000 1000 (some 2) queue none tables "B"
      all_taken 1100 1100 (some 2)

deliver_pending-record_rx_example :
    All
      (λ m. ltb m.created_at (1010 - rx_grace) ≡ false)
      (deliver_pending none
        (record tables { euds = record_rx "B" 1010 tables.euds })
        "B"
        all_taken
        1100
        1100
        (some 2)
        queue).sent
unfolding any
deliver_pending-record_rx_example =
    deliver_pending-record_rx 1010 none tables "B" all_taken 1100 1100 (some 2) queue refl
