-- ===== src/Chat/Queue.antt =====
-- raven/offline_chat.py, the sending side: who a GeoChat event is addressed to, and the rows that
-- are queued for them.
pub mod Recipients
pub mod Unique
use c4raven_server.Prelude.{
  ℕ, suc, ◌+◌, String, ◌≡◌, Bool, true, false, ◌&&◌, ◌||◌, not, Option, none, some, List, [], ◌∷◌,
  ◌++◌, map, ◌==◌, nat_eq, text_eq, option_eq, if◌then◌else◌, filter, any, contains, find?,
  is_empty, leb, or_else, sort_by, is_none, length,
}
use c4raven_server.Groups.{Direction, in_, out, Group, GroupUser, direction_beq}
use c4raven_server.Chat.{Eud, Message, Dest, ChatTag, Event, Tables, Store, truthy, no_user}

abbrev pub all_chat_rooms : String
all_chat_rooms = "All Chat Rooms"

abbrev pub no_queue_platforms : List String
no_queue_platforms = "OpenTAK ICU" ∷ "Meshtastic" ∷ "DMRCOT" ∷ []

-- `GroupUser.enabled.is_(True)`
abbrev pub is_enabled : GroupUser → Bool
is_enabled m = elim m.enabled [ none ↦ false | some b ↦ b ]

-- None is nobody, [] is __ANON__.
unfoldable pub read_groups_of : Tables → Option ℕ → List String → Option (List ℕ)
read_groups_of t user_id target_groups =
    if is_empty target_groups
    then elim user_id [
      | none ↦ some []
      | some u ↦
          if u == 0
          then some []
          else some (
              sort_by leb (
                map (λ (m : GroupUser). m.group_id)
                  (filter
                    (λ (m : GroupUser).
                      m.user_id == u && direction_beq m.direction in_ && is_enabled m)
                    t.memberships)))
    ]
    else (let ids = sort_by leb (
          map (λ (g : Group). g.id)
            (filter (λ (g : Group). contains target_groups g.name) t.groups)) in
        if is_empty ids then none else some ids)

-- `_readers_where`, as the test of a device's user.
unfoldable pub is_reader : Tables → List ℕ → Option ℕ → Bool
is_reader t read_groups user_id =
    if is_empty read_groups
    then elim user_id [
      | none ↦ true
      | some u ↦
          not
            (any (λ (m : GroupUser). direction_beq m.direction out && m.user_id == u) t.memberships)
    ]
    else elim user_id [
      | none ↦ false
      | some u ↦
          any
            (λ (m : GroupUser).
              contains read_groups m.group_id
              && direction_beq m.direction out
              && is_enabled m
              && m.user_id == u)
            t.memberships
    ]

team_named : List (String × ℕ) → String → Option ℕ
team_named [] name = none
team_named ((n, id) ∷ teams) name = if n == name then some id else team_named teams name

unfoldable pub team_chat_recipients : Tables → String → String → Option (List ℕ) → List Eud
unfolding team_named
team_chat_recipients t chatroom sender_uid none = []
team_chat_recipients t chatroom sender_uid (some read_groups) = elim (team_named t.teams chatroom) [
  | none ↦ []
  | some team ↦
      filter
        (λ (e : Eud).
          e.team_id == some team && not (e.uid == sender_uid) && is_reader t read_groups e.user_id)
        t.euds
]

-- `recipients[eud.uid] = eud`
unfoldable pub put_recipient : Eud → List Eud → List Eud
put_recipient e [] = e ∷ []
put_recipient e (x ∷ xs) = if x.uid == e.uid then e ∷ xs else x ∷ put_recipient e xs

put_found : Option Eud → List Eud → List Eud
unfolding put_recipient
put_found none rs = rs
put_found (some e) rs = put_recipient e rs

-- one <dest> tag: ATAK/WinTAK address by callsign, iTAK by uid
dest_step : Tables → String → Dest → Bool × List Eud → Bool × List Eud
unfolding put_found
dest_step t sender_uid d (has_dest, rs) =
    if d.mission
    then (has_dest, rs)
    else if truthy d.callsign
    then (true, put_found (find? (λ (e : Eud). e.callsign == d.callsign) t.euds) rs)
    else if truthy d.uid && not (d.uid == some sender_uid)
    then (true, put_found (find? (λ (e : Eud). some e.uid == d.uid) t.euds) rs)
    else (has_dest, rs)

-- the loop over the <dest> tags: whether one addressed anybody, and the devices found so far
unfoldable pub dest_loop : Tables → String → List Dest → Bool × List Eud → Bool × List Eud
unfolding dest_step
dest_loop t sender_uid [] s = s
dest_loop t sender_uid (d ∷ ds) s = dest_loop t sender_uid ds (dest_step t sender_uid d s)

put_all : List Eud → List Eud → List Eud
unfolding put_recipient
put_all [] rs = rs
put_all (e ∷ es) rs = put_all es (put_recipient e rs)

without_sender : String → List Eud → List Eud
without_sender sender_uid rs = filter (λ (e : Eud). not (e.uid == sender_uid)) rs

-- the event's chat tag, once it and the remarks are there
address_chat :
    Tables → Event → ChatTag → String → Option ℕ → List String → List Eud × Option (List ℕ)
unfolding put_all without_sender dest_loop
address_chat t event chat sender_uid user_id target_groups =
    if chat.id == some all_chat_rooms || chat.chatroom == some all_chat_rooms
    then ([], none)
    else (let (has_dest, rs) = dest_loop t sender_uid event.dests (false, []) in
        if not has_dest && truthy chat.chatroom
        then (let read_groups = read_groups_of t user_id target_groups in
            let room = or_else chat.chatroom "" in
            (
              without_sender sender_uid
                  (put_all (team_chat_recipients t room sender_uid read_groups) rs),
              read_groups,
            ))
        else (without_sender sender_uid rs, none))

unfoldable pub addressing :
    Tables → Event → String → Option ℕ → List String → List Eud × Option (List ℕ)
unfolding address_chat
addressing t event sender_uid user_id target_groups =
    if event.has_remarks
    then elim event.chat [
      | none ↦ ([], none)
      | some chat ↦ address_chat t event chat sender_uid user_id target_groups
    ]
    else ([], none)

-- `eud.platform not in NO_QUEUE_PLATFORMS and not eud.federated_from`
unfoldable pub may_queue : Eud → Bool
may_queue e =
    not (elim e.platform [ none ↦ false | some p ↦ contains no_queue_platforms p ])
    && not (truthy e.federated_from)

-- The row for one device; the database numbers it.
abbrev pub new_message : Event → String → String → Option (List ℕ) → ℕ → ℕ → Eud → Message
new_message event message_uid sender_uid read_groups now id e = record {
  id = id;
  recipient_uid = e.uid;
  recipient_user_id = e.user_id;
  read_groups = read_groups;
  sender_uid = sender_uid;
  chatroom_id = elim event.chat [ none ↦ none | some chat ↦ chat.id ];
  message_uid = message_uid;
  xml = event.xml;
  created_at = now;
  delivered_at = none;
}

-- the loop over the recipients: the rows to add
unfoldable pub add_messages :
    (ℕ → Eud → Message) → (already : List String) → ℕ → List Eud → List Message
add_messages make already id [] = []
add_messages make already id (e ∷ es) =
    let rest = add_messages make already (suc id) es in
    let same = add_messages make already id es in
    if contains already e.uid then same else make id e ∷ rest

-- `commits` is whether the database takes the commit: if not (another worker queued the same
-- message, or any other error) the session is rolled back and the result is 0.
unfoldable pub queue_offline_chat :
    (commits : Bool)
    → Tables
    → Event
    → Option String
    → Option ℕ
    → (now : ℕ) → List String
    → Store
    → Store × ℕ
queue_offline_chat commits t event sender user_id now target_groups s =
    if not (truthy event.uid) || not (truthy sender)
    then (s, 0)
    else (let message_uid = or_else event.uid "" in
        let sender_uid = or_else sender "" in
        let (addressed, read_groups) = addressing t event sender_uid user_id target_groups in
        let recipients = filter may_queue addressed in
        let uids = map (λ (e : Eud). e.uid) recipients in
        let already =
          map (λ (m : Message). m.recipient_uid)
            (filter (λ (m : Message). m.message_uid == message_uid && contains uids m.recipient_uid)
              s.rows) in
        let new =
          add_messages (new_message event message_uid sender_uid read_groups now) already s.next_id
            recipients in
        if is_empty recipients || not commits
        then (s, 0)
        else (record { rows = s.rows ++ new; next_id = s.next_id + length new }, length new))
