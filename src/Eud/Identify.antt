-- ===== src/Eud/Identify.antt =====
-- `parse_device_info` of raven/eud_handler/EudHandler.py: the first CoT with a <contact> says which
-- device the connection serves, and its queues are bound. Teams and the Meshtastic id and address
-- of the row are left out, as are the commands that wait for the device, which are Eud.Commands.
use c4raven_server.Prelude.{
  ℕ, String, Bool, true, false, ◌&&◌, ◌||◌, not, Option, none, some, List, [], ◌∷◌, ◌++◌, map, ◌==◌,
  nat_eq, text_eq, option_eq, if◌then◌else◌, filter, find?, contains, is_none, or_else, append,
}
use c4raven_server.Chat.{truthy}
use c4raven_server.Groups.{Group, GroupUser, out, direction_beq}
use c4raven_server.Eud.Session.{
  User, Contact, Takv, Event, Device, Binding, binding_eq, binds, delivers_chat, announces, Session,
  emit, user_id_of, is_opened, is_uid,
}
use c4raven_server.Eud.Login.{get_or_create_eud, is_taken}

unfoldable pub ends_with : String → String → Bool
ends_with String.[] t = String.[] == t
ends_with (String.◌∷◌ c s) t = String.◌∷◌ c s == t || ends_with s t

abbrev pub platform_of : Option Takv → Option String
platform_of none = none
platform_of (some t) = t.platform

-- the platforms that get no queue, NO_QUEUE_PLATFORMS of offline_chat.py
abbrev pub has_no_queue : Option String → Bool
has_no_queue p = p == some "OpenTAK ICU" || p == some "Meshtastic" || p == some "DMRCOT"

abbrev pub group_name : List Group → ℕ → String
group_name groups id = elim (find? (λ (g : Group). g.id == id) groups) [
  | none ↦ ""
  | some g ↦ g.name
]

abbrev pub reads_for : ℕ → GroupUser → Bool
reads_for user_id m = m.user_id == user_id && direction_beq m.direction out

abbrev pub group_binding : String → String → Binding
group_binding uid name = record {
  exchange = "groups";
  routing_key = append name ".OUT";
  queue = uid;
}

-- the test before a binding is added to `bound_queues`
unfoldable pub remember : Binding → List Binding → List Binding
remember b bs = if contains bs b then bs else bs ++ (b ∷ [])

unfoldable pub bind : Binding → Session → Session
unfolding remember
bind b s = emit (binds b ∷ []) (record s { bound_queues = remember b s.bound_queues })

-- a disabled membership is remembered and not bound
unfoldable pub bind_memberships : List Group → String → List GroupUser → Session → Session
unfolding remember
bind_memberships groups uid [] s = s
bind_memberships groups uid (m ∷ ms) s =
    let b = group_binding uid (group_name groups m.group_id) in
    bind_memberships groups uid ms (
      if or_else m.enabled false
      then bind b s
      else record s { bound_queues = remember b s.bound_queues })

unfoldable pub bind_groups : List Group → String → List GroupUser → Session → Session
unfolding bind_memberships remember
bind_groups groups uid [] s = bind (group_binding uid "__ANON__") s
bind_groups groups uid (m ∷ ms) s = bind_memberships groups uid (m ∷ ms) s

unfoldable pub bind_ssl_groups :
    List Group → List GroupUser → String → Option User → Session → Session
unfolding bind_groups
bind_ssl_groups groups memberships uid none s = s
bind_ssl_groups groups memberships uid (some u) s =
    bind_groups groups uid (filter (reads_for u.id) memberships) s

-- `deliver_offline_chat`, once for each connection
unfoldable pub deliver_offline_chat : String → Option String → Session → Session
deliver_offline_chat uid platform s =
    if s.offline_chat_delivered || has_no_queue platform
    then s
    else emit (delivers_chat uid (user_id_of s.user) ∷ [])
        (record s { offline_chat_delivered = true })

abbrev pub dm_binding : String → Binding
dm_binding q = record { exchange = "dms"; routing_key = q; queue = q }

abbrev pub missions_binding : String → Binding
missions_binding q = record { exchange = "missions"; routing_key = "missions"; queue = q }

unfoldable pub anonymous : String → Session → Session
anonymous uid s =
    if s.is_ssl
    then s
    else emit (binds (group_binding uid "__ANON__") ∷ [])
        (record s { bound_queues = s.bound_queues ++ (group_binding uid "__ANON__" ∷ []) })

-- the queues are consumed, and the connections that served the device before are told
unfoldable pub consume : String → String → Session → Session
consume uid callsign s =
    emit (announces uid s.conn_token ∷ [])
      (record s { consumer_tags = s.consumer_tags ++ (callsign ∷ uid ∷ []) })

unfoldable pub bind_own_groups : List Group → List GroupUser → String → Session → Session
unfolding bind_ssl_groups
bind_own_groups groups memberships uid s =
    if s.is_ssl then bind_ssl_groups groups memberships uid s.user s else s

-- the queues of the device and of its callsign: bound, then the chat that waited, then consumed
unfoldable pub bind_queues :
    List Group → List GroupUser → String → String → Option String → Session → Session
unfolding bind_own_groups bind anonymous deliver_offline_chat consume
bind_queues groups memberships uid callsign platform s = consume uid callsign (
    deliver_offline_chat uid platform (
      anonymous uid (
        bind (dm_binding callsign) (
          bind (dm_binding uid)
            (bind (missions_binding uid) (bind_own_groups groups memberships uid s))))))

unfoldable pub queue_up :
    List Group → List GroupUser → String → Option String → Option String → Session → Session
unfolding bind_queues
queue_up groups memberships uid none platform s = s
queue_up groups memberships uid (some callsign) platform s =
    let named = record s { callsign = some callsign } in
    if is_opened s.channel && not (has_no_queue platform)
    then bind_queues groups memberships uid callsign platform named
    else named

-- the columns of the row that are set; the callsign keeps its old value where another device has it
abbrev pub described :
    String → Option String → Option String → Option ℕ → Option String → Device → Device
described uid callsign platform user_id phone d =
    if is_uid uid d
    then record d {
      callsign = callsign;
      platform = platform;
      phone_number = phone;
      last_status = some "Connected";
      user_id = user_id;
    }
    else d

abbrev pub callsign_for : String → Option String → List Device → Device → Option String
callsign_for uid none devices d = d.callsign
callsign_for uid (some c) devices d =
    if c == "" || is_taken uid c devices then d.callsign else some c

unfoldable pub save_device :
    String → Option String → Option String → Option ℕ → Option String → List Device → List Device
unfolding get_or_create_eud
save_device uid callsign platform user_id phone devices =
    let rows = (get_or_create_eud uid devices).1 in
    map (λ d. described uid (callsign_for uid callsign rows d) platform user_id phone d) rows

abbrev pub remember_phone : Contact → Session → Session
remember_phone c s = if truthy c.phone then record s { phone_number = c.phone } else s

unfoldable pub identify :
    List Group → List GroupUser → String → Contact → Option String → Session → Session
unfolding bind_queues save_device deliver_offline_chat
identify groups memberships uid c platform s =
    let queued =
      queue_up groups memberships uid c.callsign platform (record s { uid = some uid }) in
    let known = remember_phone c queued in
    deliver_offline_chat uid platform (record known {
      devices =
          save_device uid known.callsign platform (user_id_of known.user) known.phone_number
            known.devices;
    })

unfoldable pub identify_by :
    List Group → List GroupUser → Option String → Option Contact → Event → Session → Session
unfolding identify ends_with
identify_by groups memberships (some uid) (some c) event s =
    if not (uid == "") && not (ends_with uid "ping") && (not (is_none s.user) || not s.is_ssl)
    then identify groups memberships uid c (platform_of event.takv) s
    else s
identify_by groups memberships uid contact event s = s

-- `parse_device_info`: an <event> without <contact> is left alone, with <takv> or without.
unfoldable pub parse_device_info : List Group → List GroupUser → Event → Session → Session
unfolding identify_by
parse_device_info groups memberships event s =
    identify_by groups memberships event.uid event.contact event s
