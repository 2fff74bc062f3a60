-- ===== src/Eud/Identified.antt =====
-- The identification of a device publishes nothing and leaves the login alone.
use c4raven_server.Prelude.{
  String, true, false, ◌&&◌, ◌||◌, not, Option, none, some, List, [], ◌∷◌, ◌++◌, refl, nat_eq,
  text_eq, option_eq, or_else, filter,
}
use c4raven_server.Chat.{truthy}
use c4raven_server.Groups.{Group, GroupUser}
use c4raven_server.Eud.Session.{
  User, Event, Contact, Binding, Device, delivers_chat, announces, binds, Session, user_id_of,
  is_opened,
}
use c4raven_server.Eud.Identify.{
  remember, bind, bind_memberships, bind_groups, bind_ssl_groups, bind_own_groups, consume,
  deliver_offline_chat, anonymous, bind_queues, queue_up, remember_phone, identify, identify_by,
  parse_device_info, group_binding, group_name, has_no_queue, missions_binding, dm_binding,
  reads_for, platform_of,
}
use c4raven_server.Eud.Kept.{
  IsKept, IsKept-refl, IsKept-trans, emit-IsKept, if-IsKept, fields-IsKept,
}

bind-IsKept : (b : Binding) (s : Session) → IsKept s (bind b s)
unfolding bind
bind-IsKept b s =
    IsKept-trans (fields-IsKept refl refl refl refl refl)
      (emit-IsKept (binds b ∷ []) (record s { bound_queues = remember b s.bound_queues }) (tt, tt))

remembered-IsKept :
    (b : Binding) (s : Session) → IsKept s (record s { bound_queues = remember b s.bound_queues })
remembered-IsKept b s = fields-IsKept refl refl refl refl refl

bind_memberships-IsKept :
    (groups : List Group) (uid : String) (ms : List GroupUser) (s : Session)
    → IsKept s (bind_memberships groups uid ms s)
unfolding bind_memberships
bind_memberships-IsKept groups uid [] s = IsKept-refl s
bind_memberships-IsKept groups uid (m ∷ ms) s =
    let b = group_binding uid (group_name groups m.group_id) in
    IsKept-trans (if-IsKept (or_else m.enabled false) (bind-IsKept b s) (remembered-IsKept b s))
      (bind_memberships-IsKept groups uid ms _)

bind_groups-IsKept :
    (groups : List Group) (uid : String) (ms : List GroupUser) (s : Session)
    → IsKept s (bind_groups groups uid ms s)
unfolding bind_groups
bind_groups-IsKept groups uid [] s = bind-IsKept (group_binding uid "__ANON__") s
bind_groups-IsKept groups uid (m ∷ ms) s = bind_memberships-IsKept groups uid (m ∷ ms) s

bind_ssl_groups-IsKept :
    (groups : List Group) (ms : List GroupUser) (uid : String) (u : Option User) (s : Session)
    → IsKept s (bind_ssl_groups groups ms uid u s)
unfolding bind_ssl_groups
bind_ssl_groups-IsKept groups ms uid none s = IsKept-refl s
bind_ssl_groups-IsKept groups ms uid (some u) s =
    bind_groups-IsKept groups uid (filter (reads_for u.id) ms) s

deliver_offline_chat-IsKept :
    (uid : String) (platform : Option String) (s : Session)
    → IsKept s (deliver_offline_chat uid platform s)
unfolding deliver_offline_chat
deliver_offline_chat-IsKept uid platform s =
    if-IsKept (s.offline_chat_delivered || has_no_queue platform) (IsKept-refl s) (
      IsKept-trans (fields-IsKept refl refl refl refl refl) (
        emit-IsKept (delivers_chat uid (user_id_of s.user) ∷ [])
          (record s { offline_chat_delivered = true }) (tt, tt)))

anonymous-IsKept : (uid : String) (s : Session) → IsKept s (anonymous uid s)
unfolding anonymous
anonymous-IsKept uid s = if-IsKept s.is_ssl (IsKept-refl s) (
    IsKept-trans (fields-IsKept refl refl refl refl refl) (
      emit-IsKept (binds (group_binding uid "__ANON__") ∷ [])
        (record s { bound_queues = s.bound_queues ++ (group_binding uid "__ANON__" ∷ []) })
        (tt, tt)))

consume-IsKept : (uid callsign : String) (s : Session) → IsKept s (consume uid callsign s)
unfolding consume
consume-IsKept uid callsign s = IsKept-trans (fields-IsKept refl refl refl refl refl) (
    emit-IsKept (announces uid s.conn_token ∷ [])
      (record s { consumer_tags = s.consumer_tags ++ (callsign ∷ uid ∷ []) }) (tt, tt))

bind_own_groups-IsKept :
    (groups : List Group) (ms : List GroupUser) (uid : String) (s : Session)
    → IsKept s (bind_own_groups groups ms uid s)
unfolding bind_own_groups
bind_own_groups-IsKept groups ms uid s =
    if-IsKept s.is_ssl (bind_ssl_groups-IsKept groups ms uid s.user s) (IsKept-refl s)

pub bind_queues-IsKept :
    (groups : List Group) (ms : List GroupUser) (uid callsign : String) (platform : Option String)
    (s : Session)
    → IsKept s (bind_queues groups ms uid callsign platform s)
unfolding bind_queues
bind_queues-IsKept groups ms uid callsign platform s =
    IsKept-trans (bind_own_groups-IsKept groups ms uid s) (
      IsKept-trans (bind-IsKept (missions_binding uid) _) (
        IsKept-trans (bind-IsKept (dm_binding uid) _) (
          IsKept-trans (bind-IsKept (dm_binding callsign) _) (
            IsKept-trans (anonymous-IsKept uid _) (
              IsKept-trans (deliver_offline_chat-IsKept uid platform _)
                (consume-IsKept uid callsign _))))))

queue_up-IsKept :
    (groups : List Group) (ms : List GroupUser) (uid : String) (callsign platform : Option String)
    (s : Session)
    → IsKept s (queue_up groups ms uid callsign platform s)
unfolding queue_up
queue_up-IsKept groups ms uid none platform s = IsKept-refl s
queue_up-IsKept groups ms uid (some callsign) platform s =
    if-IsKept (is_opened s.channel && not (has_no_queue platform))
      (IsKept-trans (fields-IsKept refl refl refl refl refl) (
        bind_queues-IsKept groups ms uid callsign platform (record s { callsign = some callsign })))
      (fields-IsKept refl refl refl refl refl)

remember_phone-IsKept : (c : Contact) (s : Session) → IsKept s (remember_phone c s)
remember_phone-IsKept c s =
    if-IsKept (truthy c.phone) (fields-IsKept refl refl refl refl refl) (IsKept-refl s)

devices-IsKept : (ds : List Device) (s : Session) → IsKept s (record s { devices = ds })
devices-IsKept ds s = fields-IsKept refl refl refl refl refl

identified-IsKept : (uid : String) (s : Session) → IsKept s (record s { uid = some uid })
identified-IsKept uid s = fields-IsKept refl refl refl refl refl

identify-IsKept :
    (groups : List Group) (ms : List GroupUser) (uid : String) (c : Contact)
    (platform : Option String) (s : Session)
    → IsKept s (identify groups ms uid c platform s)
unfolding identify
identify-IsKept groups ms uid c platform s = IsKept-trans (identified-IsKept uid s) (
    IsKept-trans (queue_up-IsKept groups ms uid c.callsign platform (record s { uid = some uid })) (
      IsKept-trans (remember_phone-IsKept c _)
        (IsKept-trans (devices-IsKept _ _) (deliver_offline_chat-IsKept uid platform _))))

identify_by-IsKept :
    (groups : List Group) (ms : List GroupUser) (uid : Option String) (c : Option Contact)
    (e : Event) (s : Session)
    → IsKept s (identify_by groups ms uid c e s)
unfolding identify_by
identify_by-IsKept groups ms none none e s = IsKept-refl s
identify_by-IsKept groups ms none (some c) e s = IsKept-refl s
identify_by-IsKept groups ms (some uid) none e s = IsKept-refl s
identify_by-IsKept groups ms (some uid) (some c) e s =
    if-IsKept _ (identify-IsKept groups ms uid c (platform_of e.takv) s) (IsKept-refl s)

pub parse_device_info-IsKept :
    (groups : List Group) (ms : List GroupUser) (e : Event) (s : Session)
    → IsKept s (parse_device_info groups ms e s)
unfolding parse_device_info
parse_device_info-IsKept groups ms e s = identify_by-IsKept groups ms e.uid e.contact e s
