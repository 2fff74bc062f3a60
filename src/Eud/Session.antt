-- ===== src/Eud/Session.antt =====
-- The state of one connection of raven/eud_handler/EudHandler.py, and its end. What it does to the outside is the list `outputs`, in
-- order. Other threads and processes enter as the order of the inputs.
use c4raven_server.Prelude.{
  ℕ, String, Bool, true, false, ◌&&◌, Option, none, some, List, [], ◌∷◌, ◌++◌, map, ◌==◌, nat_eq,
  text_eq, option_eq, HasEq, ◌≡◌, ◌↔◌, arith, if◌then◌else◌,
}
use c4raven_server.Chat.{truthy}

pub record User : Type 0 where
  pub id : ℕ
  pub username : String
  pub active : Bool
  pub password : Option String

-- The attributes of the <cot> of an <auth> message; none where it is missing.
pub record Credentials : Type 0 where
  pub username : Option String
  pub password : Option String
  pub uid : Option String

-- The attributes of <contact> and of <takv> that a connection reads.
pub record Contact : Type 0 where
  pub callsign : Option String
  pub phone : Option String

pub record Takv : Type 0 where
  pub device : Option String
  pub operating_system : Option String
  pub platform : Option String
  pub version : Option String

-- An <event>: its type and uid, the tags that a connection reads, and its text.
pub record Event : Type 0 where
  pub type_of : Option String
  pub uid : Option String
  pub contact : Option Contact
  pub takv : Option Takv
  pub text : String

-- A row of euds.
pub record Device : Type 0 where
  pub uid : String
  pub callsign : Option String
  pub user_id : Option ℕ
  pub last_status : Option String
  pub platform : Option String
  pub phone_number : Option String

-- `rabbit_channel`: None, open, closing or closed.
pub data Channel : Type 0 where
  missing opened closing closed : Channel

-- A binding of a queue to an exchange.
pub record Binding : Type 0 where
  pub exchange : String
  pub routing_key : String
  pub queue : String

abbrev pub binding_beq : Binding → Binding → Bool
binding_beq a b = a.exchange == b.exchange && (a.routing_key == b.routing_key && a.queue == b.queue)

pub binding_beq_iff : (a b : Binding) → (binding_beq a b ≡ true) ↔ (a ≡ b)
binding_beq_iff a b = ground (
  arith,
  text_eq.test_iff a.exchange b.exchange,
  text_eq.test_iff a.routing_key b.routing_key,
  text_eq.test_iff a.queue b.queue,
)

instance abbrev pub binding_eq : HasEq Binding
binding_eq = record { test = binding_beq; test_iff = binding_beq_iff }

pub data Output : Type 0 where
  counts : String → String → Output
  publishes : Option String → String → Option ℕ → Output
  reports_disconnect : Option String → Option ℕ → Output
  sends : String → Output
  notes_rx : String → Output
  delivers_chat : String → Option ℕ → Output
  announces binds_control : String → String → Output
  binds unbinds : Binding → Output
  unbinds_groups : String → Output
  cancels : String → Output
  closes_channel shuts_socket closes_socket : Output

pub record Session : Type 0 where
  pub is_ssl : Bool
  pub common_name : Option String
  pub cert_serial : Option String
  pub conn_token : String
  pub is_authenticated : Bool
  pub user : Option User
  pub uid : Option String
  pub callsign : Option String
  pub shutdown : Bool
  pub superseded : Bool
  pub channel : Channel
  pub cached_messages : List Event
  pub consumer_tags : List String
  pub bound_queues : List Binding
  pub phone_number : Option String
  pub last_rx_write : ℕ
  pub offline_chat_delivered : Bool
  pub cert_control_bound : Bool
  pub devices : List Device
  pub outputs : List Output

abbrev pub emit : List Output → Session → Session
emit os s = record s { outputs = s.outputs ++ os }

abbrev pub user_id_of : Option User → Option ℕ
user_id_of none = none
user_id_of (some u) = some u.id

abbrev pub is_opened : Channel → Bool
is_opened opened = true
is_opened _ = false

-- `rabbit_channel and not is_closing and not is_closed`
abbrev pub is_usable : Channel → Bool
is_usable opened = true
is_usable _ = false

abbrev pub is_uid : String → Device → Bool
is_uid uid d = d.uid == uid

-- `update(EUD).where(EUD.uid == uid).values(last_status="Disconnected")`
unfoldable pub mark_disconnected : String → List Device → List Device
mark_disconnected uid =
    map (λ d. if is_uid uid d then record d { last_status = some "Disconnected" } else d)

abbrev pub unbind_all : String → List Binding → List Output
unbind_all uid bs =
    unbinds (record { exchange = "missions"; routing_key = "missions"; queue = uid })
    ∷ unbinds_groups uid
    ∷ map unbinds bs

-- `unbind_rabbitmq_queues`
unfoldable pub unbind_rabbitmq_queues : Session → Session
unbind_rabbitmq_queues s = elim s.uid [
  | none ↦ s
  | some uid ↦
      if truthy s.uid && is_usable s.channel then emit (unbind_all uid s.bound_queues) s else s
]

abbrev pub close_channel : Session → Session
close_channel s =
    if is_usable s.channel then emit (closes_channel ∷ []) (record s { channel = closing }) else s

abbrev pub report_disconnect : Session → Session
report_disconnect s =
    if is_opened s.channel then emit (reports_disconnect s.uid (user_id_of s.user) ∷ []) s else s

abbrev pub mark_device : Session → Session
mark_device s = elim s.uid [
  | none ↦ s
  | some uid ↦ if truthy s.uid then record s { devices = mark_disconnected uid s.devices } else s
]

-- `close_connection`, where the UPDATE of the device's row is committed
unfoldable pub close_connection : Session → Session
unfolding unbind_rabbitmq_queues mark_disconnected
close_connection s =
    if s.shutdown
    then s
    else if s.superseded
    then record (close_channel s) { shutdown = true }
    else emit (shuts_socket ∷ closes_socket ∷ [])
        (record (close_channel (mark_device (unbind_rabbitmq_queues (report_disconnect s)))) {
          shutdown = true;
        })
