-- ===== src/Chat.antt =====
-- raven/offline_chat.py: chat held for devices. The rows of raven/models/OfflineChatMessage.py and
-- the columns of raven/models/EUD.py that it reads. Chat.Queue is the part that cot_parser calls for
-- each GeoChat event, Chat.Delivery the part that EudHandler and the retention job call.
pub mod Queue
pub mod Delivery
mod Examples
use c4raven_server.Prelude.{
  ℕ, String, Bool, true, false, Option, none, some, List, ◌==◌, text_eq, nat_eq, not,
}
use c4raven_server.Groups.{Group, GroupUser}

-- One row of euds; `connected` is `last_status == "Connected"`.
pub record Eud : Type 0 where
  pub uid : String
  pub callsign : Option String
  pub platform : Option String
  pub user_id : Option ℕ
  pub team_id : Option ℕ
  pub federated_from : Option String
  pub last_rx_at : Option ℕ
  pub connected : Bool

-- One row of offline_chat_messages. The column read_groups holds a JSON list of group ids or NULL;
-- only `queue_offline_chat` writes it, so the list stands here for its text.
pub record Message : Type 0 where
  pub id : ℕ
  pub recipient_uid : String
  pub recipient_user_id : Option ℕ
  pub read_groups : Option (List ℕ)
  pub sender_uid : String
  pub chatroom_id : Option String
  pub message_uid : String
  pub xml : String
  pub created_at : ℕ
  pub delivered_at : Option ℕ

-- A <dest> tag: whether it has a `mission` attribute, and its `callsign` and `uid`.
pub record Dest : Type 0 where
  pub mission : Bool
  pub callsign : Option String
  pub uid : Option String

-- A <__chat> tag.
pub record ChatTag : Type 0 where
  pub id : Option String
  pub chatroom : Option String

-- What the functions read of a parsed CoT event.
pub record Event : Type 0 where
  pub uid : Option String
  pub chat : Option ChatTag
  pub has_remarks : Bool
  pub dests : List Dest
  pub xml : String

-- The other tables: devices, teams by name with their ids, groups and memberships.
pub record Tables : Type 0 where
  pub euds : List Eud
  pub teams : List (String × ℕ)
  pub groups : List Group
  pub memberships : List GroupUser

-- The message table and the next value of its primary key.
pub record Store : Type 0 where
  pub rows : List Message
  pub next_id : ℕ

-- `if text:` of a text that may be None
abbrev pub truthy : Option String → Bool
truthy none = false
truthy (some s) = not (s == "")

-- `if not user_id:`
abbrev pub no_user : Option ℕ → Bool
no_user none = true
no_user (some u) = u == 0
