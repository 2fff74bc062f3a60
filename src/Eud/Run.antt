-- ===== src/Eud/Run.antt =====
-- The inputs of one connection in any order (EudHandler.handle, EudHandlerSSL.setup and the
-- callbacks of RabbitMQ), and what holds of all that it publishes.
--
-- Parameters: those of Eud.Login, `is_revoked` of the certificates, and `event_type`, the match of
-- the regular expression for the type of an event.
use c4raven_server.Prelude.{ℕ, suc, String, Bool, Option, none, some, List, [], ◌∷◌, length}
use c4raven_server.Groups.{Group, GroupUser}
use c4raven_server.Tokens.{Token, Claims}
use c4raven_server.Eud.Session.{User, Credentials, Event, Session, opened, close_connection}
use c4raven_server.Eud.Login.{handle_auth, setup_ssl}
use c4raven_server.Eud.Stream.{
  handle_cot, bind_cert_control_queue, on_channel_open, on_channel_close, Delivery, on_message,
  Control, on_control_message,
}

-- What reaches a connection: from its socket, first the handshake with the serial and the common
-- names of the certificate (`EudHandlerSSL.setup`), and from the thread of RabbitMQ; `cert_binds` is
-- the call that `request_cert_control_queue` leaves to that thread.
pub data Input : Type 0 where
  handshakes : Bool → Option String → List String → Input
  auth_message : Credentials → Input
  cot_message : ℕ → Bool → Event → Input
  channel_opens channel_closes cert_binds ends : Input
  delivery : Bool → Delivery → Input
  control : Control → Input

abbrev pub or_stuck : Session → Option Session → Session
or_stuck s none = s
or_stuck s (some t) = t

module _ (lower : String → String) (decode : String → Option Claims) (hash_of : Claims → String)
    (find_user : String → Option User) (verify_password : String → String → Bool)
    (ldap : Option (String → String → Option User)) (is_revoked : String → Bool)
    (event_type : String → Option String) (tokens : List Token) (groups : List Group)
    (memberships : List GroupUser) where
  -- Where the loop of `on_channel_open` does not end, the connection stays as it is at its start.
  unfoldable pub step : Input → Session → Session
  unfolding setup_ssl handle_auth handle_cot bind_cert_control_queue on_channel_open
      on_channel_close on_message on_control_message close_connection
  step (handshakes succeeds serial names) s =
      setup_ssl lower decode hash_of find_user verify_password ldap is_revoked tokens succeeds
        serial names s
  step (auth_message c) s =
      handle_auth lower decode hash_of find_user verify_password ldap tokens (some c) s
  step (cot_message now writes e) s = handle_cot groups memberships now writes e s
  step channel_opens s =
      or_stuck (bind_cert_control_queue is_revoked (record s { channel = opened }))
        (on_channel_open is_revoked (suc (length s.cached_messages)) s)
  step cert_binds s = bind_cert_control_queue is_revoked s
  step channel_closes s = on_channel_close s
  step ends s = close_connection s
  step (delivery writes d) s = on_message event_type writes d s
  step (control c) s = on_control_message c s

  unfoldable pub run : List Input → Session → Session
  unfolding step
  run [] s = s
  run (i ∷ is) s = run is (step i s)
