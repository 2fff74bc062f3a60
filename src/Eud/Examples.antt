-- ===== src/Eud/Examples.antt =====
-- Tests of a connection with a device that logs in over SSL, and the theorems at it.
use c4raven_server.Prelude.{
  any, filter, suc, String, ◌≡◌, refl, Bool, true, false, Option, none, some, List, [], ◌∷◌, ◌++◌,
  map, ◌==◌, text_eq, option_eq, if◌then◌else◌, ◌||◌, starts_with, has_text, All, length,
}
use c4raven_server.Tokens.{Claims}
use c4raven_server.Eud.Framing.{cot, terminator, split_from, handle_parts, receive, receive_all}
use c4raven_server.Eud.Framing.Receiving.{ended, messages_of, receive_all-pieces, receive_all-lost}
use c4raven_server.Eud.Session.{
  User, Credentials, Event, missing, opened, Session, close_connection,
}
use c4raven_server.Eud.Login.{
  has_password, by_token, authenticate_eud_credentials, login_by, local_login, accept, names_other,
  login_with, log_in, handle_auth,
}
use c4raven_server.Eud.Stream.{bind_cert_control_queue, on_channel_open}
use c4raven_server.Eud.Run.{
  Input, auth_message, cot_message, channel_opens, cert_binds, control, handshakes, run,
}
use c4raven_server.Eud.Stream.{supersede}
use c4raven_server.Eud.Commands.{ClearCommand, deliver_commands, deliver_commands_once}
use c4raven_server.Eud.Guarded.{IsVouched}
use c4raven_server.Eud.Published.{run-IsVouched}
use c4raven_server.Eud.Accepted.{handle_auth_sound}
use c4raven_server.Eud.Closing.{
  close_connection_again, on_channel_open_stuck, on_channel_open_publishes, published,
}

-- what stands for the XML parser: a text with a point
abbrev parses : String → Bool
parses s = has_text "<p/>" s

abbrev first : String
first = "<event a><p/>"

abbrev alice : User
alice = record { id = 7; username = "alice"; active = true; password = some "hash" }

abbrev users : String → Option User
users name = if name == "alice" then some alice else none

abbrev same_case : String → String
same_case s = s

abbrev no_claims : String → Option Claims
no_claims t = none

abbrev no_hash : Claims → String
no_hash c = ""

abbrev verify : String → String → Bool
verify password stored = password == "secret"

abbrev nothing_revoked : String → Bool
nothing_revoked s = false

abbrev all_revoked : String → Bool
all_revoked s = true

abbrev login : Credentials
login = record { username = some "alice"; password = some "secret"; uid = some "B" }

abbrev position : Event
position = record {
  type_of = some "a-f-G";
  uid = some "B";
  contact = some (record { callsign = some "BRAVO"; phone = none });
  takv = none;
  text = "<event/>";
}

abbrev fresh : Session
fresh = record {
  is_ssl = true;
  common_name = none;
  cert_serial = some "1A";
  conn_token = "t";
  is_authenticated = false;
  user = none;
  uid = none;
  callsign = none;
  shutdown = false;
  superseded = false;
  channel = missing;
  cached_messages = [];
  consumer_tags = [];
  bound_queues = [];
  phone_number = none;
  last_rx_write = 0;
  offline_chat_delivered = false;
  cert_control_bound = false;
  devices = [];
  outputs = [];
}

abbrev waiting : Session
waiting = record fresh {
  is_authenticated = true;
  user = some alice;
  cached_messages = position ∷ [];
}

-- what reaches the connection before its handshake, and after it: a CoT, a login, another CoT
abbrev broker_inputs : List Input
broker_inputs = channel_opens ∷ control (supersede (some "B") (some "t")) ∷ []

abbrev inputs : List Input
inputs =
    cot_message 1 true position ∷ auth_message login ∷ cert_binds ∷ cot_message 2 true position ∷ []

abbrev commands : List ClearCommand
commands =
    record { id = 1; eud_uid = "B"; clearmaps = false; delivered_at = none }
    ∷ record { id = 2; eud_uid = "B"; clearmaps = true; delivered_at = none }
    ∷ []

-- tests

commands_test : (deliver_commands "B" 5 true true commands).0 ≡ some true
unfolding deliver_commands filter any
commands_test = refl

framing_test :
    messages_of (receive_all parses "" ("<event a><p/></ev" ∷ "ent>" ∷ [])).1
    ≡ cot "<event a><p/></event>" ∷ []
unfolding receive_all receive split_from terminator starts_with handle_parts has_text
framing_test = refl

login_test :
    (handle_auth same_case no_claims no_hash users verify none [] (some login) fresh).user
    ≡ some alice
unfolding handle_auth log_in login_with accept authenticate_eud_credentials login_by local_login
login_test = refl

-- witnesses

receive_all-pieces_example :
    messages_of (receive_all parses "" ("<event a><p/></ev" ∷ "ent>" ∷ [])).1
    ≡ map (λ c. cot (ended c)) (first ∷ [])
unfolding terminator starts_with has_text split_from
receive_all-pieces_example =
    receive_all-pieces parses first [] ("<event a><p/></ev" ∷ []) "ent>"
      (
        (
          (
            refl,
            (
              refl,
              (
                refl,
                (refl, (refl, (refl, (refl, (refl, (refl, (refl, (refl, (refl, (refl, tt)))))))))),
              ),
            ),
          ),
          refl,
          refl,
        ),
        tt,
      )
      (refl, tt) refl

receive_all-lost_example :
    receive_all parses "" ("<event a><p/></event><event b>" ∷ "<p/></event>" ∷ []) ≡ (
      "",
      record { messages = cot "<event a><p/></event>" ∷ []; dropped = true }
          ∷ record { messages = []; dropped = false }
          ∷ [],
    )
unfolding terminator starts_with has_text split_from
receive_all-lost_example =
    receive_all-lost parses first "<event b>" "<p/>"
      (
        (
          refl,
          (
            refl,
            (
              refl,
              (refl, (refl, (refl, (refl, (refl, (refl, (refl, (refl, (refl, (refl, tt)))))))))),
            ),
          ),
        ),
        refl,
        refl,
      )
      refl refl refl (refl, (refl, (refl, (refl, tt)))) refl refl

run-IsVouched_example :
    (let t =
        run same_case no_claims no_hash users verify none nothing_revoked
          (λ s. none)
          []
          []
          []
          (broker_inputs ++ handshakes true (some "1A") ("alice" ∷ []) ∷ inputs)
          fresh in
      All (IsVouched t.is_authenticated t.user) t.outputs)
run-IsVouched_example =
    run-IsVouched same_case no_claims no_hash users verify none nothing_revoked (λ s. none) [] [] []
      broker_inputs true (some "1A") (some "alice") inputs fresh (tt, (tt, tt))
      (tt, (tt, (tt, (tt, tt)))) refl refl refl refl

handle_auth_sound_example :
    (u : User) × ((handle_auth same_case no_claims no_hash users verify none []
        (some login)
        fresh).user
      ≡ some u)
    × (u.active ≡ true)
    × (names_other same_case none u ≡ false)
    × (users "alice" ≡ some u)
    × ((has_password verify u "secret" || by_token same_case no_claims no_hash [] u "secret")
        ≡ true)
unfolding handle_auth log_in login_with accept authenticate_eud_credentials login_by local_login
handle_auth_sound_example =
    handle_auth_sound same_case no_claims no_hash users verify [] login fresh refl refl

close_connection_again_example : close_connection (close_connection fresh) ≡ close_connection fresh
close_connection_again_example = close_connection_again fresh

on_channel_open_stuck_example : on_channel_open all_revoked 1000 waiting ≡ none
on_channel_open_stuck_example =
    on_channel_open_stuck all_revoked waiting position [] refl refl refl refl refl 1000

on_channel_open_publishes_example :
    (let b = bind_cert_control_queue nothing_revoked (record waiting { channel = opened }) in
      on_channel_open nothing_revoked (suc (length b.cached_messages)) waiting
      ≡ some (record b {
        outputs = b.outputs ++ map (published b) b.cached_messages;
        cached_messages = [];
      }))
unfolding bind_cert_control_queue
on_channel_open_publishes_example = on_channel_open_publishes nothing_revoked waiting refl

deliver_commands_once_example :
    (deliver_commands "B" 6 true true (deliver_commands "B" 5 true true commands).1
      ≡ (none, (deliver_commands "B" 5 true true commands).1))
    × (deliver_commands "B" 5 false true commands ≡ (none, commands))
deliver_commands_once_example = deliver_commands_once "B" 5 6 true true commands
