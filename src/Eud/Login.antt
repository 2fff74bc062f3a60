-- ===== src/Eud/Login.antt =====
-- The login of a connection: `authenticate_eud_credentials` and `handle_auth` of
-- raven/eud_handler/EudHandler.py, and the part of raven/eud_handler/EudHandlerSSL.py after the
-- handshake.
--
-- Parameters: `lower` (str.lower), `decode` and `hash_of` of the tokens, `find_user` of the user
-- datastore, `verify_password` of flask-security, and `ldap`, which is none where LDAP is off and
-- else the user that LDAP's authentication and save_user come to. A call that raises stands as one
-- that refuses.
use c4raven_server.Prelude.{
  ℕ, String, Bool, true, false, ◌&&◌, ◌||◌, not, Option, none, some, List, [], ◌∷◌, ◌++◌, map, ◌==◌,
  nat_eq, text_eq, option_eq, if◌then◌else◌, any, or_else,
}
use c4raven_server.Chat.{truthy}
use c4raven_server.Tokens.{Token, Claims, verify_token}
use c4raven_server.Eud.Session.{
  User, Credentials, Device, counts, Session, emit, is_uid, close_connection,
}

unfoldable pub failed_login : Session → Session
unfolding close_connection
failed_login s = close_connection (emit (counts "raven_eud_auth_failures_total" "" ∷ []) s)

-- Another device has the callsign: the commit raises an IntegrityError.
abbrev pub is_taken : String → String → List Device → Bool
is_taken uid callsign = any (λ d. not (is_uid uid d) && d.callsign == some callsign)

abbrev pub new_device : String → Device
new_device uid = record {
  uid = uid;
  callsign = none;
  user_id = none;
  last_status = none;
  platform = none;
  phone_number = none;
}

-- `get_or_create_eud`: whether it created the row, and the rows
unfoldable pub get_or_create_eud : String → List Device → Bool × List Device
get_or_create_eud uid devices =
    if any (is_uid uid) devices then (false, devices) else (true, devices ++ (new_device uid ∷ []))

abbrev pub set_owner : String → ℕ → List Device → List Device
set_owner uid user_id = map (λ d. if is_uid uid d then record d { user_id = some user_id } else d)

abbrev pub set_callsign : String → String → List Device → List Device
set_callsign uid callsign =
    map (λ d. if is_uid uid d then record d { callsign = some callsign } else d)

abbrev pub associate_created : String → ℕ → Option String → Bool × List Device → List Device
associate_created uid user_id (some callsign) (true, devices) =
    if not (callsign == "") && not (is_taken uid callsign devices)
    then set_callsign uid callsign (set_owner uid user_id devices)
    else set_owner uid user_id devices
associate_created uid user_id callsign (created, devices) = set_owner uid user_id devices

-- the end of `handle_auth`: the device of the <auth> message becomes the user's
unfoldable pub associate : Option String → ℕ → Option String → List Device → List Device
unfolding get_or_create_eud
associate none user_id callsign devices = devices
associate (some uid) user_id callsign devices =
    if uid == ""
    then devices
    else associate_created uid user_id callsign (get_or_create_eud uid devices)

-- the user is accepted: `uid` is that of the <auth> message
unfoldable pub accept : Option String → User → Session → Session
unfolding associate
accept uid u s = if not u.active then failed_login s else record s {
  is_authenticated = true;
  user = some u;
  devices = associate uid u.id s.callsign s.devices;
}

unfoldable pub login_by_cert : Option User → Session → Session
login_by_cert none s = failed_login s
login_by_cert (some u) s = accept none u s

module _ (lower : String → String) where
  abbrev pub names_other : Option String → User → Bool
  names_other none u = false
  names_other (some cn) u = not (cn == "") && not (lower cn == lower u.username)

  unfoldable pub login_with : Option String → Option User → Session → Session
  login_with uid none s = failed_login s
  login_with uid (some u) s = if names_other s.common_name u then failed_login s else accept uid u s

abbrev pub has_password : (verify_password : String → String → Bool) → User → String → Bool
has_password verify_password u password =
    truthy u.password && verify_password password (or_else u.password "")

module _ (lower : String → String) (decode : String → Option Claims)
    (hash_of : Claims → String) where
  abbrev pub by_token : List Token → User → String → Bool
  by_token tokens u password =
      (verify_token lower decode hash_of
        (record {
          token = some password;
          username = some u.username;
          consume = false;
          check_max = false;
          commits = true;
        })
        tokens).1

module _ (lower : String → String) (decode : String → Option Claims) (hash_of : Claims → String)
    (find_user : String → Option User) (verify_password : String → String → Bool)
    (ldap : Option (String → String → Option User)) where
  unfoldable pub local_login : List Token → Option User → String → Option User
  local_login tokens none password = none
  local_login tokens (some u) password =
      if has_password verify_password u password || by_token lower decode hash_of tokens u password
      then some u
      else none

  unfoldable pub login_by :
      Option (String → String → Option User) → List Token → String → String → Option User
  unfolding local_login
  login_by (some by_ldap) tokens username password = by_ldap username password
  login_by none tokens username password = local_login tokens (find_user username) password

  unfoldable pub authenticate_eud_credentials :
      List Token → Option String → Option String → Option User
  unfolding login_by local_login
  authenticate_eud_credentials tokens username password =
      if not (truthy username) || not (truthy password)
      then none
      else login_by ldap tokens (or_else username "") (or_else password "")

  unfoldable pub log_in : List Token → Option Credentials → Session → Session
  unfolding authenticate_eud_credentials login_with login_by_cert
  log_in tokens (some c) s =
      login_with lower c.uid (authenticate_eud_credentials tokens c.username c.password) s
  log_in tokens none s =
      if truthy s.common_name then login_by_cert (find_user (or_else s.common_name "")) s else s

  -- `handle_auth`; none stands for the empty text that the SSL set-up gives it
  unfoldable pub handle_auth : List Token → Option Credentials → Session → Session
  unfolding log_in
  handle_auth tokens auth s = if s.is_ssl && not s.is_authenticated then log_in tokens auth s else s

  -- the common names of the peer's certificate, one after the other
  unfoldable pub ssl_names : List Token → List String → Session → Session
  unfolding handle_auth
  ssl_names tokens [] s = s
  ssl_names tokens (cn ∷ cns) s =
      ssl_names tokens cns
        (handle_auth tokens none (record s { common_name = some cn; user = find_user cn }))

  -- `EudHandlerSSL.setup` after that of EudHandler: `handshake` says whether it succeeds, `serial`
  -- and `names` are those of the certificate.
  unfoldable pub setup_ssl :
      (is_revoked : String → Bool)
      → List Token
      → (handshake : Bool) → Option String
      → List String
      → Session
      → Session
  unfolding close_connection ssl_names
  setup_ssl is_revoked tokens handshake serial names s =
      if not handshake
      then close_connection s
      else if truthy serial && is_revoked (or_else serial "")
      then close_connection (record s { cert_serial = serial })
      else ssl_names tokens names (record s { cert_serial = serial })
