-- ===== src/Eud/Accepted.antt =====
-- What an accepted login says of the credentials, and what a refused one leaves.
use c4raven_server.Prelude.{
  String, Bool, true, false, ◌&&◌, ◌||◌, not, Option, none, some, List, [], ◌∷◌, ◌≡◌, refl, subst,
  ◌∙◌, arith, if-case, or_else,
}
use c4raven_server.Chat.{truthy}
use c4raven_server.Tokens.{Token, Claims}
use c4raven_server.Eud.Session.{User, Credentials, Session, counts}
use c4raven_server.Eud.Login.{
  by_token, has_password, local_login, login_by, authenticate_eud_credentials, failed_login, accept,
  names_other, login_with, log_in, handle_auth,
}
use c4raven_server.Eud.Kept.{IsKept-trans, emit-IsKept, close_connection-IsKept}

-- A login of this user, which took the tests of the user.
abbrev pub IsLogin : (String → String) → Option String → Option User → Session → Type 0
IsLogin lower cn found t =
    (u : User) × (found ≡ some u)
    × (t.user ≡ some u)
    × (u.active ≡ true)
    × (names_other lower cn u ≡ false)

failed-login : (s : Session) → (failed_login s).is_authenticated ≡ s.is_authenticated
unfolding failed_login
failed-login s =
    (IsKept-trans (emit-IsKept (counts "raven_eud_auth_failures_total" "" ∷ []) s (tt, tt))
      (close_connection-IsKept _)).same_login

refused : {b : Bool} → b ≡ false → b ≡ true → ⊥
refused h k = cc

accept_sound :
    (uid : Option String) (u : User) (s : Session)
    → s.is_authenticated ≡ false
    → (accept uid u s).is_authenticated ≡ true
    → ((accept uid u s).user ≡ some u) × (u.active ≡ true)
unfolding accept
accept_sound uid u s n =
    if-case (λ (t : Session). t.is_authenticated ≡ true → (t.user ≡ some u) × (u.active ≡ true))
      (not u.active) (λ h k. absurd (refused (failed-login s ∙ n) k)) (λ h k. (refl, ground arith))

login_with_sound :
    (lower : String → String) (uid : Option String) (found : Option User) (s : Session)
    → s.is_authenticated ≡ false
    → (login_with lower uid found s).is_authenticated ≡ true
    → IsLogin lower s.common_name found (login_with lower uid found s)
unfolding login_with
login_with_sound lower uid none s n = λ k. absurd (refused (failed-login s ∙ n) k)
login_with_sound lower uid (some u) s n =
    if-case (λ (t : Session). t.is_authenticated ≡ true → IsLogin lower s.common_name (some u) t)
      (names_other lower s.common_name u) (λ h k. absurd (refused (failed-login s ∙ n) k))
      (λ h k. (u, refl, (accept_sound uid u s n k).0, (accept_sound uid u s n k).1, h))

module _ (lower : String → String) (decode : String → Option Claims) (hash_of : Claims → String)
    (find_user : String → Option User) (verify_password : String → String → Bool) where
  local_sound :
      (ldap : Option (String → String → Option User)) (tokens : List Token) (o : Option User)
      (password : String) (u : User)
      → local_login lower decode hash_of find_user verify_password ldap tokens o password ≡ some u
      → (o ≡ some u)
        × ((has_password verify_password u password
              || by_token lower decode hash_of tokens u password)
            ≡ true)
  unfolding local_login
  local_sound ldap tokens none password u = λ h. absurd (cc)
  local_sound ldap tokens (some v) password u =
      if-case
        (λ (r : Option User).
          r ≡ some u
          → (some v ≡ some u)
            × ((has_password verify_password u password
                  || by_token lower decode hash_of tokens u password)
                ≡ true))
        (has_password verify_password v password || by_token lower decode hash_of tokens v password)
        (λ h k. (
          k,
          subst
              (λ w.
                (has_password verify_password w password
                  || by_token lower decode hash_of tokens w password)
                ≡ true)
              (some_injective k) h,
        ))
        (λ h k. absurd (cc))
    where
      some_injective : {a b : User} → some a ≡ some b → a ≡ b
      some_injective h = cc

  authenticate_sound :
      (tokens : List Token) (username password : Option String) (u : User)
      → authenticate_eud_credentials lower decode hash_of find_user verify_password none tokens
          username password
        ≡ some u
      → (find_user (or_else username "") ≡ some u)
        × ((has_password verify_password u (or_else password "")
              || by_token lower decode hash_of tokens u (or_else password ""))
            ≡ true)
  unfolding authenticate_eud_credentials login_by
  authenticate_sound tokens username password u =
      if-case
        (λ (r : Option User).
          r ≡ some u
          → (find_user (or_else username "") ≡ some u)
            × ((has_password verify_password u (or_else password "")
                  || by_token lower decode hash_of tokens u (or_else password ""))
                ≡ true))
        (not (truthy username) || not (truthy password)) (λ h k. absurd (cc))
        (λ h k. local_sound none tokens (find_user (or_else username "")) (or_else password "") u k)

  login_sound :
      (tokens : List Token) (c : Credentials) (s : Session)
      → s.is_authenticated ≡ false
      → (let t =
            handle_auth lower decode hash_of find_user verify_password none tokens (some c) s in
          t.is_authenticated ≡ true
          → (u : User) × (t.user ≡ some u)
            × (u.active ≡ true)
            × (names_other lower s.common_name u ≡ false)
            × (find_user (or_else c.username "") ≡ some u)
            × ((has_password verify_password u (or_else c.password "")
                  || by_token lower decode hash_of tokens u (or_else c.password ""))
                ≡ true))
  unfolding handle_auth log_in
  login_sound tokens c s n =
      if-case
        (λ (t : Session).
          t.is_authenticated ≡ true
          → (u : User) × (t.user ≡ some u)
            × (u.active ≡ true)
            × (names_other lower s.common_name u ≡ false)
            × (find_user (or_else c.username "") ≡ some u)
            × ((has_password verify_password u (or_else c.password "")
                  || by_token lower decode hash_of tokens u (or_else c.password ""))
                ≡ true))
        (s.is_ssl && not s.is_authenticated)
        (λ h k.
          (let l =
              login_with_sound lower c.uid
                (authenticate_eud_credentials lower decode hash_of find_user verify_password none
                  tokens c.username c.password)
                s n k in
            let a = authenticate_sound tokens c.username c.password l.0 l.1 in
            (l.0, l.2, l.3, l.4, a.0, a.1)))
        (λ h k. absurd (refused n k))

  -- Without LDAP, a connection that an <auth> message has logged in serves a user whom the datastore
  -- has under the name that was sent, who is active, whose password or whose enrollment token was
  -- sent, and whose name is that of the client certificate but for case, where there is one.
  pub handle_auth_sound :
      (tokens : List Token) (c : Credentials) (s : Session)
      → s.is_authenticated ≡ false
      → (handle_auth lower decode hash_of find_user verify_password none tokens
          (some c)
          s).is_authenticated
        ≡ true
      → (u : User) × ((handle_auth lower decode hash_of find_user verify_password none tokens
            (some c)
            s).user
          ≡ some u)
        × (u.active ≡ true)
        × (names_other lower s.common_name u ≡ false)
        × (find_user (or_else c.username "") ≡ some u)
        × ((has_password verify_password u (or_else c.password "")
              || by_token lower decode hash_of tokens u (or_else c.password ""))
            ≡ true)
  handle_auth_sound tokens c s n k = login_sound tokens c s n k
