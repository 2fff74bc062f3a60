-- ===== src/Eud/Admitted.antt =====
-- The guard of an SSL connection, through a login.
use c4raven_server.Prelude.{
  String, Bool, false, ◌&&◌, not, Option, none, some, List, [], ◌∷◌, ◌≡◌, refl, subst, All, All-map,
  option_eq, text_eq, if-case, or_else,
}
use c4raven_server.Tokens.{Token, Claims}
use c4raven_server.Eud.Session.{User, Credentials, counts, Session}
use c4raven_server.Eud.Login.{failed_login, accept, login_with, login_by_cert, log_in, handle_auth}
use c4raven_server.Eud.Kept.{IsKept-trans, emit-IsKept, close_connection-IsKept}
use c4raven_server.Eud.Guarded.{
  IsVouched, IsGuarded, kept-IsGuarded, if-IsGuarded, unpublished, logged_out,
}

failed-IsGuarded : (s : Session) → IsGuarded s → IsGuarded (failed_login s)
unfolding failed_login
failed-IsGuarded s g =
    kept-IsGuarded
      (IsKept-trans (emit-IsKept (counts "raven_eud_auth_failures_total" "" ∷ []) s (tt, tt))
        (close_connection-IsKept _))
      g

accept-IsGuarded :
    (uid : Option String) (u : User) (s : Session)
    → s.is_authenticated ≡ false
    → IsGuarded s
    → IsGuarded (accept uid u s)
unfolding accept
accept-IsGuarded uid u s n g = if-IsGuarded (not u.active) (failed-IsGuarded s g) (record {
  over_ssl = g.over_ssl;
  vouched =
      All-map (unpublished s.user u) s.outputs
        (subst (λ b. All (IsVouched b s.user) s.outputs) n g.vouched);
  none_waits = λ h. absurd (cc);
  has_user = λ h. (u, refl);
})

login_with-IsGuarded :
    (lower : String → String) (uid : Option String) (u : Option User) (s : Session)
    → s.is_authenticated ≡ false
    → IsGuarded s
    → IsGuarded (login_with lower uid u s)
unfolding login_with
login_with-IsGuarded lower uid none s n g = failed-IsGuarded s g
login_with-IsGuarded lower uid (some u) s n g =
    if-IsGuarded _ (failed-IsGuarded s g) (accept-IsGuarded uid u s n g)

login_by_cert-IsGuarded :
    (u : Option User) (s : Session)
    → s.is_authenticated ≡ false
    → IsGuarded s
    → IsGuarded (login_by_cert u s)
unfolding login_by_cert
login_by_cert-IsGuarded none s n g = failed-IsGuarded s g
login_by_cert-IsGuarded (some u) s n g = accept-IsGuarded none u s n g

log_in-IsGuarded :
    (lower : String → String) (decode : String → Option Claims) (hash_of : Claims → String)
    (find_user : String → Option User) (verify_password : String → String → Bool)
    (ldap : Option (String → String → Option User)) (tokens : List Token) (c : Option Credentials)
    (s : Session)
    → s.is_authenticated ≡ false
    → IsGuarded s
    → IsGuarded (log_in lower decode hash_of find_user verify_password ldap tokens c s)
unfolding log_in
log_in-IsGuarded lower decode hash_of find_user verify_password ldap tokens (some c) s n g =
    login_with-IsGuarded lower c.uid _ s n g
log_in-IsGuarded lower decode hash_of find_user verify_password ldap tokens none s n g =
    if-IsGuarded _ (login_by_cert-IsGuarded (find_user (or_else s.common_name "")) s n g) g

pub handle_auth-IsGuarded :
    (lower : String → String) (decode : String → Option Claims) (hash_of : Claims → String)
    (find_user : String → Option User) (verify_password : String → String → Bool)
    (ldap : Option (String → String → Option User)) (tokens : List Token) (c : Option Credentials)
    (s : Session)
    → IsGuarded s
    → IsGuarded (handle_auth lower decode hash_of find_user verify_password ldap tokens c s)
unfolding handle_auth
handle_auth-IsGuarded lower decode hash_of find_user verify_password ldap tokens c s g =
    if-case IsGuarded (s.is_ssl && not s.is_authenticated)
      (λ h.
        log_in-IsGuarded lower decode hash_of find_user verify_password ldap tokens c s
          (logged_out s.is_ssl s.is_authenticated h) g)
      (λ h. g)
