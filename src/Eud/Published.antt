-- ===== src/Eud/Published.antt =====
-- The guard of an SSL connection, through the handshake and for runs of all inputs.
use c4raven_server.Prelude.{
  suc, String, Bool, true, false, Option, none, some, List, [], ◌∷◌, ◌≡◌, refl, ◌∙◌, sym, ◌++◌,
  ◌&&◌, not, subst, All, All-map, option_eq, text_eq, if-case, or_else, length,
}
use c4raven_server.Groups.{Group, GroupUser}
use c4raven_server.Tokens.{Token, Claims}
use c4raven_server.Eud.Session.{User, opened, Session}
use c4raven_server.Eud.Kept.{IsKept, IsKept-trans, fields-IsKept, close_connection-IsKept}
use c4raven_server.Eud.Run.{
  Input, auth_message, cot_message, handshakes, cert_binds, channel_opens, channel_closes, ends,
  delivery, control, or_stuck, step, run,
}
use c4raven_server.Eud.Admitted.{handle_auth-IsGuarded}
use c4raven_server.Eud.Guarded.{
  IsVouched, IsGuarded, kept-IsGuarded, for_user, handle_cot-IsGuarded,
}
use c4raven_server.Chat.{truthy}
use c4raven_server.Eud.Login.{ssl_names, setup_ssl}
use c4raven_server.Eud.Broker.{
  IsGuardedIfAny, IsLoggedOut, bind_cert-IsKept, channel-IsKept, on_channel_open-IsGuarded,
  on_channel_open-IsLoggedOut, on_message-IsKept, on_control_message-IsKept, channel_close-IsKept,
}

or_stuck-IsGuarded :
    (s : Session) (o : Option Session) → IsGuarded s → IsGuardedIfAny o → IsGuarded (or_stuck s o)
or_stuck-IsGuarded s none g h = g
or_stuck-IsGuarded s (some t) g h = h

or_stuck-login :
    (s : Session) (o : Option Session)
    → s.is_authenticated ≡ false
    → IsLoggedOut o
    → (or_stuck s o).is_authenticated ≡ false
or_stuck-login s none g h = g
or_stuck-login s (some t) g h = h

serial-IsKept :
    (serial : Option String) (s : Session) → IsKept s (record s { cert_serial = serial })
serial-IsKept serial s = fields-IsKept refl refl refl refl refl

-- An input of the thread of RabbitMQ, which starts before the handshake.
abbrev pub IsFromBroker : Input → Type 0
IsFromBroker channel_opens = Unit
IsFromBroker channel_closes = Unit
IsFromBroker cert_binds = Unit
IsFromBroker (delivery writes d) = Unit
IsFromBroker (control c) = Unit
IsFromBroker _ = ⊥

-- An input after the handshake, which happens once.
abbrev pub IsLater : Input → Type 0
IsLater (handshakes succeeds serial names) = ⊥
IsLater _ = Unit

-- The common names of a certificate that has at most one.
abbrev pub names_of : Option String → List String
names_of none = []
names_of (some cn) = cn ∷ []

module _ (lower : String → String) (decode : String → Option Claims) (hash_of : Claims → String)
    (find_user : String → Option User) (verify_password : String → String → Bool)
    (ldap : Option (String → String → Option User)) (is_revoked : String → Bool)
    (event_type : String → Option String) (tokens : List Token) (groups : List Group)
    (memberships : List GroupUser) where
  abbrev after : Input → Session → Session
  after =
      step lower decode hash_of find_user verify_password ldap is_revoked event_type tokens groups
        memberships

  -- The login by the common name, whoever was the user before it.
  names-IsGuarded :
      (cn : Option String) (s : Session)
      → s.is_authenticated ≡ false
      → IsGuarded s
      → IsGuarded
          (ssl_names lower decode hash_of find_user verify_password ldap tokens (names_of cn) s)
  unfolding ssl_names
  names-IsGuarded none s a g = g
  names-IsGuarded (some cn) s a g =
      handle_auth-IsGuarded lower decode hash_of find_user verify_password ldap tokens none
        (record s { common_name = some cn; user = find_user cn })
        (record {
          over_ssl = g.over_ssl;
          vouched =
              subst (λ b. All (IsVouched b (find_user cn)) s.outputs) (sym a)
                (All-map (for_user s.user (find_user cn)) s.outputs
                  (subst (λ b. All (IsVouched b s.user) s.outputs) a g.vouched));
          none_waits = g.none_waits;
          has_user = λ h. absurd (cc (a, h));
        })

  setup_ssl-IsGuarded :
      (succeeds : Bool) (serial cn : Option String) (s : Session)
      → s.is_authenticated ≡ false
      → IsGuarded s
      → IsGuarded (after (handshakes succeeds serial (names_of cn)) s)
  unfolding step setup_ssl
  setup_ssl-IsGuarded succeeds serial cn s a g =
      if-case IsGuarded (not succeeds) (λ h. kept-IsGuarded (close_connection-IsKept s) g)
        (λ h.
          if-case IsGuarded (truthy serial && is_revoked (or_else serial ""))
            (λ k.
              kept-IsGuarded (IsKept-trans (serial-IsKept serial s) (close_connection-IsKept _)) g)
            (λ k.
              names-IsGuarded cn (record s { cert_serial = serial }) a
                (kept-IsGuarded (serial-IsKept serial s) g)))

  step-IsGuarded : (i : Input) (s : Session) → IsLater i → IsGuarded s → IsGuarded (after i s)
  unfolding step
  step-IsGuarded (handshakes succeeds serial names) s l g = absurd l
  step-IsGuarded (auth_message c) s l g =
      handle_auth-IsGuarded lower decode hash_of find_user verify_password ldap tokens (some c) s g
  step-IsGuarded (cot_message now writes e) s l g =
      handle_cot-IsGuarded groups memberships now writes e s g
  step-IsGuarded channel_opens s l g =
      or_stuck-IsGuarded _ _
        (kept-IsGuarded
          (IsKept-trans (channel-IsKept opened s)
            (bind_cert-IsKept is_revoked (record s { channel = opened })))
          g)
        (on_channel_open-IsGuarded is_revoked (suc (length s.cached_messages)) s g)
  step-IsGuarded channel_closes s l g = kept-IsGuarded (channel_close-IsKept s) g
  step-IsGuarded cert_binds s l g = kept-IsGuarded (bind_cert-IsKept is_revoked s) g
  step-IsGuarded ends s l g = kept-IsGuarded (close_connection-IsKept s) g
  step-IsGuarded (delivery writes d) s l g =
      kept-IsGuarded (on_message-IsKept event_type writes d s) g
  step-IsGuarded (control c) s l g = kept-IsGuarded (on_control_message-IsKept c s) g

  step-broker :
      (i : Input) (s : Session)
      → IsFromBroker i
      → IsGuarded s
      → s.is_authenticated ≡ false
      → IsGuarded (after i s) × ((after i s).is_authenticated ≡ false)
  unfolding step
  step-broker channel_opens s b g a = (
    step-IsGuarded channel_opens s tt g,
    or_stuck-login _ _
        ((IsKept-trans (channel-IsKept opened s)
            (bind_cert-IsKept is_revoked (record s { channel = opened }))).same_login
          ∙ a)
        (on_channel_open-IsLoggedOut is_revoked (suc (length s.cached_messages)) s g a),
  )
  step-broker channel_closes s b g a =
      (step-IsGuarded channel_closes s tt g, (channel_close-IsKept s).same_login ∙ a)
  step-broker cert_binds s b g a =
      (step-IsGuarded cert_binds s tt g, (bind_cert-IsKept is_revoked s).same_login ∙ a)
  step-broker (delivery writes d) s b g a = (
    step-IsGuarded (delivery writes d) s tt g,
    (on_message-IsKept event_type writes d s).same_login ∙ a,
  )
  step-broker (control c) s b g a =
      (step-IsGuarded (control c) s tt g, (on_control_message-IsKept c s).same_login ∙ a)
  step-broker (handshakes x y z) s b g a = absurd b
  step-broker (auth_message c) s b g a = absurd b
  step-broker (cot_message n w e) s b g a = absurd b
  step-broker ends s b g a = absurd b

  abbrev after_all : List Input → Session → Session
  after_all =
      run lower decode hash_of find_user verify_password ldap is_revoked event_type tokens groups
        memberships

  run-IsGuarded :
      (is : List Input) (s : Session) → All IsLater is → IsGuarded s → IsGuarded (after_all is s)
  unfolding run
  run-IsGuarded [] s l g = g
  run-IsGuarded (i ∷ is) s l g = run-IsGuarded is (after i s) l.1 (step-IsGuarded i s l.0 g)

  run_setup :
      (is : List Input) (succeeds : Bool) (serial cn : Option String) (later : List Input)
      (s : Session)
      → All IsFromBroker is
      → All IsLater later
      → IsGuarded s
      → s.is_authenticated ≡ false
      → IsGuarded (after_all (is ++ handshakes succeeds serial (names_of cn) ∷ later) s)
  unfolding run
  run_setup [] succeeds serial cn later s b l g a =
      run-IsGuarded later _ l (setup_ssl-IsGuarded succeeds serial cn s a g)
  run_setup (i ∷ is) succeeds serial cn later s b l g a =
      let next = step-broker i s b.0 g a in
      run_setup is succeeds serial cn later (after i s) b.1 l next.0 next.1

  -- A connection over SSL whose certificate has at most one common name: what comes from RabbitMQ in
  -- whatever order, then the handshake with the login by the certificate, whether they succeed or not,
  -- then whatever reaches it in whatever order. Every CoT that it has published carries the id of
  -- the user who logged in, and without a login no CoT is published.
  pub run-IsVouched :
      (is : List Input) (succeeds : Bool) (serial cn : Option String) (later : List Input)
      (s : Session)
      → All IsFromBroker is
      → All IsLater later
      → s.is_ssl ≡ true
      → s.is_authenticated ≡ false
      → s.cached_messages ≡ []
      → s.outputs ≡ []
      → (let t =
            run lower decode hash_of find_user verify_password ldap is_revoked event_type tokens
              groups memberships
              (is ++ handshakes succeeds serial (names_of cn) ∷ later)
              s in
          All (IsVouched t.is_authenticated t.user) t.outputs)
  run-IsVouched is succeeds serial cn later s b l ssl fresh none_cached quiet =
      (run_setup is succeeds serial cn later s b l
        (record {
          over_ssl = ssl;
          vouched = rw (quiet) tt;
          none_waits = λ h. none_cached;
          has_user = λ h. absurd (cc);
        })
        fresh).vouched
