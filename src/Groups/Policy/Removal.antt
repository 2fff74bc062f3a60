-- ===== src/Groups/Policy/Removal.antt =====
-- `expire_memberships`: which rows go, and what is notified of it.
use c4raven_server.Prelude.{
  ℕ, ◌-◌, ◌≡◌, refl, sym, ◌∙◌, Bool, true, false, ◌&&◌, not, Option, none, some, List, [], ◌∷◌,
  ◌++◌, map, arith, ◌==◌, nat_eq, if◌then◌else◌, filter, any, is_empty, length, Bool-cases, inl,
  inr, ap, append-nil, append_assoc, length-filter_split,
}
use c4raven_server.Groups.{Direction, GroupUser, of_member, is_expired}
use c4raven_server.Groups.Policy.{
  Expired, Directory, note_expired, collect_expired, expire_memberships, notify_expired,
  expired_event,
}
use c4raven_server.Groups.Policy.Keys.{IsKeyed, delete_rows-filter}

filter-none_true :
    (p : GroupUser → Bool) (rows : List GroupUser)
    → is_empty (filter p rows) ≡ true
    → (filter (λ r. not (p r)) rows ≡ rows) × (length (filter p rows) ≡ 0)
unfolding filter
filter-none_true p [] h = (refl, refl)
filter-none_true p (m ∷ ms) h = ground (arith, filter-none_true p ms)

-- No two entries of the dict have the same user and group.
abbrev pub IsDict : List Expired → Type 0
IsDict [] = Unit
IsDict (e ∷ es) =
    (any (λ (x : Expired). e.user_id == x.user_id && e.group_id == x.group_id) es ≡ false)
    × IsDict es

-- The directions that the dict has for a user and a group.
pub directions_of : ℕ → ℕ → List Expired → Option (List Direction)
directions_of u g [] = none
directions_of u g (e ∷ es) =
    if e.user_id == u && e.group_id == g then some e.directions else directions_of u g es

-- An entry exists once it has a direction.
abbrev pub extend : Option (List Direction) → List Direction → Option (List Direction)
extend none [] = none
extend none (d ∷ ds) = some (d ∷ ds)
extend (some old) ds = some (old ++ ds)

extend-extend :
    (o : Option (List Direction)) (a b : List Direction) → extend (extend o a) b ≡ extend o (a ++ b)
extend-extend none [] b = refl
extend-extend none (d ∷ ds) b = refl
extend-extend (some old) a b = ap some (append_assoc old a b)

extend-nil : (o : Option (List Direction)) → extend o [] ≡ o
extend-nil none = refl
extend-nil (some old) = ap some (append-nil old)

directions_of-note_expired :
    (u g : ℕ) (m : GroupUser) (es : List Expired)
    → directions_of u g (note_expired m es) ≡ (
        if of_member u g m
        then extend (directions_of u g es) (m.direction ∷ [])
        else directions_of u g es)
unfolding directions_of note_expired
directions_of-note_expired u g m [] = ground arith
directions_of-note_expired u g m (e ∷ es) = ground (arith, directions_of-note_expired u g m es)

directions_of-collect_expired :
    (u g : ℕ) (ms : List GroupUser) (es : List Expired)
    → directions_of u g (collect_expired ms es)
      ≡ extend
          (directions_of u g es)
          (map (λ (m : GroupUser). m.direction) (filter (of_member u g) ms))
unfolding collect_expired filter
directions_of-collect_expired u g [] es = sym (extend-nil (directions_of u g es))
directions_of-collect_expired u g (m ∷ ms) es = elim (Bool-cases (of_member u g m)) [
  | inl e ↦
      directions_of-collect_expired u g ms (note_expired m es)
      ∙ rw (directions_of-note_expired, e) (extend-extend (directions_of u g es) _ _)
  | inr e ↦
      directions_of-collect_expired u g ms (note_expired m es) ∙ rw (directions_of-note_expired, e)
]

note_expired-fresh :
    (u g : ℕ) (m : GroupUser) (es : List Expired)
    → any (λ (x : Expired). u == x.user_id && g == x.group_id) es ≡ false
    → (u == m.user_id && g == m.group_id) ≡ false
    → any (λ (x : Expired). u == x.user_id && g == x.group_id) (note_expired m es) ≡ false
unfolding any note_expired
note_expired-fresh u g m [] h k = ground arith
note_expired-fresh u g m (e ∷ es) h k = ground (arith, note_expired-fresh u g m es)

note_expired-IsDict : (m : GroupUser) (es : List Expired) → IsDict es → IsDict (note_expired m es)
unfolding note_expired any
note_expired-IsDict m [] k = (refl, tt)
note_expired-IsDict m (e ∷ es) k =
    elim (Bool-cases (e.user_id == m.user_id && e.group_id == m.group_id)) [
      | inl h ↦ rw (h) k
      | inr h ↦
          rw (h) (note_expired-fresh e.user_id e.group_id m es k.0 h, note_expired-IsDict m es k.1)
    ]

collect_expired-IsDict :
    (ms : List GroupUser) (es : List Expired) → IsDict es → IsDict (collect_expired ms es)
unfolding collect_expired
collect_expired-IsDict [] es k = k
collect_expired-IsDict (m ∷ ms) es k =
    collect_expired-IsDict ms (note_expired m es) (note_expired-IsDict m es k)

audit-notify_expired :
    (dir : Directory) (served : Expired → ℕ) (es : List Expired)
    → (notify_expired dir served es).1 ≡ map (expired_event dir) es
unfolding notify_expired
audit-notify_expired dir served [] = refl
audit-notify_expired dir served (e ∷ es) =
    ap (λ x. expired_event dir e ∷ x) (audit-notify_expired dir served es)

none_collected :
    (dir : Directory) (rows : List GroupUser)
    → is_empty rows ≡ true
    → [] ≡ map (expired_event dir) (collect_expired rows [])
unfolding collect_expired
none_collected dir [] h = refl
none_collected dir (m ∷ ms) h = cc

module _ (dir : Directory) (served : Expired → ℕ) (now : ℕ) (table : List GroupUser) where
  -- When the commit is taken, exactly the memberships whose expiry has come are gone, the others
  -- keep their order, and the number of removed rows is returned.
  pub expire_memberships_exact :
      IsKeyed table
      → let after = expire_memberships true dir served now table in
        (after.rows ≡ filter (λ m. not (is_expired now m)) table)
        × (after.removed ≡ some (length table - length after.rows))
  unfolding expire_memberships
  expire_memberships_exact k = elim (Bool-cases (is_empty (filter (is_expired now) table))) [
    | inl e ↦ rw (e) (sym (filter-none_true (is_expired now) table e).0, ground arith)
    | inr e ↦
        rw (e, delete_rows-filter (is_expired now) table k)
          (refl, ap some (omega (arith, length-filter_split (is_expired now) table)))
  ]

  -- When the commit is taken, the audit trail gets one event for each entry of the dict, which has
  -- one entry for each user and group that lost a row, and none for any other: the entry has the
  -- directions of all the rows that they lost, in the order of the table.
  pub expire_memberships_audit :
      (u g : ℕ)
      → let lost = filter (is_expired now) table in
        let entries = collect_expired lost [] in
        ((expire_memberships true dir served now table).audit ≡ map (expired_event dir) entries)
        × IsDict entries
        × (directions_of u g entries
            ≡ extend none (map (λ (m : GroupUser). m.direction) (filter (of_member u g) lost)))
  unfolding expire_memberships directions_of
  expire_memberships_audit u g = (events, dict, directions_of-collect_expired u g lost [])
    where
      lost : List GroupUser
      lost = filter (is_expired now) table

      dict : IsDict (collect_expired lost [])
      dict = collect_expired-IsDict lost [] tt

      events :
          (expire_memberships true dir served now table).audit
          ≡ map (expired_event dir) (collect_expired lost [])
      events = elim (Bool-cases (is_empty lost)) [
        | inl e ↦ rw (e) (none_collected dir lost e)
        | inr e ↦ rw (e) (audit-notify_expired dir served (collect_expired lost []))
      ]

  -- When the database refuses the commit nothing changes, and nobody is notified.
  pub expire_memberships_refused :
      let after = expire_memberships false dir served now table in
      (after.rows ≡ table) × (after.unbinds ≡ []) × (after.audit ≡ [])
  unfolding expire_memberships
  expire_memberships_refused = elim (Bool-cases (is_empty (filter (is_expired now) table))) [
    | inl e ↦ rw (e) (refl, refl, refl)
    | inr e ↦ rw (e) (refl, refl, refl)
  ]
