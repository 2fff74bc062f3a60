-- ===== src/Groups/Policy/AutoJoin.antt =====
-- `apply_auto_join`: who becomes a member of what, whatever the database answers to the commits.
use c4raven_server.Prelude.{
  ℕ, String, ◌≡◌, Bool, true, false, ◌&&◌, ◌||◌, not, Option, List, [], ◌∷◌, ◌++◌, map, arith, ◌==◌,
  nat_eq, filter, any, contains, or_else, is_empty, Bool-cases, inl, inr, ap, append-nil,
}
use c4raven_server.Groups.{
  Direction, Access, both, access_directions, Group, GroupUser, direction_eq,
}
use c4raven_server.Groups.Policy.{
  Commit, committed, integrity_error, failed, Joining, add_membership, default_expiry, join_outcome,
  join_loop, auto_joins, auto_join_details, apply_auto_join,
}
use c4raven_server.Groups.Policy.Keys.{IsKeyed}
use c4raven_server.Groups.Policy.Members.{
  is_member, new_row, add_membership_lem, add_membership-IsKeyed, is_member-add_membership,
}

-- One of the groups gives its new members this direction of group `g'`.
abbrev pub grants : List Group → ℕ → Direction → Bool
grants groups g' d =
    any
      (λ (g : Group). g.id == g' && contains (access_directions (or_else g.default_access both)) d)
      groups

added_none :
    (rows : List GroupUser) (u g : ℕ) (access : Access) (ex : Option ℕ)
    → is_empty (add_membership rows u g access ex).1 ≡ true
    → (add_membership rows u g access ex).0 ≡ rows
added_none rows u g access ex = rw add_membership_lem (go (filter _ _))
  where
    go :
        (added : List Direction) → is_empty added ≡ true → rows ++ map (new_row u g ex) added ≡ rows
    go [] h = append-nil rows
    go (d ∷ ds) h = cc

module _ (now : ℕ) (commit : Group → Commit) (u : ℕ) (username actor : String) where
  abbrev added : Group → List GroupUser → List GroupUser × List Direction
  added g rows = add_membership rows u g.id (or_else g.default_access both) (default_expiry now g)

  -- The state after a round whose rows are committed.
  abbrev after_round : Group → Joining → Joining
  after_round g j = record {
    rows = (added g j.rows).0;
    joined = j.joined ++ g.name ∷ [];
    audit =
        j.audit
        ++ record {
          action = "member_added";
          username = username;
          actor = actor;
          details = auto_join_details g (or_else g.default_access both);
        }
          ∷ [];
  }

  -- A round goes on from the same state, goes on with its rows committed, or ends the loop.
  join_round :
      (P : Joining → Type 0) (g : Group) (gs : List Group) (j : Joining)
      → P (join_loop now commit u username actor gs j)
      → P (join_loop now commit u username actor gs (after_round g j))
      → P j
      → P (join_loop now commit u username actor (g ∷ gs) j)
  unfolding join_loop
  join_round P g gs j same next end = elim (Bool-cases (is_empty (added g j.rows).1)) [
    | inl e ↦ rw (e) same
    | inr e ↦ rw (e) (go (commit g))
  ]
    where
      go :
          (c : Commit)
          → P (
              join_outcome c username actor g
                (or_else g.default_access both)
                (added g j.rows).0
                (λ k. join_loop now commit u username actor gs k)
                j)
      go committed = next
      go integrity_error = same
      go failed = end

  join_loop-IsKeyed :
      (groups : List Group) (j : Joining)
      → IsKeyed j.rows
      → IsKeyed (join_loop now commit u username actor groups j).rows
  unfolding join_loop
  join_loop-IsKeyed [] j k = k
  join_loop-IsKeyed (g ∷ gs) j k =
      join_round (λ r. IsKeyed r.rows) g gs j (join_loop-IsKeyed gs j k)
        (join_loop-IsKeyed gs (after_round g j) (add_membership-IsKeyed j.rows u _ _ _ k)) k

  is_member-added :
      (g : Group) (rows : List GroupUser) (u' g' : ℕ) (d : Direction)
      → is_member u' g' d (added g rows).0
        ≡ (is_member u' g' d rows || u == u' && grants (g ∷ []) g' d)
  unfolding any
  is_member-added g rows u' g' d = ground (
    arith,
    is_member-add_membership rows u g.id (or_else g.default_access both) (default_expiry now g) u'
        g' d,
  )

  -- Nobody loses a membership.
  join_loop_keeps :
      (groups : List Group) (j : Joining) (u' g' : ℕ) (d : Direction)
      → is_member u' g' d j.rows ≡ true
      → is_member u' g' d (join_loop now commit u username actor groups j).rows ≡ true
  unfolding join_loop
  join_loop_keeps [] j u' g' d h = h
  join_loop_keeps (g ∷ gs) j u' g' d h =
      join_round (λ r. is_member u' g' d r.rows ≡ true) g gs j (join_loop_keeps gs j u' g' d h)
        (join_loop_keeps gs (after_round g j) u' g' d
          (ground (arith, is_member-added g j.rows u' g' d)))
        h

  -- What a membership comes from.
  join_loop_sound :
      (groups : List Group) (j : Joining) (u' g' : ℕ) (d : Direction)
      → is_member u' g' d (join_loop now commit u username actor groups j).rows ≡ true
      → (is_member u' g' d j.rows || u == u' && grants groups g' d) ≡ true
  unfolding join_loop any
  join_loop_sound [] j u' g' d h = ground arith
  join_loop_sound (g ∷ gs) j u' g' d h =
      join_round
        (λ r.
          is_member u' g' d r.rows ≡ true
          → (is_member u' g' d j.rows || u == u' && grants (g ∷ gs) g' d) ≡ true)
        g gs j (λ k. ground (arith, join_loop_sound gs j u' g' d k))
        (λ k.
          ground (
            arith,
            join_loop_sound gs (after_round g j) u' g' d k,
            is_member-added g j.rows u' g' d,
          ))
        (λ k. ground arith) h

  -- With every commit taken, the loop adds all that the groups grant.
  join_loop_complete :
      ((g : Group) → commit g ≡ committed)
      → (groups : List Group) (j : Joining) (g' : ℕ) (d : Direction) → grants groups g' d ≡ true
      → is_member u g' d (join_loop now commit u username actor groups j).rows ≡ true
  unfolding join_loop any
  join_loop_complete ok [] j g' d h = cc
  join_loop_complete ok (g ∷ gs) j g' d h = elim (Bool-cases (is_empty (added g j.rows).1)) [
    | inl e ↦ rw (e) (
        rest j (join_loop_complete ok gs j g' d)
          (λ k. ground (arith, now_member k, ap (is_member u g' d) (unchanged e))))
    | inr e ↦
        rw (e, ok g)
          (rest (after_round g j) (join_loop_complete ok gs (after_round g j) g' d) now_member)
  ]
    where
      unchanged : is_empty (added g j.rows).1 ≡ true → (added g j.rows).0 ≡ j.rows
      unchanged e =
          added_none j.rows u g.id (or_else g.default_access both) (default_expiry now g) e

      now_member : grants (g ∷ []) g' d ≡ true → is_member u g' d (added g j.rows).0 ≡ true
      now_member k = ground (arith, is_member-added g j.rows u g' d)

      rest :
          (r : Joining)
          → (grants gs g' d ≡ true
              → is_member u g' d (join_loop now commit u username actor gs r).rows ≡ true)
          → (grants (g ∷ []) g' d ≡ true → is_member u g' d r.rows ≡ true)
          → is_member u g' d (join_loop now commit u username actor gs r).rows ≡ true
      rest r ih m = elim (Bool-cases (grants (g ∷ []) g' d)) [
        | inl k ↦ join_loop_keeps gs r u g' d (m k)
        | inr k ↦ ih (ground arith)
      ]

module _ (ldap : Bool) (now : ℕ) (commit : Group → Commit) (groups : List Group) (u : ℕ)
    (username : String) (actor : Option String) (rows : List GroupUser) where
  -- Whatever the commits do, auto-join keeps the primary key of groups_users.
  pub apply_auto_join-IsKeyed :
      IsKeyed rows → IsKeyed (apply_auto_join ldap now commit groups u username actor rows).rows
  unfolding apply_auto_join
  apply_auto_join-IsKeyed k = elim (Bool-cases ldap) [
    | inl e ↦ rw (e) k
    | inr e ↦ rw (e) (join_loop-IsKeyed now commit u username _ (filter auto_joins groups) _ k)
  ]

  -- Whatever the commits do, a membership after auto-join was there before it, or is one of the
  -- new user in a group that auto-joins (LIKE '__uv__%' does not match its name), in a direction of that
  -- group's default access, and LDAP is off.
  pub apply_auto_join_sound :
      (u' g' : ℕ) (d : Direction)
      → is_member u' g' d (apply_auto_join ldap now commit groups u username actor rows).rows ≡ true
      → (is_member u' g' d rows || not ldap && u == u' && grants (filter auto_joins groups) g' d)
        ≡ true
  unfolding apply_auto_join
  apply_auto_join_sound u' g' d = elim (Bool-cases ldap) [
    | inl e ↦ rw (e) (λ h. ground arith)
    | inr e ↦
        rw (e) (λ h. join_loop_sound now commit u username _ (filter auto_joins groups) _ u' g' d h)
  ]

  -- Whatever the commits do, nobody loses a membership.
  pub apply_auto_join_keeps :
      (u' g' : ℕ) (d : Direction)
      → is_member u' g' d rows ≡ true
      → is_member u' g' d (apply_auto_join ldap now commit groups u username actor rows).rows ≡ true
  unfolding apply_auto_join
  apply_auto_join_keeps u' g' d h = elim (Bool-cases ldap) [
    | inl e ↦ rw (e) h
    | inr e ↦
        rw (e) (join_loop_keeps now commit u username _ (filter auto_joins groups) _ u' g' d h)
  ]

  -- With LDAP off and every commit taken, the user gets every direction that the default access
  -- of an auto-joining group grants, on a locked group too. An auto-joining group is one that is set
  -- to auto-join and whose name LIKE '__uv__%' does not match, where each underscore stands for any
  -- character.
  pub apply_auto_join_complete :
      ldap ≡ false
      → ((g : Group) → commit g ≡ committed)
      → (g' : ℕ) (d : Direction) → grants (filter auto_joins groups) g' d ≡ true
      → is_member u g' d (apply_auto_join ldap now commit groups u username actor rows).rows ≡ true
  unfolding apply_auto_join
  apply_auto_join_complete e ok g' d h =
      rw (e) (join_loop_complete now commit u username _ ok (filter auto_joins groups) _ g' d h)
