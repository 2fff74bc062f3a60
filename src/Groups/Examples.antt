-- ===== src/Groups/Examples.antt =====
-- Tests of the group code on small tables, and its theorems at these tables.
use c4raven_server.Prelude.{
  ℕ, ◌-◌, ◌≡◌, refl, true, false, ◌&&◌, ◌||◌, not, Option, none, some, List, [], ◌∷◌, map, arith,
  ◌==◌, nat_eq, text_eq, filter, any, contains, length, find?, strip, is_empty,
}
use c4raven_server.Groups.{
  Direction, in_, out, only, Group, GroupUser, User, direction_eq, of_member, is_expired,
}
use c4raven_server.Groups.Policy.{
  AuditEvent, committed, Directory, Expired, add_membership, apply_auto_join, expire_memberships,
  collect_expired, expired_event, access_of, default_expiry, note_expired, unbind_euds,
  access_label, auto_joins, like_prefix,
}
use c4raven_server.Groups.Policy.Keys.{IsKeyed}
use c4raven_server.Groups.Policy.Members.{is_member}
use c4raven_server.Groups.Policy.AutoJoin.{apply_auto_join_complete}
use c4raven_server.Groups.Policy.Removal.{
  IsDict, directions_of, extend, expire_memberships_exact, expire_memberships_audit,
}
use c4raven_server.Groups.Isolation.{
  Item, Tables, is_admin, is_active, membership_group_ids, filter_by_groups, can_see, can_publish,
  group_named, distinct_names, resolve_group_names, owns, ownerless,
}
use c4raven_server.Groups.Isolation.Visibility.{
  IsReordering, filter_by_groups-can_see, can_see_iff, can_see-expire_memberships,
}
use c4raven_server.Groups.Isolation.Publishing.{can_publish_iff}

abbrev ops : Group
ops = record {
  id = 10;
  name = "ops";
  default_access = none;
  auto_join = true;
  default_membership_days = some 2;
  locked = true;
}

abbrev medics : Group
medics = record {
  id = 11;
  name = "medics";
  default_access = some (only out);
  auto_join = true;
  default_membership_days = none;
  locked = false;
}

abbrev pair : Group
pair = record {
  id = 12;
  name = "__uv__1_2";
  default_access = none;
  auto_join = true;
  default_membership_days = none;
  locked = false;
}

abbrev all_groups : List Group
all_groups = ops ∷ medics ∷ pair ∷ []

abbrev row : ℕ → ℕ → Direction → Option ℕ → GroupUser
row u g d t = record {
  user_id = u;
  group_id = g;
  direction = d;
  enabled = some true;
  expires_at = t;
}

-- user 1 writes to ops and reads it until 100; user 2 reads ops; user 3 was in medics until 90
abbrev table : List GroupUser
table =
    row 1 10 in_ none
    ∷ row 1 10 out (some 100)
    ∷ row 2 10 out none
    ∷ row 3 11 in_ (some 90)
    ∷ row 3 11 out (some 90)
    ∷ []

table-IsKeyed : IsKeyed table
unfolding any
table-IsKeyed = (refl, (refl, (refl, (refl, (refl, tt)))))

abbrev names_of : Directory
names_of = record {
  username = λ u. "user";
  group_name = λ g. "group";
  euds = λ u. "ANDROID-1" ∷ [];
}

abbrev takes_all : Expired → ℕ
takes_all e = 100

abbrev account : ℕ → User
account u = record {
  id = some u;
  username = "alice";
  is_authenticated = true;
  is_administrator = false;
}

abbrev tables : Tables
tables = record { groups = all_groups; memberships = table }

abbrev feed : Item
feed = record { groups = ops ∷ []; username = some "bob" }

-- tests

auto_join_test :
    (apply_auto_join false 50 (λ g. committed) all_groups 4 "dave" none []).rows
    ≡ row 4 10 in_ (some 172850) ∷ row 4 10 out (some 172850) ∷ row 4 11 out none ∷ []
unfolding apply_auto_join add_membership default_expiry filter contains like_prefix
auto_join_test = refl

-- A group that is set to auto-join and that nobody joins: its third and fourth letters are "uv".
louvre_test :
    (auto_joins (record ops { name = "Louvre"; auto_join = true }) ≡ false)
    × (auto_joins (record ops { name = "Ops"; auto_join = true }) ≡ true)
unfolding like_prefix
louvre_test = (refl, refl)

expire_test :
    (expire_memberships true names_of takes_all 95 table).unbinds
    ≡ record { queue = "ANDROID-1"; group_name = "group"; direction = in_ }
      ∷ record { queue = "ANDROID-1"; group_name = "group"; direction = out }
      ∷ []
unfolding expire_memberships filter collect_expired note_expired unbind_euds
expire_test = refl

expire_audit_test :
    map (λ (a : AuditEvent). a.details) (expire_memberships true names_of takes_all 95 table).audit
    ≡ "Group: group · Access: send & receive" ∷ []
unfolding expire_memberships filter collect_expired note_expired unbind_euds access_of access_label
    contains expired_event
expire_audit_test = refl

see_test :
    map (can_see tables 95 (some feed)) (some (account 1) ∷ some (account 3) ∷ none ∷ [])
    ≡ true ∷ false ∷ false ∷ []
unfolding can_see is_admin membership_group_ids is_active filter any contains
see_test = refl

resolve_test :
    (resolve_group_names all_groups
      (some " ops " ∷ none ∷ some "ops" ∷ some "xx" ∷ some " " ∷ [])).1
    ≡ "xx" ∷ []
unfolding resolve_group_names distinct_names strip group_named find? contains
resolve_test = refl

-- the theorems at these tables

apply_auto_join_complete_example :
    is_member 4 10 in_
      (apply_auto_join false 50 (λ g. committed) all_groups 4 "dave" none table).rows
    ≡ true
unfolding filter any contains like_prefix
apply_auto_join_complete_example =
    apply_auto_join_complete false 50 (λ g. committed) all_groups 4 "dave" none table refl
      (λ g. refl) 10 in_ refl

expire_memberships_exact_example :
    ((expire_memberships true names_of takes_all 95 table).rows
      ≡ filter (λ m. not (is_expired 95 m)) table)
    × ((expire_memberships true names_of takes_all 95 table).removed
        ≡ some (5 - length (expire_memberships true names_of takes_all 95 table).rows))
expire_memberships_exact_example =
    expire_memberships_exact names_of takes_all 95 table table-IsKeyed

expire_memberships_audit_example :
    ((expire_memberships true names_of takes_all 95 table).audit
      ≡ map (expired_event names_of) (collect_expired (filter (is_expired 95) table) []))
    × IsDict (collect_expired (filter (is_expired 95) table) [])
    × (directions_of 3 11 (collect_expired (filter (is_expired 95) table) [])
        ≡ extend none (
            map
              (λ (m : GroupUser). m.direction)
              (filter (of_member 3 11) (filter (is_expired 95) table))))
expire_memberships_audit_example = expire_memberships_audit names_of takes_all 95 table 3 11

filter_by_groups-can_see_example :
    filter_by_groups tables 95 (some (account 2)) (feed ∷ [])
    ≡ filter (λ item. can_see tables 95 (some item) (some (account 2))) (feed ∷ [])
filter_by_groups-can_see_example = filter_by_groups-can_see tables 95 (some (account 2)) (feed ∷ [])

can_see_iff_example :
    can_see tables 95 (some feed) (some (account 2))
    ≡ any (λ m. is_active 95 2 out m && any (λ (g : Group). g.id == m.group_id) (ops ∷ [])) table
unfolding is_admin
can_see_iff_example = can_see_iff tables 95 (account 2) feed refl refl

can_see-expire_memberships_example :
    can_see
      (record tables { memberships = (expire_memberships true names_of takes_all 95 table).rows })
      99
      (some feed)
      (some (account 1))
    ≡ can_see tables 99 (some feed) (some (account 1))
can_see-expire_memberships_example =
    can_see-expire_memberships names_of takes_all 95 99 tables table-IsKeyed (omega arith)
      (some feed) (some (account 1))

abbrev as_stored : List Group → List Group
as_stored gs = gs

as_stored-IsReordering : IsReordering as_stored
as_stored-IsReordering = λ p gs. refl

can_publish_iff_example : can_publish tables 95 (some feed) (some (account 1)) ≡ (
    is_admin (some (account 1))
    || owns (some "bob") "alice"
    || is_empty (ops ∷ []) && ownerless (some "bob")
    || any (λ m. is_active 95 1 in_ m && any (λ (g : Group). g.id == m.group_id) (ops ∷ [])) table)
can_publish_iff_example = can_publish_iff tables 95 feed (account 1)
