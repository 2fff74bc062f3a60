-- ===== src/Groups/Policy.antt =====
-- raven/group_policy.py: default access, auto-join, membership expiry. The database session is
-- passed explicitly: `rows` is groups_users as committed. What the database answers to a commit
-- and what the message broker accepts are arguments.
pub mod Keys
pub mod Members
pub mod AutoJoin
pub mod Removal
use Prim.Native.Char.{code}
use Prim.Native.String.{◌++◌ as str_append}
use text.Mathlib.Text.{starts_with}
use c4raven_server.Prelude.{
  ℕ, zero, suc, ◌+◌, ◌*◌, String, ◌≡◌, Bool, true, false, ◌&&◌, ◌||◌, not, Option, none, some, List,
  [], ◌∷◌, ◌++◌, map, ◌==◌, nat_eq, text_eq, if◌then◌else◌, filter, contains, or_else, length, take,
  is_empty, leb,
}
use c4raven_server.Groups.{
  Direction, in_, out, Access, both, only, access_directions, Group, GroupUser, direction_eq,
  same_key, of_member, is_expired,
}

-- The arguments of a call of `record_audit_event`, whose category is "groups" here.
pub record AuditEvent : Type 0 where
  pub action : String
  pub username : String
  pub actor : String
  pub details : String

abbrev pub system_actor : String
system_actor = "system"

abbrev pub pairwise_prefix : String
pairwise_prefix = "__uv__"

unfoldable pub default_expiry : ℕ → Group → Option ℕ
default_expiry now group = elim group.default_membership_days [
  | none ↦ none
  | some days ↦ if days == 0 then none else some (now + days * 86400)
]

unfoldable pub access_of : List Direction → Option Access
access_of directions =
    if contains directions in_ && contains directions out
    then some both
    else if contains directions in_
    then some (only in_)
    else if contains directions out
    then some (only out)
    else none

unfoldable pub access_label : Option Access → String
access_label (some both) = "send & receive"
access_label (some (only in_)) = "send only"
access_label (some (only out)) = "receive only"
access_label none = "none"

-- The loop of `add_membership` over the access's directions.
add_directions :
    (existing : List Direction) (user_id group_id : ℕ) (expires_at : Option ℕ)
    → List Direction
    → List GroupUser × List Direction
add_directions existing u g expires_at [] = ([], [])
add_directions existing u g expires_at (d ∷ ds) =
    let (new, added) = add_directions existing u g expires_at ds in
    if contains existing d then (new, added) else (
      record {
        user_id = u;
        group_id = g;
        direction = d;
        enabled = some true;
        expires_at = expires_at;
      }
          ∷ new,
      d ∷ added,
    )

-- The rows with the new ones, not committed yet, and the directions added.
unfoldable pub add_membership :
    List GroupUser → (user_id group_id : ℕ) → Access → Option ℕ → List GroupUser × List Direction
unfolding add_directions
add_membership rows u g access expires_at =
    let existing = map (λ (m : GroupUser). m.direction) (filter (of_member u g) rows) in
    let (new, added) = add_directions existing u g expires_at (access_directions access) in
    (rows ++ new, added)

-- What `db.session.commit()` does: another process may have inserted the same row.
pub data Commit : Type 0 where
  committed integrity_error failed : Commit

pub record Joining : Type 0 where
  pub rows : List GroupUser
  pub joined : List String
  pub audit : List AuditEvent

abbrev pub auto_join_details : Group → Access → String
auto_join_details group access = str_append "Group: " (
    str_append group.name
      (str_append " · Access: " (str_append (access_label (some access)) " · Auto-join")))

-- After the commit of one round of the loop: `rest` is the remaining rounds. A row that another
-- process inserted first is rolled back and the loop goes on; any other error ends it.
join_outcome :
    Commit
    → (username actor : String) → Group
    → Access
    → List GroupUser
    → (Joining → Joining)
    → Joining
    → Joining
join_outcome committed username actor group access rows rest j = rest (record {
  rows = rows;
  joined = j.joined ++ group.name ∷ [];
  audit =
      j.audit
      ++ record {
        action = "member_added";
        username = username;
        actor = actor;
        details = auto_join_details group access;
      }
        ∷ [];
})
join_outcome integrity_error username actor group access rows rest j = rest j
join_outcome failed username actor group access rows rest j = j

join_loop :
    (now : ℕ) (commit : Group → Commit) (user_id : ℕ) (username actor : String)
    → List Group
    → Joining
    → Joining
unfolding join_outcome
join_loop now commit u username actor [] j = j
join_loop now commit u username actor (group ∷ groups) j =
    let access = or_else group.default_access both in
    let (rows, added) = add_membership j.rows u group.id access (default_expiry now group) in
    if is_empty added
    then join_loop now commit u username actor groups j
    else join_outcome (commit group) username actor group access rows
        (join_loop now commit u username actor groups) j

-- `column LIKE pattern || '%'` of a pattern without `%`: a `_` (95) stands for any character. Case counts,
-- as in PostgreSQL.
unfoldable pub like_prefix : String → String → Bool
like_prefix s String.[] = true
like_prefix String.[] (String.◌∷◌ d t) = false
like_prefix (String.◌∷◌ c s) (String.◌∷◌ d t) =
    (code d == 95 || code c == code d) && like_prefix s t

-- The column's `startswith` is a LIKE whose pattern is not escaped, so that the underscores of the
-- prefix match any character.
abbrev pub auto_joins : Group → Bool
auto_joins g = g.auto_join && not (like_prefix g.name pairwise_prefix)

-- RAVEN_ENABLE_LDAP is `ldap`; `actor` is None for a self-registered user.
unfoldable pub apply_auto_join :
    (ldap : Bool) (now : ℕ) (commit : Group → Commit) (groups : List Group) (user_id : ℕ)
    (username : String) (actor : Option String)
    → List GroupUser
    → Joining
unfolding join_loop
apply_auto_join ldap now commit groups u username actor rows =
    let start : Joining = record { rows = rows; joined = []; audit = [] } in
    if ldap
    then start
    else join_loop now commit u username (or_else actor system_actor) (filter auto_joins groups)
        start

-- What the ORM's relationships give for the ids of a membership.
pub record Directory : Type 0 where
  pub username : ℕ → String
  pub group_name : ℕ → String
  pub euds : ℕ → List String

-- One `channel.queue_unbind`: the queue, and the group and direction of the routing key.
pub record Unbind : Type 0 where
  pub queue : String
  pub group_name : String
  pub direction : Direction

-- One entry of the dict `expired`.
pub record Expired : Type 0 where
  pub user_id : ℕ
  pub group_id : ℕ
  pub directions : List Direction

-- `expired.setdefault(key, ...)` and `entry[2].append(row.direction)`
unfoldable pub note_expired : GroupUser → List Expired → List Expired
note_expired m [] =
    record { user_id = m.user_id; group_id = m.group_id; directions = m.direction ∷ [] } ∷ []
note_expired m (e ∷ es) =
    if e.user_id == m.user_id && e.group_id == m.group_id
    then record e { directions = e.directions ++ m.direction ∷ [] } ∷ es
    else e ∷ note_expired m es

unfoldable pub collect_expired : List GroupUser → List Expired → List Expired
collect_expired [] es = es
collect_expired (m ∷ ms) es = collect_expired ms (note_expired m es)

-- `db.session.delete(row)` for each row, by primary key
unfoldable pub delete_rows : List GroupUser → List GroupUser → List GroupUser
delete_rows [] rows = rows
delete_rows (m ∷ ms) rows = delete_rows ms (filter (λ r. not (same_key r m)) rows)

unbinds_of : List String → String → List Direction → List Unbind
unbinds_of [] group_name directions = []
unbinds_of (uid ∷ uids) group_name directions =
    map (λ d. record { queue = uid; group_name = group_name; direction = d }) directions
    ++ unbinds_of uids group_name directions

-- `served` is the number of calls that the broker takes before it fails; the result is the calls
-- that it took, and whether it took them all.
unfoldable pub unbind_euds :
    (served : ℕ) → List String → String → List Direction → List Unbind × Bool
unfolding unbinds_of
unbind_euds served euds group_name directions =
    let calls = unbinds_of euds group_name directions in
    (take served calls, leb (length calls) served)

unfoldable pub expired_event : Directory → Expired → AuditEvent
expired_event dir e = record {
  action = "membership_expired";
  username = dir.username e.user_id;
  actor = system_actor;
  details = str_append "Group: " (
      str_append (dir.group_name e.group_id)
        (str_append " · Access: " (access_label (access_of e.directions))));
}

notify_expired : Directory → (served : Expired → ℕ) → List Expired → List Unbind × List AuditEvent
unfolding unbind_euds expired_event
notify_expired dir served [] = ([], [])
notify_expired dir served (e ∷ es) =
    let (calls, done) =
      unbind_euds (served e) (dir.euds e.user_id) (dir.group_name e.group_id) e.directions in
    let (more, events) = notify_expired dir served es in
    (calls ++ more, expired_event dir e ∷ events)

pub record Expiry : Type 0 where
  pub rows : List GroupUser
  pub unbinds : List Unbind
  pub audit : List AuditEvent
  pub removed : Option ℕ

-- `commits` is whether the database takes the commit: if not, the exception leaves the function
-- (`removed` is none) and nothing has changed.
unfoldable pub expire_memberships :
    (commits : Bool) → Directory → (served : Expired → ℕ) → (now : ℕ) → List GroupUser → Expiry
unfolding notify_expired
expire_memberships commits dir served now table =
    let expired = filter (is_expired now) table in
    if is_empty expired
    then record { rows = table; unbinds = []; audit = []; removed = some 0 }
    else if commits
    then (let (calls, events) = notify_expired dir served (collect_expired expired []) in
        record {
          rows = delete_rows expired table;
          unbinds = calls;
          audit = events;
          removed = some (length expired);
        })
    else record { rows = table; unbinds = []; audit = []; removed = none }
