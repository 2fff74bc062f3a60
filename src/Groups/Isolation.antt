-- ===== src/Groups/Isolation.antt =====
-- raven/group_isolation.py: who may see, publish and tag a data package or a video stream. The
-- tables are arguments, and so is the clock. `by_name` stands for the database's ORDER BY name.
pub mod Visibility
pub mod Publishing
pub mod Names
use c4raven_server.Prelude.{
  ℕ, String, ◌≡◌, Bool, true, false, ◌&&◌, ◌||◌, not, Option, none, some, List, [], ◌∷◌, ◌++◌, map,
  ◌==◌, nat_eq, text_eq, option_eq, if◌then◌else◌, filter, any, contains, find?, is_empty, ltb,
  strip, is_none, or_else,
}
use c4raven_server.Groups.{Direction, in_, out, Group, GroupUser, User, direction_eq, direction_beq}

-- A data package or a video stream: its groups, and for a stream its owner.
pub record Item : Type 0 where
  pub groups : List Group
  pub username : Option String

pub record Tables : Type 0 where
  pub groups : List Group
  pub memberships : List GroupUser

unfoldable pub is_admin : Option User → Bool
is_admin none = false
is_admin (some user) = user.is_authenticated && user.is_administrator

-- `user is None or getattr(user, "id", None) is None`
abbrev pub user_id_of : Option User → Option ℕ
user_id_of none = none
user_id_of (some user) = user.id

-- The WHERE clause of `_membership_group_ids`: an active membership of the direction.
unfoldable pub is_active : ℕ → ℕ → Direction → GroupUser → Bool
is_active now user_id direction m =
    m.user_id == user_id
    && direction_beq m.direction direction
    && (elim m.enabled [ none ↦ true | some b ↦ b ])
    && (elim m.expires_at [ none ↦ true | some t ↦ ltb now t ])

unfoldable pub membership_group_ids : List GroupUser → ℕ → ℕ → Direction → List ℕ
membership_group_ids rows now user_id direction =
    map (λ (m : GroupUser). m.group_id) (filter (is_active now user_id direction) rows)

unfoldable pub uploader_groups :
    (by_name : List Group → List Group) → Tables → ℕ → Option User → List Group
uploader_groups by_name t now user = elim (user_id_of user) [
  | none ↦ []
  | some u ↦ by_name (
      filter (λ (g : Group). contains (membership_group_ids t.memberships now u in_) g.id) t.groups)
]

unfoldable pub assign_uploader_groups :
    (by_name : List Group → List Group) → Tables → ℕ → Item → Option User → Item
unfolding uploader_groups
assign_uploader_groups by_name t now item user =
    let groups = uploader_groups by_name t now user in
    if is_empty groups then item else record item { groups = groups }

-- A filter clause as the test that it makes of a row; None adds no clause.
unfoldable pub group_visibility_clause : Tables → ℕ → Option User → Option (Item → Bool)
group_visibility_clause t now user =
    let ungrouped : Item → Bool = λ item. not (any (λ g. true) item.groups) in
    if is_admin user then none else elim (user_id_of user) [
      | none ↦ some ungrouped
      | some u ↦ some (λ item.
          ungrouped item
          || any (λ (g : Group). contains (membership_group_ids t.memberships now u out) g.id)
              item.groups)
    ]

-- `query if clause is None else query.filter(clause)`
apply_clause : Option (Item → Bool) → List Item → List Item
apply_clause none items = items
apply_clause (some clause) items = filter clause items

unfoldable pub filter_by_groups : Tables → ℕ → Option User → List Item → List Item
unfolding apply_clause
filter_by_groups t now user items = apply_clause (group_visibility_clause t now user) items

unfoldable pub can_see : Tables → ℕ → Option Item → Option User → Bool
can_see t now none user = false
can_see t now (some item) user =
    if is_admin user || is_empty item.groups then true else elim (user_id_of user) [
      | none ↦ false
      | some u ↦
          let readable = membership_group_ids t.memberships now u out in
          any (λ (g : Group). contains readable g.id) item.groups
    ]

-- `owner and owner == user.username`
abbrev pub owns : Option String → String → Bool
owns none username = false
owns (some owner) username = not (owner == "") && owner == username

-- `not owner`
abbrev pub ownerless : Option String → Bool
ownerless none = true
ownerless (some owner) = owner == ""

unfoldable pub can_publish : Tables → ℕ → Option Item → Option User → Bool
can_publish t now none user = false
can_publish t now (some item) none = false
can_publish t now (some item) (some user) = elim user.id [
  | none ↦ false
  | some u ↦
      if is_admin (some user)
      then true
      else if owns item.username user.username
      then true
      else if is_empty item.groups
      then ownerless item.username
      else (let writable = membership_group_ids t.memberships now u in_ in
          any (λ (g : Group). contains writable g.id) item.groups)
]

-- The stripped texts among the names; what is no text is None here.
pub clean_names : List (Option String) → List String
clean_names [] = []
clean_names (none ∷ ns) = clean_names ns
clean_names (some n ∷ ns) =
    let rest = clean_names ns in if strip n == "" then rest else strip n ∷ rest

-- `dict.fromkeys`: the first of each name, in order
dedup_from : List String → List String → List String
dedup_from seen [] = []
dedup_from seen (n ∷ ns) =
    let rest = dedup_from (n ∷ seen) ns in
    let same = dedup_from seen ns in if contains seen n then same else n ∷ rest

unfoldable pub distinct_names : List (Option String) → List String
unfolding clean_names dedup_from
distinct_names names = dedup_from [] (clean_names names)

unfoldable pub group_named : List Group → String → Option Group
group_named groups name = find? (λ (g : Group). g.name == name) groups

place : String → Option Group → List Group × List String → List Group × List String
place n none (found, missing) = (found, n ∷ missing)
place n (some g) (found, missing) = (g ∷ found, missing)

look_up : List Group → List String → List Group × List String
unfolding place
look_up groups [] = ([], [])
look_up groups (n ∷ ns) = place n (group_named groups n) (look_up groups ns)

unfoldable pub resolve_group_names : List Group → List (Option String) → List Group × List String
unfolding look_up
resolve_group_names groups names = look_up groups (distinct_names names)
