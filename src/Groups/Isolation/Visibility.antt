-- ===== src/Groups/Isolation/Visibility.antt =====
-- Who sees an item, by the SQL clause and by the Python test.
use mathlib.Core.Bool.{and_self, or-false}
use c4raven_server.Prelude.{
  ℕ, ◌≤◌, ◌≡◌, refl, sym, ◌∙◌, ap, fun_ext, Bool, true, false, ◌&&◌, ◌||◌, not, Option, none, some,
  List, [], ◌∷◌, map, arith, ◌==◌, nat_eq, filter, any, contains, is_empty, filter_congr, any_congr,
  filter-true, filter-filter, any-filter, Bool-cases, inl, inr, Option-cases,
}
use c4raven_server.Groups.{Direction, in_, out, Group, GroupUser, User, direction_eq, is_expired}
use c4raven_server.Groups.Policy.{Directory, Expired, expire_memberships}
use c4raven_server.Groups.Policy.Keys.{IsKeyed}
use c4raven_server.Groups.Policy.Removal.{expire_memberships_exact}
use c4raven_server.Groups.Isolation.{
  Item, Tables, is_admin, user_id_of, is_active, membership_group_ids, assign_uploader_groups,
  group_visibility_clause, filter_by_groups, can_see,
}

ungrouped_lem : (gs : List Group) → not (any (λ g. true) gs) ≡ is_empty gs
unfolding any
ungrouped_lem [] = refl
ungrouped_lem (g ∷ gs) = refl

clause_admin :
    (t : Tables) (now : ℕ) (user : Option User)
    → is_admin user ≡ true
    → group_visibility_clause t now user ≡ none
unfolding group_visibility_clause
clause_admin t now user a = rw (a)

-- The clause of a user who is no administrator tests what `can_see` tests.
clause_other :
    (t : Tables) (now : ℕ) (user : Option User)
    → is_admin user ≡ false
    → group_visibility_clause t now user ≡ some (λ item. can_see t now (some item) user)
unfolding group_visibility_clause can_see
clause_other t now user a = elim (Option-cases (user_id_of user)) [
  | inl n ↦ rw (a, n) (ap some (fun_ext (λ item. ground (arith, ungrouped_lem item.groups))))
  | inr (u, s) ↦ rw (a, s) (ap some (fun_ext (λ item. ground (arith, ungrouped_lem item.groups))))
]

admin_sees :
    (t : Tables) (now : ℕ) (user : Option User) (item : Item)
    → is_admin user ≡ true
    → can_see t now (some item) user ≡ true
unfolding can_see
admin_sees t now user item a = rw (a)

-- A listing shows exactly the items, in order, that the test for a single item lets the user see.
pub filter_by_groups-can_see :
    (t : Tables) (now : ℕ) (user : Option User) (items : List Item)
    → filter_by_groups t now user items ≡ filter (λ item. can_see t now (some item) user) items
unfolding filter_by_groups
filter_by_groups-can_see t now user items = elim (Bool-cases (is_admin user)) [
  | inl a ↦ rw (clause_admin t now user a) (
      sym (
        filter_congr (λ item. can_see t now (some item) user) (λ item. true)
          (λ item. admin_sees t now user item a) items
        ∙ filter-true items))
  | inr a ↦ rw (clause_other t now user a)
]

-- A member of the group of `g`, by one of the rows.
contains-membership_group_ids :
    (rows : List GroupUser) (now u : ℕ) (d : Direction) (k : ℕ)
    → contains (membership_group_ids rows now u d) k
      ≡ any (λ (m : GroupUser). is_active now u d m && k == m.group_id) rows
unfolding contains membership_group_ids any filter
contains-membership_group_ids [] now u d k = refl
contains-membership_group_ids (m ∷ ms) now u d k =
    ground (arith, contains-membership_group_ids ms now u d k)

any-none : (ms : List GroupUser) (a : GroupUser → Bool) → any (λ m. a m && false) ms ≡ false
unfolding any
any-none [] a = refl
any-none (m ∷ ms) a = ground (arith, any-none ms a)

any-or :
    (a : GroupUser → Bool) (p q : GroupUser → Bool) (ms : List GroupUser)
    → any (λ m. a m && (p m || q m)) ms ≡ (any (λ m. a m && p m) ms || any (λ m. a m && q m) ms)
unfolding any
any-or a p q [] = refl
any-or a p q (m ∷ ms) = ground (arith, any-or a p q ms)

-- Groups first or memberships first: the same question.
pub any-contains_ids :
    (rows : List GroupUser) (now u : ℕ) (d : Direction) (gs : List Group)
    → any (λ (g : Group). contains (membership_group_ids rows now u d) g.id) gs
      ≡ any (λ m. is_active now u d m && any (λ (g : Group). g.id == m.group_id) gs) rows
unfolding any
any-contains_ids rows now u d [] = sym (any-none rows (is_active now u d))
any-contains_ids rows now u d (g ∷ gs) = ground (
  arith,
  contains-membership_group_ids rows now u d g.id,
  any-contains_ids rows now u d gs,
  any-or (is_active now u d) (λ m. g.id == m.group_id)
      (λ m. any (λ (g : Group). g.id == m.group_id) gs) rows,
)

-- A user who is no administrator sees an item that has groups exactly when the user has an id and
-- one of the user's memberships is an enabled (or unset), unexpired OUT membership of one of the
-- item's groups.
pub can_see_iff :
    (t : Tables) (now : ℕ) (user : User) (item : Item)
    → is_admin (some user) ≡ false
    → is_empty item.groups ≡ false
    → can_see t now (some item) (some user) ≡ (elim user.id [
      | none ↦ false
      | some u ↦
          any
            (λ m. is_active now u out m && any (λ (g : Group). g.id == m.group_id) item.groups)
            t.memberships
    ])
unfolding can_see
can_see_iff t now user item a e = elim (Option-cases user.id) [
  | inl n ↦ rw (a, e, n)
  | inr (u, s) ↦ rw (a, e, s) (any-contains_ids t.memberships now u out item.groups)
]

is_active-unexpired :
    (now later u : ℕ) (d : Direction) (m : GroupUser)
    → now ≤ later
    → (not (is_expired now m) && is_active later u d m) ≡ is_active later u d m
unfolding is_active
is_active-unexpired now later u d m h = ground arith

-- From the moment of the expiry job on, it makes no difference to the memberships that count:
-- a membership that it removes had stopped counting before.
pub membership_group_ids-expire_memberships :
    (dir : Directory) (served : Expired → ℕ) (now later : ℕ) (rows : List GroupUser)
    → IsKeyed rows
    → now ≤ later
    → (u : ℕ) (d : Direction)
    → membership_group_ids (expire_memberships true dir served now rows).rows later u d
      ≡ membership_group_ids rows later u d
unfolding membership_group_ids
membership_group_ids-expire_memberships dir served now later rows k h u d =
    rw (expire_memberships_exact dir served now rows k).0 (
      ap (map (λ (m : GroupUser). m.group_id)) (
        filter-filter (is_active later u d) (λ m. not (is_expired now m)) rows
        ∙ filter_congr _ _ (λ m. is_active-unexpired now later u d m h) rows))

-- So the expiry job changes nothing of what anybody sees then.
pub can_see-expire_memberships :
    (dir : Directory) (served : Expired → ℕ) (now later : ℕ) (t : Tables)
    → IsKeyed t.memberships
    → now ≤ later
    → (item : Option Item) (user : Option User)
    → can_see
        (record t { memberships = (expire_memberships true dir served now t.memberships).rows })
        later
        item
        user
      ≡ can_see t later item user
unfolding can_see
can_see-expire_memberships dir served now later t k h none user = refl
can_see-expire_memberships dir served now later t k h (some item) user =
    elim (Option-cases (user_id_of user)) [
      | inl n ↦ rw (n)
      | inr (u, s) ↦
          rw (
            s,
            membership_group_ids-expire_memberships dir served now later t.memberships k h u out,
          )
    ]

-- What the ORDER BY of a query does: the same rows, in some order.
abbrev pub IsReordering : (List Group → List Group) → Type 0
IsReordering by_name = (p : Group → Bool) (gs : List Group) → any p (by_name gs) ≡ any p gs

is_empty_reordered :
    (by_name : List Group → List Group)
    → IsReordering by_name
    → (p : Group → Bool) (gs : List Group) → any p gs ≡ true
    → is_empty (by_name (filter p gs)) ≡ false
unfolding any
is_empty_reordered by_name r p gs h =
    nonempty (by_name (filter p gs))
      (r p (filter p gs) ∙ any-filter p p gs ∙ any_congr _ p (λ g. and_self (p g)) gs ∙ h)
  where
    nonempty : (xs : List Group) → any p xs ≡ true → is_empty xs ≡ false
    nonempty [] k = cc
    nonempty (x ∷ xs) k = refl

groups-assign_uploader_groups :
    (by_name : List Group → List Group)
    → IsReordering by_name
    → (t : Tables) (now : ℕ) (item : Item) (uploader : User) (u : ℕ) → uploader.id ≡ some u
    → let p : Group → Bool = λ g. contains (membership_group_ids t.memberships now u in_) g.id in
      any p t.groups ≡ true
      → (assign_uploader_groups by_name t now item (some uploader)).groups
        ≡ by_name (filter p t.groups)
unfolding assign_uploader_groups
groups-assign_uploader_groups by_name o t now item uploader u eu h =
    rw (eu, is_empty_reordered by_name o _ t.groups h)

can_see_by_groups :
    (t : Tables) (now : ℕ) (item : Item) (reader : User) (r : ℕ)
    → reader.id ≡ some r
    → can_see t now (some item) (some reader) ≡ (
        is_admin (some reader)
        || is_empty item.groups
        || any
            (λ (g : Group). contains (membership_group_ids t.memberships now r out) g.id)
            item.groups)
unfolding can_see
can_see_by_groups t now item reader r er = rw (er) (ground arith)

-- An item that a user with a group to write to uploads is seen by exactly the administrators and
-- the users who read one of the groups that the uploader writes to.
pub can_see-assign_uploader_groups :
    (by_name : List Group → List Group)
    → IsReordering by_name
    → (t : Tables) (now : ℕ) (item : Item) (uploader reader : User) (u r : ℕ) → uploader.id ≡ some u
    → reader.id ≡ some r
    → any (λ (g : Group). contains (membership_group_ids t.memberships now u in_) g.id) t.groups
      ≡ true
    → can_see t now (some (assign_uploader_groups by_name t now item (some uploader))) (some reader)
      ≡ (is_admin (some reader)
          || any
              (λ (g : Group).
                contains (membership_group_ids t.memberships now u in_) g.id
                && contains (membership_group_ids t.memberships now r out) g.id)
              t.groups)
can_see-assign_uploader_groups by_name o t now item uploader reader u r eu er h =
    can_see_by_groups t now _ reader r er
    ∙ rw (
      groups-assign_uploader_groups by_name o t now item uploader u eu h,
      is_empty_reordered by_name o _ t.groups h,
      o,
      any-filter,
      or-false,
    )
