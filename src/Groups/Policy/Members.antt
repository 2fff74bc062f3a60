-- ===== src/Groups/Policy/Members.antt =====
-- `add_membership`: the rows that it adds.
use c4raven_server.Prelude.{
  ℕ, ◌≡◌, refl, ◌∙◌, Bool, true, false, ◌&&◌, ◌||◌, not, Option, some, List, [], ◌∷◌, ◌++◌, map,
  arith, ◌==◌, nat_eq, filter, any, contains, All, fun_ext, any-append, Bool-cases, inl, inr,
}
use c4raven_server.Groups.{
  Direction, in_, out, Access, both, only, access_directions, GroupUser, direction_beq,
  direction_beq_iff, direction_eq, same_key, of_member,
}
use c4raven_server.Groups.Policy.{add_directions, add_membership}
use c4raven_server.Groups.Policy.Keys.{IsKeyed, append-IsKeyed}

-- The table has a row for the user, the group and the direction.
unfoldable pub is_member : ℕ → ℕ → Direction → List GroupUser → Bool
is_member u g d rows = any (λ m. of_member u g m && direction_beq d m.direction) rows

-- The row that `add_membership` makes.
abbrev pub new_row : ℕ → ℕ → Option ℕ → Direction → GroupUser
new_row u g expires_at d = record {
  user_id = u;
  group_id = g;
  direction = d;
  enabled = some true;
  expires_at = expires_at;
}

contains-existing :
    (u g : ℕ) (d : Direction) (rows : List GroupUser)
    → contains (map (λ (m : GroupUser). m.direction) (filter (of_member u g) rows)) d
      ≡ is_member u g d rows
unfolding contains filter any is_member
contains-existing u g d [] = refl
contains-existing u g d (m ∷ ms) = ground (arith, contains-existing u g d ms)

add_directions_lem :
    (existing : List Direction) (u g : ℕ) (ex : Option ℕ) (ds : List Direction)
    → let added = filter (λ d. not (contains existing d)) ds in
      add_directions existing u g ex ds ≡ (map (new_row u g ex) added, added)
unfolding add_directions filter
add_directions_lem existing u g ex [] = refl
add_directions_lem existing u g ex (d ∷ ds) = elim (Bool-cases (contains existing d)) [
  | inl e ↦ rw (add_directions_lem existing u g ex ds, e)
  | inr e ↦ rw (add_directions_lem existing u g ex ds, e)
]

-- `add_membership` adds, at the end and in the access's order, an enabled row with the given
-- expiry for each direction of the access that the user has no row for; it changes no other row,
-- and returns the directions that it added.
pub add_membership_lem :
    (rows : List GroupUser) (u g : ℕ) (access : Access) (ex : Option ℕ)
    → let added = filter (λ d. not (is_member u g d rows)) (access_directions access) in
      add_membership rows u g access ex ≡ (rows ++ map (new_row u g ex) added, added)
unfolding add_membership
add_membership_lem rows u g access ex =
    rw (add_directions_lem, fun_ext (λ d. contains-existing u g d rows))

==_sym : (a b : ℕ) → (a == b) ≡ (b == a)
==_sym a b = ground arith

is_member-append :
    (u g : ℕ) (d : Direction) (xs ys : List GroupUser)
    → is_member u g d (xs ++ ys) ≡ (is_member u g d xs || is_member u g d ys)
unfolding is_member
is_member-append u g d xs ys = any-append _ xs ys

any-same_key-new :
    (u g : ℕ) (ex : Option ℕ) (d : Direction) (rows : List GroupUser)
    → any (same_key (new_row u g ex d)) rows ≡ is_member u g d rows
unfolding any is_member
any-same_key-new u g ex d [] = refl
any-same_key-new u g ex d (m ∷ ms) =
    ground (arith, any-same_key-new u g ex d ms, ==_sym u m.user_id, ==_sym g m.group_id)

new-IsKeyed :
    (rows : List GroupUser) (u g : ℕ) (access : Access) (ex : Option ℕ)
    → let added = filter (λ d. not (is_member u g d rows)) (access_directions access) in
      IsKeyed (map (new_row u g ex) added)
      × All (λ n. any (same_key n) rows ≡ false) (map (new_row u g ex) added)
unfolding filter any
new-IsKeyed rows u g both ex = elim (Bool-cases (is_member u g in_ rows)) [
  | inl a ↦ elim (Bool-cases (is_member u g out rows)) [
    | inl b ↦ rw (a, b) (tt, tt)
    | inr b ↦ rw (a, b) ((refl, tt), (any-same_key-new u g ex out rows ∙ b, tt))
  ]
  | inr a ↦ elim (Bool-cases (is_member u g out rows)) [
    | inl b ↦ rw (a, b) ((refl, tt), (any-same_key-new u g ex in_ rows ∙ a, tt))
    | inr b ↦
        rw (a, b)
          (
            (ground arith, (refl, tt)),
            (any-same_key-new u g ex in_ rows ∙ a, (any-same_key-new u g ex out rows ∙ b, tt)),
          )
  ]
]
new-IsKeyed rows u g (only d) ex = elim (Bool-cases (is_member u g d rows)) [
  | inl a ↦ rw (a) (tt, tt)
  | inr a ↦ rw (a) ((refl, tt), (any-same_key-new u g ex d rows ∙ a, tt))
]

-- `add_membership` keeps the primary key of groups_users.
pub add_membership-IsKeyed :
    (rows : List GroupUser) (u g : ℕ) (access : Access) (ex : Option ℕ)
    → IsKeyed rows
    → IsKeyed (add_membership rows u g access ex).0
add_membership-IsKeyed rows u g access ex k =
    rw add_membership_lem (
      append-IsKeyed rows _ k (new-IsKeyed rows u g access ex).0 (new-IsKeyed rows u g access ex).1)

is_member-new_rows :
    (rows : List GroupUser) (u g : ℕ) (ex : Option ℕ) (u' g' : ℕ) (d : Direction)
    (ds : List Direction)
    → is_member u' g' d (map (new_row u g ex) (filter (λ x. not (is_member u g x rows)) ds))
      ≡ (u == u' && g == g' && contains ds d && not (is_member u g d rows))
unfolding contains filter any is_member
is_member-new_rows rows u g ex u' g' d [] = ground arith
is_member-new_rows rows u g ex u' g' d (x ∷ xs) =
    ground (arith, is_member-new_rows rows u g ex u' g' d xs, direction_beq_iff d x)

-- After `add_membership` the user has a row for every direction of the access, and no row for
-- another user, group or direction has come or gone.
pub is_member-add_membership :
    (rows : List GroupUser) (u g : ℕ) (access : Access) (ex : Option ℕ) (u' g' : ℕ) (d : Direction)
    → is_member u' g' d (add_membership rows u g access ex).0
      ≡ (is_member u' g' d rows || u == u' && g == g' && contains (access_directions access) d)
is_member-add_membership rows u g access ex u' g' d =
    rw (add_membership_lem, is_member-append)
      (ground (arith, is_member-new_rows rows u g ex u' g' d (access_directions access)))
