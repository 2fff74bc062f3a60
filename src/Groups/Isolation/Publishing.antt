-- ===== src/Groups/Isolation/Publishing.antt =====
-- Who may publish to an existing stream.
use c4raven_server.Prelude.{
  ℕ, ◌≡◌, refl, ◌∙◌, Bool, true, false, ◌&&◌, ◌||◌, none, some, List, [], ◌∷◌, arith, ◌==◌, nat_eq,
  text_eq, any, is_empty, Option-cases, inl, inr,
}
use c4raven_server.Groups.{Direction, in_, Group, GroupUser, User, direction_beq, direction_eq}
use c4raven_server.Groups.Isolation.{
  Item, Tables, is_admin, is_active, owns, ownerless, can_publish,
}
use c4raven_server.Groups.Isolation.Visibility.{any-contains_ids}

any_of_empty :
    (gs : List Group) (rows : List GroupUser) (a : GroupUser → Bool)
    → is_empty gs ≡ true
    → any (λ m. a m && any (λ (g : Group). g.id == m.group_id) gs) rows ≡ false
unfolding any
any_of_empty [] [] a h = refl
any_of_empty [] (m ∷ ms) a h = ground (arith, any_of_empty [] ms a h)
any_of_empty (g ∷ gs) rows a h = cc

-- A user with an id may publish to a stream exactly when they are an administrator, or own it, or
-- it has neither groups nor an owner, or one of their enabled (or unset), unexpired IN memberships
-- is of one of its groups. A user with no id may not.
pub can_publish_iff :
    (t : Tables) (now : ℕ) (item : Item) (user : User)
    → can_publish t now (some item) (some user) ≡ (elim user.id [
      | none ↦ false
      | some u ↦
          is_admin (some user)
          || owns item.username user.username
          || is_empty item.groups && ownerless item.username
          || any
              (λ m. is_active now u in_ m && any (λ (g : Group). g.id == m.group_id) item.groups)
              t.memberships
    ])
unfolding can_publish
can_publish_iff t now item user = elim (Option-cases user.id) [
  | inl n ↦ rw (n)
  | inr (u, s) ↦ rw (s) (
      ground (
        arith,
        any-contains_ids t.memberships now u in_ item.groups,
        any_of_empty item.groups t.memberships (is_active now u in_),
      ))
]

read_only :
    (u : ℕ) (d : Direction) (now : ℕ) (p : GroupUser → Bool) (rows : List GroupUser)
    → any (λ (m : GroupUser). m.user_id == u && direction_beq m.direction d) rows ≡ false
    → any (λ m. is_active now u d m && p m) rows ≡ false
unfolding any is_active
read_only u d now p [] h = refl
read_only u d now p (m ∷ ms) h = ground (arith, read_only u d now p ms)

-- Reading is not writing: a user with no IN membership at all, who neither administrates nor owns
-- a stream that has groups, cannot publish to it, whatever OUT memberships they have.
pub can_publish_needs_write :
    (t : Tables) (now : ℕ) (item : Item) (user : User) (u : ℕ)
    → user.id ≡ some u
    → is_admin (some user) ≡ false
    → owns item.username user.username ≡ false
    → is_empty item.groups ≡ false
    → any (λ (m : GroupUser). m.user_id == u && direction_beq m.direction in_) t.memberships ≡ false
    → can_publish t now (some item) (some user) ≡ false
can_publish_needs_write t now item user u s a o e h =
    can_publish_iff t now item user ∙ simp (s, a, o, e, read_only u in_ now _ t.memberships h)
