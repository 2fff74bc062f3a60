-- ===== src/Groups.antt =====
-- The rows of raven/models/Group.py and raven/models/GroupUser.py, and the users that the group
-- code asks about. `raven/group_policy.py` is Groups.Policy, `raven/group_isolation.py` is
-- Groups.Isolation. An instant is a number of seconds (naive UTC in the source).
pub mod Policy
pub mod Isolation
mod Examples
use c4raven_server.Prelude.{
  ℕ, String, ◌≡◌, refl, ◌↔◌, Bool, true, false, ◌&&◌, ◌||◌, Option, none, some, List, [], ◌∷◌,
  arith, HasEq, ◌==◌, nat_eq, leb,
}

-- Group.IN and Group.OUT. The column is a string; the code writes these two only.
pub data Direction : Type 0 where
  in_ out : Direction

abbrev pub direction_beq : Direction → Direction → Bool
direction_beq in_ in_ = true
direction_beq out out = true
direction_beq _ _ = false

pub direction_beq_iff : (a b : Direction) → (direction_beq a b ≡ true) ↔ (a ≡ b)
direction_beq_iff in_ in_ = ground arith
direction_beq_iff in_ out = ground arith
direction_beq_iff out in_ = ground arith
direction_beq_iff out out = ground arith

instance abbrev pub direction_eq : HasEq Direction
direction_eq = record { test = direction_beq; test_iff = direction_beq_iff }

-- "both", "IN" (send only) or "OUT" (receive only)
pub data Access : Type 0 where
  both : Access
  only : Direction → Access

-- ACCESS_DIRECTIONS
abbrev pub access_directions : Access → List Direction
access_directions both = in_ ∷ out ∷ []
access_directions (only d) = d ∷ []

pub record Group : Type 0 where
  pub id : ℕ
  pub name : String
  pub default_access : Option Access
  pub auto_join : Bool
  pub default_membership_days : Option ℕ
  pub locked : Bool

-- `enabled` and `expires_at` are nullable columns.
pub record GroupUser : Type 0 where
  pub user_id : ℕ
  pub group_id : ℕ
  pub direction : Direction
  pub enabled : Option Bool
  pub expires_at : Option ℕ

-- A user as the requester of a page; an anonymous one has no id.
pub record User : Type 0 where
  pub id : Option ℕ
  pub username : String
  pub is_authenticated : Bool
  pub is_administrator : Bool

-- The primary key of groups_users.
abbrev pub same_key : GroupUser → GroupUser → Bool
same_key a b =
    a.user_id == b.user_id && a.group_id == b.group_id && direction_beq a.direction b.direction

-- The rows of one user in one group.
abbrev pub of_member : ℕ → ℕ → GroupUser → Bool
of_member user_id group_id m = m.user_id == user_id && m.group_id == group_id

-- `GroupUser.expires_at <= now`, which a NULL does not satisfy
abbrev pub is_expired : ℕ → GroupUser → Bool
is_expired now m = elim m.expires_at [ none ↦ false | some t ↦ leb t now ]
