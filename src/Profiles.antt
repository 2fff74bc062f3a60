-- ===== src/Profiles.antt =====
-- raven/device_profiles.py: which device profiles match a request, and which settings a device gets of
-- them. str.lower and the order of str are parameters; the user's group names are an argument.
pub mod Precedence
mod Examples
use c4raven_server.Prelude.{
  ℕ, String, Bool, true, false, ◌&&◌, ◌||◌, not, Option, none, some, List, [], ◌∷◌, ◌++◌, map, ◌==◌,
  nat_eq, text_eq, option_eq, if◌then◌else◌, filter, contains, ltb, leb, or_else, strip, sort_by,
}
use c4raven_server.Chat.{truthy}

pub data Kind : Type 0 where
  device_target user_target group_target : Kind

pub record Target : Type 0 where
  pub kind : Kind
  pub value : String

-- One row of the settings of a profile.
pub record ProfileSetting : Type 0 where
  pub key : String
  pub value : Option String
  pub value_class : Option String

-- A profile with its targets and settings; a flag that is NULL is none. Times are seconds since the
-- year 1, the earliest datetime.
pub record Profile : Type 0 where
  pub id : ℕ
  pub name : String
  pub enabled : Option Bool
  pub apply_on_enrollment : Option Bool
  pub apply_on_connection : Option Bool
  pub target_everyone : Bool
  pub tool : Option String
  pub updated_at : Option ℕ
  pub targets : List Target
  pub settings : List ProfileSetting

pub data Phase : Type 0 where
  enrollment connection tool_ : Phase

-- Who asks: the user's name, the names of the user's groups, and the device.
pub record Asker : Type 0 where
  pub username : Option String
  pub groups : List String
  pub eud_uid : Option String

abbrev pub everyone : ℕ
everyone = 0

abbrev pub group_ : ℕ
group_ = 1

abbrev pub user_ : ℕ
user_ = 2

abbrev pub device_ : ℕ
device_ = 3

unfoldable pub better : Option ℕ → Option ℕ → Option ℕ
better best none = best
better none (some level) = some level
better (some best) (some level) = if ltb best level then some level else some best

module _ (lower : String → String) where
  unfoldable pub is_match : Asker → Kind → String → Bool
  is_match a device_target value = truthy a.eud_uid && some value == a.eud_uid
  is_match a user_target value = truthy a.username && lower value == lower (or_else a.username "")
  is_match a group_target value = contains a.groups value

  abbrev pub level_of : Kind → ℕ
  level_of device_target = device_
  level_of user_target = user_
  level_of group_target = group_

  unfoldable pub target_level : Asker → Target → Option ℕ
  target_level a t = if is_match a t.kind t.value then some (level_of t.kind) else none

  -- the loop over the targets
  unfoldable pub best_level : Asker → Option ℕ → List Target → Option ℕ
  best_level a best [] = best
  best_level a best (t ∷ ts) = best_level a (better best (target_level a t)) ts

  unfoldable pub match_level : Profile → Asker → Option ℕ
  match_level p a = best_level a (if p.target_everyone then some everyone else none) p.targets

  -- `func.lower` of the database and str.lower are taken to be the same function.
  unfoldable pub in_phase : Phase → Option String → Profile → Bool
  in_phase tool_ tool p = elim p.tool [
    | none ↦ false
    | some name ↦ lower name == lower (strip (or_else tool ""))
  ]
  in_phase enrollment tool p = not (truthy p.tool) && or_else p.apply_on_enrollment false
  in_phase connection tool p = not (truthy p.tool) && or_else p.apply_on_connection false

  with_level : Option ℕ → Profile → List (ℕ × Profile) → List (ℕ × Profile)
  with_level none p rest = rest
  with_level (some level) p rest = (level, p) ∷ rest

  -- the loop over the profiles
  unfoldable pub matches_of : Asker → List Profile → List (ℕ × Profile)
  unfolding with_level
  matches_of a [] = []
  matches_of a (p ∷ ps) = with_level (match_level p a) p (matches_of a ps)

-- `(m[0], m[1].updated_at or epoch, m[1].id)`, compared as tuples
unfoldable pub ranks : ℕ × Profile → ℕ × Profile → Bool
ranks a b =
    ltb a.0 b.0
    || a.0 == b.0
      && (ltb (or_else a.1.updated_at 0) (or_else b.1.updated_at 0)
          || or_else a.1.updated_at 0 == or_else b.1.updated_at 0 && leb a.1.id b.1.id)

-- `matching_profiles`, for one of the three phases
unfoldable pub matching_profiles :
    (lower : String → String) → Phase → Option String → Asker → List Profile → List (ℕ × Profile)
matching_profiles lower phase tool a profiles =
    let chosen =
      filter (λ (p : Profile). or_else p.enabled false && in_phase lower phase tool p) profiles in
    let matches = sort_by ranks (matches_of lower a chosen) in
    elim phase [ tool_ ↦ if truthy tool then matches else [] | _ ↦ matches ]

-- What a device gets for one key.
pub record Resolved : Type 0 where
  pub key : String
  pub value : String
  pub value_class : String
  pub profile_id : ℕ
  pub profile_name : String

abbrev pub resolved : Profile → ProfileSetting → Resolved
resolved p s = record {
  key = s.key;
  value = or_else s.value "";
  value_class = if truthy s.value_class then or_else s.value_class "" else "class java.lang.String";
  profile_id = p.id;
  profile_name = p.name;
}

-- The settings of the matching profiles, in the order of the two loops.
unfoldable pub all_settings : List (ℕ × Profile) → List Resolved
all_settings [] = []
all_settings (m ∷ ms) = map (resolved m.1) m.1.settings ++ all_settings ms

-- `merged[key] = …`
unfoldable pub put_resolved : Resolved → List Resolved → List Resolved
put_resolved r [] = r ∷ []
put_resolved r (x ∷ xs) =
    let rest = put_resolved r xs in if x.key == r.key then r ∷ xs else x ∷ rest

unfoldable pub merge : List Resolved → List Resolved → List Resolved
merge [] merged = merged
merge (r ∷ rs) merged = merge rs (put_resolved r merged)

-- `resolve_settings`; `by_name` is the order of str
unfoldable pub resolve_settings :
    (lower : String → String)
    → (by_name : String → String → Bool) → Phase
    → Option String
    → Asker
    → List Profile
    → List Resolved
resolve_settings lower by_name phase tool a profiles =
    sort_by (λ (x : Resolved). λ (y : Resolved). by_name x.key y.key)
      (merge (all_settings (matching_profiles lower phase tool a profiles)) [])
