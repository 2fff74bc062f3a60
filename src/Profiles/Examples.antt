-- ===== src/Profiles/Examples.antt =====
-- Tests of the device profiles with three profiles, and the theorems at these.
use c4raven_server.Prelude.{
  ℕ, String, ◌≡◌, refl, Bool, true, false, none, some, List, [], ◌∷◌, map, ◌==◌, text_eq,
  if◌then◌else◌, any, IsSorted, filter, contains, sort_by,
}
use c4raven_server.Profiles.{
  device_target, user_target, group_target, Target, Profile, connection, Asker, Resolved, is_match,
  target_level, best_level, better, match_level, in_phase, matches_of, ranks, matching_profiles,
  all_settings, put_resolved, merge, resolve_settings,
}
use c4raven_server.Profiles.Precedence.{
  any_match, entry, last_of, match_level_lem, resolve_settings_lem,
}

abbrev profile : ℕ → Bool → List Target → String → Profile
profile id all targets value = record {
  id = id;
  name = "profile";
  enabled = some true;
  apply_on_enrollment = some true;
  apply_on_connection = some true;
  target_everyone = all;
  tool = none;
  updated_at = some id;
  targets = targets;
  settings = record { key = "locationCallsign"; value = some value; value_class = none } ∷ [];
}

-- for device B, for everyone, and for the group ops
abbrev profiles : List Profile
profiles =
    profile 1 false (record { kind = device_target; value = "B" } ∷ []) "device"
    ∷ profile 2 true [] "everyone"
    ∷ profile 3 true (record { kind = group_target; value = "ops" } ∷ []) "group"
    ∷ []

abbrev alice : Asker
alice = record { username = some "alice"; groups = "ops" ∷ []; eud_uid = some "B" }

abbrev same_case : String → String
same_case s = s

abbrev unordered : String → String → Bool
unordered a b = true

-- tests

precedence_test :
    map
      (λ (r : Resolved). r.value)
      (resolve_settings same_case unordered connection none alice profiles)
    ≡ "device" ∷ []
unfolding resolve_settings matching_profiles filter in_phase matches_of match_level best_level
    better target_level is_match contains sort_by ranks all_settings merge put_resolved
precedence_test = refl

other_device_test :
    map
      (λ (r : Resolved). r.value)
      (resolve_settings same_case unordered connection none
        (record alice { eud_uid = some "C" })
        profiles)
    ≡ "group" ∷ []
unfolding resolve_settings matching_profiles filter in_phase matches_of match_level best_level
    better target_level is_match contains sort_by ranks all_settings merge put_resolved
other_device_test = refl

-- the theorems at these profiles

match_level_lem_example :
    let p = profile 3 true (record { kind = group_target; value = "ops" } ∷ []) "group" in
    match_level same_case p alice ≡ (
      if any_match same_case alice device_target p.targets
      then some 3
      else if any_match same_case alice user_target p.targets
      then some 2
      else if any_match same_case alice group_target p.targets
      then some 1
      else if true
      then some 0
      else none)
match_level_lem_example =
    match_level_lem same_case alice
      (profile 3 true (record { kind = group_target; value = "ops" } ∷ []) "group")

resolve_settings_lem_example :
    let ms = matching_profiles same_case connection none alice profiles in
    let merged = merge (all_settings ms) [] in
    let is_device = (λ (r : Resolved). r.value == "device") in
    IsSorted ranks ms
    × (entry "locationCallsign" merged ≡ last_of "locationCallsign" (all_settings ms) none)
    × (any is_device (resolve_settings same_case unordered connection none alice profiles)
        ≡ any is_device merged)
resolve_settings_lem_example =
    resolve_settings_lem same_case unordered connection none alice profiles "locationCallsign"
      (λ (r : Resolved). r.value == "device")
