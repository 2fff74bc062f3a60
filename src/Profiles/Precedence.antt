-- ===== src/Profiles/Precedence.antt =====
-- Which match counts, and which profile's setting a device gets.
use c4raven_server.Prelude.{
  ℕ, String, ◌≡◌, refl, ◌∙◌, ap, Bool, true, false, ◌&&◌, ◌||◌, Option, none, some, List, [], ◌∷◌,
  arith, ◌==◌, nat_eq, text_eq, option_eq, if◌then◌else◌, any, leb, sort_by, any-sort_by, IsSorted,
  sort_by-IsSorted, find?, Bool-cases, inl, inr, ==→≡, ==_sym, or_else,
}
use c4raven_server.Chat.{truthy}
use c4raven_server.Profiles.{
  Kind, device_target, user_target, group_target, Target, Profile, Phase, Asker, better, is_match,
  level_of, target_level, best_level, match_level, ranks, Resolved, all_settings, put_resolved,
  merge, matches_of, enrollment, connection, tool_, matching_profiles, resolve_settings,
}

abbrev is_of : Kind → Kind → Bool
is_of device_target device_target = true
is_of user_target user_target = true
is_of group_target group_target = true
is_of _ _ = false

-- The most specific of the kinds that match, above what is given.
abbrev pub pick : Option ℕ → (by_device by_user by_group : Bool) → Option ℕ
pick best true by_user by_group = some 3
pick best false true by_group = better best (some 2)
pick best false false true = better best (some 1)
pick best false false false = best

pick_step :
    (lower : String → String) (best : Option ℕ) (k : Kind) (m d u g : Bool)
    → leb (or_else best 0) 3 ≡ true
    → pick (better best (if m then some (level_of lower k) else none)) d u g
      ≡ pick best
          (is_of k device_target && m || d)
          (is_of k user_target && m || u)
          (is_of k group_target && m || g)
unfolding better
pick_step lower best k false d u g h = ground arith
pick_step lower best device_target true d u g h = ground arith
pick_step lower best user_target true d u g h = ground arith
pick_step lower best group_target true d u g h = ground arith

better_small :
    (lower : String → String) (best : Option ℕ) (k : Kind) (m : Bool)
    → leb (or_else best 0) 3 ≡ true
    → leb (or_else (better best (if m then some (level_of lower k) else none)) 0) 3 ≡ true
unfolding better
better_small lower best k false h = ground arith
better_small lower none device_target true h = refl
better_small lower none user_target true h = refl
better_small lower none group_target true h = refl
better_small lower (some b) device_target true h = ground arith
better_small lower (some b) user_target true h = ground arith
better_small lower (some b) group_target true h = ground arith

pick_start :
    (e d u g : Bool)
    → pick (if e then some 0 else none) d u g ≡ (
        if d
        then some 3
        else if u
        then some 2
        else if g
        then some 1
        else if e
        then some 0
        else none)
unfolding better
pick_start e d u g = ground arith

start_small : (e : Bool) → leb (or_else (if e then some 0 else none) 0) 3 ≡ true
start_small e = ground arith

module _ (lower : String → String) (a : Asker) where
  -- A target of the kind matches.
  abbrev pub any_match : Kind → List Target → Bool
  any_match k ts = any (λ (t : Target). is_of t.kind k && is_match lower a t.kind t.value) ts

  best_level_lem :
      (best : Option ℕ) (ts : List Target)
      → leb (or_else best 0) 3 ≡ true
      → best_level lower a best ts
        ≡ pick best
            (any_match device_target ts)
            (any_match user_target ts)
            (any_match group_target ts)
  unfolding best_level any target_level
  best_level_lem best [] h = refl
  best_level_lem best (t ∷ ts) h =
      best_level_lem (better best (target_level lower a t)) ts
        (better_small lower best t.kind (is_match lower a t.kind t.value) h)
      ∙ pick_step lower best t.kind (is_match lower a t.kind t.value) _ _ _ h

  -- A profile matches by its device, else by its user, else by one of the user's groups, else
  -- because it is for everyone, in whatever order its targets stand; without any of these it does not
  -- match.
  pub match_level_lem :
      (p : Profile)
      → match_level lower p a ≡ (
          if any_match device_target p.targets
          then some 3
          else if any_match user_target p.targets
          then some 2
          else if any_match group_target p.targets
          then some 1
          else if p.target_everyone
          then some 0
          else none)
  unfolding match_level
  match_level_lem p =
      best_level_lem (if p.target_everyone then some 0 else none) p.targets
        (start_small p.target_everyone)
      ∙ pick_start p.target_everyone _ _ _

-- The entry of the dict for a key.
pub entry : String → List Resolved → Option Resolved
entry k rs = find? (λ (r : Resolved). r.key == k) rs

-- The last of the entries for a key, and what was there before where there is none.
abbrev pub last_of : String → List Resolved → Option Resolved → Option Resolved
last_of k [] before = before
last_of k (r ∷ rs) before = last_of k rs (if r.key == k then some r else before)

entry-nil : (k : String) → entry k [] ≡ none
unfolding entry find?
entry-nil k = refl

entry-put_resolved :
    (r : Resolved) (rs : List Resolved) (k : String)
    → entry k (put_resolved r rs) ≡ (if r.key == k then some r else entry k rs)
unfolding entry put_resolved find?
entry-put_resolved r [] k = refl
entry-put_resolved r (x ∷ xs) k = elim (Bool-cases (x.key == r.key)) [
  | inl e ↦ rw (e, ==→≡ x.key r.key e) (ground arith)
  | inr e ↦ rw (e) (elim (Bool-cases (x.key == k)) [
    | inl f ↦ rw (f) (rw (← ==→≡ x.key k f) (rw (==_sym r.key x.key, e) refl))
    | inr f ↦ rw (f) (entry-put_resolved r xs k)
  ])
]

-- Of the settings of all matching profiles, in the order of precedence, the last one for a key is the
-- one that the device gets.
pub entry-merge :
    (k : String) (rs merged : List Resolved)
    → entry k (merge rs merged) ≡ last_of k rs (entry k merged)
unfolding merge
entry-merge k [] merged = refl
entry-merge k (r ∷ rs) merged =
    entry-merge k rs (put_resolved r merged) ∙ ap (last_of k rs) (entry-put_resolved r merged k)

ranks_total : (m n : ℕ × Profile) → ranks m n ≡ false → ranks n m ≡ true
unfolding ranks
ranks_total m n h = ground arith

ranks_trans : (l m n : ℕ × Profile) → ranks l m ≡ true → ranks m n ≡ true → ranks l n ≡ true
unfolding ranks
ranks_trans l m n h k = ground arith

module _ (lower : String → String) (by_name : String → String → Bool) (phase : Phase)
    (tool : Option String) (a : Asker) (profiles : List Profile) where
  matching_profiles-IsSorted : IsSorted ranks (matching_profiles lower phase tool a profiles)
  unfolding matching_profiles
  matching_profiles-IsSorted = sorted phase
    where
      all : (ps : List Profile) → IsSorted ranks (sort_by ranks (matches_of lower a ps))
      all ps = sort_by-IsSorted ranks ranks_total ranks_trans (matches_of lower a ps)

      sorted : (p : Phase) → IsSorted ranks (matching_profiles lower p tool a profiles)
      sorted enrollment = all _
      sorted connection = all _
      sorted tool_ = elim (Bool-cases (truthy tool)) [ inl e ↦ rw (e) (all _) | inr e ↦ rw (e) tt ]

  -- The matching profiles come least specific first, then by the time of their last update and their
  -- id; for each key the setting of the last of these that has one is the merged one; and what the
  -- device gets is exactly the merged settings.
  pub resolve_settings_lem :
      (k : String) (q : Resolved → Bool)
      → let ms = matching_profiles lower phase tool a profiles in
        let merged = merge (all_settings ms) [] in
        IsSorted ranks ms
        × (entry k merged ≡ last_of k (all_settings ms) none)
        × (any q (resolve_settings lower by_name phase tool a profiles) ≡ any q merged)
  unfolding resolve_settings
  resolve_settings_lem k q = (
    matching_profiles-IsSorted,
    entry-merge k _ []
        ∙ ap (last_of k (all_settings (matching_profiles lower phase tool a profiles)))
            (entry-nil k),
    any-sort_by _ q _,
  )
