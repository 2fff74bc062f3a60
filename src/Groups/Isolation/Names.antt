-- ===== src/Groups/Isolation/Names.antt =====
-- `resolve_group_names`: the groups found and the names missing.
use c4raven_server.Prelude.{
  ◌+◌, String, ◌≡◌, refl, ◌∙◌, Bool, false, ◌&&◌, not, Option, some, List, [], ◌∷◌, map, arith,
  ◌==◌, text_eq, contains, length, find?, is_none, Bool-cases, Option-cases, inl, inr, ==→≡,
  ==_refl,
}
use c4raven_server.Groups.{Group}
use c4raven_server.Groups.Isolation.{
  group_named, distinct_names, clean_names, dedup_from, look_up, resolve_group_names,
}

-- No name stands twice in the list.
abbrev pub IsDistinct : List String → Type 0
IsDistinct [] = Unit
IsDistinct (n ∷ ns) = (contains ns n ≡ false) × IsDistinct ns

dedup_from-unseen :
    (seen ns : List String) (n : String)
    → contains (dedup_from seen ns) n ≡ (contains ns n && not (contains seen n))
unfolding contains dedup_from
dedup_from-unseen seen [] n = refl
dedup_from-unseen seen (m ∷ ms) n =
    ground
      (arith, dedup_from-unseen seen ms n, dedup_from-unseen (m ∷ seen) ms n, text_eq.test_iff n m)

dedup_from-IsDistinct : (seen ns : List String) → IsDistinct (dedup_from seen ns)
unfolding dedup_from contains
dedup_from-IsDistinct seen [] = tt
dedup_from-IsDistinct seen (m ∷ ms) = elim (Bool-cases (contains seen m)) [
  | inl e ↦ rw (e) (dedup_from-IsDistinct seen ms)
  | inr e ↦ rw (e) (
    ground (arith, dedup_from-unseen (m ∷ seen) ms m, ==_refl m),
    dedup_from-IsDistinct (m ∷ seen) ms,
  )
]

group_named-name :
    (groups : List Group) (n : String) (g : Group) → group_named groups n ≡ some g → g.name ≡ n
unfolding group_named find?
group_named-name [] n g h = cc
group_named-name (x ∷ xs) n g h = elim (Bool-cases (x.name == n)) [
  | inl e ↦ ground (arith, ==→≡ x.name n e)
  | inr e ↦ group_named-name xs n g (ground arith)
]

look_up-length :
    (groups : List Group) (ns : List String)
    → length (look_up groups ns).0 + length (look_up groups ns).1 ≡ length ns
unfolding look_up
look_up-length groups [] = omega arith
look_up-length groups (n ∷ ns) = ground (arith, look_up-length groups ns)

look_up-found :
    (groups : List Group) (ns : List String) (k : String)
    → contains (map (λ (g : Group). g.name) (look_up groups ns).0) k
      ≡ (contains ns k && not (is_none (group_named groups k)))
unfolding look_up contains
look_up-found groups [] k = refl
look_up-found groups (n ∷ ns) k = elim (Option-cases (group_named groups n)) [
  | inl e ↦ rw (e) (ground (arith, look_up-found groups ns k, text_eq.test_iff k n))
  | inr (g, e) ↦ rw (e) (
      ground (
        arith,
        look_up-found groups ns k,
        text_eq.test_iff k n,
        text_eq.test_iff k g.name,
        group_named-name groups n g e,
      ))
]

look_up-missing :
    (groups : List Group) (ns : List String) (k : String)
    → contains (look_up groups ns).1 k ≡ (contains ns k && is_none (group_named groups k))
unfolding look_up contains
look_up-missing groups [] k = refl
look_up-missing groups (n ∷ ns) k = elim (Option-cases (group_named groups n)) [
  | inl e ↦ rw (e) (ground (arith, look_up-missing groups ns k, text_eq.test_iff k n))
  | inr (g, e) ↦ rw (e) (ground (arith, look_up-missing groups ns k, text_eq.test_iff k n))
]

-- A name stands among the texts that are not blank, stripped.
abbrev pub asked : List (Option String) → String → Bool
asked names k = contains (clean_names names) k

-- Take any text. If it was asked for (stripped, blanks and non-texts aside), then it is the name
-- of a returned group when a group has it, and reported missing when none has; if it was not, it
-- is neither. The groups and the missing names together are as many as the distinct names asked
-- for, so that no group is returned twice.
pub resolve_group_names_partition :
    (groups : List Group) (names : List (Option String)) (k : String)
    → let r = resolve_group_names groups names in
      (contains (map (λ (g : Group). g.name) r.0) k
        ≡ (asked names k && not (is_none (group_named groups k))))
      × (contains r.1 k ≡ (asked names k && is_none (group_named groups k)))
      × (length r.0 + length r.1 ≡ length (distinct_names names))
      × IsDistinct (distinct_names names)
unfolding resolve_group_names distinct_names contains
resolve_group_names_partition groups names k = (
  look_up-found groups (distinct_names names) k
      ∙ ground (arith, dedup_from-unseen [] (clean_names names) k),
  look_up-missing groups (distinct_names names) k
      ∙ ground (arith, dedup_from-unseen [] (clean_names names) k),
  look_up-length groups (distinct_names names),
  dedup_from-IsDistinct [] (clean_names names),
)
