-- ===== src/Retention/Settings/Updates.antt =====
-- What the retention settings are after an update, which changes it reports, and what the
-- validation and the description of a retention say.
use c4raven_server.Prelude.{
  ℕ, filter-append, All, All-map, All-map₂, any-false-All, ◌*◌, ◌%◌, ◌≤◌, String, ◌≡◌, ◌↔◌, refl,
  sym, ◌∙◌, ap, ap₂, Bool, true, false, ◌&&◌, not, Option, none, some, List, [], ◌∷◌, ◌++◌, map,
  arith, ◌==◌, nat_eq, text_eq, option_eq, if◌then◌else◌, find?, any, filter, Bool-cases,
  Option-cases, inl, inr, ==→≡, ==_refl, ==_sym, append-nil, append_assoc,
}
use c4raven_server.Retention.{min_keep_seconds, max_keep_seconds}
use c4raven_server.Retention.Settings.{
  Setting, Change, setting_of, keep_of, keep_seconds, put_setting, row_or_new, update_setting,
  update_settings, Json, null, boolean, integer, below, other, validate_keep_seconds, Description,
  forever, days, hours, seconds_, describe_seconds,
}

pub setting_of-put_setting :
    (s : Setting) (rows : List Setting) (k : String)
    → setting_of (put_setting s rows) k ≡ (if s.data_type == k then some s else setting_of rows k)
unfolding setting_of put_setting find?
setting_of-put_setting s [] k = refl
setting_of-put_setting s (x ∷ xs) k = elim (Bool-cases (x.data_type == s.data_type)) [
  | inl e ↦ rw (e, ==→≡ x.data_type s.data_type e) (ground arith)
  | inr e ↦ rw (e) (elim (Bool-cases (x.data_type == k)) [
    | inl f ↦ rw (f) (rw (← ==→≡ x.data_type k f) (rw (==_sym s.data_type x.data_type, e) refl))
    | inr f ↦ rw (f) (setting_of-put_setting s xs k)
  ])
]

setting_of-key :
    (rows : List Setting) (key : String) (s : Setting)
    → setting_of rows key ≡ some s
    → s.data_type ≡ key
unfolding setting_of find?
setting_of-key [] key s h = cc
setting_of-key (x ∷ xs) key s h = elim (Bool-cases (x.data_type == key)) [
  | inl e ↦ let same : x ≡ s = ground arith in rw (← same) (==→≡ x.data_type key e)
  | inr e ↦ setting_of-key xs key s (ground arith)
]

pub row-key :
    (rows : List Setting) (key : String) → (row_or_new (setting_of rows key) key).data_type ≡ key
unfolding row_or_new
row-key rows key = elim (Option-cases (setting_of rows key)) [
  | inl e ↦ rw (e) refl
  | inr (s, e) ↦ rw (e) (setting_of-key rows key s e)
]

-- A customized row decides alone.
keep_of-row :
    (o : Option Setting) (key k : String) (seconds : Option ℕ)
    → ((row_or_new o key).customized && (row_or_new o key).keep_seconds == seconds) ≡ true
    → keep_of o k ≡ seconds
unfolding row_or_new keep_of
keep_of-row none key k seconds h = cc
keep_of-row (some s) key k seconds h = ground (arith, ==→≡ s.keep_seconds seconds)

-- One change sets the retention of its type and of no other.
keep_seconds-update_setting :
    (now : ℕ) (actor : Option String) (key : String) (seconds : Option ℕ) (rows : List Setting)
    (changed : List Change) (k : String)
    → keep_seconds (update_setting now actor key seconds (rows, changed)).0 k
      ≡ (if key == k then seconds else keep_seconds rows k)
unfolding update_setting keep_seconds keep_of
keep_seconds-update_setting now actor key seconds rows changed k =
    elim (Bool-cases (
      (row_or_new (setting_of rows key) key).customized
      && (row_or_new (setting_of rows key) key).keep_seconds == seconds)) [
        | inl e ↦ elim (Bool-cases (key == k)) [
          | inl f ↦
              simp (e, f)
                (rw (← ==→≡ key k f) (keep_of-row (setting_of rows key) key key seconds e))
          | inr f ↦ simp (e, f) refl
        ]
        | inr e ↦ simp (e) (
            rw (setting_of-put_setting, row-key rows key)
              (elim (Bool-cases (key == k)) [ inl f ↦ rw (f) refl | inr f ↦ rw (f) refl ]))
      ]

-- The keys of a dict.
abbrev pub IsDict : List (String × Option ℕ) → Type 0
IsDict [] = Unit
IsDict (c ∷ cs) = (any (λ (d : String × Option ℕ). d.0 == c.0) cs ≡ false) × IsDict cs

-- What the dict says of a type, and what the type had where it says nothing.
abbrev pub asked : List (String × Option ℕ) → Option ℕ → String → Option ℕ
asked [] before k = before
asked (c ∷ cs) before k = if c.0 == k then c.1 else asked cs before k

asked-absent :
    (cs : List (String × Option ℕ)) (before : Option ℕ) (k : String)
    → any (λ (d : String × Option ℕ). d.0 == k) cs ≡ false
    → asked cs before k ≡ before
unfolding any
asked-absent [] before k h = refl
asked-absent (c ∷ cs) before k h = ground (arith, asked-absent cs before k)

-- After an update by a dict without repeated keys, each type has what the dict asks for it; a
-- type that it does not name keeps its retention.
pub keep_seconds-update_settings :
    (now : ℕ) (actor : Option String) (changes : List (String × Option ℕ)) (rows : List Setting)
    (changed : List Change)
    → IsDict changes
    → (k : String)
    → keep_seconds (update_settings now actor changes (rows, changed)).0 k
      ≡ asked changes (keep_seconds rows k) k
unfolding update_settings
keep_seconds-update_settings now actor [] rows changed h k = refl
keep_seconds-update_settings now actor ((key, seconds) ∷ cs) rows changed h k =
    keep_seconds-update_settings now actor cs _ _ h.1 k
    ∙ ap (λ before. asked cs before k)
        (keep_seconds-update_setting now actor key seconds rows changed k)
    ∙ elim (Bool-cases (key == k)) [
      | inl e ↦ rw (e) (asked-absent cs seconds k (rw (← ==→≡ key k e) h.0))
      | inr e ↦ rw (e) refl
    ]

-- The change of one entry, were it made on `rows`.
abbrev pub change_of : List Setting → String × Option ℕ → Change
change_of rows c = record { key = c.0; old = keep_seconds rows c.0; new = c.1 }

abbrev pub is_change : Change → Bool
is_change c = not (c.old == c.new)

changed-update_setting :
    (now : ℕ) (actor : Option String) (key : String) (seconds : Option ℕ) (rows : List Setting)
    (changed : List Change)
    → (update_setting now actor key seconds (rows, changed)).1
      ≡ changed ++ filter is_change (change_of rows (key, seconds) ∷ [])
unfolding update_setting filter keep_seconds
changed-update_setting now actor key seconds rows changed =
    elim (Bool-cases (
      (row_or_new (setting_of rows key) key).customized
      && (row_or_new (setting_of rows key) key).keep_seconds == seconds)) [
        | inl e ↦ simp (e) (
            rw (keep_of-row (setting_of rows key) key key seconds e, ==_refl seconds)
              (sym (append-nil changed)))
        | inr e ↦ elim (Bool-cases (keep_of (setting_of rows key) key == seconds)) [
          | inl f ↦ simp (e, f) (sym (append-nil changed))
          | inr f ↦ simp (e, f) refl
        ]
      ]

changes_same :
    (rows' rows : List Setting) (key : String)
    → ((k : String) → (key == k) ≡ false → keep_seconds rows' k ≡ keep_seconds rows k)
    → (cs : List (String × Option ℕ)) → any (λ (d : String × Option ℕ). d.0 == key) cs ≡ false
    → map (change_of rows') cs ≡ map (change_of rows) cs
unfolding any
changes_same rows' rows key agree [] h = refl
changes_same rows' rows key agree (c ∷ cs) h =
    ap₂ ◌∷◌
      (ap (λ old. record { key = c.0; old = old; new = c.1 })
        (agree c.0 (rw (==_sym key c.0) (ground arith))))
      (changes_same rows' rows key agree cs (ground arith))

-- For a dict without repeated keys, the result lists, in the order of the dict, exactly the
-- changes of a type to another retention than it had, with the retention that it had.
pub changed-update_settings :
    (now : ℕ) (actor : Option String) (changes : List (String × Option ℕ)) (rows : List Setting)
    (changed : List Change)
    → IsDict changes
    → (update_settings now actor changes (rows, changed)).1
      ≡ changed ++ filter is_change (map (change_of rows) changes)
unfolding update_settings
changed-update_settings now actor [] rows changed h = unfold filter in sym (append-nil changed)
changed-update_settings now actor ((key, seconds) ∷ cs) rows changed h =
    let rows' = (update_setting now actor key seconds (rows, changed)).0 in
    changed-update_settings now actor cs rows' _ h.1
    ∙ ap₂ (λ a b. a ++ filter is_change b)
        (changed-update_setting now actor key seconds rows changed)
        (changes_same rows' rows key
          (λ k e. keep_seconds-update_setting now actor key seconds rows changed k ∙ rw (e) refl) cs
          h.0)
    ∙ append_assoc changed _ _
    ∙ ap (λ r. changed ++ r)
        (sym
          (filter-append is_change (change_of rows (key, seconds) ∷ []) (map (change_of rows) cs)))

nothing_changed :
    (rows : List Setting) (cs : List (String × Option ℕ))
    → All (λ c. keep_seconds rows c.0 ≡ c.1) cs
    → filter is_change (map (change_of rows) cs) ≡ []
unfolding filter
nothing_changed rows [] h = refl
nothing_changed rows (c ∷ cs) h = rw (h.0, ==_refl c.1) (nothing_changed rows cs h.1)

asked-own :
    (before : String → Option ℕ) (cs : List (String × Option ℕ))
    → IsDict cs
    → All (λ c. asked cs (before c.0) c.0 ≡ c.1) cs
asked-own before [] h = tt
asked-own before (c ∷ cs) h = (
  rw (==_refl c.0) refl,
  All-map₂ (λ e same other_key. rw (==_sym c.0 e.0, other_key) same) cs (asked-own before cs h.1)
      (any-false-All _ cs h.0),
)

-- Saving the same dict without repeated keys again, by whomever, reports no change.
pub update_settings_again :
    (now later : ℕ) (actor next : Option String) (changes : List (String × Option ℕ))
    (rows : List Setting)
    → IsDict changes
    → (update_settings later next changes ((update_settings now actor changes (rows, [])).0, [])).1
      ≡ []
update_settings_again now later actor next changes rows h =
    changed-update_settings later next changes _ [] h
    ∙ nothing_changed _ changes (
        All-map (λ c same. keep_seconds-update_settings now actor changes rows [] h c.0 ∙ same)
          changes (asked-own (keep_seconds rows) changes h))

-- The validation lets a number of seconds through exactly when it is that integer and between an
-- hour and ten years.
pub validate_keep_seconds_iff :
    (v : Json) (n : ℕ)
    → (validate_keep_seconds v ≡ (some n, none))
      ↔ ((v ≡ integer n) × (min_keep_seconds ≤ n) × (n ≤ max_keep_seconds))
unfolding validate_keep_seconds
validate_keep_seconds_iff null n = ground arith
validate_keep_seconds_iff other n = ground arith
validate_keep_seconds_iff (boolean b) n = ground arith
validate_keep_seconds_iff (below m) n = ground arith
validate_keep_seconds_iff (integer m) n = ground arith

-- The seconds that a description stands for.
abbrev pub described : Description → Option ℕ
described forever = none
described (days n) = some (n * 86400)
described (hours n) = some (n * 3600)
described (seconds_ n) = some n

-- A description says the retention exactly.
pub described-describe_seconds : (s : Option ℕ) → described (describe_seconds s) ≡ s
unfolding describe_seconds
described-describe_seconds none = refl
described-describe_seconds (some s) = elim (Bool-cases (s % 86400 == 0)) [
  | inl e ↦ simp (e) (ap some (omega (arith, ==→≡ (s % 86400) 0 e)))
  | inr e ↦ elim (Bool-cases (s % 3600 == 0)) [
    | inl f ↦ simp (e, f) (ap some (omega (arith, ==→≡ (s % 3600) 0 f)))
    | inr f ↦ simp (e, f) refl
  ]
]
