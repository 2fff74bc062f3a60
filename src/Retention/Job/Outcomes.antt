-- ===== src/Retention/Job/Outcomes.antt =====
-- `apply_retention` against a description of it by the purges alone.
use c4raven_server.Prelude.{
  ℕ, ◌-◌, String, ◌≡◌, refl, sym, ◌∙◌, ap, Bool, true, false, ◌&&◌, ◌||◌, not, Option, none, some,
  List, [], ◌∷◌, ◌++◌, map, ◌==◌, text_eq, nat_eq, if◌then◌else◌, contains, is_empty, is_none,
  filter, Bool-cases, Option-cases, inl, inr, ==→≡, append-nil, append_assoc, map-append,
}
use c4raven_server.Retention.Settings.{Setting, setting_of, keep_of, keep_seconds, row_or_new}
use c4raven_server.Retention.Settings.Updates.{setting_of-put_setting, row-key}
use c4raven_server.Retention.Job.{
  Outcome, DataType, Job, note_purge, finish, is_selected, purge_types, apply_retention,
}

keep_of-note :
    (o : Option Setting) (d key : String) (at count : Option ℕ) (error : Option String)
    → keep_of
        (some (record (row_or_new o key) {
          data_type = d;
          last_purge_at = at;
          last_purge_count = count;
          last_purge_error = error;
        }))
        key
      ≡ keep_of o key
unfolding keep_of row_or_new
keep_of-note none d key at count error = refl
keep_of-note (some s) d key at count error = refl

-- Recording a purge changes no retention.
keep_seconds-note_purge :
    (saved : Bool) (now : ℕ) (key : String) (o : Outcome) (rows : List Setting) (k : String)
    → keep_seconds (note_purge saved now key o rows) k ≡ keep_seconds rows k
unfolding note_purge keep_seconds
keep_seconds-note_purge false now key o rows k = refl
keep_seconds-note_purge true now key o rows k =
    rw (setting_of-put_setting, row-key rows key)
      (elim (Bool-cases (key == k)) [
        | inl e ↦ rw (e) (rw (← ==→≡ key k e) (keep_of-note (setting_of rows key) key key _ _ _))
        | inr e ↦ rw (e) refl
      ])

-- What the loop keeps true of the settings: no type has another retention than at the start.
SameRetentions : List Setting → List Setting → Type 0
SameRetentions settings rows = (k : String) → keep_seconds rows k ≡ keep_seconds settings k

module _ {S : Type 0} (now : ℕ) (only : List String) (settings : List Setting) where
  -- The type is selected, and its data is not kept forever.
  abbrev pub is_due : DataType S → Bool
  is_due t = is_selected only t && not (is_none (keep_seconds settings t.key))

  purge_by : Option ℕ → DataType S → S → S
  purge_by none t s = s
  purge_by (some seconds) t s = (t.purge (now - seconds) now s).0

  -- The purges of the due types, one after the other, and nothing else.
  pub purge_due : List (DataType S) → S → S
  unfolding purge_by
  purge_due [] s = s
  purge_due (t ∷ ts) s =
      let purged = purge_due ts (purge_by (keep_seconds settings t.key) t s) in
      let skipped = purge_due ts s in if is_selected only t then purged else skipped

  AsDescribed : List (DataType S) → Job S → Job S → Type 0
  AsDescribed ts j end =
      (end.data_ ≡ purge_due ts j.data_)
      × (map (λ (r : String × ℕ). r.0) end.results
          ≡ map (λ (r : String × ℕ). r.0) j.results
            ++ map (λ (t : DataType S). t.key) (filter is_due ts))
      × SameRetentions settings end.settings

  purge_types_lem :
      (saved : String → Bool) (ts : List (DataType S)) (j : Job S)
      → SameRetentions settings j.settings
      → AsDescribed ts j (purge_types saved now only ts j)
  unfolding purge_types purge_due filter AsDescribed SameRetentions finish
  purge_types_lem saved [] j same = (refl, sym (append-nil _), same)
  purge_types_lem saved (t ∷ ts) j same = elim (Bool-cases (is_selected only t)) [
    | inr e ↦ simp (e) (purge_types_lem saved ts j same)
    | inl e ↦ elim (Option-cases (keep_seconds settings t.key)) [
      | inl f ↦ simp (e, same t.key, f) (purge_types_lem saved ts j same)
      | inr (seconds, f) ↦
          simp (e, same t.key, f)
            (let o = t.purge (now - seconds) now j.data_ in
              let next = finish saved now t o j in
              let ih =
                purge_types_lem saved ts next (λ k.
                  keep_seconds-note_purge (saved t.key) now t.key o.1 j.settings k ∙ same k) in
              (
                ih.0,
                ih.1
                    ∙ ap (λ names. names ++ map (λ (x : DataType S). x.key) (filter is_due ts))
                        (map-append (λ (r : String × ℕ). r.0) j.results _)
                    ∙ append_assoc (map (λ (r : String × ℕ). r.0) j.results) _ _,
                ih.2,
              ))
    ]
  ]

  -- The tables after the job are the ones that the purges of the selected types with a retention
  -- leave one after the other, each with the cutoff of its type's own retention as it was at the
  -- start; the results name exactly these types, in order, those whose purge has raised too; and no
  -- type's retention has changed, whether or not the purges could be recorded.
  pub apply_retention_lem :
      (saved : String → Bool) (settle : S → S) (ts : List (DataType S)) (s : S)
      → let end = apply_retention saved now settle only ts settings s in
        (end.data_
          ≡ purge_due ts (if is_empty only || contains only "offline_chat" then settle s else s))
        × (map (λ (r : String × ℕ). r.0) end.results
            ≡ map (λ (t : DataType S). t.key) (filter is_due ts))
        × ((k : String) → keep_seconds end.settings k ≡ keep_seconds settings k)
  unfolding apply_retention AsDescribed SameRetentions
  apply_retention_lem saved settle ts s =
      purge_types_lem saved ts
        (record {
          settings = settings;
          data_ = if is_empty only || contains only "offline_chat" then settle s else s;
          results = [];
          audited = [];
        })
        (λ k. refl)
