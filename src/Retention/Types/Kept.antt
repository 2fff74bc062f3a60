-- ===== src/Retention/Types/Kept.antt =====
-- What the purges leave alone.
use c4raven_server.Prelude.{
  ℕ, suc, ◌≤◌, ◌-◌, String, ◌≡◌, refl, sym, ◌∙◌, ap, Bool, true, false, ◌&&◌, ◌||◌, not, some, List,
  arith, ◌==◌, nat_eq, text_eq, option_eq, filter, any, filter-filter, filter_congr, any-filter,
  any_congr, length, Bool-cases, inl, inr, sort_by,
}
use c4raven_server.Chat.{Message}
use c4raven_server.Chat.Delivery.{pending_messages, is_pending, before}
use c4raven_server.Retention.Purge.Deleting.{HasDistinctKeys}
use c4raven_server.Retention.Purge.Batches.{delete_in_batches_spares}
use c4raven_server.Retention.Types.{
  Run, purge_where, no_files, purge_by_server_time, purge_offline_chat, Point, Cot, CotTables,
  is_referenced_point, is_point_cot, is_referenced_cot, is_mission_content, is_doomed_point,
  is_doomed_cot, purge_cot,
}

module _ {A : Type 0} (run : Run) (pk : A → ℕ) (doomed : A → Bool) (files : List A → List String)
    (rows : List A) (h : HasDistinctKeys pk rows) where
  -- What a purge does not want stays, for any narrower test.
  pub filter-purge_where :
      (p : A → Bool)
      → ((r : A) → p r ≡ true → doomed r ≡ false)
      → filter p (purge_where run pk doomed files rows).rows ≡ filter p rows
  unfolding purge_where
  filter-purge_where p k =
      narrow _
      ∙ ap (filter p)
          (delete_in_batches_spares pk doomed files run.commits run.late (suc (length rows)) 0 rows
            h).0
      ∙ sym (narrow rows)
    where
      narrow : (xs : List A) → filter p xs ≡ filter p (filter (λ r. not (doomed r)) xs)
      narrow xs = filter_congr _ _ (λ r. ground (arith, k r)) xs ∙ sym (filter-filter p _ xs)

-- On rows with distinct ids, purging the offline chat queue at one time changes nothing of what
-- any device would be sent then or later under the same retention.
pub pending_messages-purge_offline_chat :
    (run : Run) (keep now later : ℕ) (uid : String) (rows : List Message)
    → HasDistinctKeys (λ (m : Message). m.id) rows
    → now ≤ later
    → pending_messages (some keep) later uid (purge_offline_chat run (now - keep) rows).rows
      ≡ pending_messages (some keep) later uid rows
unfolding pending_messages purge_offline_chat purge_by_server_time is_pending
pending_messages-purge_offline_chat run keep now later uid rows h k = ap (sort_by before) (
    filter-purge_where run _ _ no_files rows h (is_pending (some keep) later uid)
      (λ m e. ground arith))

-- The CoTs that the setting never removes: mission content, and those that something is built on.
abbrev pub is_protected : CotTables → Cot → Bool
is_protected t c = is_mission_content t c || is_referenced_cot t t.points c.id

module _ (runs : Run × Run) (t : CotTables) (cutoff now : ℕ)
    (hp : HasDistinctKeys (λ (p : Point). p.id) t.points)
    (hc : HasDistinctKeys (λ (c : Cot). c.id) t.cots) where
  -- On tables whose ids are distinct, every position that something kept is built on is kept.
  pub purge_cot-points :
      filter (λ (p : Point). is_referenced_point t p.id) (purge_cot runs t cutoff now).points.rows
      ≡ filter (λ (p : Point). is_referenced_point t p.id) t.points
  unfolding purge_cot is_doomed_point
  purge_cot-points = filter-purge_where runs.0 _ _ no_files t.points hp _ (λ p e. ground arith)

  points_left : List Point
  points_left = (purge_cot runs t cutoff now).points.rows

  -- So the CoTs of these positions are the same ones after the positions have been purged.
  is_point_cot_left : (id : ℕ) → is_point_cot t points_left id ≡ is_point_cot t t.points id
  unfolding is_point_cot points_left
  is_point_cot_left id = swapped points_left ∙ ap (any _) purge_cot-points ∙ sym (swapped t.points)
    where
      swapped :
          (ps : List Point)
          → any (λ (p : Point). p.cot_id == some id && is_referenced_point t p.id) ps
            ≡ any
                (λ (p : Point). p.cot_id == some id)
                (filter (λ (p : Point). is_referenced_point t p.id) ps)
      swapped ps = any_congr _ _ (λ p. ground arith) ps ∙ sym (any-filter _ _ ps)

  is_referenced_cot_left :
      (id : ℕ) → is_referenced_cot t points_left id ≡ is_referenced_cot t t.points id
  unfolding is_referenced_cot
  is_referenced_cot_left id = rw (is_point_cot_left id) refl

  spared : (c : Cot) → is_protected t c ≡ true → is_doomed_cot t cutoff now points_left c ≡ false
  unfolding is_doomed_cot
  spared c e = rw (is_referenced_cot_left c.id) (ground arith)

  -- On tables whose ids are distinct, mission content, and every CoT that something kept is built
  -- on, directly or through a position, is still there after the purge, whatever commits fail and
  -- however far it comes.
  pub purge_cot-cots :
      filter (is_protected t) (purge_cot runs t cutoff now).cots.rows
      ≡ filter (is_protected t) t.cots
  unfolding purge_cot points_left
  purge_cot-cots = elim (Bool-cases (purge_cot runs t cutoff now).points.complete) [
    | inl e ↦ simp (e) (
        filter-purge_where runs.1 _ (is_doomed_cot t cutoff now points_left) no_files t.cots hc _
          spared)
    | inr e ↦ simp (e) refl
  ]
