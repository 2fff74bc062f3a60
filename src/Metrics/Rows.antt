-- ===== src/Metrics/Rows.antt =====
-- The table metric_counters: what the statements of `_upsert` and `write` do to the value of a row.
use c4raven_server.Prelude.{
  String, Option, none, some, ==_sym, ◌∙◌, ℕ, ◌+◌, ◌≡◌, refl, sym, ap, Bool, true, false, List, [],
  ◌∷◌, ◌==◌, text_eq, if◌then◌else◌, any, ltb, arith, inl, inr, Bool-cases, ==→≡, ==_refl,
}
use c4raven_server.Metrics.{
  Series, series_beq, series_eq, Kind, counter, gauge, Row, updated, on_conflict, has_series,
  update_where, update_or_insert, Amounts, write_counters, write_gauges, stamp_series, flush_stamp,
  write,
}

-- The value of the first row of a series, 0 without a row.
unfoldable pub value_of : Series → List Row → ℕ
value_of s [] = 0
value_of s (r ∷ rs) = let rest = value_of s rs in if r.series == s then r.value else rest

-- What a dict holds for a series, over all its items.
unfoldable pub amount_of : Series → Amounts → ℕ
amount_of s [] = 0
amount_of s (x ∷ xs) = (if x.0 == s then x.1 else 0) + amount_of s xs

-- The primary key: no two rows of one series.
abbrev pub IsKeyed : List Row → Type 0
IsKeyed [] = Unit
IsKeyed (r ∷ rs) = (any (has_series r.series) rs ≡ false) × IsKeyed rs

value_of-on_conflict :
    (s : Series) (kind : Kind) (n now : ℕ) (rows : List Row) (k : Series)
    → value_of k (on_conflict s kind n now true rows) ≡ value_of k rows + (if s == k then n else 0)
unfolding value_of on_conflict updated
value_of-on_conflict s kind n now [] k = ground arith
value_of-on_conflict s kind n now (r ∷ rs) k = elim (Bool-cases (r.series == s)) [
  | inl e ↦ rw (==→≡ r.series s e) (rw (==_refl s) (ground arith))
  | inr e ↦ rw (e) (elim (Bool-cases (s == k)) [
    | inl c ↦
        ground (arith, value_of-on_conflict s kind n now rs k, ap (λ x. r.series == x) (==→≡ s k c))
    | inr c ↦ ground (arith, value_of-on_conflict s kind n now rs k)
  ])
]

value_of-on_conflict_other :
    (s : Series) (kind : Kind) (n now : ℕ) (rows : List Row) (k : Series)
    → (s == k) ≡ false
    → value_of k (on_conflict s kind n now false rows) ≡ value_of k rows
unfolding value_of on_conflict updated
value_of-on_conflict_other s kind n now [] k h = ground arith
value_of-on_conflict_other s kind n now (r ∷ rs) k h = elim (Bool-cases (r.series == s)) [
  | inl e ↦ rw (==→≡ r.series s e) (rw (==_refl s, h) refl)
  | inr e ↦ ground (arith, e, value_of-on_conflict_other s kind n now rs k h)
]

update_where_none :
    (s : Series) (kind : Kind) (n now : ℕ) (add : Bool) (rows : List Row)
    → any (has_series s) rows ≡ false
    → update_where s kind n now add rows ≡ rows
unfolding update_where any
update_where_none s kind n now add [] h = refl
update_where_none s kind n now add (r ∷ rs) h = elim (Bool-cases (r.series == s)) [
  | inl e ↦ absurd (ground (arith, e))
  | inr e ↦ rw (e) (ap (λ l. r ∷ l) (update_where_none s kind n now add rs (ground (arith, e))))
]

-- On rows keyed by name and labels, INSERT … ON CONFLICT DO UPDATE and the UPDATE followed by an
-- INSERT where no row was changed leave the same table, for sums and for values that are set.
pub on_conflict-update_or_insert :
    (s : Series) (kind : Kind) (n now : ℕ) (add : Bool) (rows : List Row)
    → IsKeyed rows
    → on_conflict s kind n now add rows ≡ update_or_insert s kind n now add rows
unfolding on_conflict update_or_insert update_where any
on_conflict-update_or_insert s kind n now add [] h = refl
on_conflict-update_or_insert s kind n now add (r ∷ rs) h = elim (Bool-cases (r.series == s)) [
  | inl e ↦ rw (e) (
      ap (λ l. updated kind n now add r ∷ l)
        (sym (update_where_none s kind n now add rs (rw (sym (==→≡ r.series s e)) h.0))))
  | inr e ↦ rw (e, on_conflict-update_or_insert s kind n now add rs h.1) (ground (arith))
]

value_of-write_counters :
    (now : ℕ) (xs : Amounts) (rows : List Row) (k : Series)
    → value_of k (write_counters now xs rows) ≡ value_of k rows + amount_of k xs
unfolding write_counters amount_of
value_of-write_counters now [] rows k = omega arith
value_of-write_counters now (x ∷ xs) rows k = elim (Bool-cases (ltb 0 x.1)) [
  | inl e ↦ rw (e) (
      ground (
        arith,
        value_of-write_counters now xs (on_conflict x.0 counter x.1 now true rows) k,
        value_of-on_conflict x.0 counter x.1 now rows k,
      ))
  | inr e ↦ rw (e) (ground (arith, e, value_of-write_counters now xs rows k))
]

value_of-write_gauges :
    (now : ℕ) (xs : Amounts) (rows : List Row) (k : Series)
    → any (λ (x : Series × ℕ). x.0 == k) xs ≡ false
    → value_of k (write_gauges now xs rows) ≡ value_of k rows
unfolding write_gauges any
value_of-write_gauges now [] rows k h = refl
value_of-write_gauges now (x ∷ xs) rows k h =
    value_of-write_gauges now xs (on_conflict x.0 gauge x.1 now false rows) k (ground arith)
    ∙ value_of-on_conflict_other x.0 gauge x.1 now rows k (ground arith)

other_name :
    (source : String) (k : Series)
    → (k.name == flush_stamp) ≡ false
    → (stamp_series source == k) ≡ false
unfolding series_beq
other_name source k h = ground (arith, ==_sym k.name flush_stamp)

-- In a transaction whose gauges and source stamp have other series, the value of a series grows by
-- what the dict of counters holds for it.
pub value_of-write :
    (now : ℕ) (counters gauges : Amounts) (source : Option String) (rows : List Row) (k : Series)
    → any (λ (x : Series × ℕ). x.0 == k) gauges ≡ false
    → (k.name == flush_stamp) ≡ false
    → value_of k (write now counters gauges source rows) ≡ value_of k rows + amount_of k counters
unfolding write
value_of-write now counters gauges none rows k h n =
    value_of-write_gauges now gauges (write_counters now counters rows) k h
    ∙ value_of-write_counters now counters rows k
value_of-write now counters gauges (some source) rows k h n =
    value_of-on_conflict_other (stamp_series source) gauge now now
      (write_gauges now gauges (write_counters now counters rows)) k (other_name source k n)
    ∙ value_of-write_gauges now gauges (write_counters now counters rows) k h
    ∙ value_of-write_counters now counters rows k
