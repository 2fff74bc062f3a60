-- ===== src/Metrics/Slots.antt =====
-- The slots of the shared counters beside their series: what they hold for one series of the table,
-- what `inc` adds to it, and what the deltas of a flush come to.
use native.Mathlib.Nat.{mod-eq_of_lt}
use c4raven_server.Prelude.{
  ℕ, zero, suc, ◌+◌, ◌-◌, ◌≤◌, ◌<◌, String, Option, none, some, ◌≡◌, refl, ap, ◌⊎◌, inl, inr, Bool,
  true, false, ◌||◌, ◌&&◌, List, [], ◌∷◌, ◌==◌, if◌then◌else◌, any, ltb, arith, All, All-map,
  All-map₂, Bool-cases, ==→≡, ◌∙◌,
}
use c4raven_server.Metrics.{
  Series, series_eq, joined, Amounts, put, index_of, add_at, add_found, deltas_of,
}
use c4raven_server.Metrics.Rows.{amount_of}

abbrev pub has_key : Series → Amounts → Bool
has_key s = any (λ (x : Series × ℕ). x.0 == s)

amount_of-put :
    (s : Series) (n : ℕ) (d : Amounts) (k : Series)
    → has_key s d ≡ false
    → amount_of k (put s n d) ≡ amount_of k d + (if s == k then n else 0)
unfolding amount_of put any
amount_of-put s n [] k h = omega arith
amount_of-put s n (x ∷ xs) k h = elim (Bool-cases (x.0 == s)) [
  | inl e ↦ absurd (ground (arith, e))
  | inr e ↦ rw (e) (omega (arith, amount_of-put s n xs k (ground (arith, e))))
]

has_key-put :
    (s : Series) (n : ℕ) (d : Amounts) (k : Series)
    → has_key k (put s n d) ≡ (has_key k d || s == k)
unfolding put any
has_key-put s n [] k = ground arith
has_key-put s n (x ∷ xs) k = elim (Bool-cases (x.0 == s)) [
  | inl e ↦ rw (e) (ground (arith, ap (λ y. y == k) (==→≡ x.0 s e)))
  | inr e ↦ rw (e) (ground (arith, has_key-put s n xs k))
]

-- Series that are written under different keys.
abbrev pub IsDistinct : String → List Series → Type 0
IsDistinct labels [] = Unit
IsDistinct labels (s ∷ ss) =
    All (λ t. (joined labels s == joined labels t) ≡ false) ss × IsDistinct labels ss

-- The sum of the slots whose series is written under the key.
unfoldable pub slots_of : String → Series → List Series → List ℕ → ℕ
slots_of labels k (s ∷ ss) (v ∷ vs) =
    (if joined labels s == k then v else 0) + slots_of labels k ss vs
slots_of labels k _ _ = 0

-- What the slots have grown by since the last flush that was written.
unfoldable pub growth_of : String → Series → List Series → List ℕ → List ℕ → ℕ
growth_of labels k (s ∷ ss) (v ∷ vs) (f ∷ fs) =
    (if joined labels s == k then v - f else 0) + growth_of labels k ss vs fs
growth_of labels k _ _ _ = 0

-- One slot and one flushed number for each series, and none flushed beyond its slot.
pub data IsAligned : List Series → List ℕ → List ℕ → Type 0 where
  none_left : IsAligned [] [] []
  slot :
      {s : Series} {v f : ℕ} {ss : List Series} {vs fs : List ℕ}
      → f ≤ v
      → IsAligned ss vs fs
      → IsAligned (s ∷ ss) (v ∷ vs) (f ∷ fs)

pub amount_of-deltas_of :
    (labels : String) (ss : List Series) (vs fs : List ℕ) (d : Amounts) (k : Series)
    → IsDistinct labels ss
    → All (λ s. has_key (joined labels s) d ≡ false) ss
    → amount_of k (deltas_of labels ss vs fs d) ≡ amount_of k d + growth_of labels k ss vs fs
unfolding deltas_of growth_of
amount_of-deltas_of labels [] vs fs d k u h = omega arith
amount_of-deltas_of labels (s ∷ ss) [] fs d k u h = omega arith
amount_of-deltas_of labels (s ∷ ss) (v ∷ vs) [] d k u h = omega arith
amount_of-deltas_of labels (s ∷ ss) (v ∷ vs) (f ∷ fs) d k u h = elim (Bool-cases (ltb 0 (v - f))) [
  | inl e ↦ rw (e) (
      omega (
        arith,
        amount_of-deltas_of labels ss vs fs (put (joined labels s) (v - f) d) k u.1 (
            All-map₂
              (λ t a b. ground (arith, has_key-put (joined labels s) (v - f) d (joined labels t)))
              ss h.1 u.0),
        amount_of-put (joined labels s) (v - f) d k h.0,
      ))
  | inr e ↦ rw (e) (ground (arith, e, amount_of-deltas_of labels ss vs fs d k u.1 h.1))
]

-- The series stands at a position.
abbrev IsAt : Series → ℕ → List Series → Type 0
IsAt s i [] = ⊥
IsAt s zero (x ∷ xs) = x ≡ s
IsAt s (suc i) (x ∷ xs) = IsAt s i xs

abbrev IsFound : Series → ℕ → List Series → Type 0
IsFound s i xs =
    (any (λ x. x == s) xs ≡ false) × (index_of s i xs ≡ none)
    ⊎ (any (λ x. x == s) xs ≡ true) × ((j : ℕ) × (index_of s i xs ≡ some (j + i)) × IsAt s j xs)

index_of-IsFound : (s : Series) (i : ℕ) (xs : List Series) → IsFound s i xs
unfolding index_of any
index_of-IsFound s i [] = inl (refl, refl)
index_of-IsFound s i (x ∷ xs) = elim (index_of-IsFound s (suc i) xs) [
  | inr (a, (j, e, h)) ↦ inr (ground (arith, a), (suc j, rw (e) (ap some (omega arith)), h))
  | inl (a, e) ↦ elim (Bool-cases (x == s)) [
    | inl c ↦ inr (rw (c) refl, (0, rw (e, c) (ap some (omega arith)), ==→≡ x s c))
    | inr c ↦ inl (rw (c) a, rw (e, c) refl)
  ]
]

slots_of-add_at :
    (labels : String) (k s : Series) (size i amount : ℕ) {ss : List Series} {vs fs : List ℕ}
    → IsAligned ss vs fs
    → IsAt s i ss
    → All (λ v. v + amount < size) vs
    → slots_of labels k ss (add_at size i amount vs)
      ≡ slots_of labels k ss vs + (if joined labels s == k then amount else 0)
unfolding slots_of add_at
slots_of-add_at labels k s size i amount none_left here h = absurd here
slots_of-add_at labels k s size zero amount (slot le a) here h =
    rw (mod-eq_of_lt h.0, here) (ground arith)
slots_of-add_at labels k s size (suc i) amount (slot le a) here h =
    omega (arith, slots_of-add_at labels k s size i amount a here h.1)

plus_zero : (j : ℕ) → j + 0 ≡ j
plus_zero j = omega arith

-- The slot of a series that the service has grows by the amount, where no slot overflows.
pub slots_of-add_found :
    (labels : String) (k s : Series) (size amount : ℕ) (ss : List Series) (vs fs : List ℕ)
    → IsAligned ss vs fs
    → All (λ v. v + amount < size) vs
    → slots_of labels k ss (add_found size amount vs (index_of s 0 ss))
      ≡ slots_of labels k ss vs
        + (if any (λ x. x == s) ss && joined labels s == k then amount else 0)
slots_of-add_found labels k s size amount ss vs fs a h = elim (index_of-IsFound s 0 ss) [
  | inl (n, e) ↦ rw (e, n) (omega arith)
  | inr (n, (j, e, i)) ↦
      rw (e ∙ ap some (plus_zero j), n) (slots_of-add_at labels k s size j amount a i h)
]

add_at-IsAligned :
    (size i amount : ℕ) {ss : List Series} {vs fs : List ℕ}
    → IsAligned ss vs fs
    → All (λ v. v + amount < size) vs
    → IsAligned ss (add_at size i amount vs) fs
unfolding add_at
add_at-IsAligned size i amount none_left h = none_left
add_at-IsAligned size zero amount (slot le a) h = slot (rw (mod-eq_of_lt h.0) (omega arith)) a
add_at-IsAligned size (suc i) amount (slot le a) h = slot le (add_at-IsAligned size i amount a h.1)

pub add_found-IsAligned :
    (size amount : ℕ) (o : Option ℕ) {ss : List Series} {vs fs : List ℕ}
    → IsAligned ss vs fs
    → All (λ v. v + amount < size) vs
    → IsAligned ss (add_found size amount vs o) fs
add_found-IsAligned size amount none a h = a
add_found-IsAligned size amount (some i) a h = add_at-IsAligned size i amount a h

-- Room for `more` is left after an amount, where there was room for both.
add_at_room :
    (size i amount more : ℕ) (vs : List ℕ)
    → All (λ v. v + (amount + more) < size) vs
    → All (λ v. v + more < size) (add_at size i amount vs)
unfolding add_at
add_at_room size i amount more [] h = tt
add_at_room size zero amount more (v ∷ vs) h = (
  rw (mod-eq_of_lt (lt_of v amount more size h.0)) (omega (arith, h.0)),
  All-map (λ w r. omega (arith, r)) vs h.1,
)
  where
    lt_of : (v amount more size : ℕ) → v + (amount + more) < size → v + amount < size
    lt_of v amount more size h = omega arith
add_at_room size (suc i) amount more (v ∷ vs) h =
    (omega (arith, h.0), add_at_room size i amount more vs h.1)

pub add_found_room :
    (size amount more : ℕ) (o : Option ℕ) (vs : List ℕ)
    → All (λ v. v + (amount + more) < size) vs
    → All (λ v. v + more < size) (add_found size amount vs o)
add_found_room size amount more none vs h = All-map (λ w r. omega (arith, r)) vs h
add_found_room size amount more (some i) vs h = add_at_room size i amount more vs h

-- What is in the slots is what was flushed and what they have grown by since.
pub growth_of_lem :
    (labels : String) (k : Series) {ss : List Series} {vs fs : List ℕ}
    → IsAligned ss vs fs
    → growth_of labels k ss vs fs + slots_of labels k ss fs ≡ slots_of labels k ss vs
unfolding growth_of slots_of
growth_of_lem labels k none_left = omega arith
growth_of_lem labels k (slot le a) = ground (arith, growth_of_lem labels k a)

pub IsAligned-flushed :
    {ss : List Series} {vs fs : List ℕ} → IsAligned ss vs fs → IsAligned ss vs vs
IsAligned-flushed none_left = none_left
IsAligned-flushed (slot le a) = slot (omega arith) (IsAligned-flushed a)

pub index_of-none :
    (s : Series) (i : ℕ) (xs : List Series) → any (λ x. x == s) xs ≡ false → index_of s i xs ≡ none
index_of-none s i xs h = elim (index_of-IsFound s i xs) [
  | inl (n, e) ↦ e
  | inr (n, found) ↦ absurd (cc)
]
