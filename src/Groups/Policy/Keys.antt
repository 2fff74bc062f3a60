-- ===== src/Groups/Policy/Keys.antt =====
-- The primary key of groups_users: a table in which no two rows share it, and what the operations
-- of raven/group_policy.py do to such a table.
use c4raven_server.Prelude.{
  ◌≡◌, sym, ◌∙◌, Bool, true, false, not, List, [], ◌∷◌, ◌++◌, arith, nat_eq, filter, any, All,
  All-map, All-map₂, filter_congr, filter_congr_All, filter-filter, filter-true, any-false-All,
  any-append, All-any-false, any-filter-false, Bool-cases, inl, inr, ap,
}
use c4raven_server.Groups.{GroupUser, direction_eq, same_key}
use c4raven_server.Groups.Policy.{delete_rows}

-- No two rows have the same user, group and direction.
abbrev pub IsKeyed : List GroupUser → Type 0
IsKeyed [] = Unit
IsKeyed (m ∷ ms) = (any (same_key m) ms ≡ false) × IsKeyed ms

pub same_key_refl : (m : GroupUser) → same_key m m ≡ true
same_key_refl m = ground arith

pub same_key_sym : (a b : GroupUser) → same_key a b ≡ same_key b a
same_key_sym a b = ground arith

pub delete_rows_lem :
    (ms rows : List GroupUser) → delete_rows ms rows ≡ filter (λ r. not (any (same_key r) ms)) rows
unfolding delete_rows any
delete_rows_lem [] rows = sym (filter-true rows)
delete_rows_lem (m ∷ ms) rows =
    delete_rows_lem ms (filter (λ r. not (same_key r m)) rows)
    ∙ filter-filter (λ r. not (any (same_key r) ms)) (λ r. not (same_key r m)) rows
    ∙ filter_congr _ _ (λ r. ground arith) rows

-- In a keyed table, a row's key occurs among the selected rows exactly when the row is selected.
pub any-same_key-filter :
    (p : GroupUser → Bool) (rows : List GroupUser)
    → IsKeyed rows
    → All (λ r. any (same_key r) (filter p rows) ≡ p r) rows
unfolding any filter
any-same_key-filter p [] k = tt
any-same_key-filter p (m ∷ ms) k = (
  ground (arith, same_key_refl m, any-filter-false p (same_key m) ms k.0),
  All-map₂ (λ r a ih. step r a ih) ms (any-false-All (same_key m) ms k.0)
      (any-same_key-filter p ms k.1),
)
  where
    step :
        (r : GroupUser)
        → same_key m r ≡ false
        → any (same_key r) (filter p ms) ≡ p r
        → any (same_key r) (filter p (m ∷ ms)) ≡ p r
    step r a ih = ground (arith, same_key_sym m r)

-- Deleting the selected rows of a keyed table by primary key leaves exactly the others.
pub delete_rows-filter :
    (p : GroupUser → Bool) (rows : List GroupUser)
    → IsKeyed rows
    → delete_rows (filter p rows) rows ≡ filter (λ r. not (p r)) rows
delete_rows-filter p rows k =
    delete_rows_lem (filter p rows) rows
    ∙ filter_congr_All (λ r. not (any (same_key r) (filter p rows))) (λ r. not (p r)) rows
        (All-map (λ r e. ap not e) rows (any-same_key-filter p rows k))

pub filter-IsKeyed :
    (p : GroupUser → Bool) (rows : List GroupUser) → IsKeyed rows → IsKeyed (filter p rows)
unfolding filter
filter-IsKeyed p [] k = tt
filter-IsKeyed p (m ∷ ms) k = elim (Bool-cases (p m)) [
  | inl e ↦ rw (e) (any-filter-false p (same_key m) ms k.0, filter-IsKeyed p ms k.1)
  | inr e ↦ rw (e) (filter-IsKeyed p ms k.1)
]

-- A row may be added at the end if its key is not there.
pub append-IsKeyed :
    (rows new : List GroupUser)
    → IsKeyed rows
    → IsKeyed new
    → All (λ n. any (same_key n) rows ≡ false) new
    → IsKeyed (rows ++ new)
append-IsKeyed [] new k n h = n
append-IsKeyed (m ∷ ms) new k n h = (
  any-append (same_key m) ms new ∙ ground (arith, k.0, apart),
  append-IsKeyed ms new k.1 n (All-map (λ x e. later x e) new h),
)
  where
    later : (x : GroupUser) → any (same_key x) (m ∷ ms) ≡ false → any (same_key x) ms ≡ false
    later x e = unfold any in ground arith

    first : (x : GroupUser) → any (same_key x) (m ∷ ms) ≡ false → same_key m x ≡ false
    first x e = unfold any in ground (arith, same_key_sym m x)

    apart : any (same_key m) new ≡ false
    apart = All-any-false (same_key m) new (All-map (λ x e. first x e) new h)
