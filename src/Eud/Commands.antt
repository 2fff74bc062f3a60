-- ===== src/Eud/Commands.antt =====
-- The clear commands that wait for a device, which `parse_device_info` of
-- raven/eud_handler/EudHandler.py delivers when it connects, on the rows of
-- models/PendingClearCommand.py. Whether the write to the socket and the commit succeed are inputs;
-- the signed CoT is that of remote_clear.build_clear_cot.
use c4raven_server.Prelude.{
  ℕ, String, Bool, true, false, ◌&&◌, ◌||◌, not, Option, none, some, List, [], ◌∷◌, map, ◌==◌, ◌≡◌,
  refl, ap, text_eq, if◌then◌else◌, filter, any, is_empty, is_none, arith, Bool-cases, inl, inr,
  if-case,
}

-- One row of pending_clear_commands.
pub record ClearCommand : Type 0 where
  pub id : ℕ
  pub eud_uid : String
  pub clearmaps : Bool
  pub delivered_at : Option ℕ

abbrev pub awaits : String → ClearCommand → Bool
awaits uid c = c.eud_uid == uid && is_none c.delivered_at

abbrev pub stamp : String → ℕ → ClearCommand → ClearCommand
stamp uid at_time c = if awaits uid c then record c { delivered_at = some at_time } else c

-- What is sent, if anything: the one command, with its `clearmaps`; and the rows.
unfoldable pub deliver_commands :
    String → ℕ → (writes commits : Bool) → List ClearCommand → Option Bool × List ClearCommand
deliver_commands uid at_time writes commits rows =
    let pending = filter (awaits uid) rows in
    if is_empty pending || not writes then (none, rows) else (
      some (any (λ (c : ClearCommand). c.clearmaps) pending),
      if commits then map (stamp uid at_time) rows else rows,
    )

stamped-none :
    (uid : String) (n : ℕ) (rows : List ClearCommand)
    → filter (awaits uid) (map (stamp uid n) rows) ≡ []
unfolding filter
stamped-none uid n [] = refl
stamped-none uid n (c ∷ cs) = elim (Bool-cases (awaits uid c)) [
  | inl e ↦ rw (e) (rw (no_longer (c.eud_uid == uid)) (stamped-none uid n cs))
  | inr e ↦ rw (e) (rw (e) (stamped-none uid n cs))
]
  where
    no_longer : (b : Bool) → (b && false) ≡ false
    no_longer b = ground arith

empty_is : (p : List ClearCommand) → (is_empty p || false) ≡ true → p ≡ []
empty_is [] h = refl
empty_is (c ∷ cs) h = absurd (cc)

all_delivered :
    (uid : String) (n : ℕ) (rows : List ClearCommand)
    → filter (awaits uid) (deliver_commands uid n true true rows).1 ≡ []
unfolding deliver_commands
all_delivered uid n rows =
    if-case (λ (r : Option Bool × List ClearCommand). filter (awaits uid) r.1 ≡ [])
      (is_empty (filter (awaits uid) rows) || false) (λ h. empty_is (filter (awaits uid) rows) h)
      (λ h. stamped-none uid n rows)

none_waiting :
    (uid : String) (m : ℕ) (writes commits : Bool) (rows : List ClearCommand)
    → filter (awaits uid) rows ≡ []
    → deliver_commands uid m writes commits rows ≡ (none, rows)
unfolding deliver_commands
none_waiting uid m writes commits rows h =
    ap
      (λ p. if is_empty p || not writes then (none, rows) else (
        some (any (λ (c : ClearCommand). c.clearmaps) p),
        if commits then map (stamp uid m) rows else rows,
      ))
      h

unwritten :
    (uid : String) (n : ℕ) (commits : Bool) (rows : List ClearCommand)
    → deliver_commands uid n false commits rows ≡ (none, rows)
unfolding deliver_commands
unwritten uid n commits rows =
    if-case (λ (r : Option Bool × List ClearCommand). r ≡ (none, rows))
      (is_empty (filter (awaits uid) rows) || true) (λ h. refl)
      (λ h. absurd (never (is_empty (filter (awaits uid) rows)) h))
  where
    never : (b : Bool) → (b || true) ≡ false → ⊥
    never b h = ground arith

-- Once a delivery to a device is written and committed, the next one to it sends nothing and changes
-- nothing, however it goes. Where the write fails, a delivery sends nothing and leaves the rows.
pub deliver_commands_once :
    (uid : String) (n m : ℕ) (writes commits : Bool) (rows : List ClearCommand)
    → (deliver_commands uid m writes commits (deliver_commands uid n true true rows).1
        ≡ (none, (deliver_commands uid n true true rows).1))
      × (deliver_commands uid n false commits rows ≡ (none, rows))
deliver_commands_once uid n m writes commits rows = (
  none_waiting uid m writes commits (deliver_commands uid n true true rows).1
      (all_delivered uid n rows),
  unwritten uid n commits rows,
)
