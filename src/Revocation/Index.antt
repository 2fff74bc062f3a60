-- ===== src/Revocation/Index.antt =====
-- crl_index.txt: `revoke`, `revoked_serials` and `is_revoked` of raven/cert_revocation.py. `now` and
-- `index_time` are the dates as openssl writes them, `crl` says whether openssl makes the CRL.
pub mod Revoking
pub mod Outcomes
use c4raven_server.Prelude.{
  ℕ, zero, suc, Bool, true, false, ◌&&◌, ◌||◌, not, Option, none, some, List, [], ◌∷◌, ◌++◌, map,
  ◌==◌, nat_eq, list_eq, option_eq, if◌then◌else◌, any, is_empty, leb, length, contains, or_else,
}
use c4raven_server.Revocation.{Text, Serial, text, normalize_text, normalize_serial, index_serial}

-- A line of the index, as its fields.
abbrev pub Line : Type 0
Line = List Text

abbrev pub field : ℕ → Line → Text
field i [] = []
field zero (x ∷ xs) = x
field (suc i) (x ∷ xs) = field i xs

-- "R"
abbrev pub revoked_mark : Text
revoked_mark = 82 ∷ []

-- the test of `revoked_serials` on a line, for one serial
unfoldable pub revokes : Text → Line → Bool
revokes s l =
    leb 4 (length l) && (field 0 l == revoked_mark && normalize_text (field 3 l) == some s)

unfoldable pub is_revoked_text : List Line → Option Text → Bool
unfolding revokes
is_revoked_text lines none = false
is_revoked_text lines (some s) = any (revokes s) lines

unfoldable pub is_revoked : List Line → Serial → Bool
unfolding is_revoked_text
is_revoked lines serial = is_revoked_text lines (normalize_serial serial)

-- the test for `by_serial`
unfoldable pub is_known : Text → Line → Bool
is_known s l = leb 6 (length l) && normalize_text (field 3 l) == some s

-- The line that `by_serial` gives for a serial, the last one of it. The dict is filled from the lines
-- and told of each line that is appended, so that it is read off the lines here.
unfoldable pub last_of : (Line → Bool) → List Line → Option Line
last_of p [] = none
last_of p (x ∷ xs) = elim (last_of p xs) [ some y ↦ some y | none ↦ if p x then some x else none ]

unfoldable pub update_last : (Line → Bool) → (Line → Line) → List Line → List Line
update_last p f [] = []
update_last p f (x ∷ xs) =
    let rest = update_last p f xs in if any p xs then x ∷ rest else if p x then f x ∷ xs else x ∷ xs

-- An entry; its subject is the text that the white space is already joined in.
pub record Entry : Type 0 where
  pub serial : Serial
  pub not_after : ℕ
  pub subject : Text
  pub reason : Option Text

-- REVOCATION_REASONS
abbrev pub unspecified : Text
unspecified = 117 ∷ 110 ∷ 115 ∷ 112 ∷ 101 ∷ 99 ∷ 105 ∷ 102 ∷ 105 ∷ 101 ∷ 100 ∷ []

-- "{},{}".format(now, reason)
abbrev pub stamped : Text → Text → Text
stamped now reason = now ++ (44 ∷ reason)

abbrev pub mark_line : Text → Line → Line
mark_line stamp (a ∷ b ∷ c ∷ rest) = revoked_mark ∷ b ∷ stamp ∷ rest
mark_line stamp l = l

-- "unknown"
abbrev pub unknown_file : Text
unknown_file = 117 ∷ 110 ∷ 107 ∷ 110 ∷ 111 ∷ 119 ∷ 110 ∷ []

abbrev pub new_line : Text → Text → Text → Text → Line
new_line expires stamp s subject =
    revoked_mark ∷ expires ∷ stamp ∷ index_serial s ∷ unknown_file ∷ subject ∷ []

abbrev pub reason_of : Entry → Text
reason_of e = elim e.reason [ none ↦ unspecified | some r ↦ if is_empty r then unspecified else r ]

abbrev pub with_new : Option Text → List Text → List Text
with_new none new = new
with_new (some s) new = new ++ (s ∷ [])

abbrev pub finish :
    (crl : Bool) → List Line → Option (List Line × List Text) → List Line × Option (List Text)
finish crl lines none = (lines, none)
finish crl lines (some r) = (if is_empty r.1 then lines else r.0, if crl then some r.1 else none)

module _ (reasons : List Text) (index_time : ℕ → Text) (now : Text) where
  -- what the loop of `revoke` does for a serial, from the line that is there: the lines, and the
  -- serial where it is newly revoked
  unfoldable pub revoke_line : Entry → Text → Option Line → List Line → List Line × Option Text
  unfolding update_last is_known
  revoke_line e s (some l) lines =
      if field 0 l == revoked_mark
      then (lines, none)
      else (update_last (is_known s) (mark_line (stamped now (reason_of e))) lines, some s)
  revoke_line e s none lines = (
    lines ++ (new_line (index_time e.not_after) (stamped now (reason_of e)) s e.subject ∷ []),
    some s,
  )

  unfoldable pub revoke_serial : Entry → Option Text → List Line → Option (List Line × Option Text)
  unfolding revoke_line last_of is_known
  revoke_serial e none lines = none
  revoke_serial e (some s) lines =
      if contains reasons (reason_of e)
      then some (revoke_line e s (last_of (is_known s) lines) lines)
      else none

  -- one entry; none stands for the ValueError
  unfoldable pub revoke_entry : Entry → List Line → Option (List Line × Option Text)
  unfolding revoke_serial
  revoke_entry e lines = revoke_serial e (normalize_serial e.serial) lines

  -- the loop over the entries, with the serials that are newly revoked
  unfoldable pub revoke_all : List Entry → List Line → List Text → Option (List Line × List Text)
  unfolding revoke_entry
  revoke_all [] lines new = some (lines, new)
  revoke_all (e ∷ es) lines new = elim (revoke_entry e lines) [
    | none ↦ none
    | some r ↦ revoke_all es r.0 (with_new r.1 new)
  ]

  -- `revoke`: the index after it, and the serials that it returns, none where it raises. The index is
  -- replaced before openssl is called.
  unfoldable pub revoke : (crl : Bool) → List Entry → List Line → List Line × Option (List Text)
  unfolding revoke_all
  revoke crl entries lines = finish crl lines (revoke_all entries lines [])
