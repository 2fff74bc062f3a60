-- ===== src/Eud/Framing.antt =====
-- The loop of `handle` in raven/eud_handler/EudHandler.py: how the data of a TCP stream is cut into
-- messages. `parses` says whether xml.etree's `fromstring` accepts a text. The data of a call of
-- recv is text here: `data.decode("utf-8")` raises where a chunk ends inside a character.
pub mod Receiving
use Prim.Native.Char.{Char}
use c4raven_server.Prelude.{
  append, ℕ, zero, suc, ◌+◌, String, Bool, true, false, Option, none, some, List, [], ◌∷◌,
  starts_with, has_text, if◌then◌else◌,
}

abbrev pub event_end : String
event_end = "</event>"

abbrev pub auth_end : String
auth_end = "</auth>"

-- Whether a terminator begins here, and how many of its characters follow the first.
unfoldable pub terminator : String → Option ℕ
unfolding starts_with
terminator s =
    if starts_with s event_end then some 7 else if starts_with s auth_end then some 6 else none

-- The character belongs to the first part.
abbrev pub add_first : Char → List String → List String
add_first c [] = []
add_first c (p ∷ ps) = String.◌∷◌ c p ∷ ps

-- `re.split("</event>|</auth>", s)`, with some characters of a terminator still to be skipped
unfoldable pub split_from : ℕ → String → List String
unfolding terminator
split_from n String.[] = "" ∷ []
split_from (suc n) (String.◌∷◌ c s) = split_from n s
split_from zero (String.◌∷◌ c s) = elim (terminator (String.◌∷◌ c s)) [
  | none ↦ add_first c (split_from 0 s)
  | some n ↦ "" ∷ split_from n s
]

-- A message that is handed on: to `handle_cot` or to `handle_auth`.
pub data Message : Type 0 where
  cot auth : String → Message

-- What the loop over the parts hands on, and whether it ended at a ParseError, which counts one
-- dropped message.
pub record Handled : Type 0 where
  pub messages : List Message
  pub dropped : Bool

abbrev pub hand_on : Message → Handled → Handled
hand_on m h = record h { messages = m ∷ h.messages }

module _ (parses : String → Bool) where
  -- `for c in cot_list`
  unfoldable pub handle_parts : List String → Handled
  unfolding has_text
  handle_parts [] = record { messages = []; dropped = false }
  handle_parts (c ∷ cs) =
      let rest = handle_parts cs in
      if has_text "<event" c
      then (if parses (append c event_end)
          then hand_on (cot (append c event_end)) rest
          else record { messages = []; dropped = true })
      else if has_text "<auth>" c
      then (if parses (append c auth_end)
          then hand_on (auth (append c auth_end)) rest
          else record { messages = []; dropped = true })
      else rest

  -- One turn of the loop of `handle`, on the list of parts: fewer than two and the buffer is kept.
  -- After the loop over the parts the buffer is set to "", also where a ParseError has just set it
  -- to the part that did not parse.
  abbrev pub turn : String → List String → String × Handled
  turn buffer (p ∷ q ∷ ps) = ("", handle_parts (p ∷ q ∷ ps))
  turn buffer _ = (buffer, record { messages = []; dropped = false })

  unfoldable pub receive : String → String → String × Handled
  unfolding split_from handle_parts
  receive buffer received =
      let buffered = append buffer received in turn buffered (split_from 0 buffered)

  -- The turns of the loop on the data of one recv after the other: what each hands on, and the
  -- buffer after the last.
  unfoldable pub receive_all : String → List String → String × List Handled
  unfolding receive
  receive_all buffer [] = (buffer, [])
  receive_all buffer (d ∷ ds) =
      let now = receive buffer d in let rest = receive_all now.0 ds in (rest.0, now.1 ∷ rest.1)
