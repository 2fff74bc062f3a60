-- ===== src/Eud/Framing/Receiving.antt =====
-- What the loop of `handle` hands on for the data of a stream that is cut in one way or another.
use Prim.Native.Char.{Char}
use c4raven_server.Prelude.{
  append, append_assoc_text, append_nil_text, ℕ, suc, ◌≤◌, String, ◌≡◌, refl, sym, ap, ◌∙◌, Bool,
  true, false, none, List, [], ◌∷◌, ◌++◌, map, starts_with, has_text, All, All-map, append-nil,
  arith,
}
use c4raven_server.Eud.Framing.{
  event_end, auth_end, terminator, split_from, add_first, Message, cot, Handled, hand_on,
  handle_parts, turn, receive, receive_all,
}

size : String → ℕ
size String.[] = 0
size (String.◌∷◌ c s) = suc (size s)

starts_with-append :
    (s r t : String) → size t ≤ size s → starts_with (append s r) t ≡ starts_with s t
unfolding size starts_with
starts_with-append String.[] String.[] String.[] h = refl
starts_with-append String.[] (String.◌∷◌ d r) String.[] h = refl
starts_with-append String.[] r (String.◌∷◌ d t) h = absurd (omega arith)
starts_with-append (String.◌∷◌ c s) r String.[] h = refl
starts_with-append (String.◌∷◌ c s) r (String.◌∷◌ d t) h =
    rw (starts_with-append s r t (omega arith)) refl

-- No terminator begins in the text, also where `</event>` follows it.
abbrev pub IsBody : String → Type 0
IsBody String.[] = Unit
IsBody (String.◌∷◌ c s) = (terminator (String.◌∷◌ c (append s event_end)) ≡ none) × IsBody s

size-append_end : (s : String) → 8 ≤ size (append s event_end)
unfolding size
size-append_end String.[] = omega arith
size-append_end (String.◌∷◌ c s) = omega (arith, size-append_end s)

terminator-append : (s r : String) → 8 ≤ size s → terminator (append s r) ≡ terminator s
unfolding terminator size
terminator-append s r h =
    rw
      (
        starts_with-append s r event_end (omega arith),
        starts_with-append s r auth_end (omega arith),
      )
      refl

terminator_body :
    (c : Char) (s r : String)
    → terminator (String.◌∷◌ c (append s (append event_end r)))
      ≡ terminator (String.◌∷◌ c (append s event_end))
unfolding size
terminator_body c s r =
    ap (λ x. terminator (String.◌∷◌ c x)) (sym (append_assoc_text s event_end r))
    ∙ terminator-append (String.◌∷◌ c (append s event_end)) r (omega (arith, size-append_end s))

split_from-end : (r : String) → split_from 0 (append event_end r) ≡ "" ∷ split_from 0 r
unfolding split_from terminator starts_with
split_from-end r = refl

split_from-char :
    (c : Char) (x : String)
    → terminator (String.◌∷◌ c x) ≡ none
    → split_from 0 (String.◌∷◌ c x) ≡ add_first c (split_from 0 x)
unfolding split_from
split_from-char c x h = rw (h, split_from) refl

-- A body that is ended is the first part.
split_from-body :
    (b r : String) → IsBody b → split_from 0 (append b (append event_end r)) ≡ b ∷ split_from 0 r
split_from-body String.[] r h = split_from-end r
split_from-body (String.◌∷◌ c s) r h =
    split_from-char c (append s (append event_end r)) (terminator_body c s r ∙ h.0)
    ∙ ap (add_first c) (split_from-body s r h.1)

-- The messages that bodies are sent as.
abbrev pub stream : List String → String
stream [] = ""
stream (b ∷ bs) = append b (append event_end (stream bs))

split_from-stream :
    (bs : List String) (r : String)
    → All IsBody bs
    → split_from 0 (append (stream bs) r) ≡ bs ++ split_from 0 r
split_from-stream [] r h = refl
split_from-stream (b ∷ bs) r h =
    ap (λ x. split_from 0 x) (append_assoc_text b (append event_end (stream bs)) r)
    ∙ split_from-body b (append (stream bs) r) h.0
    ∙ ap (λ l. b ∷ l) (split_from-stream bs r h.1)

abbrev pub ended : String → String
ended b = append b event_end

-- The texts of the receives before add up to no complete message.
abbrev pub IsPartial : String → List String → Type 0
IsPartial buffer [] = Unit
IsPartial buffer (d ∷ ds) =
    (split_from 0 (append buffer d) ≡ append buffer d ∷ []) × IsPartial (append buffer d) ds

abbrev pub joined : List String → String
joined [] = ""
joined (d ∷ ds) = append d (joined ds)

abbrev pub messages_of : List Handled → List Message
messages_of [] = []
messages_of (h ∷ hs) = h.messages ++ messages_of hs

module _ (parses : String → Bool) where
  -- A body of an event whose message the XML parser accepts.
  abbrev pub IsEvent : String → Type 0
  IsEvent b = IsBody b × (has_text "<event" b ≡ true) × (parses (ended b) ≡ true)

  handle_parts-events :
      (bs ps : List String)
      → All IsEvent bs
      → handle_parts parses (bs ++ ps) ≡ record {
        messages = map (λ b. cot (ended b)) bs ++ (handle_parts parses ps).messages;
        dropped = (handle_parts parses ps).dropped;
      }
  unfolding handle_parts
  handle_parts-events [] ps h = refl
  handle_parts-events (b ∷ bs) ps h =
      rw (h.0.1, h.0.2) (ap (hand_on (cot (ended b))) (handle_parts-events bs ps h.1))

  turn-many :
      (buffer b : String) (bs : List String) (p : String) (ps : List String)
      → turn parses buffer ((b ∷ bs) ++ (p ∷ ps)) ≡ ("", handle_parts parses ((b ∷ bs) ++ (p ∷ ps)))
  turn-many buffer b [] p ps = refl
  turn-many buffer b (c ∷ bs) p ps = refl

  receive-buffered :
      (buffer received : String) (b : String) (bs : List String) (r : String)
      → append buffer received ≡ append (stream (b ∷ bs)) r
      → All IsEvent (b ∷ bs)
      → split_from 0 r ≡ r ∷ []
      → receive parses buffer received ≡ (
        "",
        record {
          messages = map (λ c. cot (ended c)) (b ∷ bs) ++ (handle_parts parses (r ∷ [])).messages;
          dropped = (handle_parts parses (r ∷ [])).dropped;
        },
      )
  unfolding receive
  receive-buffered buffer received b bs r e h one =
      ap (turn parses (append buffer received)) (
        ap (split_from 0) e
        ∙ split_from-stream (b ∷ bs) r (All-map (λ c k. k.0) (b ∷ bs) h)
        ∙ ap (λ l. (b ∷ bs) ++ l) one)
      ∙ turn-many (append buffer received) b bs r []
      ∙ ap (λ m. ("", m)) (handle_parts-events (b ∷ bs) (r ∷ []) h)

  nothing_left : handle_parts parses ("" ∷ []) ≡ record { messages = []; dropped = false }
  unfolding handle_parts has_text starts_with
  nothing_left = refl

  receive-partial :
      (buffer d : String)
      → split_from 0 (append buffer d) ≡ append buffer d ∷ []
      → receive parses buffer d ≡ (append buffer d, record { messages = []; dropped = false })
  unfolding receive
  receive-partial buffer d h = ap (turn parses (append buffer d)) h

  receive_all-partial :
      (buffer : String) (ds : List String) (d : String)
      → IsPartial buffer ds
      → messages_of (receive_all parses buffer (ds ++ (d ∷ []))).1
        ≡ (receive parses (append buffer (joined ds)) d).1.messages ++ []
  unfolding receive_all
  receive_all-partial buffer [] d h =
      ap (λ b. (receive parses b d).1.messages ++ []) (sym (append_nil_text buffer))
  receive_all-partial buffer (x ∷ xs) d h =
      ap (λ s. s.1.messages ++ messages_of (receive_all parses s.0 (xs ++ (d ∷ []))).1)
        (receive-partial buffer x h.0)
      ∙ receive_all-partial (append buffer x) xs d h.1
      ∙ ap (λ b. (receive parses b d).1.messages ++ []) (append_assoc_text buffer x (joined xs))

  -- One or more events that arrive in any number of pieces, the last of which ends them, are all
  -- handed on to `handle_cot`, in order and once, where no piece before the last completes a
  -- message: each body starts an event, has no terminator in it and is accepted by the parser.
  pub receive_all-pieces :
      (b : String) (bs ds : List String) (d : String)
      → All IsEvent (b ∷ bs)
      → IsPartial "" ds
      → append (joined ds) d ≡ stream (b ∷ bs)
      → messages_of (receive_all parses "" (ds ++ (d ∷ []))).1 ≡ map (λ c. cot (ended c)) (b ∷ bs)
  unfolding split_from
  receive_all-pieces b bs ds d h p e =
      receive_all-partial "" ds d p
      ∙ ap (λ r. r.1.messages ++ [])
          (receive-buffered (joined ds) d b bs "" (e ∙ sym (append_nil_text (stream (b ∷ bs)))) h
            refl)
      ∙ append-nil _
      ∙ ap (λ n. map (λ c. cot (ended c)) (b ∷ bs) ++ n) (ap (λ m. m.messages) nothing_left)
      ∙ append-nil _

  unparsed :
      (x : String)
      → has_text "<event" x ≡ true
      → parses (ended x) ≡ false
      → handle_parts parses (x ∷ []) ≡ record { messages = []; dropped = true }
  unfolding handle_parts
  unparsed x h k = rw (h, k) refl

  receive-rest :
      (y : String)
      → IsBody y
      → has_text "<event" y ≡ false
      → has_text "<auth>" y ≡ false
      → receive parses "" (append y (append event_end ""))
        ≡ ("", record { messages = []; dropped = false })
  unfolding receive split_from handle_parts has_text starts_with
  receive-rest y b h k =
      ap (turn parses (append y (append event_end ""))) (split_from-body y "" b) ∙ rw (h, k) refl

  -- When the end of one event and the beginning of the next arrive together, the second is lost: its
  -- beginning does not parse alone, which counts a dropped message and clears the buffer, and its
  -- end is handed on to nothing. The beginning has the start of an event and the end has no start
  -- of a message; neither has a terminator but the one that ends it.
  pub receive_all-lost :
      (b x y : String)
      → IsEvent b
      → split_from 0 x ≡ x ∷ []
      → has_text "<event" x ≡ true
      → parses (ended x) ≡ false
      → IsBody y
      → has_text "<event" y ≡ false
      → has_text "<auth>" y ≡ false
      → receive_all parses "" (append b (append event_end x) ∷ append y (append event_end "") ∷ [])
        ≡ (
          "",
          record { messages = cot (ended b) ∷ []; dropped = true }
              ∷ record { messages = []; dropped = false }
              ∷ [],
        )
  unfolding receive_all
  receive_all-lost b x y h one start fails q n m =
      ap
        (λ s.
          (let rest = receive_all parses s.0 (append y (append event_end "") ∷ []) in
            (rest.0, s.1 ∷ rest.1)))
        (receive-buffered "" (append b (append event_end x)) b [] x
            (sym (append_assoc_text b event_end x)) (h, tt) one
          ∙ ap (λ k. ("", record { messages = cot (ended b) ∷ k.messages; dropped = k.dropped }))
              (unparsed x start fails))
      ∙ ap (λ s. (s.0, record { messages = cot (ended b) ∷ []; dropped = true } ∷ s.1 ∷ []))
          (receive-rest y q n m)
