-- ===== src/Chat/Queue/Unique.antt =====
-- The copies that `queue_offline_chat` leaves in the table: for which devices, and how many for each.
use native.Mathlib.Nat.{add-zero}
use c4raven_server.Prelude.{
  ℕ, suc, ◌+◌, String, ◌≡◌, refl, ◌∙◌, Bool, true, false, ◌&&◌, ◌||◌, not, Option, List, [], ◌∷◌,
  ◌++◌, map, arith, ◌==◌, nat_eq, text_eq, option_eq, if◌then◌else◌, filter, any, contains,
  is_empty, or_else, length, All, any-append, Bool-cases, inl, inr, ==_refl, append-nil,
}
use c4raven_server.Chat.{Eud, Message, Event, Tables, Store, truthy}
use c4raven_server.Chat.Queue.Recipients.{
  HasDistinctUids, filter-HasDistinctUids, addressing-HasDistinctUids,
}
use c4raven_server.Chat.Queue.{addressing, may_queue, new_message, add_messages, queue_offline_chat}

-- The device has a row for the message.
pub has_copy : String → String → List Message → Bool
has_copy message_uid uid rows =
    any (λ (m : Message). m.message_uid == message_uid && m.recipient_uid == uid) rows

-- The unique constraint of offline_chat_messages.
abbrev pub HasOneCopyEach : List Message → Type 0
HasOneCopyEach [] = Unit
HasOneCopyEach (m ∷ ms) = (has_copy m.message_uid m.recipient_uid ms ≡ false) × HasOneCopyEach ms

abbrev already : String → List String → List Message → List String
already message_uid uids rows =
    map (λ (m : Message). m.recipient_uid)
      (filter (λ (m : Message). m.message_uid == message_uid && contains uids m.recipient_uid) rows)

contains-already :
    (mu : String) (uids : List String) (k : String) (rows : List Message)
    → contains (already mu uids rows) k ≡ (contains uids k && has_copy mu k rows)
unfolding contains filter has_copy any
contains-already mu uids k [] = ground arith
contains-already mu uids k (m ∷ ms) = ground (
  arith,
  contains-already mu uids k ms,
  text_eq.test_iff k m.recipient_uid,
  text_eq.test_iff m.recipient_uid k,
)

contains-uids :
    (e : String) (es : List Eud)
    → contains (map (λ (x : Eud). x.uid) es) e ≡ any (λ (x : Eud). e == x.uid) es
unfolding contains any
contains-uids e [] = refl
contains-uids e (x ∷ xs) = ground (arith, contains-uids e xs)

module _ (event : Event) (mu sender : String) (groups : Option (List ℕ)) (now : ℕ)
    (known : List String) where
  has_copy-add_messages :
      (id : ℕ) (mu' k : String) (es : List Eud)
      → has_copy mu' k (add_messages (new_message event mu sender groups now) known id es)
        ≡ (mu == mu' && any (λ (x : Eud). k == x.uid) es && not (contains known k))
  unfolding has_copy add_messages any
  has_copy-add_messages id mu' k [] = ground arith
  has_copy-add_messages id mu' k (e ∷ es) = elim (Bool-cases (contains known e.uid)) [
    | inl c ↦ rw (c) (ground (arith, has_copy-add_messages id mu' k es, text_eq.test_iff k e.uid))
    | inr c ↦ rw (c) (
        ground (
          arith,
          has_copy-add_messages (suc id) mu' k es,
          text_eq.test_iff k e.uid,
          text_eq.test_iff e.uid k,
        ))
  ]

  add_messages-HasOneCopyEach :
      (id : ℕ) (es : List Eud)
      → HasDistinctUids es
      → HasOneCopyEach (add_messages (new_message event mu sender groups now) known id es)
  unfolding add_messages
  add_messages-HasOneCopyEach id [] h = tt
  add_messages-HasOneCopyEach id (e ∷ es) h = elim (Bool-cases (contains known e.uid)) [
    | inl c ↦ rw (c) (add_messages-HasOneCopyEach id es h.1)
    | inr c ↦ rw (c) (
      has_copy-add_messages (suc id) mu e.uid es ∙ ground (arith, h.0),
      add_messages-HasOneCopyEach (suc id) es h.1,
    )
  ]

  add_messages-known :
      (id : ℕ) (es : List Eud)
      → All (λ (e : Eud). contains known e.uid ≡ true) es
      → add_messages (new_message event mu sender groups now) known id es ≡ []
  unfolding add_messages
  add_messages-known id [] h = refl
  add_messages-known id (e ∷ es) h = rw (h.0) (add_messages-known id es h.1)

has_copy-append :
    (mu k : String) (xs ys : List Message)
    → has_copy mu k (xs ++ ys) ≡ (has_copy mu k xs || has_copy mu k ys)
unfolding has_copy
has_copy-append mu k xs ys = any-append _ xs ys

append-HasOneCopyEach :
    (rows new : List Message)
    → HasOneCopyEach rows
    → HasOneCopyEach new
    → ((mu k : String) → has_copy mu k rows ≡ true → has_copy mu k new ≡ false)
    → HasOneCopyEach (rows ++ new)
append-HasOneCopyEach [] new h n apart = n
append-HasOneCopyEach (m ∷ ms) new h n apart = (
  has_copy-append m.message_uid m.recipient_uid ms new
      ∙ ground (arith, h.0, apart m.message_uid m.recipient_uid here),
  append-HasOneCopyEach ms new h.1 n (λ mu k e. apart mu k (there mu k e)),
)
  where
    here : has_copy m.message_uid m.recipient_uid (m ∷ ms) ≡ true
    here = unfold has_copy any in ground (arith, ==_refl m.message_uid, ==_refl m.recipient_uid)

    there : (mu k : String) → has_copy mu k ms ≡ true → has_copy mu k (m ∷ ms) ≡ true
    there mu k e = unfold has_copy any in ground arith

-- The devices that a queued event is for.
abbrev pub recipients_of : Tables → Event → Option String → Option ℕ → List String → List Eud
recipients_of t event sender user_id target_groups =
    filter may_queue (addressing t event (or_else sender "") user_id target_groups).0

module _ (commits : Bool) (t : Tables) (event : Event) (sender : Option String) (user_id : Option ℕ)
    (now : ℕ) (target_groups : List String) (s : Store) where
  abbrev mu : String
  mu = or_else event.uid ""

  abbrev known : List String
  known =
      already mu (map (λ (e : Eud). e.uid) (recipients_of t event sender user_id target_groups))
        s.rows

  abbrev new : List Message
  new =
      add_messages
        (new_message event mu (or_else sender "")
          (addressing t event (or_else sender "") user_id target_groups).1 now)
        known s.next_id (recipients_of t event sender user_id target_groups)

  abbrev pub refused : Bool
  refused =
      not (truthy event.uid)
      || not (truthy sender)
      || is_empty (recipients_of t event sender user_id target_groups)
      || not commits

  -- The function in one line: nothing, or the new rows at the end of the table.
  queue_offline_chat_lem : queue_offline_chat commits t event sender user_id now target_groups s ≡ (
      if refused
      then (s, 0)
      else (record { rows = s.rows ++ new; next_id = s.next_id + length new }, length new))
  unfolding queue_offline_chat
  queue_offline_chat_lem = elim (Bool-cases (not (truthy event.uid) || not (truthy sender))) [
    | inl a ↦ rw (a)
    | inr a ↦ rw (a)
  ]

  has_copy-new :
      (mu' k : String)
      → has_copy mu' k new ≡ (
          mu == mu'
          && any (λ (e : Eud). k == e.uid) (recipients_of t event sender user_id target_groups)
          && not (has_copy mu k s.rows))
  has_copy-new mu' k =
      has_copy-add_messages event mu (or_else sender "") _ now known s.next_id mu' k
        (recipients_of t event sender user_id target_groups)
      ∙ rw
          (
            contains-already mu
                (map (λ (e : Eud). e.uid) (recipients_of t event sender user_id target_groups)) k
                s.rows,
            contains-uids k (recipients_of t event sender user_id target_groups),
          )
          (ground arith)

  -- `queue_offline_chat` keeps the unique constraint on recipient and message, whether or not the
  -- database takes the commit.
  pub queue_offline_chat-HasOneCopyEach :
      HasOneCopyEach s.rows
      → HasOneCopyEach
          (queue_offline_chat commits t event sender user_id now target_groups s).0.rows
  queue_offline_chat-HasOneCopyEach h = rw queue_offline_chat_lem (elim (Bool-cases refused) [
    | inl r ↦ rw (r) h
    | inr r ↦ rw (r) (append-HasOneCopyEach s.rows new h unique apart)
  ])
    where
      unique : HasOneCopyEach new
      unique = add_messages-HasOneCopyEach event mu (or_else sender "") _ now known s.next_id _ (
          filter-HasDistinctUids may_queue _
            (addressing-HasDistinctUids t event (or_else sender "") user_id target_groups))

      apart : (mu' k : String) → has_copy mu' k s.rows ≡ true → has_copy mu' k new ≡ false
      apart mu' k e = has_copy-new mu' k ∙ ground (arith, text_eq.test_iff mu mu')

  -- After a commit that the database takes, a device has a copy of a message exactly when it had
  -- one before, or the message is this event and the device is addressed by it (and is no bridge
  -- and not federated); so every addressed device has one, connected or not.
  pub has_copy-queue_offline_chat :
      refused ≡ false
      → (mu' k : String)
      → has_copy mu' k
          (queue_offline_chat commits t event sender user_id now target_groups s).0.rows
        ≡ (has_copy mu' k s.rows
            || mu == mu'
              && any (λ (e : Eud). k == e.uid) (recipients_of t event sender user_id target_groups))
  has_copy-queue_offline_chat r mu' k =
      rw (queue_offline_chat_lem, r, has_copy-append)
        (ground (arith, has_copy-new mu' k, text_eq.test_iff mu mu'))

known_recipients :
    (mu : String) (rows : List Message) (all es : List Eud)
    → ((k : String)
        → any (λ (e : Eud). k == e.uid) es ≡ true
        → any (λ (e : Eud). k == e.uid) all ≡ true)
    → ((k : String) → any (λ (e : Eud). k == e.uid) all ≡ true → has_copy mu k rows ≡ true)
    → All (λ (e : Eud). contains (already mu (map (λ (x : Eud). x.uid) all) rows) e.uid ≡ true) es
known_recipients mu rows all [] sub has = tt
known_recipients mu rows all (e ∷ es) sub has = (
  rw (contains-already, contains-uids, sub e.uid here, has e.uid (sub e.uid here)),
  known_recipients mu rows all es (λ k h. sub k (there k h)) has,
)
  where
    here : any (λ (x : Eud). e.uid == x.uid) (e ∷ es) ≡ true
    here = unfold any in ground (arith, ==_refl e.uid)

    there :
        (k : String)
        → any (λ (x : Eud). k == x.uid) es ≡ true
        → any (λ (x : Eud). k == x.uid) (e ∷ es) ≡ true
    there k h = unfold any in ground arith

-- With every recipient's copy there already, the function changes nothing.
queue_offline_chat-known :
    (commits : Bool) (t : Tables) (event : Event) (sender : Option String) (user_id : Option ℕ)
    (now : ℕ) (target_groups : List String) (s : Store)
    → (refused true t event sender user_id now target_groups s ≡ false
        → (k : String)
        → any (λ (e : Eud). k == e.uid) (recipients_of t event sender user_id target_groups) ≡ true
        → has_copy (or_else event.uid "") k s.rows ≡ true)
    → queue_offline_chat commits t event sender user_id now target_groups s ≡ (s, 0)
queue_offline_chat-known commits t event sender user_id now target_groups s has =
    queue_offline_chat_lem commits t event sender user_id now target_groups s
    ∙ elim (Bool-cases (refused true t event sender user_id now target_groups s)) [
      | inl r ↦ ground arith
      | inr r ↦ unchanged _ _ (none_new r)
    ]
  where
    none_new :
        refused true t event sender user_id now target_groups s ≡ false
        → new commits t event sender user_id now target_groups s ≡ []
    none_new r =
        add_messages-known event (or_else event.uid "") (or_else sender "") _ now _ s.next_id _ (
          known_recipients (or_else event.uid "") s.rows
            (recipients_of t event sender user_id target_groups) _ (λ k h. h) (has r))

    unchanged :
        (b : Bool) (ms : List Message)
        → ms ≡ []
        → let r : Store × ℕ =
            if b
            then (s, 0)
            else (record { rows = s.rows ++ ms; next_id = s.next_id + length ms }, length ms) in
          ◌≡◌ {A = Store × ℕ} r (s, 0)
    unchanged true ms e = refl
    unchanged false [] e = rw (append-nil, add-zero)
    unchanged false (m ∷ ms) e = cc

-- Queuing the same event once more, at whatever time and whatever the database answers then, adds
-- nothing: the table stays as the first call left it, and 0 is returned.
pub queue_offline_chat_again :
    (t : Tables) (event : Event) (sender : Option String) (user_id : Option ℕ) (now later : ℕ)
    (target_groups : List String) (commits : Bool) (s : Store)
    → let first = (queue_offline_chat true t event sender user_id now target_groups s).0 in
      queue_offline_chat commits t event sender user_id later target_groups first ≡ (first, 0)
queue_offline_chat_again t event sender user_id now later target_groups commits s =
    queue_offline_chat-known commits t event sender user_id later target_groups first (λ r k h.
      has_copy-queue_offline_chat true t event sender user_id now target_groups s r
        (or_else event.uid "") k
      ∙ ground (arith, h, ==_refl (or_else event.uid "")))
  where
    first : Store
    first = (queue_offline_chat true t event sender user_id now target_groups s).0
