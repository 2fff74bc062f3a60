-- ===== src/Chat/Queue/Recipients.antt =====
-- The devices that a chat event is addressed to.
use c4raven_server.Prelude.{
  ℕ, String, ◌≡◌, refl, Bool, false, ◌&&◌, ◌||◌, not, Option, none, some, List, [], ◌∷◌, arith,
  ◌==◌, nat_eq, text_eq, option_eq, filter, any, or_else, any-filter-false, Bool-cases,
  Option-cases, inl, inr, ==→≡,
}
use c4raven_server.Chat.{Eud, Dest, ChatTag, Event, Tables, truthy}
use c4raven_server.Chat.Queue.{
  all_chat_rooms, put_recipient, put_found, put_all, dest_step, dest_loop, read_groups_of,
  without_sender, team_chat_recipients, address_chat, addressing,
}

-- No two devices of the list have the same uid.
abbrev pub HasDistinctUids : List Eud → Type 0
HasDistinctUids [] = Unit
HasDistinctUids (e ∷ es) = (any (λ (x : Eud). e.uid == x.uid) es ≡ false) × HasDistinctUids es

put_recipient-fresh :
    (u : String) (e : Eud) (rs : List Eud)
    → any (λ (x : Eud). u == x.uid) rs ≡ false
    → (u == e.uid) ≡ false
    → any (λ (x : Eud). u == x.uid) (put_recipient e rs) ≡ false
unfolding any put_recipient
put_recipient-fresh u e [] h k = ground arith
put_recipient-fresh u e (x ∷ xs) h k = ground (arith, put_recipient-fresh u e xs)

put_recipient-HasDistinctUids :
    (e : Eud) (rs : List Eud) → HasDistinctUids rs → HasDistinctUids (put_recipient e rs)
unfolding any put_recipient
put_recipient-HasDistinctUids e [] h = (refl, tt)
put_recipient-HasDistinctUids e (x ∷ xs) h = elim (Bool-cases (x.uid == e.uid)) [
  | inl k ↦ rw (k) (rw (← ==→≡ x.uid e.uid k) h.0, h.1)
  | inr k ↦ rw (k) (put_recipient-fresh x.uid e xs h.0 k, put_recipient-HasDistinctUids e xs h.1)
]

put_found-HasDistinctUids :
    (o : Option Eud) (rs : List Eud) → HasDistinctUids rs → HasDistinctUids (put_found o rs)
unfolding put_found
put_found-HasDistinctUids none rs h = h
put_found-HasDistinctUids (some e) rs h = put_recipient-HasDistinctUids e rs h

dest_step-HasDistinctUids :
    (t : Tables) (sender : String) (d : Dest) (s : Bool × List Eud)
    → HasDistinctUids s.1
    → HasDistinctUids (dest_step t sender d s).1
unfolding dest_step
dest_step-HasDistinctUids t sender d s h = elim (Bool-cases d.mission) [
  | inl a ↦ simp (a) h
  | inr a ↦ elim (Bool-cases (truthy d.callsign)) [
    | inl b ↦ simp (a, b) (put_found-HasDistinctUids _ s.1 h)
    | inr b ↦ elim (Bool-cases (truthy d.uid && not (d.uid == some sender))) [
      | inl c ↦ simp (a, b, c) (put_found-HasDistinctUids _ s.1 h)
      | inr c ↦ simp (a, b, c) h
    ]
  ]
]

dest_loop-HasDistinctUids :
    (t : Tables) (sender : String) (ds : List Dest) (s : Bool × List Eud)
    → HasDistinctUids s.1
    → HasDistinctUids (dest_loop t sender ds s).1
unfolding dest_loop
dest_loop-HasDistinctUids t sender [] s h = h
dest_loop-HasDistinctUids t sender (d ∷ ds) s h =
    dest_loop-HasDistinctUids t sender ds (dest_step t sender d s)
      (dest_step-HasDistinctUids t sender d s h)

put_all-HasDistinctUids : (es rs : List Eud) → HasDistinctUids rs → HasDistinctUids (put_all es rs)
unfolding put_all
put_all-HasDistinctUids [] rs h = h
put_all-HasDistinctUids (e ∷ es) rs h =
    put_all-HasDistinctUids es (put_recipient e rs) (put_recipient-HasDistinctUids e rs h)

pub filter-HasDistinctUids :
    (p : Eud → Bool) (rs : List Eud) → HasDistinctUids rs → HasDistinctUids (filter p rs)
unfolding filter
filter-HasDistinctUids p [] h = tt
filter-HasDistinctUids p (e ∷ es) h = elim (Bool-cases (p e)) [
  | inl k ↦
      rw (k)
        (any-filter-false p (λ (x : Eud). e.uid == x.uid) es h.0, filter-HasDistinctUids p es h.1)
  | inr k ↦ rw (k) (filter-HasDistinctUids p es h.1)
]

address_chat-HasDistinctUids :
    (t : Tables) (event : Event) (chat : ChatTag) (sender : String) (user_id : Option ℕ)
    (target_groups : List String)
    → HasDistinctUids (address_chat t event chat sender user_id target_groups).0
unfolding address_chat without_sender
address_chat-HasDistinctUids t event chat sender user_id target_groups =
    elim (Bool-cases (chat.id == some all_chat_rooms || chat.chatroom == some all_chat_rooms)) [
      | inl a ↦ rw (a) tt
      | inr a ↦
          elim (Bool-cases
            (not (dest_loop t sender event.dests (false, [])).0 && truthy chat.chatroom)) [
              | inl b ↦
                  rw (a, b)
                    (filter-HasDistinctUids _ _ (
                      put_all-HasDistinctUids
                        (team_chat_recipients t (or_else chat.chatroom "") sender
                          (read_groups_of t user_id target_groups))
                        _ found))
              | inr b ↦ rw (a, b) (filter-HasDistinctUids _ _ found)
            ]
    ]
  where
    found : HasDistinctUids (dest_loop t sender event.dests (false, [])).1
    found = dest_loop-HasDistinctUids t sender event.dests (false, []) tt

pub addressing-HasDistinctUids :
    (t : Tables) (event : Event) (sender : String) (user_id : Option ℕ)
    (target_groups : List String)
    → HasDistinctUids (addressing t event sender user_id target_groups).0
unfolding addressing
addressing-HasDistinctUids t event sender user_id target_groups =
    elim (Bool-cases event.has_remarks) [
      | inl a ↦ elim (Option-cases event.chat) [
        | inl n ↦ rw (a, n) tt
        | inr (chat, c) ↦
            simp (a, c) (address_chat-HasDistinctUids t event chat sender user_id target_groups)
      ]
      | inr a ↦ simp (a) tt
    ]
