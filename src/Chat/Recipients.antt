-- ===== src/Chat/Recipients.antt =====
-- What one user gets of a batch.
use mortstack.Prelude.{
  String, ◌≡◌, ◌≢◌, refl, sym, Bool, false, not, ◌&&◌, ◌==◌, eq_iff, List, [], ◌∷◌, ◌++◌, map, All,
  Pairs, keep_if, arith, if◌then◌else◌,
}
use mathlib.Core.List.{append_assoc, append-nil}
use mortstack.Js.Dict.{Dict, get_or, get, get-put}
use mortstack.Js.Unique.{member}
use mortstack.Envelope.{MsgPayload, AckPayload}
use mortstack.Chat.Fanout.{
  AssignedSend, ack_of, msg_of, push_to, push_msgs, per_sender, per_recipient,
}

got-push_to :
    {A : Type 0} (k u : String) (x : A) (m : Dict (List A))
    → get_or (push_to k x m) u [] ≡ (if k == u then get_or m u [] ++ x ∷ [] else get_or m u [])
unfolding push_to
got-push_to k u x m = ground (arith, get-put k u (get_or m k [] ++ x ∷ []) m, eq_iff k u)

abbrev pub sent_by : String → AssignedSend → Bool
sent_by user a = a.entry.sender_id == user

got-per_sender :
    (u : String) (assigned : List AssignedSend) (m : Dict (List AckPayload))
    → get_or (per_sender assigned m) u []
      ≡ get_or m u [] ++ map ack_of (keep_if (sent_by u) assigned)
unfolding per_sender
got-per_sender u [] m = sym (append-nil _)
got-per_sender u (a ∷ assigned) m = ground (
  arith,
  got-per_sender u assigned (push_to a.entry.sender_id (ack_of a) m),
  got-push_to a.entry.sender_id u (ack_of a) m,
  append_assoc (get_or m u []) (ack_of a ∷ []) (map ack_of (keep_if (sent_by u) assigned)),
)

-- A sender gets one list of acks: those of its own entries, in the order of the batch.
pub per_sender_acks :
    (u : String) (assigned : List AssignedSend)
    → get_or (per_sender assigned []) u [] ≡ map ack_of (keep_if (sent_by u) assigned)
unfolding get
per_sender_acks u assigned = got-per_sender u assigned []

-- No user comes twice.
abbrev pub IsUnique : List String → Type 0
IsUnique = Pairs (λ a b. a ≢ b)

not_member : (u : String) (users : List String) → All (λ b. u ≢ b) users → member users u ≡ false
unfolding member
not_member u [] h = refl
not_member u (x ∷ users) h = ground (arith, eq_iff x u, h.0, not_member u users h.1)

got-push_msgs :
    (chat u : String) (a : AssignedSend) (users : List String) (m : Dict (List MsgPayload))
    → IsUnique users
    → get_or (push_msgs chat a users m) u [] ≡ (
        if member users u && not (sent_by u a)
        then get_or m u [] ++ msg_of chat a ∷ []
        else get_or m u [])
unfolding push_msgs member
got-push_msgs chat u a [] m h = refl
got-push_msgs chat u a (x ∷ users) m h = ground (
  arith,
  eq_iff x u,
  eq_iff x a.entry.sender_id,
  eq_iff a.entry.sender_id u,
  not_member x users h.0,
  got-push_to x u (msg_of chat a) m,
  got-push_msgs chat u a users m h.1,
  got-push_msgs chat u a users (push_to x (msg_of chat a) m) h.1,
)

got-per_recipient :
    (chat u : String) (attached : List String) (assigned : List AssignedSend)
    (m : Dict (List MsgPayload))
    → IsUnique attached
    → get_or (per_recipient chat attached assigned m) u []
      ≡ get_or m u []
        ++ (if member attached u
            then map (msg_of chat) (keep_if (λ a. not (sent_by u a)) assigned)
            else [])
unfolding per_recipient
got-per_recipient chat u attached [] m h = ground (arith, append-nil (get_or m u []))
got-per_recipient chat u attached (a ∷ assigned) m h = ground (
  arith,
  got-per_recipient chat u attached assigned (push_msgs chat a attached m) h,
  got-push_msgs chat u a attached m h,
  append_assoc (get_or m u []) (msg_of chat a ∷ [])
      (map (msg_of chat) (keep_if (λ a. not (sent_by u a)) assigned)),
)

-- Where no attached user comes twice, an attached user gets one list of messages, the entries of
-- everyone else, in the order of the batch, and a user that is not attached gets none.
pub per_recipient_msgs :
    (chat u : String) (attached : List String) (assigned : List AssignedSend)
    → IsUnique attached
    → get_or (per_recipient chat attached assigned []) u [] ≡ (
        if member attached u
        then map (msg_of chat) (keep_if (λ a. not (sent_by u a)) assigned)
        else [])
unfolding get
per_recipient_msgs chat u attached assigned h = got-per_recipient chat u attached assigned [] h
