-- ===== src/Inbox/Subscriptions.antt =====
-- What a `sub` frame leaves.
use mortstack.Prelude.{
  String, ◌≡◌, refl, ap, ◌∙◌, Bool, true, false, not, ◌&&◌, ◌==◌, eq_iff, some, List, [], ◌∷◌, ◌++◌,
  map, all, keep_if, arith, if◌then◌else◌,
}
use mortstack.Js.Unique.{member, of_array, member-of_array}
use mortstack.Inbox.{
  Inbox, ChatCall, attach_inbox, detach_inbox, accept_send, accept_typing, accept_read,
}
use mortstack.Inbox.Frames.{subscribed, handle_subscribe}

-- Whether the calls, one after the other, leave the inbox attached to the chat.
abbrev pub replay : List ChatCall → String → Bool → Bool
replay [] chat b = b
replay (attach_inbox c user ∷ calls) chat b = replay calls chat (if c == chat then true else b)
replay (detach_inbox c user ∷ calls) chat b = replay calls chat (if c == chat then false else b)
replay (_ ∷ calls) chat b = replay calls chat b

replay-append :
    (xs ys : List ChatCall) (chat : String) (b : Bool)
    → replay (xs ++ ys) chat b ≡ replay ys chat (replay xs chat b)
replay-append [] ys chat b = refl
replay-append (attach_inbox c user ∷ xs) ys chat b = replay-append xs ys chat _
replay-append (detach_inbox c user ∷ xs) ys chat b = replay-append xs ys chat _
replay-append (accept_send c i ∷ xs) ys chat b = replay-append xs ys chat b
replay-append (accept_typing c u on ∷ xs) ys chat b = replay-append xs ys chat b
replay-append (accept_read c u upto ∷ xs) ys chat b = replay-append xs ys chat b

replay-attach :
    (user chat : String) (added : List String) (b : Bool)
    → replay (map (λ c. attach_inbox c user) added) chat b ≡ (if member added chat then true else b)
unfolding member
replay-attach user chat [] b = refl
replay-attach user chat (c ∷ added) b =
    ground (arith, replay-attach user chat added (if c == chat then true else b))

replay-detach :
    (user chat : String) (removed : List String) (b : Bool)
    → replay (map (λ c. detach_inbox c user) removed) chat b
      ≡ (if member removed chat then false else b)
unfolding member
replay-detach user chat [] b = refl
replay-detach user chat (c ∷ removed) b =
    ground (arith, replay-detach user chat removed (if c == chat then false else b))

member-keep_if :
    (p : String → Bool) (xs : List String) (x : String)
    → member (keep_if p xs) x ≡ (member xs x && p x)
unfolding member
member-keep_if p [] x = refl
member-keep_if p (y ∷ xs) x = ground (arith, member-keep_if p xs x, eq_iff y x)

all-true : (f : String → Bool) (xs : List String) → ((x : String) → f x ≡ true) → all f xs ≡ true
all-true f [] h = refl
all-true f (x ∷ xs) h = rw (h x, all-true f xs h) refl

settled : (a b : Bool) → (if a && not b then false else if b && not a then true else a) ≡ b
settled true true = refl
settled true false = refl
settled false true = refl
settled false false = refl

-- The chats to leave and to join, as the handler computes them.
abbrev added_of : List String → List String → List String
added_of current chats = keep_if (λ id. not (member (of_array current) id)) chats

calls_follow :
    (user chat : String) (current chats : List String) (calls : List ChatCall)
    → replay calls chat false ≡ member current chat
    → replay
        (calls
          ++ map (λ c. attach_inbox c user) (added_of current chats)
          ++ map (λ c. detach_inbox c user) (added_of chats current))
        chat
        false
      ≡ member chats chat
calls_follow user chat current chats calls h =
    let added = added_of current chats in
    let removed = added_of chats current in
    replay-append (calls ++ map (λ c. attach_inbox c user) added)
      (map (λ c. detach_inbox c user) removed) chat false
    ∙ ap (replay (map (λ c. detach_inbox c user) removed) chat) (
        replay-append calls (map (λ c. attach_inbox c user) added) chat false
        ∙ ap (replay (map (λ c. attach_inbox c user) added) chat) h
        ∙ replay-attach user chat added (member current chat))
    ∙ replay-detach user chat removed (if member added chat then true else member current chat)
    ∙ rw
        (
          member-keep_if (λ id. not (member (of_array current) id)) chats chat,
          member-keep_if (λ id. not (member (of_array chats) id)) current chat,
          member-of_array current chat,
          member-of_array chats chat,
        )
        (settled (member current chat) (member chats chat))

-- When every chat answers, a `sub` frame leaves the subscriptions at the chats it names, and if the
-- calls so far left the inbox attached to the chats subscribed to, so do the calls with the frame's.
pub handle_subscribe_follows :
    (user chat : String) (chats : List String) (s : Inbox)
    → ((c : String) → s.answers c ≡ true)
    → replay s.calls chat false ≡ member (subscribed s) chat
    → ((handle_subscribe user chats s).0 ≡ some tt)
      × (member (subscribed (handle_subscribe user chats s).1) chat ≡ member chats chat)
      × (replay (handle_subscribe user chats s).1.calls chat false ≡ member chats chat)
unfolding handle_subscribe
handle_subscribe_follows user chat chats s answers h =
    let added = keep_if (λ id. not (member (of_array (subscribed s)) id)) chats in
    let removed = keep_if (λ id. not (member (of_array chats) id)) (subscribed s) in
    rw (all-true s.answers added answers, all-true s.answers removed answers)
      (refl, member-of_array chats chat, calls_follow user chat (subscribed s) chats s.calls h)
