-- ===== src/Chat/Gate.antt =====
-- Who may signal: what a typing frame does, by whom the object takes for a member of the chat.
use mortstack.Prelude.{
  String, ◌≡◌, refl, sym, ap, ◌∙◌, Option, Bool-cases, inl, inr, Bool, true, false, not, ◌==◌, some,
  List, [], ◌∷◌, ◌++◌, map, any, keep_if, arith, if◌then◌else◌,
}
use mortstack.Js.Unique.{member, of_array, member-of_array}
use mortstack.Persist.{Database, MemberRow, member_ids}
use mortstack.Persist
use mortstack.Chat.{Chat, Effect, MemberCache, deliver_typing, query, carry_on, pure}
use mortstack.Chat.Signals.{
  load_attached, is_stale, cached_ids, refresh_members, is_member, relay_typing, accept_typing,
}

-- The rows of the chat's members name the user.
member-member_ids :
    (chat user : String) (db : Database)
    → member (member_ids chat db) user ≡ any (Persist.is_member chat user) db.members
unfolding member_ids member
member-member_ids chat user db = go db.members
  where
    go :
        (rows : List MemberRow)
        → member (map (λ m. m.user_id) (keep_if (λ m. m.chat_id == chat) rows)) user
          ≡ any (Persist.is_member chat user) rows
    go [] = refl
    go (m ∷ rows) = ground (arith, go rows)

-- The frames of a typing signal.
abbrev pub typing_frames : String → Bool → Chat → List Effect
typing_frames user on s =
    map (λ other. deliver_typing other (record { chat_id = s.chat_id; user_id = user; is_on = on }))
      (keep_if (λ other. not (other == user)) (load_attached s))

-- Whom the object takes for a member: who is in the database, or in a copy that is not out of date.
abbrev pub is_allowed : String → Chat → Bool
is_allowed user s =
    if is_stale s.member_cache s.clock
    then any (Persist.is_member s.chat_id user) s.db.members
    else member (cached_ids s.member_cache) user

refreshed :
    (user : String) (s : Chat)
    → s.net ≡ []
    → is_stale s.member_cache s.clock ≡ true
    → is_member user s ≡ (
      some (any (Persist.is_member s.chat_id user) s.db.members),
      record s {
        member_cache = some (record { ids = of_array (member_ids s.chat_id s.db); at = s.clock });
      },
    )
unfolding is_member refresh_members query cached_ids
refreshed user s quiet stale = ground (
  arith,
  quiet,
  stale,
  member-of_array (member_ids s.chat_id s.db) user,
  member-member_ids s.chat_id user s.db,
)

kept :
    (user : String) (s : Chat)
    → is_stale s.member_cache s.clock ≡ false
    → is_member user s ≡ (some (member (cached_ids s.member_cache) user), s)
unfolding is_member refresh_members query cached_ids
kept user s fresh = ground (arith, fresh)

-- The copy that the decision leaves.
decided :
    (user : String) (s : Chat)
    → s.net ≡ []
    → (cache : Option MemberCache) × (is_member user s
        ≡ (some (is_allowed user s), record s { member_cache = cache }))
decided user s quiet = elim (Bool-cases (is_stale s.member_cache s.clock)) [
  | inl stale ↦
      let now : MemberCache = record { ids = of_array (member_ids s.chat_id s.db); at = s.clock } in
      let allowed : is_allowed user s ≡ any (Persist.is_member s.chat_id user) s.db.members =
        rw stale refl in
      (
        some now,
        refreshed user s quiet stale
            ∙ ap (λ b. (some b, record s { member_cache = some now })) (sym allowed),
      )
  | inr fresh ↦
      let allowed : is_allowed user s ≡ member (cached_ids s.member_cache) user = rw fresh refl in
      (s.member_cache, kept user s fresh ∙ ap (λ b. (some b, s)) (sym allowed))
]

relayed :
    (user : String) (on b : Bool) (s : Chat) (cache : Option MemberCache)
    → ((if b then relay_typing user on else pure tt) (record s { member_cache = cache })).1.sent
      ≡ (if b then s.sent ++ typing_frames user on s else s.sent)
unfolding relay_typing load_attached
relayed user on true s cache = refl
relayed user on false s cache = refl

-- A typing signal, with a database that answers: it goes to every other attached user if the object
-- takes the sender for a member, and to nobody otherwise. That is who is a member of the chat in the
-- database, where the copy of the members is missing or out of date, and else who is in the copy.
pub accept_typing_gate :
    (user : String) (on : Bool) (s : Chat)
    → s.net ≡ []
    → (accept_typing user on s).1.sent
      ≡ (if is_allowed user s then s.sent ++ typing_frames user on s else s.sent)
unfolding accept_typing
accept_typing_gate user on s quiet =
    let (cache, e) = decided user s quiet in
    ap (λ r. (carry_on r (λ allowed. if allowed then relay_typing user on else pure tt)).1.sent) e
    ∙ relayed user on (is_allowed user s) s cache
