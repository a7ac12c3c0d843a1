-- ===== src/Chat/Signals.antt =====
-- Members' inboxes, typing signals and read receipts (chat.ts: attachInbox, detachInbox,
-- acceptTyping, acceptRead, isMember, loadAttached).
use mortstack.Prelude.{
  ℕ, ◌-◌, String, Bool, true, not, ◌==◌, Option, none, some, List, [], ◌++◌, map, ltb, keep_if,
  if◌then◌else◌,
}
use mortstack.Js.Unique.{member, add, delete, of_array}
use mortstack.Js.BigInt.{big_int}
use mortstack.Persist.{member_ids, update_last_read_serial}
use mortstack.Chat.{
  Chat, Act, Effect, MemberCache, deliver_typing, deliver_read, ◌>>=◌, carry_on, pure, modify,
  query, settle_calls,
}

abbrev pub member_cache_ttl_ms : ℕ
member_cache_ttl_ms = 30000

unfoldable pub load_attached : Chat → List String
load_attached s = elim s.stored_attached [ none ↦ [] | some ids ↦ of_array ids ]

unfoldable pub attach_inbox : String → Act (Unit {0})
attach_inbox user s =
    let set = load_attached s in
    if member set user
    then (some tt, s)
    else (some tt, record s { stored_attached = some (add user set) })

unfoldable pub detach_inbox : String → Act (Unit {0})
detach_inbox user s =
    let set = load_attached s in
    if member set user
    then (some tt, record s { stored_attached = some (delete user set) })
    else (some tt, s)

-- `!memberCache || now - memberCache.at > MEMBER_CACHE_TTL_MS`; the clock never runs back.
unfoldable pub is_stale : Option MemberCache → ℕ → Bool
is_stale none now = true
is_stale (some cache) now = ltb member_cache_ttl_ms (now - cache.at)

unfoldable pub cached_ids : Option MemberCache → List String
cached_ids none = []
cached_ids (some cache) = cache.ids

unfoldable pub refresh_members : ℕ → Act (Unit {0})
refresh_members now s =
    (query (λ at db. (member_ids s.chat_id db, db)) >>= λ ids.
    modify (λ t. record t { member_cache = some (record { ids = of_array ids; at = now }) }))
      s

unfoldable pub is_member : String → Act Bool
unfolding is_stale cached_ids refresh_members
is_member user s =
    let fresh = refresh_members s.clock s in
    carry_on (if is_stale s.member_cache s.clock then fresh else (some tt, s))
      (λ _ t. (some (member (cached_ids t.member_cache) user), t))

-- One call for every other attached member, in the order of the set.
abbrev pub to_others : String → (String → Effect) → Act (Unit {0})
to_others user frame s =
    let others = keep_if (λ other. not (other == user)) (load_attached s) in
    (settle_calls others s, record s { sent = s.sent ++ map frame others })

unfoldable pub relay_typing : String → Bool → Act (Unit {0})
relay_typing user on s =
    to_others user
      (λ other. deliver_typing other (record { chat_id = s.chat_id; user_id = user; is_on = on })) s

unfoldable pub accept_typing : String → Bool → Act (Unit {0})
unfolding is_member relay_typing
accept_typing user on =
    is_member user >>= λ allowed. if allowed then relay_typing user on else pure tt

relay_read : String → String → Act (Unit {0})
relay_read user upto s =
    to_others user
      (λ other. deliver_read other (record { chat_id = s.chat_id; user_id = user; upto = upto })) s

-- A watermark that `BigInt` does not read is dropped; the update of one beyond 64 bits throws.
store_read : String → String → Act (Unit {0})
unfolding relay_read
store_read user upto s = elim (big_int upto) [
  | none ↦ (some tt, s)
  | some serial ↦
      (query (λ at db. update_last_read_serial s.chat_id user serial db) >>= λ done.
      if done then relay_read user upto else λ t. (none, t))
        s
]

unfoldable pub accept_read : String → String → Act (Unit {0})
unfolding is_member store_read
accept_read user upto =
    is_member user >>= λ allowed. if allowed then store_read user upto else pure tt
