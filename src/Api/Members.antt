-- ===== src/Api/Members.antt =====
-- services/api/src/routers/chat.ts: the members of a chat, and what its members are shown.
use mortstack.Prelude.{
  ◌-◌, String, Bool, not, ◌&&◌, ◌==◌, List, ◌++◌, map, length, keep_if, take, if◌then◌else◌,
}
use mortstack.Js.Unique.{member}
use mortstack.Api.{
  Account, ChatMember, Tables, forbidden, Result, ok, error, ids, users, resolve_accounts,
  is_member,
}

unfoldable pub leave : Account → String → Tables → Tables
leave me chat_id t = record t {
  members = keep_if (λ m. not ((m.chat_id == chat_id) && (m.user_id == me.auth_user_id))) t.members;
}

-- The accounts that are not members yet.
unfoldable pub newcomers : String → List Account → Tables → List Account
unfolding is_member
newcomers chat_id resolved t =
    keep_if (λ a. not (is_member t.members chat_id a.auth_user_id)) resolved

unfoldable pub add_resolved :
    String → Tables → Result (List Account) → Result (List String) × Tables
unfolding newcomers
add_resolved chat_id t (error code message) = (error code message, t)
add_resolved chat_id t (ok resolved) =
    let to_add = newcomers chat_id resolved t in
    (
      ok (ids to_add),
      record t {
        members =
            t.members ++ map (λ a. record { chat_id = chat_id; user_id = a.auth_user_id }) to_add;
      },
    )

unfoldable pub add_members : Account → String → List String → Tables → Result (List String) × Tables
unfolding add_resolved is_member resolve_accounts
add_members me chat_id account_ids t =
    if not (is_member t.members chat_id me.auth_user_id)
    then (error forbidden "caller is not a member of this chat", t)
    else add_resolved chat_id t (resolve_accounts t.accounts account_ids)

-- The accounts to remove, the caller not among them.
unfoldable pub targets : Account → List Account → List Account
targets me resolved = keep_if (λ a. not (a.auth_user_id == me.auth_user_id)) resolved

unfoldable pub is_target : String → List String → ChatMember → Bool
unfolding member
is_target chat_id gone m = (m.chat_id == chat_id) && member gone m.user_id

unfoldable pub remove_resolved :
    Account → String → Tables → Result (List Account) → Result (List String) × Tables
unfolding targets is_target member
remove_resolved me chat_id t (error code message) = (error code message, t)
remove_resolved me chat_id t (ok resolved) =
    let gone = users (targets me resolved) in
    let rest = keep_if (λ m. not (is_target chat_id gone m)) t.members in
    (
      ok (
          ids (
            take (length t.members - length rest)
              (keep_if (λ a. member gone a.auth_user_id) resolved))),
      record t { members = rest },
    )

unfoldable pub remove_members :
    Account → String → List String → Tables → Result (List String) × Tables
unfolding remove_resolved is_member resolve_accounts
remove_members me chat_id account_ids t =
    if not (is_member t.members chat_id me.auth_user_id)
    then (error forbidden "caller is not a member of this chat", t)
    else remove_resolved me chat_id t (resolve_accounts t.accounts account_ids)
