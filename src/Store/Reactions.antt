-- ===== src/Store/Reactions.antt =====
-- Reactions by chat and target message (store.ts: addOptimisticReaction to applyIncomingReaction).
use Prim.Native.String.{◌++◌ as concat}
use mortstack.Prelude.{
  String, Bool, not, ◌==◌, ◌&&◌, Option, none, some, List, [], ◌∷◌, ◌++◌, nat_eq, length, any,
  keep_if, if◌then◌else◌,
}
use mortstack.Js.Dict.{Dict, get, get_or, put, remove}
use mortstack.Store.{Store, Reaction, sending, sent}

abbrev pub is_of : String → String → Reaction → Bool
is_of sender emoji r = (r.sender_auth_user_id == sender) && (r.emoji == emoji)

abbrev pub has_client : String → Reaction → Bool
has_client client r = r.client_msg_id == client

-- The list of a target, and the map of a chat, go when they are empty.
abbrev pub put_list : String → List Reaction → Dict (List Reaction) → Dict (List Reaction)
put_list target [] per_chat = remove target per_chat
put_list target (r ∷ list) per_chat = put target (r ∷ list) per_chat

abbrev pub put_chat : String → Dict (List Reaction) → Store → Store
put_chat chat [] s = record s { reactions = remove chat s.reactions }
put_chat chat (p ∷ per_chat) s = record s { reactions = put chat (p ∷ per_chat) s.reactions }

append_reaction : String → Reaction → Store → Store
append_reaction chat r s =
    let per_chat = get_or s.reactions chat [] in
    record s {
      reactions =
          put chat (put r.target (get_or per_chat r.target [] ++ r ∷ []) per_chat) s.reactions;
    }

unfoldable pub add_optimistic_reaction : String → String → String → String → String → Store → Store
unfolding append_reaction
add_optimistic_reaction chat client target emoji sender s =
    let list = get_or (get_or s.reactions chat []) target [] in
    if any (has_client client) list
    then s
    else if any (is_of sender emoji) list
    then s
    else append_reaction chat
        (record {
          client_msg_id = client;
          target = target;
          emoji = emoji;
          sender_auth_user_id = sender;
          status = sending;
        })
        s

confirm_first : String → List Reaction → List Reaction
confirm_first client [] = []
confirm_first client (r ∷ list) =
    let rest = confirm_first client list in
    if has_client client r then record r { status = sent } ∷ list else r ∷ rest

-- The loop over the targets, up to the first that has the reaction.
confirm_target : String → Dict (List Reaction) → Option (String × List Reaction)
unfolding confirm_first
confirm_target client [] = none
confirm_target client ((target, list) ∷ per_chat) =
    let rest = confirm_target client per_chat in
    if any (has_client client) list then some (target, confirm_first client list) else rest

unfoldable pub confirm_reaction : String → String → Store → Store
unfolding confirm_target
confirm_reaction chat client s = elim (get s.reactions chat) [
  | none ↦ s
  | some per_chat ↦ elim (confirm_target client per_chat) [
    | none ↦ s
    | some (target, list) ↦ record s { reactions = put chat (put target list per_chat) s.reactions }
  ]
]

drop_target : String → Dict (List Reaction) → Option (String × List Reaction)
drop_target client [] = none
drop_target client ((target, list) ∷ per_chat) =
    let rest = drop_target client per_chat in
    let filtered = keep_if (λ r. not (has_client client r)) list in
    if nat_eq (length filtered) (length list) then rest else some (target, filtered)

unfoldable pub fail_reaction : String → String → Store → Store
unfolding drop_target
fail_reaction chat client s = elim (get s.reactions chat) [
  | none ↦ s
  | some per_chat ↦ elim (drop_target client per_chat) [
    | none ↦ s
    | some (target, list) ↦ put_chat chat (put_list target list per_chat) s
  ]
]

unfoldable pub remove_own_reaction : String → String → String → String → Store → Store
remove_own_reaction chat target emoji sender s = elim (get s.reactions chat) [
  | none ↦ s
  | some per_chat ↦ elim (get per_chat target) [
    | none ↦ s
    | some list ↦
        let filtered = keep_if (λ r. not (is_of sender emoji r)) list in
        if nat_eq (length filtered) (length list)
        then s
        else put_chat chat (put_list target filtered per_chat) s
  ]
]

unfoldable pub apply_incoming_add : String → String → String → String → Store → Store
unfolding append_reaction
apply_incoming_add chat target emoji sender s =
    let list = get_or (get_or s.reactions chat []) target [] in
    if any (is_of sender emoji) list
    then s
    else append_reaction chat
        (record {
          client_msg_id =
              concat "in-" (concat sender (concat "-" (concat emoji (concat "-" target))));
          target = target;
          emoji = emoji;
          sender_auth_user_id = sender;
          status = sent;
        })
        s

unfoldable pub apply_incoming_del : String → String → String → String → Store → Store
apply_incoming_del chat target emoji sender s =
    let per_chat = get_or s.reactions chat [] in
    let list = get_or per_chat target [] in
    let filtered = keep_if (λ r. not (is_of sender emoji r)) list in
    if nat_eq (length filtered) (length list)
    then s
    else put_chat chat (put_list target filtered per_chat) s
