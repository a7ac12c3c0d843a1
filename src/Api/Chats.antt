-- ===== src/Api/Chats.antt =====
-- services/api/src/routers/chat.ts: chats. What `z` checks of an input has been checked.
use mortstack.Prelude.{
  ℕ, String, Bool, true, false, not, ◌&&◌, ◌||◌, ◌==◌, Option, none, some, List, [], ◌∷◌, ◌++◌, map,
  length, nat_eq, any, if◌then◌else◌,
}
use mortstack.Js.Unique.{member, of_array, delete}
use mortstack.Api.{
  Account, Kind, direct, group, ChatRow, ChatMember, Block, Tables, bad_request, not_found,
  forbidden, conflict, internal, Result, ok, error, ids, users, resolve_accounts, is_member,
}

pub record CreateInput : Type 0 where
  pub kind : Kind
  pub name : Option String
  pub member_account_ids : List String

pub record Created : Type 0 where
  pub chat_id : String
  pub created_at : ℕ
  pub existing : Bool

unfoldable pub is_direct : Kind → Bool
is_direct direct = true
is_direct group = false

-- `input.name`, which is not empty
unfoldable pub has_name : Option String → Bool
has_name none = false
has_name (some name) = true

unfoldable pub is_between : String → List String → Block → Bool
unfolding member
is_between me others b =
    ((b.blocker == me) && member others b.blocked) || (member others b.blocker && (b.blocked == me))

-- The first direct chat that both are members of.
unfoldable pub find_direct : List ChatMember → String → String → List ChatRow → Option ChatRow
unfolding is_direct is_member
find_direct members a b [] = none
find_direct members a b (c ∷ cs) =
    if is_direct c.kind && (is_member members c.id a && is_member members c.id b)
    then some c
    else find_direct members a b cs

unfoldable pub insert_chat : String → ℕ → CreateInput → List String → Tables → Tables
insert_chat id now input members t = record t {
  chats =
      t.chats
      ++ record {
        id = id;
        kind = input.kind;
        name = input.name;
        created_at = now;
        mls_group_id = none;
      }
        ∷ [];
  members = t.members ++ map (λ u. record { chat_id = id; user_id = u }) members;
}

unfoldable pub create_new :
    Account → String → ℕ → CreateInput → List Account → Tables → Result Created × Tables
unfolding insert_chat
create_new me id now input resolved t = (
  ok (record { chat_id = id; created_at = now; existing = false }),
  insert_chat id now input (me.auth_user_id ∷ users resolved) t,
)

unfoldable pub reuse : Option ChatRow → Result Created × Tables → Tables → Result Created × Tables
reuse none fresh t = fresh
reuse (some c) fresh t =
    (ok (record { chat_id = c.id; created_at = c.created_at; existing = true }), t)

unfoldable pub first_user : List Account → String
first_user [] = ""
first_user (a ∷ rest) = a.auth_user_id

unfoldable pub create_or_find :
    Account → String → ℕ → CreateInput → List Account → Tables → Result Created × Tables
unfolding create_new reuse first_user find_direct is_direct
create_or_find me id now input resolved t =
    let fresh = create_new me id now input resolved t in
    if is_direct input.kind
    then reuse (find_direct t.members me.auth_user_id (first_user resolved) t.chats) fresh t
    else fresh

unfoldable pub create_unless_blocked :
    Account → String → ℕ → CreateInput → Tables → Result (List Account) → Result Created × Tables
unfolding create_or_find is_between
create_unless_blocked me id now input t (error code message) = (error code message, t)
create_unless_blocked me id now input t (ok resolved) =
    if any (is_between me.id (ids resolved)) t.blocklist
    then (error forbidden "Cannot start chat — one of the parties has blocked the other", t)
    else create_or_find me id now input resolved t

-- The account `me` calls; `id` and `now` are what the database gives a new row.
unfoldable pub create : Account → String → ℕ → CreateInput → Tables → Result Created × Tables
unfolding create_unless_blocked resolve_accounts is_direct has_name of_array delete
create me id now input t =
    let others = delete me.id (of_array input.member_account_ids) in
    if nat_eq (length others) 0
    then (error bad_request "memberAccountIds cannot be only the caller", t)
    else if is_direct input.kind && not (nat_eq (length others) 1)
    then (error bad_request "direct chat requires exactly 1 other member", t)
    else if is_direct input.kind && has_name input.name
    then (error bad_request "direct chat cannot have a name", t)
    else create_unless_blocked me id now input t (resolve_accounts t.accounts others)

unfoldable pub find_chat : String → List ChatRow → Option ChatRow
find_chat id [] = none
find_chat id (c ∷ cs) = if c.id == id then some c else find_chat id cs

same_bytes : List ℕ → List ℕ → Bool
same_bytes [] [] = true
same_bytes (x ∷ xs) (y ∷ ys) = nat_eq x y && same_bytes xs ys
same_bytes _ _ = false

unfoldable pub set_group : String → List ℕ → List ChatRow → List ChatRow
set_group id bytes = map (λ c. if c.id == id then record c { mls_group_id = some bytes } else c)

is_linked_to : List ℕ → ChatRow → Bool
unfolding same_bytes
is_linked_to bytes c = elim c.mls_group_id [ none ↦ false | some linked ↦ same_bytes linked bytes ]

-- A group id is unique among the chats: the update of one that another chat has throws, which tRPC
-- answers with an internal error, whose text is the database's.
link_row : String → List ℕ → Option (List ℕ) → Tables → Result Bool × Tables
unfolding set_group same_bytes is_linked_to
link_row id incoming none t =
    if any (is_linked_to incoming) t.chats
    then (error internal "", t)
    else (ok true, record t { chats = set_group id incoming t.chats })
link_row id incoming (some linked) t =
    if same_bytes linked incoming
    then (ok true, t)
    else (error conflict "chat already linked to a different MLS group", t)

visible : Account → String → Tables → Option ChatRow
unfolding find_chat is_member
visible me id t = elim (find_chat id t.chats) [
  | none ↦ none
  | some c ↦ if is_member t.members c.id me.auth_user_id then some c else none
]

-- `incoming` are the bytes that `mlsGroupIdB64` stands for.
unfoldable pub link_mls_group : Account → String → List ℕ → Tables → Result Bool × Tables
unfolding visible link_row
link_mls_group me chat_id incoming t = elim (visible me chat_id t) [
  | none ↦ (error not_found "chat not found or caller is not a member", t)
  | some c ↦ link_row c.id incoming c.mls_group_id t
]
