-- ===== src/Examples/Accounts.antt =====
-- Two accounts that start a chat, add and remove members, and block one another.
use mortstack.Prelude.{String, ◌≡◌, ◌≢◌, refl, true, false, eq_iff, none, List, [], ◌∷◌}
use mortstack.Js.Unique.{member}
use mortstack.Api.{
  Account, direct, group, ChatMember, ChatRow, Tables, forbidden, Result, ok, error,
  resolve_accounts, is_member,
}
use mortstack.Api.Members.{add_members, remove_members}
use mortstack.Api.Membership.{AreAdded, AreRemoved, membership_follows}
use mortstack.Api.Chats.{Created, CreateInput, create, is_between}
use mortstack.Api.Direct.{direct_input, create_direct_once}
use mortstack.Api.Blocks.{add, is_blocked}
use mortstack.Api.Blocking.{IsRefused, add_refuses}

abbrev account : String → String → Account
account id user = record { id = id; auth_user_id = user; is_banned = false; profiles = [] }

abbrev ann : Account
ann = account "a" "u1"

abbrev bob : Account
bob = account "b" "u2"

abbrev tables : Tables
tables = record {
  accounts = ann ∷ bob ∷ [];
  chats = record { id = "c"; kind = group; name = none; created_at = 1; mls_group_id = none } ∷ [];
  members = record { chat_id = "c"; user_id = "u1" } ∷ [];
  blocklist = [];
}

ann_is_not_bob : ann.id ≢ bob.id
ann_is_not_bob e = cc ((eq_iff "a" "b").1 e)

create_direct_once_example :
    (first : Created) × (((create ann "d" 5 (direct_input bob.id) tables).0 ≡ ok first)
      × (create bob "e" 6 (direct_input ann.id) (create ann "d" 5 (direct_input bob.id) tables).1
          ≡ (
            ok (record first { existing = true }),
            (create ann "d" 5 (direct_input bob.id) tables).1,
          )))
unfolding resolve_accounts member is_between
create_direct_once_example =
    create_direct_once ann bob "d" "e" 5 6 tables ann_is_not_bob refl refl refl (refl, tt)

membership_follows_example :
    (is_member tables.members "c" ann.auth_user_id ≡ false
      → (add_members ann "c" (bob.id ∷ []) tables
          ≡ (error forbidden "caller is not a member of this chat", tables))
        × (remove_members ann "c" (bob.id ∷ []) tables
            ≡ (error forbidden "caller is not a member of this chat", tables)))
    × ((resolved : List Account)
        → is_member tables.members "c" ann.auth_user_id ≡ true
        → resolve_accounts tables.accounts (bob.id ∷ []) ≡ ok resolved
        → AreAdded "c" resolved tables (add_members ann "c" (bob.id ∷ []) tables).1
          × AreRemoved ann "c" resolved tables (remove_members ann "c" (bob.id ∷ []) tables).1)
membership_follows_example = membership_follows ann "c" (bob.id ∷ []) tables

abbrev input : CreateInput
input = record { kind = group; name = none; member_account_ids = "b" ∷ "a" ∷ [] }

add_refuses_example :
    ((add ann bob.id 3 tables).0 ≡ ok true)
    × (((is_blocked ann bob.id (add ann bob.id 3 tables).1.blocklist ≢ none)
          × (is_blocked bob ann.id (add ann bob.id 3 tables).1.blocklist ≢ none))
        × ((member input.member_account_ids bob.id ≡ true
              → IsRefused
                  (create ann "d" 4 input (add ann bob.id 3 tables).1)
                  (add ann bob.id 3 tables).1)
            × (member input.member_account_ids ann.id ≡ true
                → IsRefused
                    (create bob "d" 4 input (add ann bob.id 3 tables).1)
                    (add ann bob.id 3 tables).1)))
add_refuses_example = add_refuses ann bob 3 4 "d" input tables ann_is_not_bob refl refl

-- an account named twice is not found, though it is there
named_twice :
    resolve_accounts tables.accounts ("b" ∷ "b" ∷ [])
    ≡ error mortstack.Api.not_found "account(s) not found: "
unfolding resolve_accounts member
named_twice = refl

abbrev three : Tables
three = record tables {
  accounts = ann ∷ bob ∷ account "z" "u3" ∷ [];
  members =
      record { chat_id = "c"; user_id = "u1" } ∷ record { chat_id = "c"; user_id = "u3" } ∷ [];
}

-- Of two accounts of which the second is a member and is removed, the first is reported.
wrong_account : (remove_members ann "c" ("b" ∷ "z" ∷ []) three).0 ≡ ok ("b" ∷ [])
unfolding remove_members resolve_accounts is_member member
wrong_account = refl
