-- ===== src/Api.antt =====
-- services/api/src/routers/chat.ts and blocks.ts: the tables that the routers share, and the reading of
-- accounts. A procedure is a function of the tables; rows stand in the order of their insertion, in
-- which a query without an order finds them.
pub mod Chats
pub mod Members
pub mod Blocks
pub mod Membership
pub mod Direct
pub mod Blocking
use Prim.Native.String.{◌++◌ as concat}
use mortstack.Prelude.{
  ℕ, String, Bool, true, false, not, ◌&&◌, ◌||◌, ◌==◌, Option, none, some, List, [], ◌∷◌, ◌++◌, map,
  length, nat_eq, any, keep_if, if◌then◌else◌,
}
use mortstack.Js.Unique.{member}

pub record Account : Type 0 where
  pub id : String
  pub auth_user_id : String
  pub is_banned : Bool
  pub profiles : List (String × String)

pub data Kind : Type 0 where
  direct group : Kind

pub record ChatRow : Type 0 where
  pub id : String
  pub kind : Kind
  pub name : Option String
  pub created_at : ℕ
  pub mls_group_id : Option (List ℕ)

pub record ChatMember : Type 0 where
  pub chat_id : String
  pub user_id : String

pub record Block : Type 0 where
  pub blocker : String
  pub blocked : String
  pub created_at : ℕ

pub record Tables : Type 0 where
  pub accounts : List Account
  pub chats : List ChatRow
  pub members : List ChatMember
  pub blocklist : List Block

pub data Code : Type 0 where
  bad_request not_found forbidden conflict internal : Code

pub data Result {ℓ} (A : Type ℓ) : Type ℓ where
  ok : A → Result A
  error : Code → String → Result A

abbrev pub ids : List Account → List String
ids = map λ a. a.id

abbrev pub users : List Account → List String
users = map λ a. a.auth_user_id

-- `xs.join(",")`
join : List String → String
join [] = ""
join (x ∷ []) = x
join (x ∷ y ∷ xs) = concat x (concat "," (join (y ∷ xs)))

unfoldable pub first_error : List Account → List Account → Result (List Account)
unfolding join
first_error [] rows = ok rows
first_error (b ∷ bs) rows = error forbidden (concat "account(s) banned: " (join (ids (b ∷ bs))))

unfoldable pub resolve_accounts : List Account → List String → Result (List Account)
unfolding join first_error member
resolve_accounts accounts [] = ok []
resolve_accounts accounts (id ∷ more) =
    let wanted = id ∷ more in
    let rows = keep_if (λ a. member wanted a.id) accounts in
    if not (nat_eq (length rows) (length wanted))
    then error not_found
        (concat "account(s) not found: " (join (keep_if (λ i. not (member (ids rows) i)) wanted)))
    else first_error (keep_if (λ a. a.is_banned) rows) rows

unfoldable pub is_member : List ChatMember → String → String → Bool
is_member rows chat_id user = any (λ m. (m.chat_id == chat_id) && (m.user_id == user)) rows
