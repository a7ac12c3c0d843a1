-- ===== src/Api/Membership.antt =====
-- Who is a member after members are added and removed.
use mortstack.Prelude.{
  String, ◌≡◌, refl, ap, ◌∙◌, true, false, not, ◌&&◌, ◌||◌, ◌==◌, eq_iff, List, [], ◌∷◌, ◌++◌, map,
  keep_if, arith,
}
use mortstack.Js.Unique.{member}
use mortstack.Api.{
  Account, ChatMember, Tables, forbidden, ok, error, users, resolve_accounts, is_member,
}
use mortstack.Api.Members.{
  newcomers, add_resolved, add_members, targets, is_target, remove_resolved, remove_members,
}

abbrev pub row : String → String → ChatMember
row chat_id user = record { chat_id = chat_id; user_id = user }

pub is_member-append :
    (xs ys : List ChatMember) (c u : String)
    → is_member (xs ++ ys) c u ≡ (is_member xs c u || is_member ys c u)
unfolding is_member
is_member-append [] ys c u = refl
is_member-append (x ∷ xs) ys c u = ground (arith, is_member-append xs ys c u)

pub is_member-rows :
    (xs : List String) (chat_id c u : String)
    → is_member (map (row chat_id) xs) c u ≡ ((chat_id == c) && member xs u)
unfolding is_member member
is_member-rows [] chat_id c u = ground arith
is_member-rows (x ∷ xs) chat_id c u = ground (arith, is_member-rows xs chat_id c u)

rows_of_users :
    (chat_id : String) (xs : List Account)
    → map (λ a. row chat_id a.auth_user_id) xs ≡ map (row chat_id) (users xs)
rows_of_users chat_id [] = refl
rows_of_users chat_id (a ∷ xs) = ap (◌∷◌ (row chat_id a.auth_user_id)) (rows_of_users chat_id xs)

member-newcomers :
    (chat_id : String) (xs : List Account) (t : Tables) (u : String)
    → (is_member t.members chat_id u || member (users (newcomers chat_id xs t)) u)
      ≡ (is_member t.members chat_id u || member (users xs) u)
unfolding newcomers member
member-newcomers chat_id [] t u = refl
member-newcomers chat_id (a ∷ xs) t u =
    ground (arith, eq_iff a.auth_user_id u, member-newcomers chat_id xs t u)

member-targets :
    (me : Account) (xs : List Account) (u : String)
    → member (users (targets me xs)) u ≡ (member (users xs) u && not (u == me.auth_user_id))
unfolding targets member
member-targets me [] u = refl
member-targets me (a ∷ xs) u = ground (arith, eq_iff a.auth_user_id u, member-targets me xs u)

is_member-removed :
    (rows : List ChatMember) (chat_id : String) (gone : List String) (c u : String)
    → is_member (keep_if (λ m. not (is_target chat_id gone m)) rows) c u
      ≡ (is_member rows c u && not ((chat_id == c) && member gone u))
unfolding is_member is_target
is_member-removed [] chat_id gone c u = ground arith
is_member-removed (m ∷ rows) chat_id gone c u = ground (
  arith,
  eq_iff m.chat_id c,
  eq_iff m.chat_id chat_id,
  eq_iff chat_id c,
  eq_iff m.user_id u,
  is_member-removed rows chat_id gone c u,
)

-- Added and removed are told by what the members are afterwards.
abbrev pub AreAdded : String → List Account → Tables → Tables → Type 0
AreAdded chat_id resolved t t' =
    (c u : String)
    → is_member t'.members c u
      ≡ (is_member t.members c u || ((chat_id == c) && member (users resolved) u))

abbrev pub AreRemoved : Account → String → List Account → Tables → Tables → Type 0
AreRemoved me chat_id resolved t t' =
    (c u : String)
    → is_member t'.members c u ≡ (
        is_member t.members c u
        && not ((chat_id == c) && (member (users resolved) u && not (u == me.auth_user_id))))

add_resolved-AreAdded :
    (chat_id : String) (resolved : List Account) (t : Tables)
    → AreAdded chat_id resolved t (add_resolved chat_id t (ok resolved)).1
unfolding add_resolved
add_resolved-AreAdded chat_id resolved t c u =
    let new = newcomers chat_id resolved t in
    is_member-append t.members (map (λ a. row chat_id a.auth_user_id) new) c u
    ∙ (ap (λ rows. is_member t.members c u || is_member rows c u) (rows_of_users chat_id new)
        ∙ (ap (λ b. is_member t.members c u || b) (is_member-rows (users new) chat_id c u)
            ∙ ground (arith, eq_iff chat_id c, member-newcomers chat_id resolved t u)))

remove_resolved-AreRemoved :
    (me : Account) (chat_id : String) (resolved : List Account) (t : Tables)
    → AreRemoved me chat_id resolved t (remove_resolved me chat_id t (ok resolved)).1
unfolding remove_resolved
remove_resolved-AreRemoved me chat_id resolved t c u =
    is_member-removed t.members chat_id (users (targets me resolved)) c u
    ∙ ap (λ b. is_member t.members c u && not ((chat_id == c) && b)) (member-targets me resolved u)

-- A caller who is no member of the chat changes nothing with addMembers and removeMembers, and both fail
-- as forbidden. A member adds exactly the users of the accounts, where these are found and not banned,
-- and removes exactly them but itself; every other membership stays.
pub membership_follows :
    (me : Account) (chat_id : String) (account_ids : List String) (t : Tables)
    → (is_member t.members chat_id me.auth_user_id ≡ false
        → (add_members me chat_id account_ids t
            ≡ (error forbidden "caller is not a member of this chat", t))
          × (remove_members me chat_id account_ids t
              ≡ (error forbidden "caller is not a member of this chat", t)))
      × ((resolved : List Account)
          → is_member t.members chat_id me.auth_user_id ≡ true
          → resolve_accounts t.accounts account_ids ≡ ok resolved
          → AreAdded chat_id resolved t (add_members me chat_id account_ids t).1
            × AreRemoved me chat_id resolved t (remove_members me chat_id account_ids t).1)
unfolding add_members remove_members
membership_follows me chat_id account_ids t = (
  λ n. (rw (add_members, n) refl, rw (remove_members, n) refl),
  λ resolved m r. (
    rw (add_members, m, r) (add_resolved-AreAdded chat_id resolved t),
    rw (remove_members, m, r) (remove_resolved-AreRemoved me chat_id resolved t),
  ),
)
