-- ===== src/Api/Direct.antt =====
-- There is one direct chat of two accounts.
use mortstack.Prelude.{
  ℕ, String, ◌≡◌, ◌≢◌, refl, sym, ap, ◌∙◌, true, false, ◌==◌, eq_iff, Option, none, some, List, [],
  ◌∷◌, ◌++◌, map, any, All, arith,
}
use mortstack.Js.Unique.{member, of_array, delete}
use mortstack.Api.{
  Block, Account, direct, ChatRow, ChatMember, Tables, Result, ok, resolve_accounts,
}
use mortstack.Api.Membership.{row, is_member-append, is_member-rows}
use mortstack.Api.Chats.{
  CreateInput, Created, is_direct, is_between, find_direct, insert_chat, create_new, reuse,
  first_user, create_or_find, create_unless_blocked, create,
}

find_direct_comm :
    (members : List ChatMember) (a b : String) (cs : List ChatRow)
    → find_direct members a b cs ≡ find_direct members b a cs
unfolding find_direct
find_direct_comm members a b [] = refl
find_direct_comm members a b (c ∷ cs) = ground (arith, find_direct_comm members a b cs)

-- A new chat is found if no chat was, and none has its id.
find_direct-new :
    (members : List ChatMember) (new : List String) (a b id : String) (cs : List ChatRow)
    (c : ChatRow)
    → find_direct members a b cs ≡ none
    → All (λ x. (x.id == id) ≡ false) cs
    → c.id ≡ id
    → c.kind ≡ direct
    → member new a ≡ true
    → member new b ≡ true
    → find_direct (members ++ map (row id) new) a b (cs ++ c ∷ []) ≡ some c
unfolding find_direct is_direct
find_direct-new members new a b id [] c n f e k ma mb = ground (
  arith,
  e,
  k,
  ma,
  mb,
  eq_iff id c.id,
  is_member-append members (map (row id) new) c.id a,
  is_member-append members (map (row id) new) c.id b,
  is_member-rows new id c.id a,
  is_member-rows new id c.id b,
)
find_direct-new members new a b id (x ∷ cs) c n f e k ma mb = ground (
  arith,
  f.0,
  eq_iff id x.id,
  eq_iff x.id id,
  is_member-append members (map (row id) new) x.id a,
  is_member-append members (map (row id) new) x.id b,
  is_member-rows new id x.id a,
  is_member-rows new id x.id b,
  find_direct-new members new a b id cs c,
)

abbrev pub direct_input : String → CreateInput
direct_input id = record { kind = direct; name = none; member_account_ids = id ∷ [] }

is_between_comm :
    (a b : String) (bs : List Block)
    → any (is_between a (b ∷ [])) bs ≡ any (is_between b (a ∷ [])) bs
unfolding is_between member
is_between_comm a b [] = refl
is_between_comm a b (x ∷ bs) = ground (
  arith,
  eq_iff x.blocker a,
  eq_iff x.blocker b,
  eq_iff x.blocked a,
  eq_iff x.blocked b,
  eq_iff a x.blocker,
  eq_iff b x.blocker,
  eq_iff a x.blocked,
  eq_iff b x.blocked,
  is_between_comm a b bs,
)

create-direct :
    (a b : Account) (id : String) (now : ℕ) (t : Tables)
    → (b.id == a.id) ≡ false
    → resolve_accounts t.accounts (b.id ∷ []) ≡ ok (b ∷ [])
    → any (is_between a.id (b.id ∷ [])) t.blocklist ≡ false
    → create a id now (direct_input b.id) t
      ≡ reuse
          (find_direct t.members a.auth_user_id b.auth_user_id t.chats)
          (create_new a id now (direct_input b.id) (b ∷ []) t)
          t
unfolding create of_array delete member is_direct create_or_find first_user create_unless_blocked
create-direct a b id now t d r n = rw (d, r, n) refl

made_of :
    (first : Created) (c : ChatRow)
    → first.chat_id ≡ c.id
    → first.created_at ≡ c.created_at
    → record first { existing = true }
      ≡ record { chat_id = c.id; created_at = c.created_at; existing = true }
made_of first c i at = rw (i, at) refl

reuse-found :
    (o : Option ChatRow) (c : ChatRow) (fresh : Result Created × Tables) (t : Tables)
    → o ≡ some c
    → reuse o fresh t
      ≡ (ok (record { chat_id = c.id; created_at = c.created_at; existing = true }), t)
unfolding reuse
reuse-found o c fresh t e = rw e refl

abbrev new_chat : String → ℕ → ChatRow
new_chat id now = record {
  id = id;
  kind = direct;
  name = none;
  created_at = now;
  mls_group_id = none;
}

-- What the first call gives, and that the chat is found afterwards.
is_first : (x : String) (xs : List String) → member (x ∷ xs) x ≡ true
unfolding member
is_first x xs = ground (arith, eq_iff x x)

is_second : (x y : String) → member (x ∷ y ∷ []) y ≡ true
unfolding member
is_second x y = ground (arith, eq_iff y y)

once :
    (a b : Account) (id : String) (now : ℕ) (t : Tables)
    → All (λ c. (c.id == id) ≡ false) t.chats
    → (o : Option ChatRow) → find_direct t.members a.auth_user_id b.auth_user_id t.chats ≡ o
    → (first : Created) × (((reuse o (create_new a id now (direct_input b.id) (b ∷ []) t) t).0
          ≡ ok first)
        × ((c : ChatRow) × ((find_direct
                  (reuse o (create_new a id now (direct_input b.id) (b ∷ []) t) t).1.members
                  a.auth_user_id
                  b.auth_user_id
                  (reuse o (create_new a id now (direct_input b.id) (b ∷ []) t) t).1.chats
                ≡ some c)
              × ((first.chat_id ≡ c.id) × (first.created_at ≡ c.created_at)))))
unfolding reuse create_new insert_chat
once a b id now t f (some c) e = (
  record { chat_id = c.id; created_at = c.created_at; existing = true },
  (refl, (c, (e, (refl, refl)))),
)
once a b id now t f none e = (
  record { chat_id = id; created_at = now; existing = false },
  (
    refl,
    (
      new_chat id now,
      (
        find_direct-new t.members (a.auth_user_id ∷ b.auth_user_id ∷ []) a.auth_user_id
            b.auth_user_id id t.chats (new_chat id now) e f refl refl
            (is_first a.auth_user_id (b.auth_user_id ∷ []))
            (is_second a.auth_user_id b.auth_user_id),
        (refl, refl),
      ),
    ),
  ),
)

differs : (x y : String) → x ≢ y → (x == y) ≡ false
differs x y n = ground (arith, n, eq_iff x y)

reuse-same :
    (a b : Account) (id : String) (now : ℕ) (t : Tables) (o : Option ChatRow)
    → ((reuse o (create_new a id now (direct_input b.id) (b ∷ []) t) t).1.accounts ≡ t.accounts)
      × ((reuse o (create_new a id now (direct_input b.id) (b ∷ []) t) t).1.blocklist ≡ t.blocklist)
unfolding reuse create_new insert_chat
reuse-same a b id now t none = (refl, refl)
reuse-same a b id now t (some c) = (refl, refl)

again :
    (a b : Account) (id : String) (now : ℕ) (t : Tables) (first : Created) (c : ChatRow)
    → (b.id == a.id) ≡ false
    → resolve_accounts t.accounts (b.id ∷ []) ≡ ok (b ∷ [])
    → any (is_between a.id (b.id ∷ [])) t.blocklist ≡ false
    → find_direct t.members a.auth_user_id b.auth_user_id t.chats ≡ some c
    → first.chat_id ≡ c.id
    → first.created_at ≡ c.created_at
    → create a id now (direct_input b.id) t ≡ (ok (record first { existing = true }), t)
again a b id now t first c d r n e i at =
    create-direct a b id now t d r n
    ∙ (reuse-found _ c (create_new a id now (direct_input b.id) (b ∷ []) t) t e
        ∙ ap (λ k. (ok k, t)) (sym (made_of first c i at)))

-- Two accounts that are found, not banned and not blocked either way, and an id that no chat has: a
-- direct chat that one creates with the other is made or found, and when the other then creates one
-- with the first, it is given the same chat, as one that exists, and nothing is changed.
pub create_direct_once :
    (a b : Account) (id id' : String) (now now' : ℕ) (t : Tables)
    → a.id ≢ b.id
    → resolve_accounts t.accounts (b.id ∷ []) ≡ ok (b ∷ [])
    → resolve_accounts t.accounts (a.id ∷ []) ≡ ok (a ∷ [])
    → any (is_between a.id (b.id ∷ [])) t.blocklist ≡ false
    → All (λ c. (c.id == id) ≡ false) t.chats
    → (first : Created) × (((create a id now (direct_input b.id) t).0 ≡ ok first)
        × (create b id' now' (direct_input a.id) (create a id now (direct_input b.id) t).1
            ≡ (ok (record first { existing = true }), (create a id now (direct_input b.id) t).1)))
create_direct_once a b id id' now now' t d rb ra n f =
    let o = find_direct t.members a.auth_user_id b.auth_user_id t.chats in
    let made = create-direct a b id now t (differs b.id a.id (λ e. d (sym e))) rb n in
    let after = (reuse o (create_new a id now (direct_input b.id) (b ∷ []) t) t).1 in
    let same = reuse-same a b id now t o in
    let (first, (gives, (c, (found, (i, at))))) = once a b id now t f o refl in
    (
      first,
      (
        ap (λ r. r.0) made ∙ gives,
        rw made (
            again b a id' now' after first c (differs a.id b.id d)
              (ap (λ rows. resolve_accounts rows (a.id ∷ [])) same.0 ∙ ra)
              (ap (any (is_between b.id (a.id ∷ []))) same.1
                ∙ (sym (is_between_comm a.id b.id t.blocklist) ∙ n))
              (find_direct_comm after.members b.auth_user_id a.auth_user_id after.chats ∙ found) i
              at),
      ),
    )
