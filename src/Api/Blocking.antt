-- ===== src/Api/Blocking.antt =====
-- A block stops both sides from starting a chat.
use mathlib.Core.Bool.{false≢true}
use mortstack.Prelude.{
  ℕ, String, ◌≡◌, ◌≢◌, refl, sym, ap, ◌∙◌, Bool, true, false, not, ◌&&◌, ◌==◌, eq_iff, none, List,
  [], ◌∷◌, ◌++◌, any, keep_if, arith, Bool-cases, inl, inr, ◌⊎◌, if◌then◌else◌, length, nat_eq,
}
use mortstack.Js.Unique.{member, of_array, delete, member-delete, member-of_array}
use mortstack.Api.{
  Account, Block, Tables, Code, bad_request, forbidden, Result, ok, error, ids, resolve_accounts,
  first_error,
}
use mortstack.Api.Chats.{
  CreateInput, Created, is_direct, has_name, is_between, create_unless_blocked, create,
}
use mortstack.Api.Blocks.{blocks, add, is_blocked}

abbrev pub IsRefused : Result Created × Tables → Tables → Type 0
IsRefused r t = (code : Code) × ((message : String) × (r ≡ (error code message, t)))

member-ids :
    (w : List String) (rows : List Account) (i : String)
    → member (ids (keep_if (λ a. member w a.id) rows)) i ≡ (any (λ a. a.id == i) rows && member w i)
unfolding member
member-ids w [] i = refl
member-ids w (a ∷ rows) i = ground (arith, eq_iff a.id i, member-ids w rows i)

first_error-cases :
    (banned rows : List Account)
    → ((code : Code) × ((m : String) × (first_error banned rows ≡ error code m)))
      ⊎ (first_error banned rows ≡ ok rows)
unfolding first_error
first_error-cases [] rows = inr refl
first_error-cases (b ∷ bs) rows = inl (_, (_, refl))

-- Either an error, or the rows with these ids.
resolve_accounts-cases :
    (accounts : List Account) (id : String) (more : List String)
    → ((code : Code) × ((m : String) × (resolve_accounts accounts (id ∷ more) ≡ error code m)))
      ⊎ (resolve_accounts accounts (id ∷ more)
          ≡ ok (keep_if (λ a. member (id ∷ more) a.id) accounts))
unfolding resolve_accounts
resolve_accounts-cases accounts id more =
    let rows = keep_if (λ a. member (id ∷ more) a.id) accounts in
    elim (Bool-cases (nat_eq (length rows) (length (id ∷ more)))) [
      | inl e ↦ rw e (first_error-cases (keep_if (λ a. a.is_banned) rows) rows)
      | inr e ↦ rw e (inl (_, (_, refl)))
    ]

any-between :
    (a b : String) (others : List String) (bs : List Block)
    → member others b ≡ true
    → (any (blocks a b) bs ≡ true) ⊎ (any (blocks b a) bs ≡ true)
    → any (is_between a others) bs ≡ true
unfolding is_between blocks
any-between a b others [] m (inl h) = h
any-between a b others [] m (inr h) = h
any-between a b others (x ∷ bs) m (inl h) =
    ground (arith, h, m, eq_iff x.blocker a, eq_iff x.blocked b, any-between a b others bs m)
any-between a b others (x ∷ bs) m (inr h) =
    ground (arith, h, m, eq_iff x.blocker b, eq_iff x.blocked a, any-between a b others bs m)

is_blocked-some :
    (a : Account) (b : String) (bs : List Block)
    → (any (blocks a.id b) bs ≡ true) ⊎ (any (blocks b a.id) bs ≡ true)
    → is_blocked a b bs ≢ none
unfolding is_blocked
is_blocked-some a b [] (inl h) n = absurd (ground (arith, h))
is_blocked-some a b [] (inr h) n = absurd (ground (arith, h))
is_blocked-some a b (x ∷ bs) (inl h) n = ground (arith, h, n, is_blocked-some a b bs)
is_blocked-some a b (x ∷ bs) (inr h) n = ground (arith, h, n, is_blocked-some a b bs)

if-IsRefused :
    (c : Bool) (code : Code) (message : String) {r : Result Created × Tables} {t : Tables}
    → IsRefused r t
    → IsRefused (if c then (error code message, t) else r) t
if-IsRefused true code message h = (code, (message, refl))
if-IsRefused false code message h = h

module _ (me : Account) (id : String) (now : ℕ) (input : CreateInput) (t : Tables) (b : String)
    (known : any (λ a. a.id == b) t.accounts ≡ true)
    (block : (any (blocks me.id b) t.blocklist ≡ true)
      ⊎ (any (blocks b me.id) t.blocklist ≡ true)) where
  resolved-IsRefused :
      (others : List String)
      → member others b ≡ true
      → IsRefused (create_unless_blocked me id now input t (resolve_accounts t.accounts others)) t
  unfolding create_unless_blocked
  resolved-IsRefused [] m = absurd (unfold member in false≢true m)
  resolved-IsRefused (x ∷ more) m = elim (resolve_accounts-cases t.accounts x more) [
    | inl (code, (message, e)) ↦ rw e (code, (message, refl))
    | inr e ↦
        let rows = keep_if (λ a. member (x ∷ more) a.id) t.accounts in
        let hit =
          any-between me.id b (ids rows) t.blocklist
            (member-ids (x ∷ more) t.accounts b ∙ rw (known, m) refl) block in
        rw (e, hit)
          (forbidden, ("Cannot start chat — one of the parties has blocked the other", refl))
  ]

  create-IsRefused :
      member input.member_account_ids b ≡ true
      → (me.id == b) ≡ false
      → IsRefused (create me id now input t) t
  unfolding create
  create-IsRefused m d =
      let others = delete me.id (of_array input.member_account_ids) in
      let r = resolved-IsRefused others (
        member-delete me.id b (of_array input.member_account_ids)
        ∙ rw (member-of_array input.member_account_ids b, m, d) refl) in
      if-IsRefused (nat_eq (length others) 0) bad_request
        "memberAccountIds cannot be only the caller"
        (if-IsRefused (is_direct input.kind && not (nat_eq (length others) 1)) bad_request
          "direct chat requires exactly 1 other member"
          (if-IsRefused (is_direct input.kind && has_name input.name) bad_request
            "direct chat cannot have a name" r))

differs : (x y : String) → x ≢ y → (x == y) ≡ false
differs x y n = ground (arith, n, eq_iff x y)

any-last :
    (a b : String) (now : ℕ) (bs : List Block)
    → any (blocks a b) (bs ++ record { blocker = a; blocked = b; created_at = now } ∷ []) ≡ true
unfolding blocks
any-last a b now [] = ground (arith, eq_iff a a, eq_iff b b)
any-last a b now (x ∷ bs) = ground (arith, any-last a b now bs)

add-blocks :
    (a : Account) (b : String) (now : ℕ) (t : Tables)
    → (b == a.id) ≡ false
    → any (λ x. x.id == b) t.accounts ≡ true
    → ((add a b now t).0 ≡ ok true)
      × ((any (blocks a.id b) (add a b now t).1.blocklist ≡ true)
          × ((add a b now t).1.accounts ≡ t.accounts))
unfolding add
add-blocks a b now t d k = elim (Bool-cases (any (blocks a.id b) t.blocklist)) [
  | inl e ↦ rw (add, d, k, e) (refl, (e, refl))
  | inr e ↦ rw (add, d, k, e) (refl, (any-last a.id b now t.blocklist, refl))
]

-- When an account blocks another one that exists, isBlocked holds for both sides, and every chat that
-- one of them then creates with the other among the members, direct or group, is refused, and the
-- tables stay as they are.
pub add_refuses :
    (a b : Account) (now now' : ℕ) (id : String) (input : CreateInput) (t : Tables)
    → a.id ≢ b.id
    → any (λ x. x.id == a.id) t.accounts ≡ true
    → any (λ x. x.id == b.id) t.accounts ≡ true
    → ((add a b.id now t).0 ≡ ok true)
      × (((is_blocked a b.id (add a b.id now t).1.blocklist ≢ none)
            × (is_blocked b a.id (add a b.id now t).1.blocklist ≢ none))
          × ((member input.member_account_ids b.id ≡ true
                → IsRefused (create a id now' input (add a b.id now t).1) (add a b.id now t).1)
              × (member input.member_account_ids a.id ≡ true
                  → IsRefused (create b id now' input (add a b.id now t).1) (add a b.id now t).1)))
add_refuses a b now now' id input t d ka kb =
    let t' = (add a b.id now t).1 in
    let (done, (hit, same)) = add-blocks a b.id now t (differs b.id a.id (λ e. d (sym e))) kb in
    let known = λ (x : String). ap (any (λ (y : Account). y.id == x)) same in
    (
      done,
      (
        (
          is_blocked-some a b.id t'.blocklist (inl hit),
          is_blocked-some b a.id t'.blocklist (inr hit),
        ),
        (
          λ m.
              create-IsRefused a id now' input t' b.id (known b.id ∙ kb) (inl hit) m
                (differs a.id b.id d),
          λ m.
              create-IsRefused b id now' input t' a.id (known a.id ∙ ka) (inr hit) m
                (differs b.id a.id (λ e. d (sym e))),
        ),
      ),
    )
