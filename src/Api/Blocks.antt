-- ===== src/Api/Blocks.antt =====
-- services/api/src/routers/blocks.ts: who blocks whom.
use mortstack.Prelude.{
  ℕ, String, Bool, true, not, ◌&&◌, ◌||◌, ◌==◌, Option, none, some, List, [], ◌∷◌, ◌++◌, any,
  keep_if, if◌then◌else◌,
}
use mortstack.Api.{Account, Block, Tables, bad_request, not_found, Result, ok, error}

pub data Direction : Type 0 where
  you_blocked_them they_blocked_you : Direction

unfoldable pub blocks : String → String → Block → Bool
blocks blocker blocked b = (b.blocker == blocker) && (b.blocked == blocked)

unfoldable pub add : Account → String → ℕ → Tables → Result Bool × Tables
unfolding blocks
add me account_id now t =
    if account_id == me.id
    then (error bad_request "Cannot block yourself", t)
    else if not (any (λ a. a.id == account_id) t.accounts)
    then (error not_found "Account not found", t)
    else if any (blocks me.id account_id) t.blocklist
    then (ok true, t)
    else (
      ok true,
      record t {
        blocklist =
            t.blocklist ++ record { blocker = me.id; blocked = account_id; created_at = now } ∷ [];
      },
    )

unfoldable pub remove : Account → String → Tables → Tables
unfolding blocks
remove me account_id t = record t {
  blocklist = keep_if (λ b. not (blocks me.id account_id b)) t.blocklist;
}

-- The first row of either direction.
unfoldable pub is_blocked : Account → String → List Block → Option Direction
unfolding blocks
is_blocked me account_id [] = none
is_blocked me account_id (b ∷ bs) =
    if blocks me.id account_id b || blocks account_id me.id b
    then some (if b.blocker == me.id then you_blocked_them else they_blocked_you)
    else is_blocked me account_id bs
