-- ===== src/Outbox.antt =====
-- packages/chat-db/src/outbox.ts: the table of sends that wait, the oldest first. A statement is a
-- function of the table; `now` is the clock that it reads.
pub mod Worker
pub mod Attempts
use mortstack.Prelude.{
  ℕ, suc, ◌+◌, String, Bool, true, false, not, ◌==◌, Option, none, some, List, [], ◌∷◌, ◌++◌, map,
  ltb, leb, any, keep_if, take, if◌then◌else◌,
}
use mortstack.Js.Sort.{sort}

pub record PendingOutboxRow : Type 0 where
  pub id : String
  pub chat_id : String
  pub payload : List ℕ
  pub idempotency_key : String
  pub attempts : ℕ
  pub next_attempt_at : ℕ
  pub created_at : ℕ
  pub last_error : Option String

pub record EnqueueArgs : Type 0 where
  pub id : String
  pub chat_id : String
  pub payload : List ℕ
  pub idempotency_key : String

-- `Number.MAX_SAFE_INTEGER`
abbrev pub max_safe_integer : ℕ
max_safe_integer = 9007199254740991

-- `none` is the error of the primary key; a known idempotency key is no error.
unfoldable pub enqueue : EnqueueArgs → ℕ → List PendingOutboxRow → Option (List PendingOutboxRow)
enqueue args now rows =
    if any (λ r. r.idempotency_key == args.idempotency_key) rows
    then some rows
    else if any (λ r. r.id == args.id) rows
    then none
    else some (
        rows
        ++ record {
          id = args.id;
          chat_id = args.chat_id;
          payload = args.payload;
          idempotency_key = args.idempotency_key;
          attempts = 0;
          next_attempt_at = now;
          created_at = now;
          last_error = none;
        }
          ∷ [])

unfoldable pub mark_sent : String → List PendingOutboxRow → List PendingOutboxRow
mark_sent id = keep_if (λ r. not (r.id == id))

unfoldable pub fail_row : String → String → ℕ → PendingOutboxRow → PendingOutboxRow
fail_row id reason next_at r =
    if r.id == id
    then record r { attempts = suc r.attempts; last_error = some reason; next_attempt_at = next_at }
    else r

unfoldable pub mark_failed : String → String → ℕ → ℕ → List PendingOutboxRow → List PendingOutboxRow
unfolding fail_row
mark_failed id reason delay now = map (fail_row id reason (now + delay))

unfoldable pub mark_permanently_failed :
    String → String → List PendingOutboxRow → List PendingOutboxRow
unfolding fail_row
mark_permanently_failed id reason = map (fail_row id reason max_safe_integer)

unfoldable pub requeue : String → ℕ → List PendingOutboxRow → List PendingOutboxRow
requeue id now = map (λ r.
    if r.id == id then record r { attempts = 0; last_error = none; next_attempt_at = now } else r)

unfoldable pub find_by_idempotency_key : String → List PendingOutboxRow → Option PendingOutboxRow
find_by_idempotency_key key [] = none
find_by_idempotency_key key (r ∷ rows) =
    if r.idempotency_key == key then some r else find_by_idempotency_key key rows

-- SQL leaves the order of rows with one `next_attempt_at` open; here the older row comes first.
unfoldable pub due : ℕ → ℕ → List PendingOutboxRow → List PendingOutboxRow
due limit now rows = take limit (
    sort (λ a b. ltb a.next_attempt_at b.next_attempt_at)
      (keep_if (λ r. leb r.next_attempt_at now) rows))
