-- ===== src/Chat/Batch.antt =====
-- A batch that the database stores: the serials and the rows.
use mathlib.Core.List.{append_assoc, append-nil}
use mortstack.Prelude.{
  ℕ, suc, String, ◌≡◌, ◌≢◌, refl, ◌∙◌, Bool, false, ◌&&◌, ◌||◌, ◌==◌, eq_iff, some, List, [], ◌∷◌,
  ◌++◌, ℤ, pos, ◌+ℤ◌, int_laws, eq_of_parts, length, any, All, All-append, All-imp, Pairs, arith,
}
use mortstack.Persist.{
  PersistMessageInput, MessageRow, Database, stored, same_client_key, insert_message,
}
use mortstack.Persist.Serials.{IsFresh, fresh-any}
use mortstack.Chat.{Chat, PendingSend, query}
use mortstack.Chat.Fanout.{AssignedSend}
use mortstack.Chat.Flush.{input_of, insert_with_retry, persist_batch}

-- The entries of a batch under consecutive serials, and their rows.
unfoldable pub assign : ℤ → ℕ → List PendingSend → List AssignedSend
assign n at [] = []
assign n at (entry ∷ batch) =
    record { entry = entry; server_serial = n; ts = at } ∷ assign (n +ℤ pos 1) at batch

unfoldable pub rows_of : String → List AssignedSend → List MessageRow
rows_of chat [] = []
rows_of chat (a ∷ assigned) =
    record { input = input_of chat a.server_serial a.entry; created_at = a.ts }
    ∷ rows_of chat assigned

abbrev pub has_client : String → String → MessageRow → Bool
has_client chat client r = (r.chat_id == chat) && (r.client_msg_id == client)

-- No client message id of the batch is in the table or comes twice.
abbrev pub AreNew : String → List PendingSend → List MessageRow → Type 0
AreNew chat batch rows =
    All (λ e. any (has_client chat e.client_msg_id) rows ≡ false) batch
    × Pairs (λ a b. a.client_msg_id ≢ b.client_msg_id) batch

client-any :
    (row : PersistMessageInput) (at : ℕ) (rows : List MessageRow)
    → any (has_client row.chat_id row.client_msg_id) rows ≡ false
    → any (same_client_key row at) rows ≡ false
client-any row at [] h = refl
client-any row at (r ∷ rows) h = ground (arith, client-any row at rows)

insert-fresh :
    (row : PersistMessageInput) (at : ℕ) (db : Database)
    → IsFresh row.chat_id row.server_serial db.messages
    → any (has_client row.chat_id row.client_msg_id) db.messages ≡ false
    → insert_message row at db ≡ (
      stored,
      record db { messages = db.messages ++ record { input = row; created_at = at } ∷ [] },
    )
unfolding insert_message
insert-fresh row at db h k =
    rw (fresh-any row at db.messages h, client-any row at db.messages k) refl

-- The state after a row is stored.
abbrev pub add_rows : List MessageRow → ℤ → Chat → Chat
add_rows rows n s = record s {
  db = record s.db { messages = s.db.messages ++ rows };
  next_serial = some n;
}

insert_lem :
    (left : ℕ) (entry : PendingSend) (n : ℤ) (s : Chat)
    → s.net ≡ []
    → s.next_serial ≡ some n
    → IsFresh s.chat_id n s.db.messages
    → any (has_client s.chat_id entry.client_msg_id) s.db.messages ≡ false
    → insert_with_retry (suc left) entry s ≡ (
      some (some (record { entry = entry; server_serial = n; ts = s.clock })),
      add_rows
          (record { input = input_of s.chat_id n entry; created_at = s.clock } ∷ [])
          (n +ℤ pos 1)
          s,
    )
unfolding insert_with_retry query
insert_lem left entry n s quiet e h k =
    ground (arith, quiet, e, insert-fresh (input_of s.chat_id n entry) s.clock s.db h k)

IsFresh-next :
    (chat : String) (n : ℤ) (rows : List MessageRow)
    → IsFresh chat n rows
    → IsFresh chat (n +ℤ pos 1) rows
IsFresh-next chat n rows = All-imp (λ r h e. omega (int_laws, h e)) rows

pub IsFresh-after :
    (row : PersistMessageInput) (at : ℕ) (rows : List MessageRow)
    → IsFresh row.chat_id row.server_serial rows
    → IsFresh row.chat_id
        (row.server_serial +ℤ pos 1)
        (rows ++ record { input = row; created_at = at } ∷ [])
IsFresh-after row at rows h =
    All-append _ rows _ (IsFresh-next row.chat_id row.server_serial rows h)
      ((λ e. omega int_laws), tt)

any-append :
    {A : Type 0} (p : A → Bool) (xs ys : List A) → any p (xs ++ ys) ≡ (any p xs || any p ys)
any-append p [] ys = refl
any-append p (x ∷ xs) ys = ground (arith, any-append p xs ys)

still_new :
    (chat : String) (serial : ℤ) (at : ℕ) (entry : PendingSend) (rows : List MessageRow)
    (batch : List PendingSend)
    → All (λ e. any (has_client chat e.client_msg_id) rows ≡ false) batch
    → All (λ b. entry.client_msg_id ≢ b.client_msg_id) batch
    → All
        (λ e.
          any
            (has_client chat e.client_msg_id)
            (rows ++ record { input = input_of chat serial entry; created_at = at } ∷ [])
          ≡ false)
        batch
still_new chat serial at entry rows [] h d = tt
still_new chat serial at entry rows (b ∷ batch) h d = (
  ground (
    arith,
    h.0,
    d.0,
    eq_iff entry.client_msg_id b.client_msg_id,
    any-append (has_client chat b.client_msg_id) rows
        (record { input = input_of chat serial entry; created_at = at } ∷ []),
  ),
  still_new chat serial at entry rows batch h.1 d.1,
)

serial_sum : (n : ℤ) (k : ℕ) → n +ℤ pos 1 +ℤ pos k ≡ n +ℤ pos (suc k)
serial_sum n k = eq_of_parts _ _ (omega int_laws)

serial_zero : (n : ℤ) → n +ℤ pos 0 ≡ n
serial_zero n = eq_of_parts _ _ (omega int_laws)

persist_step :
    (entry : PendingSend) (batch : List PendingSend) (assigned : List AssignedSend)
    (a : AssignedSend) (s t : Chat)
    → insert_with_retry 2 entry s ≡ (some (some a), t)
    → persist_batch (entry ∷ batch) assigned s ≡ persist_batch batch (assigned ++ a ∷ []) t
unfolding persist_batch
persist_step entry batch assigned a s t e = ground (arith, e)

add_none : (n : ℤ) (s : Chat) → s.next_serial ≡ some n → add_rows [] (n +ℤ pos 0) s ≡ s
add_none n s e = ground (arith, e, append-nil s.db.messages, serial_zero n)

-- Every entry is stored, under consecutive serials from the counter on.
pub persist_batch_lem :
    (batch : List PendingSend) (assigned : List AssignedSend) (n : ℤ) (s : Chat)
    → s.net ≡ []
    → s.next_serial ≡ some n
    → IsFresh s.chat_id n s.db.messages
    → AreNew s.chat_id batch s.db.messages
    → persist_batch batch assigned s ≡ (
      some (some (assigned ++ assign n s.clock batch)),
      add_rows (rows_of s.chat_id (assign n s.clock batch)) (n +ℤ pos (length batch)) s,
    )
unfolding persist_batch assign rows_of
persist_batch_lem [] assigned n s quiet e h k = rw (append-nil assigned, add_none n s e) refl
persist_batch_lem (entry ∷ batch) assigned n s quiet e h k =
    let a : AssignedSend = record { entry = entry; server_serial = n; ts = s.clock } in
    let row : MessageRow = record { input = input_of s.chat_id n entry; created_at = s.clock } in
    persist_step entry batch assigned a s (add_rows (row ∷ []) (n +ℤ pos 1) s)
      (insert_lem 1 entry n s quiet e h k.0.0)
    ∙ persist_batch_lem batch (assigned ++ a ∷ []) (n +ℤ pos 1) (add_rows (row ∷ []) (n +ℤ pos 1) s)
        quiet refl (IsFresh-after row.input s.clock s.db.messages h)
        (still_new s.chat_id n s.clock entry s.db.messages batch k.0.1 k.1.0, k.1.1)
    ∙ rw
        (
          append_assoc assigned (a ∷ []) (assign (n +ℤ pos 1) s.clock batch),
          serial_sum n (length batch),
          append_assoc s.db.messages (row ∷ [])
              (rows_of s.chat_id (assign (n +ℤ pos 1) s.clock batch)),
        )
        refl
