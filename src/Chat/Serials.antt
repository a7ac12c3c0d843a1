-- ===== src/Chat/Serials.antt =====
-- Distinct serials, and a counter past them: what an insert keeps, whatever the database refuses or
-- the network loses on the way there.
use mathlib.Core.Path.{subst}
use mortstack.Prelude.{
  ℕ, zero, suc, String, ◌≡◌, refl, sym, inl, inr, Option, none, some, List, [], ◌∷◌, ◌++◌, ℤ, pos,
  ◌+ℤ◌, int_laws, any, All-imp, arith, Bool-cases, Option-cases,
}
use mortstack.Js.BigInt.{big_int}
use mortstack.Persist.{
  PersistMessageInput, Database, Inserted, stored, conflict, refused, same_key, same_client_key,
  insert_message, max_serial,
}
use mortstack.Persist.Serials.{IsFresh, IsDistinct, Apart_of_fresh, max_serial_bounds}
use mortstack.Chat.{Chat, PendingSend, Fate, Act, carry_on, modify, query-cases, IsHeard}
use mortstack.Chat.Fanout.{AssignedSend}
use mortstack.Chat.Batch.{IsFresh-after}
use mortstack.Chat.Flush.{
  input_of, recover_serial, recover_stored, ensure_serial_recovered, after_insert, insert_at,
  insert_with_retry,
}

-- The serials of the chat are distinct, the counter that the next insert uses is past them all, and
-- no statement of the next ones is run without its answer coming back.
pub record IsSound (s : Chat) : Type 0 where
  pub distinct : IsDistinct s.chat_id s.db.messages
  pub counter : (n : ℤ) → s.next_serial ≡ some n → IsFresh s.chat_id n s.db.messages
  pub stored_counter :
      (text : String) (n : ℤ)
      → s.next_serial ≡ none
      → s.stored_next_serial ≡ some text
      → big_int text ≡ some n
      → IsFresh s.chat_id n s.db.messages
  pub heard : IsHeard s.net

abbrev pub Keeps : {A : Type 0} → Act A → Type 0
Keeps m = (s : Chat) → IsSound s → IsSound (m s).1

pub carry_on-Keeps :
    {A : Type 0} {B : Type 0} (r : Option A × Chat) (k : A → Act B)
    → IsSound r.1
    → ((a : A) → Keeps (k a))
    → IsSound (carry_on r k).1
carry_on-Keeps (none, s) k h f = h
carry_on-Keeps (some a, s) k h f = f a s h

pub quiet_state :
    (s : Chat) (net : List (Fate × ℕ)) (clock : ℕ)
    → IsSound s
    → IsHeard net
    → IsSound (record s { net = net; clock = clock })
quiet_state s net clock h k = record {
  distinct = h.distinct;
  counter = h.counter;
  stored_counter = h.stored_counter;
  heard = k;
}

IsFresh-of_max : (s : Chat) → IsFresh s.chat_id (max_serial s.chat_id s.db +ℤ pos 1) s.db.messages
IsFresh-of_max s =
    All-imp (λ r f e. omega (int_laws, f e)) s.db.messages (max_serial_bounds s.chat_id s.db)

set_counter :
    (s : Chat) (n : ℤ)
    → IsSound s
    → IsFresh s.chat_id n s.db.messages
    → IsSound (record s { next_serial = some n })
set_counter s n h f = record {
  distinct = h.distinct;
  counter = λ m e. subst (λ k. IsFresh s.chat_id k s.db.messages) (cc e) f;
  stored_counter = λ text m e. cc e;
  heard = h.heard;
}

recover_serial-Keeps : Keeps recover_serial
unfolding recover_serial
recover_serial-Keeps s h =
    query-cases (λ at db. (max_serial s.chat_id db, db)) s
      (λ r.
        IsSound
          (carry_on r (λ max. modify (λ t. record t { next_serial = some (max +ℤ pos 1) }))).1)
      (λ net clock k.
        set_counter (record s { net = net; clock = clock }) (max_serial s.chat_id s.db +ℤ pos 1)
          (quiet_state s net clock h k) (IsFresh-of_max s))
      (λ net clock k. quiet_state s net clock h k) h.heard

recover_stored-Keeps :
    (o : Option String) (s : Chat)
    → IsSound s
    → s.next_serial ≡ none
    → s.stored_next_serial ≡ o
    → IsSound (recover_stored o s).1
unfolding recover_stored
recover_stored-Keeps none s h e f = recover_serial-Keeps s h
recover_stored-Keeps (some text) s h e f = elim (Option-cases (big_int text)) [
  | inl g ↦ rw (g, recover_stored) h
  | inr (n, g) ↦ rw (g, recover_stored) (set_counter s n h (h.stored_counter text n e f g))
]

recovered_none :
    (s : Chat)
    → s.next_serial ≡ none
    → ensure_serial_recovered s ≡ recover_stored s.stored_next_serial s
unfolding ensure_serial_recovered
recovered_none s e = ground (arith, e)

recovered_some :
    (s : Chat) (n : ℤ) → s.next_serial ≡ some n → ensure_serial_recovered s ≡ (some tt, s)
unfolding ensure_serial_recovered
recovered_some s n e = ground (arith, e)

pub ensure_serial_recovered-Keeps : Keeps ensure_serial_recovered
ensure_serial_recovered-Keeps s h = elim (Option-cases s.next_serial) [
  | inl e ↦
      subst (λ r. IsSound r.1) (sym (recovered_none s e))
        (recover_stored-Keeps s.stored_next_serial s h e refl)
  | inr (n, e) ↦ subst (λ r. IsSound r.1) (sym (recovered_some s n e)) h
]

-- What an insert does to the tables: nothing, or one more row.
insert-cases :
    (row : PersistMessageInput) (at : ℕ) (db : Database) (P : Inserted × Database → Type 0)
    → P (
      stored,
      record db { messages = db.messages ++ record { input = row; created_at = at } ∷ [] },
    )
    → P (conflict, db)
    → P (refused, db)
    → P (insert_message row at db)
unfolding insert_message
insert-cases row at db P a b c = elim (Bool-cases (any (same_key row at) db.messages)) [
  | inl e ↦ rw e b
  | inr e ↦ elim (Bool-cases (any (same_client_key row at) db.messages)) [
    | inl f ↦ rw (e, f) c
    | inr f ↦ rw (e, f) a
  ]
]

stored-IsSound :
    (s : Chat) (entry : PendingSend) (n : ℤ) (net : List (Fate × ℕ)) (clock : ℕ)
    → IsSound s
    → s.next_serial ≡ some n
    → IsHeard net
    → IsSound (record s {
      db = record s.db {
        messages =
            s.db.messages
            ++ record { input = input_of s.chat_id n entry; created_at = s.clock } ∷ [];
      };
      next_serial = some (n +ℤ pos 1);
      net = net;
      clock = clock;
    })
stored-IsSound s entry n net clock h e k =
    let row = input_of s.chat_id n entry in
    record {
      distinct = Apart_of_fresh row s.clock s.db.messages (h.counter n e) h.distinct;
      counter = λ m f.
          subst
            (λ i.
              IsFresh s.chat_id i
                (s.db.messages ++ record { input = row; created_at = s.clock } ∷ []))
            (cc f) (IsFresh-after row s.clock s.db.messages (h.counter n e));
      stored_counter = λ text m f. cc f;
      heard = k;
    }

module _ (entry : PendingSend) (retry : Act (Option AssignedSend)) (keeps : Keeps retry) where
  insert_at-Keeps :
      (o : Option ℤ) (s : Chat)
      → s.next_serial ≡ o
      → IsSound s
      → IsSound (insert_at entry retry o s).1
  unfolding insert_at after_insert
  insert_at-Keeps none s e h = h
  insert_at-Keeps (some n) s e h =
      query-cases (insert_message (input_of s.chat_id n entry)) s
        (λ r. IsSound (after_insert entry n retry r).1)
        (λ net clock k.
          insert-cases (input_of s.chat_id n entry) s.clock s.db
            (λ r.
              IsSound
                (after_insert entry n retry
                  (some r.0, record s { db = r.1; net = net; clock = clock })).1)
            (stored-IsSound s entry n net clock h e k)
            (carry_on-Keeps (recover_serial (record s { net = net; clock = clock })) (λ _. retry)
              (recover_serial-Keeps (record s { net = net; clock = clock })
                (quiet_state s net clock h k))
              (λ _. keeps))
            (keeps (record s { net = net; clock = clock }) (quiet_state s net clock h k)))
        (λ net clock k. keeps (record s { net = net; clock = clock }) (quiet_state s net clock h k))
        h.heard

pub insert_with_retry-Keeps :
    (left : ℕ) (entry : PendingSend) → Keeps (insert_with_retry left entry)
unfolding insert_with_retry
insert_with_retry-Keeps zero entry s h = h
insert_with_retry-Keeps (suc left) entry s h =
    insert_at-Keeps entry (insert_with_retry left entry) (insert_with_retry-Keeps left entry)
      s.next_serial s refl h
