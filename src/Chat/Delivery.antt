-- ===== src/Chat/Delivery.antt =====
-- A flush that the database answers: what it stores and what it sends.
use mathlib.Core.List.{append_assoc, append-nil}
use mortstack.Prelude.{
  ℕ, ◌+◌, String, ◌≡◌, ◌≢◌, refl, ◌∙◌, ap, true, none, some, List, [], ◌∷◌, ◌++◌, ℤ, pos, ◌+ℤ◌,
  length, arith, Bool, Option, any, Bool-cases, inl, inr, if◌then◌else◌,
}
use mortstack.Persist.Serials.{IsFresh}
use Prim.Native.String.{◌++◌ as concat}
use mortstack.Js.BigInt.{print_int}
use mortstack.Persist.{member_ids}
use mortstack.Chat.{Chat, PendingSend, Effect, Act, kv_put, query, carry_on, ◌>>◌, ◌>>=◌}
use mortstack.Chat.Signals.{load_attached}
use mortstack.Chat.Fanout.{fan_out, called_users}
use mortstack.Js.Unique.{member}
use mortstack.Prelude.{◌-ℤ◌}
use mortstack.Chat.Fanout.{AssignedSend}
use mortstack.Chat.Flush.{
  persist_batch, ensure_buffer_loaded, ensure_serial_recovered, commit, cache_max, deliver,
  push_out, finish, flush_batch, flush, hint_users, presence_hint, published,
}
use mortstack.Chat.Batch.{assign, rows_of, AreNew, add_rows, persist_batch_lem}

abbrev pub cached : ℤ → Chat → List Effect
cached n s =
    if s.has_max_cache
    then kv_put (concat "chatmax:" s.chat_id) (print_int (n -ℤ pos 1)) ∷ []
    else []

-- An inbox that the batch calls rejects.
abbrev pub is_rejected : Chat → List AssignedSend → Bool
is_rejected s assigned =
    any (member s.unreachable) (called_users s.chat_id (load_attached s) assigned)

abbrev pub outcome : Chat → List AssignedSend → Option (Unit {0})
outcome s assigned = if is_rejected s assigned then none else some tt

abbrev pub events : (String → List String) → Chat → List AssignedSend → List Effect
events devices s assigned =
    published s.chat_id (member_ids s.chat_id s.db)
      (presence_hint devices (hint_users assigned (member_ids s.chat_id s.db))) assigned

-- What a batch sends: the cached maximum, the acks and messages, then the events, which an inbox that
-- rejects prevents.
abbrev pub announced : (String → List String) → Chat → ℤ → List AssignedSend → List Effect
announced devices s n assigned =
    cached n s
    ++ fan_out s.chat_id (load_attached s) assigned
    ++ (if is_rejected s assigned then [] else events devices s assigned)

then_lem :
    {B : Type 0} (m : Act (Unit {0})) (k : Act B) (s t : Chat)
    → m s ≡ (some tt, t)
    → (m >> k) s ≡ k t
then_lem m k s t e = rw e refl

abbrev committed : ℤ → Chat → Chat
committed n s = record s {
  buffer = [];
  stored_buffer = none;
  stored_next_serial = some (print_int n);
}

pub commit_lem : (n : ℤ) (s : Chat) → s.next_serial ≡ some n → commit s ≡ (some tt, committed n s)
unfolding commit
commit_lem n s e = ground (arith, e)

pub cache_max_lem :
    (n : ℤ) (s : Chat)
    → s.next_serial ≡ some n
    → cache_max s ≡ (some tt, record s { sent = s.sent ++ cached n s })
unfolding cache_max
cache_max_lem n s e = ground (arith, e, append-nil s.sent)

plus_zero : (n : ℕ) → n + 0 ≡ n
plus_zero n = omega arith

push_out_lem :
    (devices : String → List String) (assigned : List AssignedSend) (s : Chat)
    → s.net ≡ []
    → push_out devices assigned s ≡ (
      some tt,
      record s {
        sent =
            s.sent
            ++ published s.chat_id
                (member_ids s.chat_id s.db)
                (presence_hint devices (hint_users assigned (member_ids s.chat_id s.db)))
                assigned;
      },
    )
unfolding push_out query
push_out_lem devices assigned s quiet = rw (quiet, push_out, plus_zero s.clock) refl

deliver_lem :
    (assigned : List AssignedSend) (n : ℤ) (s : Chat)
    → s.next_serial ≡ some n
    → (commit >> cache_max >> deliver assigned) s ≡ (
      outcome s assigned,
      record (committed n s) {
        sent = (s.sent ++ cached n s) ++ fan_out s.chat_id (load_attached s) assigned;
      },
    )
unfolding deliver load_attached
deliver_lem assigned n s e =
    let t : Chat = record (committed n s) { sent = s.sent ++ cached n s } in
    then_lem (commit >> cache_max) (deliver assigned) s t (
      then_lem commit cache_max s (committed n s) (commit_lem n s e)
      ∙ cache_max_lem n (committed n s) e)

three_parts : (a b c d : List Effect) → ((a ++ b) ++ c) ++ d ≡ a ++ (b ++ c ++ d)
three_parts a b c d = ap (λ xs. xs ++ d) (append_assoc a b c) ∙ append_assoc a (b ++ c) d

finish_lem :
    (devices : String → List String) (assigned : List AssignedSend) (n : ℤ) (s : Chat)
    → s.net ≡ []
    → s.next_serial ≡ some n
    → finish devices (some assigned) s ≡ (
      outcome s assigned,
      record s {
        buffer = [];
        stored_buffer = none;
        stored_next_serial = some (print_int n);
        sent = s.sent ++ announced devices s n assigned;
      },
    )
unfolding load_attached
finish_lem devices assigned n s quiet e =
    let fan = fan_out s.chat_id (load_attached s) assigned in
    let u : Chat = record (committed n s) { sent = (s.sent ++ cached n s) ++ fan } in
    ap (λ r. carry_on r (λ _. push_out devices assigned)) (deliver_lem assigned n s e)
    ∙ (elim (Bool-cases (is_rejected s assigned)) [
      | inl r ↦ rw (r, append_assoc s.sent (cached n s) fan, append-nil (cached n s ++ fan)) refl
      | inr r ↦ rw r (
          push_out_lem devices assigned u quiet
          ∙ rw (three_parts s.sent (cached n s) fan (events devices s assigned)) refl)
    ])

bind_lem :
    {A : Type 0} {B : Type 0} (m : Act A) (k : A → Act B) (s t : Chat) (a : A)
    → m s ≡ (some a, t)
    → (m >>= k) s ≡ k a t
bind_lem m k s t a e = rw e refl

recovered_lem :
    (n : ℤ) (s : Chat) → s.next_serial ≡ some n → ensure_serial_recovered s ≡ (some tt, s)
unfolding ensure_serial_recovered
recovered_lem n s e = ground (arith, e)

loaded_lem : (s : Chat) → s.buffer_loaded ≡ true → ensure_buffer_loaded s ≡ s
unfolding ensure_buffer_loaded
loaded_lem s e = ground (arith, e)

flush_batch-cons :
    (devices : String → List String) (batch : List PendingSend)
    → batch ≢ []
    → flush_batch devices batch
      ≡ (ensure_serial_recovered >> (persist_batch batch [] >>= finish devices))
unfolding flush_batch
flush_batch-cons devices [] h = absurd (h refl)
flush_batch-cons devices (entry ∷ batch) h = refl

flush_entries :
    (devices : String → List String) (s : Chat)
    → s.buffer_loaded ≡ true
    → s.buffer ≢ []
    → flush devices s
      ≡ (ensure_serial_recovered >> (persist_batch s.buffer [] >>= finish devices)) s
unfolding flush
flush_entries devices s loaded h =
    ap (λ t. flush_batch devices t.buffer t) (loaded_lem s loaded)
    ∙ ap (λ m. m s) (flush_batch-cons devices s.buffer h)

module _ (devices : String → List String) (s : Chat) (n : ℤ) (quiet : s.net ≡ [])
    (counter : s.next_serial ≡ some n) (fresh : IsFresh s.chat_id n s.db.messages)
    (are_new : AreNew s.chat_id s.buffer s.db.messages) where
  batch_state : Chat
  batch_state =
      add_rows (rows_of s.chat_id (assign n s.clock s.buffer)) (n +ℤ pos (length s.buffer)) s

  -- A flush of a loaded, non-empty buffer whose client message ids are new to the chat, from a
  -- counter past every serial of the chat, with the database answering at once: each entry is stored
  -- under the next serial, the counter moves past them in memory and in storage, the buffer is
  -- emptied in both, the cached maximum and the acks and messages go out, and so do the events, unless
  -- an inbox that is called rejects, in which case the flush throws before them.
  pub flush_stores :
      s.buffer_loaded ≡ true
      → s.buffer ≢ []
      → flush devices s ≡ (
        outcome s (assign n s.clock s.buffer),
        record s {
          db = record s.db {
            messages = s.db.messages ++ rows_of s.chat_id (assign n s.clock s.buffer);
          };
          next_serial = some (n +ℤ pos (length s.buffer));
          buffer = [];
          stored_buffer = none;
          stored_next_serial = some (print_int (n +ℤ pos (length s.buffer)));
          sent =
              s.sent
              ++ announced devices s (n +ℤ pos (length s.buffer)) (assign n s.clock s.buffer);
        },
      )
  unfolding batch_state load_attached member_ids
  flush_stores loaded some_entry =
      flush_entries devices s loaded some_entry
      ∙ then_lem ensure_serial_recovered (persist_batch s.buffer [] >>= finish devices) s s
          (recovered_lem n s counter)
      ∙ bind_lem (persist_batch s.buffer []) (finish devices) s batch_state
          (some (assign n s.clock s.buffer))
          (persist_batch_lem s.buffer [] n s quiet counter fresh are_new)
      ∙ finish_lem devices (assign n s.clock s.buffer) (n +ℤ pos (length s.buffer)) batch_state
          quiet refl
