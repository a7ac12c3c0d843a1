-- ===== src/Chat/Soundness.antt =====
-- Every flush keeps the serials of its chat distinct.
use mathlib.Core.Path.{subst}
use mortstack.Prelude.{
  String, ◌≡◌, sym, inl, inr, Bool, true, false, Option, none, some, List, [], ◌∷◌, ◌++◌, arith,
  Option-cases, if◌then◌else◌,
}
use mortstack.Persist.{member_ids}
use mortstack.Chat.{Chat, PendingSend, Act, ◌>>◌, carry_on, pure, modify, query-cases, Effect}
use mortstack.Chat.Fanout.{AssignedSend}
use mortstack.Chat.Delivery.{commit_lem, cache_max_lem}
use mortstack.Chat.Flush.{
  ensure_serial_recovered, insert_with_retry, dispatch_err, persist_batch, commit, cache_max,
  deliver, push_out, finish, flush_batch, ensure_buffer_loaded, flush, hint_users, presence_hint,
  published,
}
use mortstack.Chat.Serials.{
  IsSound, Keeps, carry_on-Keeps, quiet_state, ensure_serial_recovered-Keeps,
  insert_with_retry-Keeps,
}

-- The buffers and what was sent play no part.
set_rest :
    (s : Chat) (buffer : List PendingSend) (kept : Option (List PendingSend)) (loaded : Bool)
    (sent : List Effect)
    → IsSound s
    → IsSound
        (record s { buffer = buffer; stored_buffer = kept; buffer_loaded = loaded; sent = sent })
set_rest s buffer kept loaded sent h = record {
  distinct = h.distinct;
  counter = h.counter;
  stored_counter = h.stored_counter;
  heard = h.heard;
}

after_row :
    (entry : PendingSend) (next : AssignedSend → Act (Option (List AssignedSend)))
    → ((a : AssignedSend) → Keeps (next a))
    → (row : Option AssignedSend)
    → Keeps {A = Option (List AssignedSend)} (elim row [
      | none ↦ dispatch_err (entry.sender_id ∷ []) "could not persist after retry" >> pure none
      | some a ↦ next a
    ])
after_row entry next f none s h =
    carry_on-Keeps (dispatch_err (entry.sender_id ∷ []) "could not persist after retry" s) _
      (set_rest s s.buffer s.stored_buffer s.buffer_loaded _ h) (λ _ t k. k)
after_row entry next f (some a) s h = f a s h

persist_batch-Keeps :
    (batch : List PendingSend) (assigned : List AssignedSend) → Keeps (persist_batch batch assigned)
unfolding persist_batch
persist_batch-Keeps [] assigned s h = h
persist_batch-Keeps (entry ∷ batch) assigned s h =
    carry_on-Keeps (insert_with_retry 2 entry s) _ (insert_with_retry-Keeps 2 entry s h) (
      after_row entry (λ a. persist_batch batch (assigned ++ a ∷ []))
        (λ a. persist_batch-Keeps batch (assigned ++ a ∷ [])))

commit-none : (s : Chat) → s.next_serial ≡ none → commit s ≡ (none, s)
unfolding commit
commit-none s e = ground (arith, e)

commit-Keeps : Keeps commit
commit-Keeps s h = elim (Option-cases s.next_serial) [
  | inl e ↦ subst (λ r. IsSound r.1) (sym (commit-none s e)) h
  | inr (n, e) ↦
      subst (λ r. IsSound r.1) (sym (commit_lem n s e))
        (record {
          distinct = h.distinct;
          counter = h.counter;
          stored_counter = λ text m f. cc (e, f);
          heard = h.heard;
        })
]

cache_none : (s : Chat) → s.next_serial ≡ none → cache_max s ≡ (some tt, s)
unfolding cache_max
cache_none s e = ground (arith, e)

cache_max-Keeps : Keeps cache_max
cache_max-Keeps s h = elim (Option-cases s.next_serial) [
  | inl e ↦ subst (λ r. IsSound r.1) (sym (cache_none s e)) h
  | inr (n, e) ↦
      subst (λ r. IsSound r.1) (sym (cache_max_lem n s e))
        (set_rest s s.buffer s.stored_buffer s.buffer_loaded _ h)
]

deliver-Keeps : (assigned : List AssignedSend) → Keeps (deliver assigned)
unfolding deliver
deliver-Keeps assigned s h = set_rest s s.buffer s.stored_buffer s.buffer_loaded _ h

push_out-Keeps :
    (devices : String → List String) (assigned : List AssignedSend)
    → Keeps (push_out devices assigned)
unfolding push_out
push_out-Keeps devices assigned s h =
    query-cases (λ at db. (member_ids s.chat_id db, db)) s
      (λ r.
        IsSound
          (carry_on r (λ members. modify (λ t. record t {
            sent =
                t.sent
                ++ published t.chat_id members (presence_hint devices (hint_users assigned members))
                    assigned;
          }))).1)
      (λ net clock k.
        set_rest (record s { net = net; clock = clock }) s.buffer s.stored_buffer s.buffer_loaded _
          (quiet_state s net clock h k))
      (λ net clock k. quiet_state s net clock h k) h.heard

finish-Keeps :
    (devices : String → List String) (o : Option (List AssignedSend)) → Keeps (finish devices o)
finish-Keeps devices none s h = h
finish-Keeps devices (some assigned) s h =
    carry_on-Keeps ((commit >> cache_max >> deliver assigned) s) _
      (carry_on-Keeps ((commit >> cache_max) s) _
        (carry_on-Keeps (commit s) _ (commit-Keeps s h) (λ _. cache_max-Keeps))
        (λ _. deliver-Keeps assigned))
      (λ _. push_out-Keeps devices assigned)

flush_batch-Keeps :
    (devices : String → List String) (batch : List PendingSend) → Keeps (flush_batch devices batch)
unfolding flush_batch
flush_batch-Keeps devices [] s h = h
flush_batch-Keeps devices (entry ∷ batch) s h =
    carry_on-Keeps (ensure_serial_recovered s) _ (ensure_serial_recovered-Keeps s h) (λ _ t k.
      carry_on-Keeps (persist_batch (entry ∷ batch) [] t) (finish devices)
        (persist_batch-Keeps (entry ∷ batch) [] t k) (finish-Keeps devices))

either-IsSound : (b : Bool) (s t : Chat) → IsSound s → IsSound t → IsSound (if b then s else t)
either-IsSound true s t h k = h
either-IsSound false s t h k = k

ensure_buffer_loaded-IsSound : (s : Chat) → IsSound s → IsSound (ensure_buffer_loaded s)
unfolding ensure_buffer_loaded
ensure_buffer_loaded-IsSound s h =
    either-IsSound s.buffer_loaded s _ h (set_rest s _ s.stored_buffer true s.sent h)

-- A flush that starts with distinct serials in the chat and a counter past them, in memory or to be
-- read from storage, ends with the same, also when it throws or gives up, if the database may refuse
-- a row and the network may lose a request, but no statement is run whose answer is lost.
pub flush-IsSound :
    (devices : String → List String) (s : Chat) → IsSound s → IsSound (flush devices s).1
unfolding flush
flush-IsSound devices s h =
    flush_batch-Keeps devices (ensure_buffer_loaded s).buffer (ensure_buffer_loaded s)
      (ensure_buffer_loaded-IsSound s h)
