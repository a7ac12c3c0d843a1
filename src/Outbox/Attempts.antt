-- ===== src/Outbox/Attempts.antt =====
-- How often a send is tried.
use mortstack.Prelude.{
  ℕ, suc, ◌<◌, String, ◌≡◌, refl, ◌⊎◌, inl, inr, Bool, true, false, not, ◌==◌, ◌||◌, List, [], ◌∷◌,
  leb, All, All-keep_if, arith, Bool-cases,
}
use mortstack.Store.{Store}
use mortstack.Store.Messages.{confirm_optimistic_message, fail_optimistic_message}
use mortstack.Store.Reactions.{confirm_reaction, fail_reaction}
use mortstack.Outbox.{
  PendingOutboxRow, max_safe_integer, mark_sent, mark_failed, mark_permanently_failed, fail_row,
}
use mortstack.Outbox.Worker.{
  Worker, Payload, message, reaction, bad_reaction, bad_message, corrupt, fault, SendOutcome, acked,
  no_results, rejected, Decoded, max_attempts, is_terminal_send_reason, fail_forever, send_failed,
  settle, dispatch_payload, dispatch_one, payload_of,
}

-- The row has failed less than five times, or it is not due before the end of time.
abbrev pub IsBounded : PendingOutboxRow → Type 0
IsBounded r = (r.attempts < max_attempts) ⊎ (r.next_attempt_at ≡ max_safe_integer)

-- The table holds the row as the worker read it.
abbrev pub IsCurrent : PendingOutboxRow → PendingOutboxRow → Type 0
IsCurrent row r = (r.id == row.id) ≡ true → r.attempts ≡ row.attempts

permanent-IsBounded :
    (id reason : String) (rows : List PendingOutboxRow)
    → All IsBounded rows
    → All IsBounded (mark_permanently_failed id reason rows)
unfolding mark_permanently_failed fail_row
permanent-IsBounded id reason [] h = tt
permanent-IsBounded id reason (r ∷ rows) h = elim (Bool-cases (r.id == id)) [
  | inl e ↦ rw e (inr refl, permanent-IsBounded id reason rows h.1)
  | inr e ↦ rw e (h.0, permanent-IsBounded id reason rows h.1)
]

failed-IsBounded :
    (row : PendingOutboxRow) (reason : String) (delay now : ℕ) (rows : List PendingOutboxRow)
    → suc row.attempts < max_attempts
    → All (IsCurrent row) rows
    → All IsBounded rows
    → All IsBounded (mark_failed row.id reason delay now rows)
unfolding mark_failed fail_row
failed-IsBounded row reason delay now [] k c h = tt
failed-IsBounded row reason delay now (r ∷ rows) k c h = elim (Bool-cases (r.id == row.id)) [
  | inl e ↦ rw e (inl (omega (arith, c.0 e)), failed-IsBounded row reason delay now rows k c.1 h.1)
  | inr e ↦ rw e (h.0, failed-IsBounded row reason delay now rows k c.1 h.1)
]

below_limit : (n : ℕ) (b : Bool) → (leb max_attempts (suc n) || b) ≡ false → suc n < max_attempts
below_limit n b h = ground arith

send_failed-IsBounded :
    (fail : String → String → Store → Store) (row : PendingOutboxRow) (reason : String) (w : Worker)
    → All (IsCurrent row) w.outbox
    → All IsBounded w.outbox
    → All IsBounded (send_failed fail row reason w).outbox
unfolding send_failed fail_forever
send_failed-IsBounded fail row reason w c h =
    elim (Bool-cases (leb max_attempts (suc row.attempts) || is_terminal_send_reason reason)) [
      | inl e ↦ rw e (permanent-IsBounded row.id reason w.outbox h)
      | inr e ↦
          rw e (failed-IsBounded row reason _ w.clock w.outbox (below_limit row.attempts _ e) c h)
    ]

settle-IsBounded :
    (fail : String → String → Store → Store) (confirm : String → ℕ → Store → Store)
    (row : PendingOutboxRow) (o : SendOutcome) (w : Worker)
    → All (IsCurrent row) w.outbox
    → All IsBounded w.outbox
    → All IsBounded (settle fail confirm row o w).outbox
unfolding settle mark_sent
settle-IsBounded fail confirm row (acked serial ts) w c h =
    All-keep_if IsBounded (λ r. not (r.id == row.id)) w.outbox h
settle-IsBounded fail confirm row no_results w c h =
    send_failed-IsBounded fail row "transport returned no results" w c h
settle-IsBounded fail confirm row (rejected reason) w c h =
    send_failed-IsBounded fail row reason w c h

payload-IsBounded :
    (transport : Payload → SendOutcome) (row : PendingOutboxRow) (p : Payload) (w : Worker)
    → All (IsCurrent row) w.outbox
    → All IsBounded w.outbox
    → All IsBounded (dispatch_payload transport row p w).1.outbox
unfolding dispatch_payload fail_forever
payload-IsBounded transport row fault w c h = h
payload-IsBounded transport row (corrupt reason) w c h =
    permanent-IsBounded row.id reason w.outbox h
payload-IsBounded transport row bad_reaction w c h =
    permanent-IsBounded row.id "reaction payload missing/invalid target|emoji|op" w.outbox h
payload-IsBounded transport row bad_message w c h =
    permanent-IsBounded row.id "payload missing required `text` field" w.outbox h
payload-IsBounded transport row (reaction target emoji op) w c h =
    settle-IsBounded fail_reaction (λ serial ts. confirm_reaction row.chat_id row.id) row
      (transport (reaction target emoji op)) w c h
payload-IsBounded transport row (message t) w c h =
    settle-IsBounded fail_optimistic_message (confirm_optimistic_message row.chat_id row.id) row
      (transport (message t)) w c h

-- Whatever a payload decodes to and the transport answers, a dispatch of a row that the table holds with
-- as many attempts keeps this of every row: it has failed less than five times, or its next
-- attempt is put off to the greatest safe integer.
pub dispatch_one-IsBounded :
    (decode : List ℕ → Decoded) (transport : PendingOutboxRow → ℕ → Payload → SendOutcome)
    (row : PendingOutboxRow) (w : Worker)
    → All (IsCurrent row) w.outbox
    → All IsBounded w.outbox
    → All IsBounded (dispatch_one decode transport row w).1.outbox
unfolding dispatch_one
dispatch_one-IsBounded decode transport row w c h =
    payload-IsBounded (transport row w.clock) row (payload_of (decode row.payload)) w c h
