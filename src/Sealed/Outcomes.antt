-- ===== src/Sealed/Outcomes.antt =====
-- The loop over a page, told by what becomes of each row.
use mathlib.Core.List.{append_assoc, append-nil}
use mortstack.Prelude.{
  String, ◌≡◌, refl, sym, ◌∙◌, Bool, false, Option, none, some, List, [], ◌∷◌, ◌++◌, All, Pairs,
  if◌then◌else◌,
}
use mortstack.Envelope.{BackfilledMessage}
use mortstack.Pipe.{msg, rx, Packages}
use mortstack.Sealed.{
  TransportOptions, DecryptOutcome, ok, failed, is_recoverable_decrypt_reason, decrypt_one,
}
use mortstack.Sealed.Pages.{DecryptedRow, Loop, as_msg, decrypted_row, block, add_row, decrypt_rows}

abbrev pub Opened : Type 0
Opened = BackfilledMessage × DecryptOutcome

module _ {E : Type 0} (c : Packages E) (o : TransportOptions) where
  -- What becomes of each row of a page, one after the other.
  unfoldable pub outcomes :
      String → List BackfilledMessage → E → List (BackfilledMessage × DecryptOutcome)
  outcomes chat_id [] e = []
  outcomes chat_id (row ∷ rows) e =
      let (e', outcome) = decrypt_one c o e (as_msg chat_id row) in
      (row, outcome) ∷ outcomes chat_id rows e'

unfoldable pub messages_of : String → List Opened → List DecryptedRow
messages_of chat_id [] = []
messages_of chat_id ((row, ok (msg v ts t s) two) ∷ rest) =
    decrypted_row chat_id row (msg v ts t s) two ∷ messages_of chat_id rest
messages_of chat_id ((row, ok (rx v ts t em op) two) ∷ rest) = messages_of chat_id rest
messages_of chat_id ((row, failed reason) ∷ rest) = messages_of chat_id rest

unfoldable pub reactions_of : String → List Opened → List DecryptedRow
reactions_of chat_id [] = []
reactions_of chat_id ((row, ok (rx v ts t em op) two) ∷ rest) =
    decrypted_row chat_id row (rx v ts t em op) two ∷ reactions_of chat_id rest
reactions_of chat_id ((row, ok (msg v ts t s) two) ∷ rest) = reactions_of chat_id rest
reactions_of chat_id ((row, failed reason) ∷ rest) = reactions_of chat_id rest

unfoldable pub is_recoverable : DecryptOutcome → Bool
is_recoverable (ok f two) = false
is_recoverable (failed reason) = is_recoverable_decrypt_reason reason

-- the loop over rows that are decrypted already
unfoldable pub fold_rows : String → List Opened → Loop → Loop
fold_rows chat_id [] l = l
fold_rows chat_id ((row, outcome) ∷ rest) l = fold_rows chat_id rest (add_row chat_id row outcome l)

pub messages-fold_rows :
    (chat_id : String) (outs : List Opened) (l : Loop)
    → (fold_rows chat_id outs l).messages ≡ l.messages ++ messages_of chat_id outs
unfolding fold_rows messages_of add_row
messages-fold_rows chat_id [] l = sym (append-nil l.messages)
messages-fold_rows chat_id ((row, ok (msg v ts t s) two) ∷ rest) l =
    messages-fold_rows chat_id rest (add_row chat_id row (ok (msg v ts t s) two) l)
    ∙ append_assoc l.messages _ _
messages-fold_rows chat_id ((row, ok (rx v ts t em op) two) ∷ rest) l =
    messages-fold_rows chat_id rest (add_row chat_id row (ok (rx v ts t em op) two) l)
messages-fold_rows chat_id ((row, failed reason) ∷ rest) l =
    messages-fold_rows chat_id rest (add_row chat_id row (failed reason) l)

pub reactions-fold_rows :
    (chat_id : String) (outs : List Opened) (l : Loop)
    → (fold_rows chat_id outs l).reactions ≡ l.reactions ++ reactions_of chat_id outs
unfolding fold_rows reactions_of add_row
reactions-fold_rows chat_id [] l = sym (append-nil l.reactions)
reactions-fold_rows chat_id ((row, ok (rx v ts t em op) two) ∷ rest) l =
    reactions-fold_rows chat_id rest (add_row chat_id row (ok (rx v ts t em op) two) l)
    ∙ append_assoc l.reactions _ _
reactions-fold_rows chat_id ((row, ok (msg v ts t s) two) ∷ rest) l =
    reactions-fold_rows chat_id rest (add_row chat_id row (ok (msg v ts t s) two) l)
reactions-fold_rows chat_id ((row, failed reason) ∷ rest) l =
    reactions-fold_rows chat_id rest (add_row chat_id row (failed reason) l)

abbrev pub blocked_from : Option String → List Opened → Option String
blocked_from (some id) outs = some id
blocked_from none [] = none
blocked_from none ((row, outcome) ∷ rest) =
    blocked_from (if is_recoverable outcome then some row.server_msg_id else none) rest

pub blocked-fold_rows :
    (chat_id : String) (outs : List Opened) (l : Loop)
    → (fold_rows chat_id outs l).blocked_at ≡ blocked_from l.blocked_at outs
unfolding fold_rows add_row block is_recoverable
blocked-fold_rows chat_id [] l = elim l.blocked_at as (λ b. b ≡ blocked_from b []) [
  | none ↦ refl
  | some id ↦ refl
]
blocked-fold_rows chat_id ((row, ok (msg v ts t s) two) ∷ rest) l =
    blocked-fold_rows chat_id rest (add_row chat_id row (ok (msg v ts t s) two) l)
    ∙ (elim l.blocked_at
        as (λ b. blocked_from b rest ≡ blocked_from b ((row, ok (msg v ts t s) two) ∷ rest)) [
          | none ↦ refl
          | some id ↦ refl
        ])
blocked-fold_rows chat_id ((row, ok (rx v ts t em op) two) ∷ rest) l =
    blocked-fold_rows chat_id rest (add_row chat_id row (ok (rx v ts t em op) two) l)
    ∙ (elim l.blocked_at
        as (λ b. blocked_from b rest ≡ blocked_from b ((row, ok (rx v ts t em op) two) ∷ rest)) [
          | none ↦ refl
          | some id ↦ refl
        ])
blocked-fold_rows chat_id ((row, failed reason) ∷ rest) l =
    blocked-fold_rows chat_id rest (add_row chat_id row (failed reason) l)
    ∙ (elim l.blocked_at
        as (λ b.
          blocked_from (block b row.server_msg_id reason) rest
          ≡ blocked_from b ((row, failed reason) ∷ rest)) [ none ↦ refl | some id ↦ refl ])

module _ {E : Type 0} (c : Packages E) (o : TransportOptions) where
  pub decrypt_rows-fold :
      (chat_id : String) (rows : List BackfilledMessage) (e : E) (l : Loop)
      → (decrypt_rows c o chat_id rows e l).1 ≡ fold_rows chat_id (outcomes c o chat_id rows e) l
  unfolding decrypt_rows outcomes fold_rows
  decrypt_rows-fold chat_id [] e l = refl
  decrypt_rows-fold chat_id (row ∷ rows) e l = decrypt_rows-fold chat_id rows _ _

  pub All-outcomes :
      (P : BackfilledMessage → Type 0) (chat_id : String) (rows : List BackfilledMessage) (e : E)
      → All P rows
      → All (λ p. P p.0) (outcomes c o chat_id rows e)
  unfolding outcomes
  All-outcomes P chat_id [] e h = tt
  All-outcomes P chat_id (row ∷ rows) e h = (h.0, All-outcomes P chat_id rows _ h.1)

  pub Pairs-outcomes :
      (R : BackfilledMessage → BackfilledMessage → Type 0) (chat_id : String)
      (rows : List BackfilledMessage) (e : E)
      → Pairs R rows
      → Pairs (λ p q. R p.0 q.0) (outcomes c o chat_id rows e)
  unfolding outcomes
  Pairs-outcomes R chat_id [] e h = tt
  Pairs-outcomes R chat_id (row ∷ rows) e h =
      (All-outcomes (R row) chat_id rows _ h.0, Pairs-outcomes R chat_id rows _ h.1)
