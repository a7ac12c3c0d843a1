-- ===== src/Sealed/Cap.antt =====
-- A page never ends behind a row that may open later.
use mathlib.Core.Bool.{false≢true}
use mortstack.Prelude.{
  String, ◌≡◌, refl, sym, ap, ◌∙◌, true, false, none, some, List, [], ◌∷◌, ℤ, pos, ◌-ℤ◌, ◌<ℤ◌, ◌≤ℤ◌,
  ltb_ℤ, -ℤ_parts, All, All-imp, Pairs, arith, Bool-cases, ◌⊎◌, inl, inr,
}
use mortstack.Js.BigInt.{big_int, print_int}
use mortstack.Js.BigInt.RoundTrip.{big_int-print_int}
use mortstack.Envelope.{BackfilledMessage, BfdFrame}
use mortstack.Pipe.{Packages}
use mortstack.Store.Messages.{serial_value}
use mortstack.Sealed.{TransportOptions, DecryptOutcome}
use mortstack.Sealed.Pages.{
  DecryptedBackfill, Loop, cap, is_more, decrypt_rows, built, page_of, decrypt_backfill,
}
use mortstack.Sealed.Outcomes.{
  Opened, outcomes, messages_of, reactions_of, is_recoverable, messages-fold_rows,
  reactions-fold_rows, blocked-fold_rows, blocked_from, decrypt_rows-fold, All-outcomes,
  Pairs-outcomes,
}

abbrev pub IsReadable : String → Type 0
IsReadable serial = (z : ℤ) × (big_int serial ≡ some z)

serial_value-of : (serial : String) (z : ℤ) → big_int serial ≡ some z → serial_value serial ≡ z
unfolding serial_value
serial_value-of serial z e = rw (serial_value, e) refl

cap_below :
    (id up_to : String)
    → IsReadable id
    → IsReadable up_to
    → (u : String) × ((cap (some id) up_to ≡ some u) × (serial_value u <ℤ serial_value id))
unfolding cap
cap_below id up_to (at, e) (high, e') = elim (Bool-cases (ltb_ℤ (at -ℤ pos 1) high)) [
  | inl t ↦ (
    print_int (at -ℤ pos 1),
    (
      rw (e, big_int-print_int (at -ℤ pos 1), e', t) refl,
      rw (serial_value-of id at e, serial_value-of _ _ (big_int-print_int (at -ℤ pos 1)))
          (omega (arith, -ℤ_parts at (pos 1))),
    ),
  )
  | inr t ↦ (
    up_to,
    (
      rw (e, big_int-print_int (at -ℤ pos 1), e', t) refl,
      rw (serial_value-of id at e, serial_value-of up_to high e')
          (ground (arith, -ℤ_parts at (pos 1))),
    ),
  )
]

abbrev IsAscending : Opened → Opened → Type 0
IsAscending p q = serial_value p.0.server_msg_id <ℤ serial_value q.0.server_msg_id

-- No row that may open later stands before `id`.
abbrev pub IsFrom : String → BackfilledMessage × DecryptOutcome → Type 0
IsFrom id p = is_recoverable p.1 ≡ true → serial_value id ≤ℤ serial_value p.0.server_msg_id

blocked_first :
    (outs : List Opened)
    → All (λ p. IsReadable p.0.server_msg_id) outs
    → Pairs IsAscending outs
    → ((blocked_from none outs ≡ none) × All (λ p. is_recoverable p.1 ≡ false) outs)
      ⊎ ((id : String) × ((blocked_from none outs ≡ some id)
            × (IsReadable id × All (IsFrom id) outs)))
blocked_first [] r a = inl (refl, tt)
blocked_first ((row, outcome) ∷ rest) r a = elim (Bool-cases (is_recoverable outcome)) [
  | inl e ↦ inr (
    row.server_msg_id,
    (
      rw (blocked_from, e) refl,
      (r.0, (λ _. omega arith, All-imp (λ p h _. omega (arith, h)) rest a.0)),
    ),
  )
  | inr e ↦ elim (blocked_first rest r.1 a.1) [
    | inl (n, h) ↦ inl (rw (blocked_from, e) n, (e, h))
    | inr (id, (n, (ri, h))) ↦
        inr (id, (rw (blocked_from, e) n, (ri, (λ t. absurd (false≢true (sym e ∙ t)), h))))
  ]
]

blocked_none :
    (outs : List Opened)
    → All (λ p. is_recoverable p.1 ≡ false) outs
    → blocked_from none outs ≡ none
blocked_none [] h = refl
blocked_none ((row, outcome) ∷ rest) h = rw (blocked_from, h.0) (blocked_none rest h.1)

none-some : (id : String) → none ≡ some id → ⊥
none-some id e = absurd (ground arith)

-- What a page should be, given what became of each row.
pub record IsSound (bfd : BfdFrame) (outs : List (BackfilledMessage × DecryptOutcome))
    (page : DecryptedBackfill) : Type 0 where
  pub messages : page.messages ≡ messages_of bfd.chat_id outs
  pub reactions : page.reactions ≡ reactions_of bfd.chat_id outs
  pub keeps :
      All
        (λ p. is_recoverable p.1 ≡ true → serial_value page.up_to <ℤ serial_value p.0.server_msg_id)
        outs
  pub ends : ((page.up_to ≡ bfd.up_to) × (page.more ≡ bfd.more)) ⊎ (page.more ≡ false)
  pub passes :
      All (λ p. is_recoverable p.1 ≡ false) outs → (page.up_to ≡ bfd.up_to) × (page.more ≡ bfd.more)

abbrev start : Loop
start = record { messages = []; reactions = []; dropped = 0; blocked_at = none }

page-IsSound :
    (bfd : BfdFrame) (outs : List Opened) (l : Loop)
    → IsReadable bfd.up_to
    → All (λ p. IsReadable p.0.server_msg_id) outs
    → Pairs IsAscending outs
    → l.messages ≡ messages_of bfd.chat_id outs
    → l.reactions ≡ reactions_of bfd.chat_id outs
    → l.blocked_at ≡ blocked_from none outs
    → (page : DecryptedBackfill) × ((page_of bfd l (cap l.blocked_at bfd.up_to) ≡ some page)
        × IsSound bfd outs page)
unfolding page_of built cap
page-IsSound bfd outs l r rs a m x b = elim (blocked_first outs rs a) [
  | inl (n, h) ↦
      let none_blocks : l.blocked_at ≡ none = b ∙ n in
      (
        built bfd l bfd.up_to,
        (
          ap (λ k. page_of bfd l (cap k bfd.up_to)) none_blocks,
          record {
            messages = m;
            reactions = x;
            keeps = All-imp (λ p e t. absurd (false≢true (sym e ∙ t))) outs h;
            ends = inl (refl, ap (λ k. is_more k bfd.more) none_blocks);
            passes = λ _. (refl, ap (λ k. is_more k bfd.more) none_blocks);
          },
        ),
      )
  | inr (id, (n, (ri, h))) ↦
      let blocks : l.blocked_at ≡ some id = b ∙ n in
      let (u, (eu, lt)) = cap_below id bfd.up_to ri r in
      (
        built bfd l u,
        (
          ap (λ k. page_of bfd l (cap k bfd.up_to)) blocks ∙ ap (page_of bfd l) eu,
          record {
            messages = m;
            reactions = x;
            keeps = All-imp (λ p e t. omega (arith, lt, e t)) outs h;
            ends = inr (ap (λ k. is_more k bfd.more) blocks);
            passes = λ q. absurd (none-some id (sym (blocked_none outs q) ∙ n));
          },
        ),
      )
]

module _ {E : Type 0} (c : Packages E) (o : TransportOptions) where
  -- A page whose serials and end `BigInt` reads, with its rows in ascending order, is decrypted without
  -- an exception. The result has the messages and the reactions that open, each in the order of the
  -- page; it ends before every row that failed for a reason that may pass; it ends where the page ends
  -- and has more exactly as the page has, or has no more; and the first of these holds if no row failed
  -- for such a reason.
  pub decrypt_backfill-IsSound :
      (bfd : BfdFrame) (e : E)
      → IsReadable bfd.up_to
      → All (λ r. IsReadable r.server_msg_id) bfd.messages
      → Pairs (λ a b. serial_value a.server_msg_id <ℤ serial_value b.server_msg_id) bfd.messages
      → (page : DecryptedBackfill) × (((decrypt_backfill c o bfd e).1 ≡ some page)
          × IsSound bfd (outcomes c o bfd.chat_id bfd.messages e) page)
  unfolding decrypt_backfill
  decrypt_backfill-IsSound bfd e r rs a =
      let rows = bfd.messages in
      let id = bfd.chat_id in
      let outs = outcomes c o id rows e in
      let l = (decrypt_rows c o id rows e start).1 in
      let f = decrypt_rows-fold c o id rows e start in
      page-IsSound bfd outs l r (All-outcomes c o (λ m. IsReadable m.server_msg_id) id rows e rs)
        (Pairs-outcomes c o (λ m n. serial_value m.server_msg_id <ℤ serial_value n.server_msg_id) id
          rows e a)
        (ap (λ k. k.messages) f ∙ messages-fold_rows id outs start)
        (ap (λ k. k.reactions) f ∙ reactions-fold_rows id outs start)
        (ap (λ k. k.blocked_at) f ∙ blocked-fold_rows id outs start)
