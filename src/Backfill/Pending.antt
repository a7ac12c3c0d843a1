-- ===== src/Backfill/Pending.antt =====
-- The rows that a client still has to get, in serial order.
use mortstack.Prelude.{
  ℕ, String, ◌≡◌, sym, inl, inr, true, false, ◌&&◌, List, [], ◌∷◌, ℤ, ◌<ℤ◌, ◌≤ℤ◌, ltb_ℤ,
  eq_of_parts, take, any, keep_if, keep_if-keep_if, keep_if_none, All-true-keep_if, Pairs-keep_if,
  All, All-imp, arith, Bool-cases,
}
use mortstack.Js.Sort.{sort, sort-All, sort-IsSorted, sort-Pairs, IsSorted, IsConsistent}
use mortstack.Persist.{MessageRow, Database, in_chat, by_serial, is_member, messages_since}
use mortstack.Persist.Serials.{Apart, IsDistinct}
use mortstack.Backfill.Page.{IsAscending, past}

-- The rows of the chat past a cursor, in serial order.
unfoldable pub pending : String → ℤ → Database → List MessageRow
pending chat after db =
    keep_if (λ r. in_chat chat r && ltb_ℤ after r.server_serial) (sort by_serial db.messages)

by_serial-IsConsistent : IsConsistent by_serial
by_serial-IsConsistent = record {
  asymmetric = λ x y e. ground arith;
  transitive = λ x y z e f. ground arith;
}

ascending_head :
    (chat : String) (x : MessageRow) (l : List MessageRow)
    → in_chat chat x ≡ true
    → All (λ y. by_serial y x ≡ false) l
    → All (Apart chat x) l
    → All (λ y. in_chat chat y ≡ true) l
    → All (λ y. x.server_serial <ℤ y.server_serial) l
ascending_head chat x [] e a b c = tt
ascending_head chat x (y ∷ l) e a b c = (
  ground (arith, a.0, b.0 e c.0, eq_of_parts x.server_serial y.server_serial),
  ascending_head chat x l e a.1 b.1 c.1,
)

ascending :
    (chat : String) (l : List MessageRow)
    → IsSorted by_serial l
    → IsDistinct chat l
    → All (λ y. in_chat chat y ≡ true) l
    → IsAscending l
ascending chat [] a b c = tt
ascending chat (x ∷ l) a b c =
    (ascending_head chat x l c.0 a.0 b.0 c.1, ascending chat l a.1 b.1 c.1)

pub pending-IsAscending :
    (chat : String) (after : ℤ) (db : Database)
    → IsDistinct chat db.messages
    → IsAscending (pending chat after db)
unfolding pending
pending-IsAscending chat after db d =
    let q = λ (r : MessageRow). in_chat chat r && ltb_ℤ after r.server_serial in
    ascending chat (pending chat after db)
      (Pairs-keep_if _ q (sort by_serial db.messages)
        (sort-IsSorted by_serial by_serial-IsConsistent db.messages))
      (Pairs-keep_if (Apart chat) q (sort by_serial db.messages)
        (sort-Pairs (Apart chat) (λ x y h a b e. h b a (sym e)) by_serial db.messages d))
      (All-imp (λ r e. ground (arith, e)) (pending chat after db)
        (All-true-keep_if q (sort by_serial db.messages)))

pub pending-past :
    (chat : String) (after s : ℤ) (db : Database)
    → after ≤ℤ s
    → keep_if (past s) (pending chat after db) ≡ pending chat s db
unfolding pending
pending-past chat after s db h =
    keep_if-keep_if (past s) (λ r. in_chat chat r && ltb_ℤ after r.server_serial)
      (λ r. in_chat chat r && ltb_ℤ s r.server_serial) (sort by_serial db.messages)
      (λ r. ground arith)

past_true :
    (chat : String) (after : ℤ) (r : MessageRow)
    → (in_chat chat r && ltb_ℤ after r.server_serial) ≡ true
    → after <ℤ r.server_serial
past_true chat after r e = ground arith

pub pending-All-past :
    (chat : String) (after : ℤ) (db : Database)
    → All (λ r. after <ℤ r.server_serial) (pending chat after db)
unfolding pending
pending-All-past chat after db = All-imp (past_true chat after) (pending chat after db) (
    All-true-keep_if (λ r. in_chat chat r && ltb_ℤ after r.server_serial)
      (sort by_serial db.messages))

none_past :
    (chat : String) (m after : ℤ) (r : MessageRow)
    → m ≤ℤ after
    → (in_chat chat r ≡ true → r.server_serial ≤ℤ m)
    → (in_chat chat r && ltb_ℤ after r.server_serial) ≡ false
none_past chat m after r h f = elim (Bool-cases (in_chat chat r)) [
  | inl e ↦ ground (arith, f e)
  | inr e ↦ ground (arith, e)
]

-- Nothing is pending past a bound on the serials of the chat.
pub pending_none :
    (chat : String) (m after : ℤ) (db : Database)
    → m ≤ℤ after
    → All (λ r. in_chat chat r ≡ true → r.server_serial ≤ℤ m) db.messages
    → pending chat after db ≡ []
unfolding pending
pending_none chat m after db h a =
    keep_if_none (λ r. in_chat chat r && ltb_ℤ after r.server_serial) (sort by_serial db.messages)
      (All-imp (λ r. none_past chat m after r h) (sort by_serial db.messages)
        (sort-All (λ r. in_chat chat r ≡ true → r.server_serial ≤ℤ m) by_serial db.messages a))

pub messages_since_of_member :
    (chat user : String) (after : ℤ) (n : ℕ) (db : Database)
    → any (is_member chat user) db.members ≡ true
    → messages_since chat user after n db ≡ take n (pending chat after db)
unfolding messages_since pending
messages_since_of_member chat user after n db e = rw e
