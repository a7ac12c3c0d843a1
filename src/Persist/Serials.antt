-- ===== src/Persist/Serials.antt =====
-- The serials of a chat: the greatest one, fresh ones, and tables in which no serial comes twice.
use mortstack.Prelude.{
  String, ◌≡◌, ◌≢◌, refl, inl, inr, true, false, Option, none, some, List, [], ◌∷◌, ◌++◌, ℕ, ℤ, pos,
  ◌≤ℤ◌, ◌<ℤ◌, any, keep_if, All, All-append, All-imp, Pairs, arith, Bool-cases,
}
use mortstack.Persist.{
  PersistMessageInput, MessageRow, Database, conflict, same_key, in_chat, insert_message, max_of,
  max_serial,
}

-- Every serial of the chat is below `s`.
abbrev pub IsFresh : String → ℤ → List MessageRow → Type 0
IsFresh chat s = All (λ r. in_chat chat r ≡ true → r.server_serial <ℤ s)

abbrev pub Apart : String → MessageRow → MessageRow → Type 0
Apart chat r q = in_chat chat r ≡ true → in_chat chat q ≡ true → r.server_serial ≢ q.server_serial

-- No two rows of the chat have one serial.
abbrev pub IsDistinct : String → List MessageRow → Type 0
IsDistinct chat = Pairs (Apart chat)

-- `r.server_serial` is at most the maximum, where there is one.
abbrev AtMost : Option ℤ → ℤ → Type 0
AtMost none s = ⊥
AtMost (some m) s = s ≤ℤ m

max_of-cons : (r : MessageRow) (rs : List MessageRow) → AtMost (max_of (r ∷ rs)) r.server_serial
unfolding max_of
max_of-cons r rs = ground arith

max_of-AtMost :
    (r : MessageRow) (rs : List MessageRow) (s : ℤ)
    → AtMost (max_of rs) s
    → AtMost (max_of (r ∷ rs)) s
unfolding max_of
max_of-AtMost r rs s h = ground arith

max_of_bounds : (rs : List MessageRow) → All (λ r. AtMost (max_of rs) r.server_serial) rs
max_of_bounds [] = tt
max_of_bounds (r ∷ rs) =
    (max_of-cons r rs, All-imp (λ q. max_of-AtMost r rs q.server_serial) rs (max_of_bounds rs))

keep_if-All :
    (chat : String) (P : MessageRow → Type 0) (rs : List MessageRow)
    → All P (keep_if (in_chat chat) rs)
    → All (λ r. in_chat chat r ≡ true → P r) rs
keep_if-All chat P [] h = tt
keep_if-All chat P (r ∷ rs) h = elim (Bool-cases (in_chat chat r)) [
  | inl e ↦ let k = rw e at h in (λ _. k.0, keep_if-All chat P rs k.1)
  | inr e ↦ let k = rw e at h in (λ f. cc (e, f), keep_if-All chat P rs k)
]

below_max : (m : Option ℤ) (s : ℤ) → AtMost m s → s ≤ℤ (elim m [ none ↦ pos 0 | some k ↦ k ])
below_max none s h = elim h [ ]
below_max (some k) s h = h

-- The maximum that recovery reads is at least every serial of the chat.
pub max_serial_bounds :
    (chat : String) (db : Database)
    → All (λ r. in_chat chat r ≡ true → r.server_serial ≤ℤ max_serial chat db) db.messages
unfolding max_serial
max_serial_bounds chat db =
    keep_if-All chat (λ r. r.server_serial ≤ℤ max_serial chat db) db.messages
      (All-imp (λ r. below_max (max_of (keep_if (in_chat chat) db.messages)) r.server_serial)
        (keep_if (in_chat chat) db.messages) (max_of_bounds (keep_if (in_chat chat) db.messages)))

pub fresh-any :
    (row : PersistMessageInput) (at : ℕ) (rs : List MessageRow)
    → IsFresh row.chat_id row.server_serial rs
    → any (same_key row at) rs ≡ false
fresh-any row at [] h = refl
fresh-any row at (r ∷ rs) h = ground (arith, fresh-any row at rs h.1)

-- A fresh serial is never refused for its key.
pub insert_message-ne-conflict :
    (row : PersistMessageInput) (at : ℕ) (db : Database)
    → IsFresh row.chat_id row.server_serial db.messages
    → (insert_message row at db).0 ≢ conflict
unfolding insert_message
insert_message-ne-conflict row at db h = ground (arith, fresh-any row at db.messages h)

pub Apart_of_fresh :
    (row : PersistMessageInput) (at : ℕ) (rs : List MessageRow)
    → IsFresh row.chat_id row.server_serial rs
    → IsDistinct row.chat_id rs
    → IsDistinct row.chat_id (rs ++ record { input = row; created_at = at } ∷ [])
Apart_of_fresh row at [] h d = (tt, tt)
Apart_of_fresh row at (r ∷ rs) h d = (
  All-append (Apart row.chat_id r) rs (record { input = row; created_at = at } ∷ []) d.0
      ((λ a b e. ground (arith, h.0 a)), tt),
  Apart_of_fresh row at rs h.1 d.1,
)
