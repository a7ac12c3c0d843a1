-- ===== src/Validators/Backfill.antt =====
-- Which `bf` frames pass `validateBackfillFrame` of services/chat-ws/src/validators.ts, and what
-- the handler may then rely on.
use mortstack.Prelude.{
  ℕ, suc, ap, ◌≤◌, String, ◌≡◌, ◌≢◌, refl, true, eq_iff, some, List, [], ◌∷◌, length, map, all, All,
  arith, pos,
}
use mortstack.Js.Text.{codes, is_digit, AllDigits, decimal}
use mortstack.Js.BigInt.{big_int}
use mortstack.Js.BigInt.RoundTrip.{big_int_of_AllDigits}
use mortstack.Js.Value.{Value, undefined, text, array, object, elements, property}
use mortstack.Validators.{
  valid, max_backfill_chats, serial_cursor, is_cursor, BackfillRequest, is_filled_text, as_text,
  validate_entry, validate_entries, validate_backfill_frame, requests_of, request_of, as_fields,
}

all_digits : (cs : List ℕ) → all is_digit cs ≡ true → AllDigits cs
all_digits [] h = tt
all_digits (c ∷ cs) h = (ground arith, all_digits cs (ground arith))

-- A cursor that passes the pattern is read by `BigInt` as a number that is not negative.
big_int_of_serial_cursor :
    (s : String) → serial_cursor s ≡ true → (n : ℕ) × (big_int s ≡ some (pos n))
big_int_of_serial_cursor s h =
    (decimal 0 (codes s), big_int_of_AllDigits s (all_digits (codes s) (ground arith)))

-- What a request of a valid frame carries: a chat, and a cursor that `BigInt` can read.
pub record IsReadable (r : BackfillRequest) : Type 0 where
  pub chat : r.chat_id ≢ ""
  pub cursor : (n : ℕ) × (big_int r.after ≡ some (pos n))

filled_text : (v : Value) → is_filled_text v ≡ true → as_text v ≢ ""
filled_text (text s) h e = ground (arith, eq_iff s "")
filled_text undefined h e = cc
filled_text _ h e = cc

cursor_text : (v : Value) → is_cursor v ≡ true → serial_cursor (as_text v) ≡ true
cursor_text (text s) h = h
cursor_text undefined h = cc
cursor_text _ h = cc

validate_entry-IsReadable :
    (v : Value) → validate_entry v ≡ valid → IsReadable (request_of (as_fields v))
unfolding validate_entry property
validate_entry-IsReadable (object fs) h = record {
  chat = filled_text (property fs "chatId") (ground arith);
  cursor =
      big_int_of_serial_cursor (as_text (property fs "after"))
        (cursor_text (property fs "after") (ground arith));
}
validate_entry-IsReadable undefined h = cc
validate_entry-IsReadable _ h = cc

validate_entries-IsReadable :
    (vs : List Value)
    → validate_entries vs ≡ valid
    → All IsReadable (map (λ v. request_of (as_fields v)) vs)
unfolding validate_entries
validate_entries-IsReadable [] h = tt
validate_entries-IsReadable (v ∷ vs) h =
    (validate_entry-IsReadable v (ground arith), validate_entries-IsReadable vs (ground arith))

length-map : (vs : List Value) → length (map (λ v. request_of (as_fields v)) vs) ≡ length vs
length-map [] = refl
length-map (v ∷ vs) = ap suc (length-map vs)

-- A `bf` frame that is accepted asks for 1 to 500 chats, each with a chat id that is not empty and
-- a cursor that `BigInt` reads as a number that is not negative.
pub validate_backfill_frame-IsReadable :
    (chats : Value)
    → validate_backfill_frame chats ≡ valid
    → (1 ≤ length (requests_of chats))
      × (length (requests_of chats) ≤ max_backfill_chats)
      × All IsReadable (requests_of chats)
unfolding validate_backfill_frame requests_of
validate_backfill_frame-IsReadable (array items) h = (
  ground (arith, length-map (elements items)),
  ground (arith, length-map (elements items)),
  validate_entries-IsReadable (elements items) (ground arith),
)
validate_backfill_frame-IsReadable undefined h = cc
validate_backfill_frame-IsReadable _ h = cc
