-- ===== src/Cursors.antt =====
-- packages/chat-db/src/backfill-cursors.ts: how far each chat was backfilled, as a table keyed by chat.
use mortstack.Prelude.{
  ℕ, ◌+◌, ◌-◌, ◌*◌, String, ◌≡◌, inl, inr, ◌==◌, eq_iff, Option, none, some, List, [], ◌∷◌, ℤ, pos,
  sub_ℕ, ltb_ℤ, leb, ◌&&◌, ◌||◌, min, nat_eq, arith, Option-cases, Bool-cases, if◌then◌else◌,
}
use mortstack.Js.Text.{codes, is_digit}
use mortstack.Js.Dict.{Dict, get, put, get-put}

-- The digits at the start of a text, read on from `acc`.
read_prefix : ℕ → List ℕ → ℕ
read_prefix acc [] = acc
read_prefix acc (c ∷ cs) =
    let rest = read_prefix (acc * 10 + (c - b'0')) cs in if is_digit c then rest else acc

abbrev max_int64 : ℕ
max_int64 = 9223372036854775807

skip_spaces : List ℕ → List ℕ
skip_spaces [] = []
skip_spaces (c ∷ cs) =
    let rest = skip_spaces cs in if nat_eq c b' ' || (leb 9 c && leb c 13) then rest else c ∷ cs

cast_trimmed : List ℕ → ℤ
unfolding read_prefix
cast_trimmed [] = pos 0
cast_trimmed (c ∷ cs) =
    if nat_eq c b'-'
    then sub_ℕ 0 (min (read_prefix 0 cs) (max_int64 + 1))
    else if nat_eq c b'+'
    then pos (min (read_prefix 0 cs) max_int64)
    else pos (min (read_prefix 0 (c ∷ cs)) max_int64)

-- `CAST(text AS INTEGER)`: after white space an optional sign and the digits up to the first other
-- character, held to 64 bits.
unfoldable pub cast_integer : List ℕ → ℤ
unfolding skip_spaces cast_trimmed
cast_integer cs = cast_trimmed (skip_spaces cs)

abbrev pub serial_of : String → ℤ
serial_of last_serial = cast_integer (codes last_serial)

unfoldable pub get_cursor : String → Dict String → Option String
get_cursor chat cursors = get cursors chat

unfoldable pub set_cursor : String → String → Dict String → Dict String
unfolding cast_integer
set_cursor chat upto cursors = elim (get cursors chat) [
  | none ↦ put chat upto cursors
  | some last ↦ if ltb_ℤ (serial_of last) (serial_of upto) then put chat upto cursors else cursors
]

-- The cursor that is further on; the old one if neither is.
abbrev pub further : Option String → String → String
further none upto = upto
further (some last) upto = if ltb_ℤ (serial_of last) (serial_of upto) then upto else last

-- Setting a chat's cursor takes it to the further one of the old and the new, as integers of 64
-- bits, and leaves the cursor of every other chat.
pub get_cursor-set_cursor :
    (chat chat' upto : String) (cursors : Dict String)
    → get_cursor chat' (set_cursor chat upto cursors) ≡ (
        if chat == chat'
        then some (further (get_cursor chat cursors) upto)
        else get_cursor chat' cursors)
unfolding get_cursor set_cursor
get_cursor-set_cursor chat chat' upto cursors = elim (Option-cases (get cursors chat)) [
  | inl e ↦ ground (arith, e, get-put chat chat' upto cursors)
  | inr (last, e) ↦ elim (Bool-cases (ltb_ℤ (serial_of last) (serial_of upto))) [
    | inl f ↦ ground (arith, e, f, get-put chat chat' upto cursors)
    | inr f ↦ ground (arith, e, f, eq_iff chat chat')
  ]
]
