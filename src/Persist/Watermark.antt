-- ===== src/Persist/Watermark.antt =====
-- Read watermarks of ChatMember only move forward, whatever the order of the updates.
use mortstack.Prelude.{
  String, ◌≡◌, refl, ap, Bool, true, false, ◌&&◌, ◌==◌, eq_iff, Option, none, some, List, [], ◌∷◌,
  map, ℤ, ltb_ℤ, arith, eq_of_parts, Bool-cases, inl, inr, if◌then◌else◌,
}
use mortstack.Persist.{MemberRow, Database, is_int64, is_member, advance, update_last_read_serial}

-- The greater of a watermark and a serial.
abbrev pub max_watermark : Option ℤ → ℤ → ℤ
max_watermark none upto = upto
max_watermark (some old) upto = if ltb_ℤ old upto then upto else old

-- The watermark that a user's row for a chat holds; the first such row, if any.
unfoldable pub watermark : String → String → List MemberRow → Option ℤ
watermark chat user [] = none
watermark chat user (m ∷ ms) =
    if is_member chat user m then m.last_read_serial else watermark chat user ms

unfoldable pub has_row : String → String → List MemberRow → Bool
has_row chat user [] = false
has_row chat user (m ∷ ms) = if is_member chat user m then true else has_row chat user ms

watermark-map-advance :
    (c u c' u' : String) (upto : ℤ) (ms : List MemberRow)
    → watermark c' u' (map (advance c u upto) ms) ≡ (
        if (c == c') && (u == u') && has_row c u ms
        then some (max_watermark (watermark c u ms) upto)
        else watermark c' u' ms)
unfolding watermark advance has_row
watermark-map-advance c u c' u' upto [] = ground arith
watermark-map-advance c u c' u' upto (m ∷ ms) = ground (
  arith,
  watermark-map-advance c u c' u' upto ms,
  eq_iff m.chat_id c,
  eq_iff m.chat_id c',
  eq_iff m.user_id u,
  eq_iff m.user_id u',
  eq_iff c c',
  eq_iff u u',
)

-- An update to a serial of 64 bits moves the watermark of its user in its chat to the greater of the
-- old one and the new, where the user is a member, and leaves every other watermark as it was; one to
-- a serial beyond 64 bits fails and leaves all.
pub watermark-update_last_read_serial :
    (c u c' u' : String) (upto : ℤ) (db : Database)
    → ((update_last_read_serial c u upto db).0 ≡ is_int64 upto)
      × (watermark c' u' (update_last_read_serial c u upto db).1.members ≡ (
          if is_int64 upto && ((c == c') && (u == u') && has_row c u db.members)
          then some (max_watermark (watermark c u db.members) upto)
          else watermark c' u' db.members))
unfolding update_last_read_serial
watermark-update_last_read_serial c u c' u' upto db = elim (Bool-cases (is_int64 upto)) [
  | inl e ↦ rw e (refl, watermark-map-advance c u c' u' upto db.members)
  | inr e ↦ rw e (refl, refl)
]

advance_comm :
    (c u : String) (a b : ℤ) (m : MemberRow)
    → advance c u a (advance c u b m) ≡ advance c u b (advance c u a m)
unfolding advance
advance_comm c u a b m = ground (arith, eq_of_parts a b)

map-advance_comm :
    (c u : String) (a b : ℤ) (ms : List MemberRow)
    → map (advance c u a) (map (advance c u b) ms) ≡ map (advance c u b) (map (advance c u a) ms)
map-advance_comm c u a b [] = refl
map-advance_comm c u a b (m ∷ ms) = cc (advance_comm c u a b m, map-advance_comm c u a b ms)

-- Two read frames of one member leave the same table in whichever order they arrive.
pub update_last_read_serial_comm :
    (c u : String) (a b : ℤ) (db : Database)
    → (update_last_read_serial c u a (update_last_read_serial c u b db).1).1
      ≡ (update_last_read_serial c u b (update_last_read_serial c u a db).1).1
unfolding update_last_read_serial
update_last_read_serial_comm c u a b db = elim (Bool-cases (is_int64 a)) [
  | inr e ↦ rw e refl
  | inl e ↦ elim (Bool-cases (is_int64 b)) [
    | inr f ↦ rw (e, f) refl
    | inl f ↦
        rw (e, f)
          (ap (λ (ms : List MemberRow). record db { members = ms })
            (map-advance_comm c u a b db.members))
  ]
]
