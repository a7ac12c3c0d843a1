-- ===== src/Store/Marks.antt =====
-- What the read marks come to.
use mortstack.Prelude.{
  String, ◌≡◌, refl, ap, ◌∙◌, inl, inr, Bool, true, false, ◌&&◌, ◌==◌, eq_iff, Option, none, some,
  [], ℤ, ltb_ℤ, arith, Bool-cases, if◌then◌else◌,
}
use mortstack.Js.Dict.{get, get_or, put, get-put}
use mortstack.Js.BigInt.{big_int}
use mortstack.Store.{Store}
use mortstack.Store.Presence.{advances, set_read_receipt}

-- How far the user has read the chat.
abbrev pub mark_text : String → String → Store → Option String
mark_text chat user s = get (get_or s.read_receipts chat []) user

abbrev pub value_of : Option String → Option ℤ
value_of none = none
value_of (some text) = big_int text

abbrev pub read_mark : String → String → Store → Option ℤ
read_mark chat user s = value_of (mark_text chat user s)

-- The greater of a mark and a serial.
abbrev pub advanced_to : Option ℤ → ℤ → ℤ
advanced_to none u = u
advanced_to (some c) u = if ltb_ℤ c u then u else c

-- `none` is a text that `BigInt` does not read.
abbrev pub IsMark : Option String → Type 0
IsMark none = Unit
IsMark (some text) = (c : ℤ) × (big_int text ≡ some c)

mark-put :
    (chat user chat' user' upto : String) (s : Store)
    → mark_text chat' user' (record s {
      read_receipts = put chat (put user upto (get_or s.read_receipts chat [])) s.read_receipts;
    })
      ≡ (if (chat == chat') && (user == user') then some upto else mark_text chat' user' s)
mark-put chat user chat' user' upto s = ground (
  arith,
  get-put chat chat' (put user upto (get_or s.read_receipts chat [])) s.read_receipts,
  get-put user user' upto (get_or s.read_receipts chat []),
  eq_iff chat chat',
  eq_iff user user',
)

same_mark :
    (chat user chat' user' : String) (s : Store)
    → ((chat == chat') && (user == user')) ≡ true
    → mark_text chat' user' s ≡ mark_text chat user s
same_mark chat user chat' user' s h =
    let p : chat' ≡ chat = ground (arith, eq_iff chat chat') in
    let q : user' ≡ user = ground (arith, eq_iff user user') in cc (p, q)

module _ (chat user upto : String) (u : ℤ) (s : Store) (readable : big_int upto ≡ some u) where
  abbrev marked : Store
  marked = record s {
    read_receipts = put chat (put user upto (get_or s.read_receipts chat [])) s.read_receipts;
  }

  value-marked :
      (chat' user' : String)
      → read_mark chat' user' marked
        ≡ (if (chat == chat') && (user == user') then some u else read_mark chat' user' s)
  value-marked chat' user' =
      ap value_of (mark-put chat user chat' user' upto s)
      ∙ value_of_if ((chat == chat') && (user == user'))
    where
      value_of_if :
          (b : Bool)
          → value_of (if b then some upto else mark_text chat' user' s)
            ≡ (if b then some u else read_mark chat' user' s)
      value_of_if true = readable
      value_of_if false = refl

  set_when :
      (o : Option String) (b : Bool)
      → mark_text chat user s ≡ o
      → advances o upto ≡ some b
      → set_read_receipt chat user upto s ≡ (if b then marked else s)
  unfolding set_read_receipt
  set_when o b e f = ground (arith, e, f)

  same_value :
      (chat' user' : String) (v : Option ℤ)
      → read_mark chat user s ≡ v
      → read_mark chat' user' s
        ≡ (if (chat == chat') && (user == user') then v else read_mark chat' user' s)
  same_value chat' user' v e = elim (Bool-cases ((chat == chat') && (user == user'))) [
    | inl h ↦ rw h (ap value_of (same_mark chat user chat' user' s h) ∙ e)
    | inr h ↦ rw h refl
  ]

  max_when :
      (o : Option String) (chat' user' : String)
      → mark_text chat user s ≡ o
      → IsMark o
      → read_mark chat' user' (set_read_receipt chat user upto s) ≡ (
          if (chat == chat') && (user == user')
          then some (advanced_to (value_of o) u)
          else read_mark chat' user' s)
  unfolding advances
  max_when none chat' user' e k = rw (set_when none true e refl) (value-marked chat' user')
  max_when (some text) chat' user' e (c, f) = elim (Bool-cases (ltb_ℤ c u)) [
    | inl h ↦
        rw (set_when (some text) true e (ground (arith, f, readable, h)), f, h)
          (value-marked chat' user')
    | inr h ↦
        rw (set_when (some text) false e (ground (arith, f, readable, h)), f, h)
          (same_value chat' user' (some c) (ap value_of e ∙ f))
  ]

  -- A read receipt whose serial `BigInt` reads, over a mark that it reads or none, takes the user's
  -- mark in the chat to the greater of the two, and leaves every other mark.
  pub set_read_receipt_max :
      (chat' user' : String)
      → IsMark (mark_text chat user s)
      → read_mark chat' user' (set_read_receipt chat user upto s) ≡ (
          if (chat == chat') && (user == user')
          then some (advanced_to (read_mark chat user s) u)
          else read_mark chat' user' s)
  set_read_receipt_max chat' user' k = max_when (mark_text chat user s) chat' user' refl k
