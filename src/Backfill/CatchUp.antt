-- ===== src/Backfill/CatchUp.antt =====
-- One page of a member: a skip, the last page, or a page with more to come.
use Prim.Native.String.{◌++◌ as concat}
use mortstack.Prelude.{
  ℕ, zero, suc, ◌-◌, String, ◌≡◌, refl, ap, inl, inr, true, false, Option, none, some, List, [],
  ◌∷◌, map, ℤ, ◌≤ℤ◌, ltb, length, take, drop, get_last?, any, All, arith, Option-cases,
}
use mortstack.Js.BigInt.{big_int, print_int}
use mortstack.Validators.{BackfillRequest}
use mortstack.Persist.{MessageRow, Database, in_chat, is_member}
use mortstack.Backfill.{
  KvAnswer, failed, missing, found, kv_covers, skips, backfilled, page_of, skipped_page,
  resolve_backfill_page, neon_deps, backfill_page_size,
}
use mortstack.Backfill.Pending.{pending, pending_none, messages_since_of_member}

-- The cached maximum is not behind the table. (A missing entry, or one that cannot be read, is current.)
pub record IsCurrent (cache : Option (String → KvAnswer)) (chat : String) (db : Database)
    : Type 0 where
  pub covers :
      (get : String → KvAnswer) (text : String) (m : ℤ)
      → cache ≡ some get
      → get (concat "chatmax:" chat) ≡ found text
      → big_int text ≡ some m
      → All (λ r. in_chat chat r ≡ true → r.server_serial ≤ℤ m) db.messages

take-take-suc : (n : ℕ) (l : List MessageRow) → take n (take (suc n) l) ≡ take n l
take-take-suc zero l = refl
take-take-suc (suc n) [] = refl
take-take-suc (suc n) (x ∷ l) = ap (◌∷◌ x) (take-take-suc n l)

more_iff : (n : ℕ) (l : List MessageRow) → ltb n (length (take (suc n) l)) ≡ ltb n (length l)
more_iff zero [] = refl
more_iff zero (x ∷ l) = ground arith
more_iff (suc n) [] = refl
more_iff (suc n) (x ∷ l) = ground (arith, more_iff n l)

take_whole : (n : ℕ) (l : List MessageRow) → ltb n (length l) ≡ false → take (suc n) l ≡ l
take_whole zero [] h = refl
take_whole zero (x ∷ l) h = ground arith
take_whole (suc n) [] h = refl
take_whole (suc n) (x ∷ l) h = ap (◌∷◌ x) (take_whole n l (ground arith))

pub length-drop : (n : ℕ) (l : List MessageRow) → length (drop n l) ≡ length l - n
length-drop zero l = omega arith
length-drop (suc n) [] = omega arith
length-drop (suc n) (x ∷ l) = omega (arith, length-drop n l)

pub page_of-last :
    (c : BackfillRequest) (l : List MessageRow)
    → ltb backfill_page_size (length l) ≡ false
    → ((page_of c (take (suc backfill_page_size) l)).frame.messages ≡ map backfilled l)
      × ((page_of c (take (suc backfill_page_size) l)).frame.more ≡ false)
unfolding page_of
page_of-last c l h = rw (take_whole backfill_page_size l h, h) (refl, refl)

pub page_of-more :
    (c : BackfillRequest) (l : List MessageRow) (s : MessageRow)
    → ltb backfill_page_size (length l) ≡ true
    → get_last? (take backfill_page_size l) ≡ some s
    → page_of c (take (suc backfill_page_size) l) ≡ record {
      frame = record {
        chat_id = c.chat_id;
        messages = map backfilled (take backfill_page_size l);
        up_to = print_int s.server_serial;
        more = true;
      };
      skipped = false;
      rows = length (take backfill_page_size l);
    }
unfolding page_of
page_of-more c l s h e =
    rw (more_iff backfill_page_size l, h, take-take-suc backfill_page_size l, e) refl

kv_covers-bound :
    (k : KvAnswer) (a : ℤ)
    → kv_covers k a ≡ true
    → (text : String) × (m : ℤ) × (k ≡ found text) × (big_int text ≡ some m) × (m ≤ℤ a)
unfolding kv_covers
kv_covers-bound failed a h = absurd (cc h)
kv_covers-bound missing a h = absurd (cc h)
kv_covers-bound (found text) a h = elim (Option-cases (big_int text)) [
  | inl e ↦ absurd (ground (arith, e))
  | inr (m, e) ↦ (text, m, refl, e, ground (arith, e))
]

skips-bound :
    (cache : Option (String → KvAnswer)) (db : Database) (c : BackfillRequest) (a : ℤ)
    → skips (neon_deps cache db) c a ≡ true
    → (get : String → KvAnswer) × (cache ≡ some get)
      × (kv_covers (get (concat "chatmax:" c.chat_id)) a ≡ true)
unfolding skips neon_deps
skips-bound none db c a h = absurd (ground arith)
skips-bound (some get) db c a h = (get, refl, ground arith)

module _ (cache : Option (String → KvAnswer)) (db : Database) (user : String) where
  -- A skip means that nothing is pending.
  pub skips-current :
      (c : BackfillRequest) (a : ℤ)
      → IsCurrent cache c.chat_id db
      → skips (neon_deps cache db) c a ≡ true
      → pending c.chat_id a db ≡ []
  skips-current c a k h =
      let (get, e, covered) = skips-bound cache db c a h in
      let (text, m, f, g, le) = kv_covers-bound (get (concat "chatmax:" c.chat_id)) a covered in
      pending_none c.chat_id m a db le (k.covers get text m e f g)

  pub resolve_of_read :
      (c : BackfillRequest) (a : ℤ)
      → big_int c.after ≡ some a
      → any (is_member c.chat_id user) db.members ≡ true
      → skips (neon_deps cache db) c a ≡ false
      → resolve_backfill_page (neon_deps cache db) user c
        ≡ some (page_of c (take (suc backfill_page_size) (pending c.chat_id a db)))
  unfolding resolve_backfill_page neon_deps
  resolve_of_read c a e m h = ground (arith, messages_since_of_member c.chat_id user a 201 db m)

  pub resolve_of_skip :
      (c : BackfillRequest) (a : ℤ)
      → big_int c.after ≡ some a
      → skips (neon_deps cache db) c a ≡ true
      → resolve_backfill_page (neon_deps cache db) user c ≡ some (skipped_page c)
  unfolding resolve_backfill_page
  resolve_of_skip c a e h = ground arith
