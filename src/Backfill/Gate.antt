-- ===== src/Backfill/Gate.antt =====
-- What a page shows to a user that is no member.
use mathlib.Core.Option
use mortstack.Prelude.{String, ◌≡◌, inl, inr, false, Option, some, [], ℤ, any, arith, Bool-cases}
use mortstack.Js.BigInt.{big_int}
use mortstack.Validators.{BackfillRequest}
use mortstack.Envelope.{BfdFrame}
use mortstack.Persist.{Database, is_member, messages_since}
use mortstack.Backfill.{KvAnswer, skips, page_of, skipped_page, resolve_backfill_page, neon_deps}

abbrev pub empty_frame : BackfillRequest → BfdFrame
empty_frame c = record { chat_id = c.chat_id; messages = []; up_to = c.after; more = false }

-- A user that is no member of the chat gets, whatever the chat holds and the cache says, an empty last page
-- that ends at the cursor asked for, where `BigInt` reads the cursor.
pub resolve_backfill_page-of-stranger :
    (cache : Option (String → KvAnswer)) (db : Database) (user : String) (c : BackfillRequest)
    (a : ℤ)
    → big_int c.after ≡ some a
    → any (is_member c.chat_id user) db.members ≡ false
    → Option.map (λ page. page.frame) (resolve_backfill_page (neon_deps cache db) user c)
      ≡ some (empty_frame c)
unfolding resolve_backfill_page skipped_page page_of neon_deps messages_since
resolve_backfill_page-of-stranger cache db user c a e h =
    elim (Bool-cases (skips (neon_deps cache db) c a)) [
      | inl f ↦ ground (arith, e, f, h)
      | inr f ↦ ground (arith, e, f, h)
    ]
