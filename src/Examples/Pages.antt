-- ===== src/Examples/Pages.antt =====
-- A chat with two rows, read by a member and by a stranger.
use mathlib.Core.Option
use mortstack.Prelude.{ℕ, ◌≡◌, refl, false, none, some, [], ◌∷◌, map, pos, arith}
use mortstack.Js.BigInt.{big_int}
use mortstack.Persist.{Database, MessageRow}
use mortstack.Persist.Serials.{IsDistinct}
use mortstack.Validators.{BackfillRequest}
use mortstack.Backfill.{backfilled, neon_deps, catch_up, resolve_backfill_page}
use mortstack.Backfill.Pending.{pending}
use mortstack.Backfill.CatchUp.{IsCurrent}
use mortstack.Backfill.Complete.{catch_up_complete}
use mortstack.Backfill.Gate.{empty_frame, resolve_backfill_page-of-stranger}

abbrev row : ℕ → MessageRow
row serial = record {
  input = record {
    chat_id = "c";
    server_serial = pos serial;
    sender_id = "ann";
    client_msg_id = "m";
    ciphertext = [];
    nonce = [];
  };
  created_at = serial;
}

abbrev database : Database
database = record {
  messages = row 9 ∷ row 4 ∷ [];
  members = record { chat_id = "c"; user_id = "bob"; last_read_serial = none } ∷ [];
}

two-IsDistinct : IsDistinct "c" database.messages
two-IsDistinct = (((λ a b e. cc e), tt), (tt, tt))

no_cache-IsCurrent : IsCurrent none "c" database
no_cache-IsCurrent = record { covers = λ get text m e. cc e }

abbrev from_start : BackfillRequest
from_start = record { chat_id = "c"; after = "0"; force = false }

catch_up_complete_example :
    catch_up 1 (neon_deps none database) "bob" from_start
    ≡ some (map backfilled (pending "c" (pos 0) database))
unfolding big_int pending mortstack.Js.Sort.sort
catch_up_complete_example =
    catch_up_complete none database "bob" "c" refl two-IsDistinct no_cache-IsCurrent 1 "0" false
      (pos 0) refl (omega arith)

resolve_backfill_page-of-stranger_example :
    Option.map
      (λ page. page.frame)
      (resolve_backfill_page (neon_deps none database) "eve" from_start)
    ≡ some (empty_frame from_start)
unfolding big_int
resolve_backfill_page-of-stranger_example =
    resolve_backfill_page-of-stranger none database "eve" from_start (pos 0) refl refl
