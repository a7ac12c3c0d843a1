-- ===== src/Backfill/Complete.antt =====
-- What a client gets by paging until `more` is false.
use mathlib.Core.List.{map-append}
use mortstack.Prelude.{
  ℕ, zero, suc, ◌-◌, ◌*◌, ◌<◌, String, ◌≡◌, refl, ap, sym, ◌∙◌, inl, inr, Bool, true, false, Option,
  some, List, [], ◌∷◌, ◌++◌, map, ℤ, ◌<ℤ◌, ltb, length, take, drop, get_last?, any,
  take-append-drop, arith, Bool-cases,
}
use mortstack.Js.BigInt.{big_int, print_int}
use mortstack.Js.BigInt.RoundTrip.{big_int-print_int}
use mortstack.Envelope.{BackfilledMessage}
use mortstack.Validators.{BackfillRequest}
use mortstack.Persist.{MessageRow, Database, is_member}
use mortstack.Persist.Serials.{IsDistinct}
use mortstack.Backfill.{
  KvAnswer, BackfillDeps, BackfillPageResult, skips, backfilled, skipped_page,
  resolve_backfill_page, neon_deps, catch_up,
}
use mortstack.Backfill.Pending.{pending, pending-IsAscending, pending-past, pending-All-past}
use mortstack.Backfill.Page.{last_of_All, keep_if-past_last, get_last?-of-cons}
use mortstack.Backfill.CatchUp.{
  skips-current, resolve_of_read, resolve_of_skip, IsCurrent, length-drop, page_of-last,
  page_of-more,
}

module _ (deps : BackfillDeps) (user : String) (c : BackfillRequest) (p : BackfillPageResult)
    (answer : resolve_backfill_page deps user c ≡ some p) (fuel : ℕ) where
  catch_up-last : p.frame.more ≡ false → catch_up (suc fuel) deps user c ≡ some p.frame.messages
  unfolding catch_up
  catch_up-last e = ground (arith, answer, e)

  catch_up-more :
      (later : List BackfilledMessage)
      → p.frame.more ≡ true
      → catch_up fuel deps user
          (record { chat_id = p.frame.chat_id; after = p.frame.up_to; force = false })
        ≡ some later
      → catch_up (suc fuel) deps user c ≡ some (p.frame.messages ++ later)
  unfolding catch_up
  catch_up-more later e f = ground (arith, answer, e, f)

lt_of_ltb : (n k : ℕ) → ltb k n ≡ true → k < n
lt_of_ltb n k h = ground arith

page_less : (n fuel : ℕ) → ltb 200 n ≡ true → n < 200 * suc fuel → n - 200 < 200 * fuel
page_less n fuel h k = omega (arith, lt_of_ltb n 200 h)

last_served :
    (n : ℕ) (l : List MessageRow)
    → ltb n (length l) ≡ true
    → (0 < n)
    → (s : MessageRow) × (get_last? (take n l) ≡ some s)
last_served zero l h k = absurd (omega arith)
last_served (suc n) [] h k = absurd (ground arith)
last_served (suc n) (x ∷ l) h k = get_last?-of-cons n x l

module _ (cache : Option (String → KvAnswer)) (db : Database) (user chat : String)
    (member : any (is_member chat user) db.members ≡ true) (distinct : IsDistinct chat db.messages)
    (current : IsCurrent cache chat db) where
  abbrev request : String → Bool → BackfillRequest
  request after force = record { chat_id = chat; after = after; force = force }

  -- What is pending past the last row that a page serves is what the page left.
  pending-last :
      (a : ℤ) (s : MessageRow)
      → get_last? (take 200 (pending chat a db)) ≡ some s
      → pending chat s.server_serial db ≡ drop 200 (pending chat a db)
  pending-last a s e =
      let past_a =
        last_of_All (λ r. a <ℤ r.server_serial) 200 (pending chat a db) s
          (pending-All-past chat a db) e in
      sym (pending-past chat a s.server_serial db (omega arith))
      ∙ keep_if-past_last 200 (pending chat a db) s (pending-IsAscending chat a db distinct) e

  served_append :
      (l : List MessageRow)
      → map backfilled (take 200 l) ++ map backfilled (drop 200 l) ≡ map backfilled l
  served_append l =
      sym (map-append backfilled (take 200 l) (drop 200 l))
      ∙ ap (map backfilled) (take-append-drop 200 l)

  length_rest :
      (a : ℤ) (s : MessageRow) (fuel : ℕ)
      → ltb 200 (length (pending chat a db)) ≡ true
      → pending chat s.server_serial db ≡ drop 200 (pending chat a db)
      → length (pending chat a db) < 200 * suc fuel
      → length (pending chat s.server_serial db) < 200 * fuel
  length_rest a s fuel more rest h =
      rw rest (rw (length-drop 200 (pending chat a db)) (page_less _ fuel more h))

  skip_case :
      (fuel : ℕ) (after : String) (force : Bool) (a : ℤ)
      → big_int after ≡ some a
      → skips (neon_deps cache db) (request after force) a ≡ true
      → catch_up (suc fuel) (neon_deps cache db) user (request after force)
        ≡ some (map backfilled (pending chat a db))
  unfolding skipped_page
  skip_case fuel after force a e h =
      let c = request after force in
      rw (skips-current cache db user c a current h) (
        catch_up-last (neon_deps cache db) user c (skipped_page c)
          (resolve_of_skip cache db user c a e h) fuel refl)

  last_case :
      (fuel : ℕ) (after : String) (force : Bool) (a : ℤ)
      → big_int after ≡ some a
      → skips (neon_deps cache db) (request after force) a ≡ false
      → ltb 200 (length (pending chat a db)) ≡ false
      → catch_up (suc fuel) (neon_deps cache db) user (request after force)
        ≡ some (map backfilled (pending chat a db))
  last_case fuel after force a e h last =
      let c = request after force in
      let (served, no_more) = page_of-last c (pending chat a db) last in
      catch_up-last (neon_deps cache db) user c _ (resolve_of_read cache db user c a e member h)
        fuel no_more
      ∙ ap some served

  more_case :
      (fuel : ℕ) (after : String) (force : Bool) (a : ℤ) (s : MessageRow)
      → big_int after ≡ some a
      → skips (neon_deps cache db) (request after force) a ≡ false
      → ltb 200 (length (pending chat a db)) ≡ true
      → get_last? (take 200 (pending chat a db)) ≡ some s
      → catch_up fuel (neon_deps cache db) user (request (print_int s.server_serial) false)
        ≡ some (map backfilled (pending chat s.server_serial db))
      → pending chat s.server_serial db ≡ drop 200 (pending chat a db)
      → catch_up (suc fuel) (neon_deps cache db) user (request after force)
        ≡ some (map backfilled (pending chat a db))
  more_case fuel after force a s e h more is_last later rest =
      let c = request after force in
      let page = page_of-more c (pending chat a db) s more is_last in
      catch_up-more (neon_deps cache db) user c _
        (resolve_of_read cache db user c a e member h ∙ ap some page) fuel
        (map backfilled (pending chat s.server_serial db)) refl later
      ∙ ap some (
          ap (λ l. map backfilled (take 200 (pending chat a db)) ++ map backfilled l) rest
          ∙ served_append (pending chat a db))

  -- What a client gets that pages until `more` is false, as a member of the chat, from a cursor that
  -- `BigInt` reads, where no serial comes twice in the chat and the cached maximum is not behind:
  -- with fuel for one page in 200 rows, every row of the chat past the cursor, once, in serial order.
  pub catch_up_complete :
      (fuel : ℕ) (after : String) (force : Bool) (a : ℤ)
      → big_int after ≡ some a
      → length (pending chat a db) < 200 * fuel
      → catch_up fuel (neon_deps cache db) user (request after force)
        ≡ some (map backfilled (pending chat a db))
  catch_up_complete zero after force a e h = absurd (omega arith)
  catch_up_complete (suc fuel) after force a e h =
      let c = request after force in
      elim (Bool-cases (skips (neon_deps cache db) c a)) [
        | inl skipped ↦ skip_case fuel after force a e skipped
        | inr reads ↦ elim (Bool-cases (ltb 200 (length (pending chat a db)))) [
          | inr last ↦ last_case fuel after force a e reads last
          | inl more ↦
              let (s, is_last) = last_served 200 (pending chat a db) more (omega arith) in
              let rest = pending-last a s is_last in
              more_case fuel after force a s e reads more is_last
                (catch_up_complete fuel (print_int s.server_serial) false s.server_serial
                  (big_int-print_int s.server_serial) (length_rest a s fuel more rest h))
                rest
        ]
      ]
