-- ===== src/Store/Ingest.antt =====
-- What a page of backfill does to a thread.
use mathlib.Core.List.{Perm, append-nil}
use mathlib.Core.List.Perm
use mathlib.Core.Path.{subst}
use mortstack.Prelude.{
  String, ◌≡◌, refl, sym, ap, ◌∙◌, ◌⊎◌, inl, inr, Bool, true, false, eq_iff, ◌&&◌, ◌||◌, none, some,
  List, [], ◌∷◌, ◌++◌, any, all, All, All-append, Pairs, arith, Bool-cases, if◌then◌else◌,
}
use mortstack.Js.Dict.{get_or, put, get-put}
use mortstack.Js.BigInt.{big_int}
use mortstack.Js.Sort.{sort, IsSorted, sort-IsSorted, sort-Pairs, sort-perm}
use mortstack.Js.Unique.{member, add, member-add, of_array, member-of_array}
use mortstack.Store.{Store, Message, fire_persist}
use mortstack.Store.Messages.{
  has_serial, is_readable, before_by_serial, received, BackfillItem, additions_of, serials_of,
  sort_throws, merge, persist_all, ingest_backfill,
}
use mortstack.Store.Thread.{
  thread, before-IsConsistent, any-sort, any-append, any-serials_of, any-additions_of, is_item,
}

-- The two messages do not share a serial.
abbrev pub Differ : Message → Message → Type 0
Differ a b = (k : String) → has_serial k a ≡ true → has_serial k b ≡ false

abbrev pub IsUniqueSerials : List Message → Type 0
IsUniqueSerials = Pairs Differ

Differ-flip : (a b : Message) → Differ a b → Differ b a
Differ-flip a b h k e = elim (Bool-cases (has_serial k a)) [
  | inl f ↦ absurd (cc (e, h k f))
  | inr f ↦ f
]

Differ-All :
    (x : Message) (ys : List Message)
    → ((k : String) → has_serial k x ≡ true → any (has_serial k) ys ≡ false)
    → All (Differ x) ys
Differ-All x [] h = tt
Differ-All x (y ∷ ys) h =
    (λ k e. ground (arith, h k e), Differ-All x ys (λ k e. ground (arith, h k e)))

append_unique :
    (xs ys : List Message)
    → IsUniqueSerials xs
    → IsUniqueSerials ys
    → ((k : String) → any (has_serial k) xs ≡ true → any (has_serial k) ys ≡ false)
    → IsUniqueSerials (xs ++ ys)
append_unique [] ys a b h = b
append_unique (x ∷ xs) ys a b h = (
  All-append (Differ x) xs ys a.0 (Differ-All x ys (λ k e. h k (ground arith))),
  append_unique xs ys a.1 b (λ k e. h k (ground arith)),
)

additions_unique :
    (chat : String) (seen : List String) (msgs : List BackfillItem)
    → IsUniqueSerials (additions_of chat seen msgs)
unfolding additions_of
additions_unique chat seen [] = tt
additions_unique chat seen (m ∷ msgs) = elim (Bool-cases (member seen m.server_msg_id)) [
  | inl e ↦ rw e (additions_unique chat seen msgs)
  | inr e ↦ rw e (
    Differ-All (received chat m.server_msg_id m.sender_auth_user_id m.text m.ts)
        (additions_of chat (add m.server_msg_id seen) msgs)
        (λ k f. ground (
          arith,
          any-additions_of chat k (add m.server_msg_id seen) msgs,
          member-add m.server_msg_id k seen,
          eq_iff m.server_msg_id k,
          f,
        )),
    additions_unique chat (add m.server_msg_id seen) msgs,
  )
]

abbrev pub is_readable_item : BackfillItem → Bool
is_readable_item m = elim (big_int m.server_msg_id) [ none ↦ false | some n ↦ true ]

additions-readable :
    (chat : String) (seen : List String) (msgs : List BackfillItem)
    → all is_readable_item msgs ≡ true
    → all is_readable (additions_of chat seen msgs) ≡ true
unfolding additions_of
additions-readable chat seen [] h = refl
additions-readable chat seen (m ∷ msgs) h = ground (
  arith,
  additions-readable chat seen msgs,
  additions-readable chat (add m.server_msg_id seen) msgs,
)

all-append :
    {A : Type 0} (p : A → Bool) (xs ys : List A) → all p (xs ++ ys) ≡ (all p xs && all p ys)
all-append p [] ys = refl
all-append p (x ∷ xs) ys = ground (arith, all-append p xs ys)

messages-persist_all : (l : List Message) (s : Store) → (persist_all l s).messages ≡ s.messages
unfolding persist_all
messages-persist_all [] s = refl
messages-persist_all (m ∷ l) s = messages-persist_all l (fire_persist m s) ∙ fired s.has_persist_api
  where
    fired :
        (b : Bool)
        → (if b then record s { persisted = s.persisted ++ m ∷ [] } else s).messages ≡ s.messages
    fired true = refl
    fired false = refl

sort_runs : (l : List Message) → all is_readable l ≡ true → sort_throws l ≡ false
unfolding sort_throws
sort_runs l h = ground (arith, h)

thread-put :
    (chat : String) (l : List Message) (added : List Message) (s : Store)
    → thread chat (persist_all added (record s { messages = put chat l s.messages })) ≡ l
thread-put chat l added s =
    ap (λ m. get_or m chat [])
      (messages-persist_all added (record s { messages = put chat l s.messages }))
    ∙ ground (arith, get-put chat chat l s.messages, eq_iff chat chat)

-- The thread after a merge of additions that can be read.
merged :
    (chat : String) (added : List Message) (s : Store)
    → all is_readable (thread chat s ++ added) ≡ true
    → IsSorted before_by_serial (thread chat s)
    → (t : Store) × (merge chat (thread chat s) added s ≡ some t)
      × ((thread chat t ≡ sort before_by_serial (thread chat s ++ added))
          ⊎ ((added ≡ []) × (thread chat t ≡ thread chat s)))
unfolding merge
merged chat [] s h k = (s, refl, inr (refl, refl))
merged chat (m ∷ added) s h k =
    let l = thread chat s ++ m ∷ added in
    (
      persist_all (m ∷ added)
          (record s { messages = put chat (sort before_by_serial l) s.messages }),
      rw (sort_runs l h) refl,
      inl (thread-put chat (sort before_by_serial l) (m ∷ added) s),
    )

-- What holds of the thread that a merge gives.
pub record IsMerged (chat : String) (msgs : List BackfillItem) (s t : Store) : Type 0 where
  pub serials :
      (k : String)
      → any (has_serial k) (thread chat t)
        ≡ (any (has_serial k) (thread chat s) || any (is_item k) msgs)
  pub sorted : IsSorted before_by_serial (thread chat t)
  pub unique : IsUniqueSerials (thread chat t)
  pub kept : (added : List Message) × Perm (thread chat t) (thread chat s ++ added)

module _ (chat : String) (msgs : List BackfillItem) (s t : Store)
    (unique : IsUniqueSerials (thread chat s)) where
  abbrev added : List Message
  added = additions_of chat (of_array (serials_of (thread chat s))) msgs

  serials_added :
      (k : String)
      → any (has_serial k) (thread chat s ++ added)
        ≡ (any (has_serial k) (thread chat s) || any (is_item k) msgs)
  serials_added k = ground (
    arith,
    any-append (has_serial k) (thread chat s) added,
    any-additions_of chat k (of_array (serials_of (thread chat s))) msgs,
    member-of_array (serials_of (thread chat s)) k,
    any-serials_of k (thread chat s),
  )

  unique_added : IsUniqueSerials (thread chat s ++ added)
  unique_added =
      append_unique (thread chat s) added unique
        (additions_unique chat (of_array (serials_of (thread chat s))) msgs)
        (λ k e. ground (
          arith,
          any-additions_of chat k (of_array (serials_of (thread chat s))) msgs,
          member-of_array (serials_of (thread chat s)) k,
          any-serials_of k (thread chat s),
          e,
        ))

  IsMerged-sort :
      thread chat t ≡ sort before_by_serial (thread chat s ++ added) → IsMerged chat msgs s t
  IsMerged-sort e = record {
    serials = λ k.
        ap (any (has_serial k)) e
        ∙ any-sort (has_serial k) before_by_serial (thread chat s ++ added)
        ∙ serials_added k;
    sorted = rw e (sort-IsSorted before_by_serial before-IsConsistent (thread chat s ++ added));
    unique =
        rw e (sort-Pairs Differ Differ-flip before_by_serial (thread chat s ++ added) unique_added);
    kept = (added, rw e (sort-perm before_by_serial (thread chat s ++ added)));
  }

  IsMerged-none :
      IsSorted before_by_serial (thread chat s)
      → added ≡ []
      → thread chat t ≡ thread chat s
      → IsMerged chat msgs s t
  IsMerged-none h e f = record {
    serials = λ k.
        ap (any (has_serial k))
          (f ∙ sym (append-nil (thread chat s)) ∙ ap (λ l. thread chat s ++ l) (sym e))
        ∙ serials_added k;
    sorted = rw f h;
    unique = rw f unique;
    kept = (
      [],
      rw f (
          subst (λ l. Perm (thread chat s) l) (sym (append-nil (thread chat s)))
            (Perm.refl (thread chat s))),
    );
  }

-- A page of backfill with serials that `BigInt` reads, over a thread of such serials that is sorted
-- and has none twice, is ingested without an exception. The thread then has the serials that it had and those of
-- the page, is sorted, has none twice, and still holds every message that it held.
pub ingest_backfill_merges :
    (chat : String) (msgs : List BackfillItem) (s : Store)
    → all is_readable (thread chat s) ≡ true
    → all is_readable_item msgs ≡ true
    → IsSorted before_by_serial (thread chat s)
    → IsUniqueSerials (thread chat s)
    → (t : Store) × (ingest_backfill chat msgs s ≡ some t) × IsMerged chat msgs s t
unfolding ingest_backfill
ingest_backfill_merges chat msgs s h k sorted unique =
    let new = additions_of chat (of_array (serials_of (thread chat s))) msgs in
    let readable : all is_readable (thread chat s ++ new) ≡ true =
      all-append is_readable (thread chat s) new
      ∙ rw (h, additions-readable chat (of_array (serials_of (thread chat s))) msgs k) refl in
    let (t, e, outcome) = merged chat new s readable sorted in
    elim outcome [
      | inl f ↦ (t, e, IsMerged-sort chat msgs s t unique f)
      | inr (f, g) ↦ (t, e, IsMerged-none chat msgs s t unique sorted f g)
    ]
