-- ===== src/Store/Thread.antt =====
-- The messages of a chat as a thread: which serials it has, and in which order they stand.
use mortstack.Prelude.{
  ℕ, String, ◌≡◌, refl, inl, inr, Bool, true, false, not, ◌==◌, eq_iff, ◌&&◌, ◌||◌, Option, none,
  some, List, [], ◌∷◌, ◌++◌, any, arith, Bool-cases, Option-cases,
}
use mortstack.Js.Dict.{get_or}
use mortstack.Js.Sort.{sort, insert, IsConsistent}
use mortstack.Store.{Store, Message}
use mortstack.Store.Messages.{
  has_serial, before_by_serial, before_keys, BackfillItem, additions_of, serials_of,
}
use mortstack.Js.Unique.{member, add, member-add}

abbrev pub thread : String → Store → List Message
thread chat s = get_or s.messages chat []

asymmetric_keys :
    (sa sb : Option String) (ta tb : ℕ)
    → before_keys sa ta sb tb ≡ true
    → before_keys sb tb sa ta ≡ false
unfolding before_keys
asymmetric_keys (some sa) (some sb) ta tb e = ground arith
asymmetric_keys (some sa) none ta tb e = refl
asymmetric_keys none (some sb) ta tb e = cc e
asymmetric_keys none none ta tb e = ground arith

transitive_keys :
    (sa sb sc : Option String) (ta tb tc : ℕ)
    → before_keys sb tb sa ta ≡ false
    → before_keys sc tc sb tb ≡ false
    → before_keys sc tc sa ta ≡ false
unfolding before_keys
transitive_keys (some sa) (some sb) (some sc) ta tb tc e f = ground arith
transitive_keys (some sa) (some sb) none ta tb tc e f = refl
transitive_keys (some sa) none (some sc) ta tb tc e f = cc f
transitive_keys (some sa) none none ta tb tc e f = refl
transitive_keys none (some sb) sc ta tb tc e f = cc e
transitive_keys none none (some sc) ta tb tc e f = cc f
transitive_keys none none none ta tb tc e f = ground arith

pub before-IsConsistent : IsConsistent before_by_serial
before-IsConsistent = record {
  asymmetric = λ x y e. asymmetric_keys x.server_serial y.server_serial x.created_at y.created_at e;
  transitive = λ x y z e f.
      transitive_keys x.server_serial y.server_serial z.server_serial x.created_at y.created_at
        z.created_at e f;
}

any-insert :
    {A : Type 0} (p : A → Bool) (before : A → A → Bool) (x : A) (l : List A)
    → any p (insert before x l) ≡ (p x || any p l)
unfolding insert
any-insert p before x [] = refl
any-insert p before x (y ∷ l) = ground (arith, any-insert p before x l)

pub any-sort :
    {A : Type 0} (p : A → Bool) (before : A → A → Bool) (l : List A)
    → any p (sort before l) ≡ any p l
unfolding sort
any-sort p before [] = refl
any-sort p before (x ∷ l) =
    ground (arith, any-insert p before x (sort before l), any-sort p before l)

pub any-append :
    {A : Type 0} (p : A → Bool) (xs ys : List A) → any p (xs ++ ys) ≡ (any p xs || any p ys)
any-append p [] ys = refl
any-append p (x ∷ xs) ys = ground (arith, any-append p xs ys)

pub any-serials_of :
    (k : String) (l : List Message) → member (serials_of l) k ≡ any (has_serial k) l
unfolding serials_of member
any-serials_of k [] = refl
any-serials_of k (m ∷ l) = elim (Option-cases m.server_serial) [
  | inl e ↦ ground (arith, e, any-serials_of k l)
  | inr (serial, e) ↦ ground (arith, e, any-serials_of k l)
]

abbrev pub is_item : String → BackfillItem → Bool
is_item k i = i.server_msg_id == k

-- The additions bring the serials of the page that were not seen.
pub any-additions_of :
    (chat k : String) (seen : List String) (msgs : List BackfillItem)
    → any (has_serial k) (additions_of chat seen msgs)
      ≡ (not (member seen k) && any (is_item k) msgs)
unfolding additions_of
any-additions_of chat k seen [] = ground arith
any-additions_of chat k seen (m ∷ msgs) = elim (Bool-cases (member seen m.server_msg_id)) [
  | inl e ↦ ground (arith, e, any-additions_of chat k seen msgs, eq_iff m.server_msg_id k)
  | inr e ↦ ground (
    arith,
    e,
    any-additions_of chat k (add m.server_msg_id seen) msgs,
    member-add m.server_msg_id k seen,
    eq_iff m.server_msg_id k,
  )
]
