-- ===== src/Push/Deletion.antt =====
-- The deletion of the rows whose ids two lists name.
use mortstack.Prelude.{
  String, ◌≡◌, refl, ◌∙◌, Bool, false, not, ◌==◌, eq_iff, eq_refl, ◌||◌, List, [], ◌∷◌, ◌++◌, map,
  keep_if, All, Pairs, arith,
}
use mortstack.Js.Unique.{member, member-append}
use mortstack.Push.{PushToken, delete_tokens}

abbrev pub HasDistinctIds : List PushToken → Type 0
HasDistinctIds tokens = Pairs (λ x y. (x.id == y.id) ≡ false) tokens

abbrev pub ids : List PushToken → List String
ids ts = map (λ t. t.id) ts

module _ (p : PushToken → Bool) where
  member-ids-absent :
      (x : PushToken) (xs : List PushToken)
      → All (λ y. (x.id == y.id) ≡ false) xs
      → member (ids (keep_if p xs)) x.id ≡ false
  unfolding member
  member-ids-absent x [] h = refl
  member-ids-absent x (y ∷ ys) h =
      ground (arith, h.0, eq_iff x.id y.id, eq_iff y.id x.id, member-ids-absent x ys h.1)

  member-ids_later :
      (x : PushToken) (xs ys : List PushToken)
      → All (λ y. (x.id == y.id) ≡ false) ys
      → All (λ t. member (ids (keep_if p xs)) t.id ≡ p t) ys
      → All (λ t. member (ids (keep_if p (x ∷ xs))) t.id ≡ p t) ys
  unfolding member
  member-ids_later x xs [] h k = tt
  member-ids_later x xs (y ∷ ys) h k = (ground (arith, h.0, k.0), member-ids_later x xs ys h.1 k.1)

  member-ids :
      (xs : List PushToken)
      → HasDistinctIds xs
      → All (λ t. member (ids (keep_if p xs)) t.id ≡ p t) xs
  unfolding member
  member-ids [] h = tt
  member-ids (x ∷ xs) h = (
    ground (arith, eq_refl x.id, member-ids-absent x xs h.0),
    member-ids_later x xs xs h.0 (member-ids xs h.1),
  )

module _ (p q : PushToken → Bool) where
  keep_if_others :
      (xs : List PushToken)
      → All (λ t. p t ≡ q t) xs
      → keep_if (λ t. not (p t)) xs ≡ keep_if (λ t. not (q t)) xs
  keep_if_others [] h = refl
  keep_if_others (x ∷ xs) h = ground (arith, h.0, keep_if_others xs h.1)

module _ (p q r : PushToken → Bool) (splits : (t : PushToken) → r t ≡ (p t || q t))
    (tokens : List PushToken) where
  All-member-append :
      (ts : List PushToken)
      → All (λ t. member (ids (keep_if p tokens)) t.id ≡ p t) ts
      → All (λ t. member (ids (keep_if q tokens)) t.id ≡ q t) ts
      → All (λ t. member (ids (keep_if p tokens) ++ ids (keep_if q tokens)) t.id ≡ r t) ts
  All-member-append [] h k = tt
  All-member-append (t ∷ ts) h k = (
    member-append (ids (keep_if p tokens)) (ids (keep_if q tokens)) t.id
        ∙ ground (arith, h.0, k.0, splits t),
    All-member-append ts h.1 k.1,
  )

  pub delete_tokens-append :
      HasDistinctIds tokens
      → delete_tokens (ids (keep_if p tokens) ++ ids (keep_if q tokens)) tokens
        ≡ keep_if (λ t. not (r t)) tokens
  unfolding delete_tokens
  delete_tokens-append h =
      keep_if_others (λ t. member (ids (keep_if p tokens) ++ ids (keep_if q tokens)) t.id) r tokens
        (All-member-append tokens (member-ids p tokens h) (member-ids q tokens h))
