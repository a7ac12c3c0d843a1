-- ===== src/Js/Sort.antt =====
-- `xs.sort(compare)`, which is stable; `before y x` is `compare(y, x) < 0`.
use mathlib.Core.List.{Perm}
use mathlib.Core.List.Perm
use mortstack.Prelude.{
  ◌≡◌, Bool, true, false, inl, inr, List, [], ◌∷◌, All, Pairs, Bool-cases, if◌then◌else◌,
}

module _ {ℓ} {A : Type ℓ} where
  unfoldable pub insert : (A → A → Bool) → A → List A → List A
  insert before x [] = x ∷ []
  insert before x (y ∷ ys) =
      let rest = insert before x ys in if before y x then y ∷ rest else x ∷ y ∷ ys

  unfoldable pub sort : (A → A → Bool) → List A → List A
  unfolding insert
  sort before [] = []
  sort before (x ∷ xs) = insert before x (sort before xs)

  -- No later entry belongs before an earlier one.
  abbrev pub IsSorted : (A → A → Bool) → List A → Type 0
  IsSorted before = Pairs (λ x y. before y x ≡ false)

  pub insert-perm : (before : A → A → Bool) (x : A) (l : List A) → Perm (insert before x l) (x ∷ l)
  unfolding insert
  insert-perm before x [] = Perm.refl (x ∷ [])
  insert-perm before x (y ∷ ys) = elim (Bool-cases (before y x)) [
    | inl e ↦ rw e (Perm.trans (Perm.cons y (insert-perm before x ys)) (Perm.swap x y ys))
    | inr e ↦ rw e (Perm.refl (x ∷ y ∷ ys))
  ]

  -- Sorting loses no entry and makes none up.
  pub sort-perm : (before : A → A → Bool) (l : List A) → Perm (sort before l) l
  unfolding sort
  sort-perm before [] = Perm.refl []
  sort-perm before (x ∷ xs) =
      Perm.trans (insert-perm before x (sort before xs)) (Perm.cons x (sort-perm before xs))

  module _ {κ} (P : A → Type κ) (before : A → A → Bool) where
    insert-All : (x : A) (l : List A) → P x → All P l → All P (insert before x l)
    unfolding insert
    insert-All x [] p h = (p, tt)
    insert-All x (y ∷ ys) p h = elim (Bool-cases (before y x)) [
      | inl e ↦ rw e (h.0, insert-All x ys p h.1)
      | inr e ↦ rw e (p, h)
    ]

    pub sort-All : (l : List A) → All P l → All P (sort before l)
    unfolding sort
    sort-All [] h = tt
    sort-All (x ∷ xs) h = insert-All x (sort before xs) h.0 (sort-All xs h.1)

-- A comparison that never puts two entries both ways, and whose "not before" is transitive.
pub record IsConsistent {ℓ} {A : Type ℓ} (before : A → A → Bool) : Type ℓ where
  pub asymmetric : (x y : A) → before x y ≡ true → before y x ≡ false
  pub transitive : (x y z : A) → before y x ≡ false → before z y ≡ false → before z x ≡ false

module _ {ℓ} {A : Type ℓ} (before : A → A → Bool) (c : IsConsistent before) where
  below-All :
      (x y : A) (l : List A)
      → before y x ≡ false
      → All (λ z. before z y ≡ false) l
      → All (λ z. before z x ≡ false) l
  below-All x y [] e h = tt
  below-All x y (z ∷ l) e h = (c.transitive x y z e h.0, below-All x y l e h.1)

  insert-IsSorted : (x : A) (l : List A) → IsSorted before l → IsSorted before (insert before x l)
  unfolding insert
  insert-IsSorted x [] h = (tt, tt)
  insert-IsSorted x (y ∷ ys) h = elim (Bool-cases (before y x)) [
    | inl e ↦ rw e (
      insert-All (λ z. before z y ≡ false) before x ys (c.asymmetric y x e) h.0,
      insert-IsSorted x ys h.1,
    )
    | inr e ↦ rw e ((e, below-All x y ys e h.0), h)
  ]

  pub sort-IsSorted : (l : List A) → IsSorted before (sort before l)
  unfolding sort
  sort-IsSorted [] = tt
  sort-IsSorted (x ∷ xs) = insert-IsSorted x (sort before xs) (sort-IsSorted xs)

-- Sorting keeps a relation that holds, either way round, between any two entries.
module _ {ℓ κ} {A : Type ℓ} (R : A → A → Type κ) (flip : (x y : A) → R x y → R y x)
    (before : A → A → Bool) where
  insert-Pairs : (x : A) (l : List A) → All (R x) l → Pairs R l → Pairs R (insert before x l)
  unfolding insert
  insert-Pairs x [] h k = (tt, tt)
  insert-Pairs x (y ∷ ys) h k = elim (Bool-cases (before y x)) [
    | inl e ↦ rw e (insert-All (R y) before x ys (flip x y h.0) k.0, insert-Pairs x ys h.1 k.1)
    | inr e ↦ rw e (h, k)
  ]

  pub sort-Pairs : (l : List A) → Pairs R l → Pairs R (sort before l)
  unfolding sort
  sort-Pairs [] k = tt
  sort-Pairs (x ∷ xs) k =
      insert-Pairs x (sort before xs) (sort-All (R x) before xs k.0) (sort-Pairs xs k.1)
