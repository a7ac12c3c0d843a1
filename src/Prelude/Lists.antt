-- ===== src/Prelude/Lists.antt =====
-- Lists measured by native numbers, with Boolean tests, under the library's names.
use Prim.Native.Nat.{ℕ, zero, suc, ◌+◌, ◌≤◌}
use mathlib.Core.Path.{◌≡◌, refl, ap}
use mathlib.Core.Bool.{Bool, true, false, ◌&&◌, ◌||◌}
use mathlib.Core.List.{List, [], ◌∷◌, ◌++◌}
use mathlib.Core.Option.{Option, none, some}
use native.Mathlib.Omega.{arith}
use mathlib.Core.Logic.{inl, inr}
use mortstack.Prelude.Tests.{if◌then◌else◌, Bool-cases}

module _ {ℓ} {A : Type ℓ} where
  abbrev pub length : List A → ℕ
  length [] = 0
  length (x ∷ xs) = suc (length xs)

  abbrev pub take : ℕ → List A → List A
  take zero xs = []
  take (suc n) [] = []
  take (suc n) (x ∷ xs) = x ∷ take n xs

  abbrev pub drop : ℕ → List A → List A
  drop zero xs = xs
  drop (suc n) [] = []
  drop (suc n) (x ∷ xs) = drop n xs

  -- `xs.some(p)` and `xs.every(p)`
  abbrev pub any : (A → Bool) → List A → Bool
  any p [] = false
  any p (x ∷ xs) = p x || any p xs

  abbrev pub all : (A → Bool) → List A → Bool
  all p [] = true
  all p (x ∷ xs) = p x && all p xs

  -- `xs.filter(p)`
  abbrev pub keep_if : (A → Bool) → List A → List A
  keep_if p [] = []
  keep_if p (x ∷ xs) = let rest = keep_if p xs in if p x then x ∷ rest else rest

  abbrev pub get_last? : List A → Option A
  get_last? [] = none
  get_last? (x ∷ []) = some x
  get_last? (x ∷ y ∷ xs) = get_last? (y ∷ xs)

  pub length-append : (xs ys : List A) → length (xs ++ ys) ≡ length xs + length ys
  length-append [] ys = omega arith
  length-append (x ∷ xs) ys = omega (arith, length-append xs ys)

  pub length-keep_if-le : (p : A → Bool) (xs : List A) → length (keep_if p xs) ≤ length xs
  length-keep_if-le p [] = omega arith
  length-keep_if-le p (x ∷ xs) = ground (arith, length-keep_if-le p xs)

  pub take-append-drop : (n : ℕ) (xs : List A) → take n xs ++ drop n xs ≡ xs
  take-append-drop zero xs = refl
  take-append-drop (suc n) [] = refl
  take-append-drop (suc n) (x ∷ xs) = ap (◌∷◌ x) (take-append-drop n xs)

  pub keep_if-append :
      (p : A → Bool) (xs ys : List A) → keep_if p (xs ++ ys) ≡ keep_if p xs ++ keep_if p ys
  keep_if-append p [] ys = refl
  keep_if-append p (x ∷ xs) ys = ground (arith, keep_if-append p xs ys)

module _ {ℓ κ} {A : Type ℓ} (P : A → Type κ) where
  abbrev pub All : List A → Type κ
  All [] = Unit
  All (x ∷ xs) = P x × All xs

  pub All-append : (xs ys : List A) → All xs → All ys → All (xs ++ ys)
  All-append [] ys _ k = k
  All-append (x ∷ xs) ys (p, h) k = (p, All-append xs ys h k)

module _ {ℓ κ} {A : Type ℓ} (R : A → A → Type κ) where
  -- `R` holds between each entry and every later one.
  abbrev pub Pairs : List A → Type κ
  Pairs [] = Unit
  Pairs (x ∷ xs) = All (R x) xs × Pairs xs

module _ {ℓ κ} {A : Type ℓ} (P : A → Type κ) (p : A → Bool) where
  pub All-keep_if : (xs : List A) → All P xs → All P (keep_if p xs)
  All-keep_if [] h = tt
  All-keep_if (x ∷ xs) h = elim (Bool-cases (p x)) [
    | inl e ↦ rw e (h.0, All-keep_if xs h.1)
    | inr e ↦ rw e (All-keep_if xs h.1)
  ]

module _ {ℓ κ} {A : Type ℓ} (R : A → A → Type κ) (p : A → Bool) where
  pub Pairs-keep_if : (xs : List A) → Pairs R xs → Pairs R (keep_if p xs)
  Pairs-keep_if [] h = tt
  Pairs-keep_if (x ∷ xs) h = elim (Bool-cases (p x)) [
    | inl e ↦ rw e (All-keep_if (R x) p xs h.0, Pairs-keep_if xs h.1)
    | inr e ↦ rw e (Pairs-keep_if xs h.1)
  ]

module _ {ℓ} {A : Type ℓ} where
  pub keep_if-All : (p : A → Bool) (xs : List A) → All (λ x. p x ≡ true) xs → keep_if p xs ≡ xs
  keep_if-All p [] h = refl
  keep_if-All p (x ∷ xs) h = rw h.0 (ap (◌∷◌ x) (keep_if-All p xs h.1))

  pub keep_if_none : (p : A → Bool) (xs : List A) → All (λ x. p x ≡ false) xs → keep_if p xs ≡ []
  keep_if_none p [] h = refl
  keep_if_none p (x ∷ xs) h = rw h.0 (keep_if_none p xs h.1)

  pub keep_if-keep_if :
      (p q r : A → Bool) (xs : List A)
      → ((x : A) → r x ≡ (q x && p x))
      → keep_if p (keep_if q xs) ≡ keep_if r xs
  keep_if-keep_if p q r [] h = refl
  keep_if-keep_if p q r (x ∷ xs) h = ground (arith, h x, keep_if-keep_if p q r xs h)

  pub All-true-keep_if : (p : A → Bool) (xs : List A) → All (λ x. p x ≡ true) (keep_if p xs)
  All-true-keep_if p [] = tt
  All-true-keep_if p (x ∷ xs) = elim (Bool-cases (p x)) [
    | inl e ↦ rw e (e, All-true-keep_if p xs)
    | inr e ↦ rw e (All-true-keep_if p xs)
  ]

module _ {ℓ κ μ} {A : Type ℓ} {P : A → Type κ} {Q : A → Type μ} (f : (x : A) → P x → Q x) where
  pub All-imp : (xs : List A) → All P xs → All Q xs
  All-imp [] h = tt
  All-imp (x ∷ xs) h = (f x h.0, All-imp xs h.1)
