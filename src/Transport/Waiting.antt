-- ===== src/Transport/Waiting.antt =====
-- How often a promise waits and has been settled.
use mortstack.Prelude.{
  ℕ, suc, ◌+◌, ◌≡◌, String, refl, sym, if◌then◌else◌, true, false, ◌==◌, eq_iff, none, some, List,
  [], ◌∷◌, ◌++◌, map, arith, nat_eq, ltb, inl, inr, Bool-cases,
}
use mortstack.Js.Dict.{Dict, get, put, remove, has}
use mortstack.Transport.{PendingSend, SendResult, Transport}

unfoldable pub count : ℕ → List ℕ → ℕ
count k [] = 0
count k (x ∷ xs) = let n = count k xs in if nat_eq x k then suc n else n

-- how often the promise `k` waits
unfoldable pub waiting : ℕ → Dict PendingSend → ℕ
unfolding count
waiting k [] = 0
waiting k ((id, p) ∷ rest) = count k p.promises + waiting k rest

-- how often it has been settled
unfoldable pub settlements : ℕ → List (ℕ × SendResult) → ℕ
settlements k [] = 0
settlements k ((j, r) ∷ rest) = let n = settlements k rest in if nat_eq j k then suc n else n

-- Every promise made waits or is settled, once in all; a call to come has none.
unfoldable pub IsKept : Transport → Type 0
unfolding waiting settlements
IsKept t = (k : ℕ) → settlements k t.settled + waiting k t.pending ≡ (if ltb k t.next then 1 else 0)

-- Each id has one entry.
unfoldable pub HasOneEach : Dict PendingSend → Type 0
unfolding has
HasOneEach [] = Unit
HasOneEach ((id, p) ∷ rest) = (has rest id ≡ false) × HasOneEach rest

pub count-append : (k : ℕ) (xs ys : List ℕ) → count k (xs ++ ys) ≡ count k xs + count k ys
unfolding count
count-append k [] ys = omega arith
count-append k (x ∷ xs) ys = ground (arith, count-append k xs ys)

pub settlements-append :
    (k : ℕ) (xs ys : List (ℕ × SendResult))
    → settlements k (xs ++ ys) ≡ settlements k xs + settlements k ys
unfolding settlements
settlements-append k [] ys = omega arith
settlements-append k ((j, r) ∷ xs) ys = ground (arith, settlements-append k xs ys)

pub settlements-promises :
    (k : ℕ) (r : SendResult) (ks : List ℕ) → settlements k (map (λ j. (j, r)) ks) ≡ count k ks
unfolding settlements count
settlements-promises k r [] = refl
settlements-promises k r (j ∷ ks) = ground (arith, settlements-promises k r ks)

pub waiting-put_new :
    (k : ℕ) (id : String) (p : PendingSend) (m : Dict PendingSend)
    → get m id ≡ none
    → waiting k (put id p m) ≡ waiting k m + count k p.promises
unfolding waiting get put
waiting-put_new k id p [] h = omega arith
waiting-put_new k id p ((j, q) ∷ m) h = ground (arith, waiting-put_new k id p m)

pub waiting-put_old :
    (k : ℕ) (id : String) (p q : PendingSend) (m : Dict PendingSend)
    → get m id ≡ some q
    → waiting k (put id p m) + count k q.promises ≡ waiting k m + count k p.promises
unfolding waiting get put
waiting-put_old k id p q [] h = absurd (ground (arith, h))
waiting-put_old k id p q ((j, r) ∷ m) h = ground (arith, waiting-put_old k id p q m)

get-none-of-has : (id : String) (m : Dict PendingSend) → has m id ≡ false → remove id m ≡ m
unfolding has remove
get-none-of-has id [] h = refl
get-none-of-has id ((j, q) ∷ m) h = ground (arith, get-none-of-has id m)

pub waiting-remove :
    (k : ℕ) (id : String) (q : PendingSend) (m : Dict PendingSend)
    → HasOneEach m
    → get m id ≡ some q
    → waiting k m ≡ count k q.promises + waiting k (remove id m)
unfolding waiting get remove HasOneEach
waiting-remove k id q [] u h = absurd (ground (arith, h))
waiting-remove k id q ((j, r) ∷ m) u h =
    ground (arith, eq_iff j id, u.0, get-none-of-has id m, waiting-remove k id q m u.1)

has-put :
    (id j : String) (p : PendingSend) (m : Dict PendingSend)
    → has (put id p m) j ≡ (if id == j then true else has m j)
unfolding has put
has-put id j p [] = refl
has-put id j p ((i, q) ∷ m) = ground (arith, eq_iff id j, eq_iff i id, eq_iff i j, has-put id j p m)

has-remove : (id j : String) (m : Dict PendingSend) → has m j ≡ false → has (remove id m) j ≡ false
unfolding has remove
has-remove id j [] h = refl
has-remove id j ((i, q) ∷ m) h = ground (arith, has-remove id j m)

pub HasOneEach-put :
    (id : String) (p : PendingSend) (m : Dict PendingSend) → HasOneEach m → HasOneEach (put id p m)
unfolding HasOneEach put has
HasOneEach-put id p [] u = (refl, tt)
HasOneEach-put id p ((j, q) ∷ m) u = elim (Bool-cases (j == id)) [
  | inl e ↦ rw e (rw (sym ((eq_iff j id).0 e)) u.0, u.1)
  | inr e ↦
      rw e
        (ground (arith, eq_iff id j, eq_iff j id, has-put id j p m, u.0), HasOneEach-put id p m u.1)
]

pub HasOneEach-remove :
    (id : String) (m : Dict PendingSend) → HasOneEach m → HasOneEach (remove id m)
unfolding HasOneEach remove has
HasOneEach-remove id [] u = tt
HasOneEach-remove id ((j, q) ∷ m) u = elim (Bool-cases (j == id)) [
  | inl e ↦ rw e (HasOneEach-remove id m u.1)
  | inr e ↦ rw e (has-remove id j m u.0, HasOneEach-remove id m u.1)
]
