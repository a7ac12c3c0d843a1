-- ===== src/Backfill/Page.antt =====
-- One page: an ascending list of rows, cut at the last row served, leaves exactly the rest.
use mathlib.Core.Path.{subst}
use mortstack.Prelude.{
  ℕ, zero, suc, ◌≡◌, refl, Bool, true, false, some, List, [], ◌∷◌, ℤ, ◌<ℤ◌, ltb_ℤ, take, drop,
  get_last?, keep_if, keep_if-All, All, All-imp, Pairs, arith,
}
use mortstack.Persist.{MessageRow}

-- Rows in strictly ascending serial order.
abbrev pub IsAscending : List MessageRow → Type 0
IsAscending = Pairs (λ r q. r.server_serial <ℤ q.server_serial)

abbrev pub past : ℤ → MessageRow → Bool
past s r = ltb_ℤ s r.server_serial

pub last_of_All :
    (P : MessageRow → Type 0) (n : ℕ) (l : List MessageRow) (s : MessageRow)
    → All P l
    → get_last? (take n l) ≡ some s
    → P s
last_of_All P zero l s h e = cc
last_of_All P (suc n) [] s h e = cc
last_of_All P (suc zero) (x ∷ l) s h e = subst P (ground arith) h.0
last_of_All P (suc (suc n)) (x ∷ []) s h e = subst P (ground arith) h.0
last_of_All P (suc (suc n)) (x ∷ y ∷ l) s h e = last_of_All P (suc n) (y ∷ l) s h.1 e

past_of_lt : (s : ℤ) (q : MessageRow) → s <ℤ q.server_serial → past s q ≡ true
past_of_lt s q h = ground arith

keep_if-past_head :
    (x : MessageRow) (l : List MessageRow)
    → IsAscending (x ∷ l)
    → keep_if (past x.server_serial) (x ∷ l) ≡ l
keep_if-past_head x l h =
    ground
      (arith, keep_if-All (past x.server_serial) l (All-imp (past_of_lt x.server_serial) l h.0))

-- What lies past the last row of the first `n` is the list without those rows.
pub keep_if-past_last :
    (n : ℕ) (l : List MessageRow) (s : MessageRow)
    → IsAscending l
    → get_last? (take n l) ≡ some s
    → keep_if (past s.server_serial) l ≡ drop n l
keep_if-past_last zero l s h e = cc
keep_if-past_last (suc n) [] s h e = refl
keep_if-past_last (suc zero) (x ∷ l) s h e =
    let p : x ≡ s = ground arith in
    subst (λ t. keep_if (past t.server_serial) (x ∷ l) ≡ l) p (keep_if-past_head x l h)
keep_if-past_last (suc (suc n)) (x ∷ []) s h e =
    let p : x ≡ s = ground arith in
    subst (λ t. keep_if (past t.server_serial) (x ∷ []) ≡ []) p (keep_if-past_head x [] h)
keep_if-past_last (suc (suc n)) (x ∷ y ∷ l) s h e =
    let below : x.server_serial <ℤ s.server_serial =
      last_of_All (λ q. x.server_serial <ℤ q.server_serial) (suc n) (y ∷ l) s h.0 e in
    skip_head below (keep_if-past_last (suc n) (y ∷ l) s h.1 e)
  where
    skip_head :
        x.server_serial <ℤ s.server_serial
        → keep_if (past s.server_serial) (y ∷ l) ≡ drop (suc n) (y ∷ l)
        → keep_if (past s.server_serial) (x ∷ y ∷ l) ≡ drop (suc n) (y ∷ l)
    skip_head b ih = rw (not_past b) ih
      where
        not_past : x.server_serial <ℤ s.server_serial → past s.server_serial x ≡ false
        not_past b = ground arith

pub get_last?-of-cons :
    (n : ℕ) (x : MessageRow) (l : List MessageRow)
    → (s : MessageRow) × (get_last? (take (suc n) (x ∷ l)) ≡ some s)
get_last?-of-cons zero x l = (x, refl)
get_last?-of-cons (suc n) x [] = (x, refl)
get_last?-of-cons (suc n) x (y ∷ l) = get_last?-of-cons n y l

pub drop-IsAscending : (n : ℕ) (l : List MessageRow) → IsAscending l → IsAscending (drop n l)
drop-IsAscending zero l h = h
drop-IsAscending (suc n) [] h = tt
drop-IsAscending (suc n) (x ∷ l) h = drop-IsAscending n l h.1
