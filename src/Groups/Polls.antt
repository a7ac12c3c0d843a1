-- ===== src/Groups/Polls.antt =====
-- What a poll makes of the commits that it fetches: the last epoch, after which none is taken.
use mortstack.Prelude.{
  ℕ, zero, suc, ◌≤◌, String, ◌≡◌, refl, ap, ◌∙◌, false, some, List, [], ◌∷◌, any, take, length,
  keep_if, All, All-imp, Pairs, All-true-keep_if, arith, Bool-cases, inl, inr,
}
use mortstack.Js.Sort.{sort, insert, IsConsistent, sort-IsSorted, sort-All}
use mortstack.Js.Try.{Try, gave}
use mortstack.Pipe.{Processed, commit_applied}
use mortstack.Groups.{
  GroupCommit, Group, is_at, is_since, before, fetch_pending_commits_page_max,
  fetch_pending_commits, apply_commits, polled, poll_pending_commits,
}

last_epoch : ℕ → List GroupCommit → ℕ
last_epoch last [] = last
last_epoch last (r ∷ rs) = last_epoch r.epoch rs

before-IsConsistent : IsConsistent before
before-IsConsistent = record {
  asymmetric = λ x y h. ground (arith, h);
  transitive = λ x y z h k. ground (arith, h, k);
}

bound-last_epoch :
    (last : ℕ) (rs : List GroupCommit)
    → Pairs (λ x y. before y x ≡ false) rs
    → All (λ r. last ≤ r.epoch) rs
    → (last ≤ last_epoch last rs) × All (λ r. r.epoch ≤ last_epoch last rs) rs
unfolding last_epoch
bound-last_epoch last [] s h = (omega arith, tt)
bound-last_epoch last (r ∷ rs) s h =
    let (low, all) = bound-last_epoch r.epoch rs s.1 (All-imp (λ x k. ground (arith, k)) rs s.0) in
    (omega (arith, low, h.0), (low, all))

take_all : (n : ℕ) (rs : List GroupCommit) → length rs ≤ n → take n rs ≡ rs
take_all zero [] h = refl
take_all (suc n) [] h = refl
take_all zero (r ∷ rs) h = absurd (omega (arith, h))
take_all (suc n) (r ∷ rs) h = ap (◌∷◌ r) (take_all n rs (omega (arith, h)))

length-insert :
    (r : GroupCommit) (rs : List GroupCommit) → length (insert before r rs) ≡ suc (length rs)
unfolding insert
length-insert r [] = refl
length-insert r (x ∷ rs) = ground (arith, length-insert r rs)

length-sort : (rs : List GroupCommit) → length (sort before rs) ≡ length rs
unfolding sort
length-sort [] = refl
length-sort (r ∷ rs) = length-insert r (sort before rs) ∙ ap suc (length-sort rs)

module _ (P : GroupCommit → Type 0) where
  All-insert :
      (r : GroupCommit) (rs : List GroupCommit) → All P (insert before r rs) → P r × All P rs
  unfolding insert
  All-insert r [] h = (h.0, tt)
  All-insert r (x ∷ rs) h = elim (Bool-cases (before x r)) [
    | inl e ↦ let k = rw (insert, e) at h in let (p, q) = All-insert r rs k.1 in (p, (k.0, q))
    | inr e ↦ let k = rw (insert, e) at h in (k.0, k.1)
  ]

  All-sort : (rs : List GroupCommit) → All P (sort before rs) → All P rs
  unfolding sort
  All-sort [] h = tt
  All-sort (r ∷ rs) h = let (p, q) = All-insert r (sort before rs) h in (p, All-sort rs q)

not_taken :
    (group_id : String) (since last : ℕ) (rows : List GroupCommit)
    → since ≤ suc last
    → All (λ r. r.epoch ≤ last) (keep_if (is_since group_id since) rows)
    → any (is_at group_id (suc last)) rows ≡ false
not_taken group_id since last [] s h = refl
not_taken group_id since last (r ∷ rows) s h = elim (Bool-cases (is_since group_id since r)) [
  | inl e ↦ let k = rw e at h in ground (arith, e, k.0, not_taken group_id since last rows s k.1)
  | inr e ↦ let k = rw e at h in ground (arith, e, not_taken group_id since last rows s k)
]

since-kept :
    (group_id : String) (since : ℕ) (rows : List GroupCommit)
    → All (λ r. since ≤ r.epoch) (keep_if (is_since group_id since) rows)
since-kept group_id since rows =
    All-imp (λ r h. ground (arith, h)) (keep_if (is_since group_id since) rows)
      (All-true-keep_if (is_since group_id since) rows)

module _ {E : Type 0} (process : E → List ℕ → E × Try Processed) (group_id : String)
    (accepts : (e : E) (b : List ℕ) → (process e b).1 ≡ gave commit_applied) where
  apply_commits-accepts :
      (rs : List GroupCommit) (last : ℕ) (e : E)
      → (e' : E) × (apply_commits process group_id rs last e ≡ (e', some (last_epoch last rs)))
  unfolding apply_commits last_epoch
  apply_commits-accepts [] last e = (e, refl)
  apply_commits-accepts (r ∷ rs) last e =
      let (e', done) = apply_commits-accepts rs r.epoch (process e r.bytes).0 in
      (e', rw (apply_commits, accepts e r.bytes) done)

  -- a poll that fetches everything leaves no epoch after the last one taken
  pub poll-last :
      (g : Group E)
      → length (keep_if (is_since group_id (suc g.last_applied_epoch)) g.rows)
        ≤ fetch_pending_commits_page_max
      → (last : ℕ) × ((e : E) × ((poll_pending_commits process group_id g
              ≡ (some last, record g { engine = e; last_applied_epoch = last }))
            × ((any (is_at group_id (suc last)) g.rows ≡ false) × (g.last_applied_epoch ≤ last))))
  unfolding poll_pending_commits polled fetch_pending_commits
  poll-last g fits =
      let since = suc g.last_applied_epoch in
      let kept = keep_if (is_since group_id since) g.rows in
      let sorted = sort before kept in
      let fetched =
        take_all fetch_pending_commits_page_max sorted (omega (arith, length-sort kept, fits)) in
      let (e, done) = apply_commits-accepts sorted g.last_applied_epoch g.engine in
      let late = sort-All (λ r. since ≤ r.epoch) before kept (since-kept group_id since g.rows) in
      let (low, all) =
        bound-last_epoch g.last_applied_epoch sorted (sort-IsSorted before before-IsConsistent kept)
          (All-imp (λ r h. omega (arith, h)) sorted late) in
      let last = last_epoch g.last_applied_epoch sorted in
      (
        last,
        (
          e,
          (
            rw (fetched, done) refl,
            (
              not_taken group_id since last g.rows (omega (arith, low))
                  (All-sort (λ r. r.epoch ≤ last) kept all),
              low,
            ),
          ),
        ),
      )
