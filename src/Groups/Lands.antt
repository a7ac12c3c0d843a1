-- ===== src/Groups/Lands.antt =====
-- A commit lands, also where others publish before it, as the source's retry loop counts its attempts.
use mortstack.Prelude.{
  ℕ, suc, ◌≤◌, ◌<◌, String, ◌≡◌, ◌⊎◌, false, Option, some, List, [], ◌∷◌, ◌++◌, any, length,
  keep_if,
}
use mortstack.Js.Try.{Try}
use mortstack.Groups.{GroupCommit, Group, is_at, is_since, fetch_pending_commits_page_max, first}

abbrev pub concat : List (List GroupCommit) → List GroupCommit
concat [] = []
concat (o ∷ others) = o ++ concat others

-- What a call gives: the epoch under which the commit stands in the log, and the state after it.
-- `arrived` are the commits of others that reached the server before it.
pub record HasLanded {E : Type 0} (group_id : String) (commit : List ℕ) (rebuild : ℕ → List ℕ)
    (others : List (List GroupCommit)) (g : Group E) (result : Option ℕ × Group E) : Type 0 where
  pub epoch : ℕ
  pub bytes : List ℕ
  pub arrived : List (List GroupCommit)
  pub not_arrived : List (List GroupCommit)
  pub are_others : others ≡ arrived ++ not_arrived
  pub is_ours : ((bytes ≡ commit) × (epoch ≡ suc g.last_applied_epoch)) ⊎ (bytes ≡ rebuild epoch)
  pub gives : result.0 ≡ some epoch
  pub is_new : any (is_at group_id epoch) (g.rows ++ concat arrived) ≡ false
  pub is_later : g.last_applied_epoch < epoch
  pub is_logged :
      result.1.rows
      ≡ (g.rows ++ concat arrived)
        ++ record { group_id = group_id; epoch = epoch; bytes = bytes } ∷ []
  pub is_applied : result.1.last_applied_epoch ≡ epoch

-- The commits of the group past the epoch applied last, those still to come included, fit in a page.
abbrev pub FitsPage : {E : Type 0} → String → List (List GroupCommit) → Group E → Type 0
FitsPage group_id others g =
    length (keep_if (is_since group_id (suc g.last_applied_epoch)) (g.rows ++ concat others))
    ≤ fetch_pending_commits_page_max

-- Attempts enough for the races that are to come, and one more if the first epoch is taken.
abbrev IsEnough : String → ℕ → List (List GroupCommit) → ℕ → List GroupCommit → Type 0
IsEnough group_id n others epoch rows =
    (length others < n) × ((any (is_at group_id epoch) (rows ++ first others) ≡ false) ⊎ (2 ≤ n))
