-- ===== src/Examples/Commits.antt =====
-- A commit that meets another one at its epoch and lands later.
use mortstack.Prelude.{ℕ, suc, ◌≡◌, refl, none, some, List, [], ◌∷◌}
use mortstack.Js.Sort.{sort}
use mortstack.Js.Try.{Try, gave, threw}
use mortstack.Pipe.{Processed, commit_applied}
use mortstack.Groups.{
  GroupCommit, Group, publish_commit_max_retries, publish_commit_with_retry, publish_commit,
  fetch_pending_commits, poll_pending_commits, apply_commits, polled,
}

-- an engine that counts the commits
abbrev process : ℕ → List ℕ → ℕ × Try Processed
process e b = (suc e, gave commit_applied)

abbrev group : Group ℕ
group = record {
  rows =
      record { group_id = "g"; epoch = 1; bytes = [] }
      ∷ record { group_id = "g"; epoch = 2; bytes = [] }
      ∷ [];
  engine = 1;
  last_applied_epoch = 1;
}

abbrev rebuild : ℕ → List ℕ
rebuild epoch = epoch ∷ []

-- What others publish: nothing before the first attempt, a commit at epoch 3 before the second.
abbrev races : List (List GroupCommit)
races = [] ∷ (record { group_id = "g"; epoch = 3; bytes = [] } ∷ []) ∷ []

lands_at_4 :
    (publish_commit_with_retry process "g" publish_commit_max_retries races rebuild 2
      (rebuild 2)
      group).0
    ≡ some 4
unfolding publish_commit_with_retry publish_commit fetch_pending_commits sort
lands_at_4 = refl

-- an engine that counts the commits and rejects empty ones
abbrev strict : ℕ → List ℕ → ℕ × Try Processed
strict e [] = (e, threw "malformed")
strict e (x ∷ b) = (suc e, gave commit_applied)

abbrev half_good : Group ℕ
half_good = record {
  rows =
      record { group_id = "g"; epoch = 2; bytes = 2 ∷ [] }
      ∷ record { group_id = "g"; epoch = 3; bytes = [] }
      ∷ [];
  engine = 1;
  last_applied_epoch = 1;
}

-- the engine has merged a commit that the cursor is still before
cursor_behind : poll_pending_commits strict "g" half_good ≡ (none, record half_good { engine = 2 })
unfolding poll_pending_commits fetch_pending_commits apply_commits polled sort
cursor_behind = refl
