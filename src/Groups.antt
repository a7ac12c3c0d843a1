-- ===== src/Groups.antt =====
-- The commits of an MLS group: the server's log, services/api/src/routers/mls/groups.ts, and the client
-- that publishes to it and applies what others published, packages/chat-mls-core/src/client/index.ts.
-- The engine is a native module, so it is a parameter; the calls of the server get their answer.
pub mod Polls
pub mod Lands
use mortstack.Prelude.{
  ℕ, zero, suc, ◌+◌, String, Bool, true, false, ◌==◌, ◌&&◌, Option, none, some, List, [], ◌∷◌, ◌++◌,
  any, take, ltb, leb, nat_eq, keep_if, if◌then◌else◌,
}
use mortstack.Js.Sort.{sort}
use mortstack.Js.Try.{Try, gave, threw}
use mortstack.Pipe.{Processed, commit_applied, application, proposal_queued}

-- Group ids are opaque bytes; here they are compared as texts.
pub record GroupCommit : Type 0 where
  pub group_id : String
  pub epoch : ℕ
  pub bytes : List ℕ

abbrev pub fetch_pending_commits_page_max : ℕ
fetch_pending_commits_page_max = 100

abbrev pub publish_commit_max_retries : ℕ
publish_commit_max_retries = 5

abbrev pub is_at : String → ℕ → GroupCommit → Bool
is_at group_id epoch r = (r.group_id == group_id) && nat_eq r.epoch epoch

-- `none` is the CONFLICT: the epoch of the group is taken.
unfoldable pub publish_commit : String → ℕ → List ℕ → List GroupCommit → Option (List GroupCommit)
publish_commit group_id epoch bytes rows =
    if any (is_at group_id epoch) rows
    then none
    else some (rows ++ record { group_id = group_id; epoch = epoch; bytes = bytes } ∷ [])

abbrev pub is_since : String → ℕ → GroupCommit → Bool
is_since group_id since r = (r.group_id == group_id) && leb since r.epoch

abbrev pub before : GroupCommit → GroupCommit → Bool
before a b = ltb a.epoch b.epoch

unfoldable pub fetch_pending_commits : String → ℕ → List GroupCommit → List GroupCommit
fetch_pending_commits group_id since rows =
    take fetch_pending_commits_page_max (sort before (keep_if (is_since group_id since) rows))

-- The commits of others that reach the server before the next attempt, and before those after it.
unfoldable pub first : List (List GroupCommit) → List GroupCommit
first [] = []
first (o ∷ others) = o

unfoldable pub later : List (List GroupCommit) → List (List GroupCommit)
later [] = []
later (o ∷ others) = others

-- The server's rows and the client: its engine, and the epoch that it has applied last.
pub record Group (E : Type 0) : Type 0 where
  pub rows : List GroupCommit
  pub engine : E
  pub last_applied_epoch : ℕ

module _ {E : Type 0} (process : E → List ℕ → E × Try Processed) (group_id : String) where
  -- The loop over the commits: the engine after it, and the last epoch, `none` where it throws.
  unfoldable pub apply_commits : List GroupCommit → ℕ → E → E × Option ℕ
  apply_commits [] last e = (e, some last)
  apply_commits (r ∷ rs) last e =
      let (e', p) = process e r.bytes in
      elim p [
        | gave q ↦ elim q [
          | commit_applied ↦ apply_commits rs r.epoch e'
          | application plaintext ↦ (e', none)
          | proposal_queued ↦ (e', none)
        ]
        | threw err ↦ (e', none)
      ]

  unfoldable pub polled : Group E → E × Option ℕ → Option ℕ × Group E
  polled g (e, none) = (none, record g { engine = e })
  polled g (e, some last) = (some last, record g { engine = e; last_applied_epoch = last })

  -- `none` is an exception, which leaves the epoch as it was.
  unfoldable pub poll_pending_commits : Group E → Option ℕ × Group E
  unfolding apply_commits fetch_pending_commits polled
  poll_pending_commits g =
      let commits = fetch_pending_commits group_id (suc g.last_applied_epoch) g.rows in
      polled g (apply_commits commits g.last_applied_epoch g.engine)

  -- What an attempt makes of the answer of the server and of the poll after a conflict; `rest` are the
  -- attempts that are left.
  unfoldable pub next_attempt :
      (ℕ → List ℕ → Group E → Option ℕ × Group E)
      → (ℕ → List ℕ)
      → Option ℕ × Group E
      → Option ℕ × Group E
  next_attempt rest rebuild (none, g) = (none, g)
  next_attempt rest rebuild (some last, g) = rest (suc last) (rebuild (suc last)) g

  unfoldable pub publish_attempt :
      (ℕ → List ℕ → Group E → Option ℕ × Group E)
      → (ℕ → List ℕ)
      → ℕ
      → Group E
      → Option (List GroupCommit)
      → Option ℕ × Group E
  unfolding next_attempt poll_pending_commits
  publish_attempt rest rebuild epoch g (some rows) =
      (some epoch, record g { rows = rows; last_applied_epoch = epoch })
  publish_attempt rest rebuild epoch g none = next_attempt rest rebuild (poll_pending_commits g)

  -- The loop, with the number of attempts that are left. `others` are the commits that reach the server
  -- before each attempt; `rebuild` is the caller's, who makes the commit for a later epoch. `none` is an
  -- exception: too many attempts, or a poll that throws.
  unfoldable pub publish_commit_with_retry :
      ℕ → List (List GroupCommit) → (ℕ → List ℕ) → ℕ → List ℕ → Group E → Option ℕ × Group E
  unfolding publish_commit publish_attempt first later
  publish_commit_with_retry zero others rebuild epoch commit g = (none, g)
  publish_commit_with_retry (suc n) others rebuild epoch commit g =
      let now = record g { rows = g.rows ++ first others } in
      publish_attempt (publish_commit_with_retry n (later others) rebuild) rebuild epoch now
        (publish_commit group_id epoch commit now.rows)
