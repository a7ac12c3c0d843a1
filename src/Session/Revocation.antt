-- ===== src/Session/Revocation.antt =====
-- How long the cache can hide that a session ended.
use mortstack.Prelude.{
  ℕ, ◌+◌, ◌≤◌, ◌<◌, String, ◌≡◌, refl, sym, ap, ◌∙◌, Option, none, some, List, [], ◌∷◌, arith, ◌⊎◌,
  inl, inr, Bool-cases, leb,
}
use mortstack.Js.Try.{Try, gave, threw}
use mortstack.Session.{
  Env, CachedSession, OriginSession, Response, Write, ttl_max, sha256_hex, verify_origin, hit_user,
  verify_session, user_of,
}
use mortstack.Session.Cache.{cached, asked, verify_session-IsChecked}

answer-cases :
    (a : Try (Option CachedSession))
    → ((hit : CachedSession) × (a ≡ gave (some hit))) ⊎ ((now : ℕ) → hit_user now a ≡ none)
unfolding hit_user
answer-cases (gave (some hit)) = inl (hit, refl)
answer-cases (gave none) = inr (λ now. refl)
answer-cases (threw e) = inr (λ now. refl)

none-some : (user : String) → none ≡ some user → ⊥
none-some user e = absurd (ground arith)

module _ (env : Env) (digest : String → List ℕ) (origin : ℕ → String → Try Response) where
  -- The writes of checks at some times, each with its time; `origin` answers by time and token.
  pub data Log : List (ℕ × Write) → Type 0 where
    empty : Log []
    check :
        (now : ℕ) (kv : String → Try (Option CachedSession)) (token : String)
        {log : List (ℕ × Write)} (w : Write)
        → (verify_session env digest now kv (origin now token) token).1 ≡ some w
        → Log log
        → Log ((now, w) ∷ log)

  -- The store gives what was written, under its key and before it expires.
  abbrev pub Written : ℕ → String → CachedSession → List (ℕ × Write) → Type 0
  Written now k s [] = ⊥
  Written now k s ((at, w) ∷ log) =
      ((w.key ≡ k) × ((w.session ≡ s) × (now < at + w.expiration_ttl))) ⊎ Written now k s log

  abbrev pub IsHonest : (String → Try (Option CachedSession)) → ℕ → List (ℕ × Write) → Type 0
  IsHonest kv now log =
      (k : String) (s : CachedSession) → kv k ≡ gave (some s) → Written now k s log

  module _ (token : String) (end : ℕ)
      (revoked : (t : ℕ) → end ≤ t → verify_origin (origin t token) ≡ gave none)
      (unique : (other : String)
        → sha256_hex digest other ≡ sha256_hex digest token
        → other ≡ token) where
    valid_before :
        (at : ℕ) (s : OriginSession) → verify_origin (origin at token) ≡ gave (some s) → at < end
    valid_before at s h = elim (Bool-cases (leb end at)) [
      | inl t ↦ absurd (ground (arith, revoked at (ground arith), h))
      | inr t ↦ ground arith
    ]

    Written-before :
        {log : List (ℕ × Write)} (now : ℕ) (s : CachedSession)
        → Log log
        → Written now (sha256_hex digest token) s log
        → now < end + ttl_max
    Written-before now s empty h = absurd h
    Written-before now s (check at kv other w e r) (inr h) = Written-before now s r h
    Written-before now s (check at kv other w e r) (inl (k, (_, lt))) =
        elim (verify_session-IsChecked env digest at kv (origin at other) other) [
          | cached user on hit res none_written ↦ absurd (ground (arith, e, none_written))
          | asked _ res writes ↦
              let v = (writes w e).1 in
              let same = unique other (sym v.hashed ∙ k) in
              let before =
                valid_before at v.session
                  (ap (λ t. verify_origin (origin at t)) (sym same) ∙ v.vouched) in
              omega (arith, before, lt, v.at_most)
        ]

    hit_before :
        {log : List (ℕ × Write)} (now : ℕ) (kv : String → Try (Option CachedSession))
        (user : String)
        → Log log
        → IsHonest kv now log
        → hit_user now (kv (sha256_hex digest token)) ≡ some user
        → now < end + ttl_max
    unfolding hit_user
    hit_before now kv user r honest h = elim (answer-cases (kv (sha256_hex digest token))) [
      | inl (hit, e) ↦ Written-before now hit r (honest (sha256_hex digest token) hit e)
      | inr n ↦ absurd (none-some user (sym (n now) ∙ h))
    ]

  -- From `ttl_max`, 300, seconds after the origin stops to know a token, a check refuses it, whatever the
  -- checks of this and of other tokens wrote into the cache before, if the store gives nothing that was
  -- not written under the key or that has expired, and no other token has its hash.
  pub verify_session_refuses :
      (token : String) (end now : ℕ) (kv : String → Try (Option CachedSession))
      (log : List (ℕ × Write))
      → ((t : ℕ) → end ≤ t → verify_origin (origin t token) ≡ gave none)
      → ((other : String) → sha256_hex digest other ≡ sha256_hex digest token → other ≡ token)
      → Log log
      → IsHonest kv now log
      → end + ttl_max ≤ now
      → (verify_session env digest now kv (origin now token) token).0 ≡ gave none
  unfolding user_of
  verify_session_refuses token end now kv log revoked unique r honest late =
      elim (verify_session-IsChecked env digest now kv (origin now token) token) [
        | cached user on hit res none_written ↦
            absurd
              (omega (arith, late, hit_before token end revoked unique now kv user r honest hit))
        | asked _ res writes ↦ res ∙ ap user_of (revoked now (omega (arith, late)))
      ]
