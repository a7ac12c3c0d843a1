-- ===== src/Session/Cache.antt =====
-- What a check of a token gives and writes.
use mortstack.Prelude.{
  ℕ, List, String, ◌≤◌, ◌≡◌, refl, true, false, Option, none, some, arith, ◌⊎◌, inl, inr,
  Bool-cases, ℤ, Option-cases,
}
use mortstack.Js.Try.{Try, gave, threw}
use mortstack.Js.Value.{text}
use mortstack.Session.{
  Env, CachedSession, OriginSession, Response, Write, ttl_min, ttl_max, cache_enabled, cache_ttl,
  sha256_hex, verify_origin, hit_user, verify_session, on_miss, user_of, populate,
}

pub cache_ttl_bounds : (env : Env) → (ttl_min ≤ cache_ttl env) × (cache_ttl env ≤ ttl_max)
unfolding cache_ttl
cache_ttl_bounds env = ground arith

-- A write that the origin's session allows.
pub record IsVouched (key : String) (origin : Try (Option OriginSession)) (w : Write) : Type 0 where
  pub session : OriginSession
  pub exp : ℤ
  pub vouched : origin ≡ gave (some session)
  pub expires : session.exp ≡ some exp
  pub same : w.session ≡ record { user_id = text session.user_id; exp = exp }
  pub hashed : w.key ≡ key
  pub at_least : ttl_min ≤ w.expiration_ttl
  pub at_most : w.expiration_ttl ≤ ttl_max

populate-IsVouched :
    (env : Env) (key : String) (origin : Try (Option OriginSession)) (w : Write)
    → populate env key origin ≡ some w
    → IsVouched key origin w
unfolding populate
populate-IsVouched env key (gave (some s)) w h = elim (Option-cases s.exp) [
  | inl e ↦ absurd (ground (arith, h, e))
  | inr (exp, e) ↦ record {
    session = s;
    exp = exp;
    vouched = refl;
    expires = e;
    same = ground (arith, h, e);
    hashed = ground (arith, h, e);
    at_least = ground (arith, h, e, cache_ttl_bounds env);
    at_most = ground (arith, h, e, cache_ttl_bounds env);
  }
]
populate-IsVouched env key (gave none) w h = absurd (ground (arith, h))
populate-IsVouched env key (threw e) w h = absurd (ground (arith, h))

-- What a check of a token should give and write.
pub data IsChecked (env : Env) (key : String) (hit : Option String)
    (origin : Try (Option OriginSession)) (result : Try (Option String)) (write : Option Write)
    : Type 0 where
  cached :
      (user : String)
      → cache_enabled env ≡ true
      → hit ≡ some user
      → result ≡ gave (some user)
      → write ≡ none
      → IsChecked env key hit origin result write
  asked :
      (cache_enabled env ≡ false) ⊎ (hit ≡ none)
      → result ≡ user_of origin
      → ((w : Write) → write ≡ some w → (cache_enabled env ≡ true) × IsVouched key origin w)
      → IsChecked env key hit origin result write

on_miss-IsChecked :
    (env : Env) (key : String) (hit : Option String) (origin : Try (Option OriginSession))
    → cache_enabled env ≡ true
    → IsChecked env key hit origin (on_miss env key hit origin).0 (on_miss env key hit origin).1
unfolding on_miss
on_miss-IsChecked env key none origin on =
    asked (inr refl) refl (λ w h. (on, populate-IsVouched env key origin w h))
on_miss-IsChecked env key (some user) origin on = cached user on refl refl refl

-- A check of a token is answered from the cache if that is on and holds a session of the token's hash
-- that has not expired, and then writes nothing; else it gives what the origin says, an exception
-- included, and writes only if the cache is on and the origin gave a session with an expiry: this
-- session, under the hash of the token, for 60 to 300 seconds.
pub verify_session-IsChecked :
    (env : Env) (digest : String → List ℕ) (now : ℕ) (kv : String → Try (Option CachedSession))
    (fetched : Try Response) (token : String)
    → IsChecked env
        (sha256_hex digest token)
        (hit_user now (kv (sha256_hex digest token)))
        (verify_origin fetched)
        (verify_session env digest now kv fetched token).0
        (verify_session env digest now kv fetched token).1
unfolding verify_session
verify_session-IsChecked env digest now kv fetched token =
    let key = sha256_hex digest token in
    elim (Bool-cases (cache_enabled env)) [
      | inl on ↦ rw (verify_session, on) (on_miss-IsChecked env key _ (verify_origin fetched) on)
      | inr off ↦
          rw (verify_session, off) (asked (inl off) refl (λ w h. absurd (ground (arith, h))))
    ]
