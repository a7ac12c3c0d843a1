-- ===== src/Examples/Tokens.antt =====
-- A token that is checked, cached and revoked, and calls of the internal paths.
use mortstack.Prelude.{
  ℕ, ◌≤◌, String, ◌≡◌, ◌≢◌, refl, ◌⊎◌, ◌↔◌, inl, inr, true, false, ◌==◌, eq_iff, Option, none, some,
  List, [], ◌∷◌, pos, arith, ltb, Bool-cases, if◌then◌else◌, ◌&&◌,
}
use mortstack.Js.Text.{print_byte_hex}
use mortstack.Js.Try.{Try, gave, threw}
use mortstack.Js.Value.{Value, text, number, object, field, end, property}
use mortstack.Session.{
  Env, CachedSession, Response, Write, cache_enabled, cache_ttl, sha256_hex, verify_origin,
  hit_user, verify_session,
}
use mortstack.Session.Cache.{IsChecked, verify_session-IsChecked}
use mortstack.Session.Revocation.{Log, empty, check, IsHonest, verify_session_refuses}
use mortstack.Entry.{Request, Reply, verify_internal_auth}
use mortstack.Entry.Internal.{evict, is_token_hash, handle_internal}
use mortstack.Entry.Secret.{IsRefusal, verify_internal_auth_iff, handle_internal_guards}

abbrev env : Env
env = record { session_cache_enabled = none; ttl = some (pos 1000) }

-- a digest that tells the token from every other
abbrev digest : String → List ℕ
digest token = if token == "t" then 1 ∷ [] else []

abbrev accepts : Response
accepts = record {
  status = 200;
  json = gave (object (field "userId" (text "u") (field "exp" (number (pos 9000)) end)));
}

abbrev refuses : Response
refuses = record { status = 401; json = threw "" }

-- The origin knows the token until the time 100.
abbrev origin : ℕ → String → Try Response
origin now token = gave (if ltb now 100 then accepts else refuses)

abbrev nothing : String → Try (Option CachedSession)
nothing key = gave none

verify_session-IsChecked_example :
    IsChecked env
      (sha256_hex digest "t")
      (hit_user 5 (nothing (sha256_hex digest "t")))
      (verify_origin (gave accepts))
      (verify_session env digest 5 nothing (gave accepts) "t").0
      (verify_session env digest 5 nothing (gave accepts) "t").1
verify_session-IsChecked_example = verify_session-IsChecked env digest 5 nothing (gave accepts) "t"

abbrev written : Write
written = record {
  key = "01";
  session = record { user_id = text "u"; exp = pos 9000 };
  expiration_ttl = 300;
}

abbrev log : List (ℕ × Write)
log = (99, written) ∷ []

log-Log : Log env digest origin log
unfolding verify_session cache_enabled sha256_hex hit_user verify_origin property print_byte_hex
    cache_ttl
log-Log = check 99 nothing "t" written refl empty

-- the store still has it at 398, not at 400
abbrev store : ℕ → String → Try (Option CachedSession)
store now key = gave (if (key == "01") && ltb now 399 then some written.session else none)

store-IsHonest : IsHonest env digest origin (store 400) 400 log
store-IsHonest k s h = absurd (ground (arith, h))

abbrev no_key : String
no_key = ""

different : no_key ≡ "01" → ⊥
different e = cc e

only : (other : String) → sha256_hex digest other ≡ sha256_hex digest "t" → other ≡ "t"
unfolding sha256_hex print_byte_hex
only other h = elim (Bool-cases (other == "t")) [
  | inl e ↦ (eq_iff other "t").0 e
  | inr e ↦ absurd (different (rw e at h))
]

gone : (t : ℕ) → 100 ≤ t → verify_origin (origin t "t") ≡ gave none
unfolding verify_origin
gone t h = ground (arith, h)

verify_session_refuses_example :
    (verify_session env digest 400 (store 400) (origin 400 "t") "t").0 ≡ gave none
verify_session_refuses_example =
    verify_session_refuses env digest origin "t" 100 400 (store 400) log gone only log-Log
      store-IsHonest (omega arith)

abbrev purge : Option (List ℕ) → String → Request
purge secret hash = record {
  method = "POST";
  pathname = "/internal/session/purge";
  is_upgrade = false;
  secret = secret;
  protocols = [];
  did = none;
  json = gave (object (field "tokenHash" (text hash) end));
}

abbrev secret : List ℕ
secret = 1 ∷ 2 ∷ []

abbrev post : String
post = "POST"

abbrev purge_path : String
purge_path = "/internal/session/purge"

verify_internal_auth_iff_example :
    (verify_internal_auth secret (purge (some secret) "") ≡ true)
    ↔ ((secret ≡ secret) × (secret ≢ []))
verify_internal_auth_iff_example =
    verify_internal_auth_iff secret (purge (some secret) "") secret (omega arith, (omega arith, tt))
      (omega arith, (omega arith, tt)) refl

handle_internal_guards_example :
    ((verify_internal_auth secret (purge (some secret) "zz") ≡ false) ⊎ (post ≢ post)
      → IsRefusal
          (handle_internal secret (λ k. true) (λ u. true) (λ v. "") (purge (some secret) "zz")))
    × ((f : mortstack.Js.Value.Fields) (hash : String)
        → verify_internal_auth secret (purge (some secret) "zz") ≡ true
        → post ≡ post
        → purge_path ≡ purge_path
        → gave (object (field "tokenHash" (text "zz") end)) ≡ gave (object f)
        → property f "tokenHash" ≡ text hash
        → (reply : Reply) × ((handle_internal secret
                (λ k. true)
                (λ u. true)
                (λ v. "")
                (purge (some secret) "zz")
              ≡ gave (reply, if is_token_hash hash then evict hash ∷ [] else []))
            × (reply.status ≡ (if is_token_hash hash then 200 else 400))))
handle_internal_guards_example =
    handle_internal_guards secret (λ k. true) (λ u. true) (λ v. "") (purge (some secret) "zz")
