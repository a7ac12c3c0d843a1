-- ===== src/Session.antt =====
-- services/chat-ws/src/auth.ts: the check of a bearer token. The digest, the KV store and the origin
-- are services, so their answers are parameters; a write to the KV store is a value.
pub mod Cache
pub mod Revocation
use Prim.Native.String.{◌++◌ as concat}
use mortstack.Prelude.{
  ℕ, String, Bool, true, false, not, ◌&&◌, ◌==◌, Option, none, some, List, [], ◌∷◌, min, ℤ, pos,
  negsuc, ltb_ℤ, ltb, nat_eq, if◌then◌else◌,
}
use mortstack.Js.Text.{print_byte_hex}
use mortstack.Js.Pattern.{lowers_to}
use mortstack.Js.Try.{Try, gave, threw}
use mortstack.Js.Value.{Value, undefined, null, number, text, object, property}

-- `ttl` is `Math.trunc(Number(env.SESSION_CACHE_TTL))`, `none` where that is not finite.
pub record Env : Type 0 where
  pub session_cache_enabled : Option String
  pub ttl : Option ℤ

pub record CachedSession : Type 0 where
  pub user_id : Value
  pub exp : ℤ

pub record OriginSession : Type 0 where
  pub user_id : String
  pub exp : Option ℤ

pub record Response : Type 0 where
  pub status : ℕ
  pub json : Try Value

-- `put(key, { userId, exp }, { expirationTtl })`
pub record Write : Type 0 where
  pub key : String
  pub session : CachedSession
  pub expiration_ttl : ℕ

abbrev pub ttl_min : ℕ
ttl_min = 60

abbrev pub ttl_max : ℕ
ttl_max = 300

abbrev pub ttl_default : ℕ
ttl_default = 120

unfoldable pub cache_enabled : Env → Bool
unfolding lowers_to
cache_enabled env = elim env.session_cache_enabled [
  | none ↦ true
  | some v ↦ not (lowers_to "0" v) && not (lowers_to "false" v)
]

-- `Math.max(TTL_MIN, n)`
at_least_min : ℤ → ℕ
at_least_min (pos n) = if ltb ttl_min n then n else ttl_min
at_least_min (negsuc n) = ttl_min

unfoldable pub cache_ttl : Env → ℕ
unfolding at_least_min
cache_ttl env = elim env.ttl [ none ↦ ttl_default | some n ↦ min ttl_max (at_least_min n) ]

hex_of : List ℕ → String
unfolding print_byte_hex
hex_of [] = ""
hex_of (b ∷ bs) = concat (print_byte_hex b) (hex_of bs)

-- `digest` is SHA-256 of the UTF-8 bytes.
unfoldable pub sha256_hex : (String → List ℕ) → String → String
unfolding hex_of
sha256_hex digest input = hex_of (digest input)

finite : Value → Option ℤ
finite (number n) = some n
finite _ = none

named_user : Value → Value → Option OriginSession
unfolding finite
named_user (text id) exp =
    if id == "" then none else some (record { user_id = id; exp = finite exp })
named_user _ exp = none

read_body : Value → Try (Option OriginSession)
unfolding named_user property
read_body (object f) = gave (named_user (property f "userId") (property f "exp"))
read_body undefined = threw "TypeError: Cannot read properties of undefined (reading 'userId')"
read_body null = threw "TypeError: Cannot read properties of null (reading 'userId')"
read_body _ = gave none

read_json : Try Value → Try (Option OriginSession)
unfolding read_body
read_json (gave body) = read_body body
read_json (threw e) = threw e

-- `fetch` of the origin is given with its answer.
unfoldable pub verify_origin : Try Response → Try (Option OriginSession)
unfolding read_json
verify_origin (threw e) = threw e
verify_origin (gave r) = if nat_eq r.status 200 then read_json r.json else gave none

is_text : Value → Option String
is_text (text id) = some id
is_text _ = none

-- `hit && typeof hit.userId === "string" && hit.exp > nowSec`, and the user
unfoldable pub hit_user : ℕ → Try (Option CachedSession) → Option String
unfolding is_text
hit_user now (gave (some hit)) = if ltb_ℤ (pos now) hit.exp then is_text hit.user_id else none
hit_user now (gave none) = none
hit_user now (threw e) = none

unfoldable pub user_of : Try (Option OriginSession) → Try (Option String)
user_of (gave none) = gave none
user_of (gave (some s)) = gave (some s.user_id)
user_of (threw e) = threw e

-- the write after a miss, if there is one
unfoldable pub populate : Env → String → Try (Option OriginSession) → Option Write
unfolding cache_ttl
populate env key (gave (some s)) = elim s.exp [
  | none ↦ none
  | some exp ↦ some (record {
    key = key;
    session = record { user_id = text s.user_id; exp = exp };
    expiration_ttl = cache_ttl env;
  })
]
populate env key _ = none

unfoldable pub on_miss :
    Env → String → Option String → Try (Option OriginSession) → Try (Option String) × Option Write
unfolding user_of populate
on_miss env key (some user) origin = (gave (some user), none)
on_miss env key none origin = (user_of origin, populate env key origin)

-- With the write that is tried. `now` is in seconds; `kv` is what the KV store answers for the key.
unfoldable pub verify_session :
    Env
    → (String → List ℕ)
    → ℕ
    → (String → Try (Option CachedSession))
    → Try Response
    → String
    → Try (Option String) × Option Write
unfolding cache_enabled user_of verify_origin on_miss hit_user
verify_session env digest now kv fetched token =
    if cache_enabled env
    then (let key = sha256_hex digest token in
        on_miss env key (hit_user now (kv key)) (verify_origin fetched))
    else (user_of (verify_origin fetched), none)
