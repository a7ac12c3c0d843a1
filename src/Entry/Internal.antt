-- ===== src/Entry/Internal.antt =====
-- services/chat-ws/src/index.ts: the calls of the API.
use Prim.Native.String.{◌++◌ as concat}
use mortstack.Prelude.{
  ℕ, suc, String, Bool, true, false, ◌==◌, ◌&&◌, ◌||◌, Option, none, some, List, [], ◌∷◌, length,
  nat_eq, not, all, leb, if◌then◌else◌,
}
use mortstack.Js.Text.{codes, print_nat, is_digit}
use mortstack.Js.Try.{Try, gave, threw}
use mortstack.Js.Value.{Value, undefined, null, text, array, object, property, elements}
use mortstack.Entry.{Request, Reply, verify_internal_auth}

-- What a call does to the rest: the users whose objects are called, and the keys that are deleted.
pub data Effect : Type 0 where
  notify : Value → Effect
  evict : String → Effect

abbrev pub is_hex : ℕ → Bool
is_hex c = is_digit c || (leb b'a' c && leb c b'f')

-- `/^[0-9a-f]{64}$/.test(hash)`
unfoldable pub is_token_hash : String → Bool
is_token_hash hash = nat_eq (length (codes hash)) 64 && all is_hex (codes hash)

unfoldable pub reply : ℕ → String → List Effect → Try (Reply × List Effect)
reply status body effects = gave (record { status = status; body = body }, effects)

unfoldable pub print_bool : Bool → String
print_bool true = "true"
print_bool false = "false"

unfoldable pub purged_body : Bool → String
unfolding print_bool
purged_body purged = concat "{\"purged\":" (concat (print_bool purged) "}")

unfoldable pub read_hash : Value → Option String
unfolding is_token_hash
read_hash (text hash) = if is_token_hash hash then some hash else none
read_hash _ = none

unfoldable pub evicted : (String → Bool) → Option String → Try (Reply × List Effect)
unfolding reply purged_body
evicted deletes none = reply 400 "bad tokenHash" []
evicted deletes (some hash) = reply 200 (purged_body (deletes hash)) (evict hash ∷ [])

-- `body.name`, which throws for `undefined` and `null`
unfoldable pub read : Value → String → Try Value
unfolding property
read (object f) name = gave (property f name)
read undefined name = threw "TypeError: Cannot read properties of undefined"
read null name = threw "TypeError: Cannot read properties of null"
read _ name = gave undefined

unfoldable pub purge_hash : (String → Bool) → Try Value → Try (Reply × List Effect)
unfolding evicted read_hash
purge_hash deletes (gave v) = evicted deletes (read_hash v)
purge_hash deletes (threw e) = threw e

-- `deletes` tells whether the KV store deletes a key.
unfoldable pub handle_session_purge : (String → Bool) → Try Value → Try (Reply × List Effect)
unfolding purge_hash read reply
handle_session_purge deletes (threw e) = reply 400 "bad json" []
handle_session_purge deletes (gave body) = purge_hash deletes (read body "tokenHash")

array_of : Value → List Value
array_of (array vs) = elements vs
array_of _ = []

-- `body.frame?.kind`
kind_of : Value → Value
unfolding property
kind_of (object f) = property f "kind"
kind_of _ = undefined

is_welcome : Value → Bool
is_welcome (text k) = k == "mls-welcome"
is_welcome _ = false

count_reached : (Value → Bool) → List Value → ℕ
count_reached reaches [] = 0
count_reached reaches (u ∷ us) = let n = count_reached reaches us in if reaches u then suc n else n

notifies : List Value → List Effect
notifies [] = []
notifies (u ∷ us) = notify u ∷ notifies us

unfoldable pub notify_all :
    (Value → Bool) → (Value → String) → List Value → Value → Try (Reply × List Effect)
unfolding reply count_reached notifies is_welcome
notify_all reaches show [] kind = reply 200 "{\"delivered\":0}" []
notify_all reaches show (u ∷ us) kind =
    if not (is_welcome kind)
    then reply 400 (concat "unknown frame kind: " (show kind)) []
    else reply 200
        (concat "{\"delivered\":" (concat (print_nat (count_reached reaches (u ∷ us))) "}"))
        (notifies (u ∷ us))

notify_fields :
    (Value → Bool) → (Value → String) → Try Value → Try Value → Try (Reply × List Effect)
unfolding notify_all array_of kind_of
notify_fields reaches show (gave users) (gave frame) =
    notify_all reaches show (array_of users) (kind_of frame)
notify_fields reaches show (threw e) _ = threw e
notify_fields reaches show (gave users) (threw e) = threw e

unfoldable pub handle_notify :
    (Value → Bool) → (Value → String) → Try Value → Try (Reply × List Effect)
unfolding notify_fields read reply
handle_notify reaches show (threw e) = reply 400 "bad json" []
handle_notify reaches show (gave body) =
    notify_fields reaches show (read body "userIds") (read body "frame")

-- `reaches` tells whether the call of a user's object succeeds; `show` is `String(x)`. What is thrown
-- ends in an error of the platform.
unfoldable pub handle_internal :
    List ℕ
    → (String → Bool)
    → (Value → Bool)
    → (Value → String)
    → Request
    → Try (Reply × List Effect)
unfolding verify_internal_auth handle_session_purge handle_notify reply
handle_internal expected deletes reaches show r =
    if not (r.method == "POST")
    then reply 405 "method not allowed" []
    else if not (verify_internal_auth expected r)
    then reply 401 "unauthorized" []
    else if r.pathname == "/internal/session/purge"
    then handle_session_purge deletes r.json
    else if not (r.pathname == "/internal/notify")
    then reply 404 "not found" []
    else handle_notify reaches show r.json
