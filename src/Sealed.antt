-- ===== src/Sealed.antt =====
-- packages/chat/src/encrypted-transport.ts: the transport that seals and opens frames. What its options
-- look up comes from outside: each look-up is given with its answer.
pub mod Pages
pub mod Sends
pub mod Outcomes
pub mod Cap
pub mod Accepted
use Prim.Native.String.{◌++◌ as concat}
use mortstack.Prelude.{
  ℕ, String, Bool, true, false, Option, none, some, List, [], ◌∷◌, ◌||◌, nat_eq, if◌then◌else◌,
}
use mortstack.Js.Try.{Try, gave, threw}
use mortstack.Js.Pattern.{mentions}
use mortstack.Envelope.{MsgPayload}
use mortstack.Pipe.{ChatFrame, Packages, frame_version_v2}
use mortstack.Pipe.Open.{DecryptInboundOpts, DecryptInboundResult, v1, v2, decrypt_inbound}

-- `resolve_chat_group_id` is `none` where the option is not given; `seed` is what `getMySeed` gives.
pub record TransportOptions : Type 0 where
  pub has_mls : Bool
  pub resolve_chat_group_id : Option (String → Try (Option (List ℕ)))
  pub seed : Try (List ℕ)
  pub resolve_sender_x25519_pubs : String → Try (List (List ℕ))

-- `ok` carries the frame and whether its version is 2.
pub data DecryptOutcome : Type 0 where
  ok : ChatFrame → Bool → DecryptOutcome
  failed : String → DecryptOutcome

unfoldable pub is_recoverable_decrypt_reason : String → Bool
unfolding mentions
is_recoverable_decrypt_reason reason =
    mentions "group not found" reason
    || mentions "no mls_group_id locally" reason
    || mentions "engine not initialised" reason

outcome_v2 : Try DecryptInboundResult → DecryptOutcome
outcome_v2 (gave (v2 f)) = ok f true
outcome_v2 (gave (v1 f key)) = failed "Error: expected v=2 result for v=2 ciphertext"
outcome_v2 (threw reason) = failed reason

outcome_v1 : Try DecryptInboundResult → DecryptOutcome
outcome_v1 (gave (v1 f key)) = ok f false
outcome_v1 (gave (v2 f)) = failed "Error: expected v=1 result for v=1 ciphertext"
outcome_v1 (threw reason) = failed reason

module _ {E : Type 0} (c : Packages E) where
  open_group : E → MsgPayload → Try (Option (List ℕ)) → E × DecryptOutcome
  unfolding decrypt_inbound outcome_v2
  open_group e m (threw err) = (e, failed (concat "groupId lookup failed: " err))
  open_group e m (gave none) =
      (e, failed (concat "v=2 frame for chat " (concat m.chat_id " but no mls_group_id locally")))
  open_group e m (gave (some group_id)) =
      let (e', r) = decrypt_inbound c e (record {
        ciphertext = m.ciphertext;
        nonce = m.nonce;
        seed = [];
        candidate_sender_x25519_pubs = [];
        has_mls = true;
        mls_group_id = some group_id;
      }) in
      (e', outcome_v2 r)

  open_mls : E → MsgPayload → Bool → Option (String → Try (Option (List ℕ))) → E × DecryptOutcome
  unfolding open_group
  open_mls e m true (some resolve) = open_group e m (resolve m.chat_id)
  open_mls e m _ _ = (e, failed "v=2 frame received but no MLS engine configured")

  open_box : E → MsgPayload → Try (List ℕ) → Try (List (List ℕ)) → E × DecryptOutcome
  unfolding decrypt_inbound outcome_v1
  open_box e m (gave seed) (gave candidates) =
      let (e', r) = decrypt_inbound c e (record {
        ciphertext = m.ciphertext;
        nonce = m.nonce;
        seed = seed;
        candidate_sender_x25519_pubs = candidates;
        has_mls = false;
        mls_group_id = none;
      }) in
      (e', outcome_v1 r)
  open_box e m (threw err) _ = (e, failed (concat "pre-decrypt lookup failed: " err))
  open_box e m (gave seed) (threw err) = (e, failed (concat "pre-decrypt lookup failed: " err))

  open_message : TransportOptions → E → MsgPayload → List ℕ → E × DecryptOutcome
  unfolding open_mls open_box
  open_message o e m [] = (e, failed "empty ciphertext")
  open_message o e m (version ∷ rest) =
      if nat_eq version frame_version_v2
      then open_mls e m o.has_mls o.resolve_chat_group_id
      else open_box e m o.seed (o.resolve_sender_x25519_pubs m.sender_id)

  unfoldable pub decrypt_one : TransportOptions → E → MsgPayload → E × DecryptOutcome
  unfolding open_message
  decrypt_one o e m = open_message o e m m.ciphertext
