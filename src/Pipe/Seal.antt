-- ===== src/Pipe/Seal.antt =====
-- packages/chat/src/crypto-pipe.ts: the way out.
use mortstack.Prelude.{ℕ, suc, String, List, [], ◌∷◌, ℤ}
use mortstack.Js.Try.{Try, gave, threw}
use mortstack.Pipe.{
  ChatFrameBody, Packages, frame_version_v1, frame_version_v2, build_frame, value_of,
}

pub record RecipientDevice : Type 0 where
  pub device_id : String
  pub x25519_pub : List ℕ

pub record FanoutTarget : Type 0 where
  pub account_id : String
  pub devices : List RecipientDevice

pub record OutboundEnvelope : Type 0 where
  pub recipient_account_id : String
  pub recipient_device_id : String
  pub ciphertext : List ℕ
  pub nonce : List ℕ

module _ {E : Type 0} (c : Packages E) where
  -- `n` boxes were made before
  unfoldable pub seal : List ℕ → List ℕ → String → RecipientDevice → ℕ → OutboundEnvelope
  seal plaintext seed account_id device n =
      let (ciphertext, nonce) = c.box n plaintext device.x25519_pub seed in
      record {
        recipient_account_id = account_id;
        recipient_device_id = device.device_id;
        ciphertext = frame_version_v1 ∷ ciphertext;
        nonce = nonce;
      }

  -- the loops over the targets and over the devices of one, and what follows
  unfoldable pub seal_devices :
      List ℕ
      → List ℕ
      → String
      → List RecipientDevice
      → (ℕ → List OutboundEnvelope)
      → ℕ
      → List OutboundEnvelope
  unfolding seal
  seal_devices plaintext seed account_id [] rest n = rest n
  seal_devices plaintext seed account_id (d ∷ ds) rest n =
      seal plaintext seed account_id d n ∷ seal_devices plaintext seed account_id ds rest (suc n)

  unfoldable pub seal_targets : List ℕ → List ℕ → List FanoutTarget → ℕ → List OutboundEnvelope
  unfolding seal_devices
  seal_targets plaintext seed [] n = []
  seal_targets plaintext seed (t ∷ ts) n =
      seal_devices plaintext seed t.account_id t.devices (seal_targets plaintext seed ts) n

  unfoldable pub encrypt_outbound :
      ChatFrameBody → List FanoutTarget → List ℕ → ℤ → ℕ → List OutboundEnvelope
  unfolding seal_targets build_frame value_of
  encrypt_outbound body targets seed now n =
      seal_targets (c.encode (value_of (build_frame frame_version_v1 now body))) seed targets n

  unfoldable pub wrap : E × Try (List ℕ) → E × Try (List ℕ)
  wrap (e, gave bytes) = (e, gave (frame_version_v2 ∷ bytes))
  wrap (e, threw reason) = (e, threw reason)

  -- The ciphertext of the envelope, whose nonce is empty.
  unfoldable pub encrypt_outbound_mls : E → ChatFrameBody → List ℕ → ℤ → E × Try (List ℕ)
  unfolding wrap build_frame value_of
  encrypt_outbound_mls e body group_id now =
      wrap (c.encrypt_app e group_id (c.encode (value_of (build_frame frame_version_v2 now body))))
