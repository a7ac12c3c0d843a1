-- ===== src/Pipe/RoundTrip.antt =====
-- What is sealed for a device opens on it.
use mathlib.Core.List.{map-append}
use mortstack.Prelude.{
  ℕ, suc, String, ◌≡◌, refl, ap, sym, ◌∙◌, none, some, true, false, List, [], ◌∷◌, ◌++◌, map, ℤ,
  pos, All, int_eq_iff, length,
}
use mortstack.Js.Try.{gave, threw}
use mortstack.Js.Value.{Value, property, has_property}
use mortstack.Pipe.{
  ChatFrame, ChatFrameBody, add, del, Packages, application, frame_version_v1, frame_version_v2,
  build_frame, value_of, op_text, parse_value, parse_frame,
}
use mortstack.Pipe.Seal.{
  RecipientDevice, FanoutTarget, OutboundEnvelope, seal, seal_devices, seal_targets,
  encrypt_outbound, encrypt_outbound_mls,
}
use mortstack.Pipe.Open.{
  DecryptInboundOpts, v1, v2, open_v1, open_candidates, open_version, decrypt_inbound,
}

parse_value-value_of :
    (show : Value → String) (v : ℕ) (ts : ℤ) (body : ChatFrameBody)
    → parse_value show v (value_of (build_frame v ts body)) ≡ gave (build_frame v ts body)
unfolding parse_value value_of build_frame op_text property has_property
parse_value-value_of show v ts (ChatFrameBody.msg t none) =
    rw ((int_eq_iff (pos v) (pos v)).1 refl) refl
parse_value-value_of show v ts (ChatFrameBody.msg t (some s)) =
    rw ((int_eq_iff (pos v) (pos v)).1 refl) refl
parse_value-value_of show v ts (ChatFrameBody.rx t e add) =
    rw ((int_eq_iff (pos v) (pos v)).1 refl) refl
parse_value-value_of show v ts (ChatFrameBody.rx t e del) =
    rw ((int_eq_iff (pos v) (pos v)).1 refl) refl

module _ {E : Type 0} (c : Packages E) where
  abbrev pub IsCoded : Value → Type 0
  IsCoded d = c.decode (c.encode d) ≡ gave d

  parse_frame-encode :
      (v : ℕ) (ts : ℤ) (body : ChatFrameBody)
      → IsCoded (value_of (build_frame v ts body))
      → parse_frame c (c.encode (value_of (build_frame v ts body))) v ≡ gave (build_frame v ts body)
  unfolding parse_frame
  parse_frame-encode v ts body coded = rw coded (parse_value-value_of c.show v ts body)

  -- The box that `seed` makes for the device opens with the sender's key on the device, and with none
  -- of the others.
  abbrev pub Opens : List ℕ → List ℕ → List (List ℕ) → (String → List ℕ) → RecipientDevice → Type 0
  Opens seed my_pub others seed_of d =
      (k : ℕ) (p : List ℕ)
      → (c.box_open (c.box k p d.x25519_pub seed).0 (c.box k p d.x25519_pub seed).1 my_pub
            (seed_of d.device_id)
          ≡ gave p)
        × All
            (λ key.
              (reason : String) × (c.box_open (c.box k p d.x25519_pub seed).0
                  (c.box k p d.x25519_pub seed).1 key (seed_of d.device_id)
                ≡ threw reason))
            others

  abbrev pub inbound : List (List ℕ) → (String → List ℕ) → OutboundEnvelope → DecryptInboundOpts
  inbound keys seed_of env = record {
    ciphertext = env.ciphertext;
    nonce = env.nonce;
    seed = seed_of env.recipient_device_id;
    candidate_sender_x25519_pubs = keys;
    has_mls = false;
    mls_group_id = none;
  }

  abbrev pub devices_of : List FanoutTarget → List RecipientDevice
  devices_of [] = []
  devices_of (t ∷ ts) = t.devices ++ devices_of ts

  open_v1_skips :
      (n : ℕ) (cipher nonce seed key : List ℕ) (others later : List (List ℕ)) (plaintext : List ℕ)
      (f : ChatFrame)
      → All (λ k. (reason : String) × (c.box_open cipher nonce k seed ≡ threw reason)) others
      → c.box_open cipher nonce key seed ≡ gave plaintext
      → parse_frame c plaintext frame_version_v1 ≡ gave f
      → open_v1 c n cipher nonce seed (others ++ key ∷ later) ≡ gave (v1 f key)
  unfolding open_v1
  open_v1_skips n cipher nonce seed key [] later plaintext f h o p = rw (o, p) refl
  open_v1_skips n cipher nonce seed key (k ∷ others) later plaintext f h o p =
      rw (h.0.1) (open_v1_skips n cipher nonce seed key others later plaintext f h.1 o p)

  open_candidates_skips :
      (cipher nonce seed key : List ℕ) (others later : List (List ℕ)) (plaintext : List ℕ)
      (f : ChatFrame)
      → All (λ k. (reason : String) × (c.box_open cipher nonce k seed ≡ threw reason)) others
      → c.box_open cipher nonce key seed ≡ gave plaintext
      → parse_frame c plaintext frame_version_v1 ≡ gave f
      → open_candidates c cipher nonce seed (others ++ key ∷ later) ≡ gave (v1 f key)
  unfolding open_candidates
  open_candidates_skips cipher nonce seed key [] later =
      open_v1_skips (length (key ∷ later)) cipher nonce seed key [] later
  open_candidates_skips cipher nonce seed key (k ∷ others) later =
      open_v1_skips (length (k ∷ others ++ key ∷ later)) cipher nonce seed key (k ∷ others) later

  module _ (e : E) (body : ChatFrameBody) (seed my_pub : List ℕ) (now : ℤ)
      (others later : List (List ℕ)) (seed_of : String → List ℕ)
      (coded : IsCoded (value_of (build_frame frame_version_v1 now body))) where
    abbrev IsOpened : OutboundEnvelope → Type 0
    IsOpened env =
        decrypt_inbound c e (inbound (others ++ my_pub ∷ later) seed_of env)
        ≡ (e, gave (v1 (build_frame frame_version_v1 now body) my_pub))

    abbrev sealed : List ℕ
    sealed = c.encode (value_of (build_frame frame_version_v1 now body))

    seal-IsOpened :
        (account : String) (d : RecipientDevice) (n : ℕ)
        → Opens seed my_pub others seed_of d
        → IsOpened (seal c sealed seed account d n)
    unfolding seal decrypt_inbound open_version
    seal-IsOpened account d n h =
        ap (λ r. (e, r))
          (open_candidates_skips _ _ (seed_of d.device_id) my_pub others later sealed
            (build_frame frame_version_v1 now body) (h n sealed).1 (h n sealed).0
            (parse_frame-encode frame_version_v1 now body coded))

    seal_devices-IsOpened :
        (account : String) (ds : List RecipientDevice) (rest : ℕ → List OutboundEnvelope) (n : ℕ)
        → All (Opens seed my_pub others seed_of) ds
        → ((m : ℕ) → All IsOpened (rest m))
        → All IsOpened (seal_devices c sealed seed account ds rest n)
    unfolding seal_devices
    seal_devices-IsOpened account [] rest n h k = k n
    seal_devices-IsOpened account (d ∷ ds) rest n h k =
        (seal-IsOpened account d n h.0, seal_devices-IsOpened account ds rest (suc n) h.1 k)

    seal_targets-IsOpened :
        (ts : List FanoutTarget) (n : ℕ)
        → All (λ t. All (Opens seed my_pub others seed_of) t.devices) ts
        → All IsOpened (seal_targets c sealed seed ts n)
    unfolding seal_targets
    seal_targets-IsOpened [] n h = tt
    seal_targets-IsOpened (t ∷ ts) n h =
        seal_devices-IsOpened t.account_id t.devices (seal_targets c sealed seed ts) n h.0
          (λ m. seal_targets-IsOpened ts m h.1)

  ids-seal_devices :
      (p seed : List ℕ) (account : String) (ds : List RecipientDevice)
      (rest : ℕ → List OutboundEnvelope) (n : ℕ) (ids : List String)
      → ((m : ℕ) → map (λ env. env.recipient_device_id) (rest m) ≡ ids)
      → map (λ env. env.recipient_device_id) (seal_devices c p seed account ds rest n)
        ≡ map (λ d. d.device_id) ds ++ ids
  unfolding seal_devices seal
  ids-seal_devices p seed account [] rest n ids h = h n
  ids-seal_devices p seed account (d ∷ ds) rest n ids h =
      ap (◌∷◌ d.device_id) (ids-seal_devices p seed account ds rest (suc n) ids h)

  ids-seal_targets :
      (p seed : List ℕ) (ts : List FanoutTarget) (n : ℕ)
      → map (λ env. env.recipient_device_id) (seal_targets c p seed ts n)
        ≡ map (λ d. d.device_id) (devices_of ts)
  unfolding seal_targets
  ids-seal_targets p seed [] n = refl
  ids-seal_targets p seed (t ∷ ts) n =
      ids-seal_devices p seed t.account_id t.devices (seal_targets c p seed ts) n
        (map (λ d. d.device_id) (devices_of ts)) (ids-seal_targets p seed ts)
      ∙ sym (map-append (λ d. d.device_id) t.devices (devices_of ts))

  -- With a codec that decodes the frame that it encoded, and a box that opens with the sender's key on the device
  -- that it was made for and with none of the keys tried before, encryptOutbound makes one envelope for
  -- each device of each target, in their order, and decryptInbound of every envelope, on its device,
  -- gives the frame of the body.
  pub decrypt_inbound-encrypt_outbound :
      (e : E) (body : ChatFrameBody) (targets : List FanoutTarget) (seed my_pub : List ℕ) (now : ℤ)
      (n : ℕ) (others later : List (List ℕ)) (seed_of : String → List ℕ)
      → IsCoded (value_of (build_frame frame_version_v1 now body))
      → All (λ t. All (Opens seed my_pub others seed_of) t.devices) targets
      → All
          (λ env.
            decrypt_inbound c e (inbound (others ++ my_pub ∷ later) seed_of env)
            ≡ (e, gave (v1 (build_frame frame_version_v1 now body) my_pub)))
          (encrypt_outbound c body targets seed now n)
        × (map (λ env. env.recipient_device_id) (encrypt_outbound c body targets seed now n)
            ≡ map (λ d. d.device_id) (devices_of targets))
  unfolding encrypt_outbound
  decrypt_inbound-encrypt_outbound e body targets seed my_pub now n others later seed_of coded h = (
    seal_targets-IsOpened e body seed my_pub now others later seed_of coded targets n h,
    ids-seal_targets _ seed targets n,
  )

  -- With a codec that decodes the frame that it encoded, where the engine of the receiver opens what the engine of
  -- the sender encrypted, decryptInbound of the version 2 envelope gives the frame of the body, and the
  -- receiver's engine is left as it was by the message.
  pub decrypt_inbound-encrypt_outbound_mls :
      (e e' r r' : E) (body : ChatFrameBody) (group bytes nonce : List ℕ) (now : ℤ)
      → IsCoded (value_of (build_frame frame_version_v2 now body))
      → c.encrypt_app e group (c.encode (value_of (build_frame frame_version_v2 now body)))
        ≡ (e', gave bytes)
      → c.process_message r group bytes
        ≡ (r', gave (application (c.encode (value_of (build_frame frame_version_v2 now body)))))
      → (wire : List ℕ) × ((encrypt_outbound_mls c e body group now ≡ (e', gave wire))
          × (decrypt_inbound c r (record {
            ciphertext = wire;
            nonce = nonce;
            seed = [];
            candidate_sender_x25519_pubs = [];
            has_mls = true;
            mls_group_id = some group;
          })
              ≡ (r', gave (v2 (build_frame frame_version_v2 now body)))))
  unfolding encrypt_outbound_mls decrypt_inbound open_version
  decrypt_inbound-encrypt_outbound_mls e e' r r' body group bytes nonce now coded sent got = (
    frame_version_v2 ∷ bytes,
    (rw sent refl, rw (got, parse_frame-encode frame_version_v2 now body coded) refl),
  )
