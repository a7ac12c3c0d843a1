-- ===== src/Validators/Send.antt =====
-- Which `send` frames pass `validateSendFrame` of services/chat-ws/src/validators.ts.
use mortstack.Prelude.{
  ℕ, suc, ◌≤◌, ◌≡◌, refl, ap, ◌∙◌, ◌↔◌, ◌⊎◌, inl, inr, true, false, List, [], ◌∷◌, length, arith,
  Bool-cases,
}
use mortstack.Js.Value.{Value, bytes}
use mortstack.Envelope.{SendFrame}
use mortstack.Validators.{
  valid, frame_version_v1, frame_version_v2, nonce_bytes, box_mac_bytes, is_bytes, is_true,
  validate_versioned, validate_send_frame,
}

-- The frames of the protocol: a plaintext group message, a libsodium box, an MLS message.
pub data IsSendable (f : SendFrame) : Type 0 where
  plaintext :
      (c n : List ℕ)
      → is_true f.unencrypted ≡ true
      → f.ciphertext ≡ bytes c
      → f.nonce ≡ bytes n
      → IsSendable f
  box :
      (c n : List ℕ)
      → is_true f.unencrypted ≡ false
      → f.ciphertext ≡ bytes (frame_version_v1 ∷ c)
      → f.nonce ≡ bytes n
      → suc box_mac_bytes ≤ suc (length c)
      → length n ≡ nonce_bytes
      → IsSendable f
  mls :
      (c : List ℕ)
      → is_true f.unencrypted ≡ false
      → f.ciphertext ≡ bytes (frame_version_v2 ∷ c)
      → f.nonce ≡ bytes []
      → 1 ≤ length c
      → IsSendable f

bytes-cases : (v : Value) → (is_bytes v ≡ false) ⊎ ((b : List ℕ) × (v ≡ bytes b))
bytes-cases (bytes b) = inr (b, refl)
bytes-cases _ = inl refl

module _ (v : ℕ) (c n : List ℕ) (h : validate_versioned (v ∷ c) n ≡ valid) where
  version_of_valid : (v ≡ frame_version_v1) ⊎ (v ≡ frame_version_v2)
  unfolding validate_versioned
  version_of_valid = ground arith

  sizes_of_v1 :
      v ≡ frame_version_v1 → (suc box_mac_bytes ≤ suc (length c)) × (length n ≡ nonce_bytes)
  unfolding validate_versioned
  sizes_of_v1 e = ground arith

  sizes_of_v2 : v ≡ frame_version_v2 → (1 ≤ length c) × (n ≡ [])
  unfolding validate_versioned
  sizes_of_v2 e = ground arith

versioned_sound :
    (f : SendFrame) (c n : List ℕ)
    → is_true f.unencrypted ≡ false
    → f.ciphertext ≡ bytes c
    → f.nonce ≡ bytes n
    → validate_versioned c n ≡ valid
    → IsSendable f
versioned_sound f [] n u p q h = absurd (unfold validate_versioned in cc)
versioned_sound f (v ∷ c) n u p q h = elim (version_of_valid v c n h) [
  | inl e ↦
      let (size, nonce) = sizes_of_v1 v c n h e in
      box c n u (p ∙ ap (λ (x : ℕ). bytes (x ∷ c)) e) q size nonce
  | inr e ↦
      let (size, nonce) = sizes_of_v2 v c n h e in
      mls c u (p ∙ ap (λ (x : ℕ). bytes (x ∷ c)) e) (q ∙ ap bytes nonce) size
]

validate_send_frame_sound : (f : SendFrame) → validate_send_frame f ≡ valid → IsSendable f
unfolding validate_send_frame
validate_send_frame_sound f h = elim (bytes-cases f.ciphertext) [
  | inl e ↦ absurd (ground (arith, e))
  | inr (c, p) ↦ elim (bytes-cases f.nonce) [
    | inl e ↦ absurd (ground (arith, e))
    | inr (n, q) ↦ elim (Bool-cases (is_true f.unencrypted)) [
      | inl u ↦ plaintext c n u p q
      | inr u ↦ versioned_sound f c n u p q (ground arith)
    ]
  ]
]

validate_send_frame_complete : (f : SendFrame) → IsSendable f → validate_send_frame f ≡ valid
unfolding validate_send_frame
validate_send_frame_complete f (plaintext c n u p q) = ground arith
validate_send_frame_complete f (box c n u p q s t) = ground arith
validate_send_frame_complete f (mls c u p q s) = ground arith

-- A `send` frame is accepted exactly when it is a plaintext group message with byte fields, a box
-- with version byte 1, a 24-byte nonce and at least 17 bytes, or an MLS message with version byte 2,
-- an empty nonce and at least 2 bytes.
pub validate_send_frame_iff : (f : SendFrame) → (validate_send_frame f ≡ valid) ↔ IsSendable f
validate_send_frame_iff f = (validate_send_frame_sound f, validate_send_frame_complete f)
