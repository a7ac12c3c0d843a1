-- ===== src/Sealed/Accepted.antt =====
-- What the client sends is what the server accepts.
use mortstack.Prelude.{
  ℕ, suc, ◌≤◌, String, ◌≡◌, refl, Bool, true, false, Option, none, some, List, [], ◌∷◌, map, length,
  ℤ, All, arith,
}
use mortstack.Js.Try.{Try, gave, threw}
use mortstack.Validators.{valid, validate_send_frame, nonce_bytes, box_mac_bytes}
use mortstack.Validators.Send.{box, mls, validate_send_frame_iff}
use mortstack.Transport.{SendInput}
use mortstack.Transport.Calls.{frame_of}
use mortstack.Pipe.{Packages}
use mortstack.Pipe.Seal.{
  RecipientDevice, FanoutTarget, OutboundEnvelope, seal, seal_devices, seal_targets,
  encrypt_outbound, encrypt_outbound_mls, wrap,
}
use mortstack.Sealed.{TransportOptions}
use mortstack.Sealed.Sends.{
  EncryptedSendInput, device_send, group_send, boxes, one, to_group, route, send,
}

-- The server's validator accepts the frame that the transport makes of it, whatever its id.
abbrev pub IsAccepted : SendInput → Type 0
IsAccepted i = (id : String) → validate_send_frame (frame_of i id) ≡ valid

abbrev pub AreAccepted : Try (List SendInput) → Type 0
AreAccepted (gave sends) = All IsAccepted sends
AreAccepted (threw err) = Unit

-- Box: 16 bytes more than the plaintext, and a nonce of 24; an MLS message has at least one byte.
pub record HasSizes {E : Type 0} (c : Packages E) : Type 0 where
  pub box_size :
      (n : ℕ) (p pub_key seed : List ℕ) → box_mac_bytes ≤ length (c.box n p pub_key seed).0
  pub nonce_size :
      (n : ℕ) (p pub_key seed : List ℕ) → length (c.box n p pub_key seed).1 ≡ nonce_bytes
  pub message_size :
      (e e' : E) (group p b : List ℕ) → c.encrypt_app e group p ≡ (e', gave b) → 1 ≤ length b

module _ {E : Type 0} (c : Packages E) (o : TransportOptions) (h : HasSizes c)
    (input : EncryptedSendInput) where
  seal-IsAccepted :
      (p seed : List ℕ) (account : String) (d : RecipientDevice) (n : ℕ)
      → IsAccepted (device_send input (seal c p seed account d n))
  unfolding seal device_send frame_of
  seal-IsAccepted p seed account d n id = (validate_send_frame_iff _).1 (
      box (c.box n p d.x25519_pub seed).0 (c.box n p d.x25519_pub seed).1 refl refl refl
        (omega (arith, h.box_size n p d.x25519_pub seed)) (h.nonce_size n p d.x25519_pub seed))

  seal_devices-IsAccepted :
      (p seed : List ℕ) (account : String) (ds : List RecipientDevice)
      (rest : ℕ → List OutboundEnvelope) (n : ℕ)
      → ((m : ℕ) → All IsAccepted (map (device_send input) (rest m)))
      → All IsAccepted (map (device_send input) (seal_devices c p seed account ds rest n))
  unfolding seal_devices
  seal_devices-IsAccepted p seed account [] rest n k = k n
  seal_devices-IsAccepted p seed account (d ∷ ds) rest n k =
      (seal-IsAccepted p seed account d n, seal_devices-IsAccepted p seed account ds rest (suc n) k)

  seal_targets-IsAccepted :
      (p seed : List ℕ) (ts : List FanoutTarget) (n : ℕ)
      → All IsAccepted (map (device_send input) (seal_targets c p seed ts n))
  unfolding seal_targets
  seal_targets-IsAccepted p seed [] n = tt
  seal_targets-IsAccepted p seed (t ∷ ts) n =
      seal_devices-IsAccepted p seed t.account_id t.devices (seal_targets c p seed ts) n
        (seal_targets-IsAccepted p seed ts)

  boxes-AreAccepted :
      (now : ℤ) (n : ℕ) (seed : Try (List ℕ)) → AreAccepted (boxes c o input now n seed)
  unfolding boxes encrypt_outbound
  boxes-AreAccepted now n (gave seed) = seal_targets-IsAccepted _ seed input.targets n
  boxes-AreAccepted now n (threw e) = tt

  group_send-IsAccepted : (b : List ℕ) → 1 ≤ length b → IsAccepted (group_send input (2 ∷ b))
  unfolding group_send frame_of
  group_send-IsAccepted b k id = (validate_send_frame_iff _).1 (mls b refl refl refl k)

  wrap-AreAccepted :
      (r : E × Try (List ℕ))
      → ((e' : E) (b : List ℕ) → r ≡ (e', gave b) → 1 ≤ length b)
      → AreAccepted (one c o input (wrap c r).1)
  unfolding one wrap
  wrap-AreAccepted (e', gave b) k = (group_send-IsAccepted b (k e' b refl), tt)
  wrap-AreAccepted (e', threw err) k = tt

  to_group-AreAccepted :
      (name : Option String) (now : ℤ) (n : ℕ) (e : E) (r : Try (Option (List ℕ)))
      → AreAccepted (to_group c o input name now n e r).1
  unfolding to_group encrypt_outbound_mls
  to_group-AreAccepted name now n e (threw err) = tt
  to_group-AreAccepted name now n e (gave none) = boxes-AreAccepted now n o.seed
  to_group-AreAccepted name now n e (gave (some g)) =
      wrap-AreAccepted _ (λ e' b. h.message_size e e' g _ b)

  route-AreAccepted :
      (name : Option String) (now : ℤ) (n : ℕ) (e : E) (b : Bool)
      (r : Option (String → Try (Option (List ℕ))))
      → AreAccepted (route c o input name now n e b r).1
  unfolding route
  route-AreAccepted name now n e true (some resolve) =
      to_group-AreAccepted name now n e (resolve input.chat_id)
  route-AreAccepted name now n e false r = boxes-AreAccepted now n o.seed
  route-AreAccepted name now n e true none = boxes-AreAccepted now n o.seed

-- With a box that adds 16 bytes and draws a nonce of 24, and an MLS engine whose messages are not empty,
-- every frame that an encrypted send hands to the transport, as a box for each device or as one MLS
-- message, is accepted by the validator of the server.
pub send-AreAccepted :
    {E : Type 0} (c : Packages E) (o : TransportOptions) (h : HasSizes c)
    (input : EncryptedSendInput) (name : Option String) (now : ℤ) (n : ℕ) (e : E)
    → AreAccepted (send c o input name now n e).1
unfolding send
send-AreAccepted c o h input name now n e =
    route-AreAccepted c o h input name now n e o.has_mls o.resolve_chat_group_id
