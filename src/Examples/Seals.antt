-- ===== src/Examples/Seals.antt =====
-- A message sealed for two devices and for a group, and a page with a row of a group that is not there.
use mortstack.Prelude.{
  ℕ, zero, suc, String, ◌≡◌, refl, true, false, Option, none, some, List, [], ◌∷◌, map, drop, pos,
  All, arith, nat_eq, ◌-ℤ◌, if◌then◌else◌,
}
use mortstack.Js.Try.{Try, gave, threw}
use mortstack.Js.BigInt.{big_int, print_int}
use mortstack.Js.Value.{has_property, property}
use mortstack.Store.Messages.{serial_value}
use mortstack.Envelope.{BackfilledMessage, BfdFrame}
use mortstack.Pipe.{
  ChatFrameBody, Packages, Processed, application, commit_applied, frame_version_v1,
  frame_version_v2, build_frame, value_of,
}
use mortstack.Pipe.Seal.{FanoutTarget, RecipientDevice, encrypt_outbound, encrypt_outbound_mls}
use mortstack.Pipe.Open.{v1, v2, decrypt_inbound}
use mortstack.Pipe.RoundTrip.{
  inbound, devices_of, decrypt_inbound-encrypt_outbound, decrypt_inbound-encrypt_outbound_mls,
}
use mortstack.Sealed.{TransportOptions, decrypt_one, is_recoverable_decrypt_reason}
use mortstack.Sealed.Pages.{DecryptedRow, DecryptedBackfill, decrypt_backfill}
use mortstack.Sealed.Outcomes.{outcomes}
use mortstack.Sealed.Cap.{IsSound, decrypt_backfill-IsSound}
use mortstack.Sealed.Sends.{EncryptedSendInput, text, send}
use mortstack.Sealed.Accepted.{HasSizes, AreAccepted, send-AreAccepted}

abbrev body : ChatFrameBody
body = ChatFrameBody.msg "hi" none

-- `n` zeros, before what follows
abbrev pad : ℕ → List ℕ → List ℕ
pad zero xs = xs
pad (suc n) xs = 0 ∷ pad n xs

abbrev first : List ℕ → ℕ
first [] = 0
first (x ∷ xs) = x

abbrev unwrap : ℕ → List ℕ → ℕ × Try Processed
unwrap e [] = (e, gave commit_applied)
unwrap e (x ∷ xs) = (suc e, gave (application xs))

-- A box that carries the sender's key in its nonce, and an engine that counts its messages.
abbrev packages : ℕ → Packages ℕ
packages v = record {
  encode = λ d. 7 ∷ [];
  decode = λ b. gave (value_of (build_frame v (pos 5) body));
  show = λ d. "";
  box = λ n p key seed. (pad 16 p, first seed ∷ pad 23 []);
  box_open = λ cipher nonce key seed.
      if nat_eq (first key) (first nonce) then gave (drop 16 cipher) else threw "Error: box";
  encrypt_app = λ e group p. (suc e, gave (9 ∷ p));
  process_message = λ e group b. unwrap e b;
}

abbrev devices : List RecipientDevice
devices =
    record { device_id = "d1"; x25519_pub = 3 ∷ [] }
    ∷ record { device_id = "d2"; x25519_pub = 4 ∷ [] }
    ∷ []

abbrev targets : List FanoutTarget
targets = record { account_id = "u"; devices = devices } ∷ []

decrypt_inbound-encrypt_outbound_example :
    All
      (λ env.
        decrypt_inbound
          (packages 1)
          0
          (inbound (packages 1) ((8 ∷ []) ∷ (1 ∷ []) ∷ []) (λ id. []) env)
        ≡ (0, gave (v1 (build_frame frame_version_v1 (pos 5) body) (1 ∷ []))))
      (encrypt_outbound (packages 1) body targets (1 ∷ []) (pos 5) 0)
    × (map
          (λ env. env.recipient_device_id)
          (encrypt_outbound (packages 1) body targets (1 ∷ []) (pos 5) 0)
        ≡ map (λ d. d.device_id) (devices_of (packages 1) targets))
unfolding value_of build_frame
decrypt_inbound-encrypt_outbound_example =
    decrypt_inbound-encrypt_outbound (packages 1) 0 body targets (1 ∷ []) (1 ∷ []) (pos 5) 0
      ((8 ∷ []) ∷ []) [] (λ id. []) refl
      (
        (
          (λ k p. (refl, (("Error: box", refl), tt))),
          ((λ k p. (refl, (("Error: box", refl), tt))), tt),
        ),
        tt,
      )

decrypt_inbound-encrypt_outbound_mls_example :
    (wire : List ℕ) × ((encrypt_outbound_mls (packages 2) 0 body (6 ∷ []) (pos 5) ≡ (1, gave wire))
      × (decrypt_inbound (packages 2) 0 (record {
        ciphertext = wire;
        nonce = [];
        seed = [];
        candidate_sender_x25519_pubs = [];
        has_mls = true;
        mls_group_id = some (6 ∷ []);
      })
          ≡ (1, gave (v2 (build_frame frame_version_v2 (pos 5) body)))))
unfolding value_of build_frame
decrypt_inbound-encrypt_outbound_mls_example =
    decrypt_inbound-encrypt_outbound_mls (packages 2) 0 1 0 1 body (6 ∷ []) (9 ∷ 7 ∷ []) [] (pos 5)
      refl refl refl

packages-HasSizes : (v : ℕ) → HasSizes (packages v)
packages-HasSizes v = record {
  box_size = λ n p key seed. omega arith;
  nonce_size = λ n p key seed. refl;
  message_size = λ e e' g p b h. ground (arith, h);
}

abbrev group_of : String → Try (Option (List ℕ))
group_of chat_id = gave none

abbrev boxed : TransportOptions
boxed = record {
  has_mls = true;
  resolve_chat_group_id = some group_of;
  seed = gave (1 ∷ []);
  resolve_sender_x25519_pubs = λ id. gave ((1 ∷ []) ∷ []);
}

abbrev input : EncryptedSendInput
input = record { chat_id = "c"; targets = targets; client_msg_id = some "m"; content = text "hi" }

send-AreAccepted_example : AreAccepted (send (packages 1) boxed input none (pos 5) 0 0).1
send-AreAccepted_example =
    send-AreAccepted (packages 1) boxed (packages-HasSizes 1) input none (pos 5) 0 0

abbrev row : String → List ℕ → BackfilledMessage
row id ciphertext = record {
  server_msg_id = id;
  sender_id = "v";
  ciphertext = ciphertext;
  nonce = 1 ∷ [];
  ts = 1;
}

-- the second row is for a group that is not there
abbrev page : BfdFrame
page = record {
  chat_id = "c";
  messages =
      row "5" (1 ∷ pad 16 (7 ∷ [])) ∷ row "6" (2 ∷ 9 ∷ []) ∷ row "7" (1 ∷ pad 16 (7 ∷ [])) ∷ [];
  up_to = "7";
  more = true;
}

decrypt_backfill-IsSound_example :
    (result : DecryptedBackfill) × (((decrypt_backfill (packages 1) boxed page 0).1 ≡ some result)
      × IsSound page (outcomes (packages 1) boxed "c" page.messages 0) result)
unfolding big_int serial_value
decrypt_backfill-IsSound_example =
    decrypt_backfill-IsSound (packages 1) boxed page 0 (pos 7, refl)
      ((pos 5, refl), ((pos 6, refl), ((pos 7, refl), tt)))
      ((omega arith, (omega arith, tt)), ((omega arith, tt), (tt, tt)))

abbrev opened_row : String → DecryptedRow
opened_row id = record {
  chat_id = "c";
  server_msg_id = id;
  sender_id = "v";
  frame = build_frame 1 (pos 5) body;
  is_version_2 = false;
  ts = 1;
}

-- the page ends below the second row
blocked :
    (decrypt_backfill (packages 1) boxed page 0).1
    ≡ some (record {
      chat_id = "c";
      messages = opened_row "5" ∷ opened_row "7" ∷ [];
      reactions = [];
      up_to = "5";
      more = false;
    })
unfolding decrypt_backfill decrypt_one value_of build_frame has_property property
    is_recoverable_decrypt_reason big_int print_int ◌-ℤ◌
blocked = refl
