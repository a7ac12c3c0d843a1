-- ===== src/Pipe/Open.antt =====
-- packages/chat/src/crypto-pipe.ts: the way in.
use Prim.Native.String.{◌++◌ as concat}
use mortstack.Prelude.{
  ℕ, String, Bool, true, Option, some, List, [], ◌∷◌, nat_eq, not, length, if◌then◌else◌,
}
use mortstack.Js.Text.{print_nat}
use mortstack.Js.Try.{Try, gave, threw}
use mortstack.Pipe.{
  ChatFrame, Packages, Processed, application, commit_applied, proposal_queued, frame_version_v1,
  frame_version_v2, decrypt_error, parse_frame,
}

pub record DecryptInboundOpts : Type 0 where
  pub ciphertext : List ℕ
  pub nonce : List ℕ
  pub seed : List ℕ
  pub candidate_sender_x25519_pubs : List (List ℕ)
  pub has_mls : Bool
  pub mls_group_id : Option (List ℕ)

-- `v1` carries `usedSenderX25519Pub`.
pub data DecryptInboundResult : Type 0 where
  v1 : ChatFrame → List ℕ → DecryptInboundResult
  v2 : ChatFrame → DecryptInboundResult

as_v1 : List ℕ → Try ChatFrame → Try DecryptInboundResult
as_v1 key (gave f) = gave (v1 f key)
as_v1 key (threw e) = threw e

as_v2 : Try ChatFrame → Try DecryptInboundResult
as_v2 (gave f) = gave (v2 f)
as_v2 (threw e) = threw e

wrong_kind : String → Try DecryptInboundResult
unfolding decrypt_error
wrong_kind kind =
    decrypt_error (concat "v=2 frame processed as " (concat kind ", expected application"))

module _ {E : Type 0} (c : Packages E) where
  open_processed : Try Processed → Try DecryptInboundResult
  unfolding as_v2 wrong_kind parse_frame
  open_processed (gave (application plaintext)) = as_v2 (parse_frame c plaintext frame_version_v2)
  open_processed (gave commit_applied) = wrong_kind "commitApplied"
  open_processed (gave proposal_queued) = wrong_kind "proposalQueued"
  open_processed (threw e) = threw e

  open_v2 : E → Bool → Option (List ℕ) → List ℕ → E × Try DecryptInboundResult
  unfolding decrypt_error open_processed
  open_v2 e true (some group_id) bytes =
      let (e', p) = c.process_message e group_id bytes in (e', open_processed p)
  open_v2 e _ _ bytes =
      (e, decrypt_error "v=2 ciphertext requires mls + mlsGroupId in DecryptInboundOpts")

  -- what is left is tried when the box does not open with this key
  unfoldable pub opened :
      List ℕ → Try (List ℕ) → Try DecryptInboundResult → Try DecryptInboundResult
  unfolding as_v1 parse_frame
  opened key (gave plaintext) rest = as_v1 key (parse_frame c plaintext frame_version_v1)
  opened key (threw e) rest = rest

  unfoldable pub open_v1 : ℕ → List ℕ → List ℕ → List ℕ → List (List ℕ) → Try DecryptInboundResult
  unfolding opened decrypt_error
  open_v1 count cipher nonce seed [] =
      decrypt_error (
        concat "none of " (concat (print_nat count) " candidate keys decrypted the v=1 ciphertext"))
  open_v1 count cipher nonce seed (key ∷ keys) =
      let rest = open_v1 count cipher nonce seed keys in
      opened key (c.box_open cipher nonce key seed) rest

  unfoldable pub open_candidates :
      List ℕ → List ℕ → List ℕ → List (List ℕ) → Try DecryptInboundResult
  unfolding open_v1 decrypt_error
  open_candidates cipher nonce seed [] =
      decrypt_error "no candidate sender X25519 pubs supplied — peer directory empty?"
  open_candidates cipher nonce seed (key ∷ keys) =
      open_v1 (length (key ∷ keys)) cipher nonce seed (key ∷ keys)

  unfoldable pub open_version : E → ℕ → List ℕ → DecryptInboundOpts → E × Try DecryptInboundResult
  unfolding open_v2 open_candidates
  open_version e version bytes opts =
      if nat_eq version frame_version_v2
      then open_v2 e opts.has_mls opts.mls_group_id bytes
      else if not (nat_eq version frame_version_v1)
      then (
        e,
        threw (concat "FrameVersionError: Unsupported chat frame version: " (print_nat version)),
      )
      else (e, open_candidates bytes opts.nonce opts.seed opts.candidate_sender_x25519_pubs)

  open_bytes : E → List ℕ → DecryptInboundOpts → E × Try DecryptInboundResult
  unfolding open_version decrypt_error
  open_bytes e [] opts = (e, decrypt_error "empty ciphertext")
  open_bytes e (version ∷ bytes) opts = open_version e version bytes opts

  unfoldable pub decrypt_inbound : E → DecryptInboundOpts → E × Try DecryptInboundResult
  unfolding open_bytes
  decrypt_inbound e opts = open_bytes e opts.ciphertext opts
