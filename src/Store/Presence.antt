-- ===== src/Store/Presence.antt =====
-- Typing signals and read marks (store.ts: setTyping, sweepExpiredTyping, setReadReceipt).
use mortstack.Prelude.{
  ℕ, ◌+◌, String, Bool, true, false, not, Option, none, some, [], ◌∷◌, leb, ltb_ℤ, any, keep_if,
  if◌then◌else◌,
}
use mortstack.Js.Dict.{Dict, get, get_or, has, put, remove}
use mortstack.Js.BigInt.{big_int}
use mortstack.Store.{Store}

abbrev pub typing_ttl_ms : ℕ
typing_ttl_ms = 6000

-- The map of a chat goes when it is empty.
abbrev pub put_typers : String → Dict ℕ → Dict (Dict ℕ) → Dict (Dict ℕ)
put_typers chat [] typing = remove chat typing
put_typers chat (t ∷ typers) typing = put chat (t ∷ typers) typing

unfoldable pub set_typing : String → String → Bool → ℕ → Store → Store
set_typing chat user true now s = record s {
  typing = put_typers chat (put user (now + typing_ttl_ms) (get_or s.typing chat [])) s.typing;
}
set_typing chat user false now s =
    let typers = get_or s.typing chat [] in
    if has typers user
    then record s { typing = put_typers chat (remove user typers) s.typing }
    else s

abbrev pub is_live : ℕ → String × ℕ → Bool
is_live now p = not (leb p.1 now)

-- The loop over the chats: those that lose a typer, without the ones that lose all.
unfoldable pub sweep : ℕ → Dict (Dict ℕ) → Dict (Dict ℕ)
sweep now [] = []
sweep now ((chat, typers) ∷ typing) =
    let rest = sweep now typing in
    if any (λ p. leb p.1 now) typers
    then elim (keep_if (is_live now) typers) [ [] ↦ rest | t ∷ live ↦ (chat, t ∷ live) ∷ rest ]
    else (chat, typers) ∷ rest

unfoldable pub sweep_expired_typing : ℕ → Store → Store
unfolding sweep
sweep_expired_typing now s = record s { typing = sweep now s.typing }

-- `none` where `BigInt` throws.
unfoldable pub advances : Option String → String → Option Bool
advances none upto = some true
advances (some current) upto = elim (big_int upto) [
  | none ↦ none
  | some u ↦ elim (big_int current) [ none ↦ none | some c ↦ some (ltb_ℤ c u) ]
]

unfoldable pub set_read_receipt : String → String → String → Store → Store
unfolding advances
set_read_receipt chat user upto s =
    let per_chat = get_or s.read_receipts chat [] in
    elim (advances (get per_chat user) upto) [
      | none ↦ s
      | some advanced ↦
          if advanced
          then record s { read_receipts = put chat (put user upto per_chat) s.read_receipts }
          else s
    ]
