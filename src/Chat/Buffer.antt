-- ===== src/Chat/Buffer.antt =====
-- A send outlives the object that took it.
use mortstack.Prelude.{◌≡◌, inl, inr, true, List, [], ◌∷◌, ◌++◌, arith, Bool-cases}
use mortstack.Chat.{Chat, PendingSend}
use mortstack.Chat.Flush.{
  SendInput, entry_of, push_entry, accept_send, schedule_flush, ensure_buffer_loaded, evict,
}

-- What a flush would send.
abbrev pub buffered : Chat → List PendingSend
buffered s = (ensure_buffer_loaded s).buffer

-- After `acceptSend`, the entry stands at the end of what a flush would send, also when the object leaves
-- memory first, and a flush is scheduled if it does not.
pub accept_send-evict :
    (input : SendInput) (s : Chat)
    → (buffered (accept_send input s).1 ≡ buffered s ++ entry_of input s.clock ∷ [])
      × (buffered (evict (accept_send input s).1) ≡ buffered s ++ entry_of input s.clock ∷ [])
      × ((accept_send input s).1.flush_timer ≡ true)
unfolding accept_send push_entry schedule_flush ensure_buffer_loaded evict
accept_send-evict input s = elim (Bool-cases s.buffer_loaded) [
  | inl e ↦ (ground (arith, e), ground (arith, e), ground (arith, e))
  | inr e ↦ (ground (arith, e), ground (arith, e), ground (arith, e))
]
