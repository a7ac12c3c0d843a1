-- ===== src/Inbox/Devices.antt =====
-- The devices that an inbox reports as attached.
use mortstack.Prelude.{
  String, ◌≡◌, inl, inr, Bool, false, not, ◌&&◌, ◌||◌, ◌==◌, eq_iff, none, some, List, [], ◌∷◌, any,
  arith, Bool-cases, Option-cases,
}
use mortstack.Js.Unique.{member, add, member-add}
use mortstack.Inbox.{Inbox, Socket, device_of, add_devices, attached_device_ids}

-- A socket that is open and carries the device.
abbrev pub carries : String → Socket → Bool
carries device ws =
    ws.is_open && elim ws.attachment [ none ↦ false | some att ↦ att.device_id == device ]

member_device :
    (out : List String) (ws : Socket) (device : String)
    → member (elim (device_of ws) [ none ↦ out | some d ↦ add d out ]) device
      ≡ (member out device || (not (device == "") && carries device ws))
unfolding device_of
member_device out ws device = elim (Bool-cases ws.is_open) [
  | inr e ↦ ground (arith, e)
  | inl e ↦ elim (Option-cases ws.attachment) [
    | inl f ↦ ground (arith, e, f)
    | inr (att, f) ↦ ground (
      arith,
      e,
      f,
      member-add att.device_id device out,
      eq_iff att.device_id device,
      eq_iff att.device_id "",
      eq_iff device "",
    )
  ]
]

member-add_devices :
    (out : List String) (sockets : List Socket) (device : String)
    → member (add_devices out sockets) device
      ≡ (member out device || (not (device == "") && any (carries device) sockets))
unfolding add_devices
member-add_devices out [] device = ground arith
member-add_devices out (ws ∷ sockets) device = ground (
  arith,
  member_device out ws device,
  member-add_devices (elim (device_of ws) [ none ↦ out | some d ↦ add d out ]) sockets device,
)

-- A device is reported as attached exactly when its name is not empty and an open socket carries it.
pub member-attached_device_ids :
    (s : Inbox) (device : String)
    → member (attached_device_ids s) device ≡ (not (device == "") && any (carries device) s.sockets)
unfolding attached_device_ids member
member-attached_device_ids s device = member-add_devices [] s.sockets device
