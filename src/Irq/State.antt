-- ===== src/Irq/State.antt =====
-- src/rcrpc/irq.c: the recorded interrupt status, the event callback and the update on a read.
use rcrpc.Base.{
  ℕ, ◌<◌, ◌≡◌, Bool, true, false, ◌&&◌, Option, none, some, bit_or, if◌then◌else◌, ◌==◌, ℤ, pos,
  neg, is_neg, eq_ℤ, einval, enxio, enosys, enodata, bit, clear_bit,
}

-- `enum event_source`; `other` is any value that the code has no case for.
pub data EventSource : Type 0 where
  modem io voip smartcard hook handset other : EventSource

-- The states that an event carries, a type for each member of the union.
pub data ModemState : Type 0 where
  ringing connected disconnected error unlisted : ModemState

pub data HookState : Type 0 where
  off on unlisted : HookState

pub data SmartcardState : Type 0 where
  inserted removed unlisted : SmartcardState

pub data VoipState : Type 0 where
  idle logged_on logged_off outgoing outgoing_connected outgoing_disconnected : VoipState
  incoming incoming_connected incoming_disconnected incoming_missed : VoipState
  error_user_busy outgoing_earlymedia incoming_earlymedia unlisted : VoipState

-- `struct event` without its source, which the callers of this model pass beside it.
pub record Payload : Type 0 where
  pub modem_state : ModemState
  pub hook_state : HookState
  pub smartcard_state : SmartcardState
  pub voip_state : VoipState
  pub keycode : ℕ
  pub pressed : Bool

-- What the code calls and does not implement. `W` is the state of everything outside: the event
-- manager and the connection. The numbers of the sources come from the headers of remote-control.
pub record Api (W : Type 0) : Type 0 where
  pub source_num : EventSource → ℕ
  -- `memset(&event, 0, sizeof(event))`
  pub zeroed : Payload
  -- `RPC_STUB(irq_event)(server, type)`
  pub irq_event : ℕ → ℕ → W → ℤ × W
  -- `event_manager_get_source_state(manager, event)`
  pub get_source_state : ℕ → EventSource → Payload → W → ℤ × Payload × W

-- The headers give the sources distinct numbers that fit the 32 bits of the status.
pub record IsNumbering (num : EventSource → ℕ) : Type 0 where
  pub fits : (s : EventSource) → num s < 32
  pub distinct : (s t : EventSource) → num s ≡ num t → s ≡ t

-- `struct irq_data`, the pointers to the server and to the manager as numbers.
pub record IrqData : Type 0 where
  pub server : ℕ
  pub irq_status : ℕ  -- uint32_t
  pub manager : ℕ

-- The global `irq_event_data` is an `Option IrqData`; the manager NULL is `none`.
unfoldable pub irq_data_from_manager : Option IrqData → Option ℕ → Option IrqData
irq_data_from_manager none m = none
irq_data_from_manager (some d) none = none
irq_data_from_manager (some d) (some m) = if d.manager == m then some d else none

-- `irq_data_get_status` at a pointer to a status that the caller holds.
unfoldable pub irq_data_get_status : Option IrqData → ℕ → ℤ × ℕ
irq_data_get_status none status = (neg einval, status)
irq_data_get_status (some d) status = (pos 0, d.irq_status)

-- The value of `ret < 0 ? ret : 0`.
abbrev pub or_zero : ℤ → ℤ
or_zero r = if is_neg r then r else pos 0

module _ {W : Type 0} (api : Api W) where
  open api use {source_num, irq_event, get_source_state}

  -- The switch of `irq_event_cb`.
  unfoldable pub event_mask : EventSource → Option ℕ
  event_mask other = none
  event_mask s = some (bit (source_num s))

  -- The end of `irq_event_cb`: notify the client and record the bit.
  unfoldable pub irq_raise : IrqData → ℕ → W → ℤ × IrqData × W
  irq_raise d b w = if b == d.irq_status then (pos 0, d, w) else (
    or_zero (irq_event d.server 0 w).0,
    record d { irq_status = bit_or d.irq_status b },
    (irq_event d.server 0 w).1,
  )

  unfoldable pub irq_event_known : IrqData → EventSource → W → ℤ × IrqData × W
  unfolding event_mask irq_raise
  irq_event_known d s w = elim (event_mask s) [
    | none ↦ (neg enxio, d, w)
    | some b ↦ irq_raise d b w
  ]

  -- The callback's `data` is the structure that `irq_event_data` points to.
  unfoldable pub irq_event_cb : Option IrqData → Option EventSource → W → ℤ × Option IrqData × W
  unfolding irq_event_known
  irq_event_cb none e w = (neg einval, none, w)
  irq_event_cb (some d) none w = (neg einval, some d, w)
  irq_event_cb (some d) (some s) w = let (ret, d', w') = irq_event_known d s w in (ret, some d', w')

  -- The error and the status that the switch of `irq_data_update_from_source` leaves.
  unfoldable pub update_switch : EventSource → ℤ → ℕ → ℤ × ℕ
  update_switch modem err st = (err, clear_bit st (source_num modem))
  update_switch voip err st = (err, clear_bit st (source_num voip))
  update_switch smartcard err st = (err, clear_bit st (source_num smartcard))
  update_switch hook err st = (err, clear_bit st (source_num hook))
  update_switch handset err st = (err, st)
  update_switch _ err st = (neg enosys, st)

  abbrev is_handset : EventSource → Bool
  is_handset handset = true
  is_handset _ = false

  -- An empty key queue of the handset is no error, and ends its interrupt.
  unfoldable pub update_status : EventSource → ℤ → ℕ → ℤ × ℕ
  unfolding update_switch
  update_status s err st =
      if eq_ℤ err (neg enodata) && is_handset s
      then update_switch s (pos 0) (clear_bit st (source_num handset))
      else update_switch s err st

  -- The last test of `irq_data_update_from_source`.
  unfoldable pub update_commit : IrqData → ℤ → ℕ → W → ℤ × IrqData × W
  update_commit d err st w =
      if st == d.irq_status
      then ((irq_event d.server 0 w).0, d, (irq_event d.server 0 w).1)
      else (err, record d { irq_status = st }, w)

  -- The update of the data at hand: its error, the payload that the manager filled in, the new data.
  unfoldable pub irq_data_update : IrqData → ℕ → EventSource → W → ℤ × Payload × IrqData × W
  unfolding update_status update_commit
  irq_data_update d m s w =
      let (err, p, w') = get_source_state m s api.zeroed w in
      let (err', st) = update_status s err d.irq_status in
      let (ret, d', w'') = update_commit d err' st w' in (ret, p, d', w'')

  -- `irq_data_update_from_source`, with the event's payload zeroed as `irq_get_info` calls it.
  unfoldable pub irq_data_update_from_source :
      Option IrqData → Option ℕ → EventSource → W → ℤ × Payload × Option IrqData × W
  unfolding irq_data_from_manager irq_data_update
  irq_data_update_from_source g none s w = (neg einval, api.zeroed, g, w)
  irq_data_update_from_source g (some m) s w = elim (irq_data_from_manager g (some m)) [
    | none ↦ (neg einval, api.zeroed, g, w)
    | some d ↦ let (ret, p, d', w') = irq_data_update d m s w in (ret, p, some d', w')
  ]

-- `rpc_irq_init`: a zeroed structure. The callback's registration is the manager's.
unfoldable pub rpc_irq_init : ℕ → ℕ → Option IrqData
rpc_irq_init server manager = some (record { server = server; irq_status = 0; manager = manager })

-- `rpc_irq_cleanup`.
unfoldable pub rpc_irq_cleanup : Option IrqData → Option IrqData
rpc_irq_cleanup none = none
rpc_irq_cleanup (some d) = none
