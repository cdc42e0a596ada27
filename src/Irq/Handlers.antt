-- ===== src/Irq/Handlers.antt =====
-- src/rcrpc/irq.c: the remote procedures irq_enable, irq_get_mask and irq_get_info.
use rcrpc.Base.{
  ℕ, ◌-◌, ◌^◌, Bool, Option, none, some, bit_or, bit_and, if◌then◌else◌, ℤ, pos, neg, is_neg,
  einval, enxio, bit, has_bit,
}
use rcrpc.Irq.State.{
  EventSource, modem, voip, smartcard, hook, handset, ModemState, HookState, SmartcardState,
  VoipState, Payload, Api, IrqData, irq_data_from_manager, irq_data_get_status,
  irq_data_update_from_source,
}

-- The bits of the mask that the client sees.
abbrev pub irq_hook : ℕ
irq_hook = 0

abbrev pub irq_smartcard : ℕ
irq_smartcard = 1

abbrev pub irq_voip : ℕ
irq_voip = 2

abbrev pub irq_io : ℕ
irq_io = 3

abbrev pub irq_modem : ℕ
irq_modem = 4

abbrev pub irq_handset : ℕ
irq_handset = 5

-- `if (status & BIT(source)) *mask |= BIT(irq);`
unfoldable pub report : ℕ → ℕ → ℕ → ℕ → ℕ
report status num irq mask = if has_bit status num then bit_or mask (bit irq) else mask

-- `enum irq_source` of the protocol; `unlisted` is any other number on the wire.
pub data IrqSource : Type 0 where
  source_unknown source_hook source_card source_voip source_io : IrqSource
  source_modem source_handset source_unlisted : IrqSource

-- The five switches of `irq_get_info`, a code and the value for `*info`; `none` is `-ENXIO`.
unfoldable pub hook_info : HookState → Option ℕ
hook_info HookState.off = some 1
hook_info HookState.on = some 0
hook_info HookState.unlisted = none

unfoldable pub smartcard_info : SmartcardState → Option ℕ
smartcard_info SmartcardState.inserted = some 1
smartcard_info SmartcardState.removed = some 0
smartcard_info SmartcardState.unlisted = none

unfoldable pub voip_info : VoipState → Option ℕ
voip_info VoipState.idle = some 0
voip_info VoipState.logged_on = some 1
voip_info VoipState.logged_off = some 2
voip_info VoipState.outgoing = some 5
voip_info VoipState.outgoing_connected = some 3
voip_info VoipState.outgoing_disconnected = some 4
voip_info VoipState.incoming = some 7
voip_info VoipState.incoming_connected = some 3
voip_info VoipState.incoming_disconnected = some 4
voip_info VoipState.incoming_missed = some 8
voip_info VoipState.error_user_busy = some 9
voip_info VoipState.outgoing_earlymedia = some 10
voip_info VoipState.incoming_earlymedia = some 11
voip_info VoipState.unlisted = none

-- `*info = -10` on a `uint32_t`.
unfoldable pub modem_info : ModemState → Option ℕ
modem_info ModemState.ringing = some 7
modem_info ModemState.connected = some 3
modem_info ModemState.disconnected = some 4
modem_info ModemState.error = some (2 ^ 32 - 10)
modem_info ModemState.unlisted = none

-- The low 16 bits are the key, and bit 16 says whether it is down.
unfoldable pub handset_info : ℕ → Bool → ℕ
handset_info keycode pressed =
    let key = bit_and keycode 0xffff in if pressed then bit_or key (bit 16) else key

-- The event source that a read of the interrupt source asks the manager for.
unfoldable pub asked_source : IrqSource → Option EventSource
asked_source source_hook = some hook
asked_source source_card = some smartcard
asked_source source_voip = some voip
asked_source source_modem = some modem
asked_source source_handset = some handset
asked_source _ = none

-- The switch on the state of the event that was asked for.
unfoldable pub decode_info : EventSource → Payload → Option ℕ
unfolding hook_info smartcard_info voip_info modem_info handset_info
decode_info hook p = hook_info p.hook_state
decode_info smartcard p = smartcard_info p.smartcard_state
decode_info voip p = voip_info p.voip_state
decode_info modem p = modem_info p.modem_state
decode_info handset p = some (handset_info p.keycode p.pressed)
decode_info _ p = none

-- What is left of `irq_get_info` after the update: the result and `*info`.
unfoldable pub finish_info : ℤ → EventSource → Payload → ℕ → ℤ × ℕ
unfolding decode_info
finish_info err s p info =
    if is_neg err
    then (err, info)
    else elim (decode_info s p) [ none ↦ (neg enxio, info) | some v ↦ (pos 0, v) ]

-- Sources that ask nothing of the manager: unknown and io succeed, any other number is refused.
unfoldable pub quiet_info : IrqSource → ℤ
quiet_info source_unlisted = neg einval
quiet_info _ = pos 0

module _ {W : Type 0} (api : Api W) where
  open api use {source_num}

  -- A server that the private data leads to; its answer is passed on if it is an error.
  unfoldable pub irq_enable : ℕ → W → ℤ × W
  irq_enable server w =
      let (err, w') = api.irq_event server 0 w in (if is_neg err then (err, w') else (pos 0, w'))

  unfoldable pub report_all : ℕ → ℕ → ℕ
  report_all status mask = report status (source_num handset) irq_handset (
      report status (source_num hook) irq_hook (
        report status (source_num smartcard) irq_smartcard (
          report status (source_num voip) irq_voip
            (report status (source_num modem) irq_modem mask))))

  -- `priv` leads to the event manager. A NULL mask is `none`; a result writes it back.
  unfoldable pub irq_get_mask : Option IrqData → Option ℕ → Option ℕ → ℤ × Option ℕ
  unfolding irq_data_from_manager irq_data_get_status report_all report
  irq_get_mask g none mask = (neg einval, mask)
  irq_get_mask g (some m) none = (neg einval, none)
  irq_get_mask g (some m) (some mask) =
      let (ret, status) = irq_data_get_status (irq_data_from_manager g (some m)) 0 in
      (ret, some (report_all status mask))

  -- The result, `*info`, and the state after.
  unfoldable pub irq_get_info :
      Option IrqData → Option ℕ → IrqSource → ℕ → W → ℤ × ℕ × Option IrqData × W
  unfolding asked_source quiet_info irq_data_update_from_source finish_info
  irq_get_info g m source info w = elim (asked_source source) [
    | none ↦ (quiet_info source, info, g, w)
    | some s ↦
        let (err, p, g', w') = irq_data_update_from_source api g m s w in
        let (ret, info') = finish_info err s p info in (ret, info', g', w')
  ]
