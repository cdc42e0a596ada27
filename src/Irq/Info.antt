-- ===== src/Irq/Info.antt =====
-- What irq_get_info of src/rcrpc/irq.c returns, and how it treats the manager's errors.
use rcrpc.Base.{
  ℕ, ◌^◌, ◌<◌, ◌≡◌, ◌⊎◌, arith, Bool, true, false, ◌&&◌, ◌||◌, Option, bit_and, ==_refl, ◌==◌, ℤ,
  pos, is_neg, bit, testb, testb-bit_or, testb-bit, testb-bit_and, clear_bit_idle, ltb, testb_ones,
}
use rcrpc.Irq.State.{
  EventSource, modem, io, voip, smartcard, hook, handset, other, Payload, Api, IsNumbering, IrqData,
  update_switch, update_status, update_commit, irq_data_update, irq_data_update_from_source,
}
use rcrpc.Irq.Handlers.{
  IrqSource, source_hook, source_card, source_voip, source_modem, source_handset, source_unlisted,
  source_unknown, source_io, finish_info, irq_get_info, handset_info,
}
use rcrpc.Irq.Pending.{pending}

-- Bit `j` of the information on a handset is bit `j` of the key code below 16, and bit 16 says
-- whether the key is down; no bit above is set. So the client can read both back.
handset_info_bits :
    (keycode : ℕ) (pressed : Bool) (j : ℕ)
    → testb (handset_info keycode pressed) j
      ≡ ((testb keycode j && ltb j 16) || (pressed && (16 == j)))
unfolding handset_info
handset_info_bits keycode true j = ground (
  arith,
  testb-bit_or (bit_and keycode 0xffff) (bit 16) j,
  testb-bit_and keycode 0xffff j,
  testb_ones 16 j,
  testb-bit 16 j,
)
handset_info_bits keycode false j = ground (arith, testb-bit_and keycode 0xffff j, testb_ones 16 j)

finish_info_cases :
    (err : ℤ) (s : EventSource) (p : Payload) (info : ℕ)
    → ((finish_info err s p info).0 ≡ pos 0)
      ⊎ ((is_neg (finish_info err s p info).0 ≡ true) × ((finish_info err s p info).1 ≡ info))
unfolding finish_info
finish_info_cases err s p info = ground arith

module _ {W : Type 0} (api : Api W) where
  asked_result :
      (g : Option IrqData) (m : Option ℕ) (s : EventSource) (info : ℕ) (w : W)
      → let r = irq_data_update_from_source api g m s w in
        ((finish_info r.0 s r.1 info).0 ≡ pos 0)
        ⊎ ((is_neg (finish_info r.0 s r.1 info).0 ≡ true) × ((finish_info r.0 s r.1 info).1 ≡ info))
  asked_result g m s info w =
      let r = irq_data_update_from_source api g m s w in finish_info_cases r.0 s r.1 info

  -- irq_get_info returns 0, or else a negated error number with `*info` as the caller left it.
  pub irq_get_info_result :
      (g : Option IrqData) (m : Option ℕ) (source : IrqSource) (info : ℕ) (w : W)
      → ((irq_get_info api g m source info w).0 ≡ pos 0)
        ⊎ ((is_neg (irq_get_info api g m source info w).0 ≡ true)
            × ((irq_get_info api g m source info w).1 ≡ info))
  unfolding irq_get_info
  irq_get_info_result g m source_unknown info w = ground arith
  irq_get_info_result g m source_io info w = ground arith
  irq_get_info_result g m source_unlisted info w = ground arith
  irq_get_info_result g m source_hook info w = asked_result g m hook info w
  irq_get_info_result g m source_card info w = asked_result g m smartcard info w
  irq_get_info_result g m source_voip info w = asked_result g m voip info w
  irq_get_info_result g m source_modem info w = asked_result g m modem info w
  irq_get_info_result g m source_handset info w = asked_result g m handset info w

  update_status_idle :
      (s : EventSource) (err : ℤ) (st : ℕ)
      → IsNumbering api.source_num
      → st < 2 ^ 32
      → testb st (api.source_num s) ≡ false
      → (update_status api s err st).1 ≡ st
  unfolding update_status update_switch
  update_status_idle modem err st n p e =
      ground (arith, clear_bit_idle st (api.source_num modem) p (n.fits modem) e)
  update_status_idle voip err st n p e =
      ground (arith, clear_bit_idle st (api.source_num voip) p (n.fits voip) e)
  update_status_idle smartcard err st n p e =
      ground (arith, clear_bit_idle st (api.source_num smartcard) p (n.fits smartcard) e)
  update_status_idle hook err st n p e =
      ground (arith, clear_bit_idle st (api.source_num hook) p (n.fits hook) e)
  update_status_idle handset err st n p e =
      ground (arith, clear_bit_idle st (api.source_num handset) p (n.fits handset) e)
  update_status_idle io err st n p e = ground arith
  update_status_idle other err st n p e = ground arith

  -- An update of a source that is not pending returns what the notification of the client returns:
  -- the manager's own error is dropped.
  pub irq_data_update_masks :
      (d : IrqData) (m : ℕ) (s : EventSource) (w : W)
      → IsNumbering api.source_num
      → d.irq_status < 2 ^ 32
      → pending api d s ≡ false
      → (irq_data_update api d m s w).0
        ≡ (api.irq_event d.server 0 (api.get_source_state m s api.zeroed w).2).0
  unfolding irq_data_update update_commit
  irq_data_update_masks d m s w n p e = ground (
    arith,
    update_status_idle s (api.get_source_state m s api.zeroed w).0 d.irq_status n p e,
    ==_refl d.irq_status,
  )
