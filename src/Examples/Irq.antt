-- ===== src/Examples/Irq.antt =====
-- src/rcrpc/irq.c at a manager with seven numbered sources, over a connection that counts its calls.
use rcrpc.Base.{
  ℕ, suc, ◌<◌, ◌≡◌, refl, arith, true, false, ◌&&◌, ◌||◌, not, some, List, [], ◌∷◌, ℤ, pos, neg,
  testb,
}
use rcrpc.Commands.IrqPoll.{exec_irq_poll}
use rcrpc.Commands.IrqPolled.{irq_loopback, exec_irq_poll-pending}
use rcrpc.Irq.Io.{run-io}
use rcrpc.Irq.State.{
  EventSource, modem, io, voip, smartcard, hook, handset, other, ModemState, HookState,
  SmartcardState, VoipState, Api, IsNumbering, IrqData, irq_data_update, rpc_irq_init,
}
use rcrpc.Irq.Handlers.{source_hook, source_voip, source_io, irq_get_mask, irq_get_info}
use rcrpc.Irq.Pending.{pending, same, is_taken, irq_data_update-pending}
use rcrpc.Irq.Mask.{shown, irq_get_mask_bits}
use rcrpc.Irq.Info.{irq_data_update_masks}
use rcrpc.Irq.Trace.{Request, event, read, run, pending_in, still_pending, run-pending}

abbrev number : EventSource → ℕ
number modem = 0
number io = 1
number voip = 2
number smartcard = 3
number hook = 4
number handset = 5
number other = 6

-- The manager answers with an incoming call, and with -5 for the smart card.
abbrev api : Api ℕ
api = record {
  source_num = number;
  zeroed = record {
    modem_state = ModemState.ringing;
    hook_state = HookState.off;
    smartcard_state = SmartcardState.removed;
    voip_state = VoipState.incoming;
    keycode = 7;
    pressed = true;
  };
  irq_event = λ server type w. (pos 0, suc w);
  get_source_state = λ m s p w. (answer s, p, w);
}
  where
    answer : EventSource → ℤ
    answer smartcard = neg 5
    answer _ = pos 0

number-IsNumbering : IsNumbering number
number-IsNumbering = record { fits = fits; distinct = distinct }
  where
    fits : (s : EventSource) → number s < 32
    fits s = ground arith

    distinct : (s t : EventSource) → number s ≡ number t → s ≡ t
    distinct s t e = ground arith

-- The hook is pending.
abbrev ringing : IrqData
ringing = record { server = 1; irq_status = 16; manager = 9 }

irq_data_update-pending_example : pending api (irq_data_update api ringing 9 hook 0).2 hook ≡ (
    pending api ringing hook
    && not (is_taken hook (api.get_source_state 9 hook api.zeroed 0).0 && same hook hook))
irq_data_update-pending_example =
    irq_data_update-pending api number-IsNumbering ringing 9 hook hook 0 (omega arith)

irq_get_mask_bits_example :
    (mask' : ℕ) × (irq_get_mask api (some ringing) (some 9) (some 0) ≡ (pos 0, some mask'))
    × ((j : ℕ) → testb mask' j ≡ (testb 0 j || shown api ringing j))
irq_get_mask_bits_example = irq_get_mask_bits api ringing 0

-- The manager's -5 becomes 0.
irq_data_update_masks_example :
    (irq_data_update api ringing 9 smartcard 0).0
    ≡ (api.irq_event 1 0 (api.get_source_state 9 smartcard api.zeroed 0).2).0
irq_data_update_masks_example =
    irq_data_update_masks api ringing 9 smartcard 0 number-IsNumbering (omega arith) refl

abbrev requests : List Request
requests = event io ∷ event voip ∷ read source_hook 0 ∷ read source_io 0 ∷ []

run-pending_example :
    pending_in api (run api 9 (some ringing) 0 requests).0 hook
    ≡ still_pending hook (pending_in api (some ringing) hook) requests
run-pending_example =
    run-pending api number-IsNumbering 9 (some ringing) 0 hook requests (refl, omega arith)
      (λ e. cc) (λ e. cc)

abbrev stuck : IrqData
stuck = record { server = 1; irq_status = 2; manager = 9 }

run-io_example : pending_in api (run api 9 (some stuck) 0 requests).0 io ≡ true
run-io_example = run-io api number-IsNumbering 9 (some stuck) 0 requests (refl, omega arith) refl

-- The number of the incoming call, and the end of its interrupt.
incoming_call :
    irq_get_info api (rpc_irq_init 1 9) (some 9) source_voip 0 0
    ≡ (pos 0, 7, some (record { server = 1; irq_status = 0; manager = 9 }), 1)
unfolding irq_get_info rpc_irq_init
incoming_call = refl

exec_irq_poll-pending_example :
    let (ret, lines, x) =
      exec_irq_poll (irq_loopback api 1 9) (record { irq_data = some ringing; outside = 0 }) in
    (ret ≡ pos 0) × (pending_in api x.irq_data voip ≡ false)
exec_irq_poll-pending_example =
    exec_irq_poll-pending api number-IsNumbering 1 9 ringing 0 voip (refl, omega arith) refl
