-- ===== src/Irq/Io.antt =====
-- Interrupts of io in src/rcrpc/irq.c, which no read ends.
use rcrpc.Base.{ℕ, ◌≡◌, refl, ap, ◌∙◌, Bool, true, false, ◌||◌, Option, List, [], ◌∷◌}
use rcrpc.Irq.State.{modem, io, voip, smartcard, hook, handset, Api, IsNumbering, IrqData}
use rcrpc.Irq.Handlers.{
  IrqSource, source_hook, source_card, source_voip, source_modem, source_handset, source_unlisted,
  source_unknown, source_io, asked_source,
}
use rcrpc.Irq.Pending.{same_ne, same}
use rcrpc.Irq.Trace.{
  Request, event, read, asks, still_pending, run, pending_in, IsLive, run-pending,
}

or-true : (b : Bool) → (b || true) ≡ true
or-true true = refl
or-true false = refl

asks-io : (source : IrqSource) → asks source io ≡ false
unfolding asked_source
asks-io source_unknown = refl
asks-io source_hook = same_ne hook io (λ e. cc)
asks-io source_card = same_ne smartcard io (λ e. cc)
asks-io source_voip = same_ne voip io (λ e. cc)
asks-io source_io = refl
asks-io source_modem = same_ne modem io (λ e. cc)
asks-io source_handset = same_ne handset io (λ e. cc)
asks-io source_unlisted = refl

still_pending-io : (rs : List Request) → still_pending io true rs ≡ true
unfolding still_pending asked_source
still_pending-io [] = refl
still_pending-io (event t ∷ rs) = rw (or-true (same t io)) (still_pending-io rs)
still_pending-io (read source info ∷ rs) = rw (asks-io source) (still_pending-io rs)

module _ {W : Type 0} (api : Api W) (numbering : IsNumbering api.source_num) where
  -- No read ever ends the interrupt of an io event: once pending it is pending after any requests.
  pub run-io :
      (m : ℕ) (g : Option IrqData) (w : W) (rs : List Request)
      → IsLive m g
      → pending_in api g io ≡ true
      → pending_in api (run api m g w rs).0 io ≡ true
  run-io m g w rs l h =
      run-pending api numbering m g w io rs l (λ e. cc) (λ e. cc)
      ∙ ap (λ b. still_pending io b rs) h
      ∙ still_pending-io rs
