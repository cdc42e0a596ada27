-- ===== src/Commands/IrqPolled.antt =====
-- irq-poll of bin/commands.c over the client library and the server of src/rcrpc/irq.c.
use mathlib.Core.Option
use rcrpc.Base.{
  ℕ, ◌≡◌, ◌≢◌, inl, inr, refl, ap, ◌∙◌, arith, Bool, true, false, not, ◌&&◌, ◌||◌, Option, some,
  if◌then◌else◌, List, [], ◌∷◌, pos, Bool-cases, has_bit, has_bit-testb, testb-zero, ==_refl,
}
use rcrpc.Irq.State.{
  EventSource, hook, smartcard, voip, modem, handset, io, other, Api, IsNumbering, IrqData,
  irq_data_from_manager, irq_data_get_status,
}
use rcrpc.Irq.Handlers.{IrqSource, irq_enable, irq_get_mask, irq_get_info, report_all, asked_source}
use rcrpc.Irq.Pending.{pending, same_refl}
use rcrpc.Irq.Mask.{testb-report_all, shown}
use rcrpc.Irq.Trace.{
  Request, read, asks, still_pending, serve, run, pending_in, IsLive, run-pending,
}
use rcrpc.Commands.IrqPoll.{
  IrqStubs, source_bit, poll_list, poll_sources, exec_irq_poll, remote_irq_get_mask,
  remote_irq_get_info,
}

-- The server's data and everything outside.
pub record Served (W : Type 0) : Type 0 where
  pub irq_data : Option IrqData
  pub outside : W

-- The reads that the loop makes.
reads : ℕ → List IrqSource → List Request
reads mask [] = []
reads mask (s ∷ rest) =
    if has_bit mask (source_bit s) then read s 0 ∷ reads mask rest else reads mask rest

asked : ℕ → EventSource → List IrqSource → Bool
asked mask s [] = false
asked mask s (src ∷ rest) = (has_bit mask (source_bit src) && asks src s) || asked mask s rest

still_pending-reads :
    (mask : ℕ) (s : EventSource) (b : Bool) (sources : List IrqSource)
    → still_pending s b (reads mask sources) ≡ (b && not (asked mask s sources))
unfolding still_pending reads asked
still_pending-reads mask s b [] = ground arith
still_pending-reads mask s b (src ∷ rest) = elim (Bool-cases (has_bit mask (source_bit src))) [
  | inl e ↦ rw e (still_pending-reads mask s (b && not (asks src s)) rest ∙ ground arith)
  | inr e ↦ rw e (still_pending-reads mask s b rest)
]

module _ {W : Type 0} (api : Api W) (server m : ℕ) where
  -- The stubs of a client whose calls reach the server of the manager and come back.
  unfoldable pub irq_loopback : IrqStubs (Served W)
  irq_loopback = record {
    stub_irq_enable = λ v x.
        let (ret, w) = irq_enable api server x.outside in
        (pos 0, ret, record { irq_data = x.irq_data; outside = w });
    stub_irq_get_mask = λ mask x.
        let (ret, mask') = irq_get_mask api x.irq_data (some m) (some mask) in
        (pos 0, ret, Option.get_or mask' mask, x);
    stub_irq_get_info = λ s info x.
        let (ret, info', g, w) = irq_get_info api x.irq_data (some m) s info x.outside in
        (pos 0, ret, info', record { irq_data = g; outside = w });
  }

  poll_sources-run :
      (mask : ℕ) (sources : List IrqSource) (g : Option IrqData) (w : W)
      → (poll_sources irq_loopback mask sources (record { irq_data = g; outside = w })).1.irq_data
        ≡ (run api m g w (reads mask sources)).0
  unfolding poll_sources remote_irq_get_info irq_loopback reads run serve
  poll_sources-run mask [] g w = refl
  poll_sources-run mask (s ∷ rest) g w = elim (Bool-cases (has_bit mask (source_bit s))) [
    | inl e ↦
        let (ret, info, g', w') = irq_get_info api g (some m) s 0 w in
        rw (poll_sources, e) (poll_sources-run mask rest g' w')
    | inr e ↦ rw (poll_sources, e) (poll_sources-run mask rest g w)
  ]

-- The sources that irq-poll reads whenever they are pending, and whose read always ends the interrupt.
abbrev pub is_polled : EventSource → Bool
is_polled hook = true
is_polled smartcard = true
is_polled voip = true
is_polled modem = true
is_polled _ = false

module _ {W : Type 0} (api : Api W) where
  reported : IrqData → ℕ
  reported d = report_all api d.irq_status 0

  has_bit-reported : (d : IrqData) (j : ℕ) → has_bit (reported d) j ≡ shown api d j
  unfolding reported
  has_bit-reported d j =
      has_bit-testb _ j ∙ testb-report_all api d 0 j ∙ ap (λ b. b || shown api d j) (testb-zero j)

  mask_reported :
      (m : ℕ) (d : IrqData)
      → d.manager ≡ m
      → irq_get_mask api (some d) (some m) (some 0) ≡ (pos 0, some (reported d))
  unfolding irq_get_mask irq_data_from_manager irq_data_get_status reported
  mask_reported m d e = ground (arith, e, ==_refl m)

  exec_irq_poll-poll_sources :
      (server m : ℕ) (d : IrqData) (w : W)
      → d.manager ≡ m
      → let x : Served W = record { irq_data = some d; outside = w } in
        exec_irq_poll (irq_loopback api server m) x ≡ (
          let (lines, x') = poll_sources (irq_loopback api server m) (reported d) poll_list x in
          (pos 0, lines, x'))
  unfolding exec_irq_poll remote_irq_get_mask irq_loopback
  exec_irq_poll-poll_sources server m d w e = rw (mask_reported m d e)

  asked-pending :
      (d : IrqData) (s : EventSource)
      → is_polled s ≡ true
      → (pending api d s && not (asked (reported d) s poll_list)) ≡ false
  unfolding asked asked_source
  asked-pending d hook e = ground (arith, has_bit-reported d 0, same_refl hook)
  asked-pending d smartcard e = ground (arith, has_bit-reported d 1, same_refl smartcard)
  asked-pending d voip e = ground (arith, has_bit-reported d 2, same_refl voip)
  asked-pending d modem e = ground (arith, has_bit-reported d 4, same_refl modem)
  asked-pending d io e = ground arith
  asked-pending d handset e = ground arith
  asked-pending d other e = ground arith

  polled_known : (s : EventSource) → is_polled s ≡ true → (s ≢ other) × (s ≢ handset)
  polled_known hook e = (λ f. cc, λ f. cc)
  polled_known smartcard e = (λ f. cc, λ f. cc)
  polled_known voip e = (λ f. cc, λ f. cc)
  polled_known modem e = (λ f. cc, λ f. cc)
  polled_known io e = ground arith
  polled_known handset e = ground arith
  polled_known other e = ground arith

module _ {W : Type 0} (api : Api W) (numbering : IsNumbering api.source_num) where
  -- An irq-poll against a live server succeeds, and behind it no interrupt of the hook, the smart
  -- card, VoIP or the modem is pending, whatever the manager and the connection answer to the reads.
  pub exec_irq_poll-pending :
      (server m : ℕ) (d : IrqData) (w : W) (s : EventSource)
      → IsLive m (some d)
      → is_polled s ≡ true
      → let (ret, lines, x) =
          exec_irq_poll (irq_loopback api server m) (record { irq_data = some d; outside = w }) in
        (ret ≡ pos 0) × (pending_in api x.irq_data s ≡ false)
  exec_irq_poll-pending server m d w s l k =
      let e = exec_irq_poll-poll_sources api server m d w l.0 in
      let (o, h) = polled_known api s k in
      (
        ap (λ r. r.0) e,
        ap (λ r. pending_in api r.2.irq_data s) e
            ∙ ap (λ g. pending_in api g s)
                (poll_sources-run api server m (reported api d) poll_list (some d) w)
            ∙ run-pending api numbering m (some d) w s (reads (reported api d) poll_list) l o h
            ∙ still_pending-reads (reported api d) s (pending api d s) poll_list
            ∙ asked-pending api d s k,
      )
