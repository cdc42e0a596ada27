-- ===== src/Irq/Mask.antt =====
-- irq_get_mask of src/rcrpc/irq.c reports what is pending, and the notifications that go with it.
use rcrpc.Base.{
  ℕ, ◌≡◌, ◌≢◌, inl, inr, refl, ap, arith, Bool, false, ◌&&◌, ◌||◌, some, bit_or, Bool-cases, ==_iff,
  ==_refl, ◌==◌, pos, bit, testb, testb-bit_or, testb-bit, has_bit-testb,
}
use rcrpc.Irq.State.{
  EventSource, modem, voip, smartcard, hook, handset, other, Api, IrqData, or_zero, event_mask,
  irq_raise, irq_event_known, irq_data_from_manager, irq_data_get_status,
}
use rcrpc.Irq.Handlers.{
  report, report_all, irq_get_mask, irq_hook, irq_smartcard, irq_voip, irq_modem, irq_handset,
}
use rcrpc.Irq.Pending.{pending}

testb-report :
    (status num irq mask j : ℕ)
    → testb (report status num irq mask) j ≡ (testb mask j || (testb status num && (irq == j)))
unfolding report
testb-report status num irq mask j =
    ground (arith, has_bit-testb status num, testb-bit_or mask (bit irq) j, testb-bit irq j)

or_regroup :
    (a b c d e f : Bool)
    → (((((a || b) || c) || d) || e) || f) ≡ (a || (b || (c || (d || (e || f)))))
or_regroup a b c d e f = ground arith

module _ {W : Type 0} (api : Api W) where
  -- The sources whose pending state the mask shows at a bit.
  abbrev pub shown : IrqData → ℕ → Bool
  shown d j =
      (pending api d modem && (irq_modem == j))
      || ((pending api d voip && (irq_voip == j))
          || ((pending api d smartcard && (irq_smartcard == j))
              || ((pending api d hook && (irq_hook == j))
                  || (pending api d handset && (irq_handset == j)))))

  pub testb-report_all :
      (d : IrqData) (mask j : ℕ)
      → testb (report_all api d.irq_status mask) j ≡ (testb mask j || shown d j)
  unfolding report_all
  testb-report_all d mask j = simp testb-report (or_regroup (testb mask j) _ _ _ _ _)

  -- Asked by the manager that the data belongs to, irq_get_mask succeeds, and each bit of the mask
  -- is set exactly if it was set before or its source is pending. A pending io is shown at no bit.
  pub irq_get_mask_bits :
      (d : IrqData) (mask : ℕ)
      → (mask' : ℕ) × (irq_get_mask api (some d) (some d.manager) (some mask) ≡ (pos 0, some mask'))
        × ((j : ℕ) → testb mask' j ≡ (testb mask j || shown d j))
  unfolding irq_get_mask irq_data_from_manager irq_data_get_status
  irq_get_mask_bits d mask =
      (report_all api d.irq_status mask, ground (arith, ==_refl d.manager), testb-report_all d mask)

  irq_raise_fresh :
      (d : IrqData) (n : ℕ) (w : W)
      → testb d.irq_status n ≡ false
      → irq_raise api d (bit n) w ≡ (
        or_zero (api.irq_event d.server 0 w).0,
        record d { irq_status = bit_or d.irq_status (bit n) },
        (api.irq_event d.server 0 w).1,
      )
  unfolding irq_raise
  irq_raise_fresh d n w h = elim (Bool-cases (bit n == d.irq_status)) [
    | inl e ↦ absurd (differs ((==_iff _ _).0 e))
    | inr e ↦ rw e
  ]
    where
      differs : bit n ≡ d.irq_status → ⊥
      differs e = ground (arith, ap (λ (x : ℕ). testb x n) e, testb-bit n n, ==_refl n)

  irq_raise_repeated :
      (d : IrqData) (n : ℕ) (w : W)
      → d.irq_status ≡ bit n
      → irq_raise api d (bit n) w ≡ (pos 0, d, w)
  unfolding irq_raise
  irq_raise_repeated d n w e = rw (e, ==_refl (bit n))

  -- An event of a source that is not pending yet sends the client a notification, and the callback
  -- returns its failure; the bit is recorded also if it fails. An event of the only pending source
  -- sends none, succeeds and changes nothing.
  irq_event_known_notifies :
      (d : IrqData) (s : EventSource) (w : W)
      → s ≢ other
      → (pending api d s ≡ false
          → irq_event_known api d s w ≡ (
            or_zero (api.irq_event d.server 0 w).0,
            record d { irq_status = bit_or d.irq_status (bit (api.source_num s)) },
            (api.irq_event d.server 0 w).1,
          ))
        × (d.irq_status ≡ bit (api.source_num s) → irq_event_known api d s w ≡ (pos 0, d, w))
  unfolding irq_event_known event_mask
  irq_event_known_notifies d other w h = absurd (h refl)
  irq_event_known_notifies d modem w h =
      (irq_raise_fresh d (api.source_num modem) w, irq_raise_repeated d (api.source_num modem) w)
  irq_event_known_notifies d s w h =
      (irq_raise_fresh d (api.source_num s) w, irq_raise_repeated d (api.source_num s) w)
