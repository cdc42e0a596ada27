-- ===== src/Irq/Pending.antt =====
-- Which sources src/rcrpc/irq.c holds pending, after the event callback and after an update.
use rcrpc.Base.{
  ℕ, ◌^◌, ◌<◌, ◌≡◌, ◌≢◌, inl, inr, refl, ap, ◌∙◌, arith, Bool, true, false, ◌&&◌, ◌||◌, not,
  Bool-cases, ==_iff, ==_refl, ◌==◌, ℤ, neg, eq_ℤ, enodata, bit, clear_bit, testb, testb-bit_or,
  testb-bit, testb-clear_bit,
}
use rcrpc.Irq.State.{
  EventSource, modem, io, voip, smartcard, hook, handset, other, Api, IsNumbering, IrqData,
  event_mask, irq_raise, irq_event_known, update_switch, update_status, update_commit,
  irq_data_update,
}

pub EventSource-discrete : Discrete EventSource
EventSource-discrete = hlevel

-- Whether two sources are the same.
abbrev pub same : EventSource → EventSource → Bool
same s t = elim (EventSource-discrete s t) [ yes _ ↦ true | no _ ↦ false ]

pub same_refl : (s : EventSource) → same s s ≡ true
same_refl s =
    elim (EventSource-discrete s s) as (λ d. elim d [ yes _ ↦ true | no _ ↦ false ] ≡ true) [
      | yes _ ↦ refl
      | no h ↦ absurd (h refl)
    ]

pub of_same : (s t : EventSource) → same s t ≡ true → s ≡ t
of_same s t =
    elim (EventSource-discrete s t)
      as (λ d. elim d as (λ _. Bool) [ yes _ ↦ true | no _ ↦ false ] ≡ true → s ≡ t) [
        | yes e ↦ λ _. e
        | no _ ↦ λ h. cc
      ]

pub same_ne : (s t : EventSource) → s ≢ t → same s t ≡ false
same_ne s t h = elim (Bool-cases (same s t)) [ inl e ↦ absurd (h (of_same s t e)) | inr e ↦ e ]

-- The sources whose interrupt a read ends, given the manager's answer.
abbrev pub is_taken : EventSource → ℤ → Bool
is_taken modem err = true
is_taken voip err = true
is_taken smartcard err = true
is_taken hook err = true
is_taken handset err = eq_ℤ err (neg enodata)
is_taken _ err = false

module _ {W : Type 0} (api : Api W) where
  -- A source is pending while its bit is set.
  abbrev pub pending : IrqData → EventSource → Bool
  pending d s = testb d.irq_status (api.source_num s)

module _ {W : Type 0} (api : Api W) (numbering : IsNumbering api.source_num) where
  num-same : (s t : EventSource) → (api.source_num s == api.source_num t) ≡ same s t
  num-same s t =
      elim (EventSource-discrete s t)
        as (λ d. (api.source_num s == api.source_num t) ≡ elim d [ yes _ ↦ true | no _ ↦ false ]) [
          | yes e ↦ rw e (==_refl (api.source_num t))
          | no h ↦ elim (Bool-cases (api.source_num s == api.source_num t)) [
            | inl e ↦ absurd (h (numbering.distinct s t ((==_iff _ _).0 e)))
            | inr e ↦ e
          ]
        ]

  irq_raise_status :
      (d : IrqData) (s t : EventSource) (w : W)
      → pending api (irq_raise api d (bit (api.source_num s)) w).1 t ≡ (same s t || pending api d t)
  unfolding irq_raise
  irq_raise_status d s t w = ground (
    arith,
    num-same s t,
    testb-bit (api.source_num s) (api.source_num t),
    testb-bit_or d.irq_status (bit (api.source_num s)) (api.source_num t),
    λ (e : bit (api.source_num s) ≡ d.irq_status). ap (λ (x : ℕ). testb x (api.source_num t)) e,
  )

  -- After an event of a source that the callback knows, that source is pending, and every other
  -- source is pending exactly if it was before, whatever the client's connection answers.
  pub irq_event_known-pending :
      (d : IrqData) (s t : EventSource) (w : W)
      → s ≢ other
      → pending api (irq_event_known api d s w).1 t ≡ (same s t || pending api d t)
  unfolding irq_event_known event_mask
  irq_event_known-pending d modem t w h = irq_raise_status d modem t w
  irq_event_known-pending d other t w h = absurd (h refl)
  irq_event_known-pending d s t w h = irq_raise_status d s t w

  pub update_commit-status :
      (d : IrqData) (err : ℤ) (st : ℕ) (w : W) → (update_commit api d err st w).1.irq_status ≡ st
  unfolding update_commit
  update_commit-status d err st w = ground arith

  cleared :
      (st : ℕ) (s t : EventSource)
      → st < 2 ^ 32
      → testb (clear_bit st (api.source_num s)) (api.source_num t)
        ≡ (testb st (api.source_num t) && not (same s t))
  cleared st s t p =
      testb-clear_bit st (api.source_num s) (api.source_num t) p (numbering.fits s)
      ∙ ap (λ b. testb st (api.source_num t) && not b) (num-same s t)

  update_status-pending :
      (s t : EventSource) (err : ℤ) (st : ℕ)
      → st < 2 ^ 32
      → testb (update_status api s err st).1 (api.source_num t)
        ≡ (testb st (api.source_num t) && not (is_taken s err && same s t))
  unfolding update_status update_switch
  update_status-pending modem t err st p = ground (arith, cleared st modem t p)
  update_status-pending voip t err st p = ground (arith, cleared st voip t p)
  update_status-pending smartcard t err st p = ground (arith, cleared st smartcard t p)
  update_status-pending hook t err st p = ground (arith, cleared st hook t p)
  update_status-pending handset t err st p = ground (arith, cleared st handset t p)
  update_status-pending io t err st p = ground arith
  update_status-pending other t err st p = ground arith

  -- An update ends the interrupt of its source and no other: always for the modem, VoIP, the
  -- smart card and the hook, even if the manager answered with an error, and for the handset exactly
  -- if the manager answered that no key is left. An update for io or an unknown source ends none.
  pub irq_data_update-pending :
      (d : IrqData) (m : ℕ) (s t : EventSource) (w : W)
      → d.irq_status < 2 ^ 32
      → pending api (irq_data_update api d m s w).2 t ≡ (
          pending api d t && not (is_taken s (api.get_source_state m s api.zeroed w).0 && same s t))
  unfolding irq_data_update
  irq_data_update-pending d m s t w p =
      ap (λ (x : ℕ). testb x (api.source_num t)) (update_commit-status d _ _ _)
      ∙ update_status-pending s t (api.get_source_state m s api.zeroed w).0 d.irq_status p
