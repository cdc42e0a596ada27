-- ===== src/Irq/Trace.antt =====
-- Any sequence of events and reads against src/rcrpc/irq.c, and what it leaves pending.
use rcrpc.Base.{
  ℕ, ◌-◌, ◌^◌, ◌<◌, ◌≡◌, ◌≢◌, ◌⊎◌, inl, inr, refl, sym, ap, ◌∙◌, subst, arith, Bool, true, false,
  ◌&&◌, ◌||◌, not, Option, none, some, ==_iff, List, [], ◌∷◌, ℤ, bit, bit-lt, bit_or-lt, bit_and-lt,
}
use mathlib.Core.Option.{some-injective}
use rcrpc.Irq.State.{
  EventSource, modem, io, voip, smartcard, hook, handset, other, Api, IsNumbering, IrqData,
  update_switch, update_status, irq_event_cb, irq_event_known, irq_raise, event_mask, update_commit,
  irq_data_update, irq_data_update_from_source,
}
use rcrpc.Irq.Handlers.{
  IrqSource, source_hook, source_card, source_voip, source_modem, source_handset, source_unlisted,
  source_unknown, source_io, asked_source, irq_get_info,
}
use rcrpc.Irq.Pending.{
  same_ne, pending, same, is_taken, irq_event_known-pending, irq_data_update-pending,
}

-- What reaches the server: an event of the manager, or a client's irq_get_info.
pub data Request : Type 0 where
  event : EventSource → Request
  read : IrqSource → ℕ → Request

-- Whether a read asks for the source.
abbrev pub asks : IrqSource → EventSource → Bool
asks source s = elim (asked_source source) [ none ↦ false | some t ↦ same t s ]

-- The specification, with no word of bits and no connection: a source other than the handset is
-- pending after the requests if an event of it came after the last read of it.
unfoldable pub still_pending : EventSource → Bool → List Request → Bool
still_pending s b [] = b
still_pending s b (event t ∷ rs) = still_pending s (same t s || b) rs
still_pending s b (read source info ∷ rs) = still_pending s (b && not (asks source s)) rs

module _ {W : Type 0} (api : Api W) where
  unfoldable pub serve : ℕ → Option IrqData → W → Request → Option IrqData × W
  serve m g w (event s) = let (ret, g', w') = irq_event_cb api g (some s) w in (g', w')
  serve m g w (read source info) =
      let (ret, info', g', w') = irq_get_info api g (some m) source info w in (g', w')

  unfoldable pub run : ℕ → Option IrqData → W → List Request → Option IrqData × W
  run m g w [] = (g, w)
  run m g w (r ∷ rs) = let (g', w') = serve m g w r in run m g' w' rs

  abbrev pub pending_in : Option IrqData → EventSource → Bool
  pending_in none s = false
  pending_in (some d) s = pending api d s

-- The data that a running server holds: it belongs to the manager, and its status is a word.
abbrev pub IsLive : ℕ → Option IrqData → Type 0
IsLive m none = ⊥
IsLive m (some d) = (d.manager ≡ m) × (d.irq_status < 2 ^ 32)

and-true : (b : Bool) → (b && true) ≡ b
and-true true = refl
and-true false = refl

asked_none :
    (source : IrqSource) (s : EventSource)
    → asked_source source ≡ none
    → (b : Bool) → (b && not (asks source s)) ≡ b
asked_none asked s e b =
    subst (λ o. (b && not (elim o [ none ↦ false | some t ↦ same t s ])) ≡ b) (sym e) (and-true b)

-- What a read asks for it takes, but for the handset.
taken-asks :
    (source : IrqSource) (s t : EventSource) (err : ℤ)
    → s ≢ handset
    → asked_source source ≡ some t
    → (is_taken t err && same t s) ≡ asks source s
unfolding asked_source
taken-asks source_hook s t err h e =
    subst (λ o. (is_taken o err && same o s) ≡ same hook s) (some-injective _ _ e) refl
taken-asks source_card s t err h e =
    subst (λ o. (is_taken o err && same o s) ≡ same smartcard s) (some-injective _ _ e) refl
taken-asks source_voip s t err h e =
    subst (λ o. (is_taken o err && same o s) ≡ same voip s) (some-injective _ _ e) refl
taken-asks source_modem s t err h e =
    subst (λ o. (is_taken o err && same o s) ≡ same modem s) (some-injective _ _ e) refl
taken-asks source_handset s t err h e =
    subst (λ o. (is_taken o err && same o s) ≡ same handset s) (some-injective _ _ e)
      (ground (arith, same_ne handset s (λ e. h (sym e))))
taken-asks source_unknown s t err h e = cc
taken-asks source_io s t err h e = cc
taken-asks source_unlisted s t err h e = cc

module _ {W : Type 0} (api : Api W) (numbering : IsNumbering api.source_num) where
  irq_raise-IsLive :
      (m : ℕ) (d : IrqData) (s : EventSource) (w : W)
      → IsLive m (some d)
      → IsLive m (some (irq_raise api d (bit (api.source_num s)) w).1)
  unfolding irq_raise
  irq_raise-IsLive m d s w (own, fits) = ground (
    arith,
    bit-lt 32 (api.source_num s) (numbering.fits s),
    bit_or-lt 32 d.irq_status (bit (api.source_num s)) fits
        (bit-lt 32 (api.source_num s) (numbering.fits s)),
  )

  event-IsLive :
      (m : ℕ) (d : IrqData) (s : EventSource) (w : W)
      → IsLive m (some d)
      → IsLive m (some (irq_event_known api d s w).1)
  unfolding irq_event_known event_mask
  event-IsLive m d other w l = l
  event-IsLive m d modem w l = irq_raise-IsLive m d modem w l
  event-IsLive m d s w l = irq_raise-IsLive m d s w l

  update_status-lt :
      (s : EventSource) (err : ℤ) (st : ℕ) → st < 2 ^ 32 → (update_status api s err st).1 < 2 ^ 32
  unfolding update_status update_switch
  update_status-lt modem err st h =
      ground (arith, bit_and-lt 32 st (2 ^ 32 - 1 - bit (api.source_num modem)) h)
  update_status-lt io err st h = ground arith
  update_status-lt voip err st h =
      ground (arith, bit_and-lt 32 st (2 ^ 32 - 1 - bit (api.source_num voip)) h)
  update_status-lt smartcard err st h =
      ground (arith, bit_and-lt 32 st (2 ^ 32 - 1 - bit (api.source_num smartcard)) h)
  update_status-lt hook err st h =
      ground (arith, bit_and-lt 32 st (2 ^ 32 - 1 - bit (api.source_num hook)) h)
  update_status-lt handset err st h =
      ground (arith, bit_and-lt 32 st (2 ^ 32 - 1 - bit (api.source_num handset)) h)
  update_status-lt other err st h = ground arith

  update-IsLive :
      (m : ℕ) (d : IrqData) (s : EventSource) (w : W)
      → IsLive m (some d)
      → IsLive m (some (irq_data_update api d m s w).2)
  unfolding irq_data_update update_commit
  update-IsLive m d s w (own, fits) =
      ground (arith, update_status-lt s (api.get_source_state m s api.zeroed w).0 d.irq_status fits)

  update_from_source_lem :
      (m : ℕ) (d : IrqData) (s : EventSource) (w : W)
      → d.manager ≡ m
      → (irq_data_update_from_source api (some d) (some m) s w).2
        ≡ some (irq_data_update api d m s w).2
  unfolding irq_data_update_from_source
  update_from_source_lem m d s w e = ground (arith, (==_iff d.manager m).1 e)

  -- A read either asks nothing and leaves the data, or it updates the source that it asks for.
  read_lem :
      (m : ℕ) (d : IrqData) (source : IrqSource) (info : ℕ) (w : W)
      → d.manager ≡ m
      → ((asked_source source ≡ none) × ((serve api m (some d) w (read source info)).0 ≡ some d))
        ⊎ ((t : EventSource) × (asked_source source ≡ some t)
            × ((serve api m (some d) w (read source info)).0
                ≡ some (irq_data_update api d m t w).2))
  unfolding serve irq_get_info
  read_lem m d source_unknown info w e = inl (refl, refl)
  read_lem m d source_io info w e = inl (refl, refl)
  read_lem m d source_unlisted info w e = inl (refl, refl)
  read_lem m d source_hook info w e = inr (hook, refl, update_from_source_lem m d hook w e)
  read_lem m d source_card info w e =
      inr (smartcard, refl, update_from_source_lem m d smartcard w e)
  read_lem m d source_voip info w e = inr (voip, refl, update_from_source_lem m d voip w e)
  read_lem m d source_modem info w e = inr (modem, refl, update_from_source_lem m d modem w e)
  read_lem m d source_handset info w e = inr (handset, refl, update_from_source_lem m d handset w e)

  serve-IsLive :
      (m : ℕ) (g : Option IrqData) (w : W) (r : Request)
      → IsLive m g
      → IsLive m (serve api m g w r).0
  serve-IsLive m none w r l = absurd l
  serve-IsLive m (some d) w (event s) l = unfold serve irq_event_cb in event-IsLive m d s w l
  serve-IsLive m (some d) w (read source info) l = elim (read_lem m d source info w l.0) [
    | inl (_, e) ↦ subst (IsLive m) (sym e) l
    | inr (t, _, e) ↦ subst (IsLive m) (sym e) (update-IsLive m d t w l)
  ]

  -- Whatever events and reads arrive, the server keeps its data, the data stays with its manager,
  -- and the status stays a word of 32 bits.
  pub run-IsLive :
      (m : ℕ) (g : Option IrqData) (w : W) (rs : List Request)
      → IsLive m g
      → IsLive m (run api m g w rs).0
  unfolding run
  run-IsLive m g w [] l = l
  run-IsLive m g w (r ∷ rs) l =
      run-IsLive m (serve api m g w r).0 (serve api m g w r).1 rs (serve-IsLive m g w r l)

  event-pending :
      (d : IrqData) (s t : EventSource) (w : W)
      → s ≢ other
      → pending api (irq_event_known api d t w).1 s ≡ (same t s || pending api d s)
  unfolding irq_event_known event_mask
  event-pending d s other w h = rw (same_ne other s (λ e. h (sym e)))
  event-pending d s modem w h = irq_event_known-pending api numbering d modem s w (λ e. cc)
  event-pending d s t w h = irq_event_known-pending api numbering d t s w (λ e. cc)

  update_taken :
      (m : ℕ) (d : IrqData) (source : IrqSource) (s t : EventSource) (w : W)
      → d.irq_status < 2 ^ 32
      → s ≢ handset
      → asked_source source ≡ some t
      → pending api (irq_data_update api d m t w).2 s ≡ (pending api d s && not (asks source s))
  update_taken m d source s t w p h e =
      irq_data_update-pending api numbering d m t s w p
      ∙ ap (λ b. pending api d s && not b)
          (taken-asks source s t (api.get_source_state m t api.zeroed w).0 h e)

  serve-pending :
      (m : ℕ) (g : Option IrqData) (w : W) (r : Request) (s : EventSource)
      → IsLive m g
      → s ≢ other
      → s ≢ handset
      → (rs : List Request)
      → still_pending s (pending_in api (serve api m g w r).0 s) rs
        ≡ still_pending s (pending_in api g s) (r ∷ rs)
  unfolding still_pending
  serve-pending m none w r s l h k rs = absurd l
  serve-pending m (some d) w (event t) s l h k rs =
      unfold serve irq_event_cb in ap (λ b. still_pending s b rs) (event-pending d s t w h)
  serve-pending m (some d) w (read source info) s l h k rs = elim (read_lem m d source info w l.0) [
    | inl (a, e) ↦
        rw e (ap (λ b. still_pending s b rs) (sym (asked_none source s a (pending api d s))))
    | inr (t, a, e) ↦ rw e (ap (λ b. still_pending s b rs) (update_taken m d source s t w l.1 k a))
  ]

  -- From a live server, a known source other than the handset is pending after any requests exactly
  -- if the specification says so: it was pending or had an event, and no later read asked for it.
  -- The answers of the manager and of the connection do not matter.
  pub run-pending :
      (m : ℕ) (g : Option IrqData) (w : W) (s : EventSource) (rs : List Request)
      → IsLive m g
      → s ≢ other
      → s ≢ handset
      → pending_in api (run api m g w rs).0 s ≡ still_pending s (pending_in api g s) rs
  unfolding run still_pending
  run-pending m g w s [] l h k = refl
  run-pending m g w s (r ∷ rs) l h k =
      run-pending m (serve api m g w r).0 (serve api m g w r).1 s rs (serve-IsLive m g w r l) h k
      ∙ serve-pending m g w r s l h k rs
