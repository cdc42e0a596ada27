-- ===== src/Server/Invariant.antt =====
-- What the phases of the main loop keep of a source of src/rcrpc/rcrpc.c, in any order.
use rcrpc.Base.{
  ℕ, suc, ◌-◌, ◌≤◌, ◌≡◌, ◌≢◌, ◌⊎◌, ◌↔◌, arith, Bool, true, false, Option, none, some, if◌then◌else◌,
  List, ℤ, neg, is_neg, enosys, econnreset,
}
use rcrpc.Server.Source.{
  State, unconnected, connected, idle, disconnected, Source, PollFd, Flags, Api, is_positive,
  rpc_source_prepare, rpc_source_check, rpc_source_dispatch,
}

-- What can be seen of the outside: how often the client's descriptor is in the poll list, and how
-- many received packets are not freed. GLib documents that removing a descriptor that was not added
-- does nothing.
pub record Observation {W : Type 0} (api : Api W) : Type 0 where
  pub watched : W → ℕ
  pub held : W → ℕ
  pub watched-add_poll : (p : PollFd) (w : W) → watched (api.add_poll p w) ≡ suc (watched w)
  pub watched-remove_poll : (p : PollFd) (w : W) → watched (api.remove_poll p w) ≡ watched w - 1
  pub watched-get_client_socket :
      (s : ℕ) (w : W) → watched (api.get_client_socket s w).1 ≡ watched w
  pub watched-accept : (s : ℕ) (w : W) → watched (api.accept s w).1 ≡ watched w
  pub watched-get_peer : (s : ℕ) (w : W) → watched (api.get_peer s w).2 ≡ watched w
  pub watched-getnameinfo :
      (a : ℕ) (l : ℤ) (n : List ℕ) (w : W) → watched (api.getnameinfo a l n w).2 ≡ watched w
  pub watched-free_addr : (a : ℕ) (w : W) → watched (api.free_addr a w) ≡ watched w
  pub watched-recv : (s : ℕ) (w : W) → watched (api.recv s w).2 ≡ watched w
  pub watched-dispatch : (s r : ℕ) (w : W) → watched (api.dispatch s r w).1 ≡ watched w
  pub watched-packet_free : (r : ℕ) (w : W) → watched (api.packet_free r w) ≡ watched w
  pub held-accept : (s : ℕ) (w : W) → held (api.accept s w).1 ≡ held w
  pub held-get_peer : (s : ℕ) (w : W) → held (api.get_peer s w).2 ≡ held w
  pub held-getnameinfo :
      (a : ℕ) (l : ℤ) (n : List ℕ) (w : W) → held (api.getnameinfo a l n w).2 ≡ held w
  pub held-free_addr : (a : ℕ) (w : W) → held (api.free_addr a w) ≡ held w
  pub held-recv :
      (s : ℕ) (w : W)
      → held (api.recv s w).2 ≡ (if is_positive (api.recv s w).0 then suc (held w) else held w)
  pub held-dispatch : (s r : ℕ) (w : W) → held (api.dispatch s r w).1 ≡ held w
  pub held-packet_free : (r : ℕ) (w : W) → held (api.packet_free r w) ≡ held w - 1

-- How often the client's descriptor may stand in the poll list, in each state.
abbrev pub Watches : State → ℕ → Type 0
Watches unconnected n = n ≡ 0
Watches connected n = n ≡ 0
Watches idle n = n ≡ 1
Watches disconnected n = n ≤ 1

-- The phases that the main loop can run, and what they leave; a source that dispatch gives up is not
-- run again.
pub data Phase {W : Type 0} (api : Api W) (src : Source) (w : W) : Source → W → Type 0 where
  prepares :
      {src' : Source} {w' : W}
      → rpc_source_prepare api src w ≡ some (src', w')
      → Phase api src w src' w'
  polls :
      (l c : Flags)
      → Phase api src w
          (record src {
            poll_listen = record (src.poll_listen) { revents = l };
            poll_client = record (src.poll_client) { revents = c };
          })
          w
  checks : Phase api src w (rpc_source_check src).1 w
  dispatches :
      {src' : Source} {w' : W}
      → rpc_source_dispatch api src w ≡ some (true, src', w')
      → Phase api src w src' w'

module _ {W : Type 0} (api : Api W) (seen : Observation api) where
  open seen use {watched, held}

  abbrev pub Inv : Source → W → Type 0
  Inv src w = Watches src.state (watched w)

  prepare-Inv :
      (src src' : Source) (w w' : W)
      → Inv src w
      → rpc_source_prepare api src w ≡ some (src', w')
      → Inv src' w'
  unfolding rpc_source_prepare
  prepare-Inv src src' w w' v e =
      grind (arith, seen.watched-add_poll, seen.watched-remove_poll, seen.watched-get_client_socket)

  check-Inv : (src : Source) (w : W) → Inv src w → Inv (rpc_source_check src).1 w
  unfolding rpc_source_check
  check-Inv src w v = ground arith

  dispatch-Inv :
      (src src' : Source) (w w' : W) (ret : Bool)
      → Inv src w
      → rpc_source_dispatch api src w ≡ some (ret, src', w')
      → Inv src' w'
  unfolding rpc_source_dispatch
  dispatch-Inv src src' w w' ret v e = grind (
    arith, seen.watched-accept, seen.watched-get_peer, seen.watched-getnameinfo,
    seen.watched-free_addr, seen.watched-recv, seen.watched-dispatch, seen.watched-packet_free,
  )

  -- Every packet that a dispatch receives it frees, whatever the handler of the packet answers.
  pub dispatch-held :
      (src src' : Source) (w w' : W) (ret : Bool)
      → rpc_source_dispatch api src w ≡ some (ret, src', w')
      → held w' ≡ held w
  unfolding rpc_source_dispatch
  dispatch-held src src' w w' ret e = grind (
    arith, seen.held-accept, seen.held-get_peer, seen.held-getnameinfo, seen.held-free_addr,
    seen.held-recv, seen.held-dispatch, seen.held-packet_free,
  )

  -- Each phase keeps the client's descriptor in the poll list exactly once while a client is served,
  -- not at all before one is accepted or looked up, and at most once after a disconnect.
  pub Phase-Inv : {src src' : Source} {w w' : W} → Phase api src w src' w' → Inv src w → Inv src' w'
  Phase-Inv {src} {src'} {w} {w'} (prepares e) v = prepare-Inv src src' w w' v e
  Phase-Inv (polls l c) v = v
  Phase-Inv {src} {w = w} checks v = check-Inv src w v
  Phase-Inv {src} {src'} {w} {w'} (dispatches e) v = dispatch-Inv src src' w w' true v e

-- The phases that were run since a start.
pub data Phases {W : Type 0} (api : Api W) (src : Source) (w : W) : Source → W → Type 0 where
  start : Phases api src w src w
  after : {s t : Source} {u v : W} → Phases api src w s u → Phase api s u t v → Phases api src w t v

module _ {W : Type 0} (api : Api W) (seen : Observation api) where
  -- From a new source, whose client is not watched, no sequence of phases ever watches the client
  -- twice, and while one is served it is watched.
  pub Phases-watched :
      {src src' : Source} {w w' : W}
      → src.state ≡ unconnected
      → seen.watched w ≡ 0
      → Phases api src w src' w'
      → (seen.watched w' ≤ 1) × (src'.state ≡ idle → seen.watched w' ≡ 1)
  Phases-watched {src} {src'} {w} {w'} e z ps = bounded src'.state (seen.watched w') (kept ps)
    where
      kept : {s : Source} {u : W} → Phases api src w s u → Inv api seen s u
      kept start = rw (e, Watches) z
      kept (after qs p) = Phase-Inv api seen p (kept qs)

      bounded : (st : State) (n : ℕ) → Watches st n → (n ≤ 1) × (st ≡ idle → n ≡ 1)
      bounded unconnected n h = ground arith
      bounded connected n h = ground arith
      bounded idle n h = ground arith
      bounded disconnected n h = ground arith

-- The gboolean that dispatch returns, unless the process ends.
abbrev pub returned : {W : Type 0} → Option (Bool × Source × W) → Option Bool
returned none = none
returned (some (ret, src, w)) = some ret

-- How the results of librpc make dispatch give up the source: a receive that failed other than by a
-- reset, or a packet whose handler failed other than by a missing implementation.
module _ {W : Type 0} (api : Api W) where
  abbrev pub GivesUp : Source → W → Type 0
  GivesUp src w =
      (is_neg (api.recv src.server w).0 ≡ true) × ((api.recv src.server w).0 ≢ neg econnreset)
      ⊎ (is_positive (api.recv src.server w).0 ≡ true)
        × (is_neg (api.dispatch src.server (api.recv src.server w).1 (api.recv src.server w).2).0
            ≡ true)
        × ((api.dispatch src.server (api.recv src.server w).1 (api.recv src.server w).2).0
            ≢ neg enosys)

  served-GivesUp :
      (src : Source) (w : W)
      → src.state ≡ idle
      → (returned (rpc_source_dispatch api src w) ≡ some false) ↔ GivesUp src w
  unfolding rpc_source_dispatch
  served-GivesUp src w e = (λ h. ground arith, λ h. ground arith)

  -- dispatch returns FALSE exactly if a client is served, and its receive fails other than by a reset
  -- or the handler of its packet fails other than by a missing implementation.
  pub dispatch-GivesUp :
      (src : Source) (w : W)
      → (returned (rpc_source_dispatch api src w) ≡ some false)
        ↔ ((src.state ≡ idle) × GivesUp src w)
  unfolding rpc_source_dispatch
  dispatch-GivesUp src w = (λ h. ground arith, λ h. (served-GivesUp src w h.0).1 h.1)
