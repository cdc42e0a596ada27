-- ===== src/Server/Loop.antt =====
-- One iteration of the main loop over the source of src/rcrpc/rcrpc.c, and what a client's close
-- leaves behind in it.
use rcrpc.Base.{
  ◌≤◌, ◌≡◌, arith, Bool, true, false, not, Option, none, some, if◌then◌else◌, is_neg, ◌==◌,
}
use rcrpc.Server.Source.{
  State, connected, disconnected, Source, Flags, Api, rpc_source_prepare, rpc_source_check,
  rpc_source_dispatch, no_flags,
}
use rcrpc.Server.Invariant.{Observation}

infixl 5 ◌>>=◌
abbrev ◌>>=◌ {ℓ κ} : {A : Type ℓ} {B : Type κ} → Option A → (A → Option B) → Option B
none >>= f = none
some a >>= f = f a

-- GLib writes `revents` of the descriptors that it polls: always the listening one, and the client's
-- if that is in the poll list.
pub polled : Bool → Flags → Flags → Source → Source
polled client_watched l c src = record src {
  poll_listen = record (src.poll_listen) { revents = l };
  poll_client = record (src.poll_client) {
    revents = if client_watched then c else src.poll_client.revents;
  };
}

-- The state of the connection after an iteration; `none` is the end of the process.
abbrev pub outcome : {W : Type 0} → Option (Bool × Source × W) → Option State
outcome none = none
outcome (some (alive, src, w)) = some src.state

abbrev pub request : Flags
request = record { inp = true; hup = false; err = false }

module _ {W : Type 0} (api : Api W) (seen : Observation api) where
  -- A dispatch follows a check that says TRUE.
  pub finish : Bool × Source → W → Option (Bool × Source × W)
  finish (ready, src) w = if ready then rpc_source_dispatch api src w else some (true, src, w)

  -- The flags are what the poll finds on the two descriptors.
  pub iterate : Flags → Flags → Source → W → Option (Bool × Source × W)
  unfolding finish polled
  iterate l c src w = do
    (src', w') ← rpc_source_prepare api src w
    finish (rpc_source_check (polled (not (seen.watched w' == 0)) l c src')) w'

  -- The client's descriptor is unwatched after a close, but the source keeps its `revents`. If they
  -- show input, as they do when the close was noticed by a receive, the next iteration calls accept
  -- though nothing at all is ready, and its result decides the state.
  pub iterate_stale :
      (c : Flags) (src : Source) (w : W)
      → src.state ≡ disconnected
      → src.poll_client.revents ≡ record { inp = true; hup = false; err = false }
      → seen.watched w ≤ 1
      → outcome (iterate no_flags c src w) ≡ (
          if is_neg (api.accept src.server (api.remove_poll src.poll_client w)).0
          then none
          else some connected)
  unfolding iterate rpc_source_prepare rpc_source_check rpc_source_dispatch
  iterate_stale c src w e f b = grind (arith, seen.watched-remove_poll)
