-- ===== src/Server/Source.antt =====
-- src/rcrpc/rcrpc.c: the connection states and the prepare, check and dispatch functions.
use rcrpc.Base.{
  ℕ, Bool, true, false, not, ◌&&◌, ◌||◌, Option, none, some, if◌then◌else◌, List, ℤ, neg, is_neg,
  is_zero, eq_ℤ, enosys, econnreset,
}

-- `enum remote_control_state`.
pub data State : Type 0 where
  unconnected connected idle disconnected : State

-- The flags G_IO_IN, G_IO_HUP and G_IO_ERR of `events` and `revents`.
pub record Flags : Type 0 where
  pub inp : Bool
  pub hup : Bool
  pub err : Bool

abbrev pub no_flags : Flags
no_flags = record { inp = false; hup = false; err = false }

abbrev pub all_flags : Flags
all_flags = record { inp = true; hup = true; err = true }

-- `GPollFD`.
pub record PollFd : Type 0 where
  pub fd : ℤ
  pub events : Flags
  pub revents : Flags

-- `struct rpc_source`; the server is a number, the peer's name a list of characters.
pub record Source : Type 0 where
  pub server : ℕ
  pub state : State
  pub peer : List ℕ
  pub poll_listen : PollFd
  pub poll_client : PollFd

-- What the code calls of librpc, the C library and GLib, over the state `W` of everything outside.
pub record Api (W : Type 0) : Type 0 where
  pub get_client_socket : ℕ → W → ℤ × W
  pub accept : ℕ → W → ℤ × W
  -- the length of the address, and the address unless it is NULL
  pub get_peer : ℕ → W → ℤ × Option ℕ × W
  -- the result and the name that it writes
  pub getnameinfo : ℕ → ℤ → List ℕ → W → ℤ × List ℕ × W
  pub free_addr : ℕ → W → W
  -- the result and the packet, which exists only where the result is positive
  pub recv : ℕ → W → ℤ × ℕ × W
  pub dispatch : ℕ → ℕ → W → ℤ × W
  pub packet_free : ℕ → W → W
  -- `g_source_add_poll` and `g_source_remove_poll` on the descriptor of the client
  pub add_poll : PollFd → W → W
  pub remove_poll : PollFd → W → W

-- A message of level G_LOG_LEVEL_ERROR ends the process: what follows it is never reached.
abbrev pub log_error {ℓ} : {A : Type ℓ} → A → Option A
log_error rest = none

-- `0 < x`.
abbrev pub is_positive : ℤ → Bool
is_positive x = not (is_neg x || is_zero x)

unfoldable pub rpc_source_check : Source → Bool × Source
rpc_source_check src =
    if listen.hup || listen.err
    then (false, src)
    else if listen.inp
    then (true, src)
    else if client.hup || client.err
    then (true, record src { state = disconnected })
    else (client.inp, src)
  where
    open src.poll_listen use {revents as listen}
    open src.poll_client use {revents as client}

module _ {W : Type 0} (api : Api W) where
  -- The case REMOTE_CONTROL_CONNECTED of `rpc_source_prepare`, at the result of the lookup.
  watch_client : Source → ℤ → W → Option (Source × W)
  watch_client src err w =
      if is_neg err
      then log_error (record src { state = unconnected }, w)
      else let client = record (src.poll_client) { fd = err; events = all_flags } in
        some (record src { poll_client = client; state = idle }, api.add_poll client w)

  -- The case REMOTE_CONTROL_DISCONNECTED: `revents` keeps its value.
  unwatch_client : Source → W → Source × W
  unwatch_client src w = (
    record src {
      poll_client = record (src.poll_client) { fd = neg 1; events = no_flags };
      state = unconnected;
    },
    api.remove_poll src.poll_client w,
  )

  prepare_state : State → Source → W → Option (Source × W)
  unfolding watch_client unwatch_client
  prepare_state unconnected src w = some (src, w)
  prepare_state connected src w =
      let (err, w') = api.get_client_socket src.server w in watch_client src err w'
  prepare_state idle src w = some (src, w)
  prepare_state disconnected src w = some (unwatch_client src w)

  -- `none` is the end of the process. The function itself returns FALSE, and -1 for the timeout.
  unfoldable pub rpc_source_prepare : Source → W → Option (Source × W)
  unfolding prepare_state
  rpc_source_prepare src w = prepare_state src.state src w

  -- The name of the new peer is looked up for the log, and stays in the source.
  name_peer : Source → ℤ → Option ℕ → W → Source × W
  name_peer src err none w = (src, w)
  name_peer src err (some addr) w =
      if is_positive err
      then (let (result, name, w') = api.getnameinfo addr err src.peer w in
          (record src { peer = name }, api.free_addr addr w'))
      else (src, w)

  -- The case REMOTE_CONTROL_UNCONNECTED of `rpc_source_dispatch`.
  accept_client : Source → W → Option (Bool × Source × W)
  unfolding name_peer
  accept_client src w =
      let (err, w₁) = api.accept src.server w in
      if is_neg err
      then log_error (true, src, w₁)
      else let (len, addr, w₂) = api.get_peer src.server w₁ in
        let (src', w₃) = name_peer src len addr w₂ in
        some (true, record src' { state = connected }, w₃)

  -- A packet is dispatched and freed. An opcode that is not implemented is only logged.
  serve_packet : Source → ℕ → W → Bool × Source × W
  serve_packet src request w =
      let (err, w') = api.dispatch src.server request w in
      if eq_ℤ err (neg enosys)
      then (true, src, api.packet_free request w')
      else if is_neg err
      then (false, src, api.packet_free request w')
      else (true, src, api.packet_free request w')

  -- The case REMOTE_CONTROL_IDLE of `rpc_source_dispatch`.
  receive : Source → W → Bool × Source × W
  unfolding serve_packet
  receive src w =
      let (err, request, w') = api.recv src.server w in
      if is_neg err && not (eq_ℤ err (neg econnreset))
      then (false, src, w')
      else if is_zero err || eq_ℤ err (neg econnreset)
      then (true, record src { state = disconnected }, w')
      else serve_packet src request w'

  dispatch_state : State → Source → W → Option (Bool × Source × W)
  unfolding accept_client receive
  dispatch_state unconnected src w = accept_client src w
  dispatch_state connected src w = some (true, src, w)
  dispatch_state idle src w = some (receive src w)
  dispatch_state disconnected src w = some (true, src, w)

  -- The result is FALSE where the main loop must drop the source.
  unfoldable pub rpc_source_dispatch : Source → W → Option (Bool × Source × W)
  unfolding dispatch_state
  rpc_source_dispatch src w = dispatch_state src.state src w
