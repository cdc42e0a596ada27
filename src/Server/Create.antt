-- ===== src/Server/Create.antt =====
-- src/rcrpc/rcrpc.c: rcrpc_create, and what the finalizer of the source releases.
use rcrpc.Base.{
  ℕ, Bool, false, if◌then◌else◌, Option, none, some, [], ℤ, pos, neg, is_neg, einval, enomem,
}
use rcrpc.Irq.State.{IrqData, rpc_irq_init, rpc_irq_cleanup}
use rcrpc.Net.Channels.{NetData, ChannelApi, rpc_net_init, rpc_net_cleanup}
use rcrpc.Server.Source.{Source, PollFd, unconnected, no_flags, all_flags}

-- The globals `irq_event_data` and `net_data`.
pub record Globals : Type 0 where
  pub irq : Option IrqData
  pub net : Option NetData

-- What the code calls of librpc, the C library, GLib and remote-control. A server, a remote control,
-- a configuration and a manager are numbers.
pub record CreateApi (W : Type 0) : Type 0 where
  pub channels : ChannelApi W
  pub server_create : W → ℤ × ℕ × W
  pub server_free : ℕ → W → W
  -- the server and the port
  pub server_listen : ℕ → ℕ → W → ℤ × W
  -- `*rpc_priv = rc`
  pub set_priv : ℕ → ℕ → W → W
  -- whether there was memory for a source
  pub source_new : W → Bool × W
  pub get_listen_socket : ℕ → W → ℤ × W
  -- `none` if the key is missing or no Boolean
  pub key_file_get_boolean : ℕ → W → Option Bool × W
  -- SO_KEEPALIVE on the socket
  pub setsockopt : ℤ → ℕ → W → ℤ × W
  pub add_poll : PollFd → W → W
  -- the source becomes a child of that of the remote control, which then owns it
  pub add_child_source : ℕ → W → W
  pub get_event_manager : ℕ → ℕ
  pub set_event_cb : ℕ → ℕ → W → ℤ × W
  pub get_net_udp : ℕ → ℕ

-- What g_source_new fills with zeros, with the server.
abbrev pub new_source : ℕ → Source
new_source server = record {
  server = server;
  state = unconnected;
  peer = [];
  poll_listen = record { fd = pos 0; events = no_flags; revents = no_flags };
  poll_client = record { fd = pos 0; events = no_flags; revents = no_flags };
}

-- The listening socket is watched for input, errors and hang-ups.
abbrev pub listen_poll : ℤ → PollFd
listen_poll socket = record { fd = socket; events = all_flags; revents = no_flags }

module _ {W : Type 0} (api : CreateApi W) where
  open api use {channels}

  unfoldable pub socket_enable_keepalive : ℤ → Bool → W → ℤ × W
  socket_enable_keepalive socket enable w = api.setsockopt socket (if enable then 1 else 0) w

  -- FALSE without a configuration, or with an error.
  unfoldable pub config_get_socket_keepalive : Option ℕ → W → Bool × W
  config_get_socket_keepalive none w = (false, w)
  config_get_socket_keepalive (some config) w =
      let (found, w') = api.key_file_get_boolean config w in
      elim found [ none ↦ (false, w') | some enable ↦ (enable, w') ]

  -- The end of rcrpc_create: the listening socket is watched, the source attached, and the modules
  -- are initialised. The result of the registration of the callback is only logged.
  unfoldable pub attach_source : ℕ → ℕ → ℤ → Globals → W → ℤ × Option Source × Globals × W
  unfolding rpc_irq_init
  attach_source rc server socket g w =
      let w₁ = api.add_child_source rc (api.add_poll (listen_poll socket) w) in
      let (ret, w₂) = api.set_event_cb (api.get_event_manager rc) server w₁ in
      let (net, w₃) = rpc_net_init channels (api.get_net_udp rc) g.net w₂ in
      (
        pos 0,
        some (record (new_source server) { poll_listen = listen_poll socket }),
        record { irq = rpc_irq_init server (api.get_event_manager rc); net = net },
        w₃,
      )

  -- From the creation of the source on.
  unfoldable pub create_source : ℕ → ℕ → Option ℕ → Globals → W → ℤ × Option Source × Globals × W
  unfolding attach_source socket_enable_keepalive config_get_socket_keepalive
  create_source rc server config g w =
      let (made, w₁) = api.source_new w in
      if made
      then (let (socket, w₂) = api.get_listen_socket server w₁ in
          if is_neg socket
          then (socket, none, g, w₂)
          else let (keepalive, w₃) = config_get_socket_keepalive config w₂ in
            let (err, w₄) = socket_enable_keepalive socket keepalive w₃ in
            if is_neg err then (err, none, g, w₄) else attach_source rc server socket g w₄)
      else (neg enomem, none, g, w₁)

  -- The result, the source that the main loop then runs, the globals and the state.
  unfoldable pub rcrpc_create : Option ℕ → Option ℕ → Globals → W → ℤ × Option Source × Globals × W
  unfolding create_source
  rcrpc_create none config g w = (neg einval, none, g, w)
  rcrpc_create (some rc) config g w =
      let (err, server, w₁) = api.server_create w in
      if is_neg err
      then (err, none, g, w₁)
      else let (err', w₂) = api.server_listen server 7482 w₁ in
        if is_neg err'
        then (err', none, g, w₂)
        else create_source rc server config g (api.set_priv server rc w₂)

  unfoldable pub rcrpc_free : Option ℕ → Globals → W → ℤ × Globals × W
  unfolding rpc_irq_cleanup
  rcrpc_free none g w = (neg einval, g, w)
  rcrpc_free (some server) g w =
      let (net, w') = rpc_net_cleanup channels g.net w in
      (pos 0, record { irq = rpc_irq_cleanup g.irq; net = net }, api.server_free server w')

  unfoldable pub rpc_source_finalize : Source → Globals → W → Globals × W
  unfolding rcrpc_free
  rpc_source_finalize src g w = let (ret, g', w') = rcrpc_free (some src.server) g w in (g', w')
