-- ===== src/Net/Channels.antt =====
-- src/rcrpc/net.c: the network data, its initialisation and cleanup, and net_config.
use rcrpc.Base.{
  ℕ, Option, none, some, if◌then◌else◌, List, [], ◌∷◌, ℤ, pos, neg, is_neg, is_zero, einval,
  bit_and,
}

-- `struct net_data`; the channels are the references that net_udp_create_channel returned, or 0.
pub record NetData : Type 0 where
  pub net : ℕ
  pub async_p2p : ℤ
  pub sync_broadcast : ℤ
  pub sync_timeout_msec : ℕ  -- uint16_t

-- The channel calls of remote-control, over the state `W` of everything outside.
pub record ChannelApi (W : Type 0) : Type 0 where
  -- the local port, the host and its port; a reference, or a negated error number
  pub create_channel : ℕ → ℕ → List ℕ → ℕ → W → ℤ × W
  pub destroy_channel : ℕ → ℤ → W → W

-- "255.255.255.255"
abbrev pub broadcast_host : List ℕ
broadcast_host =
    b'2' ∷ b'5' ∷ b'5' ∷ b'.' ∷ b'2' ∷ b'5' ∷ b'5' ∷ b'.' ∷ b'2' ∷ b'5' ∷ b'5' ∷ b'.' ∷ b'2' ∷ b'5'
    ∷ b'5' ∷ []

module _ {W : Type 0} (api : ChannelApi W) where
  open api use {create_channel, destroy_channel}

  -- The global `net_data` is an `Option NetData`.
  unfoldable pub rpc_net_cleanup : Option NetData → W → Option NetData × W
  rpc_net_cleanup none w = (none, w)
  rpc_net_cleanup (some d) w =
      (none, destroy_channel d.net d.sync_broadcast (destroy_channel d.net d.async_p2p w))

  -- A broadcast channel that cannot be created leaves the reference 0.
  unfoldable pub rpc_net_init : ℕ → Option NetData → W → Option NetData × W
  rpc_net_init net g w =
      let (g', w₁) = rpc_net_cleanup g w in
      let (ret, w₂) = create_channel net 49999 broadcast_host 50000 w₁ in
      (
        some (record {
          net = net;
          async_p2p = pos 0;
          sync_broadcast = if is_neg ret then pos 0 else ret;
          sync_timeout_msec = 0;
        }),
        w₂,
      )

  -- `if (net_data->async_p2p) net_udp_destroy_channel(...)`
  unfoldable pub drop_async : NetData → W → W
  drop_async d w = if is_zero d.async_p2p then w else destroy_channel d.net d.async_p2p w

  -- With both pointers there.
  unfoldable pub config_channel : ℕ → NetData → ℕ → ℕ → List ℕ → W → ℤ × NetData × W
  unfolding drop_async
  config_channel net d port timeout host w =
      let (ret, w') = create_channel net 9999 host port (drop_async d w) in
      (
        if is_neg ret then ret else pos 0,
        record d {
          async_p2p = if is_neg ret then pos 0 else ret;
          sync_timeout_msec = bit_and timeout 0xffff;
        },
        w',
      )

  -- `net` is the pointer of remote-control, `repeat` is not used.
  unfoldable pub net_config :
      Option ℕ → Option NetData → ℕ → ℕ → ℕ → List ℕ → W → ℤ × Option NetData × W
  unfolding config_channel
  net_config none g port timeout repeat host w = (neg einval, g, w)
  net_config (some net) none port timeout repeat host w = (neg einval, none, w)
  net_config (some net) (some d) port timeout repeat host w =
      let (ret, d', w') = config_channel net d port timeout host w in (ret, some d', w')
