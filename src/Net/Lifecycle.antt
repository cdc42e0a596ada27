-- ===== src/Net/Lifecycle.antt =====
-- The channels of src/rcrpc/net.c from its initialisation to its cleanup.
use rcrpc.Base.{
  ℕ, suc, ◌+◌, ◌-◌, ◌≡◌, arith, false, Option, none, some, if◌then◌else◌, List, [], ◌∷◌, ℤ, is_neg,
  is_zero,
}
use rcrpc.Net.Channels.{
  broadcast_host, NetData, ChannelApi, rpc_net_cleanup, rpc_net_init, config_channel, net_config,
}

-- What can be seen of the outside: how many channels are open. The documented behaviour of the calls:
-- a channel that is created has a reference that is not 0, and destroying the reference 0 does
-- nothing.
pub record ChannelLaws {W : Type 0} (api : ChannelApi W) : Type 0 where
  pub channels : W → ℕ
  pub created_not_zero :
      (n p : ℕ) (h : List ℕ) (q : ℕ) (w : W) → is_zero (api.create_channel n p h q w).0 ≡ false
  pub channels-create :
      (n p : ℕ) (h : List ℕ) (q : ℕ) (w : W)
      → channels (api.create_channel n p h q w).1
        ≡ (if is_neg (api.create_channel n p h q w).0 then channels w else suc (channels w))
  pub channels-destroy :
      (n : ℕ) (r : ℤ) (w : W)
      → channels (api.destroy_channel n r w) ≡ (if is_zero r then channels w else channels w - 1)

-- How many channels the data holds.
abbrev pub holds : ℤ → ℕ
holds r = if is_zero r then 0 else 1

abbrev pub owned : Option NetData → ℕ
owned none = 0
owned (some d) = holds d.async_p2p + holds d.sync_broadcast

-- A call of net_config: the port, the timeout, the repeat count and the host.
abbrev pub Config : Type 0
Config = ℕ × ℕ × ℕ × List ℕ

module _ {W : Type 0} (api : ChannelApi W) where
  pub configs : ℕ → Option NetData → W → List Config → Option NetData × W
  configs net g w [] = (g, w)
  configs net g w ((port, timeout, repeat, host) ∷ cs) =
      let (ret, g', w') = net_config api (some net) g port timeout repeat host w in
      configs net g' w' cs

module _ {W : Type 0} (api : ChannelApi W) (laws : ChannelLaws api) where
  open laws use {channels}

  cleanup-channels :
      (g : Option NetData) (w : W) (n : ℕ)
      → channels w ≡ owned g + n
      → channels (rpc_net_cleanup api g w).1 ≡ n
  unfolding rpc_net_cleanup
  cleanup-channels none w n h = ground arith
  cleanup-channels (some d) w n h = ground (
    arith,
    laws.channels-destroy d.net d.async_p2p w,
    laws.channels-destroy d.net d.sync_broadcast (api.destroy_channel d.net d.async_p2p w),
  )

  init-channels :
      (net : ℕ) (g : Option NetData) (w : W) (n : ℕ)
      → channels w ≡ owned g + n
      → channels (rpc_net_init api net g w).1 ≡ owned (rpc_net_init api net g w).0 + n
  unfolding rpc_net_init
  init-channels net g w n h =
      let w₁ = (rpc_net_cleanup api g w).1 in
      ground (
        arith,
        cleanup-channels g w n h,
        laws.channels-create net 49999 broadcast_host 50000 w₁,
        laws.created_not_zero net 49999 broadcast_host 50000 w₁,
      )

  config-channels :
      (net : ℕ) (d : NetData) (port timeout : ℕ) (host : List ℕ) (w : W) (n : ℕ)
      → channels w ≡ owned (some d) + n
      → channels (config_channel api net d port timeout host w).2
        ≡ owned (some (config_channel api net d port timeout host w).1) + n
  unfolding config_channel
  config-channels net d port timeout host w n h =
      grind (arith, laws.channels-destroy, laws.channels-create, laws.created_not_zero)

  configs-channels :
      (net : ℕ) (g : Option NetData) (w : W) (cs : List Config) (n : ℕ)
      → channels w ≡ owned g + n
      → channels (configs api net g w cs).1 ≡ owned (configs api net g w cs).0 + n
  unfolding configs net_config
  configs-channels net g w [] n h = h
  configs-channels net none w ((port, timeout, repeat, host) ∷ cs) n h =
      configs-channels net none w cs n h
  configs-channels net (some d) w ((port, timeout, repeat, host) ∷ cs) n h =
      let (ret, d', w') = config_channel api net d port timeout host w in
      configs-channels net (some d') w' cs n (config-channels net d port timeout host w n h)

  -- No channel is lost: after an initialisation, over data of an earlier one or none, any calls of
  -- net_config, successful or not, and a cleanup, as many channels are open as the module did not own
  -- at the start.
  pub lifecycle-channels :
      (net : ℕ) (g : Option NetData) (w : W) (cs : List Config) (n : ℕ)
      → channels w ≡ owned g + n
      → let (g', w') = rpc_net_init api net g w in
        let (g'', w'') = configs api net g' w' cs in channels (rpc_net_cleanup api g'' w'').1 ≡ n
  lifecycle-channels net g w cs n h =
      let (g', w') = rpc_net_init api net g w in
      let (g'', w'') = configs api net g' w' cs in
      cleanup-channels g'' w'' n (configs-channels net g' w' cs n (init-channels net g w n h))
