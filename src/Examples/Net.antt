-- ===== src/Examples/Net.antt =====
-- src/rcrpc/net.c over an outside that counts what is open.
use rcrpc.Base.{
  ℕ, suc, ◌-◌, ◌≡◌, ◌⊎◌, refl, arith, none, some, List, [], ◌∷◌, pos, pos_part, neg, is_zero,
  if◌then◌else◌, replicate, ◌==◌,
}
use rcrpc.Net.Channels.{NetData, ChannelApi, rpc_net_init, rpc_net_cleanup}
use rcrpc.Net.Lifecycle.{ChannelLaws, configs, Config, lifecycle-channels}
use rcrpc.Net.Transfer.{TransferApi, RpcBuffer, gethwaddr, read_mode}
use rcrpc.Net.Wait.{attempts, read_mode-sync}
use rcrpc.Net.Hwaddr.{SocketLaws, gethwaddr-sockets, read_mode_hwaddr_size}

-- The state is the number of channels; the remote port 0 is refused.
abbrev channel_api : ChannelApi ℕ
channel_api = record {
  create_channel = λ n p h q w. if q == 0 then (neg 22, w) else (pos 4, suc w);
  destroy_channel = λ n r w. if is_zero r then w else w - 1;
}

channel_laws : ChannelLaws channel_api
channel_laws = record {
  channels = λ w. w;
  created_not_zero = λ n p h q w. ground arith;
  channels-create = λ n p h q w. ground arith;
  channels-destroy = λ n r w. refl;
}

-- A call that works and one that does not.
abbrev calls : List Config
calls = (7000, 100, 0, b'a' ∷ []) ∷ (0, 100, 0, b'a' ∷ []) ∷ []

lifecycle-channels_example :
    let (g', w') = rpc_net_init channel_api 1 none 3 in
    let (g'', w'') = configs channel_api 1 g' w' calls in
    channel_laws.channels (rpc_net_cleanup channel_api g'' w'').1 ≡ 3
unfolding channel_laws
lifecycle-channels_example = lifecycle-channels channel_api channel_laws 1 none 3 calls 3 refl

-- The state of the outside: sockets, and the attempts after which a packet arrives.
record Outside : Type 0 where
  sockets : ℕ
  quiet : ℕ

abbrev transfer_api : TransferApi Outside
transfer_api = record {
  get_channel_by_ref = λ n r w. (6, w);
  udp_recv = λ c len w.
      if w.quiet == 0
      then (pos 2, 8 ∷ 9 ∷ [], w)
      else (pos 0, [], record w { quiet = w.quiet - 1 });
  udp_send = λ c bytes n w. (pos n, w);
  usleep = λ us w. w;
  select = λ fd s us w. (pos 1, 0, w);
  gethostname = λ n w. (b'h' ∷ 0 ∷ [], w);
  socket = λ w. (pos 3, 0, record w { sockets = suc w.sockets });
  close = λ s w. record w { sockets = w.sockets - 1 };
  if_lookup_default = λ w. (pos 2, w);
  if_indextoname = λ i w. (some (b'e' ∷ []), 0, w);
  ioctl_hwaddr = λ s n w. (pos 0, 0, 0 ∷ 26 ∷ 255 ∷ 1 ∷ 2 ∷ 3 ∷ [], w);
}

abbrev socket_laws : SocketLaws transfer_api
socket_laws = record {
  sockets = λ w. w.sockets;
  sockets-socket = λ w. refl;
  sockets-close = λ s w. refl;
  sockets-if_lookup_default = λ w. refl;
  sockets-if_indextoname = λ i w. refl;
  sockets-ioctl_hwaddr = λ s n w. refl;
}

abbrev outside : Outside
outside = record { sockets = 0; quiet = 3 }

abbrev settings : NetData
settings = record { net = 1; async_p2p = pos 4; sync_broadcast = pos 4; sync_timeout_msec = 20 }

abbrev buffer : RpcBuffer
buffer = record { rx_buf = []; rx_num = 0; tx_buf = replicate 4 1; tx_num = 4 }

read_mode-sync_example :
    read_mode transfer_api settings 6 6 1 buffer outside
    ≡ some (pos 2, record buffer { tx_buf = 8 ∷ 9 ∷ 1 ∷ 1 ∷ [] }, record outside { quiet = 0 })
unfolding attempts
read_mode-sync_example = read_mode-sync transfer_api settings 6 6 buffer outside

gethwaddr-sockets_example :
    socket_laws.sockets (gethwaddr transfer_api (replicate 4 1) 4 outside).2 ≡ 0
gethwaddr-sockets_example = gethwaddr-sockets transfer_api socket_laws (replicate 4 1) 4 outside

read_mode_hwaddr_size_example :
    let (ret, mem, w') = gethwaddr transfer_api (replicate 4 1) 4 outside in
    (ret ≡ pos 12)
      × (read_mode transfer_api settings 6 6 0xb buffer outside
          ≡ some (ret, record buffer { tx_buf = mem; tx_num = 12 }, w'))
    ⊎ (pos_part ret ≡ 0)
      × (read_mode transfer_api settings 6 6 0xb buffer outside
          ≡ some (ret, record buffer { tx_buf = mem; tx_num = 0 }, w'))
read_mode_hwaddr_size_example = read_mode_hwaddr_size transfer_api settings 6 6 buffer outside
