-- ===== src/Net/Transfer.antt =====
-- src/rcrpc/net.c: the hardware address, net_read and net_write.
use rcrpc.Base.{
  ℕ, zero, suc, ◌+◌, ◌-◌, ◌*◌, ◌/◌, ◌%◌, true, false, Option, none, some, if◌then◌else◌, List, [],
  ◌∷◌, ◌++◌, ℤ, pos, neg, is_neg, pos_part, is_zero, einval, enodev, enosys, etimedout, ltb, ◌==◌,
  drop, take, length, get_or,
}
use rcrpc.Net.Channels.{NetData}

-- `struct rpc_buffer`: what the client sent, and the memory for the answer with its size.
pub record RpcBuffer : Type 0 where
  pub rx_buf : List ℕ
  pub rx_num : ℕ
  pub tx_buf : List ℕ
  pub tx_num : ℕ

-- The calls of the C library and of remote-control, over the state `W` of everything outside. An
-- error number is what `errno` holds after the call.
pub record TransferApi (W : Type 0) : Type 0 where
  pub get_channel_by_ref : ℕ → ℤ → W → ℕ × W
  -- the result and the bytes that it stores
  pub udp_recv : ℕ → ℕ → W → ℤ × List ℕ × W
  pub udp_send : ℕ → List ℕ → ℕ → W → ℤ × W
  pub usleep : ℕ → W → W
  -- `select` for reading on one descriptor, with seconds and microseconds: the result, the error number
  pub select : ℤ → ℕ → ℕ → W → ℤ × ℕ × W
  -- the bytes that it stores
  pub gethostname : ℕ → W → List ℕ × W
  pub socket : W → ℤ × ℕ × W
  pub close : ℤ → W → W
  pub if_lookup_default : W → ℤ × W
  -- the name unless it is NULL, and the error number
  pub if_indextoname : ℤ → W → Option (List ℕ) × ℕ × W
  -- the result, the error number and the address in `sa_data`
  pub ioctl_hwaddr : ℤ → List ℕ → W → ℤ × ℕ × List ℕ × W

-- Bytes stored from the start of a memory.
abbrev pub store : List ℕ → List ℕ → List ℕ
store bytes mem = bytes ++ drop (length bytes) mem

-- The length up to the terminator; `none` is a read beyond the memory.
unfoldable pub strlen : List ℕ → Option ℕ
strlen [] = none
strlen (c ∷ cs) =
    if c == 0 then some 0 else elim (strlen cs) [ none ↦ none | some n ↦ some (suc n) ]

-- The conversion %02x of a byte.
unfoldable pub hex_digit : ℕ → ℕ
hex_digit d = if ltb d 10 then d + b'0' else d - 10 + b'a'

unfoldable pub hex_byte : ℕ → List ℕ
unfolding hex_digit
hex_byte b = hex_digit (b / 16) ∷ hex_digit (b % 16) ∷ []

-- The text of the six conversions, each at `(uint8_t)sa_data[i]`.
unfoldable pub hwaddr_text : List ℕ → List ℕ
unfolding hex_byte
hwaddr_text data' =
    hex_byte (get_or data' 0 0 % 256)
    ++ (hex_byte (get_or data' 1 0 % 256)
        ++ (hex_byte (get_or data' 2 0 % 256)
            ++ (hex_byte (get_or data' 3 0 % 256)
                ++ (hex_byte (get_or data' 4 0 % 256) ++ hex_byte (get_or data' 5 0 % 256)))))

-- `snprintf(mem, len, ...)`: at most `len` bytes with the terminator, and the length of the whole text.
unfoldable pub snprintf : List ℕ → ℕ → List ℕ → ℕ × List ℕ
snprintf text zero mem = (length text, mem)
snprintf text (suc len) mem = (length text, store (take len text ++ 0 ∷ []) mem)

-- `strncpy(req.ifr_name, ifname, IFNAMSIZ - 1)` on a zeroed field of 16 bytes, up to the terminator.
abbrev pub interface_name : List ℕ → List ℕ
interface_name name = take 15 name

module _ {W : Type 0} (api : TransferApi W) where
  open api use {
    get_channel_by_ref, udp_recv, udp_send, usleep, gethostname, close, if_lookup_default,
    if_indextoname, ioctl_hwaddr,
  }

  -- The request of the address and the text, with the socket closed behind it.
  unfoldable pub hwaddr_of : ℤ → List ℕ → List ℕ → ℕ → W → ℤ × List ℕ × W
  unfolding hwaddr_text snprintf
  hwaddr_of skt name hwaddr len w =
      let (err, errno, data', w') = ioctl_hwaddr skt (interface_name name) w in
      if is_neg err
      then (neg errno, hwaddr, close skt w')
      else let (n, hwaddr') = snprintf (hwaddr_text data') len hwaddr in
        (pos n, hwaddr', close skt w')

  -- The lookup of the interface behind the socket.
  unfoldable pub hwaddr_on : ℤ → List ℕ → ℕ → W → ℤ × List ℕ × W
  unfolding hwaddr_of
  hwaddr_on skt hwaddr len w =
      let (ifindex, w₁) = if_lookup_default w in
      if is_zero ifindex
      then (neg enodev, hwaddr, close skt w₁)
      else let (ifname, errno, w₂) = if_indextoname ifindex w₁ in
        elim ifname [
          | none ↦ (neg errno, hwaddr, close skt w₂)
          | some name ↦ hwaddr_of skt name hwaddr len w₂
        ]

  unfoldable pub gethwaddr : List ℕ → ℕ → W → ℤ × List ℕ × W
  unfolding hwaddr_on
  gethwaddr hwaddr len w =
      let (skt, errno, w') = api.socket w in
      if is_neg skt then (neg errno, hwaddr, w') else hwaddr_on skt hwaddr len w'

  -- The loop of the synchronous read on fuel; `none` says that the fuel ran out. The time left is not
  -- negative in a round: a subtraction of 5 that would make it so ends the loop with -ETIMEDOUT.
  unfoldable pub read_wait : ℕ → ℕ → ℕ → ℕ → W → Option (ℤ × List ℕ × W)
  read_wait zero timeout chan len w = none
  read_wait (suc fuel) timeout chan len w =
      let (ret, bytes, w') = udp_recv chan len w in
      elim (is_zero ret) [
        | false ↦ some (ret, bytes, w')
        | true ↦ elim (ltb timeout 5) [
          | true ↦ some (neg etimedout, bytes, usleep 5000 w')
          | false ↦ read_wait fuel (timeout - 5) chan len (usleep 5000 w')
        ]
      ]

  -- The modes of net_read; any other returns -ENOSYS. `ret > 0 ? ret : 0` is the positive part.
  unfoldable pub read_mode : NetData → ℕ → ℕ → ℕ → RpcBuffer → W → Option (ℤ × RpcBuffer × W)
  read_mode d async_chan sync_chan mode b w =
      if mode == 0
      then (let (ret, bytes, w') = udp_recv async_chan b.tx_num w in
          some (ret, record b { tx_buf = store bytes b.tx_buf }, w'))
      else if mode == 1
      then elim (read_wait (suc d.sync_timeout_msec) d.sync_timeout_msec sync_chan b.tx_num w) [
        | none ↦ none
        | some (ret, bytes, w') ↦ some (ret, record b { tx_buf = store bytes b.tx_buf }, w')
      ]
      else if mode == 0xa
      then (let (bytes, w') = gethostname b.tx_num w in
          let mem = store bytes b.tx_buf in
          elim (strlen mem) [
            | none ↦ none
            | some n ↦ some (pos n, record b { tx_buf = mem; tx_num = n }, w')
          ])
      else if mode == 0xb
      then (let (ret, mem, w') = gethwaddr b.tx_buf b.tx_num w in
          some (ret, record b { tx_buf = mem; tx_num = pos_part ret }, w'))
      else some (neg enosys, b, w)

  -- The result, the buffer and the state after; `none` is a read beyond the buffer's memory.
  unfoldable pub net_read :
      Option ℕ → Option NetData → ℕ → RpcBuffer → W → Option (ℤ × RpcBuffer × W)
  unfolding read_mode
  net_read none g mode b w = some (neg einval, b, w)
  net_read (some net) none mode b w = some (neg einval, b, w)
  net_read (some net) (some d) mode b w =
      let (async_chan, w₁) = get_channel_by_ref net d.async_p2p w in
      let (sync_chan, w₂) = get_channel_by_ref net d.sync_broadcast w₁ in
      read_mode d async_chan sync_chan mode b w₂

  -- The blocking write waits for the reference of the broadcast channel, taken for a descriptor.
  unfoldable pub write_wait : NetData → ℕ → RpcBuffer → W → ℤ × W
  write_wait d sync_chan b w =
      let (sent, w₁) = udp_send sync_chan b.rx_buf b.rx_num w in
      if is_neg sent
      then (sent, w₁)
      else let (ret, errno, w₂) =
          api.select d.sync_broadcast (d.sync_timeout_msec / 1000)
            (d.sync_timeout_msec % 1000 * 1000) w₁ in
        (if is_neg ret then neg errno else if is_zero ret then neg etimedout else ret, w₂)

  unfoldable pub net_write : Option ℕ → Option NetData → ℕ → RpcBuffer → W → ℤ × W
  unfolding write_wait
  net_write none g mode b w = (neg einval, w)
  net_write (some net) none mode b w = (neg einval, w)
  net_write (some net) (some d) mode b w =
      let (async_chan, w₁) = get_channel_by_ref net d.async_p2p w in
      let (sync_chan, w₂) = get_channel_by_ref net d.sync_broadcast w₁ in
      if mode == 0
      then udp_send async_chan b.rx_buf b.rx_num w₂
      else if mode == 1
      then write_wait d sync_chan b w₂
      else (neg enosys, w₂)
