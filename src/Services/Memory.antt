-- ===== src/Services/Memory.antt =====
-- src/rcrpc/smartcard.c (card_read and card_write) with src/rcrpc-client/card.c, and src/rcrpc/lldp.c
-- with src/rcrpc-client/lldp.c: what is read from and written to a device through an `rpc_buffer`.
use rcrpc.Base.{ℕ, Bool, if◌then◌else◌, List, [], ℤ, neg, is_neg, pos_part, returned, enosys}
use rcrpc.Net.Transfer.{RpcBuffer, store}

-- The calls of the platform library: the result and the bytes that a read stores.
pub record MemoryApi (W : Type 0) : Type 0 where
  pub smartcard_read : ℤ → ℕ → W → ℤ × List ℕ × W
  pub smartcard_write : ℤ → List ℕ → ℕ → W → ℤ × W
  pub lldp_monitor_read : ℕ → W → ℤ × List ℕ × W

module _ {W : Type 0} (api : MemoryApi W) where
  -- The result and the buffer after the call.
  unfoldable pub card_read : ℤ → RpcBuffer → W → ℤ × RpcBuffer × W
  card_read offset buffer w =
      let (ret, bytes, w') = api.smartcard_read offset buffer.tx_num w in
      (ret, record buffer { tx_buf = store bytes buffer.tx_buf }, w')

  abbrev pub card_write : ℤ → RpcBuffer → W → ℤ × RpcBuffer × W
  card_write offset buffer w =
      let (ret, w') = api.smartcard_write offset buffer.rx_buf buffer.rx_num w in (ret, buffer, w')

  abbrev pub lldp_enable : Bool → W → ℤ × W
  lldp_enable enable w = (neg enosys, w)

  -- The size of the answer is what was read.
  unfoldable pub lldp_read : ℕ → RpcBuffer → W → ℤ × RpcBuffer × W
  lldp_read mode buffer w =
      let (err, bytes, w') = api.lldp_monitor_read buffer.tx_num w in
      (
        err,
        record buffer {
          tx_buf = store bytes buffer.tx_buf;
          tx_num = if is_neg err then 0 else pos_part err;
        },
        w',
      )

-- The stubs of the client: what the call itself returns, the result of the server, the buffer after
-- it, and the state.
pub record MemoryStubs (W : Type 0) : Type 0 where
  pub stub_card_read : ℤ → RpcBuffer → W → ℤ × ℤ × RpcBuffer × W
  pub stub_card_write : ℤ → RpcBuffer → W → ℤ × ℤ × RpcBuffer × W
  pub stub_lldp_read : ℕ → RpcBuffer → W → ℤ × ℤ × RpcBuffer × W

module _ {W : Type 0} (stubs : MemoryStubs W) where
  -- The result, the memory of the caller after the call, and the state.
  unfoldable pub remote_card_read : ℤ → List ℕ → ℕ → W → ℤ × List ℕ × W
  remote_card_read offset buffer size w =
      let buf : RpcBuffer = record { rx_buf = buffer; rx_num = size; tx_buf = []; tx_num = 0 } in
      let (err, ret, buf', w') = stubs.stub_card_read offset buf w in
      (returned err ret, buf'.rx_buf, w')

  unfoldable pub remote_card_write : ℤ → List ℕ → ℕ → W → ℤ × W
  remote_card_write offset buffer size w =
      let buf : RpcBuffer = record { rx_buf = []; rx_num = 0; tx_buf = buffer; tx_num = size } in
      let (err, ret, buf', w') = stubs.stub_card_write offset buf w in (returned err ret, w')

  unfoldable pub remote_lldp_read : List ℕ → ℕ → W → ℤ × List ℕ × W
  remote_lldp_read data' size w =
      let buf : RpcBuffer = record { rx_buf = data'; rx_num = size; tx_buf = []; tx_num = 0 } in
      let (err, ret, buf', w') = stubs.stub_lldp_read 0 buf w in (returned err ret, buf'.rx_buf, w')
