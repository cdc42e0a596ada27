-- ===== src/Net/Wait.antt =====
-- The synchronous read of src/rcrpc/net.c ends, and how often it asks.
use rcrpc.Base.{
  ℕ, zero, suc, ◌-◌, ◌/◌, ◌<◌, ◌≡◌, arith, true, false, some, List, [], ℤ, neg, is_zero, etimedout,
  ltb, inl, inr, Bool-cases,
}
use rcrpc.Net.Channels.{NetData}
use rcrpc.Net.Transfer.{TransferApi, RpcBuffer, read_wait, read_mode, store}

quotient_small : (t : ℕ) → ltb t 5 ≡ true → t / 5 ≡ 0
quotient_small t h = ground arith

quotient_step : (t : ℕ) → ltb t 5 ≡ false → t / 5 ≡ suc ((t - 5) / 5)
quotient_step t h = ground arith

module _ {W : Type 0} (api : TransferApi W) where
  -- The specification: ask at most `n` times, with a pause of 5 ms behind each failure; the first
  -- answer that is not 0 is the result, and -ETIMEDOUT if there is none.
  unfoldable pub attempts : ℕ → ℕ → ℕ → List ℕ → W → ℤ × List ℕ × W
  attempts zero chan len bytes w = (neg etimedout, bytes, w)
  attempts (suc n) chan len bytes w = elim (is_zero (api.udp_recv chan len w).0) [
    | false ↦ api.udp_recv chan len w
    | true ↦
        attempts n chan len (api.udp_recv chan len w).1
          (api.usleep 5000 (api.udp_recv chan len w).2)
  ]

  -- With one more round of fuel than the timeout has milliseconds the loop ends, and it is the
  -- specification with one attempt for each 5 ms that fit the timeout and one more.
  pub read_wait-attempts :
      (fuel t chan len : ℕ) (bytes : List ℕ) (w : W)
      → t < fuel
      → read_wait api fuel t chan len w ≡ some (attempts (suc (t / 5)) chan len bytes w)
  unfolding read_wait attempts
  read_wait-attempts zero t chan len bytes w h = elim h [ ]
  read_wait-attempts (suc fuel) t chan len bytes w h = elim (Bool-cases (ltb t 5)) [
    | inl last ↦ rw (quotient_small t last) (ground arith)
    | inr more ↦ rw (quotient_step t more) (
        ground (
          arith,
          read_wait-attempts fuel (t - 5) chan len (api.udp_recv chan len w).1
              (api.usleep 5000 (api.udp_recv chan len w).2) (ground arith),
        ))
  ]

  -- In the synchronous mode net_read always returns, with what the specification finds within the
  -- timeout that net_config set, and the bytes of the answer stored in the client's buffer.
  pub read_mode-sync :
      (d : NetData) (a s : ℕ) (b : RpcBuffer) (w : W)
      → let (ret, bytes, w') = attempts (suc (d.sync_timeout_msec / 5)) s b.tx_num [] w in
        read_mode api d a s 1 b w ≡ some (ret, record b { tx_buf = store bytes b.tx_buf }, w')
  unfolding read_mode
  read_mode-sync d a s b w = ground (
    arith,
    read_wait-attempts (suc d.sync_timeout_msec) d.sync_timeout_msec s b.tx_num [] w (omega arith),
  )
