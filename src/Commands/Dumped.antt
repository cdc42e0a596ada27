-- ===== src/Commands/Dumped.antt =====
-- lldp-dump of bin/commands.c over the client library and the server.
use rcrpc.Base.{
  ℕ, ◌≤◌, ◌≡◌, refl, ap, ◌∙◌, arith, some, List, [], ◌∷◌, ◌++◌, length, length-append, take-length,
  true, drop, take, pos,
}
use rcrpc.Names.Tables.{codes}
use rcrpc.Net.Transfer.{RpcBuffer, store}
use rcrpc.Services.Memory.{MemoryApi, MemoryStubs, lldp_read, remote_lldp_read}
use rcrpc.Dump.Hex.{print_hex_dump, prefix_offset}
use rcrpc.Dump.ReadBack.{read_dump, Bytes, read_dump-print_hex_dump}
use rcrpc.Commands.IrqPoll.{Line}
use rcrpc.Commands.Lines.{plain}
use rcrpc.Commands.Services.{exec_lldp_dump, dumped, dump_line}

-- The stub of lldp_read reaches the server with a memory of the size that the client asks for, and what
-- the server answers with is stored in the memory of the client.
pub record Delivers {W : Type 0} (api : MemoryApi W) (stubs : MemoryStubs W) : Type 0 where
  pub memory : ℕ → List ℕ
  pub delivered :
      (mode : ℕ) (buf : RpcBuffer) (w : W)
      → stubs.stub_lldp_read mode buf w ≡ (
          let (ret, answer, w') =
            lldp_read api mode
              (record {
                rx_buf = buf.tx_buf;
                rx_num = buf.tx_num;
                tx_buf = memory buf.rx_num;
                tx_num = buf.rx_num;
              })
              w in
          (
            pos 0,
            ret,
            record buf { rx_buf = store (take answer.tx_num answer.tx_buf) buf.rx_buf },
            w',
          ))

dumped-print_hex_dump :
    {W : Type 0} (before : List Line) (prefix memory text : List ℕ) (len : ℕ) (w : W)
    → print_hex_dump prefix_offset prefix 16 1 true memory len ≡ some text
    → dumped before prefix memory len w ≡ some (pos 0, before ++ dump_line text ∷ [], w)
dumped-print_hex_dump before prefix memory text len w e = rw (dumped, e) refl

module _ {W : Type 0} (api : MemoryApi W) (stubs : MemoryStubs W)
    (delivers : Delivers api stubs) where
  remote_lldp_read_lem :
      (frame bytes : List ℕ) (w w' : W)
      → api.lldp_monitor_read 1500 w ≡ (pos (length bytes), bytes, w')
      → remote_lldp_read stubs frame 1500 w ≡ (pos (length bytes), store bytes frame, w')
  unfolding remote_lldp_read lldp_read
  remote_lldp_read_lem frame bytes w w' e =
      rw (delivers.delivered, e)
        (ap (λ t. (pos (length bytes), t ++ drop (length t) frame, w'))
          (take-length bytes (drop (length bytes) (delivers.memory 1500))))

  -- If the monitor has a frame of at most 1500 bytes, lldp-dump succeeds and prints a title and a text,
  -- which reads back as the bytes of the frame.
  pub exec_lldp_dump_shown :
      (frame bytes : List ℕ) (argv : List (List ℕ)) (w w' : W)
      → api.lldp_monitor_read 1500 w ≡ (pos (length bytes), bytes, w')
      → length bytes ≤ 1500
      → Bytes bytes
      → (text : List ℕ) × (exec_lldp_dump stubs (some frame) argv w
          ≡ some (pos 0, plain (codes "LLDP frame:\n") ∷ dump_line text ∷ [], w'))
        × (read_dump (length bytes) 12 16 text ≡ bytes)
  unfolding exec_lldp_dump
  exec_lldp_dump_shown frame bytes argv w w' e b h =
      let (text, printed, back) =
        read_dump-print_hex_dump (codes "  ") 16 1 true (store bytes frame) (length bytes)
          (omega arith) (omega (arith, length-append bytes (drop (length bytes) frame)))
          (omega arith) (rw (take-length bytes (drop (length bytes) frame)) h) in
      (
        text,
        rw (remote_lldp_read_lem frame bytes w w' e) (
            dumped-print_hex_dump (plain (codes "LLDP frame:\n") ∷ []) (codes "  ")
              (store bytes frame) text (length bytes) w' printed),
        back ∙ take-length bytes (drop (length bytes) frame),
      )
