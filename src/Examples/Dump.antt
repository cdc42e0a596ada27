-- ===== src/Examples/Dump.antt =====
-- Dumps of bin/utils.c and of lldp-dump.
use rcrpc.Base.{ℕ, ◌≡◌, refl, arith, true, some, List, [], ◌∷◌, take, replicate, pos}
use rcrpc.Names.Tables.{codes}
use rcrpc.Net.Transfer.{hex_digit, hex_byte, store}
use rcrpc.Services.Memory.{MemoryApi, MemoryStubs, lldp_read}
use rcrpc.Dump.Hex.{print_hex_dump, prefix_offset, dump_rows, dump_row, hex_cells, ascii_cells}
use rcrpc.Dump.ReadBack.{Bytes, read_dump, read_dump-print_hex_dump}
use rcrpc.Commands.Lines.{plain}
use rcrpc.Commands.Services.{exec_lldp_dump, dump_line}
use rcrpc.Commands.Dumped.{Delivers, exec_lldp_dump_shown}

abbrev five : List ℕ
five = 0 ∷ 65 ∷ 255 ∷ 10 ∷ 66 ∷ []

five-Bytes : Bytes five
five-Bytes = (omega arith, (omega arith, (omega arith, (omega arith, (omega arith, tt)))))

dump_of_five :
    print_hex_dump prefix_offset [] 4 1 true five 5
    ≡ some (codes "00000000: 00 41 ff 0a | .A.. |\n00000004: 42          | B    |\n")
unfolding print_hex_dump dump_rows dump_row hex_cells ascii_cells hex_byte hex_digit
dump_of_five = refl

read_dump-print_hex_dump_example :
    (text : List ℕ) × (print_hex_dump prefix_offset [] 4 1 true five 5 ≡ some text)
    × (read_dump 5 10 4 text ≡ take 5 five)
read_dump-print_hex_dump_example =
    read_dump-print_hex_dump [] 4 1 true five 5 (omega arith) (omega arith) (omega arith) five-Bytes

-- A monitor with one frame, which nothing changes.
abbrev memory_api : MemoryApi ℕ
memory_api = record {
  smartcard_read = λ o n w. (pos 0, [], w);
  smartcard_write = λ o b n w. (pos 0, w);
  lldp_monitor_read = λ n w. (pos 5, five, w);
}

abbrev memory_stubs : MemoryStubs ℕ
memory_stubs = record {
  stub_card_read = λ o b w. (pos 0, pos 0, b, w);
  stub_card_write = λ o b w. (pos 0, pos 0, b, w);
  stub_lldp_read = λ mode buf w.
      let (ret, answer, w') =
        lldp_read memory_api mode
          (record {
            rx_buf = buf.tx_buf;
            rx_num = buf.tx_num;
            tx_buf = replicate buf.rx_num 0;
            tx_num = buf.rx_num;
          })
          w in
      (pos 0, ret, record buf { rx_buf = store (take answer.tx_num answer.tx_buf) buf.rx_buf }, w');
}

abbrev delivers : Delivers memory_api memory_stubs
delivers = record { memory = λ n. replicate n 0; delivered = λ m b w. refl }

exec_lldp_dump_shown_example :
    (text : List ℕ) × (exec_lldp_dump memory_stubs (some (replicate 8 7)) (codes "lldp-dump" ∷ []) 1
      ≡ some (pos 0, plain (codes "LLDP frame:\n") ∷ dump_line text ∷ [], 1))
    × (read_dump 5 12 16 text ≡ five)
exec_lldp_dump_shown_example =
    exec_lldp_dump_shown memory_api memory_stubs delivers (replicate 8 7) five
      (codes "lldp-dump" ∷ []) 1 1 refl (omega arith) five-Bytes
