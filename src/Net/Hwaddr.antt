-- ===== src/Net/Hwaddr.antt =====
-- The hardware address of src/rcrpc/net.c: its text, its socket, and the size that net_read reports.
use rcrpc.Base.{
  ℕ, zero, suc, ◌+◌, ◌-◌, ◌*◌, ◌/◌, ◌%◌, ◌<◌, ◌≡◌, ◌⊎◌, refl, arith, Option, none, some,
  if◌then◌else◌, List, [], ◌∷◌, ◌++◌, ℤ, pos, neg, is_neg, pos_part, ltb, length,
}
use rcrpc.Net.Channels.{NetData}
use rcrpc.Net.Transfer.{
  TransferApi, RpcBuffer, gethwaddr, hwaddr_of, hwaddr_on, hwaddr_text, hex_byte, hex_digit,
  read_mode, snprintf, interface_name,
}

-- A reader of hexadecimal digits, independent of the printer.
unfoldable pub digit_value : ℕ → Option ℕ
digit_value c =
    if ltb c b'0'
    then none
    else if ltb c (b'9' + 1)
    then some (c - b'0')
    else if ltb c b'a'
    then none
    else if ltb c (b'f' + 1)
    then some (c - b'a' + 10)
    else none

abbrev pair_value : Option ℕ → Option ℕ → Option ℕ
pair_value (some h) (some l) = some (16 * h + l)
pair_value _ _ = none

abbrev cons_value : Option ℕ → Option (List ℕ) → Option (List ℕ)
cons_value (some b) (some bs) = some (b ∷ bs)
cons_value _ _ = none

unfoldable pub read_hex : List ℕ → Option (List ℕ)
read_hex [] = some []
read_hex (h ∷ []) = none
read_hex (h ∷ l ∷ cs) = cons_value (pair_value (digit_value h) (digit_value l)) (read_hex cs)

digit_value-hex_digit : (d : ℕ) → d < 16 → digit_value (hex_digit d) ≡ some d
unfolding digit_value hex_digit
digit_value-hex_digit d h = ground arith

read_hex-hex_byte :
    (b : ℕ) (cs : List ℕ)
    → b < 256
    → read_hex (hex_byte b ++ cs) ≡ cons_value (some b) (read_hex cs)
unfolding read_hex hex_byte
read_hex-hex_byte b cs h = ground (
  arith,
  digit_value-hex_digit (b / 16) (omega arith),
  digit_value-hex_digit (b % 16) (omega arith),
)

read_hex-nil : read_hex [] ≡ some []
unfolding read_hex
read_hex-nil = refl

byte_mod : (b : ℕ) → b < 256 → b % 256 ≡ b
byte_mod b h = omega arith

-- The text of a hardware address reads back as its six bytes, and has twelve digits.
hwaddr_text_reads :
    (a b c d e f : ℕ) (rest : List ℕ)
    → a < 256
    → b < 256
    → c < 256
    → d < 256
    → e < 256
    → f < 256
    → (read_hex (hwaddr_text (a ∷ b ∷ c ∷ d ∷ e ∷ f ∷ rest)) ≡ some (a ∷ b ∷ c ∷ d ∷ e ∷ f ∷ []))
unfolding hwaddr_text
hwaddr_text_reads a b c d e f rest ha hb hc hd he hf =
    rw (byte_mod a ha, byte_mod b hb, byte_mod c hc, byte_mod d hd, byte_mod e he, byte_mod f hf)
      (simp (read_hex-hex_byte, read_hex-nil))

length-hwaddr_text : (sa : List ℕ) → length (hwaddr_text sa) ≡ 12
unfolding hwaddr_text
length-hwaddr_text sa = refl

snprintf_result : (text : List ℕ) (len : ℕ) (mem : List ℕ) → (snprintf text len mem).0 ≡ length text
unfolding snprintf
snprintf_result text zero mem = refl
snprintf_result text (suc len) mem = refl

pos_part-neg : (n : ℕ) → pos_part (neg n) ≡ 0
pos_part-neg zero = refl
pos_part-neg (suc n) = refl

-- Twelve characters, or nothing: the result is not positive.
abbrev Answers : ℤ → Type 0
Answers r = (r ≡ pos 12) ⊎ (pos_part r ≡ 0)

-- What can be seen of the outside: how many sockets are open.
pub record SocketLaws {W : Type 0} (api : TransferApi W) : Type 0 where
  pub sockets : W → ℕ
  pub sockets-socket :
      (w : W)
      → sockets (api.socket w).2 ≡ (if is_neg (api.socket w).0 then sockets w else suc (sockets w))
  pub sockets-close : (s : ℤ) (w : W) → sockets (api.close s w) ≡ sockets w - 1
  pub sockets-if_lookup_default : (w : W) → sockets (api.if_lookup_default w).1 ≡ sockets w
  pub sockets-if_indextoname : (i : ℤ) (w : W) → sockets (api.if_indextoname i w).2 ≡ sockets w
  pub sockets-ioctl_hwaddr :
      (s : ℤ) (n : List ℕ) (w : W) → sockets (api.ioctl_hwaddr s n w).3 ≡ sockets w

module _ {W : Type 0} (api : TransferApi W) where
  -- The socket that gethwaddr opens it closes on every path, the failing ones too.
  pub gethwaddr-sockets :
      (laws : SocketLaws api) (mem : List ℕ) (len : ℕ) (w : W)
      → laws.sockets (gethwaddr api mem len w).2 ≡ laws.sockets w
  unfolding gethwaddr
  gethwaddr-sockets laws mem len w = grind (
    arith, laws.sockets-socket, laws.sockets-close, laws.sockets-if_lookup_default,
    laws.sockets-if_indextoname, laws.sockets-ioctl_hwaddr,
  )

  hwaddr_of_result :
      (skt : ℤ) (name mem : List ℕ) (len : ℕ) (w : W) → Answers (hwaddr_of api skt name mem len w).0
  unfolding hwaddr_of
  hwaddr_of_result skt name mem len w =
      let (err, errno, sa, w') = api.ioctl_hwaddr skt (interface_name name) w in
      ground
        (arith, pos_part-neg errno, snprintf_result (hwaddr_text sa) len mem, length-hwaddr_text sa)

  hwaddr_on_result :
      (skt : ℤ) (mem : List ℕ) (len : ℕ) (w : W) → Answers (hwaddr_on api skt mem len w).0
  unfolding hwaddr_on
  hwaddr_on_result skt mem len w = grind (arith, pos_part-neg, hwaddr_of_result)

  gethwaddr_result : (mem : List ℕ) (len : ℕ) (w : W) → Answers (gethwaddr api mem len w).0
  unfolding gethwaddr
  gethwaddr_result mem len w = grind (arith, pos_part-neg, hwaddr_on_result)

  -- A read of the hardware address returns 12 and reports the size 12, whatever the size of the
  -- client's buffer is, so that below 12 the reported size exceeds it; or what it returns is not
  -- positive, and it reports the size 0.
  pub read_mode_hwaddr_size :
      (d : NetData) (a s : ℕ) (b : RpcBuffer) (w : W)
      → let (ret, mem, w') = gethwaddr api b.tx_buf b.tx_num w in
        (ret ≡ pos 12)
          × (read_mode api d a s 0xb b w ≡ some (ret, record b { tx_buf = mem; tx_num = 12 }, w'))
        ⊎ (pos_part ret ≡ 0)
          × (read_mode api d a s 0xb b w ≡ some (ret, record b { tx_buf = mem; tx_num = 0 }, w'))
  unfolding read_mode
  read_mode_hwaddr_size d a s b w = ground (arith, gethwaddr_result b.tx_buf b.tx_num w)
