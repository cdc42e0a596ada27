-- ===== src/Commands/IrqPoll.antt =====
-- src/rcrpc-client/irq.c, and the handler of irq-poll in bin/commands.c on it.
use mathlib.Core.Option
use rcrpc.Base.{
  ℕ, Option, none, some, if◌then◌else◌, true, false, List, [], ◌∷◌, ℤ, pos, is_neg, einval, neg,
  has_bit,
}
use rcrpc.Names.Tables.{codes}
use rcrpc.Irq.Handlers.{
  IrqSource, source_hook, source_card, source_voip, source_io, source_modem, source_handset,
}
use rcrpc.Commands.Remote.{Arg, arg_error, arg_number}

-- The stubs of the client: what the call itself returns, the result of the server, what it wrote, and
-- the state.
pub record IrqStubs (W : Type 0) : Type 0 where
  pub stub_irq_enable : ℕ → W → ℤ × ℤ × W
  pub stub_irq_get_mask : ℕ → W → ℤ × ℤ × ℕ × W
  pub stub_irq_get_info : IrqSource → ℕ → W → ℤ × ℤ × ℕ × W

-- A line of stderr: the format and the arguments.
pub record Line : Type 0 where
  pub format : List ℕ
  pub args : List Arg

-- The bit of a source in the mask, `source - 1`; the two sources without a bit are never polled.
abbrev pub source_bit : IrqSource → ℕ
source_bit source_hook = 0
source_bit source_card = 1
source_bit source_voip = 2
source_bit source_io = 3
source_bit source_modem = 4
source_bit source_handset = 5
source_bit _ = 32

-- What the switch prints for a source.
abbrev pub source_line : IrqSource → List ℕ
source_line source_hook = codes "HOOK\n"
source_line source_card = codes "SMARTCARD\n"
source_line source_voip = codes "VOIP\n"
source_line source_io = codes "IO\n"
source_line source_modem = codes "MODEM\n"
source_line source_handset = codes "HANDSET\n"
source_line _ = codes "UNKNOWN\n"

abbrev pub poll_list : List IrqSource
poll_list = source_hook ∷ source_card ∷ source_voip ∷ source_io ∷ source_modem ∷ source_handset ∷ []

module _ {W : Type 0} (stubs : IrqStubs W) where
  unfoldable pub remote_irq_enable : ℕ → W → ℤ × W
  remote_irq_enable virtkey w =
      let (err, ret, w') = stubs.stub_irq_enable virtkey w in (if is_neg err then err else ret, w')

  -- A NULL pointer is `none`.
  unfoldable pub remote_irq_get_mask : Option ℕ → W → ℤ × Option ℕ × W
  remote_irq_get_mask none w = (neg einval, none, w)
  remote_irq_get_mask (some mask) w =
      let (err, ret, mask', w') = stubs.stub_irq_get_mask mask w in
      (if is_neg err then err else ret, some mask', w')

  unfoldable pub remote_irq_get_info : IrqSource → Option ℕ → W → ℤ × Option ℕ × W
  remote_irq_get_info src none w = (neg einval, none, w)
  remote_irq_get_info src (some info) w =
      let (err, ret, info', w') = stubs.stub_irq_get_info src info w in
      (if is_neg err then err else ret, some info', w')

  -- What is printed behind a read.
  abbrev pub info_line : ℤ → Option ℕ → Line
  info_line err status =
      if is_neg err
      then record { format = codes "remote_irq_get_info(): %s\n"; args = arg_error err ∷ [] }
      else record {
        format = codes "  %08x\n";
        args = arg_number (pos (Option.get_or status 0)) ∷ [];
      }

  -- The loop of irq-poll over the sources: the lines that it prints, and the state.
  unfoldable pub poll_sources : ℕ → List IrqSource → W → List Line × W
  unfolding remote_irq_get_info
  poll_sources mask [] w = ([], w)
  poll_sources mask (src ∷ rest) w = elim (has_bit mask (source_bit src)) [
    | false ↦ poll_sources mask rest w
    | true ↦
        let (err, status, w') = remote_irq_get_info src (some 0) w in
        let (lines, w'') = poll_sources mask rest w' in
        (record { format = source_line src; args = [] } ∷ info_line err status ∷ lines, w'')
  ]

  unfoldable pub exec_irq_poll : W → ℤ × List Line × W
  unfolding remote_irq_get_mask poll_sources
  exec_irq_poll w =
      let (err, mask, w') = remote_irq_get_mask (some 0) w in
      if is_neg err
      then (
        err,
        record { format = codes "remote_irq_get_mask(): %s"; args = arg_error err ∷ [] } ∷ [],
        w',
      )
      else let (lines, w'') = poll_sources (Option.get_or mask 0) poll_list w' in
        (pos 0, lines, w'')
