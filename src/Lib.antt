-- ===== src/Lib.antt =====
-- The remote control RPC extension: a server that a main loop drives, the procedures that its clients
-- call, the client library, and a command line client.
--
--   Irq      src/rcrpc/irq.c. An event of the platform's event manager sets the bit of its source in
--            a word and notifies the client; the client asks for the mask and for the information on
--            one source, which ends the interrupt. State has `struct irq_data` and the callback,
--            Handlers the procedures, and the other modules the theorems.
--   Server   src/rcrpc/rcrpc.c. The GSource of the server. Source has the functions prepare, check
--            and dispatch over `struct remote_control_source`; Invariant has what every order of them
--            keeps, Loop one iteration of the main loop. Create has rcrpc_create and the finalizer,
--            over the globals of Irq and Net; Release has what they leave.
--   Net      src/rcrpc/net.c. Channels has the set-up of the two UDP channels, Transfer the reads,
--            the writes and the hardware address; Lifecycle, Wait and Hwaddr have the theorems.
--   Gpio     src/rcrpc/io.c (Server) and src/rcrpc-client/gpio.c (Client); Pins connects the two.
--   Devices  audio.c, mixer.c, backlight.c and the type of a card in smartcard.c, of src/rcrpc, and
--            their functions in src/rcrpc-client; RoundTrip connects the two sides.
--   Phone    modem.c (Modem) and voip.c (Voip) of src/rcrpc and src/rcrpc-client; Login has what a
--            login hands to the platform.
--   Media    media-player.c (Player) of both sides; sound.c, tuner.c, media.c and system.c of
--            src/rcrpc with sound-manager.c and tuner.c of src/rcrpc-client (Sound); View has what a
--            player is, seen from outside.
--   Services task-manager.c of both sides and src/rcrpc-client/events.c (Tasks), card_read and
--            card_write of smartcard.c and card.c, and lldp.c of both sides (Memory), handset.c of
--            both sides (Handset).
--   Client   src/rcrpc-client/rcrpc-client.c: Connection has remote_init, remote_exit and a round of
--            the thread that polls, Release what they leave; Poll has the thread and the caller of
--            remote_exit as two programs that take steps in any order, Exit the theorems on them.
--   Dump     print_hex_dump of bin/utils.c: Hex has it, Rows compares it with a walk through the
--            bytes, ReadBack reads its text back.
--   Names    bin/utils.c: the tables of names and the functions that search them (Tables), and their
--            theorems (Lookup).
--   Cli      bin/main.c: Shell has the split of a line into words, Exec the run of a command and
--            slice_strdup of bin/utils.c; Task has the command line that task-exec of bin/commands.c
--            joins; Split describes the words of a line, Fill, Words and RoundTrip have the theorems.
--            Program has main with its options, Options what they leave, Lifecycle the client of
--            librpc from start to end; Completion has the completion of a command by readline,
--            Arguments that of its arguments, Input the reading of a line without it.
--   Commands bin/commands.c: Sound has the handlers of audio, the mixer and the backlight over the
--            client library in Remote, Numbers the functions of the C library that read numbers;
--            Bounds has what they send, EndToEnd connects them with Devices. IrqPoll has irq-poll and
--            src/rcrpc-client/irq.c, IrqPolled connects them with Irq; Gpio has gpio-get and gpio-set,
--            GpioShown connects them with Gpio. Player, Phone, Handset, Services and Help have the
--            other handlers, with the lines that they print (Lines), over the client functions in
--            Media, Phone and Services; PlayerShown, PhoneShown, HandsetShown, TasksShown and Dumped
--            connect them with the servers. Decimal has numbers that printf writes. MediaTable and
--            PhoneTable have the structures of the commands (Info), Table the table of them; Distinct
--            compares their names, Dispatch and Session have what a line that is typed does, Whole a run
--            of the program.
--   Base     Boolean tests, lists, C integers with the error numbers, the bits of a word.
--   Examples the theorems at concrete inputs.
--
-- Functions keep their names; a handler RPC_IMPL(f) is f, and RPC_STUB(f) is a field of the stubs.
-- Code takes the state before and returns the result, what it wrote behind its pointers and the state
-- after. What is not in the repository is a parameter: the platform library, librpc, GLib, sockets and
-- the generated stubs are the records Api, CreateApi, ChannelApi, TransferApi, Backend, AudioApi,
-- MixerApi, BacklightApi, ModemApi, VoipApi, PlayerApi, SoundApi, TaskApi, MemoryApi, HandsetApi,
-- ClientApi and the Stubs, over any state W of the outside; Remote is the
-- client library as the commands call it. The laws that a theorem needs of them are records too.
-- `Option` around a result marks undefined behaviour or the end of the process as `none`. A loopback
-- is stubs whose calls reach the handlers and come back.
--
-- Numbers are natural numbers with the wrap-around of the C type written out, results of C functions
-- are ℤ of Base.Code. Strings are lists of bytes. Memory is a function that says which requests are
-- granted. The waits of net.c run on fuel, one more than the timeout, of which every round takes 5 ms;
-- the loops over pins run on the number of pins, and the parser runs on the text. print_hex_dump has as
-- much fuel as bytes, and each row takes one byte or more.
--
-- In Client.Poll each read or write of `done` is one step, as if it were atomic, and a call of librpc
-- comes back.
--
-- Not modelled: the traces of g_debug; getopt_long, which is the list of what it returns, and readline
-- but for the two functions that complete; the hooks around readline and strfreev, which have no
-- result; tests/media-player-test.c, a manual program. The stubs are generated by a tool outside the
-- repository.
mod Base
pub mod Irq
pub mod Server
pub mod Net
pub mod Cli
pub mod Names
pub mod Gpio
pub mod Devices
pub mod Client
pub mod Commands
pub mod Phone
pub mod Media
pub mod Services
pub mod Dump
mod Examples
