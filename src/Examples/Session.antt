-- ===== src/Examples/Session.antt =====
-- Lines typed at the table of all the commands, over a player that works and a client library whose
-- other calls fail.
use rcrpc.Base.{ℕ, ◌≡◌, refl, Bool, true, false, none, some, [], ◌∷◌, map, ℤ, pos, neg}
use rcrpc.Names.Tables.{codes}
use rcrpc.Cli.Shell.{is_quote}
use rcrpc.Cli.Exec.{main_line}
use rcrpc.Cli.Program.{Invocation, main, parse_options, parse_option, parsed_result}
use rcrpc.Cli.Task.{command_line}
use rcrpc.Client.Connection.{ClientApi, remote_init, connect_client, remote_exit}
use rcrpc.Media.View.{View, player_loopback}
use rcrpc.Commands.Remote.{Remote, arg_text}
use rcrpc.Commands.Lines.{line, plain}
use rcrpc.Commands.PlayerShown.{run_all, expected}
use rcrpc.Commands.Info.{Process, Calls, shown}
use rcrpc.Commands.MediaTable.{cmd_sound_play}
use rcrpc.Commands.PhoneTable.{cmd_modem_reset}
use rcrpc.Commands.Table.{commands, table}
use rcrpc.Commands.Distinct.{carried_holds}
use rcrpc.Commands.Dispatch.{main_line-command, main_line-help}
use rcrpc.Commands.Session.{typed_line, all_lines, nth-Mem}
use rcrpc.Commands.Whole.{new_cli, main-expected}
use rcrpc.Examples.Media.{player_api, plays, silent, session}

-- The error number of each call that fails.
abbrev eio : ℤ
eio = neg 5

abbrev remote : Remote View
remote = record {
  audio_get_volume = λ v w. (eio, v, w);
  audio_set_volume = λ v w. (eio, w);
  audio_get_state = λ s w. (eio, s, w);
  audio_set_state = λ s f w. (eio, w);
  mixer_get_volume = λ c v w. (eio, v, w);
  mixer_set_volume = λ c v w. (eio, w);
  mixer_get_mute = λ c m w. (eio, m, w);
  mixer_set_mute = λ c m w. (eio, w);
  mixer_get_input_source = λ s w. (eio, s, w);
  mixer_set_input_source = λ s w. (eio, w);
  mixer_loopback_is_enabled = λ e w. (eio, e, w);
  mixer_loopback_enable = λ e w. (eio, w);
  backlight_enable = λ f w. (eio, w);
  backlight_get = λ b w. (eio, b, w);
  backlight_set = λ b w. (eio, w);
  printf = λ f a w. w;
}

abbrev calls : Calls View
calls = record {
  remote = remote;
  gpio = record {
    get_mask = λ m w. some (eio, pos 0, m, w);
    set_mask = λ m w. some (eio, pos 0, w);
  };
  irq = record {
    stub_irq_enable = λ m w. (eio, pos 0, w);
    stub_irq_get_mask = λ m w. (eio, pos 0, m, w);
    stub_irq_get_info = λ s i w. (eio, pos 0, i, w);
  };
  player = player_loopback player_api;
  sound = record {
    stub_play = λ t w. (pos 0, pos 0, record w { uri = some t });
    stub_stop_sound = λ w. (eio, pos 0, w);
    stub_set_frequency = λ f w. (eio, pos 0, w);
  };
  modem = record {
    stub_init = λ w. (eio, pos 0, w);
    stub_deinit = λ w. (eio, pos 0, w);
    stub_pick_up = λ w. (eio, pos 0, w);
    stub_hang_up = λ w. (eio, pos 0, w);
    stub_dial = λ n w. (eio, pos 0, w);
    stub_is_calling = λ b w. (eio, pos 0, b, w);
    stub_is_connected = λ b w. (eio, pos 0, b, w);
  };
  voip = record {
    stub_login = λ o w. some (eio, pos 0, w);
    stub_logout = λ w. (eio, pos 0, w);
    stub_connect_to = λ u w. (eio, pos 0, w);
    stub_accept_incoming = λ u w. (eio, pos 0, u, w);
    stub_disconnect = λ w. (eio, pos 0, w);
    stub_still_logged_in = λ s w. (eio, pos 0, s, w);
    stub_dial = λ c w. (eio, pos 0, w);
  };
  handset = record {
    stub_display_clear = λ w. (eio, pos 0, w);
    stub_display_sync = λ w. (eio, pos 0, w);
    stub_display_set_brightness = λ b w. (eio, pos 0, w);
    stub_keypad_set_brightness = λ b w. (eio, pos 0, w);
    stub_show_icon = λ i w. (eio, pos 0, w);
    stub_hide_icon = λ i w. (eio, pos 0, w);
    stub_show_text = λ x y t w. (eio, pos 0, w);
    stub_hide_text = λ x y t w. (eio, pos 0, w);
  };
  tasks = record { stub_exec = λ c w. (eio, pos 0, w); stub_kill = λ p s w. (eio, pos 0, w) };
  memory = record {
    stub_card_read = λ o b w. (eio, pos 0, b, w);
    stub_card_write = λ o b w. (eio, pos 0, b, w);
    stub_lldp_read = λ m b w. (eio, pos 0, b, w);
  };
  scan = λ text. none;
  tuner_errno = 0;
  task_memory = true;
  card_buffer = [];
  lldp_frame = none;
}

abbrev plenty : ℕ → Bool
plenty n = true

main_line-command_example :
    main_line plenty
      (table calls)
      (command_line (codes "sound-play" ∷ codes "a b.wav" ∷ []))
      (some ([], silent))
    ≡ some (some ([], record silent { uri = some (codes "a b.wav") }))
unfolding is_quote shown
main_line-command_example =
    main_line-command calls (cmd_sound_play calls) plenty (codes "a b.wav" ∷ []) [] silent
      (nth-Mem 19 (commands calls) (cmd_sound_play calls) refl) (λ n. refl)
      (carried_holds (codes "a b.wav") refl, tt)

main_line-help_example :
    main_line plenty
      (table calls)
      (command_line (codes "help" ∷ codes "modem-reset" ∷ []))
      (some ([], silent))
    ≡ some (
        some (
          record {
            format = codes "%s - %s\n\n";
            args = arg_text (codes "modem-reset") ∷ arg_text (codes "reset the modem") ∷ [];
          }
              ∷ line (codes "%s\n\n") (arg_text (codes "No options"))
              ∷ [],
          silent,
        ))
main_line-help_example =
    main_line-help calls (cmd_modem_reset calls) plenty [] silent
      (nth-Mem 24 (commands calls) (cmd_modem_reset calls) refl) (λ n. refl)

-- A library whose calls work and leave the process alone.
abbrev library : ClientApi (Process View)
library = record {
  client_create = λ w. (pos 0, 7, w);
  client_free = λ c w. w;
  client_connect = λ c h s w. (pos 0, w);
  set_event_handler = λ c w. (pos 0, w);
  thread_create = λ c w. (pos 0, w);
  thread_join = λ c w. w;
  client_poll = λ c t w. (pos 0, w);
  process_events = λ c w. (pos 0, w);
}

abbrev invocation : Invocation
invocation = record {
  options = (b'q', []) ∷ [];
  optind = 2;
  arguments = codes "shctl" ∷ codes "-q" ∷ [];
  program = codes "shctl";
  release = codes "1.0";
}

main-expected_example :
    let (done, v) = run_all expected session silent in
    (w : View) × (main library plenty
        (table calls)
        []
        true
        true
        invocation
        (map typed_line session)
        (some ([], silent))
      ≡ some (0, plain (codes "\n") ∷ [], some (all_lines done, w)))
    × (w ≡ v)
unfolding is_quote parse_options parse_option parsed_result remote_init connect_client remote_exit
main-expected_example =
    main-expected calls player_api plays library plenty [] invocation session [] [] silent silent
      (record new_cli { quiet = 1 }) 0 (some (record { rpc = 7; done = false })) [] (λ n. refl)
      (
        (carried_holds (codes "a.ogg") refl, tt),
        ((carried_holds (codes "4294967300") refl, tt), (tt, (tt, tt))),
      )
      refl refl refl
