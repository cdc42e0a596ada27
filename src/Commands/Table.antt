-- ===== src/Commands/Table.antt =====
-- bin/commands.c: the table of commands, which the linker makes of their structures, in the order of the
-- file.
use rcrpc.Base.{List, [], ◌∷◌, map}
use rcrpc.Cli.Exec.{CommandTable}
use rcrpc.Commands.Help.{HelpEntry, exec_help}
use rcrpc.Commands.Info.{
  CommandInfo, Calls, Process, info, printing, table_entry, command_not_found,
}
use rcrpc.Commands.MediaTable.{
  cmd_audio_volume, cmd_audio_state, cmd_mixer_volume, cmd_mixer_mute, cmd_mixer_input,
  cmd_mixer_loopback, cmd_backlight_power, cmd_backlight_brightness, cmd_lldp_dump,
  cmd_media_player_uri, cmd_media_player_output, cmd_media_player_play, cmd_media_player_stop,
  cmd_media_player_pause, cmd_media_player_resume, cmd_media_player_duration,
  cmd_media_player_position, cmd_media_player_state, cmd_sound_play, cmd_sound_stop,
}
use rcrpc.Commands.PhoneTable.{
  cmd_modem_call, cmd_modem_accept, cmd_modem_terminate, cmd_modem_reset, cmd_smartcard_read,
  cmd_task_exec, cmd_task_kill, cmd_voip_login, cmd_voip_logout, cmd_voip_call, cmd_voip_accept,
  cmd_voip_terminate, cmd_voip_dtmf, cmd_tuner_frequency, cmd_handset_display_clear,
  cmd_handset_display_sync, cmd_handset_backlight, cmd_handset_show_icon, cmd_handset_show_text,
  cmd_gpio_get, cmd_gpio_set, cmd_irq_poll,
}

module _ {W : Type 0} (calls : Calls W) where
  -- All the commands but help.
  abbrev others : List (CommandInfo W)
  others =
      cmd_audio_volume calls
      ∷ cmd_audio_state calls
      ∷ cmd_mixer_volume calls
      ∷ cmd_mixer_mute calls
      ∷ cmd_mixer_input calls
      ∷ cmd_mixer_loopback calls
      ∷ cmd_backlight_power calls
      ∷ cmd_backlight_brightness calls
      ∷ cmd_lldp_dump calls
      ∷ cmd_media_player_uri calls
      ∷ cmd_media_player_output calls
      ∷ cmd_media_player_play calls
      ∷ cmd_media_player_stop calls
      ∷ cmd_media_player_pause calls
      ∷ cmd_media_player_resume calls
      ∷ cmd_media_player_duration calls
      ∷ cmd_media_player_position calls
      ∷ cmd_media_player_state calls
      ∷ cmd_sound_play calls
      ∷ cmd_sound_stop calls
      ∷ cmd_modem_call calls
      ∷ cmd_modem_accept calls
      ∷ cmd_modem_terminate calls
      ∷ cmd_modem_reset calls
      ∷ cmd_smartcard_read calls
      ∷ cmd_task_exec calls
      ∷ cmd_task_kill calls
      ∷ cmd_voip_login calls
      ∷ cmd_voip_logout calls
      ∷ cmd_voip_call calls
      ∷ cmd_voip_accept calls
      ∷ cmd_voip_terminate calls
      ∷ cmd_voip_dtmf calls
      ∷ cmd_tuner_frequency calls
      ∷ cmd_handset_display_clear calls
      ∷ cmd_handset_display_sync calls
      ∷ cmd_handset_backlight calls
      ∷ cmd_handset_show_icon calls
      ∷ cmd_handset_show_text calls
      ∷ cmd_gpio_get calls
      ∷ cmd_gpio_set calls
      ∷ cmd_irq_poll calls
      ∷ []

  abbrev help_entry : HelpEntry
  help_entry = info "help" "print global or command-specific help"

  -- What command_foreach walks through.
  abbrev pub entries : List HelpEntry
  entries = help_entry ∷ map (λ (c : CommandInfo W). c.entry) others

  abbrev pub cmd_help : CommandInfo W
  cmd_help = record { entry = help_entry; exec = printing (exec_help entries) }

  abbrev pub commands : List (CommandInfo W)
  commands = cmd_help ∷ others

  abbrev pub table : CommandTable (Process W)
  table = record { all_commands = map table_entry commands; not_found = command_not_found }
