-- ===== src/Commands/MediaTable.antt =====
-- bin/commands.c: the structures of the commands from audio-volume to sound-stop.
use rcrpc.Base.{some}
use rcrpc.Commands.Sound.{
  exec_audio_volume, exec_audio_state, exec_mixer_volume, exec_mixer_mute, exec_mixer_input,
  exec_mixer_loopback, exec_backlight_power, exec_backlight_brightness,
}
use rcrpc.Commands.Services.{exec_lldp_dump}
use rcrpc.Commands.Player.{
  exec_media_player_uri, exec_media_player_output, exec_media_player_play, exec_media_player_stop,
  exec_media_player_pause, exec_media_player_resume, exec_media_player_duration,
  exec_media_player_position, exec_media_player_state, exec_sound_play, exec_sound_stop,
}
use rcrpc.Commands.Info.{CommandInfo, Calls, info, silent, printing, help_audio_state}

module _ {W : Type 0} (calls : Calls W) where
  abbrev pub cmd_audio_volume : CommandInfo W
  cmd_audio_volume = record {
    entry = info "audio-volume" "get or set the current audio volume";
    exec = silent (exec_audio_volume calls.remote);
  }

  abbrev pub cmd_audio_state : CommandInfo W
  cmd_audio_state = record {
    entry = record (info "audio-state" "get or set the current audio state") {
      helpcmd = some help_audio_state;
    };
    exec = silent (exec_audio_state calls.remote calls.scan);
  }

  abbrev pub cmd_mixer_volume : CommandInfo W
  cmd_mixer_volume = record {
    entry = info "mixer-volume" "access audio volume";
    exec = silent (exec_mixer_volume calls.remote);
  }

  abbrev pub cmd_mixer_mute : CommandInfo W
  cmd_mixer_mute = record {
    entry = info "mixer-mute" "mute or unmute audio control";
    exec = silent (exec_mixer_mute calls.remote);
  }

  abbrev pub cmd_mixer_input : CommandInfo W
  cmd_mixer_input = record {
    entry = info "mixer-input" "access audio input source";
    exec = silent (exec_mixer_input calls.remote);
  }

  abbrev pub cmd_mixer_loopback : CommandInfo W
  cmd_mixer_loopback = record {
    entry = info "mixer-loopback" "control audio loopback mode";
    exec = silent (exec_mixer_loopback calls.remote);
  }

  abbrev pub cmd_backlight_power : CommandInfo W
  cmd_backlight_power = record {
    entry = info "backlight-power" "control backlight power";
    exec = silent (exec_backlight_power calls.remote);
  }

  abbrev pub cmd_backlight_brightness : CommandInfo W
  cmd_backlight_brightness = record {
    entry = info "backlight-brightness" "access backlight brightness";
    exec = silent (exec_backlight_brightness calls.remote);
  }

  abbrev pub cmd_lldp_dump : CommandInfo W
  cmd_lldp_dump = record {
    entry = info "lldp-dump" "dump LLDP data";
    exec = exec_lldp_dump calls.memory calls.lldp_frame;
  }

  abbrev pub cmd_media_player_uri : CommandInfo W
  cmd_media_player_uri = record {
    entry = info "media-player-uri" "access media stream URI";
    exec = printing (exec_media_player_uri calls.player);
  }

  abbrev pub cmd_media_player_output : CommandInfo W
  cmd_media_player_output = record {
    entry = info "media-player-output" "control media player output window";
    exec = printing (exec_media_player_output calls.player);
  }

  abbrev pub cmd_media_player_play : CommandInfo W
  cmd_media_player_play = record {
    entry = info "media-player-play" "start media playback";
    exec = printing (exec_media_player_play calls.player);
  }

  abbrev pub cmd_media_player_stop : CommandInfo W
  cmd_media_player_stop = record {
    entry = info "media-player-stop" "stop media playback";
    exec = printing (exec_media_player_stop calls.player);
  }

  abbrev pub cmd_media_player_pause : CommandInfo W
  cmd_media_player_pause = record {
    entry = info "media-player-pause" "pause media stream";
    exec = printing (exec_media_player_pause calls.player);
  }

  abbrev pub cmd_media_player_resume : CommandInfo W
  cmd_media_player_resume = record {
    entry = info "media-player-resume" "resume media stream";
    exec = printing (exec_media_player_resume calls.player);
  }

  abbrev pub cmd_media_player_duration : CommandInfo W
  cmd_media_player_duration = record {
    entry = info "media-player-duration" "obtain media stream duration";
    exec = printing (exec_media_player_duration calls.player);
  }

  abbrev pub cmd_media_player_position : CommandInfo W
  cmd_media_player_position = record {
    entry = info "media-player-position" "access media stream position";
    exec = printing (exec_media_player_position calls.player);
  }

  abbrev pub cmd_media_player_state : CommandInfo W
  cmd_media_player_state = record {
    entry = info "media-player-state" "retrieve media player state";
    exec = printing (exec_media_player_state calls.player);
  }

  abbrev pub cmd_sound_play : CommandInfo W
  cmd_sound_play = record {
    entry = info "sound-play" "play sound file";
    exec = printing (exec_sound_play calls.sound);
  }

  abbrev pub cmd_sound_stop : CommandInfo W
  cmd_sound_stop = record {
    entry = info "sound-stop" "stop sound playback";
    exec = printing (exec_sound_stop calls.sound);
  }
