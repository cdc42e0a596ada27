-- ===== src/Commands/PhoneTable.antt =====
-- bin/commands.c: the structures of the commands from modem-call to irq-poll.
use rcrpc.Base.{ℕ, List, some}
use rcrpc.Names.Tables.{codes}
use rcrpc.Commands.Phone.{
  exec_modem_call, exec_modem_accept, exec_modem_terminate, exec_modem_reset, exec_voip_login,
  exec_voip_logout, exec_voip_call, exec_voip_accept, exec_voip_terminate, exec_voip_dtmf,
}
use rcrpc.Commands.Services.{exec_smartcard_read, exec_task_exec, exec_task_kill}
use rcrpc.Commands.Player.{exec_tuner_frequency}
use rcrpc.Commands.Handset.{
  exec_handset_display_clear, exec_handset_display_sync, exec_handset_backlight,
  exec_handset_show_icon, exec_handset_show_text,
}
use rcrpc.Commands.Gpio.{exec_gpio_get, exec_gpio_set}
use rcrpc.Commands.IrqPoll.{exec_irq_poll}
use rcrpc.Commands.Info.{CommandInfo, Calls, info, printing}

module _ {W : Type 0} (calls : Calls W) where
  abbrev pub cmd_modem_call : CommandInfo W
  cmd_modem_call = record {
    entry = info "modem-call" "place a phone call";
    exec = printing (exec_modem_call calls.modem);
  }

  abbrev pub cmd_modem_accept : CommandInfo W
  cmd_modem_accept = record {
    entry = info "modem-accept" "accept an incoming phone call";
    exec = printing (exec_modem_accept calls.modem);
  }

  abbrev pub cmd_modem_terminate : CommandInfo W
  cmd_modem_terminate = record {
    entry = info "modem-terminate" "terminate a phone call";
    exec = printing (exec_modem_terminate calls.modem);
  }

  abbrev pub cmd_modem_reset : CommandInfo W
  cmd_modem_reset = record {
    entry = record (info "modem-reset" "reset the modem") { help = some (codes "No options") };
    exec = printing (exec_modem_reset calls.modem);
  }

  abbrev pub cmd_smartcard_read : CommandInfo W
  cmd_smartcard_read = record {
    entry = info "smartcard-read" "read from a smart card";
    exec = exec_smartcard_read calls.memory calls.card_buffer;
  }

  abbrev pub cmd_task_exec : CommandInfo W
  cmd_task_exec = record {
    entry = info "task-exec" "execute a task";
    exec = printing (exec_task_exec calls.tasks calls.task_memory);
  }

  abbrev pub cmd_task_kill : CommandInfo W
  cmd_task_kill = record {
    entry = info "task-kill" "kill a running task";
    exec = printing (exec_task_kill calls.tasks);
  }

  abbrev pub cmd_voip_login : CommandInfo W
  cmd_voip_login = record {
    entry = record (info "voip-login" "register with VoIP proxy") {
      help = some (codes "<registrar> <port> <user> <passwd>");
    };
    exec = exec_voip_login calls.voip;
  }

  abbrev pub cmd_voip_logout : CommandInfo W
  cmd_voip_logout = record {
    entry = info "voip-logout" "unregister from VoIP proxy";
    exec = printing (exec_voip_logout calls.voip);
  }

  abbrev pub cmd_voip_call : CommandInfo W
  cmd_voip_call = record {
    entry = info "voip-call" "place outgoing VoIP call";
    exec = printing (exec_voip_call calls.voip);
  }

  abbrev pub cmd_voip_accept : CommandInfo W
  cmd_voip_accept = record {
    entry = info "voip-accept" "accept incoming VoIP call";
    exec = printing (exec_voip_accept calls.voip);
  }

  abbrev pub cmd_voip_terminate : CommandInfo W
  cmd_voip_terminate = record {
    entry = info "voip-terminate" "terminate VoIP call";
    exec = printing (exec_voip_terminate calls.voip);
  }

  abbrev pub cmd_voip_dtmf : CommandInfo W
  cmd_voip_dtmf = record {
    entry = info "voip-dtmf" "dial a dtmf tone";
    exec = printing (exec_voip_dtmf calls.voip);
  }

  abbrev pub cmd_tuner_frequency : CommandInfo W
  cmd_tuner_frequency = record {
    entry = info "tuner-frequency" "set the tuner frequency";
    exec = printing (exec_tuner_frequency calls.sound calls.tuner_errno);
  }

  abbrev pub cmd_handset_display_clear : CommandInfo W
  cmd_handset_display_clear = record {
    entry = info "handset-display-clear" "clear the handset display";
    exec = printing (exec_handset_display_clear calls.handset);
  }

  abbrev pub cmd_handset_display_sync : CommandInfo W
  cmd_handset_display_sync = record {
    entry = info "handset-display-sync" "update the handset display";
    exec = printing (exec_handset_display_sync calls.handset);
  }

  abbrev pub cmd_handset_backlight : CommandInfo W
  cmd_handset_backlight = record {
    entry = info "handset-backlight" "control the display or keypad backlight";
    exec = printing (exec_handset_backlight calls.handset);
  }

  abbrev pub cmd_handset_show_icon : CommandInfo W
  cmd_handset_show_icon = record {
    entry = info "handset-show-icon" "show a given icon on the handset display";
    exec = printing (exec_handset_show_icon calls.handset);
  }

  abbrev pub cmd_handset_show_text : CommandInfo W
  cmd_handset_show_text = record {
    entry = info "handset-show-text" "show a given string on the handset display";
    exec = printing (exec_handset_show_text calls.handset);
  }

  abbrev pub cmd_gpio_get : CommandInfo W
  cmd_gpio_get = record {
    entry = info "gpio-get" "obtain the pin level of a given GPIO";
    exec = exec_gpio_get calls.gpio;
  }

  abbrev pub cmd_gpio_set : CommandInfo W
  cmd_gpio_set = record {
    entry = info "gpio-set" "set the pin level of a given GPIO";
    exec = exec_gpio_set calls.gpio;
  }

  abbrev pub cmd_irq_poll : CommandInfo W
  cmd_irq_poll = record {
    entry = info "irq-poll" "poll interrupts";
    exec = printing (λ (argv : List (List ℕ)) (w : W). exec_irq_poll calls.irq w);
  }
