-- ===== src/Services/Tasks.antt =====
-- src/rcrpc/task-manager.c with src/rcrpc-client/task-manager.c, and src/rcrpc-client/events.c.
use rcrpc.Base.{ℕ, List, ℤ, neg, returned, enosys}

-- The calls of the platform library: a command line is started without a directory or an
-- environment, and a signal is sent.
pub record TaskApi (W : Type 0) : Type 0 where
  pub manager_exec : List ℕ → W → ℤ × W
  pub manager_kill : ℤ → ℤ → W → ℤ × W

module _ {W : Type 0} (api : TaskApi W) where
  abbrev pub task_manager_exec : List ℕ → W → ℤ × W
  task_manager_exec command_line w = api.manager_exec command_line w

  abbrev pub task_manager_kill : ℤ → ℤ → W → ℤ × W
  task_manager_kill pid sig w = api.manager_kill pid sig w

-- The stubs of the client.
pub record TaskStubs (W : Type 0) : Type 0 where
  pub stub_exec : List ℕ → W → ℤ × ℤ × W
  pub stub_kill : ℤ → ℤ → W → ℤ × ℤ × W

module _ {W : Type 0} (stubs : TaskStubs W) where
  abbrev pub remote_task_manager_exec : List ℕ → W → ℤ × W
  remote_task_manager_exec command w =
      let (err, ret, w') = stubs.stub_exec command w in (returned err ret, w')

  abbrev pub remote_task_manager_kill : ℤ → ℤ → W → ℤ × W
  remote_task_manager_kill pid sig w =
      let (err, ret, w') = stubs.stub_kill pid sig w in (returned err ret, w')

-- `enum remote_event`.
pub data RemoteEvent : Type 0 where
  event_card : RemoteEvent
  event_modem : RemoteEvent
  event_voip : RemoteEvent

-- The events of the client library: a handler `H` is neither kept nor called.
module _ {W H : Type 0} where
  abbrev pub remote_register_event_handler : RemoteEvent → H → W → ℤ × W
  remote_register_event_handler queue handler w = (neg enosys, w)

  abbrev pub remote_unregister_event_handler : RemoteEvent → H → W → ℤ × W
  remote_unregister_event_handler queue handler w = (neg enosys, w)

module _ {W : Type 0} where
  abbrev pub remote_call_events : RemoteEvent → ℕ → W → ℤ × W
  remote_call_events queue type w = (neg enosys, w)

  abbrev pub card_event : ℕ → W → W
  card_event type w = (remote_call_events event_card type w).1

  abbrev pub modem_event : ℕ → W → W
  modem_event type w = (remote_call_events event_modem type w).1

  abbrev pub voip_event : ℕ → W → W
  voip_event type w = (remote_call_events event_voip type w).1
