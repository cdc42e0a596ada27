-- ===== src/Examples/Create.antt =====
-- rcrpc_create of src/rcrpc/rcrpc.c over an outside that counts servers.
use rcrpc.Base.{ℕ, suc, ◌-◌, ◌≡◌, refl, true, none, some, pos, neg, ◌==◌, if◌then◌else◌}
use rcrpc.Net.Channels.{ChannelApi}
use rcrpc.Server.Source.{Source}
use rcrpc.Server.Create.{
  Globals, CreateApi, new_source, listen_poll, rcrpc_create, rpc_source_finalize,
}
use rcrpc.Server.Release.{ServerLaws, rcrpc_create-servers, rcrpc_create-rpc_source_finalize}

abbrev channels : ChannelApi ℕ
channels = record { create_channel = λ n p h q w. (pos 4, w); destroy_channel = λ n r w. w }

-- The keepalive option fails if it is set, so with the configuration 1.
abbrev api : CreateApi ℕ
api = record {
  channels = channels;
  server_create = λ w. (pos 0, 7, suc w);
  server_free = λ s w. w - 1;
  server_listen = λ s p w. (pos 0, w);
  set_priv = λ s r w. w;
  source_new = λ w. (true, w);
  get_listen_socket = λ s w. (pos 3, w);
  key_file_get_boolean = λ c w. (some true, w);
  setsockopt = λ s v w. (if v == 1 then neg 1 else pos 0, w);
  add_poll = λ p w. w;
  add_child_source = λ r w. w;
  get_event_manager = λ r. 9;
  set_event_cb = λ m s w. (pos 0, w);
  get_net_udp = λ r. 1;
}

abbrev laws : ServerLaws api
laws = record {
  servers = λ w. w;
  servers-server_create = λ w. refl;
  servers-server_free = λ s w. refl;
  servers-server_listen = λ s p w. refl;
  servers-set_priv = λ s r w. refl;
  servers-source_new = λ w. refl;
  servers-get_listen_socket = λ s w. refl;
  servers-key_file_get_boolean = λ c w. refl;
  servers-setsockopt = λ s v w. refl;
  servers-add_poll = λ p w. refl;
  servers-add_child_source = λ r w. refl;
  servers-set_event_cb = λ m s w. refl;
  servers-create_channel = λ n p h q w. refl;
  servers-destroy_channel = λ n c w. refl;
}

abbrev globals : Globals
globals = record { irq = none; net = none }

-- The creation fails, and one server is there.
failed_create : (rcrpc_create api (some 2) (some 1) globals 0).0 ≡ neg 1
unfolding rcrpc_create
failed_create = refl

rcrpc_create-servers_example : laws.servers (rcrpc_create api (some 2) (some 1) globals 0).3 ≡ 1
rcrpc_create-servers_example = rcrpc_create-servers api laws 2 (some 1) globals 0

abbrev made : Source
made = record (new_source 7) { poll_listen = listen_poll (pos 3) }

rcrpc_create-rpc_source_finalize_example :
    (pos 0 ≡ pos 0)
    × (made.server ≡ 7)
    × (laws.servers
          (rpc_source_finalize api made
            (rcrpc_create api (some 2) none globals 0).2
            (rcrpc_create api (some 2) none globals 0).3).1
        ≡ 0)
    × ((rpc_source_finalize api made
          (rcrpc_create api (some 2) none globals 0).2
          (rcrpc_create api (some 2) none globals 0).3).0
        ≡ record { irq = none; net = none })
unfolding rcrpc_create
rcrpc_create-rpc_source_finalize_example =
    rcrpc_create-rpc_source_finalize api laws 2 none globals 0 made (pos 0)
      (rcrpc_create api (some 2) none globals 0).2 (rcrpc_create api (some 2) none globals 0).3 refl
