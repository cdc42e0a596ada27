-- ===== src/Examples/Client.antt =====
-- The connection of src/rcrpc-client/rcrpc-client.c over an outside that counts clients.
use rcrpc.Base.{ℕ, suc, ◌-◌, ◌≡◌, refl, true, none, pos, neg}
use rcrpc.Client.Connection.{ClientApi, remote_init}
use rcrpc.Client.Release.{ClientLaws}

-- The handler of events cannot be set.
abbrev api : ClientApi ℕ
api = record {
  client_create = λ w. (pos 0, 7, suc w);
  client_free = λ c w. w - 1;
  client_connect = λ c h s w. (pos 0, w);
  set_event_handler = λ c w. (neg 22, w);
  thread_create = λ c w. (pos 0, w);
  thread_join = λ c w. w;
  client_poll = λ c t w. (neg 110, w);
  process_events = λ c w. (pos 0, w);
}

abbrev laws : ClientLaws api
laws = record {
  clients = λ w. w;
  clients-client_create = λ w. refl;
  clients-client_free = λ c w. refl;
  clients-client_connect = λ c h s w. refl;
  clients-set_event_handler = λ c w. refl;
  clients-thread_create = λ c w. refl;
  clients-thread_join = λ c w. refl;
}

failed_init : remote_init api true none none 3 ≡ (neg 22, none, 3)
unfolding remote_init
failed_init = refl
