-- ===== src/Examples/Server.antt =====
-- src/rcrpc/rcrpc.c over an outside that counts polls and packets.
use rcrpc.Base.{ℕ, suc, ◌-◌, ◌≤◌, ◌≡◌, ◌↔◌, refl, arith, false, some, [], pos, neg}
use rcrpc.Server.Source.{
  State, unconnected, connected, idle, disconnected, PollFd, Source, Api, no_flags, all_flags,
  rpc_source_prepare, rpc_source_dispatch,
}
use rcrpc.Server.Invariant.{
  Observation, Phase, prepares, dispatches, start, after, Phases-watched, dispatch-held, GivesUp,
  returned, dispatch-GivesUp,
}
use rcrpc.Server.Loop.{iterate, outcome, request, iterate_stale}

-- How often the client is watched, and how many packets are held.
record Outside : Type 0 where
  watches : ℕ
  packets : ℕ

-- Every receive finds a packet, and its handler fails.
abbrev api : Api Outside
api = record {
  get_client_socket = λ s w. (pos 5, w);
  accept = λ s w. (pos 0, w);
  get_peer = λ s w. (pos 16, some 3, w);
  getnameinfo = λ a l n w. (pos 0, n, w);
  free_addr = λ a w. w;
  recv = λ s w. (pos 1, 8, record w { packets = suc w.packets });
  dispatch = λ s r w. (neg 5, w);
  packet_free = λ r w. record w { packets = w.packets - 1 };
  add_poll = λ p w. record w { watches = suc w.watches };
  remove_poll = λ p w. record w { watches = w.watches - 1 };
}

abbrev seen : Observation api
seen = record {
  watched = λ w. w.watches;
  held = λ w. w.packets;
  watched-add_poll = λ p w. refl;
  watched-remove_poll = λ p w. refl;
  watched-get_client_socket = λ s w. refl;
  watched-accept = λ s w. refl;
  watched-get_peer = λ s w. refl;
  watched-getnameinfo = λ a l n w. refl;
  watched-free_addr = λ a w. refl;
  watched-recv = λ s w. refl;
  watched-dispatch = λ s r w. refl;
  watched-packet_free = λ r w. refl;
  held-accept = λ s w. refl;
  held-get_peer = λ s w. refl;
  held-getnameinfo = λ a l n w. refl;
  held-free_addr = λ a w. refl;
  held-recv = λ s w. refl;
  held-dispatch = λ s r w. refl;
  held-packet_free = λ r w. refl;
}

abbrev unset : PollFd
unset = record { fd = pos 0; events = no_flags; revents = no_flags }

abbrev source : State → Source
source st = record { server = 1; state = st; peer = []; poll_listen = unset; poll_client = unset }

abbrev outside : ℕ → Outside
outside n = record { watches = n; packets = 0 }

-- A connected client whose socket is looked up.
abbrev served : Source
served = record (source idle) {
  poll_client = record { fd = pos 5; events = all_flags; revents = no_flags };
}

lookup_step : Phase api (source connected) (outside 0) served (outside 1)
unfolding rpc_source_prepare
lookup_step = prepares refl

accept_step : Phase api (source unconnected) (outside 0) (source connected) (outside 0)
unfolding rpc_source_dispatch
accept_step = dispatches refl

Phases-watched_example :
    (seen.watched (outside 1) ≤ 1) × (served.state ≡ idle → seen.watched (outside 1) ≡ 1)
Phases-watched_example =
    Phases-watched api seen refl refl (after (after start accept_step) lookup_step)

failed_dispatch :
    rpc_source_dispatch api (source idle) (outside 1) ≡ some (false, source idle, outside 1)
unfolding rpc_source_dispatch
failed_dispatch = refl

dispatch-held_example : seen.held (outside 1) ≡ seen.held (outside 1)
dispatch-held_example =
    dispatch-held api seen (source idle) (source idle) (outside 1) (outside 1) false failed_dispatch

dispatch-GivesUp_example :
    (returned (rpc_source_dispatch api (source idle) (outside 1)) ≡ some false)
    ↔ ((idle ≡ idle) × GivesUp api (source idle) (outside 1))
dispatch-GivesUp_example = dispatch-GivesUp api (source idle) (outside 1)

-- The client closed: the receive that noticed was caused by input.
abbrev closed : Source
closed = record (source disconnected) { poll_client = record unset { revents = request } }

iterate_stale_example :
    outcome (iterate api seen no_flags no_flags closed (outside 1)) ≡ some connected
iterate_stale_example = iterate_stale api seen no_flags closed (outside 1) refl refl (omega arith)
