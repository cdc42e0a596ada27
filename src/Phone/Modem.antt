-- ===== src/Phone/Modem.antt =====
-- src/rcrpc/modem.c, the procedures of the modem, and src/rcrpc-client/modem.c, the functions of the
-- client library that call them.
use rcrpc.Base.{ℕ, Bool, false, if◌then◌else◌, Option, List, ℤ, is_neg, returned}

-- `enum modem_state` of the platform library: the state that modem.c names, and any other.
pub data CallState : Type 0 where
  modem_idle : CallState
  modem_other : CallState

-- The calls of the platform library: the result, what is written behind the pointer, the state.
pub record ModemApi (W : Type 0) : Type 0 where
  pub modem_initialize : W → ℤ × W
  pub modem_shutdown : W → ℤ × W
  pub modem_accept : W → ℤ × W
  pub modem_terminate : W → ℤ × W
  pub modem_call : List ℕ → W → ℤ × W
  pub modem_get_state : W → ℤ × CallState × W

-- The switches of modem_is_calling and of modem_is_connected have one branch for every state.
abbrev pub state_calling : CallState → Bool
state_calling modem_idle = false
state_calling modem_other = false

abbrev pub state_connected : CallState → Bool
state_connected modem_idle = false
state_connected modem_other = false

module _ {W : Type 0} (api : ModemApi W) where
  abbrev pub modem_init : W → ℤ × W
  modem_init w = api.modem_initialize w

  abbrev pub modem_deinit : W → ℤ × W
  modem_deinit w = api.modem_shutdown w

  abbrev pub modem_pick_up : W → ℤ × W
  modem_pick_up w = api.modem_accept w

  abbrev pub modem_hang_up : W → ℤ × W
  modem_hang_up w = api.modem_terminate w

  abbrev pub modem_dial : List ℕ → W → ℤ × W
  modem_dial number w = api.modem_call number w

  -- The result and the flag behind the pointer.
  abbrev pub modem_is_calling : Bool → W → ℤ × Bool × W
  modem_is_calling calling w =
      let (ret, state, w') = api.modem_get_state w in
      (ret, if is_neg ret then calling else state_calling state, w')

  abbrev pub modem_is_connected : Bool → W → ℤ × Bool × W
  modem_is_connected connected w =
      let (ret, state, w') = api.modem_get_state w in
      (ret, if is_neg ret then connected else state_connected state, w')

-- The stubs of the client: what the call itself returns, the result of the server, what it wrote, and
-- the state.
pub record ModemStubs (W : Type 0) : Type 0 where
  pub stub_init : W → ℤ × ℤ × W
  pub stub_deinit : W → ℤ × ℤ × W
  pub stub_pick_up : W → ℤ × ℤ × W
  pub stub_hang_up : W → ℤ × ℤ × W
  -- the number may be NULL
  pub stub_dial : Option (List ℕ) → W → ℤ × ℤ × W
  pub stub_is_calling : Bool → W → ℤ × ℤ × Bool × W
  pub stub_is_connected : Bool → W → ℤ × ℤ × Bool × W

module _ {W : Type 0} (stubs : ModemStubs W) where
  abbrev pub remote_modem_init : W → ℤ × W
  remote_modem_init w = let (err, ret, w') = stubs.stub_init w in (returned err ret, w')

  abbrev pub remote_modem_deinit : W → ℤ × W
  remote_modem_deinit w = let (err, ret, w') = stubs.stub_deinit w in (returned err ret, w')

  abbrev pub remote_modem_pick_up : W → ℤ × W
  remote_modem_pick_up w = let (err, ret, w') = stubs.stub_pick_up w in (returned err ret, w')

  abbrev pub remote_modem_hang_up : W → ℤ × W
  remote_modem_hang_up w = let (err, ret, w') = stubs.stub_hang_up w in (returned err ret, w')

  abbrev pub remote_modem_dial : Option (List ℕ) → W → ℤ × W
  remote_modem_dial number w =
      let (err, ret, w') = stubs.stub_dial number w in (returned err ret, w')

  abbrev pub remote_modem_is_calling : Bool → W → ℤ × Bool × W
  remote_modem_is_calling status w =
      let (err, ret, value, w') = stubs.stub_is_calling status w in (returned err ret, value, w')

  abbrev pub remote_modem_is_connected : Bool → W → ℤ × Bool × W
  remote_modem_is_connected status w =
      let (err, ret, value, w') = stubs.stub_is_connected status w in (returned err ret, value, w')
