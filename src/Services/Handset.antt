-- ===== src/Services/Handset.antt =====
-- src/rcrpc/handset.c, the procedures of the handset, and src/rcrpc-client/handset.c, the functions of
-- the client library that call them.
use rcrpc.Base.{ℕ, ◌%◌, ◌^◌, Bool, true, false, List, ℤ, returned}

-- The calls of the platform library; an icon is its number.
pub record HandsetApi (W : Type 0) : Type 0 where
  pub display_clear : W → ℤ × W
  pub display_sync : W → ℤ × W
  pub display_set_brightness : ℕ → W → ℤ × W
  pub keypad_set_brightness : ℕ → W → ℤ × W
  pub icon_show : ℕ → Bool → W → ℤ × W
  pub text_show : ℕ → ℕ → List ℕ → Bool → W → ℤ × W

module _ {W : Type 0} (api : HandsetApi W) where
  abbrev pub handset_display_clear : W → ℤ × W
  handset_display_clear w = api.display_clear w

  abbrev pub handset_display_sync : W → ℤ × W
  handset_display_sync w = api.display_sync w

  abbrev pub handset_display_set_brightness : ℕ → W → ℤ × W
  handset_display_set_brightness brightness w = api.display_set_brightness brightness w

  abbrev pub handset_keypad_set_brightness : ℕ → W → ℤ × W
  handset_keypad_set_brightness brightness w = api.keypad_set_brightness brightness w

  abbrev pub handset_show_icon : ℕ → W → ℤ × W
  handset_show_icon id w = api.icon_show id true w

  abbrev pub handset_hide_icon : ℕ → W → ℤ × W
  handset_hide_icon id w = api.icon_show id false w

  abbrev pub handset_show_text : ℕ → ℕ → List ℕ → W → ℤ × W
  handset_show_text x y text w = api.text_show x y text true w

  abbrev pub handset_hide_text : ℕ → ℕ → List ℕ → W → ℤ × W
  handset_hide_text x y text w = api.text_show x y text false w

-- The stubs of the client: what the call itself returns, the result of the server, and the state.
pub record HandsetStubs (W : Type 0) : Type 0 where
  pub stub_display_clear : W → ℤ × ℤ × W
  pub stub_display_sync : W → ℤ × ℤ × W
  pub stub_display_set_brightness : ℕ → W → ℤ × ℤ × W
  pub stub_keypad_set_brightness : ℕ → W → ℤ × ℤ × W
  pub stub_show_icon : ℕ → W → ℤ × ℤ × W
  pub stub_hide_icon : ℕ → W → ℤ × ℤ × W
  pub stub_show_text : ℕ → ℕ → List ℕ → W → ℤ × ℤ × W
  pub stub_hide_text : ℕ → ℕ → List ℕ → W → ℤ × ℤ × W

module _ {W : Type 0} (stubs : HandsetStubs W) where
  abbrev pub remote_handset_display_clear : W → ℤ × W
  remote_handset_display_clear w =
      let (err, ret, w') = stubs.stub_display_clear w in (returned err ret, w')

  abbrev pub remote_handset_display_sync : W → ℤ × W
  remote_handset_display_sync w =
      let (err, ret, w') = stubs.stub_display_sync w in (returned err ret, w')

  -- The stub takes a `uint8_t`.
  abbrev pub remote_handset_display_set_brightness : ℕ → W → ℤ × W
  remote_handset_display_set_brightness brightness w =
      let (err, ret, w') = stubs.stub_display_set_brightness (brightness % 2 ^ 8) w in
      (returned err ret, w')

  abbrev pub remote_handset_keypad_set_brightness : ℕ → W → ℤ × W
  remote_handset_keypad_set_brightness brightness w =
      let (err, ret, w') = stubs.stub_keypad_set_brightness (brightness % 2 ^ 8) w in
      (returned err ret, w')

  abbrev pub remote_handset_show_icon : ℕ → W → ℤ × W
  remote_handset_show_icon id w =
      let (err, ret, w') = stubs.stub_show_icon id w in (returned err ret, w')

  abbrev pub remote_handset_hide_icon : ℕ → W → ℤ × W
  remote_handset_hide_icon id w =
      let (err, ret, w') = stubs.stub_hide_icon id w in (returned err ret, w')

  abbrev pub remote_handset_show_text : ℕ → ℕ → List ℕ → W → ℤ × W
  remote_handset_show_text x y text w =
      let (err, ret, w') = stubs.stub_show_text x y text w in (returned err ret, w')

  abbrev pub remote_handset_hide_text : ℕ → ℕ → List ℕ → W → ℤ × W
  remote_handset_hide_text x y text w =
      let (err, ret, w') = stubs.stub_hide_text x y text w in (returned err ret, w')
