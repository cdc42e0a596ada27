-- ===== src/Commands/HandsetShown.antt =====
-- The handset commands of bin/commands.c over the client library and the server.
use rcrpc.Base.{ℕ, ◌%◌, ◌^◌, ◌≡◌, refl, arith, true, List, ◌∷◌, pos}
use rcrpc.Names.Tables.{codes}
use rcrpc.Cli.Exec.{str_eq}
use rcrpc.Services.Handset.{
  HandsetApi, HandsetStubs, handset_display_clear, handset_display_sync,
  handset_display_set_brightness, handset_keypad_set_brightness, handset_show_icon,
  handset_hide_icon, handset_show_text, handset_hide_text,
}
use rcrpc.Commands.Numbers.{strtoul}
use rcrpc.Commands.Handset.{exec_handset_backlight, ended_quietly}

-- The stubs of a client whose calls reach the server and come back.
unfoldable pub handset_loopback : {W : Type 0} → HandsetApi W → HandsetStubs W
handset_loopback api = record {
  stub_display_clear = λ w. let (ret, w') = handset_display_clear api w in (pos 0, ret, w');
  stub_display_sync = λ w. let (ret, w') = handset_display_sync api w in (pos 0, ret, w');
  stub_display_set_brightness =
      λ b w. let (ret, w') = handset_display_set_brightness api b w in (pos 0, ret, w');
  stub_keypad_set_brightness =
      λ b w. let (ret, w') = handset_keypad_set_brightness api b w in (pos 0, ret, w');
  stub_show_icon = λ i w. let (ret, w') = handset_show_icon api i w in (pos 0, ret, w');
  stub_hide_icon = λ i w. let (ret, w') = handset_hide_icon api i w in (pos 0, ret, w');
  stub_show_text = λ x y t w. let (ret, w') = handset_show_text api x y t w in (pos 0, ret, w');
  stub_hide_text = λ x y t w. let (ret, w') = handset_hide_text api x y t w in (pos 0, ret, w');
}

wrapped : (v : ℕ) → v % 2 ^ 32 % 2 ^ 8 ≡ v % 2 ^ 8
wrapped v = omega arith

module _ {W : Type 0} (api : HandsetApi W) where
  -- handset-backlight with any number succeeds or fails as the platform does, which is given the
  -- number modulo 256 as the brightness of the display or of the keypad: 256 switches a backlight off.
  pub exec_handset_backlight_wraps :
      (name text : List ℕ) (rest : List (List ℕ)) (v : ℕ) (w : W)
      → strtoul 10 text ≡ (v, true)
      → (exec_handset_backlight (handset_loopback api) (name ∷ codes "display" ∷ text ∷ rest) w
          ≡ ended_quietly (api.display_set_brightness (v % 2 ^ 8) w))
        × (exec_handset_backlight (handset_loopback api) (name ∷ codes "keypad" ∷ text ∷ rest) w
            ≡ ended_quietly (api.keypad_set_brightness (v % 2 ^ 8) w))
  unfolding exec_handset_backlight handset_loopback str_eq
  exec_handset_backlight_wraps name text rest v w e =
      (rw (e, wrapped v) refl, rw (e, wrapped v) refl)
