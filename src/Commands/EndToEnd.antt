-- ===== src/Commands/EndToEnd.antt =====
-- bin/commands.c over the client library, the server and a mixer that keeps what it is given.
use rcrpc.Base.{
  ℕ, ◌<◌, ◌≡◌, ◌∙◌, sym, ap, arith, Bool, false, ◌||◌, not, if◌then◌else◌, List, [], ◌∷◌, ltb, ℤ,
  pos, negsuc, neg, is_neg, some, eq_ℤ, einval,
}
use rcrpc.Names.Tables.{
  codes, parse_mixer_control, parse_mixer_input_source, mixer_input_map, name_of_id,
  mixer_input_source_name,
}
use rcrpc.Names.Lookup.{parse_mixer_input_source-name}
use rcrpc.Commands.Numbers.{strtoul}
use rcrpc.Commands.Remote.{Remote, arg_text, arg_number}
use rcrpc.Commands.Sound.{exec_mixer_volume, exec_mixer_input, finish_call}
use rcrpc.Devices.Mixer.{
  MixerApi, remote_mixer_get_volume, remote_mixer_set_volume, remote_mixer_get_mute,
  remote_mixer_set_mute, remote_mixer_get_input_source, remote_mixer_set_input_source,
  remote_mixer_loopback_is_enabled, remote_mixer_loopback_enable,
}
use rcrpc.Devices.RoundTrip.{
  MixerKeeps, mixer_loopback, remote_mixer_set_volume-get, remote_mixer_set_input_source-get,
}

-- The client library whose mixer functions reach the server's mixer.
abbrev pub connected_remote : {W : Type 0} → Remote W → MixerApi W → Remote W
connected_remote remote api = record remote {
  mixer_get_volume = remote_mixer_get_volume (mixer_loopback api);
  mixer_set_volume = remote_mixer_set_volume (mixer_loopback api);
  mixer_get_mute = remote_mixer_get_mute (mixer_loopback api);
  mixer_set_mute = remote_mixer_set_mute (mixer_loopback api);
  mixer_get_input_source = remote_mixer_get_input_source (mixer_loopback api);
  mixer_set_input_source = remote_mixer_set_input_source (mixer_loopback api);
  mixer_loopback_is_enabled = remote_mixer_loopback_is_enabled (mixer_loopback api);
  mixer_loopback_enable = remote_mixer_loopback_enable (mixer_loopback api);
}

-- The number that the mixer answers, as in `remote_mixer_set_input_source-get`.
abbrev listed : ℤ → ℤ
listed v =
    if eq_ℤ v (pos 1) then v else if eq_ℤ v (pos 2) then v else if eq_ℤ v (pos 3) then v else pos 0

listed_named : (v : ℤ) (n : List ℕ) → name_of_id v mixer_input_map ≡ some n → listed v ≡ v
unfolding name_of_id
listed_named (pos k) n i = ground arith
listed_named (negsuc k) n i = ground arith

short_name :
    (v : ℤ) (n : List ℕ)
    → name_of_id v mixer_input_map ≡ some n
    → (is_neg (mixer_input_source_name v 16).0 ≡ false) × ((mixer_input_source_name v 16).1 ≡ n)
unfolding name_of_id mixer_input_source_name
short_name (pos k) n i = (ground arith, ground arith)
short_name (negsuc k) n i = (ground arith, ground arith)

module _ {W : Type 0} (remote : Remote W) where
  -- A volume that was sent without an error.
  sent :
      (found : Bool) (v : ℕ) (u : W) (x : ℤ × W)
      → (if not found || ltb 255 v then (neg einval, u) else finish_call remote x).0 ≡ pos 0
      → (v < 256)
        × (is_neg x.0 ≡ false)
        × ((if not found || ltb 255 v then (neg einval, u) else finish_call remote x).1 ≡ x.1)
  unfolding finish_call
  sent found v u x h = (ground arith, ground arith, ground arith)

  finished :
      (x : ℤ × W)
      → (finish_call remote x).0 ≡ pos 0
      → (is_neg x.0 ≡ false) × ((finish_call remote x).1 ≡ x.1)
  unfolding finish_call
  finished x h = (ground arith, ground arith)

  volume_printed :
      (name control : List ℕ) (v : ℕ) (w : W)
      → remote.mixer_get_volume (parse_mixer_control control) 0 w ≡ (pos 0, v, w)
      → exec_mixer_volume remote (name ∷ control ∷ []) w
        ≡ (pos 0, remote.printf (codes "volume: %u\n") (arg_number (pos v) ∷ []) w)
  unfolding exec_mixer_volume
  volume_printed name control v w e = rw e

  input_printed :
      (name n : List ℕ) (v : ℤ) (w : W)
      → name_of_id v mixer_input_map ≡ some n
      → remote.mixer_get_input_source (pos 0) w ≡ (pos 0, v, w)
      → exec_mixer_input remote (name ∷ []) w
        ≡ (pos 0, remote.printf (codes "input source: %s\n") (arg_text n ∷ []) w)
  unfolding exec_mixer_input
  input_printed name n v w i e = rw e (rw ((short_name v n i).0, (short_name v n i).1))

module _ {W : Type 0} (remote : Remote W) (api : MixerApi W) (keeps : MixerKeeps api) where
  -- A mixer-volume that ends with 0 has set the number that strtoul reads from its text: the next
  -- mixer-volume of the same control prints that number.
  exec_mixer_volume_shown :
      (name control text : List ℕ) (rest : List (List ℕ)) (w : W)
      → let line = exec_mixer_volume (connected_remote remote api) in
        (line (name ∷ control ∷ text ∷ rest) w).0 ≡ pos 0
        → line (name ∷ control ∷ []) (line (name ∷ control ∷ text ∷ rest) w).1 ≡ (
          pos 0,
          remote.printf
              (codes "volume: %u\n")
              (arg_number (pos (strtoul 0 text).0) ∷ [])
              (line (name ∷ control ∷ text ∷ rest) w).1,
        )
  unfolding exec_mixer_volume
  exec_mixer_volume_shown name control text rest w h =
      let R = connected_remote remote api in
      let (b, g, e) =
        sent R (strtoul 0 text).1 (strtoul 0 text).0 _
          (R.mixer_set_volume (parse_mixer_control control) (strtoul 0 text).0 w) h in
      volume_printed R name control (strtoul 0 text).0 _ (
        ap (R.mixer_get_volume (parse_mixer_control control) 0) e
        ∙ remote_mixer_set_volume-get api keeps (parse_mixer_control control) (strtoul 0 text).0 0 w
            b g
        ∙ ap (λ u. (pos 0, (strtoul 0 text).0, u)) (sym e))

  -- A mixer-input with the name of a source that ends with 0 has chosen that source: the next
  -- mixer-input prints the name.
  pub exec_mixer_input_shown :
      (name n : List ℕ) (v : ℤ) (rest : List (List ℕ)) (w : W)
      → name_of_id v mixer_input_map ≡ some n
      → let line = exec_mixer_input (connected_remote remote api) in
        (line (name ∷ n ∷ rest) w).0 ≡ pos 0
        → line (name ∷ []) (line (name ∷ n ∷ rest) w).1 ≡ (
          pos 0,
          remote.printf (codes "input source: %s\n") (arg_text n ∷ []) (line (name ∷ n ∷ rest) w).1,
        )
  unfolding exec_mixer_input
  exec_mixer_input_shown name n v rest w i h =
      let R = connected_remote remote api in
      let (g, e) = finished R (R.mixer_set_input_source (parse_mixer_input_source n) w) h in
      input_printed R name n v _ i (
        ap (R.mixer_get_input_source (pos 0)) e
        ∙ remote_mixer_set_input_source-get api keeps (parse_mixer_input_source n) (pos 0) w g
        ∙ ap (λ u. (pos 0, u, (R.mixer_set_input_source (parse_mixer_input_source n) w).1))
            (ap listed (parse_mixer_input_source-name v n i) ∙ listed_named v n i)
        ∙ ap (λ u. (pos 0, v, u)) (sym e))
