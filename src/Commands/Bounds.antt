-- ===== src/Commands/Bounds.antt =====
-- The volumes and levels that the handlers of bin/commands.c send.
use rcrpc.Base.{
  ℕ, ◌<◌, ◌≡◌, refl, ap, arith, Bool, ◌||◌, not, if◌then◌else◌, List, [], ◌∷◌, ltb, ℤ, is_neg,
  pos_part,
}
use rcrpc.Names.Tables.{parse_mixer_control}
use rcrpc.Commands.Numbers.{strtoul, atol, to_int32}
use rcrpc.Commands.Remote.{Remote}
use rcrpc.Commands.Sound.{
  exec_audio_volume, exec_mixer_volume, exec_backlight_brightness, finish_call,
}

-- A branch that is taken only for a number below 256.
capped :
    {A : Type 0} (v : ℕ) (b : Bool) (x y z : A)
    → (v < 256 → x ≡ y)
    → (if b || ltb 255 v then z else x) ≡ (if b || ltb 255 v then z else y)
capped v b x y z h = ground arith

levelled :
    {W : Type 0} (remote : Remote W) (v : ℕ) (found : Bool) (s t x y : ℤ × W)
    → (v < 256 → x ≡ y)
    → (if not found then s else if ltb 255 v then t else finish_call remote x)
      ≡ (if not found then s else if ltb 255 v then t else finish_call remote y)
levelled remote v found s t x y h = ground arith

module _ {W : Type 0} (remote : Remote W) where
  -- Whatever the arguments are, the handlers of audio-volume, mixer-volume and backlight-brightness
  -- call the client library only with a number below 256: it makes no difference what the library
  -- would do with any other.
  pub exec_volumes_bounds :
      (audio backlight : ℕ → W → ℤ × W) (mixer : ℤ → ℕ → W → ℤ × W)
      → ((v : ℕ) (w : W) → v < 256 → audio v w ≡ remote.audio_set_volume v w)
      → ((v : ℕ) (w : W) → v < 256 → backlight v w ≡ remote.backlight_set v w)
      → ((c : ℤ) (v : ℕ) (w : W) → v < 256 → mixer c v w ≡ remote.mixer_set_volume c v w)
      → (argv : List (List ℕ)) (w : W)
      → let other = record remote {
        audio_set_volume = audio;
        backlight_set = backlight;
        mixer_set_volume = mixer;
      } in
        (exec_audio_volume other argv w ≡ exec_audio_volume remote argv w)
        × (exec_mixer_volume other argv w ≡ exec_mixer_volume remote argv w)
        × (exec_backlight_brightness other argv w ≡ exec_backlight_brightness remote argv w)
  unfolding exec_audio_volume exec_mixer_volume exec_backlight_brightness finish_call
  exec_volumes_bounds audio backlight mixer a b m [] w = (refl, refl, refl)
  exec_volumes_bounds audio backlight mixer a b m (name ∷ []) w = (refl, refl, refl)
  exec_volumes_bounds audio backlight mixer a b m (name ∷ text ∷ []) w = (
    capped (pos_part (to_int32 (atol text))) (is_neg (to_int32 (atol text))) _ _ _
        (a (pos_part (to_int32 (atol text))) w),
    refl,
    levelled remote (strtoul 0 text).0 (strtoul 0 text).1 _ _ _ _ (b (strtoul 0 text).0 w),
  )
  exec_volumes_bounds audio backlight mixer a b m (name ∷ x ∷ text ∷ rest) w = (
    refl,
    capped (strtoul 0 text).0 (not (strtoul 0 text).1) _ _ _
        (λ h. ap (finish_call remote) (m (parse_mixer_control x) (strtoul 0 text).0 w h)),
    levelled remote (strtoul 0 x).0 (strtoul 0 x).1 _ _ _ _ (b (strtoul 0 x).0 w),
  )
