-- ===== src/Commands/PhoneShown.antt =====
-- voip-login of bin/commands.c over the client library and the server.
use rcrpc.Base.{
  ℕ, ◌%◌, ◌^◌, ◌≤◌, ◌<◌, ◌≡◌, refl, arith, true, none, some, List, [], ◌∷◌, length, get_elem?,
}
use rcrpc.Phone.Voip.{VoipApi, VoipStubs, remote_voip_login}
use rcrpc.Phone.Login.{Text, DeliversLogin, remote_voip_login_delivers}
use rcrpc.Commands.Numbers.{strtoul}
use rcrpc.Commands.Lines.{ended}
use rcrpc.Commands.Phone.{exec_voip_login, login_with}

module _ {W : Type 0} (api : VoipApi W) (max : ℕ) (stubs : VoipStubs W)
    (delivers : DeliversLogin api max stubs) where
  -- voip-login with a registrar, a number, a user and a password that fit into the fields of the
  -- protocol has the result of a login of the platform to the registrar with these two, at port 5060
  -- whatever the number is, and prints the error if there is one.
  pub exec_voip_login_delivers :
      (name proxy text username password : List ℕ) (rest : List (List ℕ)) (port : ℕ) (w : W)
      → strtoul 0 text ≡ (port, true)
      → 0 < max
      → Text proxy
      → Text username
      → Text password
      → length proxy < 256
      → length username < 128
      → length password < 128
      → exec_voip_login stubs (name ∷ proxy ∷ text ∷ username ∷ password ∷ rest) w
        ≡ some (ended (api.api_login proxy 5060 username password 0 w))
  unfolding exec_voip_login login_with remote_voip_login
  exec_voip_login_delivers name proxy text username password rest port w e m a b c x y z =
      rw
        (
          e,
          remote_voip_login_delivers api max stubs delivers proxy username password (port % 2 ^ 16)
              w m a b c x y z,
        )
        refl

module _ {W : Type 0} (stubs : VoipStubs W) where
  -- voip-login without a password, and with a number for the port if it has one, runs into undefined
  -- behaviour: it hands a NULL string to strncpy.
  pub exec_voip_login_missing :
      (argv : List (List ℕ)) (w : W)
      → length argv ≤ 4
      → ((text : List ℕ) → get_elem? argv 2 ≡ some text → (strtoul 0 text).1 ≡ true)
      → exec_voip_login stubs argv w ≡ none
  unfolding exec_voip_login login_with remote_voip_login
  exec_voip_login_missing [] w h n = refl
  exec_voip_login_missing (a ∷ []) w h n = refl
  exec_voip_login_missing (a ∷ b ∷ []) w h n = refl
  exec_voip_login_missing (a ∷ b ∷ c ∷ []) w h n = rw (n c refl) refl
  exec_voip_login_missing (a ∷ b ∷ c ∷ d ∷ []) w h n = rw (n c refl) refl
  exec_voip_login_missing (a ∷ b ∷ c ∷ d ∷ e ∷ rest) w h n = absurd (omega (arith, h))
