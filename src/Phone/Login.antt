-- ===== src/Phone/Login.antt =====
-- What the login of src/rcrpc-client/voip.c hands to the platform through src/rcrpc/voip.c.
use rcrpc.Base.{
  ℕ, zero, suc, ◌≤◌, ◌<◌, ◌≡◌, refl, sym, ap, ◌∙◌, arith, none, some, List, [], ◌∷◌, ◌++◌,
  append-nil, length, take, replicate, All, leb, false, ◌==◌, pos,
}
use rcrpc.Phone.Voip.{
  VoipApi, VoipStubs, LoginOptions, login_options, c_string, strncpy, voip_login, remote_voip_login,
}

-- A string of the C library has no terminator inside.
abbrev pub Text : List ℕ → Type 0
Text s = All (λ c. (c == 0) ≡ false) s

-- A string that fits into its field is read back from it, whatever follows.
field_fits :
    (s pad after : List ℕ) (n : ℕ)
    → Text s
    → length s < n
    → c_string (take n (s ++ 0 ∷ pad) ++ after) ≡ some s
unfolding c_string
field_fits [] pad after zero t h = elim h [ ]
field_fits [] pad after (suc n) t h = refl
field_fits (c ∷ cs) pad after zero t h = elim h [ ]
field_fits (c ∷ cs) pad after (suc n) (a, t) h =
    rw (a, field_fits cs pad after n t (omega arith)) refl

-- One that does not fit has no terminator in its field, and what follows is read with it.
field_overrun :
    (s pad after next : List ℕ) (n : ℕ)
    → Text s
    → n ≤ length s
    → c_string after ≡ some next
    → c_string (take n (s ++ pad) ++ after) ≡ some (take n s ++ next)
unfolding c_string
field_overrun s pad after next zero t h e = e
field_overrun [] pad after next (suc n) t h e = elim h [ ]
field_overrun (c ∷ cs) pad after next (suc n) (a, t) h e =
    rw (a, field_overrun cs pad after next n t (omega arith) e) refl

strncpy_fits :
    (s after : List ℕ) (n : ℕ)
    → Text s
    → length s < suc n
    → c_string (strncpy s (suc n) ++ after) ≡ some s
unfolding strncpy
strncpy_fits s after n t h = field_fits s (replicate n 0) after (suc n) t h

strncpy_overrun :
    (s after next : List ℕ) (n : ℕ)
    → Text s
    → n ≤ length s
    → c_string after ≡ some next
    → c_string (strncpy s n ++ after) ≡ some (take n s ++ next)
unfolding strncpy
strncpy_overrun s after next n t h e = field_overrun s (replicate n 0) after next n t h e

above : (a b : ℕ) → a < b → leb b a ≡ false
above a b h = ground arith

-- The stub of the login reaches the server; `max` is VOIP_TRANSPORT_MAX of the platform.
pub record DeliversLogin {W : Type 0} (api : VoipApi W) (max : ℕ) (stubs : VoipStubs W)
    : Type 0 where
  pub login_delivered :
      (options : LoginOptions) (w : W)
      → stubs.stub_login options w ≡ elim (voip_login api max options w) [
        | none ↦ none
        | some (ret, w') ↦ some (pos 0, ret, w')
      ]

module _ {W : Type 0} (api : VoipApi W) (max : ℕ) (stubs : VoipStubs W)
    (delivers : DeliversLogin api max stubs) where
  -- What a login does, from what the server reads in the three fields.
  login_read :
      (proxy username password server' username' password' : List ℕ) (port : ℕ) (w : W)
      → 0 < max
      → c_string (strncpy password 128) ≡ some password'
      → c_string (strncpy username 128 ++ strncpy password 128) ≡ some username'
      → c_string (strncpy proxy 256 ++ (strncpy username 128 ++ strncpy password 128))
        ≡ some server'
      → remote_voip_login stubs
          (record {
            proxy = some proxy;
            port = port;
            username = some username;
            password = some password;
          })
          w
        ≡ some (api.api_login server' 5060 username' password' 0 w)
  unfolding remote_voip_login login_options voip_login
  login_read proxy username password server' username' password' port w m p u s =
      rw (remote_voip_login, delivers.login_delivered, voip_login, above 0 max m, p, u, s) refl

  -- A login with strings that fit into the fields of the protocol: the platform logs in to that proxy
  -- with that user name and that password. Its port is 5060 and its transport the first one, whatever
  -- the port of the account is.
  pub remote_voip_login_delivers :
      (proxy username password : List ℕ) (port : ℕ) (w : W)
      → 0 < max
      → Text proxy
      → Text username
      → Text password
      → length proxy < 256
      → length username < 128
      → length password < 128
      → remote_voip_login stubs
          (record {
            proxy = some proxy;
            port = port;
            username = some username;
            password = some password;
          })
          w
        ≡ some (api.api_login proxy 5060 username password 0 w)
  remote_voip_login_delivers proxy username password port w m a b c x y z =
      login_read proxy username password proxy username password port w m
        (ap c_string (sym (append-nil (strncpy password 128))) ∙ strncpy_fits password [] 127 c z)
        (strncpy_fits username (strncpy password 128) 127 b y)
        (strncpy_fits proxy (strncpy username 128 ++ strncpy password 128) 255 a x)

  -- A login with a user name of 128 bytes or more, and a proxy and a password that fit: the platform
  -- is given the first 128 bytes of the user name with the password behind them as the user name.
  pub remote_voip_login_overrun :
      (proxy username password : List ℕ) (port : ℕ) (w : W)
      → 0 < max
      → Text proxy
      → Text username
      → Text password
      → length proxy < 256
      → 128 ≤ length username
      → length password < 128
      → remote_voip_login stubs
          (record {
            proxy = some proxy;
            port = port;
            username = some username;
            password = some password;
          })
          w
        ≡ some (api.api_login proxy 5060 (take 128 username ++ password) password 0 w)
  remote_voip_login_overrun proxy username password port w m a b c x y z =
      let password_read =
        ap c_string (sym (append-nil (strncpy password 128))) ∙ strncpy_fits password [] 127 c z in
      login_read proxy username password proxy (take 128 username ++ password) password port w m
        password_read
        (strncpy_overrun username (strncpy password 128) password 128 b y password_read)
        (strncpy_fits proxy (strncpy username 128 ++ strncpy password 128) 255 a x)
