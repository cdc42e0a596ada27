-- ===== src/Phone/Voip.antt =====
-- src/rcrpc/voip.c, the procedures of voice over IP, and src/rcrpc-client/voip.c, the functions of
-- the client library that call them.
use rcrpc.Base.{
  ℕ, ◌-◌, Bool, true, false, ltb, leb, ◌==◌, if◌then◌else◌, Option, none, some, List, [], ◌∷◌, ◌++◌,
  take, replicate, ℤ, pos, negsuc, neg, is_neg, returned, einval, enosys, enomem,
}
use rcrpc.Names.Tables.{codes}

-- `enum voip_login_state` of the platform library: the two states that voip.c names, and any other.
pub data LoginState : Type 0 where
  logged_out : LoginState
  logged_in : LoginState
  login_other : LoginState

-- The calls of the platform library: the result, what is written behind the pointer, the state. A
-- string that may be NULL is an option, the transport is its number.
pub record VoipApi (W : Type 0) : Type 0 where
  -- the server, the port, the user name, the password and the transport
  pub api_login : List ℕ → ℕ → List ℕ → List ℕ → ℕ → W → ℤ × W
  pub api_logout : W → ℤ × W
  pub api_get_login_state : W → ℤ × LoginState × W
  pub api_call : List ℕ → W → ℤ × W
  pub api_accept : Option (List ℕ) → W → ℤ × Option (List ℕ) × W
  pub api_terminate : W → ℤ × W
  pub api_get_contact : W → ℤ × Option (List ℕ) × W
  pub api_dial : ℤ → W → ℤ × W
  -- whether strdup finds memory
  pub api_strdup : W → Bool × W

-- The structure that the client sends: three arrays of bytes behind five words.
pub record LoginOptions : Type 0 where
  pub server_ptr : ℕ
  pub auth : ℕ
  pub transport : ℕ
  pub username_ptr : ℕ
  pub password_ptr : ℕ
  pub server2 : List ℕ
  pub username2 : List ℕ
  pub password2 : List ℕ

-- The string that starts at a memory; `none` if there is no terminator in it.
unfoldable pub c_string : List ℕ → Option (List ℕ)
c_string [] = none
c_string (c ∷ cs) =
    if c == 0 then some [] else elim (c_string cs) [ none ↦ none | some s ↦ some (c ∷ s) ]

-- `strncpy(field, s, n)` on a field of `n` bytes.
unfoldable pub strncpy : List ℕ → ℕ → List ℕ
strncpy s n = take n (s ++ replicate n 0)

-- voip_transport_name, with the three numbers of `enum voip_transport` that it names.
abbrev pub voip_transport_name : ℕ → ℕ → ℕ → ℕ → List ℕ
voip_transport_name udp tcp tls transport =
    if transport == udp
    then codes "UDP"
    else if transport == tcp
    then codes "TCP"
    else if transport == tls
    then codes "TLS"
    else codes "unknown"

module _ {W : Type 0} (api : VoipApi W) where
  abbrev pub voip_get_version : ℕ → W → ℤ × ℕ × W
  voip_get_version version w = (neg enosys, version, w)

  abbrev pub voip_get_status : ℕ → W → ℤ × ℕ × W
  voip_get_status status w = (neg enosys, status, w)

  abbrev pub voip_get_status_string : ℕ → Option (List ℕ) → W → ℤ × Option (List ℕ) × W
  voip_get_status_string status buffer w = (neg enosys, buffer, w)

  -- The strings of the structure, each with what stands behind its field; `none` is a read beyond the
  -- structure. `max` is VOIP_TRANSPORT_MAX.
  unfoldable pub voip_login : ℕ → LoginOptions → W → Option (ℤ × W)
  unfolding c_string
  voip_login max account w =
      if leb max account.transport
      then some (neg einval, w)
      else elim (c_string account.password2) [
        | none ↦ none
        | some password ↦ elim (c_string (account.username2 ++ account.password2)) [
          | none ↦ none
          | some username ↦
              elim (c_string (account.server2 ++ (account.username2 ++ account.password2))) [
                | none ↦ none
                | some server ↦
                    some (api.api_login server 5060 username password account.transport w)
              ]
        ]
      ]

  abbrev pub voip_logout : W → ℤ × W
  voip_logout w = api.api_logout w

  unfoldable pub voip_still_logged_in : Bool → W → ℤ × Bool × W
  voip_still_logged_in status w =
      let (ret, state, w') = api.api_get_login_state w in
      (
        ret,
        if is_neg ret
            then status
            else elim state [ logged_in ↦ true | logged_out ↦ false | login_other ↦ false ],
        w',
      )

  abbrev pub voip_connect_to : List ℕ → W → ℤ × W
  voip_connect_to uri w = api.api_call uri w

  abbrev pub voip_accept_incoming : Option (List ℕ) → W → ℤ × Option (List ℕ) × W
  voip_accept_incoming uri w = api.api_accept uri w

  abbrev pub voip_disconnect : W → ℤ × W
  voip_disconnect w = api.api_terminate w

  abbrev pub voip_is_connected : Bool → W → ℤ × Bool × W
  voip_is_connected state w = (neg enosys, state, w)

  abbrev pub voip_is_calling : Bool → W → ℤ × Bool × W
  voip_is_calling state w = (neg enosys, state, w)

  -- `priv` is there or NULL, the contact is a pointer to a string or NULL itself.
  unfoldable pub voip_get_last_contact :
      Bool → Option (Option (List ℕ)) → W → ℤ × Option (Option (List ℕ)) × W
  voip_get_last_contact false contact w = (neg einval, contact, w)
  voip_get_last_contact true none w = (neg einval, none, w)
  voip_get_last_contact true (some contact) w =
      let (ret, name, w') = api.api_get_contact w in
      if is_neg ret then (ret, some contact, w') else elim name [
        | none ↦ (ret, some contact, w')
        | some s ↦
            let (copied, w'') = api.api_strdup w' in
            if copied then (ret, some (some s), w'') else (neg enomem, some contact, w'')
      ]

  abbrev pub voip_dial : Bool → ℤ → W → ℤ × W
  voip_dial priv dtmf w = if priv then api.api_dial dtmf w else (neg einval, w)

-- What the client knows of an account.
pub record Account : Type 0 where
  pub proxy : Option (List ℕ)
  pub port : ℕ
  pub username : Option (List ℕ)
  pub password : Option (List ℕ)

-- The stubs of the client: what the call itself returns, the result of the server, what it wrote, and
-- the state; `none` is undefined behaviour on the way.
pub record VoipStubs (W : Type 0) : Type 0 where
  pub stub_login : LoginOptions → W → Option (ℤ × ℤ × W)
  pub stub_logout : W → ℤ × ℤ × W
  pub stub_connect_to : List ℕ → W → ℤ × ℤ × W
  pub stub_accept_incoming : Option (List ℕ) → W → ℤ × ℤ × Option (List ℕ) × W
  pub stub_disconnect : W → ℤ × ℤ × W
  pub stub_still_logged_in : Bool → W → ℤ × ℤ × Bool × W
  pub stub_dial : ℤ → W → ℤ × ℤ × W

-- A byte as the stub of voip_dial takes it, an `int8_t`.
abbrev pub signed_8 : ℕ → ℤ
signed_8 b = if ltb b 128 then pos b else negsuc (255 - b)

-- The structure of an account, over a cleared one.
unfoldable pub login_options : List ℕ → List ℕ → List ℕ → LoginOptions
unfolding strncpy
login_options proxy username password = record {
  server_ptr = 0;
  auth = 0;
  transport = 0;
  username_ptr = 0;
  password_ptr = 0;
  server2 = strncpy proxy 256;
  username2 = strncpy username 128;
  password2 = strncpy password 128;
}

module _ {W : Type 0} (stubs : VoipStubs W) where
  -- `strncpy` of a NULL string is undefined.
  unfoldable pub remote_voip_login : Account → W → Option (ℤ × W)
  unfolding login_options
  remote_voip_login account w = elim account.proxy [
    | none ↦ none
    | some proxy ↦ elim account.username [
      | none ↦ none
      | some username ↦ elim account.password [
        | none ↦ none
        | some password ↦ elim (stubs.stub_login (login_options proxy username password) w) [
          | none ↦ none
          | some (err, ret, w') ↦ some (returned err ret, w')
        ]
      ]
    ]
  ]

  abbrev pub remote_voip_logout : W → ℤ × W
  remote_voip_logout w = let (err, ret, w') = stubs.stub_logout w in (returned err ret, w')

  abbrev pub remote_voip_connect_to : List ℕ → W → ℤ × W
  remote_voip_connect_to uri w =
      let (err, ret, w') = stubs.stub_connect_to uri w in (returned err ret, w')

  abbrev pub remote_voip_accept_incoming : Option (List ℕ) → W → ℤ × Option (List ℕ) × W
  remote_voip_accept_incoming uri w =
      let (err, ret, uri', w') = stubs.stub_accept_incoming uri w in (returned err ret, uri', w')

  abbrev pub remote_voip_disconnect : W → ℤ × W
  remote_voip_disconnect w = let (err, ret, w') = stubs.stub_disconnect w in (returned err ret, w')

  abbrev pub remote_voip_still_logged_in : Bool → W → ℤ × Bool × W
  remote_voip_still_logged_in status w =
      let (err, ret, value, w') = stubs.stub_still_logged_in status w in
      (returned err ret, value, w')

  abbrev pub remote_voip_dial : ℕ → W → ℤ × W
  remote_voip_dial dtmf w =
      let (err, ret, w') = stubs.stub_dial (signed_8 dtmf) w in (returned err ret, w')
