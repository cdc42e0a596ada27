-- ===== src/Client/Connection.antt =====
-- src/rcrpc-client/rcrpc-client.c: remote_init, remote_exit and a round of the thread that polls.
use rcrpc.Base.{
  ℕ, Bool, true, false, if◌then◌else◌, Option, none, some, List, ℤ, pos, neg, is_neg, eq_ℤ, einval,
  etimedout,
}
use rcrpc.Names.Tables.{codes}

-- The private data of a connection: the client that it belongs to, whether the thread is to stop.
pub record RemoteClient : Type 0 where
  pub rpc : ℕ
  pub done : Bool

-- What the code calls of librpc and of the threads library; a client is a number.
pub record ClientApi (W : Type 0) : Type 0 where
  pub client_create : W → ℤ × ℕ × W
  pub client_free : ℕ → W → W
  -- the client, the host and the service
  pub client_connect : ℕ → List ℕ → List ℕ → W → ℤ × W
  pub set_event_handler : ℕ → W → ℤ × W
  pub thread_create : ℕ → W → ℤ × W
  pub thread_join : ℕ → W → W
  pub client_poll : ℕ → ℕ → W → ℤ × W
  pub process_events : ℕ → W → ℤ × W

-- The default for a NULL string.
abbrev pub or_default : List ℕ → Option (List ℕ) → List ℕ
or_default default none = default
or_default default (some s) = s

module _ {W : Type 0} (api : ClientApi W) where
  -- From the connection on; each failure frees the client.
  unfoldable pub connect_client :
      ℕ → Option (List ℕ) → Option (List ℕ) → W → ℤ × Option RemoteClient × W
  connect_client rpc hostname service w =
      let (err, w₁) =
        api.client_connect rpc (or_default (codes "localhost") hostname)
          (or_default (codes "7482") service) w in
      if is_neg err
      then (err, none, api.client_free rpc w₁)
      else let (err', w₂) = api.set_event_handler rpc w₁ in
        if is_neg err'
        then (err', none, api.client_free rpc w₂)
        else let (err'', w₃) = api.thread_create rpc w₂ in
          if is_neg err''
          then (err'', none, api.client_free rpc w₃)
          else (pos 0, some (record { rpc = rpc; done = false }), w₃)

  -- The result, `*clientp` if it is written, and the state; `clientp` is there or NULL.
  unfoldable pub remote_init :
      Bool → Option (List ℕ) → Option (List ℕ) → W → ℤ × Option RemoteClient × W
  unfolding connect_client
  remote_init false hostname service w = (neg einval, none, w)
  remote_init true hostname service w =
      let (err, rpc, w₁) = api.client_create w in
      if is_neg err then (err, none, w₁) else connect_client rpc hostname service w₁

  unfoldable pub remote_exit : Option RemoteClient → W → ℤ × W
  remote_exit none w = (neg einval, w)
  remote_exit (some client) w = (pos 0, api.client_free client.rpc (api.thread_join client.rpc w))

  -- A round of the loop of poll_event_thread, which runs while `done` is false. A failure of the events
  -- changes nothing.
  unfoldable pub poll_round : RemoteClient → W → RemoteClient × W
  poll_round client w =
      let (ret, w₁) = api.client_poll client.rpc 250 w in
      if is_neg ret
      then (if eq_ℤ ret (neg etimedout) then client else record client { done = true }, w₁)
      else (client, (api.process_events client.rpc w₁).1)
