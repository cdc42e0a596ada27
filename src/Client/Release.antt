-- ===== src/Client/Release.antt =====
-- The clients of librpc that src/rcrpc-client/rcrpc-client.c creates, and their release.
use rcrpc.Base.{
  ℕ, suc, ◌-◌, ◌≡◌, inl, inr, refl, arith, Bool, true, false, if◌then◌else◌, Option, none, some,
  List, is_neg, Bool-cases,
}
use rcrpc.Client.Connection.{
  RemoteClient, ClientApi, or_default, connect_client, remote_init, remote_exit,
}
use rcrpc.Names.Tables.{codes}

-- How many clients of librpc there are: only their creation and their release change it.
pub record ClientLaws {W : Type 0} (api : ClientApi W) : Type 0 where
  pub clients : W → ℕ
  pub clients-client_create :
      (w : W)
      → clients (api.client_create w).2
        ≡ (if is_neg (api.client_create w).0 then clients w else suc (clients w))
  pub clients-client_free : (c : ℕ) (w : W) → clients (api.client_free c w) ≡ clients w - 1
  pub clients-client_connect :
      (c : ℕ) (h s : List ℕ) (w : W) → clients (api.client_connect c h s w).1 ≡ clients w
  pub clients-set_event_handler :
      (c : ℕ) (w : W) → clients (api.set_event_handler c w).1 ≡ clients w
  pub clients-thread_create : (c : ℕ) (w : W) → clients (api.thread_create c w).1 ≡ clients w
  pub clients-thread_join : (c : ℕ) (w : W) → clients (api.thread_join c w) ≡ clients w

-- The number of clients there are with the one that is handed out, if one is.
abbrev pub held : Option RemoteClient → ℕ → ℕ
held none n = n
held (some c) n = suc n

module _ {W : Type 0} (api : ClientApi W) (laws : ClientLaws api) where
  open laws use {clients}

  clients-connect_client :
      (rpc : ℕ) (hostname service : Option (List ℕ)) (n : ℕ) (w : W)
      → clients w ≡ suc n
      → let (ret, client, w') = connect_client api rpc hostname service w in
        clients w' ≡ held client n
  unfolding connect_client
  clients-connect_client rpc hostname service n w e =
      let host = or_default (codes "localhost") hostname in
      let port = or_default (codes "7482") service in
      let w₁ = (api.client_connect rpc host port w).1 in
      let w₂ = (api.set_event_handler rpc w₁).1 in
      let w₃ = (api.thread_create rpc w₂).1 in
      ground (
        arith,
        e,
        laws.clients-client_connect rpc host port w,
        laws.clients-set_event_handler rpc w₁,
        laws.clients-thread_create rpc w₂,
        laws.clients-client_free rpc w₁,
        laws.clients-client_free rpc w₂,
        laws.clients-client_free rpc w₃,
      )

  remote_init-clients :
      (pointer : Bool) (hostname service : Option (List ℕ)) (w : W)
      → let (ret, client, w') = remote_init api pointer hostname service w in
        clients w' ≡ held client (clients w)
  unfolding remote_init
  remote_init-clients false hostname service w = refl
  remote_init-clients true hostname service w =
      let (err, rpc, w₁) = api.client_create w in
      elim (Bool-cases (is_neg err)) [
        | inl e ↦ ground (arith, e, laws.clients-client_create w)
        | inr e ↦ ground (
          arith,
          e,
          clients-connect_client rpc hostname service (clients w) w₁
              (ground (arith, e, laws.clients-client_create w)),
        )
      ]

  pub remote_exit-clients :
      (client : Option RemoteClient) (n : ℕ) (w : W)
      → clients w ≡ held client n
      → clients (remote_exit api client w).1 ≡ n
  unfolding remote_exit
  remote_exit-clients none n w e = e
  remote_exit-clients (some c) n w e = ground (
    arith,
    e,
    laws.clients-client_free c.rpc (api.thread_join c.rpc w),
    laws.clients-thread_join c.rpc w,
  )

  -- Whatever fails, remote_init leaves one client more exactly if it hands one out, and the exit of
  -- what it hands out leaves as many as before.
  pub remote_init-remote_exit :
      (pointer : Bool) (hostname service : Option (List ℕ)) (w : W)
      → let (ret, client, w') = remote_init api pointer hostname service w in
        (clients w' ≡ held client (clients w)) × (clients (remote_exit api client w').1 ≡ clients w)
  remote_init-remote_exit pointer hostname service w =
      let (ret, client, w') = remote_init api pointer hostname service w in
      let e = remote_init-clients pointer hostname service w in
      (e, remote_exit-clients client (clients w) w' e)
