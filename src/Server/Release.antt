-- ===== src/Server/Release.antt =====
-- The servers that rcrpc_create of src/rcrpc/rcrpc.c creates, and their release.
use rcrpc.Base.{
  ℕ, suc, ◌-◌, ◌≡◌, refl, ap, sym, ◌∙◌, arith, false, if◌then◌else◌, Option, none, some, List, ℤ,
  pos, is_neg,
}
use rcrpc.Irq.State.{IrqData, rpc_irq_cleanup}
use rcrpc.Net.Channels.{NetData, rpc_net_init, rpc_net_cleanup}
use rcrpc.Server.Source.{Source, PollFd}
use rcrpc.Server.Create.{
  Globals, CreateApi, attach_source, create_source, rcrpc_create, rcrpc_free, rpc_source_finalize,
  socket_enable_keepalive, config_get_socket_keepalive,
}

-- How many servers there are: only their creation and their release change it.
pub record ServerLaws {W : Type 0} (api : CreateApi W) : Type 0 where
  pub servers : W → ℕ
  pub servers-server_create :
      (w : W)
      → servers (api.server_create w).2
        ≡ (if is_neg (api.server_create w).0 then servers w else suc (servers w))
  pub servers-server_free : (s : ℕ) (w : W) → servers (api.server_free s w) ≡ servers w - 1
  pub servers-server_listen : (s p : ℕ) (w : W) → servers (api.server_listen s p w).1 ≡ servers w
  pub servers-set_priv : (s r : ℕ) (w : W) → servers (api.set_priv s r w) ≡ servers w
  pub servers-source_new : (w : W) → servers (api.source_new w).1 ≡ servers w
  pub servers-get_listen_socket :
      (s : ℕ) (w : W) → servers (api.get_listen_socket s w).1 ≡ servers w
  pub servers-key_file_get_boolean :
      (c : ℕ) (w : W) → servers (api.key_file_get_boolean c w).1 ≡ servers w
  pub servers-setsockopt : (s : ℤ) (v : ℕ) (w : W) → servers (api.setsockopt s v w).1 ≡ servers w
  pub servers-add_poll : (p : PollFd) (w : W) → servers (api.add_poll p w) ≡ servers w
  pub servers-add_child_source : (r : ℕ) (w : W) → servers (api.add_child_source r w) ≡ servers w
  pub servers-set_event_cb : (m s : ℕ) (w : W) → servers (api.set_event_cb m s w).1 ≡ servers w
  pub servers-create_channel :
      (n p : ℕ) (h : List ℕ) (q : ℕ) (w : W)
      → servers (api.channels.create_channel n p h q w).1 ≡ servers w
  pub servers-destroy_channel :
      (n : ℕ) (c : ℤ) (w : W) → servers (api.channels.destroy_channel n c w) ≡ servers w

module _ {W : Type 0} (api : CreateApi W) (laws : ServerLaws api) where
  open laws use {servers}

  irq_cleared : (g : Option IrqData) → rpc_irq_cleanup g ≡ none
  unfolding rpc_irq_cleanup
  irq_cleared none = refl
  irq_cleared (some d) = refl

  net_cleared : (g : Option NetData) (w : W) → (rpc_net_cleanup api.channels g w).0 ≡ none
  unfolding rpc_net_cleanup
  net_cleared none w = refl
  net_cleared (some d) w = refl

  servers-net_cleanup :
      (g : Option NetData) (w : W) → servers (rpc_net_cleanup api.channels g w).1 ≡ servers w
  unfolding rpc_net_cleanup
  servers-net_cleanup none w = refl
  servers-net_cleanup (some d) w =
      laws.servers-destroy_channel _ _ _ ∙ laws.servers-destroy_channel _ _ _

  servers-net_init :
      (n : ℕ) (g : Option NetData) (w : W) → servers (rpc_net_init api.channels n g w).1 ≡ servers w
  unfolding rpc_net_init
  servers-net_init n g w = laws.servers-create_channel _ _ _ _ _ ∙ servers-net_cleanup g w

  servers-attach_source :
      (rc server : ℕ) (socket : ℤ) (g : Globals) (w : W)
      → servers (attach_source api rc server socket g w).3 ≡ servers w
  unfolding attach_source
  servers-attach_source rc server socket g w =
      servers-net_init _ _ _
      ∙ laws.servers-set_event_cb _ _ _
      ∙ laws.servers-add_child_source _ _
      ∙ laws.servers-add_poll _ _

  servers-keepalive :
      (config : Option ℕ) (w : W) → servers (config_get_socket_keepalive api config w).1 ≡ servers w
  unfolding config_get_socket_keepalive
  servers-keepalive none w = refl
  servers-keepalive (some c) w = grind (arith, laws.servers-key_file_get_boolean)

  servers-create_source :
      (rc server : ℕ) (config : Option ℕ) (g : Globals) (w : W)
      → servers (create_source api rc server config g w).3 ≡ servers w
  unfolding create_source socket_enable_keepalive
  servers-create_source rc server config g w =
      let w₁ = (api.source_new w).1 in
      let (socket, w₂) = api.get_listen_socket server w₁ in
      let (keepalive, w₃) = config_get_socket_keepalive api config w₂ in
      let value : ℕ = if keepalive then 1 else 0 in
      ground (
        arith,
        laws.servers-source_new w,
        laws.servers-get_listen_socket server w₁,
        servers-keepalive config w₂,
        laws.servers-setsockopt socket value w₃,
        servers-attach_source rc server socket g (api.setsockopt socket value w₃).1,
      )

  -- A server that rcrpc_create creates stays: if listening, the source, its socket or the keepalive
  -- option fails behind the creation, nothing frees it.
  pub rcrpc_create-servers :
      (rc : ℕ) (config : Option ℕ) (g : Globals) (w : W)
      → servers (rcrpc_create api (some rc) config g w).3
        ≡ (if is_neg (api.server_create w).0 then servers w else suc (servers w))
  unfolding rcrpc_create
  rcrpc_create-servers rc config g w =
      let (err, server, w₁) = api.server_create w in
      let w₂ = (api.server_listen server 7482 w₁).1 in
      ground (
        arith,
        laws.servers-server_create w,
        laws.servers-server_listen server 7482 w₁,
        laws.servers-set_priv server rc w₂,
        servers-create_source rc server config g (api.set_priv server rc w₂),
      )

  create_source-server :
      (rc server : ℕ) (config : Option ℕ) (g : Globals) (w : W) (src : Source) (ret : ℤ)
      (g' : Globals) (w' : W)
      → create_source api rc server config g w ≡ (ret, some src, g', w')
      → (ret ≡ pos 0) × (src.server ≡ server)
  unfolding create_source attach_source
  create_source-server rc server config g w src ret g' w' e = (ground arith, ground arith)

  rcrpc_create-server :
      (rc : ℕ) (config : Option ℕ) (g : Globals) (w : W) (src : Source) (ret : ℤ) (g' : Globals)
      (w' : W)
      → rcrpc_create api (some rc) config g w ≡ (ret, some src, g', w')
      → (ret ≡ pos 0)
        × (src.server ≡ (api.server_create w).1)
        × (is_neg (api.server_create w).0 ≡ false)
  unfolding rcrpc_create
  rcrpc_create-server rc config g w src ret g' w' e = grind (arith, create_source-server)

  finalized :
      (src : Source) (g : Globals) (w : W)
      → (servers (rpc_source_finalize api src g w).1 ≡ servers w - 1)
        × ((rpc_source_finalize api src g w).0 ≡ record { irq = none; net = none })
  unfolding rpc_source_finalize rcrpc_free
  finalized src g w = (
    laws.servers-server_free _ _ ∙ ap (λ n. n - 1) (servers-net_cleanup _ _),
    rw (irq_cleared g.irq, net_cleared g.net w),
  )

  -- The finalizer of a source that rcrpc_create made releases its server and clears both globals.
  pub rcrpc_create-rpc_source_finalize :
      (rc : ℕ) (config : Option ℕ) (g : Globals) (w : W) (src : Source) (ret : ℤ) (g' : Globals)
      (w' : W)
      → rcrpc_create api (some rc) config g w ≡ (ret, some src, g', w')
      → (ret ≡ pos 0)
        × (src.server ≡ (api.server_create w).1)
        × (servers (rpc_source_finalize api src g' w').1 ≡ servers w)
        × ((rpc_source_finalize api src g' w').0 ≡ record { irq = none; net = none })
  rcrpc_create-rpc_source_finalize rc config g w src ret g' w' e =
      let (r, s, n) = rcrpc_create-server rc config g w src ret g' w' e in
      let (f, c) = finalized src g' w' in
      (
        r,
        s,
        ground (arith, f, n, sym (ap (λ x. servers x.3) e) ∙ rcrpc_create-servers rc config g w),
        c,
      )
