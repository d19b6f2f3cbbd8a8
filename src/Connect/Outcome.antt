-- ===== src/Connect/Outcome.antt =====
-- What proto_connect leaves, on each of its branches.
use win16sync.Prelude.{
  ℕ, ◌≡◌, ◌≢◌, refl, ap, sym, ◌∙◌, Bool, true, false, not, Option, none, some, List, [], ◌<◌, ◌≤◌,
  ◌∷◌, leb, ◌==◌, if◌then◌else◌, Text, codes, arith, Bool-cases, inl, inr,
}
use mathlib.Core.Path.{subst}
use win16sync.Client.{set_error}
use win16sync.Connect.{
  Call, Answers, Net, close_socket, clean_up, hinstance_error, fail, winsock_unload, load_result,
  winsock_load, disconnect, create_socket, connect_result, connect_to, connect_socket,
  startup_result, start_winsock, after_start, after_load, connect,
}
use win16sync.Connect.{load_library, wsa_startup, socket_create, socket_connect}
use win16sync.Connect.Balance.{
  creates, held, IsBalanced, IsIdle, record_same, winsock_unload-IsBalanced, disconnect-IsIdle,
}

module _ {Socket : Type 0} where
  -- Windows and WINSOCK.DLL do all that a connection to `host` and `port` needs.
  pub record Accepts (answers : Answers Socket) (host : Text) (port : ℕ) : Type 0 where
    pub loaded : 32 < answers.load
    pub complete : answers.complete ≡ true
    pub started : answers.startup ≡ true
    pub socket : Socket
    pub ipv4 : ℕ
    pub created : answers.create ≡ some socket
    pub parsed : answers.addr_parse host ≡ some ipv4
    pub connected : answers.connect socket ipv4 port ≡ true

  -- What proto_connect has done: connected to the host and the port with the created socket, as the
  -- last of its calls; or failed since something was refused, and holding no socket and no start of
  -- WinSock.
  abbrev pub Connects : Answers Socket → Text → ℕ → Bool × Net Socket → Type 0
  Connects answers host port (true, after) =
      IsBalanced after
      × ((accepts : Accepts answers host port) × (before : List (Call Socket))
          × (after.client.socket_handle ≡ some accepts.socket)
          × (after.calls ≡ socket_connect accepts.socket accepts.ipv4 port true ∷ before))
      × (after.module_handle ≡ answers.load)
      × (after.client.wsa_ready ≡ true)
      × (after.client.recv_buffer ≡ [])
  Connects answers host port (false, after) =
      IsBalanced after × IsIdle after × (Accepts answers host port → ⊥)

  -- Failing and then disconnecting.
  fail-Connects :
      (answers : Answers Socket) (host : Text) (port : ℕ) (net : Net Socket) (message : Text)
      → IsBalanced net
      → (Accepts answers host port → ⊥)
      → Connects answers host port (false, disconnect (fail net message))
  unfolding set_error
  fail-Connects answers host port net message b refused =
      let (balanced, idle, gone) =
        disconnect-IsIdle (fail net message)
          (record_same net (fail net message) b refl refl refl refl) in
      (balanced, idle, refused)

  -- Everything before the address: the module, its functions, the start of WinSock and what the
  -- client holds of them.
  record IsStarted (answers : Answers Socket) (net : Net Socket) : Type 0 where
    balanced : IsBalanced net
    loaded : 32 < answers.load
    complete : answers.complete ≡ true
    started : answers.startup ≡ true
    module_same : net.module_handle ≡ answers.load
    ready : net.client.wsa_ready ≡ true
    empty : net.client.recv_buffer ≡ []

  connect_result-Connects :
      (answers : Answers Socket) (s : Socket) (ipv4 : ℕ) (ok : Bool) (net : Net Socket)
      → answers.create ≡ some s
      → answers.addr_parse net.client.host ≡ some ipv4
      → answers.connect s ipv4 net.client.port ≡ ok
      → IsStarted answers net
      → net.client.socket_handle ≡ some s
      → (before : List (Call Socket))
      → net.calls ≡ socket_connect s ipv4 net.client.port ok ∷ before
      → Connects answers net.client.host net.client.port (connect_result ok net)
  unfolding connect_result
  connect_result-Connects answers s ipv4 true net created parsed connected st own before last = (
    st.balanced,
    (
      record {
        loaded = st.loaded;
        complete = st.complete;
        started = st.started;
        socket = s;
        ipv4 = ipv4;
        created = created;
        parsed = parsed;
        connected = connected;
      },
      before,
      own,
      last,
    ),
    st.module_same,
    st.ready,
    st.empty,
  )
  connect_result-Connects answers s ipv4 false net created parsed failed st own before last =
      fail-Connects answers net.client.host net.client.port net (codes "connect fehlgeschlagen")
        st.balanced (λ a. absurd (cc (a.created, created, a.parsed, parsed, a.connected, failed)))

  connect_to-Connects :
      (answers : Answers Socket) (s : Socket) (ipv4 : Option ℕ) (net : Net Socket)
      → answers.create ≡ some s
      → answers.addr_parse net.client.host ≡ ipv4
      → IsStarted answers net
      → net.client.socket_handle ≡ some s
      → Connects answers net.client.host net.client.port (connect_to answers s ipv4 net)
  unfolding connect_to
  connect_to-Connects answers s none net created parsed st own =
      fail-Connects answers net.client.host net.client.port net
        (codes "Nur numerische IPv4-Adressen sind erlaubt") st.balanced
        (λ a. absurd (cc (a.parsed, parsed)))
  connect_to-Connects answers s (some ipv4) net created parsed st own =
      let ok = answers.connect s ipv4 net.client.port in
      let tried = record net { calls = socket_connect s ipv4 net.client.port ok ∷ net.calls } in
      let b = st.balanced in
      connect_result-Connects answers s ipv4 ok tried created parsed refl
        (record {
          balanced = record {
            modules = omega (arith, b.modules);
            startups = omega (arith, b.startups);
            sockets = omega (arith, b.sockets);
            needs = b.needs;
          };
          loaded = st.loaded;
          complete = st.complete;
          started = st.started;
          module_same = st.module_same;
          ready = st.ready;
          empty = st.empty;
        })
        own net.calls refl

  connect_socket-Connects :
      (answers : Answers Socket) (net : Net Socket)
      → IsStarted answers net
      → net.client.socket_handle ≡ answers.create
      → (created : Option Socket) → answers.create ≡ created
      → Connects answers net.client.host net.client.port (connect_socket answers created net)
  unfolding connect_socket
  connect_socket-Connects answers net st own none e =
      fail-Connects answers net.client.host net.client.port net (codes "socket fehlgeschlagen")
        st.balanced (λ a. absurd (cc (a.created, e)))
  connect_socket-Connects answers net st own (some s) e =
      connect_to-Connects answers s (answers.addr_parse net.client.host) net e refl st (own ∙ e)

  create_socket-IsBalanced :
      (answers : Answers Socket) (net : Net Socket)
      → IsBalanced net
      → net.module_handle ≢ 0
      → net.client.socket_handle ≡ none
      → IsBalanced (create_socket answers net)
  create_socket-IsBalanced answers net b loaded no_socket = record {
    modules = omega (arith, b.modules);
    startups = omega (arith, b.startups);
    sockets = omega (arith, rw no_socket at b.sockets, creates_held answers.create);
    needs = λ none_loaded. absurd (loaded none_loaded);
  }
    where
      creates_held : (created : Option Socket) → creates (socket_create created) ≡ held created
      creates_held none = refl
      creates_held (some s) = refl

  startup_result-Connects :
      (answers : Answers Socket) (ok : Bool) (net : Net Socket)
      → IsBalanced net
      → 32 < answers.load
      → answers.complete ≡ true
      → answers.startup ≡ ok
      → net.module_handle ≡ answers.load
      → IsIdle net
      → Connects answers net.client.host net.client.port
          (after_start answers (startup_result ok net))
  unfolding startup_result after_start set_error
  startup_result-Connects answers true net b high complete on same (no_socket, not_ready, empty) =
      let loaded : net.module_handle ≢ 0 = λ gone. absurd (omega (arith, same, gone, high)) in
      let started = record net {
        client = record net.client { wsa_ready = true };
        calls = wsa_startup true ∷ net.calls;
      } in
      let balanced : IsBalanced started = record {
        modules = omega (arith, b.modules);
        startups = omega (arith, rw not_ready at b.startups);
        sockets = omega (arith, b.sockets);
        needs = λ none_loaded. absurd (loaded none_loaded);
      } in
      connect_socket-Connects answers (create_socket answers started)
        (record {
          balanced = create_socket-IsBalanced answers started balanced loaded no_socket;
          loaded = high;
          complete = complete;
          started = on;
          module_same = same;
          ready = refl;
          empty = empty;
        })
        refl answers.create refl
  startup_result-Connects answers false net b high complete off same (no_socket, not_ready, empty) =
      (
        record {
          modules = omega (arith, b.modules);
          startups = omega (arith, b.startups);
          sockets = omega (arith, b.sockets);
          needs = b.needs;
        },
        (no_socket, not_ready, empty),
        λ a. absurd (cc (a.started, off)),
      )

  start_winsock-Connects :
      (answers : Answers Socket) (net : Net Socket)
      → IsBalanced net
      → 32 < answers.load
      → answers.complete ≡ true
      → net.module_handle ≡ answers.load
      → IsIdle net
      → Connects answers net.client.host net.client.port
          (after_start answers (start_winsock answers net))
  unfolding start_winsock
  start_winsock-Connects answers net b high complete same (no_socket, not_ready, empty) =
      let off = ap (λ r. if r then (true, net) else startup_result answers.startup net) not_ready in
      subst (λ r. Connects answers net.client.host net.client.port (after_start answers r))
        (sym off)
        (startup_result-Connects answers answers.startup net b high complete refl same
          (no_socket, not_ready, empty))

  unload-Connects :
      (answers : Answers Socket) (net : Net Socket) (message : Text)
      → IsBalanced net
      → IsIdle net
      → (Accepts answers net.client.host net.client.port → ⊥)
      → Connects answers net.client.host net.client.port (false, fail (winsock_unload net) message)
  unfolding set_error
  unload-Connects answers net message b (no_socket, not_ready, empty) refused =
      let (balanced, gone, same) = winsock_unload-IsBalanced net b no_socket not_ready in
      (
        record_same (winsock_unload net) (fail (winsock_unload net) message) balanced refl refl refl
            refl,
        (
          ap (λ c. c.socket_handle) same ∙ no_socket,
          ap (λ c. c.wsa_ready) same ∙ not_ready,
          ap (λ c. c.recv_buffer) same ∙ empty,
        ),
        refused,
      )

  load_result-Connects :
      (answers : Answers Socket) (net : Net Socket)
      → IsBalanced net
      → net.module_handle ≡ answers.load
      → IsIdle net
      → Connects answers net.client.host net.client.port
          (after_load answers (load_result answers net))
  unfolding load_result after_load
  load_result-Connects answers net b same idle =
      elim (Bool-cases (leb net.module_handle hinstance_error)) [
        | inl low ↦
            let few : answers.load ≤ 32 = ground (arith, same) in
            rw low (
              unload-Connects answers net (codes "WINSOCK.DLL fehlt") b idle
                (λ a. absurd (omega (arith, a.loaded))))
        | inr high ↦
            let many : 32 < answers.load = ground (arith, same) in
            elim (Bool-cases answers.complete) [
              | inl complete ↦
                  rw high
                    (simp complete (start_winsock-Connects answers net b many complete same idle))
              | inr partial ↦ rw high (
                  simp partial (
                    unload-Connects answers net (codes "WINSOCK.DLL unvollstaendig") b idle
                      (λ a. absurd (cc (a.complete, partial)))))
            ]
      ]

  winsock_load-Connects :
      (answers : Answers Socket) (net : Net Socket)
      → IsBalanced net
      → net.module_handle ≡ 0
      → IsIdle net
      → Connects answers net.client.host net.client.port
          (after_load answers (winsock_load answers net))
  unfolding winsock_load
  winsock_load-Connects answers net b gone (no_socket, not_ready, empty) =
      let loaded = record net {
        module_handle = answers.load;
        calls = load_library answers.load ∷ net.calls;
      } in
      let balanced : IsBalanced loaded = record {
        modules = omega (arith, rw gone at b.modules);
        startups = omega (arith, b.startups);
        sockets = omega (arith, b.sockets);
        needs = λ _. (no_socket, not_ready);
      } in
      let missing =
        ap (λ m. if not (m == 0) then (true, net) else load_result answers loaded) gone in
      subst (λ r. Connects answers net.client.host net.client.port (after_load answers r))
        (sym missing)
        (load_result-Connects answers loaded balanced refl (no_socket, not_ready, empty))

  -- proto_client_disconnect keeps where to connect to.
  close_socket-kept :
      (handle : Option Socket) (net : Net Socket)
      → ((close_socket handle net).client.host ≡ net.client.host)
        × ((close_socket handle net).client.port ≡ net.client.port)
  unfolding close_socket
  close_socket-kept none net = (refl, refl)
  close_socket-kept (some s) net = (refl, refl)

  clean_up-kept :
      (net : Net Socket)
      → ((clean_up net).client.host ≡ net.client.host)
        × ((clean_up net).client.port ≡ net.client.port)
  unfolding clean_up
  clean_up-kept net = elim (Bool-cases net.client.wsa_ready) [
    | inl on ↦ rw on (refl, refl)
    | inr off ↦ rw off (refl, refl)
  ]

  winsock_unload-kept : (net : Net Socket) → (winsock_unload net).client ≡ net.client
  unfolding winsock_unload
  winsock_unload-kept net = elim (Bool-cases (net.module_handle == 0)) [
    | inl none_loaded ↦ rw none_loaded
    | inr loaded ↦ rw loaded
  ]

  disconnect-kept :
      (net : Net Socket)
      → ((disconnect net).client.host ≡ net.client.host)
        × ((disconnect net).client.port ≡ net.client.port)
  unfolding disconnect
  disconnect-kept net =
      let net1 = close_socket net.client.socket_handle net in
      let closed = close_socket-kept net.client.socket_handle net in
      let cleaned = clean_up-kept net1 in
      let unloaded = winsock_unload-kept (clean_up net1) in
      (
        ap (λ c. c.host) unloaded ∙ cleaned.0 ∙ closed.0,
        ap (λ c. c.port) unloaded ∙ cleaned.1 ∙ closed.1,
      )

  -- Each call of proto_connect, whatever Windows and WINSOCK.DLL answer and whatever the client
  -- held before, if its calls account for it. It succeeds just if the module is loaded with all its
  -- functions, WinSock starts, a socket is created, the host of the client is an address and
  -- `connect` to it and the client's port succeeds with this socket. It is then connected: this
  -- `connect` was the last call, the client holds its socket with WinSock started, and nothing has
  -- been received yet. Else it has failed and holds no socket and no start of WinSock. In both
  -- cases all that was asked for is held or given back.
  pub connect-Connects :
      (answers : Answers Socket) (net : Net Socket)
      → IsBalanced net
      → Connects answers net.client.host net.client.port (connect answers net)
  unfolding connect
  connect-Connects answers net b =
      let (balanced, idle, gone) = disconnect-IsIdle net b in
      let net' = disconnect net in
      let cleared = record net' { client = record net'.client { last_error = [] } } in
      let (host, port) = disconnect-kept net in
      subst (λ p. Connects answers net.client.host p (connect answers net)) port
        (subst (λ h. Connects answers h net'.client.port (connect answers net)) host
          (winsock_load-Connects answers cleared
            (record_same net' cleared balanced refl refl refl refl) gone idle))
