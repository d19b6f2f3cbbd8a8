-- ===== src/Connect/Balance.antt =====
-- What the client holds of Windows, a module, a start of WinSock and a socket, is what it has
-- asked for and not yet given back.
use win16sync.Prelude.{
  ℕ, ◌+◌, ◌≡◌, refl, ap, sym, ◌∙◌, true, false, Option, none, some, List, [], ◌∷◌, leb, ◌==◌,
  if◌then◌else◌, arith, Bool-cases, inl, inr,
}
use win16sync.Connect.{
  Call, Net, hinstance_error, winsock_unload, close_socket, clean_up, disconnect,
}
use win16sync.Connect.{
  load_library, free_library, wsa_startup, wsa_cleanup, socket_create, socket_close,
}

-- A handle up to HINSTANCE_ERROR is no module.
abbrev pub is_module : ℕ → ℕ
is_module handle = if leb handle hinstance_error then 0 else 1

module _ {Socket : Type 0} where
  abbrev pub count : (Call Socket → ℕ) → List (Call Socket) → ℕ
  count weight [] = 0
  count weight (c ∷ calls) = weight c + count weight calls

  abbrev pub loads : Call Socket → ℕ
  loads (load_library handle) = is_module handle
  loads _ = 0

  abbrev pub frees : Call Socket → ℕ
  frees (free_library handle) = is_module handle
  frees _ = 0

  abbrev pub starts : Call Socket → ℕ
  starts (wsa_startup true) = 1
  starts _ = 0

  abbrev pub cleanups : Call Socket → ℕ
  cleanups wsa_cleanup = 1
  cleanups _ = 0

  abbrev pub creates : Call Socket → ℕ
  creates (socket_create (some s)) = 1
  creates _ = 0

  abbrev pub closes : Call Socket → ℕ
  closes (socket_close s) = 1
  closes _ = 0

  abbrev pub held : Option Socket → ℕ
  held none = 0
  held (some s) = 1

  -- Nothing is lost, and what needs the module is there only with it.
  pub record IsBalanced (net : Net Socket) : Type 0 where
    pub modules : count loads net.calls ≡ count frees net.calls + is_module net.module_handle
    pub startups :
        count starts net.calls ≡ count cleanups net.calls + (if net.client.wsa_ready then 1 else 0)
    pub sockets : count creates net.calls ≡ count closes net.calls + held net.client.socket_handle
    pub needs :
        net.module_handle ≡ 0 → (net.client.socket_handle ≡ none) × (net.client.wsa_ready ≡ false)

  pub record_same :
      (net after : Net Socket)
      → IsBalanced net
      → after.calls ≡ net.calls
      → after.module_handle ≡ net.module_handle
      → after.client.wsa_ready ≡ net.client.wsa_ready
      → after.client.socket_handle ≡ net.client.socket_handle
      → IsBalanced after
  record_same net after b c m r s = record {
    modules = rw (c, m) b.modules;
    startups = rw (c, r) b.startups;
    sockets = rw (c, s) b.sockets;
    needs = rw (m, r, s) b.needs;
  }

  pub winsock_unload-IsBalanced :
      (net : Net Socket)
      → IsBalanced net
      → net.client.socket_handle ≡ none
      → net.client.wsa_ready ≡ false
      → IsBalanced (winsock_unload net)
        × ((winsock_unload net).module_handle ≡ 0)
        × ((winsock_unload net).client ≡ net.client)
  unfolding winsock_unload
  winsock_unload-IsBalanced net b closed clean = elim (Bool-cases (net.module_handle == 0)) [
    | inl e ↦ rw e (b, ground arith, refl)
    | inr e ↦ rw e (
      record {
        modules = omega (arith, b.modules);
        startups = omega (arith, b.startups);
        sockets = omega (arith, b.sockets);
        needs = λ _. (closed, clean);
      },
      refl,
      refl,
    )
  ]

  close_socket-IsBalanced :
      (net : Net Socket)
      → IsBalanced net
      → (handle : Option Socket) → net.client.socket_handle ≡ handle
      → IsBalanced (close_socket handle net)
        × ((close_socket handle net).client.socket_handle ≡ none)
  unfolding close_socket
  close_socket-IsBalanced net b none e = (b, e)
  close_socket-IsBalanced net b (some s) e = elim (Bool-cases (net.module_handle == 0)) [
    | inl missing ↦
        let nothing : net.module_handle ≡ 0 = ground arith in
        absurd (cc (sym e ∙ (b.needs nothing).0))
    | inr there ↦
        let open_socket = rw e at b.sockets in
        rw there (
          record {
            modules = omega (arith, b.modules);
            startups = omega (arith, b.startups);
            sockets = omega (arith, open_socket);
            needs = λ nothing. absurd (ground arith);
          },
          refl,
        )
  ]

  clean_up-IsBalanced :
      (net : Net Socket)
      → IsBalanced net
      → IsBalanced (clean_up net)
        × ((clean_up net).client.wsa_ready ≡ false)
        × ((clean_up net).client.socket_handle ≡ net.client.socket_handle)
  unfolding clean_up
  clean_up-IsBalanced net b = elim (Bool-cases net.client.wsa_ready) [
    | inr off ↦ rw off (
      record {
        modules = b.modules;
        startups = rw off at b.startups;
        sockets = b.sockets;
        needs = λ nothing. ((b.needs nothing).0, refl);
      },
      refl,
      refl,
    )
    | inl on ↦ elim (Bool-cases (net.module_handle == 0)) [
      | inl missing ↦
          let nothing : net.module_handle ≡ 0 = ground arith in
          absurd (cc (sym on ∙ (b.needs nothing).1))
      | inr there ↦
          let ready = rw on at b.startups in
          rw (on, there)
            (
              record {
                modules = omega (arith, b.modules);
                startups = omega (arith, ready);
                sockets = omega (arith, b.sockets);
                needs = λ nothing. absurd (ground arith);
              },
              refl,
              refl,
            )
    ]
  ]

  -- The client holds nothing of Windows.
  abbrev pub IsIdle : Net Socket → Type 0
  IsIdle net =
      (net.client.socket_handle ≡ none)
      × (net.client.wsa_ready ≡ false)
      × (net.client.recv_buffer ≡ [])

  -- proto_client_disconnect gives back everything that the client holds, if its calls account for
  -- it: as many modules have been freed as loaded, as many starts of WinSock cleaned up as made
  -- and as many sockets closed as created. Nothing received is left.
  pub disconnect-IsIdle :
      (net : Net Socket)
      → IsBalanced net
      → IsBalanced (disconnect net) × IsIdle (disconnect net) × ((disconnect net).module_handle ≡ 0)
  unfolding disconnect
  disconnect-IsIdle net b =
      let (closed, no_socket) = close_socket-IsBalanced net b net.client.socket_handle refl in
      let net1 = close_socket net.client.socket_handle net in
      let (clean, not_ready, same) = clean_up-IsBalanced net1 closed in
      let net2 = clean_up net1 in
      let (unloaded, no_module, kept) =
        winsock_unload-IsBalanced net2 clean (same ∙ no_socket) not_ready in
      let net3 = winsock_unload net2 in
      let off = ap (λ c. c.wsa_ready) kept ∙ not_ready in
      let none_left = ap (λ c. c.socket_handle) kept ∙ same ∙ no_socket in
      (
        record_same net3 (record net3 { client = record net3.client { recv_buffer = [] } }) unloaded
            refl refl refl refl,
        (none_left, off, refl),
        no_module,
      )
