-- ===== src/Connect.antt =====
-- client/proto.c: proto_connect, proto_client_disconnect, proto_winsock_load and
-- proto_winsock_unload, with the calls that they make. WINSOCK.DLL and Windows answer as a record
-- says; `calls` holds the calls with their results, the last one first.
pub mod Balance
pub mod Outcome
mod Tests
use win16sync.Prelude.{
  ℕ, Bool, true, false, not, Option, none, some, List, [], ◌∷◌, leb, ◌==◌, if◌then◌else◌, Text,
  codes,
}
use win16sync.Client.{ProtoClient, set_error}

-- A call that concerns what the client holds.
pub data Call (Socket : Type 0) : Type 0 where
  load_library : ℕ → Call Socket
  free_library : ℕ → Call Socket
  wsa_startup : Bool → Call Socket
  wsa_cleanup : Call Socket
  socket_create : Option Socket → Call Socket
  socket_close : Socket → Call Socket
  socket_connect : Socket → ℕ → ℕ → Bool → Call Socket

-- What Windows and the DLL answer while proto_connect runs: LoadLibrary, whether every
-- GetProcAddress finds its function, WSAStartup, socket, inet_addr and connect.
pub record Answers (Socket : Type 0) : Type 0 where
  pub load : ℕ
  pub complete : Bool
  pub startup : Bool
  pub create : Option Socket
  pub addr_parse : Text → Option ℕ
  pub connect : Socket → ℕ → ℕ → Bool

-- The client, `g_winsock.module` with 0 for NULL, and the calls so far. The functions of
-- `g_winsock` are there exactly when the module is.
pub record Net (Socket : Type 0) : Type 0 where
  pub client : ProtoClient Socket
  pub module_handle : ℕ
  pub calls : List (Call Socket)

-- `HINSTANCE_ERROR`
abbrev pub hinstance_error : ℕ
hinstance_error = 32

module _ {Socket : Type 0} where
  abbrev pub fail : Net Socket → Text → Net Socket
  fail net message = record net { client = set_error net.client message }

  unfoldable pub winsock_unload : Net Socket → Net Socket
  winsock_unload net =
      if net.module_handle == 0
      then net
      else record net { module_handle = 0; calls = free_library net.module_handle ∷ net.calls }

  -- proto_winsock_load after `LoadLibrary`.
  unfoldable pub load_result : Answers Socket → Net Socket → Bool × Net Socket
  load_result answers net =
      if leb net.module_handle hinstance_error
      then (false, fail (winsock_unload net) (codes "WINSOCK.DLL fehlt"))
      else if not answers.complete
      then (false, fail (winsock_unload net) (codes "WINSOCK.DLL unvollstaendig"))
      else (true, net)

  unfoldable pub winsock_load : Answers Socket → Net Socket → Bool × Net Socket
  winsock_load answers net =
      if not (net.module_handle == 0)
      then (true, net)
      else load_result answers (record net {
        module_handle = answers.load;
        calls = load_library answers.load ∷ net.calls;
      })

  -- The parts of proto_client_disconnect.
  unfoldable pub close_socket : Option Socket → Net Socket → Net Socket
  close_socket none net = net
  close_socket (some s) net = record net {
    client = record net.client { socket_handle = none };
    calls = if net.module_handle == 0 then net.calls else socket_close s ∷ net.calls;
  }

  unfoldable pub clean_up : Net Socket → Net Socket
  clean_up net =
      if net.client.wsa_ready
      then record net {
        client = record net.client { wsa_ready = false };
        calls = if net.module_handle == 0 then net.calls else wsa_cleanup ∷ net.calls;
      }
      else net

  unfoldable pub disconnect : Net Socket → Net Socket
  disconnect net =
      let net' = winsock_unload (clean_up (close_socket net.client.socket_handle net)) in
      record net' { client = record net'.client { recv_buffer = [] } }

  -- proto_connect after `connect`.
  unfoldable pub connect_result : Bool → Net Socket → Bool × Net Socket
  connect_result true net = (true, net)
  connect_result false net = (false, disconnect (fail net (codes "connect fehlgeschlagen")))

  -- proto_connect after `inet_addr`.
  unfoldable pub connect_to : Answers Socket → Socket → Option ℕ → Net Socket → Bool × Net Socket
  connect_to answers s none net =
      (false, disconnect (fail net (codes "Nur numerische IPv4-Adressen sind erlaubt")))
  connect_to answers s (some ipv4) net =
      let ok = answers.connect s ipv4 net.client.port in
      connect_result ok
        (record net { calls = socket_connect s ipv4 net.client.port ok ∷ net.calls })

  -- proto_connect after `socket`.
  unfoldable pub connect_socket : Answers Socket → Option Socket → Net Socket → Bool × Net Socket
  connect_socket answers none net = (false, disconnect (fail net (codes "socket fehlgeschlagen")))
  connect_socket answers (some s) net =
      connect_to answers s (answers.addr_parse net.client.host) net

  -- The result of `WSAStartup`.
  unfoldable pub startup_result : Bool → Net Socket → Bool × Net Socket
  startup_result true net = (
    true,
    record net {
      client = record net.client { wsa_ready = true };
      calls = wsa_startup true ∷ net.calls;
    },
  )
  startup_result false net = (
    false,
    fail (record net { calls = wsa_startup false ∷ net.calls }) (codes "WSAStartup fehlgeschlagen"),
  )

  unfoldable pub start_winsock : Answers Socket → Net Socket → Bool × Net Socket
  start_winsock answers net =
      if net.client.wsa_ready then (true, net) else startup_result answers.startup net

  abbrev pub create_socket : Answers Socket → Net Socket → Net Socket
  create_socket answers net = record net {
    client = record net.client { socket_handle = answers.create };
    calls = socket_create answers.create ∷ net.calls;
  }

  unfoldable pub after_start : Answers Socket → Bool × Net Socket → Bool × Net Socket
  after_start answers (false, net) = (false, net)
  after_start answers (true, net) =
      connect_socket answers answers.create (create_socket answers net)

  unfoldable pub after_load : Answers Socket → Bool × Net Socket → Bool × Net Socket
  after_load answers (false, net) = (false, net)
  after_load answers (true, net) = after_start answers (start_winsock answers net)

  -- proto_connect.
  unfoldable pub connect : Answers Socket → Net Socket → Bool × Net Socket
  connect answers net =
      let net' = disconnect net in
      after_load answers
        (winsock_load answers (record net' { client = record net'.client { last_error = [] } }))
