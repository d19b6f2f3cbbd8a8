-- ===== src/Connect/Tests.antt =====
-- Runs of proto_connect.
use win16sync.Prelude.{ℕ, true, false, some, [], ◌∷◌, ◌≡◌, refl, arith}
use win16sync.Client.{client_init, set_error}
use win16sync.Connect.{
  Answers, Net, disconnect, connect, load_library, free_library, wsa_startup, wsa_cleanup,
  socket_create, socket_close, socket_connect, winsock_unload, winsock_load, load_result,
  close_socket, clean_up, connect_result, connect_to, connect_socket, startup_result, start_winsock,
  after_start, after_load,
}
use win16sync.Connect.Balance.{IsBalanced, IsIdle, disconnect-IsIdle}
use win16sync.Connect.Outcome.{Connects, connect-Connects}

-- A server that refuses the connection; a socket is a number.
abbrev refusing : Answers ℕ
refusing = record {
  load = 500;
  complete = true;
  startup = true;
  create = some 7;
  addr_parse = λ host. some 1;
  connect = λ s ipv4 port. false;
}

abbrev fresh : Net ℕ
fresh = record { client = client_init; module_handle = 0; calls = [] }

fresh-IsBalanced : IsBalanced fresh
unfolding client_init
fresh-IsBalanced = record {
  modules = omega arith;
  startups = omega arith;
  sockets = omega arith;
  needs = λ _. (refl, refl);
}

refused :
    (connect refusing fresh).1.calls
    ≡ free_library 500
      ∷ wsa_cleanup
      ∷ socket_close 7
      ∷ socket_connect 7 1 9071 false
      ∷ socket_create (some 7)
      ∷ wsa_startup true
      ∷ load_library 500
      ∷ []
unfolding set_error connect after_load winsock_load load_result disconnect winsock_unload clean_up
    close_socket after_start start_winsock startup_result connect_socket connect_to connect_result
    client_init
refused = refl

-- A server that takes the connection.
abbrev accepting : Answers ℕ
accepting = record refusing { connect = λ s ipv4 port. true }

accepted : (connect accepting fresh).0 ≡ true
unfolding set_error connect after_load winsock_load load_result disconnect winsock_unload clean_up
    close_socket after_start start_winsock startup_result connect_socket connect_to connect_result
    client_init
accepted = refl

connect-Connects_example :
    Connects accepting fresh.client.host fresh.client.port (connect accepting fresh)
connect-Connects_example = connect-Connects accepting fresh fresh-IsBalanced

-- Connected by the socket 7.
abbrev connected : Net ℕ
connected = record {
  client = record client_init { socket_handle = some 7; wsa_ready = true };
  module_handle = 500;
  calls = socket_create (some 7) ∷ wsa_startup true ∷ load_library 500 ∷ [];
}

disconnect-IsIdle_example :
    IsBalanced (disconnect connected)
    × IsIdle (disconnect connected)
    × ((disconnect connected).module_handle ≡ 0)
disconnect-IsIdle_example = disconnect-IsIdle connected (record {
  modules = omega arith;
  startups = omega arith;
  sockets = omega arith;
  needs = λ nothing. absurd (omega (arith, nothing));
})
