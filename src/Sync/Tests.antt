-- ===== src/Sync/Tests.antt =====
-- Synchronisations with a server that is a text.
use win16sync.Prelude.{◌≡◌, refl, true, none, some, [], Text, codes, arith}
use win16sync.Action.Ends.{Ends}
use win16sync.Client.{client_init}
use win16sync.Connect.{Answers}
use win16sync.Connect.Balance.{IsBalanced, IsIdle}
use win16sync.Dos.Ram.{Files, ram}
use win16sync.Session.{World}
use win16sync.Sync.{sync_directory}
use win16sync.Sync.Actions.{Counts, serve}
use win16sync.Sync.Closes.{IsClosed, sync_directory-IsClosed}
use win16sync.Sync.Rounds.{serve-rounds}
use win16sync.Wire.Pipe.{pipe, pipe-IsStream}

-- A server of an old version that has nothing to do.
abbrev answering : Answers (Text × Text)
answering = record {
  load = 500;
  complete = true;
  startup = true;
  create = some (codes "HELLO version=0.1.9\r\nDONE actions=0 conflicts=0\r\n", []);
  addr_parse = λ host. some 1;
  connect = λ s ipv4 port. true;
}

abbrev fresh : World (Text × Text) Files
fresh = record {
  net = record { client = client_init; module_handle = 0; calls = [] };
  state = λ q. none;
}

fresh-IsBalanced : IsBalanced fresh.net
unfolding client_init
fresh-IsBalanced = record {
  modules = omega arith;
  startups = omega arith;
  sockets = omega arith;
  needs = λ _. (refl, refl);
}

sync_directory-IsClosed_example :
    Ends
      (λ _. IsClosed pipe ram pipe-IsStream)
      (λ v. IsBalanced v.net × IsIdle v.net)
      (sync_directory pipe ram 100 answering (codes "C:\\DATA") fresh)
sync_directory-IsClosed_example =
    sync_directory-IsClosed pipe ram pipe-IsStream 100 answering (codes "C:\\DATA") fresh
      fresh-IsBalanced refl

-- Connected to a server that has one conflict to tell.
abbrev serving : World (Text × Text) Files
serving = record fresh {
  net = record fresh.net {
    client = record client_init {
      socket_handle =
          some (codes "ACTION path=41 kind=conflict\r\nDONE actions=0 conflicts=1\r\n", []);
    };
  };
}

abbrev no_counts : Counts
no_counts = record { actions = 0; conflicts = 0 }

serve-rounds_example :
    serve pipe ram 59 (codes "C:\\DATA") [] no_counts serving
    ≡ serve pipe ram 1000 (codes "C:\\DATA") [] no_counts serving
unfolding client_init
serve-rounds_example =
    serve-rounds pipe ram pipe-IsStream 59 1000 (codes "C:\\DATA") [] no_counts serving
      (omega arith) (omega arith) (omega arith)
