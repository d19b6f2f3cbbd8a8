-- ===== src/Session.antt =====
-- The calls of client/proto.c that a session with the server is made of, as actions on the client
-- with its connection and the machine. `check` and `demand` are the tests that set an error and
-- return 0.
pub mod Effects
pub mod Calls
pub mod Frame
use win16sync.Prelude.{ℕ, Bool, true, false, Option, none, some, List, [], ◌∷◌, Text, codes, c_text}
use mathlib.Core.Option
use win16sync.Action.{Action, Done, pure, failed, gets, changes, ◌>>=◌, ◌>>◌}
use win16sync.Cache.{Cache}
use win16sync.Client.{ProtoClient, set_error, set_notice}
use win16sync.Connect.{Net}
use win16sync.Dos.{Dos}
use win16sync.Winsock.{Winsock}
use win16sync.Wire.{Client, read_line, read_exact, send_line, send_all}

pub record World (Socket State : Type 0) : Type 0 where
  pub net : Net Socket
  pub state : State

module _ {Socket State : Type 0} where
  abbrev pub with_client : World Socket State → ProtoClient Socket → World Socket State
  with_client w client = record w { net = record w.net { client = client } }

  abbrev pub with_error : Text → World Socket State → World Socket State
  with_error message w = with_client w (set_error w.net.client message)

  abbrev pub with_state : World Socket State → State → World Socket State
  with_state w s = record w { state = s }

  -- A call that fails with its client, one that fails with its message, and one on the machine.
  unfoldable pub by_client :
      {A : Type 0}
      → (ProtoClient Socket → Option A × ProtoClient Socket)
      → Action (World Socket State) A
  by_client f w = let (result, client) = f w.net.client in (result, with_client w client)

  unfoldable pub by_machine : {A : Type 0} → (State → A × State) → Action (World Socket State) A
  by_machine f w = let (result, s) = f w.state in (some result, with_state w s)

  unfoldable pub refuse : {A : Type 0} → (State → Text) → Action (World Socket State) A
  refuse message w = (none, with_error (message w.state) w)

  unfoldable pub check_with : Bool → (State → Text) → Action (World Socket State) Done
  unfolding pure refuse
  check_with true message = pure tt
  check_with false message = refuse message

  abbrev pub check : Bool → Text → Action (World Socket State) Done
  check ok message = check_with ok (λ _. message)

  unfoldable pub demand : {A : Type 0} → Option A → Text → Action (World Socket State) A
  unfolding pure refuse
  demand (some a) message = pure a
  demand none message = refuse (λ _. message)

  unfoldable pub change_cache : (Cache → Cache) → Action (World Socket State) Done
  change_cache f w = (some tt, with_client w (record w.net.client { cache = f w.net.client.cache }))

abbrev pub succeeds : {C : Type 0} → Bool × C → Option Done × C
succeeds (true, client) = (some tt, client)
succeeds (false, client) = (none, client)

-- PROTO_LINE_CAPACITY
abbrev pub line_capacity : ℕ
line_capacity = 512

module _ (w : Winsock) (d : Dos) where
  abbrev pub Session : Type 0 → Type 0
  Session A = Action (World w.Socket d.State) A

  -- A line as a C text, up to a NUL.
  abbrev pub hear : Session Text
  hear = by_client (λ client.
      let (line, client') = read_line w client line_capacity in (Option.map c_text line, client'))

  abbrev pub take_bytes : ℕ → Session Text
  take_bytes n = by_client (λ client. read_exact w client n)

  abbrev pub say : Text → Session Done
  say line = by_client (λ client. succeeds (send_line w client line))

  abbrev pub send_bytes : Text → Session Done
  send_bytes bytes = by_client (λ client. succeeds (send_all w client bytes))

  -- A call whose result is not asked for.
  abbrev pub machine_step : (d.State → d.State) → Session Done
  machine_step f = by_machine (λ s. (tt, f s))

  abbrev pub take_ticks : Session ℕ
  take_ticks = by_machine d.ticks

  abbrev pub allocate : Session Bool
  allocate = by_machine d.malloc
