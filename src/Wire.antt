-- ===== src/Wire.antt =====
-- client/proto.c: sending and receiving. A routine gives the client back with its result: `none`
-- and `false` are the 0 of the source.
pub mod Newline
pub mod Stream
pub mod ReadLine
pub mod Arrival
pub mod ReadExact
pub mod Kept
pub mod Send
pub mod Pipe
mod Tests
use mathlib.Core.Option
use win16sync.Prelude.{
  ℕ, zero, suc, ◌+◌, ◌-◌, min, Bool, true, false, ◌&&◌, Option, none, some, List, [], ◌∷◌, ◌++◌,
  ltb, leb, ◌==◌, if◌then◌else◌, length, get_or, take, drop, Text, codes,
}
use win16sync.Client.{ProtoClient, set_error}
use win16sync.Path.{is_empty}
use win16sync.Winsock.{Winsock}

-- `char recv_buffer[1025]`, the last place being for the terminator
abbrev pub recv_capacity : ℕ
recv_capacity = 1024

-- The `for` loop of proto_read_line: the place of the first newline.
unfoldable pub newline_index : Text → Option ℕ
newline_index [] = none
newline_index (c ∷ buffer) =
    if c == b'\n' then some 0 else Option.map (λ i. i + 1) (newline_index buffer)

abbrev pub line_length : Text → ℕ → ℕ
line_length buffer index =
    if ltb 0 index && get_or buffer (index - 1) 0 == b'\r' then index - 1 else index

module _ (w : Winsock) where
  abbrev pub Client : Type 0
  Client = ProtoClient w.Socket

  receive_at : Client → ℕ → Option w.Socket → Option Text × Client
  receive_at client n none = (none, client)
  receive_at client n (some s) =
      let (result, s') = w.recv s n in (result, record client { socket_handle = some s' })

  -- `recv` on the client's socket; INVALID_SOCKET gives SOCKET_ERROR.
  unfoldable pub receive : Client → ℕ → Option Text × Client
  unfolding receive_at
  receive client n = receive_at client n client.socket_handle

  -- What the loop of proto_read_line does at a newline.
  unfoldable pub take_line : Client → ℕ → ℕ → Option Text × Client
  take_line client capacity index =
      let n = line_length client.recv_buffer index in
      if ltb capacity (n + 1) then (none, set_error client (codes "Antwort zu lang")) else (
        some (take n client.recv_buffer),
        record client { recv_buffer = drop (index + 1) client.recv_buffer },
      )

  -- The end of a round of proto_read_line: `more` goes around again with what `recv` brought.
  unfoldable pub extend_line :
      (Client → Option Text × Client) → Option Text × Client → Option Text × Client
  extend_line more (none, client) = (none, set_error client (codes "recv fehlgeschlagen"))
  extend_line more (some xs, client) =
      more (record client { recv_buffer = client.recv_buffer ++ xs })

  -- One round, by the place of the first newline.
  unfoldable pub read_line_round :
      (Client → Option Text × Client) → Client → ℕ → Option ℕ → Option Text × Client
  unfolding take_line extend_line
  read_line_round more client capacity (some index) = take_line client capacity index
  read_line_round more client capacity none =
      if leb recv_capacity (length client.recv_buffer)
      then (none, set_error client (codes "Empfangspuffer voll"))
      else extend_line more (receive client (recv_capacity - length client.recv_buffer))

  -- The outer loop of proto_read_line. Each round but the last receives a byte, so the rounds are
  -- bounded by the buffer.
  unfoldable pub read_line_loop : ℕ → Client → ℕ → Option Text × Client
  unfolding read_line_round
  read_line_loop zero client capacity = (none, client)
  read_line_loop (suc rounds) client capacity =
      read_line_round (λ again. read_line_loop rounds again capacity) client capacity
        (newline_index client.recv_buffer)

  unfoldable pub read_line : Client → ℕ → Option Text × Client
  read_line client capacity =
      if capacity == 0
      then (none, set_error client (codes "Linebuffer ung" ++ 195 ∷ 188 ∷ codes "ltig"))
      else read_line_loop (suc recv_capacity) client capacity

  -- The end of a round of proto_read_exact, after `recv`.
  unfoldable pub extend_exact :
      (Client → Text → Option Text × Client) → Text → Option Text × Client → Option Text × Client
  extend_exact more buffer (none, client) =
      (none, set_error client (codes "Rohdaten-Empfang fehlgeschlagen"))
  extend_exact more buffer (some xs, client) = more client (buffer ++ xs)

  -- One round of proto_read_exact; `buffer` holds the bytes copied so far.
  unfoldable pub read_exact_round :
      (Client → Text → Option Text × Client) → Client → Text → ℕ → Option Text × Client
  unfolding extend_exact
  read_exact_round more client buffer total =
      let missing = total - length buffer in
      let chunk = min (length client.recv_buffer) missing in
      if leb total (length buffer)
      then (some buffer, client)
      else if ltb 0 (length client.recv_buffer)
      then more (record client { recv_buffer = drop chunk client.recv_buffer })
          (buffer ++ take chunk client.recv_buffer)
      else extend_exact more buffer (receive client (min 8192 missing))

  -- The loop of proto_read_exact. Each round but the last copies a byte.
  unfoldable pub read_exact_loop : ℕ → Client → Text → ℕ → Option Text × Client
  unfolding read_exact_round
  read_exact_loop zero client buffer total = (none, client)
  read_exact_loop (suc rounds) client buffer total =
      read_exact_round (λ again copied. read_exact_loop rounds again copied total) client buffer
        total

  unfoldable pub read_exact : Client → ℕ → Option Text × Client
  read_exact client total = read_exact_loop (suc total) client [] total

  transmit_at : Client → Text → Option w.Socket → Option ℕ × Client
  transmit_at client buffer none = (none, client)
  transmit_at client buffer (some s) =
      let (result, s') = w.send s buffer in (result, record client { socket_handle = some s' })

  -- `send` on the client's socket.
  unfoldable pub transmit : Client → Text → Option ℕ × Client
  unfolding transmit_at
  transmit client buffer = transmit_at client buffer client.socket_handle

  -- The end of a round of proto_send_all, after `send`.
  unfoldable pub resume : (Client → Text → Bool × Client) → Text → Option ℕ × Client → Bool × Client
  resume more buffer (none, client) = (false, set_error client (codes "send fehlgeschlagen"))
  resume more buffer (some n, client) = more client (drop n buffer)

  -- The loop of proto_send_all on the bytes from `sent_total` on.
  unfoldable pub send_loop : ℕ → Client → Text → Bool × Client
  unfolding resume
  send_loop zero client buffer = (false, client)
  send_loop (suc rounds) client buffer =
      if is_empty buffer
      then (true, client)
      else resume (send_loop rounds) buffer (transmit client buffer)

  unfoldable pub send_all : Client → Text → Bool × Client
  send_all client buffer = send_loop (suc (length buffer)) client buffer

  unfoldable pub send_line : Client → Text → Bool × Client
  send_line client line =
      let (sent, client') = send_all client line in
      if sent then send_all client' (b'\r' ∷ b'\n' ∷ []) else (false, client')
