-- ===== src/Wire/Kept.antt =====
-- What the routines of the connection leave as it is: whether there is a socket, the settings, and
-- that at most 1024 bytes are buffered.
use win16sync.Prelude.{
  ℕ, zero, suc, ◌-◌, ◌≡◌, refl, ◌∙◌, min, Bool, Option, none, some, [], ◌++◌, ltb, leb, ◌==◌,
  length, drop, Text, arith, Bool-cases, inl, inr, ◌+◌, ◌∷◌, ◌≤◌, ap, length-append, length-drop,
}
use win16sync.Client.{ProtoClient, set_error}
use win16sync.Connect.Balance.{held}
use win16sync.Path.{is_empty}
use win16sync.Winsock.{Winsock, IsStream}
use win16sync.Wire.Stream.{receive-some}
use win16sync.Wire.{
  recv_capacity, newline_index, line_length, Client, receive_at, receive, take_line, extend_line,
  read_line_round, read_line_loop, read_line, extend_exact, read_exact_round, read_exact_loop,
  read_exact, transmit_at, transmit, resume, send_loop, send_all, send_line,
}

pub record IsKept {Socket : Type 0} (client after : ProtoClient Socket) : Type 0 where
  pub socket : held after.socket_handle ≡ held client.socket_handle
  pub ready : after.wsa_ready ≡ client.wsa_ready
  pub unchecked : after.crc_disabled ≡ client.crc_disabled
  pub bounded : length client.recv_buffer ≤ recv_capacity → length after.recv_buffer ≤ recv_capacity

module _ {Socket : Type 0} where
  pub IsKept-refl : (client : ProtoClient Socket) → IsKept client client
  IsKept-refl client = record { socket = refl; ready = refl; unchecked = refl; bounded = λ h. h }

  pub IsKept-trans : {a b c : ProtoClient Socket} → IsKept a b → IsKept b c → IsKept a c
  IsKept-trans h k = record {
    socket = k.socket ∙ h.socket;
    ready = k.ready ∙ h.ready;
    unchecked = k.unchecked ∙ h.unchecked;
    bounded = λ n. k.bounded (h.bounded n);
  }

  -- An error and the buffer are neither.
  pub set_error-IsKept :
      (client : ProtoClient Socket) (t : Text) → IsKept client (set_error client t)
  unfolding set_error
  set_error-IsKept client t = record {
    socket = refl;
    ready = refl;
    unchecked = refl;
    bounded = λ h. h;
  }

  buffer-IsKept :
      (client : ProtoClient Socket) (t : Text)
      → (length client.recv_buffer ≤ recv_capacity → length t ≤ recv_capacity)
      → IsKept client (record client { recv_buffer = t })
  buffer-IsKept client t fits = record {
    socket = refl;
    ready = refl;
    unchecked = refl;
    bounded = fits;
  }

  drop-IsKept :
      (client : ProtoClient Socket) (n : ℕ)
      → IsKept client (record client { recv_buffer = drop n client.recv_buffer })
  drop-IsKept client n =
      buffer-IsKept client (drop n client.recv_buffer)
        (λ h. omega (arith, length-drop n client.recv_buffer))

module _ (w : Winsock) (stream : IsStream w) where
  receive-IsKept : (client : Client w) (n : ℕ) → IsKept client (receive w client n).1
  unfolding receive
  receive-IsKept client n = receive_at-IsKept client.socket_handle refl
    where
      receive_at-IsKept :
          (o : Option w.Socket)
          → client.socket_handle ≡ o
          → IsKept client (receive_at w client n o).1
      receive_at-IsKept none e = IsKept-refl client
      receive_at-IsKept (some s) e = record {
        socket = rw e;
        ready = refl;
        unchecked = refl;
        bounded = λ h. h;
      }

  transmit-IsKept : (client : Client w) (buffer : Text) → IsKept client (transmit w client buffer).1
  unfolding transmit
  transmit-IsKept client buffer = transmit_at-IsKept client.socket_handle refl
    where
      transmit_at-IsKept :
          (o : Option w.Socket)
          → client.socket_handle ≡ o
          → IsKept client (transmit_at w client buffer o).1
      transmit_at-IsKept none e = IsKept-refl client
      transmit_at-IsKept (some s) e = record {
        socket = rw e;
        ready = refl;
        unchecked = refl;
        bounded = λ h. h;
      }

  extend_line-IsKept :
      (more : Client w → Option Text × Client w) (client : Client w) (n : ℕ)
      → length client.recv_buffer + n ≤ recv_capacity
      → ((again : Client w) → IsKept again (more again).1)
      → (r : Option Text × Client w) → receive w client n ≡ r
      → IsKept client (extend_line w more r).1
  unfolding extend_line
  extend_line-IsKept more client n room h (none, after) e =
      IsKept-trans (rw e at (receive-IsKept client n)) (set_error-IsKept after _)
  extend_line-IsKept more client n room h (some xs, after) e =
      let got : (receive w client n).0 ≡ some xs = ap (λ p. p.0) e in
      let (some_more, most, came, kept, out) = rw e at (receive-some w stream client n got) in
      IsKept-trans (rw e at (receive-IsKept client n)) (
        IsKept-trans
          (buffer-IsKept after (after.recv_buffer ++ xs)
            (λ _. omega (arith, length-append after.recv_buffer xs, ap length kept)))
          (h _))

  read_line_round-IsKept :
      (more : Client w → Option Text × Client w) (client : Client w) (capacity : ℕ)
      (found : Option ℕ)
      → ((again : Client w) → IsKept again (more again).1)
      → IsKept client (read_line_round w more client capacity found).1
  unfolding read_line_round take_line
  read_line_round-IsKept more client capacity (some index) h =
      elim (Bool-cases (ltb capacity (line_length client.recv_buffer index + 1))) [
        | inl long ↦ rw long (set_error-IsKept client _)
        | inr fits ↦ rw fits (drop-IsKept client (index + 1))
      ]
  read_line_round-IsKept more client capacity none h =
      elim (Bool-cases (leb recv_capacity (length client.recv_buffer))) [
        | inl full ↦ rw full (set_error-IsKept client _)
        | inr room ↦
            let n = recv_capacity - length client.recv_buffer in
            rw room (extend_line-IsKept more client n (ground arith) h (receive w client n) refl)
      ]

  read_line_loop-IsKept :
      (rounds : ℕ) (client : Client w) (capacity : ℕ)
      → IsKept client (read_line_loop w rounds client capacity).1
  unfolding read_line_loop
  read_line_loop-IsKept zero client capacity = IsKept-refl client
  read_line_loop-IsKept (suc rounds) client capacity =
      read_line_round-IsKept (λ again. read_line_loop w rounds again capacity) client capacity
        (newline_index client.recv_buffer) (λ again. read_line_loop-IsKept rounds again capacity)

  pub read_line-IsKept :
      (client : Client w) (capacity : ℕ) → IsKept client (read_line w client capacity).1
  unfolding read_line
  read_line-IsKept client capacity = elim (Bool-cases (capacity == 0)) [
    | inl e ↦ rw e (set_error-IsKept client _)
    | inr e ↦ rw e (read_line_loop-IsKept (suc recv_capacity) client capacity)
  ]

  extend_exact-IsKept :
      (more : Client w → Text → Option Text × Client w) (buffer : Text) (r : Option Text × Client w)
      → ((again : Client w) (copied : Text) → IsKept again (more again copied).1)
      → IsKept r.1 (extend_exact w more buffer r).1
  unfolding extend_exact
  extend_exact-IsKept more buffer (none, client) h = set_error-IsKept client _
  extend_exact-IsKept more buffer (some xs, client) h = h client (buffer ++ xs)

  read_exact_round-IsKept :
      (more : Client w → Text → Option Text × Client w) (client : Client w) (buffer : Text)
      (total : ℕ)
      → ((again : Client w) (copied : Text) → IsKept again (more again copied).1)
      → IsKept client (read_exact_round w more client buffer total).1
  unfolding read_exact_round
  read_exact_round-IsKept more client buffer total h =
      let own = client.recv_buffer in
      let missing = total - length buffer in
      let chunk = min (length own) missing in
      elim (Bool-cases (leb total (length buffer))) [
        | inl full ↦ rw full (IsKept-refl client)
        | inr short ↦ elim (Bool-cases (ltb 0 (length own))) [
          | inl some_own ↦ rw (short, some_own) (IsKept-trans (drop-IsKept client chunk) (h _ _))
          | inr none_own ↦
              rw (short, none_own)
                (IsKept-trans (receive-IsKept client (min 8192 missing))
                  (extend_exact-IsKept more buffer (receive w client (min 8192 missing)) h))
        ]
      ]

  read_exact_loop-IsKept :
      (rounds : ℕ) (client : Client w) (buffer : Text) (total : ℕ)
      → IsKept client (read_exact_loop w rounds client buffer total).1
  unfolding read_exact_loop
  read_exact_loop-IsKept zero client buffer total = IsKept-refl client
  read_exact_loop-IsKept (suc rounds) client buffer total =
      read_exact_round-IsKept (λ again copied. read_exact_loop w rounds again copied total) client
        buffer total (λ again copied. read_exact_loop-IsKept rounds again copied total)

  pub read_exact-IsKept :
      (client : Client w) (total : ℕ) → IsKept client (read_exact w client total).1
  unfolding read_exact
  read_exact-IsKept client total = read_exact_loop-IsKept (suc total) client [] total

  resume-IsKept :
      (more : Client w → Text → Bool × Client w) (buffer : Text) (r : Option ℕ × Client w)
      → ((again : Client w) (rest : Text) → IsKept again (more again rest).1)
      → IsKept r.1 (resume w more buffer r).1
  unfolding resume
  resume-IsKept more buffer (none, client) h = set_error-IsKept client _
  resume-IsKept more buffer (some n, client) h = h client (drop n buffer)

  send_loop-IsKept :
      (rounds : ℕ) (client : Client w) (buffer : Text)
      → IsKept client (send_loop w rounds client buffer).1
  unfolding send_loop
  send_loop-IsKept zero client buffer = IsKept-refl client
  send_loop-IsKept (suc rounds) client buffer = elim (Bool-cases (is_empty buffer)) [
    | inl done ↦ rw done (IsKept-refl client)
    | inr more ↦ rw more (
        IsKept-trans (transmit-IsKept client buffer) (
          resume-IsKept (send_loop w rounds) buffer (transmit w client buffer)
            (λ again rest. send_loop-IsKept rounds again rest)))
  ]

  pub send_all-IsKept :
      (client : Client w) (buffer : Text) → IsKept client (send_all w client buffer).1
  unfolding send_all
  send_all-IsKept client buffer = send_loop-IsKept (suc (length buffer)) client buffer

  pub send_line-IsKept :
      (client : Client w) (line : Text) → IsKept client (send_line w client line).1
  unfolding send_line
  send_line-IsKept client line = elim (Bool-cases (send_all w client line).0) [
    | inl sent ↦
        rw sent
          (IsKept-trans (send_all-IsKept client line) (send_all-IsKept _ (b'\r' ∷ b'\n' ∷ [])))
    | inr stopped ↦ rw stopped (send_all-IsKept client line)
  ]
