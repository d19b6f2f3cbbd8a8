-- ===== src/Wire/Stream.antt =====
-- The client's end of the connection as a stream: what it has buffered and what is to come.
use win16sync.Prelude.{
  ℕ, ◌≤◌, ◌<◌, ◌≡◌, ◌≢◌, refl, ap, sym, ◌∙◌, none, some, [], ◌++◌, length, take, Text, Option-cases,
  inl, inr,
}
use win16sync.Winsock.{Winsock, IsStream, StaysUp, Accepts}
use win16sync.Wire.{Client, receive_at, receive, transmit_at, transmit}

module _ (w : Winsock) (stream : IsStream w) where
  -- The bytes on their way to the client.
  abbrev pub coming : Client w → Text
  coming client = elim client.socket_handle [ none ↦ [] | some s ↦ stream.pending s ]

  -- All that the client can still read.
  abbrev pub input : Client w → Text
  input client = client.recv_buffer ++ coming client

  -- All that the client has sent.
  abbrev pub output : Client w → Text
  output client = elim client.socket_handle [ none ↦ [] | some s ↦ stream.accepted s ]

  module _ (client : Client w) (s : w.Socket) (opened : client.socket_handle ≡ some s) where
    coming_on : coming client ≡ stream.pending s
    coming_on = rw (opened, coming)

    output_on : output client ≡ stream.accepted s
    output_on = rw (opened, output)

    receive_on :
        (n : ℕ)
        → receive w client n
          ≡ ((w.recv s n).0, record client { socket_handle = some (w.recv s n).1 })
    unfolding receive
    receive_on n = ap (receive_at w client n) opened

    transmit_on :
        (xs : Text)
        → transmit w client xs
          ≡ ((w.send s xs).0, record client { socket_handle = some (w.send s xs).1 })
    unfolding transmit
    transmit_on xs = ap (transmit_at w client xs) opened

  module _ (client : Client w) (closed : client.socket_handle ≡ none) where
    receive_off : (n : ℕ) → receive w client n ≡ (none, client)
    unfolding receive
    receive_off n = ap (receive_at w client n) closed

    transmit_off : (xs : Text) → transmit w client xs ≡ (none, client)
    unfolding transmit
    transmit_off xs = ap (transmit_at w client xs) closed

    coming_off : coming client ≡ []
    coming_off = rw (closed, coming)

  pub receive-some :
      (client : Client w) (n : ℕ) {xs : Text}
      → (receive w client n).0 ≡ some xs
      → let after = (receive w client n).1 in
        (0 < length xs)
        × (length xs ≤ n)
        × (coming client ≡ xs ++ coming after)
        × (after.recv_buffer ≡ client.recv_buffer)
        × (output after ≡ output client)
  receive-some client n {xs} e = elim (Option-cases client.socket_handle) [
    | inl closed ↦ absurd (cc (receive_off client closed n, e))
    | inr (s, opened) ↦
        let r = receive_on client s opened n in
        let e' : (w.recv s n).0 ≡ some xs = sym (ap (λ p. p.0) r) ∙ e in
        let (more, most, pending, accepted) = stream.recv_some s n (λ i. (e' i, (w.recv s n).1)) in
        rw r (
          more,
          most,
          coming_on client s opened ∙ pending,
          refl,
          accepted ∙ sym (output_on client s opened),
        )
  ]

  pub receive-none :
      (client : Client w) (n : ℕ)
      → (receive w client n).0 ≡ none
      → let after = (receive w client n).1 in
        (coming after ≡ coming client)
        × (after.recv_buffer ≡ client.recv_buffer)
        × (output after ≡ output client)
  receive-none client n e = elim (Option-cases client.socket_handle) [
    | inl closed ↦ rw (receive_off client closed n) (refl, refl, refl)
    | inr (s, opened) ↦
        let r = receive_on client s opened n in
        let e' : (w.recv s n).0 ≡ none = sym (ap (λ p. p.0) r) ∙ e in
        let (pending, accepted) = stream.recv_none s n (λ i. (e' i, (w.recv s n).1)) in
        rw r (
          pending ∙ sym (coming_on client s opened),
          refl,
          accepted ∙ sym (output_on client s opened),
        )
  ]

  -- While the connection stays up, nothing is received only when nothing is to come.
  pub receive_end :
      (client : Client w) (n : ℕ)
      → StaysUp w stream
      → 0 < n
      → (receive w client n).0 ≡ none
      → coming client ≡ []
  receive_end client n up room e = elim (Option-cases client.socket_handle) [
    | inl closed ↦ coming_off client closed
    | inr (s, opened) ↦
        let r = receive_on client s opened n in
        let e' : (w.recv s n).0 ≡ none = sym (ap (λ p. p.0) r) ∙ e in
        coming_on client s opened ∙ up s n (w.recv s n).1 room (λ i. (e' i, (w.recv s n).1))
  ]

  pub transmit-some :
      (client : Client w) (xs : Text) {n : ℕ}
      → (transmit w client xs).0 ≡ some n
      → let after = (transmit w client xs).1 in
        (0 < n)
        × (n ≤ length xs)
        × (output after ≡ output client ++ take n xs)
        × (input after ≡ input client)
  transmit-some client xs {n} e = elim (Option-cases client.socket_handle) [
    | inl closed ↦ absurd (cc (transmit_off client closed xs, e))
    | inr (s, opened) ↦
        let r = transmit_on client s opened xs in
        let e' : (w.send s xs).0 ≡ some n = sym (ap (λ p. p.0) r) ∙ e in
        let (more, most, accepted, pending) =
          stream.send_some s xs (λ i. (e' i, (w.send s xs).1)) in
        rw r (
          more,
          most,
          accepted ∙ ap (λ t. t ++ take n xs) (sym (output_on client s opened)),
          ap (◌++◌ client.recv_buffer) (pending ∙ sym (coming_on client s opened)),
        )
  ]

  pub transmit-none :
      (client : Client w) (xs : Text)
      → (transmit w client xs).0 ≡ none
      → let after = (transmit w client xs).1 in
        (output after ≡ output client) × (input after ≡ input client)
  transmit-none client xs e = elim (Option-cases client.socket_handle) [
    | inl closed ↦ rw (transmit_off client closed xs) (refl, refl)
    | inr (s, opened) ↦
        let r = transmit_on client s opened xs in
        let e' : (w.send s xs).0 ≡ none = sym (ap (λ p. p.0) r) ∙ e in
        let (accepted, pending) = stream.send_none s xs (λ i. (e' i, (w.send s xs).1)) in
        rw r (
          accepted ∙ sym (output_on client s opened),
          ap (◌++◌ client.recv_buffer) (pending ∙ sym (coming_on client s opened)),
        )
  ]

  pub transmit_open :
      (client : Client w) (xs : Text) {n : ℕ}
      → (transmit w client xs).0 ≡ some n
      → (transmit w client xs).1.socket_handle ≢ none
  transmit_open client xs {n} e off = elim (Option-cases client.socket_handle) [
    | inl closed ↦ cc (transmit_off client closed xs, e)
    | inr (s, opened) ↦
        cc (sym (ap (λ p. p.1.socket_handle) (transmit_on client s opened xs)) ∙ off)
  ]

  -- While the connection takes what is sent, sending fails only with no socket.
  pub transmit_end :
      (client : Client w) (xs : Text)
      → Accepts w
      → 0 < length xs
      → (transmit w client xs).0 ≡ none
      → client.socket_handle ≡ none
  transmit_end client xs accepts more e = elim (Option-cases client.socket_handle) [
    | inl closed ↦ closed
    | inr (s, opened) ↦
        let r = transmit_on client s opened xs in
        let e' : (w.send s xs).0 ≡ none = sym (ap (λ p. p.0) r) ∙ e in
        absurd (accepts s xs (w.send s xs).1 more (λ i. (e' i, (w.send s xs).1)))
  ]
