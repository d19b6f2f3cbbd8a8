-- ===== src/Wire/Send.antt =====
-- proto_send_all and proto_send_line against the stream of the connection.
use win16sync.Prelude.{
  ℕ, zero, suc, ◌+◌, ◌≤◌, ◌<◌, ◌≡◌, ◌≢◌, refl, ap, sym, ◌∙◌, Bool, true, false, Option, none, some,
  [], ◌∷◌, ◌++◌, if◌then◌else◌, length, take, drop, Text, arith, length-append, append_assoc,
  length-drop, take-append-drop, append-nil, take_add, take_append, take_front, drop_front,
}
use win16sync.Client.{set_error}
use win16sync.Winsock.{Winsock, IsStream, Accepts}
use win16sync.Wire.{Client, transmit, resume, send_loop, send_all, send_line}
use win16sync.Wire.Stream.{input, output, transmit-some, transmit-none, transmit_open, transmit_end}

module _ (w : Winsock) (stream : IsStream w) where
  -- What a call that sends `buffer` has done: all of it follows what was sent before; or the call
  -- failed with a part of it sent, for which the connection refused a byte or there was none.
  abbrev pub Sends : Client w → Text → Bool × Client w → Type 0
  Sends client buffer (true, after) =
      (output w stream after ≡ output w stream client ++ buffer)
      × (after.socket_handle ≡ none → client.socket_handle ≡ none)
      × (input w stream after ≡ input w stream client)
  Sends client buffer (false, after) =
      ((n : ℕ) × (n < length buffer)
        × (output w stream after ≡ output w stream client ++ take n buffer))
      × (Accepts w → client.socket_handle ≡ none)
      × (input w stream after ≡ input w stream client)

  -- The rest of a buffer after its first n bytes.
  Sends-rest :
      (client again : Client w) (buffer : Text) (n : ℕ) (r : Bool × Client w)
      → output w stream again ≡ output w stream client ++ take n buffer
      → input w stream again ≡ input w stream client
      → n ≤ length buffer
      → again.socket_handle ≢ none
      → Sends again (drop n buffer) r
      → Sends client buffer r
  Sends-rest client again buffer n (true, after) o i within live (out, keep, same) = (
    out
        ∙ ap (λ t. t ++ drop n buffer) o
        ∙ append_assoc (output w stream client) (take n buffer) (drop n buffer)
        ∙ ap (◌++◌ (output w stream client)) (take-append-drop n buffer),
    (λ closed. absurd (live (keep closed))),
    same ∙ i,
  )
  Sends-rest client again buffer n (false, after) o i within live ((m, part, out), off, same) = (
    (
      n + m,
      omega (arith, length-drop n buffer),
      out
          ∙ ap (λ t. t ++ take m (drop n buffer)) o
          ∙ append_assoc (output w stream client) (take n buffer) (take m (drop n buffer))
          ∙ ap (◌++◌ (output w stream client)) (sym (take_add n m buffer)),
    ),
    (λ accepts. absurd (live (off accepts))),
    same ∙ i,
  )

  resume-Sends :
      (more : Client w → Text → Bool × Client w) (client : Client w) (buffer : Text)
      → ((again : Client w) (rest : Text)
          → length rest < length buffer
          → Sends again rest (more again rest))
      → 0 < length buffer
      → (sent : Option ℕ × Client w) → transmit w client buffer ≡ sent
      → Sends client buffer (resume w more buffer sent)
  unfolding resume set_error
  resume-Sends more client buffer more_lem positive (none, after) e =
      let failed : (transmit w client buffer).0 ≡ none = ap (λ p. p.0) e in
      let (out, same) = rw e at (transmit-none w stream client buffer failed) in
      (
        (0, positive, out ∙ sym (append-nil (output w stream client))),
        (λ accepts. transmit_end w stream client buffer accepts positive failed),
        same,
      )
  resume-Sends more client buffer more_lem positive (some n, after) e =
      let taken : (transmit w client buffer).0 ≡ some n = ap (λ p. p.0) e in
      let (some_more, most, out, same) = rw e at (transmit-some w stream client buffer taken) in
      let live = rw e at (transmit_open w stream client buffer taken) in
      Sends-rest client after buffer n (more after (drop n buffer)) out same most live
        (more_lem after (drop n buffer) (omega (arith, length-drop n buffer)))

  pub send_loop-Sends :
      (rounds : ℕ) (client : Client w) (buffer : Text)
      → length buffer < rounds
      → Sends client buffer (send_loop w rounds client buffer)
  unfolding send_loop
  send_loop-Sends zero client buffer enough = absurd (omega arith)
  send_loop-Sends (suc rounds) client [] enough =
      (sym (append-nil (output w stream client)), (λ closed. closed), refl)
  send_loop-Sends (suc rounds) client (x ∷ xs) enough =
      resume-Sends (send_loop w rounds) client (x ∷ xs)
        (λ again rest shorter. send_loop-Sends rounds again rest (omega arith)) (omega arith)
        (transmit w client (x ∷ xs)) refl

  -- Each call of proto_send_all, on any socket: either the whole buffer has been sent, after what
  -- was sent before and in its order. Or the call fails with a proper part of the buffer sent from
  -- its front, and there was no socket or the connection refused. It receives nothing.
  pub send_all-Sends :
      (client : Client w) (buffer : Text) → Sends client buffer (send_all w client buffer)
  unfolding send_all
  send_all-Sends client buffer = send_loop-Sends (suc (length buffer)) client buffer (omega arith)

  -- A buffer after another on the same connection.
  Sends-more :
      (client again : Client w) (front back : Text) (r : Bool × Client w)
      → Sends client front (true, again)
      → Sends again back r
      → Sends client (front ++ back) r
  Sends-more client again front back (true, after) (o, keep, i) (out, keep', same) = (
    out ∙ ap (λ t. t ++ back) o ∙ append_assoc (output w stream client) front back,
    (λ closed. keep (keep' closed)),
    same ∙ i,
  )
  Sends-more client again front back (false, after) (o, keep, i) ((n, part, out), off, same) =
      let all = front ++ back in
      (
        (
          length front + n,
          omega (arith, length-append front back),
          out
              ∙ ap (λ t. t ++ take n back) o
              ∙ append_assoc (output w stream client) front (take n back)
              ∙ ap (◌++◌ (output w stream client)) (
                  sym (
                    take_add (length front) n all
                    ∙ ap (λ t. t ++ take n (drop (length front) all))
                        (take_front front back (length front) refl)
                    ∙ ap (λ t. front ++ take n t) (drop_front front back (length front) refl))),
        ),
        (λ accepts. keep (off accepts)),
        same ∙ i,
      )

  -- What the call has sent of a shorter buffer is part of a longer one.
  Sends-part :
      (client after : Client w) (front back : Text)
      → Sends client front (false, after)
      → Sends client (front ++ back) (false, after)
  Sends-part client after front back ((n, part, out), off, same) = (
    (
      n,
      omega (arith, length-append front back),
      out ∙ ap (◌++◌ (output w stream client)) (sym (take_append n front back (omega arith))),
    ),
    off,
    same,
  )

  send_line_after :
      (client : Client w) (line : Text) (sent : Bool × Client w)
      → send_all w client line ≡ sent
      → Sends client
          (line ++ b'\r' ∷ b'\n' ∷ [])
          (if sent.0 then send_all w sent.1 (b'\r' ∷ b'\n' ∷ []) else (false, sent.1))
  send_line_after client line (false, after) e =
      Sends-part client after line (b'\r' ∷ b'\n' ∷ []) (rw e at (send_all-Sends client line))
  send_line_after client line (true, again) e =
      Sends-more client again line (b'\r' ∷ b'\n' ∷ []) (send_all w again (b'\r' ∷ b'\n' ∷ []))
        (rw e at (send_all-Sends client line)) (send_all-Sends again (b'\r' ∷ b'\n' ∷ []))

  -- Each call of proto_send_line: the line and a carriage return and newline have been sent whole;
  -- or the call fails with a proper part of that sent from its front, and there was no socket or
  -- the connection refused. It receives nothing.
  pub send_line-Sends :
      (client : Client w) (line : Text)
      → Sends client (line ++ b'\r' ∷ b'\n' ∷ []) (send_line w client line)
  unfolding send_line
  send_line-Sends client line = send_line_after client line (send_all w client line) refl
