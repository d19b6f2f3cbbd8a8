-- ===== src/Wire/Arrival.antt =====
-- proto_read_line while the connection stays up: a line that is on its way is read.
use win16sync.Prelude.{
  ℕ, zero, suc, ◌+◌, ◌-◌, ◌≤◌, ◌<◌, ◌≡◌, ◌≢◌, refl, ap, sym, ◌∙◌, false, Option, none, some, [],
  ◌∷◌, ◌++◌, ltb, leb, ◌==◌, length, take, drop, Text, arith, Option-cases, inl, inr, length-append,
  append_assoc, length-take,
}
use win16sync.Winsock.{Winsock, IsStream, StaysUp}
use win16sync.Wire.{
  recv_capacity, newline_index, line_length, Client, receive, take_line, extend_line,
  read_line_round, read_line_loop, read_line,
}
use win16sync.Wire.Newline.{
  HasNoNewline, newline_index-none, newline_index-some, first_newline, no_newline_le,
}
use win16sync.Wire.Stream.{coming, input, receive-some, receive_end}
use win16sync.Wire.ReadLine.{
  strip_cr, taken_line, line_length-le, IsBounded, ReadsLine, read_line-ReadsLine,
}

module _ (w : Winsock) (stream : IsStream w) (up : StaysUp w stream) (raw rest : Text)
    (clean : HasNoNewline raw) where
  -- The line is next in what the client can read.
  abbrev pub IsNext : Client w → Type 0
  IsNext client = input w stream client ≡ raw ++ b'\n' ∷ rest

  module _ (capacity : ℕ) (short : length raw < recv_capacity)
      (fits : length (strip_cr raw) < capacity) where
    take_line-arrives :
        (client : Client w) (index : ℕ)
        → IsNext client
        → newline_index client.recv_buffer ≡ some index
        → (take_line w client capacity index).0 ≡ some (strip_cr raw)
    unfolding take_line
    take_line-arrives client index next found =
        let buffer = client.recv_buffer in
        let (around, before, inside) = newline_index-some buffer index found in
        let same =
          first_newline raw rest (take index buffer)
            (drop (index + 1) buffer ++ coming w stream client) clean before
            (sym next
              ∙ ap (λ t. t ++ coming w stream client) around
              ∙ append_assoc (take index buffer) (b'\n' ∷ drop (index + 1) buffer)
                  (coming w stream client)) in
        let line = taken_line buffer index inside ∙ ap strip_cr (sym same.0) in
        let room : ltb capacity (line_length buffer index + 1) ≡ false = ground (
          arith,
          ap length line,
          length-take (line_length buffer index) buffer,
          line_length-le buffer index,
        ) in
        rw (room) (ap some line)

    extend_line-arrives :
        (more : Client w → Option Text × Client w) (client : Client w) (n : ℕ)
        → ((again : Client w)
            → IsNext again
            → length client.recv_buffer < length again.recv_buffer
            → IsBounded w stream again
            → (more again).0 ≡ some (strip_cr raw))
        → IsNext client
        → coming w stream client ≢ []
        → 0 < n
        → length client.recv_buffer + n ≤ recv_capacity
        → (received : Option Text × Client w) → receive w client n ≡ received
        → (extend_line w more received).0 ≡ some (strip_cr raw)
    unfolding extend_line
    extend_line-arrives more client n more_lem next awaited room bounded (none, after) e =
        absurd (awaited (receive_end w stream client n up room (ap (λ p. p.0) e)))
    extend_line-arrives more client n more_lem next awaited room bounded (some xs, after) e =
        let got : (receive w client n).0 ≡ some xs = ap (λ p. p.0) e in
        let (some_more, most, came, kept, out) = rw e at (receive-some w stream client n got) in
        let again = record after { recv_buffer = after.recv_buffer ++ xs } in
        let longer = length-append after.recv_buffer xs in
        let same = ap length kept in
        more_lem again
          (ap (λ t. (t ++ xs) ++ coming w stream after) kept
            ∙ append_assoc client.recv_buffer xs (coming w stream after)
            ∙ ap (◌++◌ client.recv_buffer) (sym came)
            ∙ next)
          (omega (arith, longer, same)) (omega (arith, longer, same))

    read_line_loop-arrives :
        (rounds : ℕ) (client : Client w)
        → recv_capacity < rounds + length client.recv_buffer
        → IsBounded w stream client
        → IsNext client
        → (read_line_loop w rounds client capacity).0 ≡ some (strip_cr raw)
    unfolding read_line_loop read_line_round
    read_line_loop-arrives zero client enough bounded next = absurd (omega arith)
    read_line_loop-arrives (suc rounds) client enough bounded next =
        elim (Option-cases (newline_index client.recv_buffer)) [
          | inr (index, found) ↦ rw found (take_line-arrives client index next found)
          | inl missing ↦
              let buffer = client.recv_buffer in
              let (within, awaited) =
                no_newline_le buffer (coming w stream client) raw rest
                  (newline_index-none buffer missing) next in
              let room : leb recv_capacity (length buffer) ≡ false = ground arith in
              rw (missing, room)
                (extend_line-arrives (λ again. read_line_loop w rounds again capacity) client
                  (recv_capacity - length buffer)
                  (λ again n longer b. read_line_loop-arrives rounds again (omega arith) b n) next
                  awaited (omega arith) (omega arith)
                  (receive w client (recv_capacity - length buffer)) refl)
        ]

    read_line-returns :
        (client : Client w)
        → IsBounded w stream client
        → IsNext client
        → (read_line w client capacity).0 ≡ some (strip_cr raw)
    unfolding read_line
    read_line-returns client bounded next =
        let positive : (capacity == 0) ≡ false = ground arith in
        rw positive (read_line_loop-arrives 1025 client (omega arith) bounded next)

  next-rest :
      (client : Client w) (capacity : ℕ) {line : Text} (r : Option Text × Client w)
      → ReadsLine w stream client capacity r
      → IsNext client
      → r.0 ≡ some line
      → input w stream r.1 ≡ rest
  next-rest client capacity (none, after) reads next e = cc e
  next-rest client capacity (some line, after) ((raw', next', clean', line_is), fits, b, out) next
        e =
      sym (first_newline raw rest raw' (input w stream after) clean clean' (sym next ∙ next')).1

  -- While the connection stays up and at most 1024 bytes are buffered, a line of fewer than 1024
  -- bytes that is next in the stream and fits into the caller's buffer is read, without its line
  -- end, and the client goes on behind it.
  pub read_line-arrives :
      (client : Client w) (capacity : ℕ)
      → IsBounded w stream client
      → IsNext client
      → length raw < recv_capacity
      → length (strip_cr raw) < capacity
      → ((read_line w client capacity).0 ≡ some (strip_cr raw))
        × (input w stream (read_line w client capacity).1 ≡ rest)
  read_line-arrives client capacity bounded next short fits =
      let returned = read_line-returns capacity short fits client bounded next in
      (
        returned,
        next-rest client capacity (read_line w client capacity)
            (read_line-ReadsLine w stream client capacity bounded) next returned,
      )
