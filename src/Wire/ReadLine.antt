-- ===== src/Wire/ReadLine.antt =====
-- proto_read_line against the stream of the connection.
use win16sync.Prelude.{
  ℕ, zero, suc, ◌+◌, ◌-◌, ◌≤◌, ◌<◌, ◌≡◌, refl, ap, sym, ◌∙◌, Option, none, some, [], ◌∷◌, ◌++◌, ltb,
  leb, ◌==◌, if◌then◌else◌, length, take, drop, Text, arith, Bool-cases, inl, inr, length-append,
  append_assoc, length-drop, length-take,
}
use win16sync.Client.{set_error}
use win16sync.Winsock.{Winsock, IsStream}
use win16sync.Wire.{
  recv_capacity, newline_index, line_length, Client, receive, take_line, extend_line,
  read_line_round, read_line_loop, read_line,
}
use win16sync.Wire.Newline.{HasNoNewline, newline_index-some}
use win16sync.Wire.Stream.{coming, input, output, receive-some, receive-none}

-- A line without one carriage return at its end.
abbrev pub strip_cr : Text → Text
strip_cr [] = []
strip_cr (c ∷ []) = if c == b'\r' then [] else c ∷ []
strip_cr (c ∷ d ∷ raw) = c ∷ strip_cr (d ∷ raw)

-- The line that is taken from the buffer is what stands before the newline.
pub taken_line :
    (buffer : Text) (index : ℕ)
    → index < length buffer
    → take (line_length buffer index) buffer ≡ strip_cr (take index buffer)
taken_line buffer zero inside = refl
taken_line [] (suc index) inside = absurd (omega arith)
taken_line (c ∷ buffer) (suc zero) inside = elim (Bool-cases (c == b'\r')) [
  | inl e ↦ rw e refl
  | inr e ↦ rw e refl
]
taken_line (c ∷ []) (suc (suc index)) inside = absurd (omega arith)
taken_line (c ∷ d ∷ buffer) (suc (suc index)) inside =
    let shift : line_length (c ∷ d ∷ buffer) (suc (suc index))
        ≡ suc (line_length (d ∷ buffer) (suc index)) =
      ground arith in
    ap (λ n. take n (c ∷ d ∷ buffer)) shift
    ∙ ap (◌∷◌ c) (taken_line (d ∷ buffer) (suc index) (omega arith))

pub line_length-le : (buffer : Text) (index : ℕ) → line_length buffer index ≤ index
line_length-le buffer index = ground arith

module _ (w : Winsock) (stream : IsStream w) where
  -- The buffer of a client between two calls.
  abbrev pub IsBounded : Client w → Type 0
  IsBounded client = length client.recv_buffer ≤ recv_capacity

  -- What a call of proto_read_line has done. A line was next in the stream, up to and with its
  -- newline; or nothing was taken from the stream.
  abbrev pub ReadsLine : Client w → ℕ → Option Text × Client w → Type 0
  ReadsLine client capacity (some line, after) =
      ((raw : Text) × (input w stream client ≡ raw ++ b'\n' ∷ input w stream after)
        × HasNoNewline raw
        × (line ≡ strip_cr raw))
      × (length line < capacity)
      × IsBounded after
      × (output w stream after ≡ output w stream client)
  ReadsLine client capacity (none, after) =
      (input w stream after ≡ input w stream client)
      × IsBounded after
      × (output w stream after ≡ output w stream client)

  -- Only the client's streams matter.
  ReadsLine-same :
      (client again : Client w) (capacity : ℕ) (r : Option Text × Client w)
      → input w stream again ≡ input w stream client
      → output w stream again ≡ output w stream client
      → ReadsLine again capacity r
      → ReadsLine client capacity r
  ReadsLine-same client again capacity (some line, after) i o
        ((raw, next, clean, line_is), fits, b, out) =
      ((raw, sym i ∙ next, clean, line_is), fits, b, out ∙ o)
  ReadsLine-same client again capacity (none, after) i o (next, b, out) = (next ∙ i, b, out ∙ o)

  take_line-ReadsLine :
      (client : Client w) (capacity index : ℕ)
      → IsBounded client
      → newline_index client.recv_buffer ≡ some index
      → ReadsLine client capacity (take_line w client capacity index)
  unfolding take_line set_error
  take_line-ReadsLine client capacity index bounded found =
      let buffer = client.recv_buffer in
      let n = line_length buffer index in
      let (around, clean, inside) = newline_index-some buffer index found in
      elim (Bool-cases (ltb capacity (n + 1))) [
        | inl long ↦ rw (long) (refl, bounded, refl)
        | inr fits ↦ rw (fits) (
          (
            take index buffer,
            ap (λ t. t ++ coming w stream client) around
                ∙ append_assoc (take index buffer) (b'\n' ∷ drop (index + 1) buffer)
                    (coming w stream client),
            clean,
            taken_line buffer index inside,
          ),
          grind (arith, length-take n buffer, line_length-le buffer index),
          omega (arith, length-drop (index + 1) buffer),
          refl,
        )
      ]

  extend_line-ReadsLine :
      (more : Client w → Option Text × Client w) (client : Client w) (capacity n : ℕ)
      → ((again : Client w) → IsBounded again → ReadsLine again capacity (more again))
      → length client.recv_buffer + n ≤ recv_capacity
      → (received : Option Text × Client w) → receive w client n ≡ received
      → ReadsLine client capacity (extend_line w more received)
  unfolding extend_line set_error
  extend_line-ReadsLine more client capacity n more_lem room (none, after) e =
      let failed : (receive w client n).0 ≡ none = ap (λ p. p.0) e in
      let (same, kept, out) = rw e at (receive-none w stream client n failed) in
      (
        ap (λ t. t ++ coming w stream after) kept ∙ ap (◌++◌ client.recv_buffer) same,
        rw kept (omega arith),
        out,
      )
  extend_line-ReadsLine more client capacity n more_lem room (some xs, after) e =
      let got : (receive w client n).0 ≡ some xs = ap (λ p. p.0) e in
      let (some_more, most, came, kept, out) = rw e at (receive-some w stream client n got) in
      let again = record after { recv_buffer = after.recv_buffer ++ xs } in
      ReadsLine-same client again capacity (more again)
        (ap (λ t. (t ++ xs) ++ coming w stream after) kept
          ∙ append_assoc client.recv_buffer xs (coming w stream after)
          ∙ ap (◌++◌ client.recv_buffer) (sym came))
        out (more_lem again (omega (arith, length-append after.recv_buffer xs, ap length kept)))

  read_line_round-ReadsLine :
      (more : Client w → Option Text × Client w) (client : Client w) (capacity : ℕ)
      → ((again : Client w) → IsBounded again → ReadsLine again capacity (more again))
      → IsBounded client
      → (found : Option ℕ) → newline_index client.recv_buffer ≡ found
      → ReadsLine client capacity (read_line_round w more client capacity found)
  unfolding read_line_round set_error
  read_line_round-ReadsLine more client capacity more_lem bounded (some index) e =
      take_line-ReadsLine client capacity index bounded e
  read_line_round-ReadsLine more client capacity more_lem bounded none e =
      elim (Bool-cases (leb recv_capacity (length client.recv_buffer))) [
        | inl full ↦ rw (full) (refl, bounded, refl)
        | inr room ↦ rw (room) (
            extend_line-ReadsLine more client capacity (recv_capacity - length client.recv_buffer)
              more_lem (omega arith) (receive w client (recv_capacity - length client.recv_buffer))
              refl)
      ]

  pub read_line_loop-ReadsLine :
      (rounds : ℕ) (client : Client w) (capacity : ℕ)
      → IsBounded client
      → ReadsLine client capacity (read_line_loop w rounds client capacity)
  unfolding read_line_loop
  read_line_loop-ReadsLine zero client capacity bounded = (refl, bounded, refl)
  read_line_loop-ReadsLine (suc rounds) client capacity bounded =
      read_line_round-ReadsLine (λ again. read_line_loop w rounds again capacity) client capacity
        (λ again h. read_line_loop-ReadsLine rounds again capacity h) bounded
        (newline_index client.recv_buffer) refl

  -- Each call of proto_read_line, on any socket, with at most 1024 bytes buffered: either it
  -- returns the next line of the stream, without its line end, and takes just that line with its
  -- newline from the stream; the line fits into the caller's buffer with its terminator. Or it
  -- fails and takes nothing from the stream. Both keep the receive buffer within its size and send
  -- nothing.
  pub read_line-ReadsLine :
      (client : Client w) (capacity : ℕ)
      → IsBounded client
      → ReadsLine client capacity (read_line w client capacity)
  unfolding read_line set_error
  read_line-ReadsLine client capacity bounded = elim (Bool-cases (capacity == 0)) [
    | inl e ↦ rw e (refl, bounded, refl)
    | inr e ↦ rw e (read_line_loop-ReadsLine 1025 client capacity bounded)
  ]
