-- ===== src/Wire/ReadExact.antt =====
-- proto_read_exact against the stream of the connection.
use win16sync.Prelude.{
  ℕ, zero, suc, ◌+◌, ◌-◌, ◌≤◌, ◌<◌, ◌≡◌, refl, ap, sym, ◌∙◌, min, false, Option, none, some, [],
  ◌∷◌, ◌++◌, ltb, leb, length, take, drop, Text, arith, Bool-cases, inl, inr, length-append,
  append_assoc, length-take, take-append-drop,
}
use win16sync.Client.{set_error}
use win16sync.Winsock.{Winsock, IsStream, StaysUp}
use win16sync.Wire.{Client, receive, extend_exact, read_exact_round, read_exact_loop, read_exact}
use win16sync.Wire.Stream.{coming, input, output, receive-some, receive-none, receive_end}

no_bytes : (xs : Text) → ltb 0 (length xs) ≡ false → xs ≡ []
no_bytes [] e = refl
no_bytes (x ∷ xs) e = ground arith

module _ (w : Winsock) (stream : IsStream w) (total : ℕ) where
  -- What a call has done that had `buffer` already: `total` bytes are there, all of them from the
  -- stream in its order. A call that fails has taken the bytes that it copied, and while the
  -- connection stays up it fails only when the stream ends before.
  abbrev pub ReadsExact : Client w → Text → Option Text × Client w → Type 0
  ReadsExact client buffer (some block, after) =
      (length block ≡ total)
      × (buffer ++ input w stream client ≡ block ++ input w stream after)
      × (output w stream after ≡ output w stream client)
  ReadsExact client buffer (none, after) =
      ((lost : Text) × (buffer ++ input w stream client ≡ lost ++ input w stream after)
        × (length lost < total))
      × (StaysUp w stream → length (buffer ++ input w stream client) < total)
      × (output w stream after ≡ output w stream client)

  ReadsExact-same :
      (client again : Client w) (buffer buffer' : Text) (r : Option Text × Client w)
      → buffer ++ input w stream client ≡ buffer' ++ input w stream again
      → output w stream again ≡ output w stream client
      → ReadsExact again buffer' r
      → ReadsExact client buffer r
  ReadsExact-same client again buffer buffer' (some block, after) i o (n, all, out) =
      (n, i ∙ all, out ∙ o)
  ReadsExact-same client again buffer buffer' (none, after) i o ((lost, all, n), ended, out) =
      ((lost, i ∙ all, n), (λ up. rw i (ended up)), out ∙ o)

  -- What the rounds after this one do.
  abbrev IsReader : (Client w → Text → Option Text × Client w) → ℕ → Type 0
  IsReader more n =
      (again : Client w) (copied : Text)
      → n < length copied
      → length copied ≤ total
      → ReadsExact again copied (more again copied)

  extend_exact-ReadsExact :
      (more : Client w → Text → Option Text × Client w) (client : Client w) (buffer : Text) (n : ℕ)
      → IsReader more (length buffer)
      → client.recv_buffer ≡ []
      → length buffer + n ≤ total
      → 0 < n
      → length buffer < total
      → (received : Option Text × Client w) → receive w client n ≡ received
      → ReadsExact client buffer (extend_exact w more buffer received)
  unfolding extend_exact set_error
  extend_exact-ReadsExact more client buffer n reader empty room positive short (none, after) e =
      let failed : (receive w client n).0 ≡ none = ap (λ p. p.0) e in
      let (same, kept, out) = rw e at (receive-none w stream client n failed) in
      (
        (
          buffer,
          ap (◌++◌ buffer) (
              ap (λ t. t ++ coming w stream client) (sym kept)
              ∙ ap (◌++◌ after.recv_buffer) (sym same)),
          short,
        ),
        (λ up.
            let nothing = receive_end w stream client n up positive failed in
            omega (
              arith,
              ap length (ap (λ t. buffer ++ (t ++ coming w stream client)) empty),
              ap length (ap (◌++◌ buffer) nothing),
              length-append buffer [],
            )),
        out,
      )
  extend_exact-ReadsExact more client buffer n reader empty room positive short (some xs, after) e =
      let got : (receive w client n).0 ≡ some xs = ap (λ p. p.0) e in
      let (some_more, most, came, kept, out) = rw e at (receive-some w stream client n got) in
      let longer = length-append buffer xs in
      ReadsExact-same client after buffer (buffer ++ xs) (more after (buffer ++ xs))
        (ap (λ t. buffer ++ (t ++ coming w stream client)) empty
          ∙ ap (◌++◌ buffer) came
          ∙ sym (append_assoc buffer xs (coming w stream after))
          ∙ ap (λ t. (buffer ++ xs) ++ (t ++ coming w stream after)) (sym (kept ∙ empty)))
        out (reader after (buffer ++ xs) (omega (arith, longer)) (omega (arith, longer)))

  read_exact_round-ReadsExact :
      (more : Client w → Text → Option Text × Client w) (client : Client w) (buffer : Text)
      → IsReader more (length buffer)
      → length buffer ≤ total
      → ReadsExact client buffer (read_exact_round w more client buffer total)
  unfolding read_exact_round
  read_exact_round-ReadsExact more client buffer reader within =
      let own = client.recv_buffer in
      let missing = total - length buffer in
      let chunk = min (length own) missing in
      elim (Bool-cases (leb total (length buffer))) [
        | inl full ↦ rw full (ground arith, refl, refl)
        | inr short ↦ elim (Bool-cases (ltb 0 (length own))) [
          | inl some_own ↦
              let again = record client { recv_buffer = drop chunk own } in
              let longer = length-append buffer (take chunk own) in
              let some_copied = length-take chunk own in
              rw (short, some_own)
                (ReadsExact-same client again buffer (buffer ++ take chunk own)
                  (more again (buffer ++ take chunk own))
                  (ap (λ t. buffer ++ (t ++ coming w stream client))
                      (sym (take-append-drop chunk own))
                    ∙ ap (◌++◌ buffer)
                        (append_assoc (take chunk own) (drop chunk own) (coming w stream client))
                    ∙ sym (
                        append_assoc buffer (take chunk own)
                          (drop chunk own ++ coming w stream client)))
                  refl
                  (reader again (buffer ++ take chunk own) (ground (arith, longer, some_copied))
                    (ground (arith, longer, some_copied))))
          | inr none_own ↦
              rw (short, none_own)
                (extend_exact-ReadsExact more client buffer (min 8192 missing) reader
                  (no_bytes own none_own) (ground arith) (ground arith) (ground arith)
                  (receive w client (min 8192 missing)) refl)
        ]
      ]

  pub read_exact_loop-ReadsExact :
      (rounds : ℕ) (client : Client w) (buffer : Text)
      → total < rounds + length buffer
      → length buffer ≤ total
      → ReadsExact client buffer (read_exact_loop w rounds client buffer total)
  unfolding read_exact_loop
  read_exact_loop-ReadsExact zero client buffer enough within = absurd (omega arith)
  read_exact_loop-ReadsExact (suc rounds) client buffer enough within =
      read_exact_round-ReadsExact (λ again copied. read_exact_loop w rounds again copied total)
        client buffer
        (λ again copied longer b. read_exact_loop-ReadsExact rounds again copied (omega arith) b)
        within

-- Each call of proto_read_exact, on any socket: either it returns exactly the `total` bytes that
-- are next in the stream and takes just them from it. Or it fails with fewer bytes taken; while the
-- connection stays up it does so only when the stream ends before `total` bytes. It sends nothing.
pub read_exact-ReadsExact :
    (w : Winsock) (stream : IsStream w) (client : Client w) (total : ℕ)
    → ReadsExact w stream total client [] (read_exact w client total)
unfolding read_exact
read_exact-ReadsExact w stream client total =
    read_exact_loop-ReadsExact w stream total (suc total) client [] (omega arith) (omega arith)
