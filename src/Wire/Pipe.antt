-- ===== src/Wire/Pipe.antt =====
-- A connection that is two texts: what comes and what was sent. An instance of `Winsock` with its
-- laws, for tests.
use win16sync.Prelude.{
  ℕ, zero, suc, ◌≤◌, ◌<◌, ◌≡◌, refl, ap, sym, min, Option, none, some, [], ◌∷◌, ◌++◌, length, take,
  drop, Text, arith, take-append-drop, length-take,
}
use win16sync.Winsock.{Winsock, IsStream, StaysUp}

-- At most 4 bytes are received and at most 3 sent at a time; a call for no bytes fails.
abbrev pipe_recv : Text × Text → ℕ → Option Text × (Text × Text)
pipe_recv (coming, sent) zero = (none, (coming, sent))
pipe_recv ([], sent) (suc n) = (none, ([], sent))
pipe_recv (c ∷ coming, sent) (suc n) =
    (some (take (min (suc n) 4) (c ∷ coming)), (drop (min (suc n) 4) (c ∷ coming), sent))

abbrev pipe_send : Text × Text → Text → Option ℕ × (Text × Text)
pipe_send (coming, sent) [] = (none, (coming, sent))
pipe_send (coming, sent) (c ∷ xs) =
    (some (min (length (c ∷ xs)) 3), (coming, sent ++ take (min (length (c ∷ xs)) 3) (c ∷ xs)))

abbrev pub pipe : Winsock
pipe = record { Socket = Text × Text; recv = pipe_recv; send = pipe_send }

pub pipe_recv-some :
    (s : Text × Text) (n : ℕ) {xs : Text} {s' : Text × Text}
    → pipe_recv s n ≡ (some xs, s')
    → (0 < length xs) × (length xs ≤ n) × (s.0 ≡ xs ++ s'.0) × (s'.1 ≡ s.1)
pipe_recv-some (coming, sent) zero e = cc e
pipe_recv-some ([], sent) (suc n) e = cc e
pipe_recv-some (c ∷ coming, sent) (suc n) {xs} {s'} e =
    let m = min (suc n) 4 in
    let taken : take m (c ∷ coming) ≡ xs = cc e in
    let left = ap (λ p. p.1) e in
    rw (← taken, ← left)
      (
        omega (arith, length-take m (c ∷ coming)),
        omega (arith, length-take m (c ∷ coming)),
        sym (take-append-drop m (c ∷ coming)),
        refl,
      )

pub pipe_recv-none :
    (s : Text × Text) (n : ℕ) {s' : Text × Text}
    → pipe_recv s n ≡ (none, s')
    → (s'.0 ≡ s.0) × (s'.1 ≡ s.1) × (0 < n → s.0 ≡ [])
pipe_recv-none (coming, sent) zero e =
    rw (← ap (λ p. p.1) e) (refl, refl, λ room. absurd (omega arith))
pipe_recv-none ([], sent) (suc n) e = rw (← ap (λ p. p.1) e) (refl, refl, λ room. refl)
pipe_recv-none (c ∷ coming, sent) (suc n) e = cc e

pub pipe_send-some :
    (s : Text × Text) (xs : Text) {n : ℕ} {s' : Text × Text}
    → pipe_send s xs ≡ (some n, s')
    → (0 < n) × (n ≤ length xs) × (s'.1 ≡ s.1 ++ take n xs) × (s'.0 ≡ s.0)
pipe_send-some (coming, sent) [] e = cc e
pipe_send-some (coming, sent) (c ∷ xs) {n} e =
    let taken : min (length (c ∷ xs)) 3 ≡ n = cc e in
    rw (← taken, ← ap (λ p. p.1) e) (omega arith, omega arith, refl, refl)

pub pipe_send-none :
    (s : Text × Text) (xs : Text) {s' : Text × Text}
    → pipe_send s xs ≡ (none, s')
    → (s'.1 ≡ s.1) × (s'.0 ≡ s.0)
pipe_send-none (coming, sent) [] e = rw (← ap (λ p. p.1) e) (refl, refl)
pipe_send-none (coming, sent) (c ∷ xs) e = cc e

abbrev pub pipe-IsStream : IsStream pipe
pipe-IsStream = record {
  pending = λ s. s.0;
  accepted = λ s. s.1;
  recv_some = pipe_recv-some;
  recv_none = λ s n e. let (coming, sent, end) = pipe_recv-none s n e in (coming, sent);
  send_some = pipe_send-some;
  send_none = pipe_send-none;
}

pub pipe-StaysUp : StaysUp pipe pipe-IsStream
pipe-StaysUp s n s' room e = (pipe_recv-none s n e).2 room
