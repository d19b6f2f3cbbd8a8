-- ===== src/Winsock.antt =====
-- What client/proto.c uses of WINSOCK.DLL once a connection is there. The library is not part of
-- the repository: it is a parameter, and what the client relies on are the laws below.
use win16sync.Prelude.{ℕ, ◌≤◌, ◌<◌, ◌≡◌, ◌≢◌, Option, none, some, [], ◌++◌, length, take, Text}

-- `none` is SOCKET_ERROR, or 0 for a closed connection.
pub record Winsock : Type 1 where
  pub Socket : Type 0
  pub recv : Socket → ℕ → Option Text × Socket
  pub send : Socket → Text → Option ℕ × Socket

-- A connected socket is a reliable stream in both directions: `pending` are the bytes that the
-- server sends and that are not yet received, `accepted` those that the client has sent.
pub record IsStream (w : Winsock) : Type 0 where
  pub pending : w.Socket → Text
  pub accepted : w.Socket → Text
  pub recv_some :
      (s : w.Socket) (n : ℕ) {xs : Text} {s' : w.Socket}
      → w.recv s n ≡ (some xs, s')
      → (0 < length xs)
        × (length xs ≤ n)
        × (pending s ≡ xs ++ pending s')
        × (accepted s' ≡ accepted s)
  pub recv_none :
      (s : w.Socket) (n : ℕ) {s' : w.Socket}
      → w.recv s n ≡ (none, s')
      → (pending s' ≡ pending s) × (accepted s' ≡ accepted s)
  pub send_some :
      (s : w.Socket) (xs : Text) {n : ℕ} {s' : w.Socket}
      → w.send s xs ≡ (some n, s')
      → (0 < n)
        × (n ≤ length xs)
        × (accepted s' ≡ accepted s ++ take n xs)
        × (pending s' ≡ pending s)
  pub send_none :
      (s : w.Socket) (xs : Text) {s' : w.Socket}
      → w.send s xs ≡ (none, s')
      → (accepted s' ≡ accepted s) × (pending s' ≡ pending s)

-- The connection stays up: receiving fails only when the server sends nothing more.
abbrev pub StaysUp : (w : Winsock) → IsStream w → Type 0
StaysUp w stream =
    (s : w.Socket) (n : ℕ) (s' : w.Socket) → 0 < n → w.recv s n ≡ (none, s') → stream.pending s ≡ []

-- The connection takes what is sent.
abbrev pub Accepts : Winsock → Type 0
Accepts w = (s : w.Socket) (xs : Text) (s' : w.Socket) → 0 < length xs → w.send s xs ≢ (none, s')
