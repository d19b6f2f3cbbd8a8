-- ===== src/Sync/Rounds.antt =====
-- The loop of proto_sync_directory ends when the server has nothing more to say.
use win16sync.Prelude.{
  ℕ, zero, suc, ◌≤◌, ◌<◌, ◌≡◌, refl, ap, Option, none, some, List, [], ◌∷◌, ◌++◌, Text, codes,
  length, arith, Bool-cases, inl, inr, length-append,
}
use win16sync.Action.{◌>>=◌, continue}
use win16sync.Action.Ends.{Ends}
use win16sync.Client.{set_error, set_notice}
use win16sync.Dos.{Dos}
use win16sync.Items.{FileItem}
use win16sync.Session.{Session, say, hear, take_bytes, send_bytes}
use win16sync.Session.Calls.{
  Place, ahead, IsReady, IsQuiet, IsHeard, IsLine, IsCut, say-Ends, hear-Ends, take_bytes-Ends,
  send_bytes-Ends,
}
use win16sync.Session.Frame.{IsFrame, Ends-Keeps}
use win16sync.Sync.Actions.{Counts, is_kind, take_action, serve_line, serve}
use win16sync.Sync.Framed.{take_action-Keeps}
use win16sync.Winsock.{Winsock, IsStream}

module _ (w : Winsock) (d : Dos) (stream : IsStream w) where
  -- No more is to be heard than before.
  abbrev Shrinks : Place w d stream → Place w d stream → Type 0
  Shrinks u v =
      IsReady w d stream u
      → IsReady w d stream v × (length (ahead w d stream v) ≤ length (ahead w d stream u))

  quiet-Shrinks : (u v : Place w d stream) → IsQuiet w d stream u v → Shrinks u v
  quiet-Shrinks u v q ready = (q.on.kept.bounded ready, omega (arith, ap length q.ahead_same))

  heard-Shrinks :
      (u v : Place w d stream) (bytes : Text) → IsHeard w d stream bytes u v → Shrinks u v
  heard-Shrinks u v bytes h ready = (
    h.on.kept.bounded ready,
    omega (arith, ap length h.next, length-append bytes (ahead w d stream v)),
  )

  cut-Shrinks : (u v : Place w d stream) → IsCut w d stream u v → Shrinks u v
  cut-Shrinks u v (on, state, (lost, next)) ready = (
    on.kept.bounded ready,
    omega (arith, ap length next, length-append lost (ahead w d stream v)),
  )

  -- A line takes a byte, its newline.
  abbrev Hears : Place w d stream → Option Text × Place w d stream → Type 0
  Hears u (none, v) =
      IsReady w d stream v × (length (ahead w d stream v) ≤ length (ahead w d stream u))
  Hears u (some line, v) =
      IsReady w d stream v × (length (ahead w d stream v) < length (ahead w d stream u))

  hear-Hears : (u : Place w d stream) → IsReady w d stream u → Hears u (hear w d u)
  hear-Hears u ready = heard (hear w d u) (hear-Ends w d stream u ready)
    where
      heard :
          (r : Option Text × Place w d stream)
          → Ends
              (λ line v. IsLine w d stream line u v × IsReady w d stream v)
              (IsQuiet w d stream u)
              r
          → Hears u r
      heard (none, v) h = quiet-Shrinks u v h.ended ready
      heard (some line, v) h =
          let ((raw, bytes, clean, line_is), ready') = h.ended in
          (
            ready',
            omega (
              arith,
              ap length bytes.next,
              length-append (raw ++ b'\n' ∷ []) (ahead w d stream v),
              length-append raw (b'\n' ∷ []),
            ),
          )

  Hears-Shrinks :
      (u : Place w d stream) (r : Option Text × Place w d stream)
      → Hears u r
      → IsReady w d stream r.1 × (length (ahead w d stream r.1) ≤ length (ahead w d stream u))
  Hears-Shrinks u (none, v) h = h
  Hears-Shrinks u (some line, v) (ready, shorter) = (ready, omega arith)

  Shrinks-IsFrame : IsFrame w d Shrinks
  unfolding set_error set_notice
  Shrinks-IsFrame = record {
    same = λ u ready. (ready, omega arith);
    after = λ u v x h k ready.
        let (ready', shorter) = h ready in
        let (ready2, shorter') = k ready' in (ready2, omega arith);
    state = λ u s ready. (ready, omega arith);
    error = λ u message ready. (ready, omega arith);
    notice = λ u message ready. (ready, omega arith);
    cache = λ u cache ready. (ready, omega arith);
    says = λ line.
        Ends-Keeps (say w d line) (λ u. say-Ends w d stream u line)
          (λ u _ v (quiet, sent). quiet-Shrinks u v quiet) quiet-Shrinks;
    hears = record { at = λ u ready. Hears-Shrinks u (hear w d u) (hear-Hears u ready) };
    takes = λ n.
        Ends-Keeps (take_bytes w d n) (λ u. take_bytes-Ends w d stream u n)
          (λ u bytes v (heard, long). heard-Shrinks u v bytes heard) cut-Shrinks;
    sends = λ bytes.
        Ends-Keeps (send_bytes w d bytes) (λ u. send_bytes-Ends w d stream u bytes)
          (λ u _ v (quiet, sent). quiet-Shrinks u v quiet) quiet-Shrinks;
  }

  -- Two ways to go on that agree where fewer than `n` bytes are to be heard.
  abbrev Agree : ℕ → (Counts → Session w d Counts) → (Counts → Session w d Counts) → Type 0
  Agree n more more' =
      (counts : Counts) (v : Place w d stream)
      → IsReady w d stream v
      → length (ahead w d stream v) < n
      → more counts v ≡ more' counts v

  continue-Agree :
      (n : ℕ) (more more' : Counts → Session w d Counts) (r : Option Counts × Place w d stream)
      → Agree n more more'
      → IsReady w d stream r.1
      → length (ahead w d stream r.1) < n
      → continue more r ≡ continue more' r
  unfolding continue
  continue-Agree n more more' (none, v) agree ready short = refl
  continue-Agree n more more' (some counts, v) agree ready short = agree counts v ready short

  serve_line-Agree :
      (n : ℕ) (more more' : Counts → Session w d Counts) (root_dir : Text) (items : List FileItem)
      (counts : Counts) (line : Text) (v : Place w d stream)
      → Agree n more more'
      → IsReady w d stream v
      → length (ahead w d stream v) < n
      → serve_line w d more root_dir items counts line v
        ≡ serve_line w d more' root_dir items counts line v
  unfolding serve_line ◌>>=◌
  serve_line-Agree n more more' root_dir items counts line v agree ready short =
      elim (Bool-cases (is_kind line (codes "DONE"))) [
        | inl done ↦ rw done
        | inr not_done ↦ elim (Bool-cases (is_kind line (codes "ACTION"))) [
          | inr other ↦ rw (not_done, other)
          | inl action ↦
              let (ready', shorter) =
                (take_action-Keeps Shrinks-IsFrame root_dir items line counts).at v ready in
              rw (not_done, action)
                (continue-Agree n more more' (take_action w d root_dir items line counts v) agree
                  ready' (omega arith))
        ]
      ]

  heard-Agree :
      (rounds rounds' : ℕ) (root_dir : Text) (items : List FileItem) (counts : Counts)
      (u : Place w d stream) (r : Option Text × Place w d stream)
      → Hears u r
      → length (ahead w d stream u) ≤ rounds
      → length (ahead w d stream u) ≤ rounds'
      → Agree
          (length (ahead w d stream u))
          (serve w d rounds root_dir items)
          (serve w d rounds' root_dir items)
      → continue (serve_line w d (serve w d rounds root_dir items) root_dir items counts) r
        ≡ continue (serve_line w d (serve w d rounds' root_dir items) root_dir items counts) r
  unfolding continue
  heard-Agree rounds rounds' root_dir items counts u (none, v) h n n' agree = refl
  heard-Agree rounds rounds' root_dir items counts u (some line, v) (ready, shorter) n n' agree =
      serve_line-Agree (length (ahead w d stream u)) (serve w d rounds root_dir items)
        (serve w d rounds' root_dir items) root_dir items counts line v agree ready (omega arith)

  -- The loop of proto_sync_directory, with at most 1024 bytes buffered, on a connection that keeps
  -- the laws of a stream: any two bounds on its rounds that are greater than the number of bytes
  -- that the server still sends give the same result, so the model's bound does not end the loop.
  pub serve-rounds :
      (rounds rounds' : ℕ) (root_dir : Text) (items : List FileItem) (counts : Counts)
      (u : Place w d stream)
      → IsReady w d stream u
      → length (ahead w d stream u) < rounds
      → length (ahead w d stream u) < rounds'
      → serve w d rounds root_dir items counts u ≡ serve w d rounds' root_dir items counts u
  unfolding serve ◌>>=◌
  serve-rounds zero rounds' root_dir items counts u ready n n' = absurd (omega arith)
  serve-rounds (suc rounds) zero root_dir items counts u ready n n' = absurd (omega arith)
  serve-rounds (suc rounds) (suc rounds') root_dir items counts u ready n n' =
      heard-Agree rounds rounds' root_dir items counts u (hear w d u) (hear-Hears u ready)
        (omega arith) (omega arith)
        (λ counts' v ready' short.
          serve-rounds rounds rounds' root_dir items counts' v ready' (omega arith) (omega arith))
