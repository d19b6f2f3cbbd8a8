-- ===== src/Session/Calls.antt =====
-- What the calls on the connection ensure, by the stream of the connection.
use mathlib.Core.Option
use win16sync.Prelude.{
  ℕ, ◌≡◌, refl, sym, ap, ◌∙◌, Bool, true, false, Option, none, some, [], ◌∷◌, ◌++◌, length, Text,
  c_text, append_assoc,
}
use win16sync.Action.{Done}
use win16sync.Action.Ends.{Ended, Ends}
use win16sync.Dos.{Dos}
use win16sync.Session.{
  World, with_client, succeeds, line_capacity, hear, take_bytes, say, send_bytes,
}
use win16sync.Session.Effects.{IsOn, IsOn-refl, IsOn-trans, with_client-IsOn, by_client-Ends}
use win16sync.Winsock.{Winsock, IsStream}
use win16sync.Wire.{Client, read_line, read_exact, send_line, send_all}
use win16sync.Wire.Kept.{
  IsKept, read_line-IsKept, read_exact-IsKept, send_line-IsKept, send_all-IsKept,
}
use win16sync.Wire.Newline.{HasNoNewline}
use win16sync.Wire.ReadLine.{IsBounded, strip_cr, ReadsLine, read_line-ReadsLine}
use win16sync.Wire.ReadExact.{ReadsExact, read_exact-ReadsExact}
use win16sync.Wire.Send.{Sends, send_line-Sends, send_all-Sends}
use win16sync.Wire.Stream.{input, output}

module _ (w : Winsock) (d : Dos) (stream : IsStream w) where
  abbrev pub Place : Type 0
  Place = World w.Socket d.State

  -- What can still be heard, and what has been said.
  abbrev pub ahead : Place → Text
  ahead u = input w stream u.net.client

  abbrev pub said : Place → Text
  said u = output w stream u.net.client

  abbrev pub IsReady : Place → Type 0
  IsReady u = IsBounded w stream u.net.client

  -- Nothing was heard, and nothing was done on the machine.
  pub record IsQuiet (u u' : Place) : Type 0 where
    pub on : IsOn u u'
    pub state : u'.state ≡ u.state
    pub ahead_same : ahead u' ≡ ahead u

  -- `bytes` were heard, and nothing else was done.
  pub record IsHeard (bytes : Text) (u u' : Place) : Type 0 where
    pub on : IsOn u u'
    pub state : u'.state ≡ u.state
    pub next : ahead u ≡ bytes ++ ahead u'
    pub said_same : said u' ≡ said u

  pub IsQuiet-refl : (u : Place) → IsQuiet u u
  IsQuiet-refl u = record { on = IsOn-refl u; state = refl; ahead_same = refl }

  pub IsQuiet-trans : {u v x : Place} → IsQuiet u v → IsQuiet v x → IsQuiet u x
  IsQuiet-trans h k = record {
    on = IsOn-trans h.on k.on;
    state = k.state ∙ h.state;
    ahead_same = k.ahead_same ∙ h.ahead_same;
  }

  Sends-Ended :
      (u : Place) (bytes : Text) (r : Bool × Client w)
      → Sends w stream u.net.client bytes r
      → IsKept u.net.client r.1
      → Ended {A = Done}
          (λ _ client.
            IsQuiet u (with_client u client) × (output w stream client ≡ said u ++ bytes))
          (λ client. IsQuiet u (with_client u client))
          (succeeds r)
  Sends-Ended u bytes (true, client) (out, open_still, same) kept =
      (record { on = with_client-IsOn u client kept; state = refl; ahead_same = same }, out)
  Sends-Ended u bytes (false, client) (part, refused, same) kept = record {
    on = with_client-IsOn u client kept;
    state = refl;
    ahead_same = same;
  }

  pub say-Ends :
      (u : Place) (line : Text)
      → Ends
          (λ _ u'. IsQuiet u u' × (said u' ≡ said u ++ (line ++ b'\r' ∷ b'\n' ∷ [])))
          (IsQuiet u)
          (say w d line u)
  say-Ends u line =
      by_client-Ends (λ client. succeeds (send_line w client line)) u
        (Sends-Ended u (line ++ b'\r' ∷ b'\n' ∷ []) (send_line w u.net.client line)
          (send_line-Sends w stream u.net.client line)
          (send_line-IsKept w stream u.net.client line))

  pub send_bytes-Ends :
      (u : Place) (bytes : Text)
      → Ends
          (λ _ u'. IsQuiet u u' × (said u' ≡ said u ++ bytes))
          (IsQuiet u)
          (send_bytes w d bytes u)
  send_bytes-Ends u bytes =
      by_client-Ends (λ client. succeeds (send_all w client bytes)) u
        (Sends-Ended u bytes (send_all w u.net.client bytes)
          (send_all-Sends w stream u.net.client bytes)
          (send_all-IsKept w stream u.net.client bytes))

  -- A line that was heard, with the bytes that it came in.
  abbrev pub IsLine : Text → Place → Place → Type 0
  IsLine line u u' =
      (raw : Text) × IsHeard (raw ++ b'\n' ∷ []) u u'
      × HasNoNewline raw
      × (line ≡ c_text (strip_cr raw))

  ReadsLine-Ended :
      (u : Place) (r : Option Text × Client w)
      → ReadsLine w stream u.net.client line_capacity r
      → IsKept u.net.client r.1
      → Ended
          (λ line client. IsLine line u (with_client u client) × IsBounded w stream client)
          (λ client. IsQuiet u (with_client u client))
          (Option.map c_text r.0, r.1)
  ReadsLine-Ended u (some line, client) ((raw, next, clean, line_is), fits, bounded, out) kept = (
    (
      raw,
      record {
        on = with_client-IsOn u client kept;
        state = refl;
        next = next ∙ sym (append_assoc raw (b'\n' ∷ []) (input w stream client));
        said_same = out;
      },
      clean,
      ap c_text line_is,
    ),
    bounded,
  )
  ReadsLine-Ended u (none, client) (same, bounded, out) kept = record {
    on = with_client-IsOn u client kept;
    state = refl;
    ahead_same = same;
  }

  pub hear-Ends :
      (u : Place)
      → IsReady u
      → Ends (λ line u'. IsLine line u u' × IsReady u') (IsQuiet u) (hear w d u)
  hear-Ends u ready = by_client-Ends _ u (
      ReadsLine-Ended u (read_line w u.net.client line_capacity)
        (read_line-ReadsLine w stream u.net.client line_capacity ready)
        (read_line-IsKept w stream u.net.client line_capacity))

  -- Bytes may be lost where the stream ends before.
  abbrev pub IsCut : Place → Place → Type 0
  IsCut u u' = IsOn u u' × (u'.state ≡ u.state) × ((lost : Text) × (ahead u ≡ lost ++ ahead u'))

  ReadsExact-Ended :
      (u : Place) (n : ℕ) (r : Option Text × Client w)
      → ReadsExact w stream n u.net.client [] r
      → IsKept u.net.client r.1
      → Ended
          (λ bytes client. IsHeard bytes u (with_client u client) × (length bytes ≡ n))
          (λ client. IsCut u (with_client u client))
          r
  ReadsExact-Ended u n (some bytes, client) (long, next, out) kept = (
    record { on = with_client-IsOn u client kept; state = refl; next = next; said_same = out },
    long,
  )
  ReadsExact-Ended u n (none, client) ((lost, next, short), ended, out) kept =
      (with_client-IsOn u client kept, refl, (lost, next))

  pub take_bytes-Ends :
      (u : Place) (n : ℕ)
      → Ends (λ bytes u'. IsHeard bytes u u' × (length bytes ≡ n)) (IsCut u) (take_bytes w d n u)
  take_bytes-Ends u n =
      by_client-Ends (λ client. read_exact w client n) u
        (ReadsExact-Ended u n (read_exact w u.net.client n)
          (read_exact-ReadsExact w stream u.net.client n)
          (read_exact-IsKept w stream u.net.client n))
