-- ===== src/Sync/Closes.antt =====
-- However a synchronisation ends, what it asked Windows for has been given back.
use win16sync.Prelude.{
  ℕ, ◌≡◌, refl, sym, ap, ◌∙◌, Bool, true, false, Option, none, some, [], Text, if◌then◌else◌,
}
use win16sync.Action.{Done}
use win16sync.Action.Ends.{Ends, Ends-pure, Ends-bind, Ends-weaken, Ends-on_failure}
use win16sync.Client.{ProtoClient, set_notice}
use win16sync.Connect.{Net, Answers, connect}
use win16sync.Connect.Balance.{held, IsBalanced, IsIdle, disconnect-IsIdle}
use win16sync.Connect.Outcome.{Connects, connect-Connects}
use win16sync.Dos.{Dos}
use win16sync.Path.{is_empty}
use win16sync.Scan.{Ran, scan_directory}
use win16sync.Scan.Kept.{RanKept, scan_directory-RanKept}
use win16sync.Session.{World, with_client, with_state, Session, by_client, succeeds, line_capacity}
use win16sync.Session.Calls.{Place}
use win16sync.Session.Effects.{
  IsOn, IsOn-refl, IsOn-trans, with_client-IsOn, with_state-IsOn, with_error-IsOn, cache-IsOn,
  machine-bind, changes-bind, check-bind, gets-bind,
}
use win16sync.Session.Frame.{Keeps, IsFrame, Keeps-Ends, Keeps-if, Keeps-pure}
use win16sync.Sync.{
  Synced, hang_up, open_connection, scan_result, scan_files, exchange_files, after_check, converse,
  sync_directory,
}
use win16sync.Sync.Framed.{serve-Keeps}
use win16sync.Sync.Talk.{greet-Keeps, check_update-Keeps, say_manifest-Keeps}
use win16sync.Update.{notice}
use win16sync.Winsock.{Winsock, IsStream}
use win16sync.Wire.{send_line, send_all}
use win16sync.Wire.Kept.{
  IsKept, read_line-IsKept, read_exact-IsKept, send_line-IsKept, send_all-IsKept,
}

held-none : {A : Type 0} (o : Option A) → held o ≡ 0 → o ≡ none
held-none none e = refl
held-none (some a) e = absurd (cc e)

module _ {Socket State : Type 0} where
  -- What is held is accounted for as long as the connection stays.
  IsOn-IsBalanced : (u v : World Socket State) → IsOn u v → IsBalanced u.net → IsBalanced v.net
  IsOn-IsBalanced u v on b = record {
    modules = rw (on.calls, on.module_handle) b.modules;
    startups = rw (on.calls, on.kept.ready) b.startups;
    sockets = rw (on.calls, on.kept.socket) b.sockets;
    needs = λ gone.
        let (closed, off) = b.needs (sym on.module_handle ∙ gone) in
        (
          held-none v.net.client.socket_handle (on.kept.socket ∙ ap held closed),
          on.kept.ready ∙ off,
        );
  }

  succeeds-IsOn :
      (u : World Socket State) (r : Bool × ProtoClient Socket)
      → IsKept u.net.client r.1
      → IsOn u (with_client u (succeeds r).1)
  succeeds-IsOn u (true, client) h = with_client-IsOn u client h
  succeeds-IsOn u (false, client) h = with_client-IsOn u client h

module _ (w : Winsock) (d : Dos) (stream : IsStream w) where
  -- The connection is the same through all calls but proto_connect and proto_client_disconnect.
  IsOn-IsFrame : IsFrame w d IsOn
  unfolding by_client set_notice
  IsOn-IsFrame = record {
    same = IsOn-refl;
    after = λ u v x h k. IsOn-trans h k;
    state = with_state-IsOn;
    error = with_error-IsOn;
    notice = λ u message.
        with_client-IsOn u _
          (record { socket = refl; ready = refl; unchecked = refl; bounded = λ h. h });
    cache = cache-IsOn;
    says = λ line. record {
      at = λ u.
          succeeds-IsOn u (send_line w u.net.client line)
            (send_line-IsKept w stream u.net.client line);
    };
    hears = record {
      at = λ u. with_client-IsOn u _ (read_line-IsKept w stream u.net.client line_capacity);
    };
    takes =
        λ n. record { at = λ u. with_client-IsOn u _ (read_exact-IsKept w stream u.net.client n) };
    sends = λ bytes. record {
      at = λ u.
          succeeds-IsOn u (send_all w u.net.client bytes)
            (send_all-IsKept w stream u.net.client bytes);
    };
  }

  scan_result-Ends :
      (u v : Place w d stream) (r : Ran w.Socket)
      → IsOn u v
      → RanKept v.net.client r
      → Ends (λ _ x. IsOn u x) (λ x. IsOn u x) (scan_result w d r v)
  unfolding scan_result
  scan_result-Ends u v none h k = record { ended = h }
  scan_result-Ends u v (some (false, client, items)) h k = record {
    ended = IsOn-trans h (with_client-IsOn v client k);
  }
  scan_result-Ends u v (some (true, client, items)) h k = record {
    ended = IsOn-trans h (with_client-IsOn v client k);
  }

  scan_files-Ends :
      (root_dir : Text) (u : Place w d stream)
      → Ends (λ _ x. IsOn u x) (λ x. IsOn u x) (scan_files w d root_dir u)
  unfolding scan_files
  scan_files-Ends root_dir u =
      let found = d.scan u.state in
      scan_result-Ends u (with_state u found.1) (scan_directory found.0 root_dir u.net.client)
        (with_state-IsOn u found.1) (scan_directory-RanKept found.0 root_dir u.net.client)

  -- The client holds nothing and no module is loaded.
  abbrev pub IsClosed : Place w d stream → Type 0
  IsClosed u = IsBalanced u.net × IsIdle u.net × (u.net.module_handle ≡ 0)

  hang_up-IsClosed : (u : Place w d stream) → IsBalanced u.net → IsClosed (hang_up w d u)
  hang_up-IsClosed u b = disconnect-IsIdle u.net b

  -- The parts of a conversation, from a world whose calls account for what is held.
  abbrev Talks : {A : Type 0} → Option A × Place w d stream → Type 0
  Talks r = Ends (λ _ v. IsBalanced v.net) (λ v. IsBalanced v.net) r

  Keeps-Talks :
      {A : Type 0} (m : Session w d A) (u : Place w d stream)
      → Keeps IsOn m
      → IsBalanced u.net
      → Talks (m u)
  Keeps-Talks m u h b =
      Ends-weaken (m u) (λ _ v on. IsOn-IsBalanced u v on b) (λ v on. IsOn-IsBalanced u v on b)
        (Keeps-Ends IsOn-IsFrame m u h)

  abbrev Finishes : Option Synced × Place w d stream → Type 0
  Finishes r = Ends (λ _ v. IsClosed v) (λ v. IsBalanced v.net) r

  exchange_files-Finishes :
      (rounds : ℕ) (root_dir : Text) (u : Place w d stream)
      → IsBalanced u.net
      → Finishes (exchange_files w d rounds root_dir u)
  unfolding exchange_files
  exchange_files-Finishes rounds root_dir u b = machine-bind _ _ u (
      check-bind _ _ _ (with_state u (d.malloc u.state).1)
        (λ _.
          Ends-bind _ _ (with_state u (d.malloc u.state).1)
            (Ends-weaken _ (λ _ v on. IsOn-IsBalanced _ v on b) (λ v on. IsOn-IsBalanced _ v on b)
              (scan_files-Ends root_dir (with_state u (d.malloc u.state).1)))
            (λ items v b1.
              Ends-bind _ _ v (Keeps-Talks _ v (say_manifest-Keeps IsOn-IsFrame items) b1)
                (λ _ v2 b2.
                  Ends-bind _ _ v2
                    (Keeps-Talks _ v2 (serve-Keeps IsOn-IsFrame rounds root_dir items _) b2)
                    (λ counts v3 b3.
                      changes-bind _ _ v3 (Ends-pure _ _ (hang_up-IsClosed v3 b3))))))
        (λ _.
          IsOn-IsBalanced u _
            (IsOn-trans (with_state-IsOn u (d.malloc u.state).1) (with_error-IsOn _ _)) b))

  after_check-Finishes :
      (rounds : ℕ) (root_dir : Text) (loaded : Option Text) (u : Place w d stream)
      → IsBalanced u.net
      → Finishes (after_check w d rounds root_dir loaded u)
  unfolding after_check
  after_check-Finishes rounds root_dir none u b = exchange_files-Finishes rounds root_dir u b
  after_check-Finishes rounds root_dir (some version) u b =
      changes-bind _ _ u (Ends-pure _ _ (hang_up-IsClosed u b))

  converse-Finishes :
      (rounds : ℕ) (root_dir : Text) (u : Place w d stream)
      → IsBalanced u.net
      → Finishes (converse w d rounds root_dir u)
  unfolding converse
  converse-Finishes rounds root_dir u b =
      let own = u.net.client.app_version in
      gets-bind _ _ u (
        Ends-bind _ _ u (Keeps-Talks _ u (greet-Keeps IsOn-IsFrame own) b) (λ server v b1.
          Ends-bind _ _ v
            (Keeps-Talks _ v
              (Keeps-if IsOn-IsFrame _ _ _ (check_update-Keeps IsOn-IsFrame own)
                (Keeps-pure IsOn-IsFrame none))
              b1)
            (λ loaded v2 b2. after_check-Finishes rounds root_dir loaded v2 b2)))

  connected-Ends :
      (answers : Answers w.Socket) (host : Text) (port : ℕ) (u : Place w d stream)
      (r : Bool × Net w.Socket)
      → Connects answers host port r
      → Ends {A = Done}
          (λ _ v. IsBalanced v.net)
          (λ v. IsBalanced v.net × IsIdle v.net)
          (if r.0 then some tt else none, record u { net = r.1 })
  connected-Ends answers host port u (true, net) h = record { ended = h.0 }
  connected-Ends answers host port u (false, net) h = record { ended = (h.0, h.1) }

  -- Each call of proto_sync_directory with a directory, whatever the server, WINSOCK.DLL and the
  -- machine answer and whatever the loop's bound is, if the calls so far account for what the
  -- client holds, and the connection keeps the laws of a stream. However it ends, what the client
  -- holds of Windows is accounted for, and it holds no socket, no start of WinSock and nothing
  -- received. With PROTO_SYNC_RESULT_OK or PROTO_SYNC_RESULT_UPDATE no module is loaded either.
  pub sync_directory-IsClosed :
      (rounds : ℕ) (answers : Answers w.Socket) (root_dir : Text) (u : Place w d stream)
      → IsBalanced u.net
      → is_empty root_dir ≡ false
      → Ends
          (λ _. IsClosed)
          (λ v. IsBalanced v.net × IsIdle v.net)
          (sync_directory w d rounds answers root_dir u)
  unfolding sync_directory open_connection notice
  sync_directory-IsClosed rounds answers root_dir u b filled =
      check-bind _ _ _ u
        (λ _.
          let v = with_client u (set_notice u.net.client []) in
          changes-bind _ _ u (
            Ends-bind _ _ v
              (connected-Ends answers v.net.client.host v.net.client.port v (connect answers v.net)
                (connect-Connects answers v.net (IsOn-IsBalanced u v (IsOn-IsFrame.notice u []) b)))
              (λ _ v2 b2.
                Ends-on_failure (hang_up w d) _ v2 (converse-Finishes rounds root_dir v2 b2)
                  (λ x b3.
                    let (balanced, idle, gone) = hang_up-IsClosed x b3 in (balanced, idle)))))
        (λ empty. absurd (cc (filled, empty)))
