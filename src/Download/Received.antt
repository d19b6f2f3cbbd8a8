-- ===== src/Download/Received.antt =====
-- proto_receive_download from the stream to the file.
use mathlib.Core.Path.{subst}
use win16sync.Prelude.{
  ◌≡◌, ◌≢◌, refl, sym, ap, ◌∙◌, Bool, true, false, Option, some, [], ◌++◌, if◌then◌else◌, length,
  Text, codes, inl, inr, ◌⊎◌,
}
use win16sync.Action.{Done, pure, gets, ◌>>=◌, ◌>>◌}
use win16sync.Action.Ends.{Ends, Ends-bind, Ends-weaken}
use win16sync.Crc.{file_crc32}
use win16sync.Dos.{Dos, IsDos, Same}
use win16sync.Download.{
  Download, write_file_timestamp, note_checksum, verify, replace_file, settle_file, store_file,
}
use win16sync.Download.Fetch.{fetch_file-Fetched}
use win16sync.Download.Local.{Sets-cases, ReadsWell, write_file_timestamp-Same}
use win16sync.Download.Outcome.{
  IsGood, IsStored, IsOld, IsFailed, IsOld-IsFailed, IsStored-IsFailed,
}
use win16sync.Download.Replaces.{verify-Ends, replace_file-Replaces}
use win16sync.Session.{change_cache, with_state, allocate, by_machine}
use win16sync.Session.Effects.{
  IsOn, IsOn-trans, with_state-IsOn, cache-IsOn, net-IsOn, machine-bind, gets-bind, check-bind,
}
use win16sync.Session.Calls.{Place, ahead, said, say-Ends}
use win16sync.Winsock.{Winsock, IsStream}

module _ (w : Winsock) (d : Dos) (stream : IsStream w) (laws : IsDos d) (well : ReadsWell d) where
  -- Only the table of checksums and the machine may have changed, and no file.
  pub record IsNoted (u u' : Place w d stream) : Type 0 where
    pub on : IsOn u u'
    pub same : Same laws.files u.state u'.state
    pub ahead_same : ahead w d stream u' ≡ ahead w d stream u
    pub said_same : said w d stream u' ≡ said w d stream u

  allocate_once :
      {E : Place w d stream → Type 0} (cached : Bool) (u : Place w d stream)
      → Ends
          (λ _ v. (v.net ≡ u.net) × Same laws.files u.state v.state)
          E
          ((if cached then pure true else allocate w d) u)
  unfolding pure by_machine
  allocate_once true u = record { ended = (refl, λ q. refl) }
  allocate_once false u = record { ended = (refl, laws.malloc_same u.state) }

  note_checksum-IsNoted :
      {E : Place w d stream → Type 0} (unchecked : Bool) (file : Download) (u : Place w d stream)
      → Ends (λ _. IsNoted u) E (note_checksum w d unchecked file u)
  unfolding note_checksum change_cache
  note_checksum-IsNoted true file u = record {
    ended = record { on = cache-IsOn u _; same = λ q. refl; ahead_same = refl; said_same = refl };
  }
  note_checksum-IsNoted false file u =
      gets-bind (λ x. x.net.client.cache.allocated) _ u
        (Ends-bind _ _ u (allocate_once u.net.client.cache.allocated u) (λ malloc_ok v (e, same).
          machine-bind d.ticks _ v (record {
            ended = record {
              on = IsOn-trans (net-IsOn u v e) (IsOn-trans (with_state-IsOn v _) (cache-IsOn _ _));
              same = λ q. laws.ticks_same v.state q ∙ same q;
              ahead_same = ap (λ n. ahead w d stream (record u { net = n })) e;
              said_same = ap (λ n. said w d stream (record u { net = n })) e;
            };
          })))

  module _ (before : Text → Option Text) (temp local : Text)
      (apart : laws.place temp ≢ laws.place local) (file : Download) where
    settle_file-Ends :
        (unchecked : Bool) (bytes : Text) (u : Place w d stream)
        → IsGood unchecked file bytes
        → IsStored d laws before temp local bytes u.state
        → Ends {A = Done}
            (λ _ u'.
              IsStored d laws before temp local bytes u'.state
              × (ahead w d stream u' ≡ ahead w d stream u)
              × (said w d stream u' ≡ said w d stream u ++ codes "OK\r\n"))
            (λ u'. IsFailed d laws before temp local unchecked file u'.state)
            (settle_file w d local file unchecked u)
    unfolding settle_file
    settle_file-Ends unchecked bytes u good (elsewhere, there) =
        let s = (write_file_timestamp d local file.dos_stamp u.state).1 in
        let same = write_file_timestamp-Same d laws local file.dos_stamp u.state in
        machine-bind (write_file_timestamp d local file.dos_stamp) _ u (
          Ends-bind _ _ (with_state u s) (note_checksum-IsNoted unchecked file (with_state u s))
            (λ _ v noted.
              let stored : IsStored d laws before temp local bytes v.state = (
                (λ q n m. noted.same q ∙ same q ∙ elsewhere q n m),
                noted.same (laws.place local) ∙ same (laws.place local) ∙ there,
              ) in
              Ends-weaken _
                (λ _ u' (quiet, spoken). (
                  subst (λ x. IsStored d laws before temp local bytes x) (sym quiet.state) stored,
                  quiet.ahead_same ∙ noted.ahead_same,
                  spoken ∙ ap (λ t. t ++ codes "OK\r\n") noted.said_same,
                ))
                (λ u' quiet.
                  subst (λ x. IsFailed d laws before temp local unchecked file x) (sym quiet.state)
                    (IsStored-IsFailed d laws before temp local unchecked file bytes v.state good
                      stored))
                (say-Ends w d stream v (codes "OK"))))

    -- The file that was heard is in its place, and that was said.
    abbrev pub IsFetched : Place w d stream → Place w d stream → Type 0
    IsFetched u u' =
        (bytes : Text) × (ahead w d stream u ≡ bytes ++ ahead w d stream u')
        × IsGood u.net.client.crc_disabled file bytes
        × IsStored d laws before temp local bytes u'.state
        × (said w d stream u' ≡ said w d stream u ++ codes "OK\r\n")

    -- The rest of store_file, once the bytes are in the temporary file.
    stored-Ends :
        (u v : Place w d stream) (bytes : Text)
        → length bytes ≡ file.size
        → v.net.client.crc_disabled ≡ u.net.client.crc_disabled
        → laws.files v.state (laws.place temp) ≡ some bytes
        → IsOld d laws before temp local v.state
        → ahead w d stream u ≡ bytes ++ ahead w d stream v
        → said w d stream v ≡ said w d stream u
        → Ends {A = Done}
            (λ _. IsFetched u)
            (λ u'. IsFailed d laws before temp local u.net.client.crc_disabled file u'.state)
            ((gets (λ x. x.net.client.crc_disabled) >>= λ unchecked.
                verify w d unchecked temp (codes "Download-CRC stimmt nicht") file.crc
                >> (replace_file w d temp local >> settle_file w d local file unchecked))
              v)
    stored-Ends u v bytes long flag there old next quiet =
        let b = u.net.client.crc_disabled in
        let v_flag = v.net.client.crc_disabled in
        gets-bind _ _ v (
          Ends-bind _ _ v
            (Ends-weaken _ (λ _ _ h. h)
              (λ x h. IsOld-IsFailed d laws before temp local apart b file x.state h)
              (verify-Ends w d laws well before temp local v_flag _ bytes file.crc v old there))
            (λ _ v1 ((net1, old1, there1), checked).
              let good : IsGood b file bytes = (
                long,
                subst (λ f. (f ≡ true) ⊎ (file_crc32 (some bytes) ≡ some file.crc)) flag checked,
              ) in
              Ends-bind _ _ v1
                (replace_file-Replaces w d laws well before temp local b file bytes good apart v1
                  old1 there1)
                (λ _ v2 (net2, stored).
                  let same_net = net2 ∙ net1 in
                  subst
                    (λ f.
                      Ends {A = Done} (λ _. IsFetched u)
                        (λ x. IsFailed d laws before temp local b file x.state)
                        (settle_file w d local file f v2))
                    (sym flag)
                    (Ends-weaken _
                      (λ _ u' (stored', heard, spoken). (
                        bytes,
                        next
                            ∙ ap (◌++◌ bytes) (
                                sym (
                                  heard
                                  ∙ ap (λ n. ahead w d stream (record v { net = n })) same_net)),
                        good,
                        stored',
                        spoken
                            ∙ ap (λ t. t ++ codes "OK\r\n")
                                (ap (λ n. said w d stream (record v { net = n })) same_net ∙ quiet),
                      ))
                      (λ _ h. h) (settle_file-Ends b bytes v2 good stored)))))

    pub store_file-Ends :
        (u : Place w d stream)
        → IsOld d laws before temp local u.state
        → Ends {A = Done}
            (λ _. IsFetched u)
            (λ u'. IsFailed d laws before temp local u.net.client.crc_disabled file u'.state)
            (store_file w d temp local file u)
    unfolding store_file
    store_file-Ends u old =
        let b = u.net.client.crc_disabled in
        let r = d.create u.state temp in
        let fails : (s : d.State)
            → IsOld d laws before temp local s
            → IsFailed d laws before temp local b file s =
          IsOld-IsFailed d laws before temp local apart b file in
        let created = Sets-cases laws.files r (laws.create_sets u.state temp) in
        machine-bind _ _ u (
          check-bind r.0 _ _ (with_state u r.1)
            (λ ok. elim created [
              | inr (stopped, _) ↦ absurd (cc (sym ok ∙ stopped))
              | inl (_, (empty, others)) ↦
                  Ends-bind _ _ (with_state u r.1)
                    (Ends-weaken _ (λ _ _ h. h)
                      (λ v (on, spared). fails v.state (λ q m. spared q m ∙ others q m ∙ old q m))
                      (fetch_file-Fetched w d stream laws temp _ _ [] file.size (with_state u r.1)
                        empty))
                    (λ _ v (bytes, long, on, (there, spared), next, quiet).
                      stored-Ends u v bytes long on.kept.unchecked there
                        (λ q m. spared q m ∙ others q m ∙ old q m) next quiet)
            ])
            (λ bad. elim created [
              | inl (ok, _) ↦ absurd (cc (sym ok ∙ bad))
              | inr (_, same) ↦ fails r.1 (λ q m. same q ∙ old q m)
            ]))
