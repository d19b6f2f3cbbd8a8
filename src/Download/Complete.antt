-- ===== src/Download/Complete.antt =====
-- proto_receive_download as a whole: what it hears, what it leaves of the files and what it says.
use mathlib.Core.Path.{subst}
use win16sync.Prelude.{
  ◌≡◌, ◌≢◌, sym, ap, ◌∙◌, Option, some, [], ◌∷◌, ◌++◌, Text, codes, c_text, text_eq_iff,
  append_assoc,
}
use win16sync.Action.{Done}
use win16sync.Action.Ends.{Ends, Ends-bind, Ends-weaken}
use win16sync.Dos.{Dos, IsDos}
use win16sync.Download.{
  kind_capacity, Download, delete_local_file, make_dirs, receive_file, receive_download,
}
use win16sync.Download.Local.{ReadsWell, delete_local_file-Deletes, Deletes-Others, make_dirs-Same}
use win16sync.Download.Outcome.{IsGood, IsStored, IsOld, IsFailed, IsOld-IsFailed}
use win16sync.Line.{line_kind}
use win16sync.Path.{local_path_capacity, protocol_to_local, build_temp_path, ensure_parent_dirs}
use win16sync.Session.{with_state, say, hear}
use win16sync.Session.Effects.{machine-bind, check-bind, demanded-bind}
use win16sync.Session.Calls.{Place, ahead, said, IsReady, say-Ends, hear-Ends}
use win16sync.Winsock.{Winsock, IsStream}
use win16sync.Wire.Newline.{HasNoNewline}
use win16sync.Wire.ReadLine.{strip_cr}
use win16sync.Download.Received.{store_file-Ends}

module _ (w : Winsock) (d : Dos) (stream : IsStream w) (laws : IsDos d) (well : ReadsWell d) where
  -- A line FILE was heard and the bytes behind it, which are good and stand in the file.
  abbrev pub Downloaded :
      (Text → Option Text) → Text → Text → Download → Place w d stream → Place w d stream → Type 0
  Downloaded before temp local file u u' =
      (raw : Text) × (bytes : Text) × (ahead w d stream u
        ≡ raw ++ b'\n' ∷ (bytes ++ ahead w d stream u'))
      × HasNoNewline raw
      × (line_kind [] (c_text (strip_cr raw)) kind_capacity ≡ codes "FILE")
      × IsGood u.net.client.crc_disabled file bytes
      × IsStored d laws before temp local bytes u'.state
      × (said w d stream u' ≡ (said w d stream u ++ codes "READY\r\n") ++ codes "OK\r\n")

  module _ (before : Text → Option Text) (temp local : Text)
      (apart : laws.place temp ≢ laws.place local) (file : Download) where
    receive_file-Downloaded :
        (u : Place w d stream)
        → IsReady w d stream u
        → IsOld d laws before temp local u.state
        → Ends {A = Done}
            (λ _. Downloaded before temp local file u)
            (λ u'. IsFailed d laws before temp local u.net.client.crc_disabled file u'.state)
            (receive_file w d temp local file u)
    unfolding receive_file
    receive_file-Downloaded u ready old =
        let b = u.net.client.crc_disabled in
        let fails : (s : d.State) → s ≡ u.state → IsFailed d laws before temp local b file s =
          λ s e.
            IsOld-IsFailed d laws before temp local apart b file s
              (subst (λ x. IsOld d laws before temp local x) (sym e) old) in
        Ends-bind (say w d (codes "READY")) _ u
          (Ends-weaken _ (λ _ _ h. h) (λ v h. fails v.state h.state)
            (say-Ends w d stream u (codes "READY")))
          (λ _ u1 (quiet, said1).
            Ends-bind (hear w d) _ u1
              (Ends-weaken _ (λ _ _ h. h) (λ v h. fails v.state (h.state ∙ quiet.state))
                (hear-Ends w d stream u1 (quiet.on.kept.bounded ready)))
              (λ line u2 ((raw, heard, clean, line_is), ready2).
                check-bind _ _ _ u2
                  (λ is_file.
                    Ends-weaken _
                      (λ _ u' (bytes, next, good, stored, spoken). (
                        raw,
                        bytes,
                        sym quiet.ahead_same
                            ∙ heard.next
                            ∙ append_assoc raw (b'\n' ∷ []) (ahead w d stream u2)
                            ∙ ap (λ t. raw ++ b'\n' ∷ t) next,
                        clean,
                        ap (λ t. line_kind [] t kind_capacity) (sym line_is)
                            ∙ (text_eq_iff (line_kind [] line kind_capacity) (codes "FILE")).0
                                is_file,
                        rw (heard.on.kept.unchecked ∙ quiet.on.kept.unchecked) at good,
                        stored,
                        spoken ∙ ap (λ t. t ++ codes "OK\r\n") (heard.said_same ∙ said1),
                      ))
                      (λ x h. rw (heard.on.kept.unchecked ∙ quiet.on.kept.unchecked) at h)
                      (store_file-Ends w d stream laws well before temp local apart file u2 (
                        subst (λ x. IsOld d laws before temp local x)
                          (sym (heard.state ∙ quiet.state)) old)))
                  (λ _. fails u2.state (heard.state ∙ quiet.state))))

  -- Each call of proto_receive_download whose two paths fit and are two files, with at most 1024
  -- bytes buffered, on a machine and a connection that keep their laws, where reading an open file
  -- does not fail. If it succeeds, it said READY, heard a line FILE and then just as many bytes as
  -- announced, with the announced checksum unless checksums are off, these bytes are now the file,
  -- and it said OK. If it fails, the file is the old one; or it is gone or a first part of new
  -- contents that had the announced length and checksum. In both cases no file but this one and the
  -- temporary one is changed.
  pub receive_download-Downloaded :
      (root_dir : Text) (file : Download) {local temp : Text} (u : Place w d stream)
      → protocol_to_local local_path_capacity root_dir file.path ≡ some local
      → build_temp_path local_path_capacity local ≡ some temp
      → laws.place temp ≢ laws.place local
      → IsReady w d stream u
      → Ends {A = Done}
          (λ _. Downloaded (laws.files u.state) temp local file u)
          (λ u'.
            IsFailed d laws (laws.files u.state) temp local u.net.client.crc_disabled file u'.state)
          (receive_download w d root_dir file u)
  unfolding receive_download
  receive_download-Downloaded root_dir file {local} {temp} u to_local to_temp apart ready =
      let s1 = make_dirs d (ensure_parent_dirs temp) u.state in
      let s2 = make_dirs d (ensure_parent_dirs local) s1 in
      let r = delete_local_file d temp s2 in
      let old : IsOld d laws (laws.files u.state) temp local r.1 = λ q m.
        Deletes-Others d laws r (delete_local_file-Deletes d laws temp s2) q m
        ∙ make_dirs-Same d laws (ensure_parent_dirs local) s1 q
        ∙ make_dirs-Same d laws (ensure_parent_dirs temp) u.state q in
      demanded-bind _ _ u to_local (
        demanded-bind _ _ u to_temp (
          machine-bind _ _ u (
            machine-bind _ _ (with_state u s1) (
              machine-bind _ _ (with_state u s2) (
                receive_file-Downloaded (laws.files u.state) temp local apart file
                  (with_state u r.1) ready old)))))
