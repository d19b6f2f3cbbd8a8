-- ===== src/Upload/Sent.antt =====
-- What an upload has said to the server.
use win16sync.Prelude.{
  ℕ, zero, suc, ◌<◌, ◌≡◌, refl, sym, ap, ◌∙◌, some, ◌++◌, length, take, drop, Text, codes, arith,
  Bool-cases, inl, inr, append_assoc, append-nil, take-append-drop, length-drop,
}
use win16sync.Action.{Done, pure}
use win16sync.Action.Ends.{Ends, Ends-bind, Ends-weaken}
use win16sync.Client.{set_error}
use win16sync.Dos.{Dos, IsDos, Same}
use win16sync.Download.{chunk_size}
use win16sync.Download.Local.{ReadsWell, Gives-whole, empty_text, filled_text}
use win16sync.Hex.{encode_hex}
use win16sync.Items.{FileItem}
use win16sync.Message.{path_hex_capacity, describe}
use win16sync.Path.{is_empty}
use win16sync.Session.{with_state}
use win16sync.Session.Effects.{machine-bind, gets-bind, check-bind, demanded-bind}
use win16sync.Session.Calls.{
  Place, ahead, said, IsQuiet, IsQuiet-refl, IsQuiet-trans, say-Ends, send_bytes-Ends,
}
use win16sync.Upload.{send_pieces, send_file, say_item, send_upload}
use win16sync.Winsock.{Winsock, IsStream}

module _ (w : Winsock) (d : Dos) (stream : IsStream w) where
  send_pieces-Ends :
      (rounds : ℕ) (bytes : Text) (u : Place w d stream)
      → length bytes < rounds
      → Ends {A = Done}
          (λ _ u'. IsQuiet w d stream u u' × (said w d stream u' ≡ said w d stream u ++ bytes))
          (IsQuiet w d stream u)
          (send_pieces w d rounds bytes u)
  unfolding send_pieces pure
  send_pieces-Ends zero bytes u enough = absurd (omega arith)
  send_pieces-Ends (suc rounds) bytes u enough = elim (Bool-cases (is_empty bytes)) [
    | inl empty ↦ rw (empty) (record {
      ended = (
        IsQuiet-refl w d stream u,
        sym (append-nil (said w d stream u))
            ∙ ap (λ t. said w d stream u ++ t) (sym (empty_text bytes empty)),
      );
    })
    | inr filled ↦ rw (filled) (
        Ends-bind _ _ u (send_bytes-Ends w d stream u (take chunk_size bytes)) (λ _ v (quiet, sent).
          Ends-weaken _
            (λ _ u' (quiet', sent'). (
              IsQuiet-trans w d stream quiet quiet',
              sent'
                  ∙ ap (λ t. t ++ drop chunk_size bytes) sent
                  ∙ append_assoc (said w d stream u) (take chunk_size bytes) (drop chunk_size bytes)
                  ∙ ap (λ t. said w d stream u ++ t) (take-append-drop chunk_size bytes),
            ))
            (λ u' quiet'. IsQuiet-trans w d stream quiet quiet')
            (send_pieces-Ends rounds (drop chunk_size bytes) v
              (omega (arith, length-drop chunk_size bytes, filled_text bytes filled)))))
  ]

  module _ (laws : IsDos d) where
    -- No file was changed, and nothing was heard.
    abbrev pub IsCalm : Place w d stream → Place w d stream → Type 0
    IsCalm u u' = Same laws.files u.state u'.state × (ahead w d stream u' ≡ ahead w d stream u)

    send_file-Ends :
        (local_path bytes : Text) (u : Place w d stream)
        → ReadsWell d
        → laws.files u.state (laws.place local_path) ≡ some bytes
        → Ends {A = Done}
            (λ _ u'. IsCalm u u' × (said w d stream u' ≡ said w d stream u ++ bytes))
            (IsCalm u)
            (send_file w d local_path u)
    unfolding send_file set_error
    send_file-Ends local_path bytes u well there =
        let s1 = (d.open_read u.state local_path).1 in
        let s2 = (d.malloc s1).1 in
        let same1 = laws.open_read_same u.state local_path in
        let same : Same laws.files u.state s2 = λ q. laws.malloc_same s1 q ∙ same1 q in
        let got = d.read s2 local_path in
        let whole : got.0 ≡ bytes =
          Gives-whole bytes got
            (laws.read_gives s2 local_path bytes (same (laws.place local_path) ∙ there))
            (well s2 local_path) in
        machine-bind _ _ u (
          check-bind _ _ _ (with_state u s1)
            (λ _. machine-bind d.malloc _ (with_state u s1) (
              check-bind _ _ _ (with_state u s2)
                (λ _. gets-bind _ _ (with_state u s2) (
                  Ends-weaken _
                    (λ _ u' (quiet, sent). (
                      ((λ q. ap (λ s. laws.files s q) quiet.state ∙ same q), quiet.ahead_same),
                      sent ∙ ap (λ t. said w d stream u ++ t) whole,
                    ))
                    (λ u' quiet.
                      ((λ q. ap (λ s. laws.files s q) quiet.state ∙ same q), quiet.ahead_same))
                    (send_pieces-Ends (suc (length got.0)) got.0 (with_state u s2) (omega arith))))
                (λ _. (same, refl))))
            (λ _. (same1, refl)))

    -- Each call of proto_send_upload for a file that is there with a path whose hexadecimal form
    -- fits, on a machine and a connection that keep their laws, where reading an open file does not
    -- fail. If it succeeds, it said the line PUT that describes the item, and then the whole file
    -- as it is now, byte by byte. Whether it succeeds or not, no file is changed and nothing is
    -- heard.
    pub send_upload-Ends :
        (item : FileItem) {path_hex bytes : Text} (u : Place w d stream)
        → ReadsWell d
        → encode_hex item.path path_hex_capacity ≡ some path_hex
        → laws.files u.state (laws.place item.local_path) ≡ some bytes
        → Ends {A = Done}
            (λ _ u'.
              IsCalm u u'
              × (said w d stream u'
                  ≡ (said w d stream u
                      ++ (describe (codes "PUT") path_hex item u.net.client.crc_disabled
                          ++ codes "\r\n"))
                    ++ bytes))
            (IsCalm u)
            (send_upload w d item u)
    unfolding send_upload say_item
    send_upload-Ends item {path_hex} {bytes} u well encoded there =
        Ends-bind _ _ u
          (demanded-bind _ _ u encoded (
            gets-bind _ _ u (
              Ends-weaken _ (λ _ v h. h)
                (λ v quiet. ((λ q. ap (λ s. laws.files s q) quiet.state), quiet.ahead_same))
                (say-Ends w d stream u
                  (describe (codes "PUT") path_hex item u.net.client.crc_disabled)))))
          (λ _ v (quiet, spoken).
            let same : Same laws.files u.state v.state =
              λ q. ap (λ s. laws.files s q) quiet.state in
            Ends-weaken _
              (λ _ u' ((same', ahead'), spoken'). (
                ((λ q. same' q ∙ same q), ahead' ∙ quiet.ahead_same),
                spoken' ∙ ap (λ t. t ++ bytes) spoken,
              ))
              (λ u' (same', ahead'). ((λ q. same' q ∙ same q), ahead' ∙ quiet.ahead_same))
              (send_file-Ends item.local_path bytes v well
                (same (laws.place item.local_path) ∙ there)))
