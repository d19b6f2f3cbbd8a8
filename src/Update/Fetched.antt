-- ===== src/Update/Fetched.antt =====
-- The program that proto_receive_update loads before it starts it.
use win16sync.Prelude.{
  ℕ, ◌≡◌, sym, ap, ◌∙◌, false, some, [], ◌∷◌, ◌++◌, length, Text, codes, c_text, text_eq_iff,
  append_assoc, inl, inr,
}
use win16sync.Action.{Done, ◌>>=◌, ◌>>◌}
use win16sync.Action.Ends.{Ends, Ends-bind, Ends-weaken}
use win16sync.Crc.{file_crc32}
use win16sync.Dos.{Dos, IsDos, Only}
use win16sync.Download.{kind_capacity, fetch_file, verify}
use win16sync.Download.Fetch.{fetch_file-Fetched}
use win16sync.Download.Local.{Others, Sets-cases, ReadsWell}
use win16sync.Download.Replaces.{verify-Ends}
use win16sync.Line.{line_kind}
use win16sync.Session.{with_state, by_machine, check}
use win16sync.Session.Calls.{Place, ahead, said, IsReady, say-Ends, hear-Ends}
use win16sync.Session.Effects.{machine-bind, check-bind}
use win16sync.Update.{fetch_update}
use win16sync.Winsock.{Winsock, IsStream}
use win16sync.Wire.Newline.{HasNoNewline}
use win16sync.Wire.ReadLine.{strip_cr}

module _ (w : Winsock) (d : Dos) (stream : IsStream w) (laws : IsDos d) (well : ReadsWell d) where
  -- The announced bytes were heard, have the announced checksum, and are the file.
  abbrev IsLoaded : Text → ℕ → ℕ → Place w d stream → Place w d stream → Type 0
  IsLoaded path size crc u u' =
      (bytes : Text) × (ahead w d stream u ≡ bytes ++ ahead w d stream u')
      × (length bytes ≡ size)
      × (file_crc32 (some bytes) ≡ some crc)
      × Only laws.files (laws.place path) (some bytes) u.state u'.state
      × (said w d stream u' ≡ said w d stream u)

  verified-Ends :
      (path : Text) (size crc : ℕ) (u v : Place w d stream) (bytes : Text)
      → length bytes ≡ size
      → Only laws.files (laws.place path) (some bytes) u.state v.state
      → ahead w d stream u ≡ bytes ++ ahead w d stream v
      → said w d stream v ≡ said w d stream u
      → Ends {A = Done}
          (λ _. IsLoaded path size crc u)
          (λ x. Others laws.files (laws.place path) u.state x.state)
          (verify w d false path (codes "Update-CRC stimmt nicht") crc v)
  verified-Ends path size crc u v bytes long (there, others) next quiet =
      Ends-weaken _
        (λ _ x ((net, old, there'), checked). (
          bytes,
          next ∙ ap (λ n. bytes ++ ahead w d stream (record v { net = n })) (sym net),
          long,
          elim checked [ inl wrong ↦ absurd (cc wrong) | inr right ↦ right ],
          (there', old),
          ap (λ n. said w d stream (record v { net = n })) net ∙ quiet,
        ))
        (λ x old. old)
        (verify-Ends w d laws well (laws.files u.state) path path false
          (codes "Update-CRC stimmt nicht") bytes crc v others there)

  load-Ends :
      (path : Text) (size crc : ℕ) (u : Place w d stream)
      → Ends {A = Done}
          (λ _. IsLoaded path size crc u)
          (λ x. Others laws.files (laws.place path) u.state x.state)
          ((by_machine (λ s. d.create s path) >>= λ opened.
              check opened (codes "Update-Datei konnte nicht erstellt werden")
              >> (fetch_file w d path
                    (codes "Nicht genug Speicher fuer Update")
                    (codes "Update-Datei konnte nicht geschrieben werden")
                    size
                  >> verify w d false path (codes "Update-CRC stimmt nicht") crc))
            u)
  load-Ends path size crc u =
      let r = d.create u.state path in
      let created = Sets-cases laws.files r (laws.create_sets u.state path) in
      machine-bind _ _ u (
        check-bind r.0 _ _ (with_state u r.1)
          (λ ok. elim created [
            | inr (stopped, _) ↦ absurd (cc (sym ok ∙ stopped))
            | inl (_, (empty, others)) ↦
                Ends-bind _ _ (with_state u r.1)
                  (Ends-weaken _ (λ _ _ h. h) (λ v (on, spared). λ q m. spared q m ∙ others q m)
                    (fetch_file-Fetched w d stream laws path _ _ [] size (with_state u r.1) empty))
                  (λ _ v (bytes, long, on, (there, spared), next, quiet).
                    verified-Ends path size crc u v bytes long
                      (there, λ q m. spared q m ∙ others q m) next quiet)
          ])
          (λ bad. elim created [
            | inl (ok, _) ↦ absurd (cc (sym ok ∙ bad))
            | inr (_, same) ↦ λ q m. same q
          ]))

  -- The loading of a newer client, with at most 1024 bytes buffered, on a machine and a connection
  -- that keep their laws, where reading an open file does not fail. If it succeeds, it said
  -- GETUPDATE, heard a line UPDATEFILE and then just as many bytes as the server had offered; these
  -- have the offered checksum, even where checksums are off, and are the new file. Whether it
  -- succeeds or not, no other file is changed.
  pub fetch_update-Fetches :
      (path : Text) (size crc : ℕ) (u : Place w d stream)
      → IsReady w d stream u
      → Ends {A = Done}
          (λ _ u'.
            (raw : Text) × (bytes : Text) × (ahead w d stream u
              ≡ raw ++ b'\n' ∷ (bytes ++ ahead w d stream u'))
            × HasNoNewline raw
            × (line_kind [] (c_text (strip_cr raw)) kind_capacity ≡ codes "UPDATEFILE")
            × (length bytes ≡ size)
            × (file_crc32 (some bytes) ≡ some crc)
            × Only laws.files (laws.place path) (some bytes) u.state u'.state
            × (said w d stream u' ≡ said w d stream u ++ codes "GETUPDATE\r\n"))
          (λ u'. Others laws.files (laws.place path) u.state u'.state)
          (fetch_update w d path size crc u)
  unfolding fetch_update
  fetch_update-Fetches path size crc u ready =
      let keeps : (s : d.State) → s ≡ u.state → Others laws.files (laws.place path) u.state s =
        λ s e q m. ap (λ x. laws.files x q) e in
      Ends-bind _ _ u
        (Ends-weaken _ (λ _ _ h. h) (λ v h. keeps v.state h.state)
          (say-Ends w d stream u (codes "GETUPDATE")))
        (λ _ u1 (quiet, said1).
          Ends-bind _ _ u1
            (Ends-weaken _ (λ _ _ h. h) (λ v h. keeps v.state (h.state ∙ quiet.state))
              (hear-Ends w d stream u1 (quiet.on.kept.bounded ready)))
            (λ line u2 ((raw, heard, clean, line_is), ready2).
              let same = heard.state ∙ quiet.state in
              check-bind _ _ _ u2
                (λ is_file.
                  check-bind _ _ _ u2
                    (λ _.
                      Ends-weaken _
                        (λ _ u' (bytes, next, long, right, (there, others), spoken). (
                          raw,
                          bytes,
                          sym quiet.ahead_same
                              ∙ heard.next
                              ∙ append_assoc raw (b'\n' ∷ []) (ahead w d stream u2)
                              ∙ ap (λ t. raw ++ b'\n' ∷ t) next,
                          clean,
                          ap (λ t. line_kind [] t kind_capacity) (sym line_is)
                              ∙ (text_eq_iff (line_kind [] line kind_capacity)
                                    (codes "UPDATEFILE")).0
                                  is_file,
                          long,
                          right,
                          (there, λ q m. others q m ∙ ap (λ x. laws.files x q) same),
                          spoken ∙ heard.said_same ∙ said1,
                        ))
                        (λ x others q m. others q m ∙ ap (λ s. laws.files s q) same)
                        (load-Ends path size crc u2))
                    (λ _. keeps u2.state same))
                (λ _. keeps u2.state same)))
