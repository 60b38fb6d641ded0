-- ===== src/Ledger/Store/Artifacts.antt =====
-- The methods of sqlite_store.rs on artifacts and loop warnings, and util/compression.rs.
use attow_nexus.Prelude.Exec.{Exec, pure, lift, gets, modify, ◌>>=◌, ◌>>◌}
use attow_nexus.Prelude.{
  ℕ, String, ◌<>◌, Bool, true, false, Option, none, some, List, [], ◌∷◌, if◌then◌else◌, ltb, length,
  ◌++◌, lookup, insert, remove, Result, ok, err, sort, concat,
}
use attow_nexus.Platform.{Platform}
use attow_nexus.Proto.{ArtifactRef, LoopWarning}
use attow_nexus.Ledger.Store.{disk, seconds_of}
use attow_nexus.Ledger.Store.Rows.{ArtifactRow, WarningRow, Store, warning_before}

module _ (p : Platform) where
  unfoldable pub maybe_compress : List ℕ → ℕ → Result (List ℕ × Bool)
  maybe_compress bytes threshold =
      if ltb (length bytes) threshold
      then ok (bytes, false)
      else elim (p.zstd_encode bytes) [ ok compressed ↦ ok (compressed, true) | err e ↦ err e ]

  unfoldable pub maybe_decompress : List ℕ → Bool → Result (List ℕ)
  maybe_decompress bytes compressed = if compressed then p.zstd_decode bytes else ok bytes

  -- The directory, the file and the row are three calls.
  unfoldable pub put_artifact : List ℕ → String → Exec Store ArtifactRef
  put_artifact bytes media_type = do
    disk
    threshold ← gets (λ s. s.compression_threshold_bytes)
    (stored, compressed) ← lift (maybe_compress bytes threshold)
    path ← gets (λ s. concat (s.artifact_dir ∷ "/artifact_" ∷ p.blake3_hex bytes ∷ []))
    disk
    modify (λ s. record s { files = insert path stored s.files })
    disk
    modify (λ s. record s {
      artifacts =
          insert ("artifact_" <> p.blake3_hex bytes)
            (record {
              content_hash = p.blake3_hex bytes;
              path = path;
              size_bytes = length bytes;
              media_type = media_type;
              compressed = compressed;
            })
            s.artifacts;
    })
    pure (record {
      artifact_id = "artifact_" <> p.blake3_hex bytes;
      content_hash = p.blake3_hex bytes;
      size_bytes = length bytes;
      media_type = media_type;
      compressed = compressed;
      metadata = none;
    })

  -- A file that is gone is an error of the read.
  read_artifact : ArtifactRow → Exec Store (Option (List ℕ))
  read_artifact row = do
    disk
    file ← gets (λ s. lookup row.path s.files)
    lift (elim file [
      | none ↦ err "No such file or directory"
      | some bytes ↦ elim (maybe_decompress bytes row.compressed) [
        | ok b ↦ ok (some b)
        | err e ↦ err e
      ]
    ])

  unfoldable pub get_artifact : String → Exec Store (Option (List ℕ))
  unfolding read_artifact
  get_artifact id = do
    disk
    row ← gets (λ s. lookup id s.artifacts)
    elim row [ none ↦ pure none | some r ↦ read_artifact r ]

  -- `INSERT OR REPLACE`: a row with this id goes, and the new one comes last.
  unfoldable pub append_loop_warning : LoopWarning → Exec Store Unit
  append_loop_warning w = do
    disk
    modify (λ s. record s {
      loop_warnings =
          remove w.warning_id s.loop_warnings
          ++ (
            w.warning_id,
            record {
              run_id = w.run_id;
              agent_id = w.agent_id;
              channel = w.channel;
              severity = w.severity;
              last_seen_seconds = seconds_of w.last_seen;
              proto = p.encode_warning w;
            },
          )
            ∷ [];
    })

  decode_warnings : List (String × WarningRow) → Result (List LoopWarning)
  decode_warnings [] = ok []
  decode_warnings ((id, row) ∷ rows) = elim (p.decode_warning row.proto) [
    | some w ↦ elim (decode_warnings rows) [ ok ws ↦ ok (w ∷ ws) | err e ↦ err e ]
    | none ↦ err "decode loop warning"
  ]

  unfoldable pub list_loop_warnings : Exec Store (List LoopWarning)
  unfolding decode_warnings
  list_loop_warnings = do
    disk
    rows ← gets (λ s. sort warning_before s.loop_warnings)
    lift (decode_warnings rows)
