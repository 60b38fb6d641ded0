-- ===== src/Ledger/Store/RoundTrip.antt =====
-- On `put_artifact` and `get_artifact` of daemon/src/ledger/sqlite_store.rs.
use attow_nexus.Prelude.{
  ℕ, ◌≡◌, refl, String, ◌<>◌, Bool, true, false, some, List, [], ◌∷◌, eq_refl, lookup, insert,
  lookup-insert, ok, arith, Bool-cases, inl, inr, ltb, length, concat,
}
use attow_nexus.Platform.{Platform, IsCompressor}
use attow_nexus.Ledger.Store.{disk}
use attow_nexus.Ledger.Store.Rows.{ArtifactRow, Store}
use attow_nexus.Ledger.Store.Artifacts.{
  put_artifact, get_artifact, maybe_compress, maybe_decompress,
}

lookup_inserted :
    {V : Type 0} (k : String) (v : V) (m : List (String × V)) → lookup k (insert k v m) ≡ some v
lookup_inserted k v m = rw (lookup-insert k k v m, eq_refl k) refl

module _ (p : Platform) where
  put_artifact_healthy :
      (bytes stored : List ℕ) (compressed : Bool) (media_type : String) (s : Store)
      → s.faults ≡ []
      → maybe_compress p bytes s.compression_threshold_bytes ≡ ok (stored, compressed)
      → let path = concat (s.artifact_dir ∷ "/artifact_" ∷ p.blake3_hex bytes ∷ []) in
        (put_artifact p bytes media_type s).1 ≡ record s {
          files = insert path stored s.files;
          artifacts =
              insert
                ("artifact_" <> p.blake3_hex bytes)
                (record {
                  content_hash = p.blake3_hex bytes;
                  path = path;
                  size_bytes = length bytes;
                  media_type = media_type;
                  compressed = compressed;
                })
                s.artifacts;
        }
  unfolding put_artifact disk
  put_artifact_healthy bytes stored compressed media_type s h e = rw (h) (rw (e) refl)

  maybe_decompress-maybe_compress :
      (bytes content stored : List ℕ) (threshold : ℕ)
      → IsCompressor p
      → p.zstd_encode bytes ≡ ok stored
      → (compressed : Bool) → maybe_compress p bytes threshold ≡ ok (content, compressed)
      → maybe_decompress p content compressed ≡ ok bytes
  unfolding maybe_compress maybe_decompress
  maybe_decompress-maybe_compress bytes content stored threshold c e compressed h =
      ground (arith, e, c.zstd_round_trip bytes stored e)

  maybe_compress_total :
      (bytes stored : List ℕ) (threshold : ℕ)
      → p.zstd_encode bytes ≡ ok stored
      → (content : List ℕ) × (compressed : Bool) × (maybe_compress p bytes threshold
          ≡ ok (content, compressed))
  unfolding maybe_compress
  maybe_compress_total bytes stored threshold e = elim (Bool-cases (ltb (length bytes) threshold)) [
    | inl small ↦ (bytes, false, ground (arith, small))
    | inr large ↦ (stored, true, ground (arith, large, e))
  ]

  get_artifact_healthy :
      (id : String) (t : Store) (row : ArtifactRow) (content bytes : List ℕ)
      → t.faults ≡ []
      → lookup id t.artifacts ≡ some row
      → lookup row.path t.files ≡ some content
      → maybe_decompress p content row.compressed ≡ ok bytes
      → (get_artifact p id t).0 ≡ ok (some bytes)
  unfolding get_artifact disk
  get_artifact_healthy id t row content bytes healthy found file back =
      rw healthy (rw found (rw file (rw back refl)))

  -- When no call fails and compression succeeds, an artifact that was put is read back byte by byte,
  -- compressed or not.
  pub get_artifact-put_artifact :
      (bytes stored : List ℕ) (media_type : String) (s : Store)
      → IsCompressor p
      → s.faults ≡ []
      → p.zstd_encode bytes ≡ ok stored
      → (get_artifact p ("artifact_" <> p.blake3_hex bytes) (put_artifact p bytes media_type s).1).0
        ≡ ok (some bytes)
  get_artifact-put_artifact bytes stored media_type s compressor healthy e =
      let (content, compressed, h) =
        maybe_compress_total bytes stored s.compression_threshold_bytes e in
      let path = concat (s.artifact_dir ∷ "/artifact_" ∷ p.blake3_hex bytes ∷ []) in
      let id = "artifact_" <> p.blake3_hex bytes in
      let row : ArtifactRow = record {
        content_hash = p.blake3_hex bytes;
        path = path;
        size_bytes = length bytes;
        media_type = media_type;
        compressed = compressed;
      } in
      rw (put_artifact_healthy bytes content compressed media_type s healthy h) (
        get_artifact_healthy id
          (record s { files = insert path content s.files; artifacts = insert id row s.artifacts })
          row content bytes healthy (lookup_inserted id row s.artifacts)
          (lookup_inserted path content s.files)
          (maybe_decompress-maybe_compress bytes content stored s.compression_threshold_bytes
            compressor e compressed h))
