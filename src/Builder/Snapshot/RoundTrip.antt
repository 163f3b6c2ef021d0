-- ===== src/Builder/Snapshot/RoundTrip.antt =====
-- Build, open and look up: the store that is opened from a built file is the table that was built.
use lowlatency.Common.{ℕ, ◌-◌, ◌≡◌, ap, ◌∙◌, Bytes, length, slice, ok, bytes_eq_refl}
use lowlatency.Kv.Error.{Error}
use lowlatency.Kv.Header
use lowlatency.Kv.Header.{Header, verify_checksum}
use lowlatency.Kv.GoFunction.{GoFunction, IsLawful}
use lowlatency.Kv.Store
use lowlatency.Kv.Store.{KvStore, VersionInfo, open_bytes}
use lowlatency.Kv.Store.Loaded.{lookup}
use lowlatency.Kv.Store.Lookup.{get-lookup}
use lowlatency.Kv.Store.Opening.{open_bytes-IsLoaded, header_read}
use lowlatency.Builder.Snapshot
use lowlatency.Builder.Snapshot.{Output, SnapshotBuilder, build}
use lowlatency.Builder.Snapshot.Layout.{all_succeed}
use lowlatency.Builder.Snapshot.Built.{IsBuildable, build-IsBuilt}

module _ (go : GoFunction) (sha256 : Bytes → Bytes) (timestamp : ℕ) (b : SnapshotBuilder) where
  -- The distinct keys of 64 bytes, with values of 256 bytes, that a builder holds, from 1 to 10^10
  -- of them, are built to a file when all system calls succeed, whatever stood at the path before.
  -- The file opens; the store has the builder's length and timestamp, and it answers every key, of
  -- the builder or not, with the value that the builder has for it, or with `None`.
  pub build-open-get :
      (o : Output)
      → IsLawful go
      → IsBuildable sha256 timestamp b
      → (after : Output) × (build go sha256 all_succeed timestamp b o ≡ (ok tt, after))
        × (s : KvStore go) × (open_bytes go after.contents ≡ ok s)
        × (Store.len go s ≡ Snapshot.len b)
        × ((Store.version_info go s).build_timestamp ≡ timestamp)
        × ((key : Bytes) → Store.get go {E = Error} s key ≡ ok (lookup key b.keys b.values))
  unfolding Store.len Store.version_info Snapshot.len
  build-open-get o lawful ready =
      let (after, ran, built) = build-IsBuilt go sha256 timestamp b o lawful ready in
      let (s, opens, loaded, mapped, info) =
        open_bytes-IsLoaded go after.contents built.header built.index built.mphf b.keys b.values
          built.snapshot in
      (
        after,
        ran,
        s,
        opens,
        loaded.counted,
        ap (λ (i : VersionInfo). i.build_timestamp) info ∙ built.stamped,
        λ key. get-lookup go s b.keys b.values key ready.table loaded,
      )

  -- The data section of a built file passes the checksum in the file's header.
  pub verify_checksum-build :
      (o : Output)
      → IsLawful go
      → IsBuildable sha256 timestamp b
      → (after : Output) × (build go sha256 all_succeed timestamp b o ≡ (ok tt, after))
        × (h : Header) × (Header.from_bytes after.contents ≡ ok h)
        × (verify_checksum sha256 h
              (slice h.data_offset (length after.contents - h.data_offset) after.contents)
            ≡ ok tt)
  unfolding verify_checksum
  verify_checksum-build o lawful ready =
      let (after, ran, built) = build-IsBuilt go sha256 timestamp b o lawful ready in
      (
        after,
        ran,
        built.header,
        header_read go after.contents built.header built.index built.mphf b.keys b.values
            built.snapshot,
        rw built.sealed (rw bytes_eq_refl),
      )
