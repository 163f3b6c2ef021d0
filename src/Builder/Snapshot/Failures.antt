-- ===== src/Builder/Snapshot/Failures.antt =====
-- Builds that fail: what is reported, and what is left at the output path.
use lowlatency.Common.{
  ℕ, zero, suc, ◌-◌, ◌≡◌, refl, ap, ◌∙◌, arith, Bytes, Text, [], length, replicate, Option, some,
  none, true, false, ◌==◌, ne→==, ok, err,
}
use lowlatency.Common.Format.{codes}
use lowlatency.Kv.Error.{invalid_mphf}
use lowlatency.Kv.Header
use lowlatency.Kv.Header.{Header}
use lowlatency.Kv.GoFunction.{GoFunction, IsLawful}
use lowlatency.Kv.Mphf
use lowlatency.Kv.Mphf.{Mphf}
use lowlatency.Kv.Mphf.Stored.{deserialize-same}
use lowlatency.Builder.Snapshot
use lowlatency.Builder.Snapshot.{
  Output, Calls, SnapshotBuilder, build, write_file, call, truncated, resized, resize,
  index_not_built, file_not_created, size_not_set, file_not_mapped, map_not_flushed,
}
use lowlatency.Builder.Snapshot.Layout.{all_succeed, up_to_flush, flushed}
use lowlatency.Builder.Snapshot.Built.{IsBuildable, build_flush-IsBuilt}

resize_nil : (n : ℕ) → resize n [] ≡ replicate n 0
unfolding resize
resize_nil zero = refl
resize_nil (suc n) =
    let whole : suc n - 0 ≡ suc n = omega arith in ap (λ (k : ℕ). replicate k 0) whole

module _ (go : GoFunction) (sha256 : Bytes → Bytes) (timestamp : ℕ) (b : SnapshotBuilder) where
  -- An index is built and written to memory; the rest of the build works on the file.
  build-write_file :
      IsLawful go
      → IsBuildable sha256 timestamp b
      → (m : Mphf go) × (index : Bytes) × ((calls : Calls) (o : Output)
          → build go sha256 calls timestamp b o
            ≡ write_file go sha256 calls
                (Header.new (length b.keys) (length index) timestamp)
                m
                index
                b
                o)
  unfolding build Mphf.build
  build-write_file lawful ready =
      let (f, found, total, perfect, body, stored) =
        lawful.builds b.keys ready.table.keys_sized ready.table.keys_distinct ready.few_keys in
      let m : Mphf go = record { function = f; key_count = length b.keys } in
      let some_there : (length b.keys == 0) ≡ false =
        ne→== _ _ (λ e. omega (arith, ready.some_keys)) in
      let (index, written, small, m', read, counted, same) =
        deserialize-same go m body lawful (omega (arith, ready.few_keys)) stored in
      (m, index, λ calls o. rw (some_there, found, written))

  -- When a system call fails the build reports that call. If the file was not created, what stood
  -- at the path is still there; otherwise it is lost: an empty file is left if its size could not
  -- be set, zeros if it could not be mapped, and if the flush fails a complete snapshot is in the
  -- map, the one that a build without failures leaves.
  pub build_failures :
      (set_len map_mut flush : Option Text) (e : Text) (o : Output)
      → IsLawful go
      → IsBuildable sha256 timestamp b
      → (build go sha256
            (record { create = some e; set_len = set_len; map_mut = map_mut; flush = flush })
            timestamp
            b
            o
          ≡ (err (file_not_created e), o))
        × (build go sha256
              (record { create = none; set_len = some e; map_mut = map_mut; flush = flush })
              timestamp
              b
              o
            ≡ (err (size_not_set e), record { exists = true; contents = [] }))
        × ((size : ℕ) × (build go sha256
                (record { create = none; set_len = none; map_mut = some e; flush = flush })
                timestamp
                b
                o
              ≡ (err (file_not_mapped e), record { exists = true; contents = replicate size 0 })))
        × ((after : Output) × (build go sha256 (up_to_flush (some e)) timestamp b o
              ≡ (err (map_not_flushed e), after))
            × (build go sha256 all_succeed timestamp b o ≡ (ok tt, after)))
  unfolding write_file call truncated resized resize flushed
  build_failures set_len map_mut flush e o lawful ready =
      let (m, index, runs) = build-write_file lawful ready in
      let (after, ran, built) = build_flush-IsBuilt go sha256 timestamp b o lawful ready in
      (
        runs _ o ∙ refl,
        runs _ o ∙ refl,
        (
          _,
          runs _ o
              ∙ ap
                  (λ (c : Bytes). (err (file_not_mapped e), record { exists = true; contents = c }))
                  (resize_nil _),
        ),
        (after, ran (some e), ran none),
      )

-- A builder that holds no record fails before the file is created.
pub build_empty :
    (go : GoFunction) (sha256 : Bytes → Bytes) (calls : Calls) (timestamp : ℕ) (o : Output)
    → build go sha256 calls timestamp Snapshot.new o
      ≡ (err (index_not_built (invalid_mphf (codes "Cannot build MPHF with zero keys"))), o)
unfolding build Mphf.build Snapshot.new
build_empty go sha256 calls timestamp o = refl
