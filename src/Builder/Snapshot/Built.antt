-- ===== src/Builder/Snapshot/Built.antt =====
-- What a successful build leaves at the output path: a complete snapshot of the builder's records.
use mathlib.Core.Path.{fun_ext, subst}
use lowlatency.Common.{
  Text, none, ℕ, ◌-◌, ◌^◌, ◌≤◌, ◌<◌, ◌≡◌, refl, sym, arith, Bytes, length, slice, Option, true,
  false, ◌==◌, ne→==, ok, IsU64,
}
use lowlatency.Kv.Header
use lowlatency.Kv.Header.{Header, max_records}
use lowlatency.Kv.Header.Layout.{IsHeader}
use lowlatency.Kv.Header.Bounds.{new-IsHeader, data_offset-new, validate_iff}
use lowlatency.Kv.GoFunction.{GoFunction, IsPerfect, Answers, IsLawful}
use lowlatency.Kv.Mphf
use lowlatency.Kv.Mphf.{Mphf}
use lowlatency.Kv.Mphf.Slots.{slot_of-IsPerfect}
use lowlatency.Kv.Mphf.Stored.{deserialize-same, slot_of-same, Answers-same}
use lowlatency.Kv.Store.Loaded.{Placed, IsTable}
use lowlatency.Kv.Store.Opening.{IsSnapshot}
use lowlatency.Builder.Snapshot.{Output, SnapshotBuilder, build}
use lowlatency.Builder.Snapshot.Layout.{
  up_to_flush, flushed, all_succeed, IsLaidOut, IsFinished, final_header, write_file_lem,
}

-- The digest has 32 bytes, and the builder holds a table of 1 to 10^10 records.
pub record IsBuildable (sha256 : Bytes → Bytes) (timestamp : ℕ) (b : SnapshotBuilder) : Type 0 where
  pub digest_sized : (section : Bytes) → length (sha256 section) ≡ 32
  pub timestamp_IsU64 : IsU64 timestamp
  pub table : IsTable b.keys b.values
  pub some_keys : 0 < length b.keys
  pub few_keys : length b.keys ≤ max_records

module _ (go : GoFunction) (sha256 : Bytes → Bytes) (timestamp : ℕ) (b : SnapshotBuilder) where
  -- What a successful build leaves at the output path.
  pub record IsBuilt (o : Output) : Type 0 where
    pub header : Header
    pub index : Bytes
    pub mphf : Mphf go
    pub snapshot : IsSnapshot go o.contents header index mphf b.keys b.values
    pub there : o.exists ≡ true
    pub stamped : header.build_timestamp ≡ timestamp
    pub sealed :
        header.checksum
        ≡ sha256 (slice header.data_offset (length o.contents - header.data_offset) o.contents)

  header_of : Bytes → Header
  header_of index = Header.new (length b.keys) (length index) timestamp

  laid_out :
      (m : Mphf go) (index : Bytes)
      → IsBuildable sha256 timestamp b
      → length index < 2 ^ 63
      → IsLaidOut go sha256 (header_of index) m index b
  unfolding header_of
  laid_out m index ready small =
      let (from, to, aligned) =
        data_offset-new (length b.keys) (length index) timestamp (omega arith) in
      record { index_before_data = from; addressable = omega (arith, ready.few_keys) }

  -- A finished file is a snapshot for any index with the same slots as the one it was laid out by.
  finished-IsSnapshot :
      (m m' : Mphf go) (index : Bytes) (o : Output)
      → IsBuildable sha256 timestamp b
      → length index < 2 ^ 63
      → IsPerfect (Mphf.slot_of go m) (length b.keys) b.keys
      → Answers go m'.function
      → Mphf.deserialize go index ≡ ok m'
      → m'.key_count ≡ length b.keys
      → ((k : Bytes) → Mphf.slot_of go m' k ≡ Mphf.slot_of go m k)
      → IsFinished go sha256 (header_of index) m index b o
      → IsSnapshot go o.contents
          (final_header go sha256 (header_of index) m index b o.contents)
          index
          m'
          b.keys
          b.values
  unfolding header_of final_header Header.new
  finished-IsSnapshot m m' index o ready small perfect total read counted same done =
      let base : IsHeader (Header.new (length b.keys) (length index) timestamp) =
        new-IsHeader (length b.keys) (length index) timestamp (omega (arith, ready.few_keys))
          ready.timestamp_IsU64 (omega arith) in
      let slots : Mphf.slot_of go m ≡ Mphf.slot_of go m' = sym (fun_ext same) in
      let laid : IsLaidOut go sha256 (header_of index) m index b = laid_out m index ready small in
      record {
        header_sized = record {
          magic_IsU64 = base.magic_IsU64;
          version_IsU64 = base.version_IsU64;
          record_count_IsU64 = base.record_count_IsU64;
          mphf_size_IsU64 = base.mphf_size_IsU64;
          data_offset_IsU64 = base.data_offset_IsU64;
          build_timestamp_IsU64 = base.build_timestamp_IsU64;
          length-checksum = ready.digest_sized _;
        };
        header_valid = (validate_iff _).1 (refl, refl, ready.few_keys);
        header_there = done.header_there;
        index_size = refl;
        index_there = done.index_there;
        index_read = read;
        indexed = counted;
        counted = refl;
        perfect =
            subst (λ (g : Bytes → Option ℕ). IsPerfect g (length b.keys) b.keys) slots perfect;
        total = total;
        placed =
            subst
              (λ (g : Bytes → Option ℕ).
                Placed g (header_of index).data_offset o.contents b.keys b.values)
              slots done.placed;
        index_before_data = laid.index_before_data;
        data_inside = omega (arith, done.sized);
        addressable = omega (arith, done.sized, laid.addressable);
      }

  -- The build, with all system calls succeeding up to the flush.
  pub build_flush-IsBuilt :
      (o : Output)
      → IsLawful go
      → IsBuildable sha256 timestamp b
      → (after : Output) × ((flush : Option Text)
          → build go sha256 (up_to_flush flush) timestamp b o ≡ (flushed flush, after))
        × IsBuilt after
  unfolding build Mphf.build
  build_flush-IsBuilt o lawful ready =
      let (f, found, total, perfect, body, stored) =
        lawful.builds b.keys ready.table.keys_sized ready.table.keys_distinct ready.few_keys in
      let m : Mphf go = record { function = f; key_count = length b.keys } in
      let some_there : (length b.keys == 0) ≡ false =
        ne→== _ _ (λ e. omega (arith, ready.some_keys)) in
      let (index, written, small, m', read, counted, same) =
        deserialize-same go m body lawful (omega (arith, ready.few_keys)) stored in
      let slots : IsPerfect (Mphf.slot_of go m) (length b.keys) b.keys =
        slot_of-IsPerfect go m b.keys perfect in
      let (after, ran, done) =
        write_file_lem go sha256 (header_of index) m index b o (laid_out m index ready small) slots
          ready.table in
      (
        after,
        λ flush. rw (some_there, found, written) (unfold header_of in ran flush),
        record {
          header = final_header go sha256 (header_of index) m index b after.contents;
          index = index;
          mphf = m';
          snapshot =
              finished-IsSnapshot m m' index after ready small slots
                (Answers-same go f m'.function same total) read counted
                (slot_of-same go m m' same counted) done;
          there = done.there;
          stamped = unfold final_header header_of Header.new in refl;
          sealed = unfold final_header in refl;
        },
      )

  pub build-IsBuilt :
      (o : Output)
      → IsLawful go
      → IsBuildable sha256 timestamp b
      → (after : Output) × (build go sha256 all_succeed timestamp b o ≡ (ok tt, after))
        × IsBuilt after
  unfolding flushed
  build-IsBuilt o lawful ready =
      let (after, ran, built) = build_flush-IsBuilt o lawful ready in (after, ran none, built)
