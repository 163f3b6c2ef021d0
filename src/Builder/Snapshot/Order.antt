-- ===== src/Builder/Snapshot/Order.antt =====
-- Snapshots that are built from the same records in another order.
use mathlib.Core.List.{zip}
use lowlatency.Common.{ℕ, ◌≡◌, sym, ◌∙◌, ap, Bytes, List, ok, Option}
use lowlatency.Kv.Error.{Error}
use lowlatency.Kv.GoFunction.{GoFunction, IsLawful}
use lowlatency.Kv.Store
use lowlatency.Kv.Store.{KvStore, open_bytes, iter}
use lowlatency.Kv.Store.Loaded.{lookup, IsLoaded}
use lowlatency.Kv.Store.Lookup.{get-lookup}
use lowlatency.Kv.Store.Opening.{open_bytes-IsLoaded}
use lowlatency.Kv.Store.Contents.{contents, contents-lookup, iter-contents}
use lowlatency.Builder.Snapshot.{Output, SnapshotBuilder, build}
use lowlatency.Builder.Snapshot.Layout.{all_succeed}
use lowlatency.Builder.Snapshot.Built.{IsBuildable, build-IsBuilt}

-- A built file opens to a store with the builder's table.
pub build-IsLoaded :
    (go : GoFunction) (sha256 : Bytes → Bytes) (timestamp : ℕ) (b : SnapshotBuilder) (o : Output)
    → IsLawful go
    → IsBuildable sha256 timestamp b
    → (s : KvStore go) × (open_bytes go (build go sha256 all_succeed timestamp b o).1.contents
        ≡ ok s)
      × IsLoaded go s b.keys b.values
build-IsLoaded go sha256 timestamp b o lawful ready =
    let (after, ran, built) = build-IsBuilt go sha256 timestamp b o lawful ready in
    let (s, opens, loaded, mapped, info) =
      open_bytes-IsLoaded go after.contents built.header built.index built.mphf b.keys b.values
        built.snapshot in
    (s, rw ran opens, loaded)

-- The order in which records are added to a builder does not show: when two builders hold the same
-- records up to their order, the files that they build, at any times and over any files, open to
-- stores that give a key the same answer, and whose iterations give the same entries up to order,
-- those of the builders.
pub build-contents :
    (go : GoFunction) (sha256 : Bytes → Bytes) (a b : SnapshotBuilder) (timestamp_a timestamp_b : ℕ)
    (before_a before_b : Output) (key : Bytes)
    → IsLawful go
    → IsBuildable sha256 timestamp_a a
    → IsBuildable sha256 timestamp_b b
    → contents (zip a.keys a.values) ≡ contents (zip b.keys b.values)
    → (s t : KvStore go) × (open_bytes go
          (build go sha256 all_succeed timestamp_a a before_a).1.contents
        ≡ ok s)
      × (open_bytes go (build go sha256 all_succeed timestamp_b b before_b).1.contents ≡ ok t)
      × (Store.get go {E = Error} s key ≡ Store.get go {E = Error} t key)
      × (pairs_a pairs_b : List (Bytes × Bytes)) × (iter go {E = Error} s ≡ ok pairs_a)
      × (iter go {E = Error} t ≡ ok pairs_b)
      × (contents pairs_a ≡ contents pairs_b)
      × (contents pairs_a ≡ contents (zip a.keys a.values))
build-contents go sha256 a b timestamp_a timestamp_b before_a before_b key lawful ready_a ready_b
      same =
    let (s, opens_s, loaded_s) = build-IsLoaded go sha256 timestamp_a a before_a lawful ready_a in
    let (t, opens_t, loaded_t) = build-IsLoaded go sha256 timestamp_b b before_b lawful ready_b in
    let (pairs_a, ran_a, all_a) = iter-contents Error go s a.keys a.values ready_a.table loaded_s in
    let (pairs_b, ran_b, all_b) = iter-contents Error go t b.keys b.values ready_b.table loaded_t in
    let answers : lookup key a.keys a.values ≡ lookup key b.keys b.values =
      contents-lookup a.keys a.values b.keys b.values key ready_a.table.keys_distinct
        ready_b.table.keys_distinct same in
    (
      s,
      t,
      opens_s,
      opens_t,
      get-lookup go s a.keys a.values key ready_a.table loaded_s
          ∙ ap (λ (r : Option Bytes). ok r) answers
          ∙ sym (get-lookup go t b.keys b.values key ready_b.table loaded_t),
      pairs_a,
      pairs_b,
      ran_a,
      ran_b,
      all_a ∙ same ∙ sym all_b,
      all_a,
    )
