-- ===== src/Tests/Requests.antt =====
-- A GET whose steps are interleaved with a reload, at a concrete input.
use lowlatency.Common.{
  arith, ◌+◌, ◌≡◌, refl, Bytes, [], ◌∷◌, length, Option, true, ◌==◌, eq→==, All, ok,
}
use lowlatency.Kv.Record.{key_size}
use lowlatency.Kv.Store.Loaded.{lookup}
use lowlatency.Kv.Store.Lookup.{get-lookup}
use lowlatency.Server.Service
use lowlatency.Server.Service.{Status, KvServiceImpl, reload}
use lowlatency.Server.Service.Replies.{with_request}
use lowlatency.Server.Service.Batches.{answers, counted_all}
use lowlatency.Server.Concurrent.{
  get_started, get_loaded, get_looked_up, get_counted, get_timed, batch_started, batch_replied,
  advance, Server, get_arrives, swap, turn, Reach, here, next, started, reply, IsTotal,
}
use lowlatency.Server.Concurrent.Counted.{lookups, latencies, successes, failures, total}
use lowlatency.Server.Concurrent.Totals.{IsReplied, started-total, replied-total}
use lowlatency.Server.Concurrent.Opened.{IsOpened, opened-replied}
use lowlatency.Tests.Forged.{two_read, two_total}
use lowlatency.Tests.Data.{
  two_file, two_facts, two_opened, two_records, stamp, no_file, digest, two-IsBuildable, two_built,
  key_of, key_of-IsKey, two_keys, two_values, two-IsTable, two_store, two-IsLoaded,
}
use lowlatency.Server.Concurrent.Alone.{drive, drive-answers}
use lowlatency.Server.Concurrent.Tickets.{tickets, IsServed, Paired}
use lowlatency.Server.Concurrent.Atomic.{tickets-IsServed}
use lowlatency.Server.Concurrent.Built.{IsBuiltStore, IsAnswered, tickets-IsAnswered}
use lowlatency.Tests.Hash.{places, places-IsLawful}

two-IsTotal : IsTotal places two_store
two-IsTotal key = (_, get-lookup places two_store two_keys two_values key two-IsTable two-IsLoaded)

abbrev found : Option Bytes
found = lookup (key_of 2) two_keys two_values

abbrev service : KvServiceImpl places
service = Service.new places two_store

service-IsTotal : IsTotal places service.store
unfolding Service.new
service-IsTotal = two-IsTotal

arrived :
    Reach places
      (started places two_store)
      (record { service = service; requests = get_started (key_of 2) ∷ [] })
unfolding started Service.new
arrived = next here (get_arrives _ (key_of 2))

sized : (length (key_of 2) == key_size) ≡ true
sized = eq→== _ _ (key_of-IsKey 2)

loaded :
    Reach places
      (started places two_store)
      (record { service = service; requests = get_loaded (key_of 2) two_store ∷ [] })
unfolding advance Service.new
loaded = next arrived (turn _ 0 [] [] (get_started (key_of 2)) _ _ refl (rw sized refl))

looked_up :
    Reach places
      (started places two_store)
      (record { service = reload places two_store service; requests = get_looked_up found ∷ [] })
unfolding advance reload
looked_up = next (next loaded (swap _ two_store)) (
    turn _ 0 [] [] (get_loaded (key_of 2) two_store) _ _ refl (
      rw
        (get-lookup places two_store two_keys two_values {E = Status} (key_of 2) two-IsTable
          two-IsLoaded)
        refl))

-- The server when the request has been replied to.
done : (w : Server places) × Reach places (started places two_store) w × All IsReplied w.requests
unfolding advance successes failures
done = (
  _,
  next
      (next (next looked_up (turn _ 0 [] [] (get_looked_up found) _ _ refl refl))
        (turn _ 700 [] [] (get_counted (reply found)) _ _ refl refl))
      (turn _ 0 [] [] (get_timed (reply found)) _ _ refl refl),
  (refl, tt),
)

started-total_example :
    (done.0.service.metrics.hits_total + done.0.service.metrics.misses_total
      ≡ total lookups done.0.requests)
    × (length done.0.service.metrics.latency ≡ total latencies done.0.requests)
    × (done.0.service.metrics.requests_total ≡ total successes done.0.requests)
    × (done.0.service.metrics.errors_total ≡ total failures done.0.requests)
started-total_example = started-total places two_store done.1

replied-total_example :
    (done.0.service.metrics.requests_total + done.0.service.metrics.errors_total
      ≡ length done.0.requests)
    × (length done.0.service.metrics.latency ≡ done.0.service.metrics.requests_total)
replied-total_example = replied-total places two_store done.1 done.2

two-IsOpened : IsOpened two_store
two-IsOpened =
    let snap = two_facts.snapshot in
    record {
      bytes = two_file;
      header = two_facts.header;
      small = snap.addressable;
      parsed = two_read;
      opens = two_opened.1;
      total = two_total;
      straight = omega (arith, snap.data_inside, snap.counted, snap.addressable);
    }

opened-replied_example :
    (v : Server places) × Reach places
      (record { service = reload places two_store service; requests = get_looked_up found ∷ [] })
      v
    × All IsReplied v.requests
    × (length v.requests ≡ 1)
unfolding looked_up loaded arrived
opened-replied_example =
    opened-replied places two_store two-IsOpened looked_up ((((tt, tt), tt), two-IsOpened), tt)

drive-answers_example :
    drive places 7 900 service (batch_started (key_of 2 ∷ (key_of 3 ∷ [])))
    ≡ ok (
      record service {
        metrics =
            with_request 900
              (counted_all two_keys two_values (key_of 2 ∷ (key_of 3 ∷ [])) service.metrics);
      },
      batch_replied (answers two_keys two_values (key_of 2 ∷ (key_of 3 ∷ []))),
    )
unfolding Service.new
drive-answers_example =
    drive-answers places two_keys two_values 900 (key_of 2 ∷ (key_of 3 ∷ [])) service two-IsTable
      two-IsLoaded (key_of-IsKey 2, (key_of-IsKey 3, tt))

tickets-IsServed_example : Paired IsServed (tickets done.1) done.0.requests
tickets-IsServed_example = tickets-IsServed places two_store done.1

two-IsBuiltStore : IsBuiltStore digest two_store
two-IsBuiltStore = record {
  builder = two_records;
  timestamp = stamp;
  before = no_file;
  ready = two-IsBuildable;
  opens = rw two_built.1 two_opened.1;
}

-- The GET has been replied to, after a reload while it was under way.
tickets-IsAnswered_example : Paired (IsAnswered digest) (tickets done.1) done.0.requests
unfolding done looked_up loaded arrived
tickets-IsAnswered_example =
    tickets-IsAnswered places digest two_store done.1 places-IsLawful two-IsBuiltStore
      (((((((tt, tt), tt), two-IsBuiltStore), tt), tt), tt), tt)
