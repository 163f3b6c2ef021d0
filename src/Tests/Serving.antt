-- ===== src/Tests/Serving.antt =====
-- The theorems about the service at concrete inputs.
use lowlatency.Common.{
  ◌≡◌, arith, List, [], ◌∷◌, ◌++◌, Bytes, length, ok, err, if◌then◌else◌, ◌==◌, All,
}
use lowlatency.Kv.Record.{key_size, IsKey}
use lowlatency.Kv.Store.Loaded.{lookup}
use lowlatency.Server.Service
use lowlatency.Server.Service.{
  KvServiceImpl, invalid_argument, key_size_message, batch_key_message, batch_get,
}
use lowlatency.Server.Service.Replies.{answer, counted, with_error, with_request, get-answer}
use lowlatency.Server.Service.Batches.{answers, counted_all, batch_get-answers, batch_get-reject}
use lowlatency.Tests.Hash.{places}
use lowlatency.Tests.Data.{
  key_of, key_of-IsKey, two_keys, two_values, two-IsTable, two_store, two-IsLoaded,
}

abbrev service : KvServiceImpl places
service = record {
  store = two_store;
  metrics = record {
    requests_total = 4;
    hits_total = 3;
    misses_total = 2;
    errors_total = 1;
    latency = [];
  };
}

get-answer_example : Service.get places (key_of 2) 700 service ≡ (
    if length (key_of 2) == key_size
    then (
      ok (answer (lookup (key_of 2) two_keys two_values)),
      record service {
        metrics =
            with_request 700 (counted (lookup (key_of 2) two_keys two_values) service.metrics);
      },
    )
    else (
      err (invalid_argument (key_size_message (length (key_of 2)))),
      record service { metrics = with_error service.metrics },
    ))
get-answer_example =
    get-answer places two_keys two_values two-IsTable service two-IsLoaded (key_of 2) 700

abbrev asked : List Bytes
asked = key_of 2 ∷ key_of 3 ∷ []

asked-IsKey : All IsKey asked
asked-IsKey = (key_of-IsKey 2, (key_of-IsKey 3, tt))

batch_get-answers_example : batch_get places asked 900 service ≡ (
  ok (answers two_keys two_values asked),
  record service {
    metrics = with_request 900 (counted_all two_keys two_values asked service.metrics);
  },
)
batch_get-answers_example =
    batch_get-answers places two_keys two_values service asked 900 two-IsTable two-IsLoaded
      asked-IsKey

batch_get-reject_example : batch_get places (asked ++ ((7 ∷ []) ∷ key_of 1 ∷ [])) 900 service ≡ (
  err (invalid_argument batch_key_message),
  record service { metrics = with_error (counted_all two_keys two_values asked service.metrics) },
)
batch_get-reject_example =
    batch_get-reject places two_keys two_values service asked (7 ∷ []) (key_of 1 ∷ []) 900
      two-IsTable two-IsLoaded asked-IsKey (omega arith)
