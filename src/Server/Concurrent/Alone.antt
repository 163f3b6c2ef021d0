-- ===== src/Server/Concurrent/Alone.antt =====
-- A request whose steps no other request or reload comes between does what its handler does.
use lowlatency.Common.{
  ℕ, zero, suc, ◌+◌, ◌*◌, arith, ◌≡◌, refl, ap, ◌∙◌, Bytes, List, [], ◌∷◌, ◌++◌, length, true,
  false, ◌==◌, All, Bool-cases, Option-cases, inl, inr, Outcome, ok, err, panic, ◌>>=◌,
}
use lowlatency.Common.Action.{continue}
use lowlatency.Kv.Record.{IsKey, key_size}
use lowlatency.Kv.GoFunction.{GoFunction}
use lowlatency.Kv.Store.{KvStore}
use lowlatency.Kv.Store.Loaded.{IsTable, IsLoaded}
use lowlatency.Kv.Store.Lookup.{get-lookup}
use lowlatency.Server.Service.Replies.{with_request}
use lowlatency.Server.Service.Batches.{answers, counted_all, batch_get-answers}
use lowlatency.Server.Metrics
use lowlatency.Server.Service.{Status, GetResponse, KvServiceImpl, get, batch_get, batch_keys}
use lowlatency.Server.Concurrent.{
  Point, get_started, get_replied, batch_started, batch_round, batch_replied, rejected, advance,
  IsTotal,
}

module _ (go : GoFunction) where
  -- That many steps of one request.
  unfoldable pub drive :
      ℕ → ℕ → KvServiceImpl go → Point go → Outcome Status (KvServiceImpl go × Point go)
  drive zero elapsed service p = ok (service, p)
  drive (suc n) elapsed service p = do r ← advance go elapsed service p; drive n elapsed r.0 r.1

  -- Where a request stands that its handler has ended.
  abbrev pub get_end :
      Outcome Status GetResponse × KvServiceImpl go → Outcome Status (KvServiceImpl go × Point go)
  get_end (ok response, service) = ok (service, get_replied response)
  get_end (err status, service) = ok (service, rejected status 0)
  get_end (panic, service) = panic

  -- A batch that ends with an error has answered some keys before.
  abbrev pub batch_end :
      ℕ
      → Outcome Status (List GetResponse) × KvServiceImpl go
      → Outcome Status (KvServiceImpl go × Point go)
  batch_end answered (ok results, service) = ok (service, batch_replied results)
  batch_end answered (err status, service) = ok (service, rejected status answered)
  batch_end answered (panic, service) = panic

  -- A GET over a store that answers all look-ups: after five steps on its own the request has the
  -- response, or the error, of the handler, and the service is as the handler leaves it.
  pub drive-get :
      (elapsed : ℕ) (key : Bytes) (service : KvServiceImpl go)
      → IsTotal go service.store
      → drive 5 elapsed service (get_started key) ≡ get_end (get go key elapsed service)
  unfolding drive advance get
  drive-get elapsed key service total = elim (Bool-cases (length key == key_size)) [
    | inr wrong ↦ rw wrong refl
    | inl sized ↦
        let (found, at) = total key in
        elim (Option-cases found) [
          | inl missing ↦ rw (sized, at, missing) refl
          | inr (value, there) ↦ rw (sized, at, there) refl
        ]
  ]

  -- The steps of a batch from the head of its loop on.
  rounds : List Bytes → ℕ
  rounds [] = 2
  rounds (key ∷ keys) = suc (suc (rounds keys))

  rounds_lem : (keys : List Bytes) → 2 * length keys + 3 ≡ suc (rounds keys)
  unfolding rounds
  rounds_lem [] = refl
  rounds_lem (key ∷ keys) = omega (arith, rounds_lem keys)

  drive_rejected :
      (n elapsed : ℕ) (service : KvServiceImpl go) (status : Status) (answered : ℕ)
      → drive n elapsed service (rejected status answered) ≡ ok (service, rejected status answered)
  unfolding drive advance
  drive_rejected zero elapsed service status answered = refl
  drive_rejected (suc n) elapsed service status answered =
      drive_rejected n elapsed service status answered

  -- What `batch_get` does behind its loop.
  finish :
      ℕ → List GetResponse → KvServiceImpl go → Outcome Status (List GetResponse) × KvServiceImpl go
  finish elapsed results service = (
    ok results,
    record service {
      metrics = Metrics.increment_requests (Metrics.record_latency elapsed service.metrics);
    },
  )

  drive-batch_keys :
      (elapsed : ℕ) (store : KvStore go) (keys : List Bytes) (results : List GetResponse)
      (service : KvServiceImpl go)
      → IsTotal go store
      → (answered : ℕ) × (drive (rounds keys) elapsed service (batch_round store keys results)
          ≡ batch_end answered
              (continue (batch_keys go store keys results service) (finish elapsed)))
  unfolding drive rounds advance batch_keys finish
  drive-batch_keys elapsed store [] results service total = (0, refl)
  drive-batch_keys elapsed store (key ∷ keys) results service total =
      elim (Bool-cases (length key == key_size)) [
        | inr wrong ↦
            (length results, rw wrong (drive_rejected (rounds keys) elapsed _ _ (length results)))
        | inl sized ↦
            let (found, at) = total key in
            elim (Option-cases found) [
              | inl missing ↦
                  let (n, same) =
                    drive-batch_keys elapsed store keys
                      (results ++ (record { found = false; value = [] } ∷ []))
                      (record service { metrics = Metrics.increment_misses service.metrics })
                      total in
                  (n, rw (sized, at, missing) same)
              | inr (value, there) ↦
                  let (n, same) =
                    drive-batch_keys elapsed store keys
                      (results ++ (record { found = true; value = value } ∷ []))
                      (record service { metrics = Metrics.increment_hits service.metrics }) total in
                  (n, rw (sized, at, there) same)
            ]
      ]

  -- A batch over a store that answers all look-ups: after two steps for each key and three more on
  -- its own the request has the responses, or the error, of the handler, and the service is as the
  -- handler leaves it.
  pub drive-batch_get :
      (elapsed : ℕ) (keys : List Bytes) (service : KvServiceImpl go)
      → IsTotal go service.store
      → (answered : ℕ) × (drive (2 * length keys + 3) elapsed service (batch_started keys)
          ≡ batch_end answered (batch_get go keys elapsed service))
  unfolding drive advance batch_get finish
  drive-batch_get elapsed keys service total =
      let (n, same) = drive-batch_keys elapsed service.store keys [] service total in
      (n, ap (λ (k : ℕ). drive k elapsed service (batch_started keys)) (rounds_lem keys) ∙ same)

-- A batch of keys of 64 bytes over a store that holds a table, when no other request and no reload
-- comes between its steps: after two steps for each key and three more it has been replied to with
-- the answers of the table, in the order of the keys; each key counts as a hit or a miss, the batch
-- as one request with one latency, and the store stays.
pub drive-answers :
    (go : GoFunction) (keys values : List Bytes) (elapsed : ℕ) (asked : List Bytes)
    (service : KvServiceImpl go)
    → IsTable keys values
    → IsLoaded go service.store keys values
    → All IsKey asked
    → drive go (2 * length asked + 3) elapsed service (batch_started asked)
      ≡ ok (
        record service {
          metrics = with_request elapsed (counted_all keys values asked service.metrics);
        },
        batch_replied (answers keys values asked),
      )
drive-answers go keys values elapsed asked service table loaded sized =
    let total : IsTotal go service.store =
      λ key. (_, get-lookup go service.store keys values {E = Status} key table loaded) in
    let (answered, same) = drive-batch_get go elapsed asked service total in
    same
    ∙ ap (batch_end go answered)
        (batch_get-answers go keys values service asked elapsed table loaded sized)
