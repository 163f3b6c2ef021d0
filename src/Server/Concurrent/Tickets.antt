-- ===== src/Server/Concurrent/Tickets.antt =====
-- What the requests of a run have asked for, and which stores the service has held since they
-- arrived.
use lowlatency.Common.{
  Bytes, List, [], ◌∷◌, ◌++◌, length, Option, Bool, true, false, ◌≡◌, Elem, ok, if◌then◌else◌, ℕ,
  All, ◌≢◌, ◌⊎◌,
}
use lowlatency.Kv.Record.{IsKey, key_size}
use lowlatency.Kv.GoFunction.{GoFunction}
use lowlatency.Kv.Store
use lowlatency.Kv.Store.{KvStore}
use lowlatency.Server.Service.{
  Status, invalid_argument, GetResponse, key_size_message, batch_key_message,
}
use lowlatency.Server.Concurrent.{
  Point, get_replied, batch_replied, rejected, Server, get_arrives, batch_arrives, swap, turn,
  Reach, here, next, reply,
}

pub data Asked : Type 0 where
  for_key : Bytes → Asked
  for_keys : List Bytes → Asked

-- A request, and the stores that the service has held since it arrived and until it was replied to.
pub record Ticket (go : GoFunction) : Type 0 where
  pub asked : Asked
  pub seen : List (KvStore go)

-- The first key of a batch that has a wrong size.
pub record IsFirstWrong (keys : List Bytes) (answered : ℕ) : Type 0 where
  pub front : List Bytes
  pub wrong : Bytes
  pub rest : List Bytes
  pub split : keys ≡ front ++ (wrong ∷ rest)
  pub sized : All IsKey front
  pub not_sized : length wrong ≢ key_size
  pub counted : answered ≡ length front

module _ {go : GoFunction} where
  unfoldable pub is_replied : Point go → Bool
  is_replied (get_replied response) = true
  is_replied (batch_replied results) = true
  is_replied (rejected status answered) = true
  is_replied p = false

  -- A reload is seen by the requests that are under way.
  unfoldable pub see : KvStore go → Ticket go → Point go → Ticket go
  see store t p = if is_replied p then t else record t { seen = store ∷ t.seen }

  unfoldable pub see_all : KvStore go → List (Ticket go) → List (Point go) → List (Ticket go)
  unfolding see
  see_all store (t ∷ tickets) (p ∷ requests) = see store t p ∷ see_all store tickets requests
  see_all store tickets requests = []

  -- The tickets of the requests of a run.
  unfoldable pub tickets : {start w : Server go} → Reach go start w → List (Ticket go)
  unfolding see_all
  tickets here = []
  tickets (next run (get_arrives w key)) =
      record { asked = for_key key; seen = w.service.store ∷ [] } ∷ tickets run
  tickets (next run (batch_arrives w keys)) =
      record { asked = for_keys keys; seen = w.service.store ∷ [] } ∷ tickets run
  tickets (next run (swap w new_store)) = see_all new_store (tickets run) w.requests
  tickets (next run (turn w elapsed front back p q after split ran)) = tickets run

  -- The answer of a store to a key of the right size.
  pub record Answers (store : KvStore go) (key : Bytes) (response : GetResponse) : Type 0 where
    pub sized : IsKey key
    pub found : Option Bytes
    pub looked_up : Store.get go {E = Status} store key ≡ ok found
    pub replied : response ≡ reply found

  abbrev pub AnswersAll : KvStore go → List Bytes → List GetResponse → Type 0
  AnswersAll store [] [] = Unit {0}
  AnswersAll store (key ∷ keys) (response ∷ responses) =
      Answers store key response × AnswersAll store keys responses
  AnswersAll store keys responses = ⊥

  abbrev pub GetServed : Ticket go → GetResponse → Type 0
  GetServed t response =
      (store : KvStore go) × Elem store t.seen
      × (key : Bytes) × (t.asked ≡ for_key key)
      × Answers store key response

  abbrev pub BatchServed : Ticket go → List GetResponse → Type 0
  BatchServed t results =
      (store : KvStore go) × Elem store t.seen
      × (keys : List Bytes) × (t.asked ≡ for_keys keys)
      × AnswersAll store keys results

  abbrev pub Refused : Ticket go → Status → ℕ → Type 0
  Refused t status answered =
      ((key : Bytes) × (t.asked ≡ for_key key)
        × (length key ≢ key_size)
        × (status ≡ invalid_argument (key_size_message (length key))))
      ⊎ ((keys : List Bytes) × (t.asked ≡ for_keys keys)
          × IsFirstWrong keys answered
          × (status ≡ invalid_argument batch_key_message))

  -- The reply to a request is what the handler gives for one of the stores that the request has
  -- seen.
  abbrev pub IsServed : Ticket go → Point go → Type 0
  IsServed t (get_replied response) = GetServed t response
  IsServed t (batch_replied results) = BatchServed t results
  IsServed t (rejected status answered) = Refused t status answered
  IsServed t p = Unit {0}

  -- Each ticket with its request.
  abbrev pub Paired : (Ticket go → Point go → Type 0) → List (Ticket go) → List (Point go) → Type 0
  Paired R [] [] = Unit {0}
  Paired R (t ∷ tickets) (p ∷ requests) = R t p × Paired R tickets requests
  Paired R tickets requests = ⊥
