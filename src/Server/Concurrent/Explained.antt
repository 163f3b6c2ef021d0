-- ===== src/Server/Concurrent/Explained.antt =====
-- How each point of a request comes from what was asked and from a store that the service has held.
use mathlib.Core.List.{append_assoc, append-nil}
use lowlatency.Common.{
  ℕ, suc, Bytes, List, [], ◌∷◌, ◌++◌, length, true, false, ◌≡◌, ◌==◌, eq→==, ==_iff, Bool-cases,
  refl, sym, ap, ◌∙◌, inl, inr, Elem, All, Outcome, ok, bind_parts,
}
use lowlatency.Kv.Record.{IsKey, key_size}
use lowlatency.Kv.GoFunction.{GoFunction}
use lowlatency.Kv.Store
use lowlatency.Kv.Store.{KvStore}
use lowlatency.Server.Service.{
  Status, invalid_argument, GetResponse, KvServiceImpl, batch_key_message,
}
use lowlatency.Server.Concurrent.{
  Point, get_started, get_loaded, get_looked_up, get_counted, get_timed, get_replied, batch_started,
  batch_round, batch_looked_up, batch_timed, batch_replied, rejecting, rejected, advance, reply,
}
use lowlatency.Server.Concurrent.Tickets.{
  for_key, for_keys, Ticket, is_replied, Answers, AnswersAll, GetServed, BatchServed, Refused,
}

module _ {go : GoFunction} where
  -- What a batch has answered of its keys, and which are left.
  abbrev pub Underway : Ticket go → KvStore go → List Bytes → List GetResponse → Type 0
  Underway t store left results =
      Elem store t.seen
      × (keys front : List Bytes) × (t.asked ≡ for_keys keys)
      × (keys ≡ front ++ left)
      × AnswersAll store front results

  -- What a request has to do with its ticket at each point.
  abbrev pub Explained : Ticket go → Point go → Type 0
  Explained t (get_started key) = t.asked ≡ for_key key
  Explained t (get_loaded key store) = Elem store t.seen × (t.asked ≡ for_key key) × IsKey key
  Explained t (get_looked_up found) = GetServed t (reply found)
  Explained t (get_counted response) = GetServed t response
  Explained t (get_timed response) = GetServed t response
  Explained t (get_replied response) = GetServed t response
  Explained t (batch_started keys) = t.asked ≡ for_keys keys
  Explained t (batch_round store keys results) = Underway t store keys results
  Explained t (batch_looked_up store found keys results) =
      (key : Bytes) × Underway t store (key ∷ keys) results × Answers store key (reply found)
  Explained t (batch_timed results) = BatchServed t results
  Explained t (batch_replied results) = BatchServed t results
  Explained t (rejecting status answered) = Refused t status answered
  Explained t (rejected status answered) = Refused t status answered

  -- A request that has seen another store as well is explained all the same.
  pub weaken :
      (t : Ticket go) (store : KvStore go) (p : Point go)
      → Explained t p
      → Explained (record t { seen = store ∷ t.seen }) p
  weaken t store (get_started key) e = e
  weaken t store (get_loaded key held) (there, e, sized) = (inr there, e, sized)
  weaken t store (get_looked_up found) (s, there, k, e, given) = (s, inr there, k, e, given)
  weaken t store (get_counted response) (s, there, k, e, given) = (s, inr there, k, e, given)
  weaken t store (get_timed response) (s, there, k, e, given) = (s, inr there, k, e, given)
  weaken t store (get_replied response) (s, there, k, e, given) = (s, inr there, k, e, given)
  weaken t store (batch_started keys) e = e
  weaken t store (batch_round held left results) (there, keys, front, e, split, all) =
      (inr there, keys, front, e, split, all)
  weaken t store (batch_looked_up held found left results)
        (key, (there, keys, front, e, split, all), one) =
      (key, (inr there, keys, front, e, split, all), one)
  weaken t store (batch_timed results) (s, there, k, e, given) = (s, inr there, k, e, given)
  weaken t store (batch_replied results) (s, there, k, e, given) = (s, inr there, k, e, given)
  weaken t store (rejecting status answered) e = e
  weaken t store (rejected status answered) e = e

  AnswersAll-append :
      (store : KvStore go) (keys : List Bytes) (results : List GetResponse) (key : Bytes)
      (response : GetResponse)
      → AnswersAll store keys results
      → Answers store key response
      → AnswersAll store (keys ++ (key ∷ [])) (results ++ (response ∷ []))
  AnswersAll-append store [] [] key response all one = (one, tt)
  AnswersAll-append store [] (r ∷ results) key response all one = absurd all
  AnswersAll-append store (k ∷ keys) [] key response all one = absurd all
  AnswersAll-append store (k ∷ keys) (r ∷ results) key response (first, all) one =
      (first, AnswersAll-append store keys results key response all one)

  AnswersAll-sized :
      (store : KvStore go) (keys : List Bytes) (results : List GetResponse)
      → AnswersAll store keys results
      → All IsKey keys × (length results ≡ length keys)
  AnswersAll-sized store [] [] all = (tt, refl)
  AnswersAll-sized store [] (r ∷ results) all = absurd all
  AnswersAll-sized store (k ∷ keys) [] all = absurd all
  AnswersAll-sized store (k ∷ keys) (r ∷ results) (first, all) =
      let (sized, many) = AnswersAll-sized store keys results all in
      ((first.sized, sized), ap suc many)

  -- What a step of a request leaves as it was.
  pub record Kept (t : Ticket go) (before after : KvServiceImpl go) (p q : Point go) : Type 0 where
    pub same_store : after.store ≡ before.store
    pub explained : Explained t q
    pub replied : is_replied p ≡ true → is_replied q ≡ true

  kept :
      (t : Ticket go) (before s after : KvServiceImpl go) (p r q : Point go)
      → ◌≡◌ {A = Outcome Status (KvServiceImpl go × Point go)} (ok (s, r)) (ok (after, q))
      → s.store ≡ before.store
      → Explained t r
      → (is_replied p ≡ true → is_replied r ≡ true)
      → Kept t before after p q
  kept t before s after p r q same held e answered =
      let same_service : s ≡ after = cc in
      let same_point : r ≡ q = cc in
      rw (← same_service, ← same_point)
        (record { same_store = held; explained = e; replied = answered })

  -- A step keeps a request explained, if its ticket has the store of the service.
  pub advance-Kept :
      (elapsed : ℕ) (t : Ticket go) (service after : KvServiceImpl go) (p q : Point go)
      → advance go elapsed service p ≡ ok (after, q)
      → (is_replied p ≡ false → Elem service.store t.seen)
      → Explained t p
      → Kept t service after p q
  unfolding advance is_replied
  advance-Kept elapsed t service after (get_started key) q ran current e =
      elim (Bool-cases (length key == key_size)) [
        | inl sized ↦
            kept t service service after (get_started key) _ q (rw sized at ran) refl
              (current refl, e, (==_iff _ _).0 sized) (λ h. cc h)
        | inr wrong ↦
            kept t service service after (get_started key) _ q (rw wrong at ran) refl
              (inl (key, e, (λ sized. cc (wrong, eq→== _ _ sized)), refl)) (λ h. cc h)
      ]
  advance-Kept elapsed t service after (get_loaded key store) q ran current (there, e, sized) =
      let (found, looked, left) = bind_parts (Store.get go {E = Status} store key) _ _ ran in
      kept t service service after (get_loaded key store) (get_looked_up found) q left refl
        (
          store,
          there,
          key,
          e,
          record { sized = sized; found = found; looked_up = looked; replied = refl },
        )
        (λ h. cc h)
  advance-Kept elapsed t service after (get_looked_up found) q ran current e =
      kept t service _ after (get_looked_up found) (get_counted (reply found)) q ran refl e
        (λ h. cc h)
  advance-Kept elapsed t service after (get_counted response) q ran current e =
      kept t service _ after (get_counted response) (get_timed response) q ran refl e (λ h. cc h)
  advance-Kept elapsed t service after (get_timed response) q ran current e =
      kept t service _ after (get_timed response) (get_replied response) q ran refl e (λ h. refl)
  advance-Kept elapsed t service after (get_replied response) q ran current e =
      kept t service _ after (get_replied response) (get_replied response) q ran refl e (λ h. refl)
  advance-Kept elapsed t service after (batch_started keys) q ran current e =
      kept t service _ after (batch_started keys) (batch_round service.store keys []) q ran refl
        (current refl, keys, [], e, refl, tt) (λ h. cc h)
  advance-Kept elapsed t service after (batch_round store [] results) q ran current
        (there, keys, front, e, split, all) =
      let whole : keys ≡ front = split ∙ append-nil front in
      kept t service _ after (batch_round store [] results) (batch_timed results) q ran refl
        (store, there, keys, e, rw whole all) (λ h. cc h)
  advance-Kept elapsed t service after (batch_round store (key ∷ left) results) q ran current
        (there, keys, front, e, split, all) =
      elim (Bool-cases (length key == key_size)) [
        | inl sized ↦
            let (found, looked, left_run) =
              bind_parts (Store.get go {E = Status} store key) _ _ (rw sized at ran) in
            kept t service service after (batch_round store (key ∷ left) results)
              (batch_looked_up store found left results) q left_run refl
              (
                key,
                (there, keys, front, e, split, all),
                record {
                  sized = (==_iff _ _).0 sized;
                  found = found;
                  looked_up = looked;
                  replied = refl;
                },
              )
              (λ h. cc h)
        | inr wrong ↦
            let (sized, many) = AnswersAll-sized store front results all in
            kept t service service after (batch_round store (key ∷ left) results)
              (rejecting (invalid_argument batch_key_message) (length results)) q (rw wrong at ran)
              refl
              (inr (
                keys,
                e,
                record {
                  front = front;
                  wrong = key;
                  rest = left;
                  split = split;
                  sized = sized;
                  not_sized = λ same. cc (wrong, eq→== _ _ same);
                  counted = many;
                },
                refl,
              ))
              (λ h. cc h)
      ]
  advance-Kept elapsed t service after (batch_looked_up store found left results) q ran current
        (key, (there, keys, front, e, split, all), one) =
      kept t service _ after (batch_looked_up store found left results)
        (batch_round store left (results ++ (reply found ∷ []))) q ran refl
        (
          there,
          keys,
          front ++ (key ∷ []),
          e,
          split ∙ sym (append_assoc front (key ∷ []) left),
          AnswersAll-append store front results key (reply found) all one,
        )
        (λ h. cc h)
  advance-Kept elapsed t service after (batch_timed results) q ran current e =
      kept t service _ after (batch_timed results) (batch_replied results) q ran refl e (λ h. refl)
  advance-Kept elapsed t service after (batch_replied results) q ran current e =
      kept t service _ after (batch_replied results) (batch_replied results) q ran refl e
        (λ h. refl)
  advance-Kept elapsed t service after (rejecting status answered) q ran current e =
      kept t service _ after (rejecting status answered) (rejected status answered) q ran refl e
        (λ h. refl)
  advance-Kept elapsed t service after (rejected status answered) q ran current e =
      kept t service _ after (rejected status answered) (rejected status answered) q ran refl e
        (λ h. refl)
