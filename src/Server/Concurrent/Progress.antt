-- ===== src/Server/Concurrent/Progress.antt =====
-- crates/kv-server/src/server.rs: each step of a request brings it nearer to its reply.
use lowlatency.Common.{
  ℕ, ◌+◌, ◌-◌, ◌*◌, ◌≤◌, ◌≡◌, refl, arith, [], ◌∷◌, length, ◌==◌, Bool-cases, inl, inr, ok,
}
use lowlatency.Kv.Record.{key_size}
use lowlatency.Kv.GoFunction.{GoFunction}
use lowlatency.Server.Service.{KvServiceImpl, invalid_argument, key_size_message, batch_key_message}
use lowlatency.Server.Concurrent.{
  Point, get_started, get_loaded, get_looked_up, get_counted, get_timed, get_replied, batch_started,
  batch_round, batch_looked_up, batch_timed, batch_replied, rejecting, rejected, advance, IsTotal,
}
use lowlatency.Server.Concurrent.Counted.{successes, failures}
use lowlatency.Server.Concurrent.Totals.{IsReplied}

module _ {go : GoFunction} where
  -- The steps that are left to a request, at most.
  unfoldable pub left : Point go → ℕ
  left (get_started key) = 5
  left (get_loaded key store) = 4
  left (get_looked_up found) = 3
  left (get_counted response) = 2
  left (get_timed response) = 1
  left (get_replied response) = 0
  left (batch_started keys) = 2 * length keys + 3
  left (batch_round store keys results) = 2 * length keys + 2
  left (batch_looked_up store found keys results) = 2 * length keys + 3
  left (batch_timed results) = 1
  left (batch_replied results) = 0
  left (rejecting status answered) = 1
  left (rejected status answered) = 0

  -- The store that a request works with answers every look-up.
  abbrev pub CanRead : Point go → Type 0
  CanRead (get_loaded key store) = IsTotal go store
  CanRead (batch_round store keys results) = IsTotal go store
  CanRead (batch_looked_up store found keys results) = IsTotal go store
  CanRead p = Unit {0}

  -- A step that brings the request nearer to its end, unless it is there.
  pub record Progress (elapsed : ℕ) (service : KvServiceImpl go) (p : Point go) : Type 0 where
    pub after : KvServiceImpl go
    pub point : Point go
    pub ran : advance go elapsed service p ≡ ok (after, point)
    pub nearer : left point ≤ left p - 1
    pub reads : CanRead point
    pub same_store : after.store ≡ service.store

  progress :
      (elapsed : ℕ) (service : KvServiceImpl go) (p : Point go) (after : KvServiceImpl go)
      (q : Point go)
      → advance go elapsed service p ≡ ok (after, q)
      → left q ≤ left p - 1
      → CanRead q
      → after.store ≡ service.store
      → Progress elapsed service p
  progress elapsed service p after q ran nearer reads same = record {
    after = after;
    point = q;
    ran = ran;
    nearer = nearer;
    reads = reads;
    same_store = same;
  }

  pub advance-Progress :
      (elapsed : ℕ) (service : KvServiceImpl go) (p : Point go)
      → IsTotal go service.store
      → CanRead p
      → Progress elapsed service p
  unfolding advance left
  advance-Progress elapsed service (get_started key) total reads =
      elim (Bool-cases (length key == key_size)) [
        | inl sized ↦
            progress elapsed service _ service (get_loaded key service.store) (rw sized refl)
              (omega arith) total refl
        | inr wrong ↦
            progress elapsed service _ service
              (rejecting (invalid_argument (key_size_message (length key))) 0) (rw wrong refl)
              (omega arith) tt refl
      ]
  advance-Progress elapsed service (get_loaded key store) total reads =
      let (value, at) = reads key in
      progress elapsed service _ service (get_looked_up value) (rw at refl) (omega arith) tt refl
  advance-Progress elapsed service (get_looked_up found) total reads =
      progress elapsed service _ _ _ refl (omega arith) tt refl
  advance-Progress elapsed service (get_counted response) total reads =
      progress elapsed service _ _ _ refl (omega arith) tt refl
  advance-Progress elapsed service (get_timed response) total reads =
      progress elapsed service _ _ _ refl (omega arith) tt refl
  advance-Progress elapsed service (get_replied response) total reads =
      progress elapsed service _ service (get_replied response) refl (omega arith) tt refl
  advance-Progress elapsed service (batch_started keys) total reads =
      progress elapsed service _ service (batch_round service.store keys []) refl (omega arith)
        total refl
  advance-Progress elapsed service (batch_round store [] results) total reads =
      progress elapsed service _ _ _ refl (omega arith) tt refl
  advance-Progress elapsed service (batch_round store (key ∷ keys) results) total reads =
      elim (Bool-cases (length key == key_size)) [
        | inl sized ↦
            let (value, at) = reads key in
            progress elapsed service _ service (batch_looked_up store value keys results)
              (rw (sized, at) refl) (omega arith) reads refl
        | inr wrong ↦
            progress elapsed service _ service
              (rejecting (invalid_argument batch_key_message) (length results)) (rw wrong refl)
              (omega arith) tt refl
      ]
  advance-Progress elapsed service (batch_looked_up store found keys results) total reads =
      progress elapsed service _ _ _ refl (omega arith) reads refl
  advance-Progress elapsed service (batch_timed results) total reads =
      progress elapsed service _ _ _ refl (omega arith) tt refl
  advance-Progress elapsed service (batch_replied results) total reads =
      progress elapsed service _ service (batch_replied results) refl (omega arith) tt refl
  advance-Progress elapsed service (rejecting status answered) total reads =
      progress elapsed service _ _ _ refl (omega arith) tt refl
  advance-Progress elapsed service (rejected status answered) total reads =
      progress elapsed service _ service (rejected status answered) refl (omega arith) tt refl

  pub replied : (p : Point go) → left p ≡ 0 → IsReplied p
  unfolding left successes failures
  replied (get_started key) none_left = absurd (omega arith)
  replied (get_loaded key store) none_left = absurd (omega arith)
  replied (get_looked_up found) none_left = absurd (omega arith)
  replied (get_counted response) none_left = absurd (omega arith)
  replied (get_timed response) none_left = absurd (omega arith)
  replied (get_replied response) none_left = omega arith
  replied (batch_started keys) none_left = absurd (omega arith)
  replied (batch_round store keys results) none_left = absurd (omega arith)
  replied (batch_looked_up store found keys results) none_left = absurd (omega arith)
  replied (batch_timed results) none_left = absurd (omega arith)
  replied (batch_replied results) none_left = omega arith
  replied (rejecting status answered) none_left = absurd (omega arith)
  replied (rejected status answered) none_left = omega arith
