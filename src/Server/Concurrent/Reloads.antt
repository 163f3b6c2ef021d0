-- ===== src/Server/Concurrent/Reloads.antt =====
-- What the stores of a run have in common.
use lowlatency.Common.{List, [], ◌∷◌, All, Bool-cases, inl, inr}
use lowlatency.Kv.GoFunction.{GoFunction}
use lowlatency.Kv.Store.{KvStore}
use lowlatency.Server.Service
use lowlatency.Server.Service.{reload}
use lowlatency.Server.Concurrent.{
  Point, Server, Step, get_arrives, batch_arrives, swap, turn, Reach, here, next, started,
}
use lowlatency.Server.Concurrent.Tickets.{Ticket, is_replied, see, see_all, tickets}
use lowlatency.Server.Concurrent.Atomic.{Reach-Paired, turn-Paired}

module _ {go : GoFunction} (P : KvStore go → Type 0) where
  abbrev pub StoreHas : {w v : Server go} → Step go w v → Type 0
  StoreHas (get_arrives w key) = Unit {0}
  StoreHas (batch_arrives w keys) = Unit {0}
  StoreHas (swap w new_store) = P new_store
  StoreHas (turn w elapsed front back p q after split ran) = Unit {0}

  -- All stores that the service is reloaded with have the property.
  abbrev pub ReloadsWith : {start w : Server go} → Reach go start w → Type 0
  ReloadsWith here = Unit {0}
  ReloadsWith (next r st) = ReloadsWith r × StoreHas st

  see_all-All :
      (store : KvStore go) (ts : List (Ticket go)) (ps : List (Point go))
      → P store
      → All (λ t. All P t.seen) ts
      → All (λ t. All P t.seen) (see_all store ts ps)
  unfolding see_all see
  see_all-All store [] [] has all = tt
  see_all-All store [] (p ∷ ps) has all = tt
  see_all-All store (t ∷ ts) [] has all = tt
  see_all-All store (t ∷ ts) (p ∷ ps) has (one, all) = elim (Bool-cases (is_replied p)) [
    | inl done ↦ rw done (one, see_all-All store ts ps has all)
    | inr under_way ↦ rw under_way ((has, one), see_all-All store ts ps has all)
  ]

  -- Then so does the store of the service at any time, and each that a request has seen.
  pub tickets-All :
      (store : KvStore go) {w : Server go} (run : Reach go (started go store) w)
      → P store
      → ReloadsWith run
      → P w.service.store × All (λ t. All P t.seen) (tickets run)
  unfolding tickets started Service.new reload
  tickets-All store here has reloads = (has, tt)
  tickets-All store (next run (get_arrives w key)) has (reloads, last) =
      let (now, all) = tickets-All store run has reloads in (now, ((now, tt), all))
  tickets-All store (next run (batch_arrives w keys)) has (reloads, last) =
      let (now, all) = tickets-All store run has reloads in (now, ((now, tt), all))
  tickets-All store (next run (swap w new_store)) has (reloads, last) =
      let (now, all) = tickets-All store run has reloads in
      (last, see_all-All new_store (tickets run) w.requests last all)
  tickets-All store (next run (turn w elapsed front back p q after split ran)) has (reloads, last) =
      let (now, all) = tickets-All store run has reloads in
      let (paired, same) =
        turn-Paired elapsed w.service after p q ran (tickets run) front back
          (rw split at (Reach-Paired store run)) in
      (rw same now, all)

-- What holds of all stores of a run still holds when it is weakened.
pub ReloadsWith-map :
    {go : GoFunction} (P Q : KvStore go → Type 0)
    → ((s : KvStore go) → P s → Q s)
    → {start w : Server go} → (run : Reach go start w) → ReloadsWith P run
    → ReloadsWith Q run
ReloadsWith-map P Q weaken here has = tt
ReloadsWith-map P Q weaken (next r (get_arrives w key)) (has, last) =
    (ReloadsWith-map P Q weaken r has, tt)
ReloadsWith-map P Q weaken (next r (batch_arrives w keys)) (has, last) =
    (ReloadsWith-map P Q weaken r has, tt)
ReloadsWith-map P Q weaken (next r (swap w new_store)) (has, last) =
    (ReloadsWith-map P Q weaken r has, weaken new_store last)
ReloadsWith-map P Q weaken (next r (turn w elapsed front back p q after split ran)) (has, last) =
    (ReloadsWith-map P Q weaken r has, tt)
