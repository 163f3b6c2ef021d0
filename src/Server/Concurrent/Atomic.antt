-- ===== src/Server/Concurrent/Atomic.antt =====
-- Every reply is that of one moment: the handler on a store that the service held while the request
-- was under way.
use lowlatency.Common.{ℕ, List, [], ◌∷◌, ◌++◌, false, ◌≡◌, Bool-cases, refl, inl, inr, Elem, ok}
use lowlatency.Kv.GoFunction.{GoFunction}
use lowlatency.Kv.Store.{KvStore}
use lowlatency.Server.Service.{KvServiceImpl, reload}
use lowlatency.Server.Concurrent.{
  Point, get_started, get_loaded, get_looked_up, get_counted, get_timed, get_replied, batch_started,
  batch_round, batch_looked_up, batch_timed, batch_replied, rejecting, rejected, advance, Server,
  get_arrives, batch_arrives, swap, turn, Reach, here, next, started,
}
use lowlatency.Server.Concurrent.Tickets.{
  Ticket, is_replied, see, see_all, tickets, IsServed, Paired,
}
use lowlatency.Server.Concurrent.Explained.{Explained, weaken, advance-Kept}

module _ {go : GoFunction} where
  -- A request under way has seen the store of the service, and is explained.
  abbrev pub Fits : KvServiceImpl go → Ticket go → Point go → Type 0
  Fits service t p = (is_replied p ≡ false → Elem service.store t.seen) × Explained t p

  see_all-Paired :
      (service : KvServiceImpl go) (store : KvStore go) (ts : List (Ticket go))
      (ps : List (Point go))
      → Paired (Fits service) ts ps
      → Paired (Fits (reload go store service)) (see_all store ts ps) ps
  unfolding see_all see reload
  see_all-Paired service store [] [] all = tt
  see_all-Paired service store [] (p ∷ ps) all = absurd all
  see_all-Paired service store (t ∷ ts) [] all = absurd all
  see_all-Paired service store (t ∷ ts) (p ∷ ps) ((current, e), all) =
      elim (Bool-cases (is_replied p)) [
        | inl done ↦ rw done (((λ under_way. absurd cc), e), see_all-Paired service store ts ps all)
        | inr under_way ↦
            rw under_way
              (((λ h. inl refl), weaken t store p e), see_all-Paired service store ts ps all)
      ]

  moved-Paired :
      (before after : KvServiceImpl go)
      → after.store ≡ before.store
      → (ts : List (Ticket go)) (ps : List (Point go)) → Paired (Fits before) ts ps
      → Paired (Fits after) ts ps
  moved-Paired before after same [] [] all = tt
  moved-Paired before after same [] (p ∷ ps) all = absurd all
  moved-Paired before after same (t ∷ ts) [] all = absurd all
  moved-Paired before after same (t ∷ ts) (p ∷ ps) ((current, e), all) =
      (((λ h. rw same (current h)), e), moved-Paired before after same ts ps all)

  -- A turn of one request, with the others as they are.
  pub turn-Paired :
      (elapsed : ℕ) (service after : KvServiceImpl go) (p q : Point go)
      → advance go elapsed service p ≡ ok (after, q)
      → (ts : List (Ticket go)) (front back : List (Point go))
      → Paired (Fits service) ts (front ++ (p ∷ back))
      → Paired (Fits after) ts (front ++ (q ∷ back)) × (after.store ≡ service.store)
  turn-Paired elapsed service after p q ran [] [] back all = absurd all
  turn-Paired elapsed service after p q ran [] (r ∷ front) back all = absurd all
  turn-Paired elapsed service after p q ran (t ∷ ts) [] back ((current, e), all) =
      let k = advance-Kept elapsed t service after p q ran current e in
      let still : is_replied q ≡ false → Elem after.store t.seen = λ h.
        elim (Bool-cases (is_replied p)) [
          | inl done ↦ absurd (cc (k.replied done, h))
          | inr under_way ↦ rw k.same_store (current under_way)
        ] in
      (((still, k.explained), moved-Paired service after k.same_store ts back all), k.same_store)
  turn-Paired elapsed service after p q ran (t ∷ ts) (r ∷ front) back ((current, e), all) =
      let (rest, same) = turn-Paired elapsed service after p q ran ts front back all in
      ((((λ h. rw same (current h)), e), rest), same)

  pub Reach-Paired :
      (store : KvStore go) {w : Server go} (run : Reach go (started go store) w)
      → Paired (Fits w.service) (tickets run) w.requests
  unfolding tickets started
  Reach-Paired store here = tt
  Reach-Paired store (next run (get_arrives w key)) =
      (((λ h. inl refl), refl), Reach-Paired store run)
  Reach-Paired store (next run (batch_arrives w keys)) =
      (((λ h. inl refl), refl), Reach-Paired store run)
  Reach-Paired store (next run (swap w new_store)) =
      see_all-Paired w.service new_store (tickets run) w.requests (Reach-Paired store run)
  Reach-Paired store (next run (turn w elapsed front back p q after split ran)) =
      (turn-Paired elapsed w.service after p q ran (tickets run) front back
        (rw split at (Reach-Paired store run))).0

  Explained-IsServed : (t : Ticket go) (p : Point go) → Explained t p → IsServed t p
  Explained-IsServed t (get_started key) e = tt
  Explained-IsServed t (get_loaded key store) e = tt
  Explained-IsServed t (get_looked_up found) e = tt
  Explained-IsServed t (get_counted response) e = tt
  Explained-IsServed t (get_timed response) e = tt
  Explained-IsServed t (get_replied response) e = e
  Explained-IsServed t (batch_started keys) e = tt
  Explained-IsServed t (batch_round store keys results) e = tt
  Explained-IsServed t (batch_looked_up store found keys results) e = tt
  Explained-IsServed t (batch_timed results) e = tt
  Explained-IsServed t (batch_replied results) e = e
  Explained-IsServed t (rejecting status answered) e = tt
  Explained-IsServed t (rejected status answered) e = e

  served :
      (service : KvServiceImpl go) (ts : List (Ticket go)) (ps : List (Point go))
      → Paired (Fits service) ts ps
      → Paired IsServed ts ps
  served service [] [] all = tt
  served service [] (p ∷ ps) all = absurd all
  served service (t ∷ ts) [] all = absurd all
  served service (t ∷ ts) (p ∷ ps) ((current, e), all) =
      (Explained-IsServed t p e, served service ts ps all)

-- However the steps of all requests and reloads interleave, every request that has been replied to
-- is answered as at one moment while it was under way: a GET with the answer, and a batch with the
-- answers to all its keys in their order, of one store that the service held between the request's
-- arrival and its reply. A request is rejected only if a key has a wrong size, a batch for the
-- first such key, with the message of its handler.
pub tickets-IsServed :
    (go : GoFunction) (store : KvStore go) {w : Server go} (run : Reach go (started go store) w)
    → Paired IsServed (tickets run) w.requests
tickets-IsServed go store {w} run =
    served w.service (tickets run) w.requests (Reach-Paired store run)
