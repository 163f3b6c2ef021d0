-- ===== src/Server/Concurrent/Drained.antt =====
-- Requests come to their end: no step of a request waits for another, and each has a bounded number
-- of steps.
use lowlatency.Common.{
  ℕ, zero, suc, ◌≤◌, ◌≡◌, refl, sym, ap, ◌∙◌, arith, List, [], ◌∷◌, ◌++◌, length, All,
}
use mathlib.Core.List.{append_assoc, append-nil}
use lowlatency.Kv.GoFunction.{GoFunction}
use lowlatency.Kv.Store.{KvStore}
use lowlatency.Server.Service
use lowlatency.Server.Service.{reload}
use lowlatency.Server.Concurrent.{
  Point, Server, Step, get_arrives, batch_arrives, swap, turn, Reach, here, next, started, IsTotal,
}
use lowlatency.Server.Concurrent.Totals.{IsReplied}
use lowlatency.Server.Concurrent.Reloads.{StoreHas, ReloadsWith}
use lowlatency.Server.Concurrent.Progress.{left, CanRead, advance-Progress, replied}

module _ {go : GoFunction} where
  All-middle :
      (front : List (Point go)) (p : Point go) (back : List (Point go))
      → All CanRead (front ++ (p ∷ back))
      → All CanRead front × CanRead p × All CanRead back
  All-middle [] p back all = (tt, all.0, all.1)
  All-middle (r ∷ front) p back (one, all) =
      let (before, at, behind) = All-middle front p back all in ((one, before), at, behind)

  middle-All :
      (front : List (Point go)) (p : Point go) (back : List (Point go))
      → All CanRead front
      → CanRead p
      → All CanRead back
      → All CanRead (front ++ (p ∷ back))
  middle-All [] p back before at behind = (at, behind)
  middle-All (r ∷ front) p back (one, before) at behind =
      (one, middle-All front p back before at behind)

  -- What has to hold for the requests of a server to come to their end.
  record IsLive (w : Server go) : Type 0 where
    total : IsTotal go w.service.store
    reads : All CanRead w.requests

  Step-IsLive :
      {w v : Server go} (st : Step go w v) → StoreHas (IsTotal go) st → IsLive w → IsLive v
  unfolding reload
  Step-IsLive (get_arrives w key) answers l = record { total = l.total; reads = (tt, l.reads) }
  Step-IsLive (batch_arrives w keys) answers l = record { total = l.total; reads = (tt, l.reads) }
  Step-IsLive (swap w new_store) answers l = record { total = answers; reads = l.reads }
  Step-IsLive (turn w elapsed front back p q after split ran) answers l =
      let (before, here_at, behind) = All-middle front p back (rw split at l.reads) in
      let step = advance-Progress elapsed w.service p l.total here_at in
      let same_service : step.after ≡ after = cc (step.ran, ran) in
      let same_point : step.point ≡ q = cc (step.ran, ran) in
      record {
        total = rw (← same_service, step.same_store) l.total;
        reads = middle-All front q back before (rw (← same_point) step.reads) behind;
      }

  Reach-IsLive :
      {start w : Server go}
      → IsLive start
      → (run : Reach go start w) → ReloadsWith (IsTotal go) run
      → IsLive w
  Reach-IsLive l here answers = l
  Reach-IsLive l (next r st) (before, last) = Step-IsLive st last (Reach-IsLive l r before)

  Reach-trans : {a b c : Server go} → Reach go a b → Reach go b c → Reach go a c
  Reach-trans r here = r
  Reach-trans r (next s st) = next (Reach-trans r s) st

  replied-append :
      (front : List (Point go)) (q : Point go)
      → All IsReplied front
      → IsReplied q
      → All IsReplied (front ++ (q ∷ []))
  replied-append [] q all one = (one, tt)
  replied-append (p ∷ front) q (first, all) one = (first, replied-append front q all one)

  same_length :
      (front : List (Point go)) (p q : Point go) (back : List (Point go))
      → length (front ++ (q ∷ back)) ≡ length (front ++ (p ∷ back))
  same_length [] p q back = refl
  same_length (r ∷ front) p q back = ap suc (same_length front p q back)

  started-IsLive : (store : KvStore go) → IsTotal go store → IsLive (started go store)
  unfolding started Service.new
  started-IsLive store total = record { total = total; reads = tt }

  -- One request is brought to its end, while the others stand still.
  finish_one :
      (n : ℕ) (w : Server go) (front back : List (Point go)) (p : Point go)
      → left p ≤ n
      → w.requests ≡ front ++ (p ∷ back)
      → IsTotal go w.service.store
      → CanRead p
      → (v : Server go) × (q : Point go) × Reach go w v
        × (v.requests ≡ front ++ (q ∷ back))
        × IsReplied q
        × (v.service.store ≡ w.service.store)
  finish_one zero w front back p bound split total reads =
      (w, p, here, split, replied p (omega arith), refl)
  finish_one (suc n) w front back p bound split total reads =
      let step = advance-Progress 0 w.service p total reads in
      let v : Server go = record {
        service = step.after;
        requests = front ++ (step.point ∷ back);
      } in
      let moved : Step go w v = turn w 0 front back p step.point step.after split step.ran in
      let (u, q, run, there, done, same) =
        finish_one n v front back step.point (omega (arith, step.nearer)) refl
          (rw step.same_store total) step.reads in
      (u, q, Reach-trans (next here moved) run, there, done, same ∙ step.same_store)

  -- One request after the other is brought to its end.
  finish_all :
      (w : Server go) (front back : List (Point go))
      → w.requests ≡ front ++ back
      → All IsReplied front
      → IsTotal go w.service.store
      → All CanRead back
      → (v : Server go) × Reach go w v
        × All IsReplied v.requests
        × (length v.requests ≡ length w.requests)
  finish_all w front [] split done total reads = (w, here, rw (split, append-nil front) done, refl)
  finish_all w front (p ∷ back) split done total (one, reads) =
      let (v, q, run, there, replied_q, same) =
        finish_one (left p) w front back p (omega arith) split total one in
      let (u, rest, all, many) =
        finish_all v (front ++ (q ∷ [])) back (there ∙ sym (append_assoc front (q ∷ []) back))
          (replied-append front q done replied_q) (rw same total) reads in
      let sizes : length v.requests ≡ length w.requests =
        ap length there ∙ same_length front p q back ∙ ap length (sym split) in
      (u, Reach-trans run rest, all, many ∙ sizes)

-- Each request has a reply ahead: from every state that a server can reach, when the stores that it
-- starts with and is reloaded with answer all look-ups, there are further steps to a state with the
-- same number of requests in which all of them have been replied to.
pub started-replied :
    (go : GoFunction) (store : KvStore go) {w : Server go}
    → IsTotal go store
    → (run : Reach go (started go store) w) → ReloadsWith (IsTotal go) run
    → (v : Server go) × Reach go w v
      × All IsReplied v.requests
      × (length v.requests ≡ length w.requests)
started-replied go store {w} total run answers =
    let live = Reach-IsLive (started-IsLive store total) run answers in
    finish_all w [] w.requests refl tt live.total live.reads
