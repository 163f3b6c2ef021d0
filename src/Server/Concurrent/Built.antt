-- ===== src/Server/Concurrent/Built.antt =====
-- The server over snapshots that the builder has written.
use lowlatency.Common.{
  ℕ, Bytes, List, [], ◌∷◌, ◌≡◌, refl, ap, ◌∙◌, Option, some, none, Elem, All, All-Elem, ok,
}
use lowlatency.Kv.GoFunction.{GoFunction, IsLawful}
use lowlatency.Kv.Store.{KvStore, open_bytes}
use lowlatency.Kv.Store.Loaded.{lookup, IsLoaded}
use lowlatency.Kv.Store.Lookup.{get-lookup}
use lowlatency.Builder.Snapshot.{SnapshotBuilder, Output, build}
use lowlatency.Builder.Snapshot.Layout.{all_succeed}
use lowlatency.Builder.Snapshot.Built.{IsBuildable}
use lowlatency.Builder.Snapshot.Order.{build-IsLoaded}
use lowlatency.Server.Service.{Status, GetResponse}
use lowlatency.Server.Service.Replies.{answer}
use lowlatency.Server.Service.Batches.{answers}
use lowlatency.Server.Concurrent.{
  Point, get_started, get_loaded, get_looked_up, get_counted, get_timed, get_replied, batch_started,
  batch_round, batch_looked_up, batch_timed, batch_replied, rejecting, rejected, Server, Reach,
  started, reply,
}
use lowlatency.Server.Concurrent.Tickets.{
  for_key, for_keys, Ticket, tickets, Answers, AnswersAll, Refused, IsServed, Paired,
}
use lowlatency.Server.Concurrent.Atomic.{tickets-IsServed}
use lowlatency.Server.Concurrent.Reloads.{ReloadsWith, tickets-All}

reply-answer : (found : Option Bytes) → reply found ≡ answer found
unfolding answer
reply-answer none = refl
reply-answer (some value) = refl

module _ {go : GoFunction} (sha256 : Bytes → Bytes) where
  -- A store that is opened from a built file.
  pub record IsBuiltStore (s : KvStore go) : Type 0 where
    pub builder : SnapshotBuilder
    pub timestamp : ℕ
    pub before : Output
    pub ready : IsBuildable sha256 timestamp builder
    pub opens :
        open_bytes go (build go sha256 all_succeed timestamp builder before).1.contents ≡ ok s

  -- The reply is what one of the builders has for what was asked.
  abbrev pub IsAnswered : Ticket go → Point go → Type 0
  IsAnswered t (get_replied response) =
      (s : KvStore go) × Elem s t.seen
      × (built : IsBuiltStore s) × (key : Bytes) × (t.asked ≡ for_key key)
      × (response ≡ answer (lookup key built.builder.keys built.builder.values))
  IsAnswered t (batch_replied results) =
      (s : KvStore go) × Elem s t.seen
      × (built : IsBuiltStore s) × (keys : List Bytes) × (t.asked ≡ for_keys keys)
      × (results ≡ answers built.builder.keys built.builder.values keys)
  IsAnswered t (rejected status answered) = Refused t status answered
  IsAnswered t p = Unit {0}

  Answers-answer :
      (s : KvStore go) (built : IsBuiltStore s) (key : Bytes) (response : GetResponse)
      → IsLawful go
      → Answers s key response
      → response ≡ answer (lookup key built.builder.keys built.builder.values)
  Answers-answer s built key response lawful a =
      let (s', opens, loaded) =
        build-IsLoaded go sha256 built.timestamp built.builder built.before lawful built.ready in
      let same : s' ≡ s = cc (opens, built.opens) in
      let held : IsLoaded go s built.builder.keys built.builder.values = rw same at loaded in
      let given =
        get-lookup go s built.builder.keys built.builder.values {E = Status} key built.ready.table
          held in
      let found : a.found ≡ lookup key built.builder.keys built.builder.values =
        cc (given, a.looked_up) in
      a.replied ∙ reply-answer a.found ∙ ap answer found

  AnswersAll-answers :
      (s : KvStore go) (built : IsBuiltStore s) (keys : List Bytes) (results : List GetResponse)
      → IsLawful go
      → AnswersAll s keys results
      → results ≡ answers built.builder.keys built.builder.values keys
  unfolding answers
  AnswersAll-answers s built [] [] lawful all = refl
  AnswersAll-answers s built [] (r ∷ results) lawful all = absurd all
  AnswersAll-answers s built (k ∷ keys) [] lawful all = absurd all
  AnswersAll-answers s built (k ∷ keys) (r ∷ results) lawful (one, all) =
      let first = Answers-answer s built k r lawful one in
      let rest = AnswersAll-answers s built keys results lawful all in λ i. first i ∷ rest i

  served-IsAnswered :
      (t : Ticket go) (p : Point go)
      → IsLawful go
      → All IsBuiltStore t.seen
      → IsServed t p
      → IsAnswered t p
  served-IsAnswered t (get_started key) lawful seen e = tt
  served-IsAnswered t (get_loaded key store) lawful seen e = tt
  served-IsAnswered t (get_looked_up found) lawful seen e = tt
  served-IsAnswered t (get_counted response) lawful seen e = tt
  served-IsAnswered t (get_timed response) lawful seen e = tt
  served-IsAnswered t (get_replied response) lawful seen (s, there, key, asked, a) =
      let built = All-Elem IsBuiltStore s t.seen seen there in
      (s, there, built, key, asked, Answers-answer s built key response lawful a)
  served-IsAnswered t (batch_started keys) lawful seen e = tt
  served-IsAnswered t (batch_round store keys results) lawful seen e = tt
  served-IsAnswered t (batch_looked_up store found keys results) lawful seen e = tt
  served-IsAnswered t (batch_timed results) lawful seen e = tt
  served-IsAnswered t (batch_replied results) lawful seen (s, there, keys, asked, all) =
      let built = All-Elem IsBuiltStore s t.seen seen there in
      (s, there, built, keys, asked, AnswersAll-answers s built keys results lawful all)
  served-IsAnswered t (rejecting status answered) lawful seen e = tt
  served-IsAnswered t (rejected status answered) lawful seen e = e

  all-IsAnswered :
      (ts : List (Ticket go)) (ps : List (Point go))
      → IsLawful go
      → All (λ t. All IsBuiltStore t.seen) ts
      → Paired IsServed ts ps
      → Paired IsAnswered ts ps
  all-IsAnswered [] [] lawful seen all = tt
  all-IsAnswered [] (p ∷ ps) lawful seen all = absurd all
  all-IsAnswered (t ∷ ts) [] lawful seen all = absurd all
  all-IsAnswered (t ∷ ts) (p ∷ ps) lawful (one, seen) (first, all) =
      (served-IsAnswered t p lawful one first, all-IsAnswered ts ps lawful seen all)

-- A server that starts with a store opened from a built file, and is reloaded only with such
-- stores: however requests and reloads interleave, a GET that has been replied to has the value
-- that a builder had for its key, or a miss, and a batch has such answers to all its keys from one
-- builder. It is the builder of a snapshot that the service held between the request's arrival and
-- its reply. What is rejected has a key of a wrong size.
pub tickets-IsAnswered :
    (go : GoFunction) (sha256 : Bytes → Bytes) (store : KvStore go) {w : Server go}
    (run : Reach go (started go store) w)
    → IsLawful go
    → IsBuiltStore sha256 store
    → ReloadsWith (IsBuiltStore sha256) run
    → Paired (IsAnswered sha256) (tickets run) w.requests
tickets-IsAnswered go sha256 store {w} run lawful built reloads =
    all-IsAnswered sha256 (tickets run) w.requests lawful
      (tickets-All (IsBuiltStore sha256) store run built reloads).1 (tickets-IsServed go store run)
