-- ===== src/Server/Dispatch.antt =====
-- internal/httpapi/server.go: `dispatch`. What the workers send on the outcome channel meanwhile is
-- an argument; the registry is that of the calls of `dispatch` itself.
pub mod Collect
pub mod Keeps
pub mod Targets
use hubbub.Common.{
  ℕ, zero, suc, Bool, true, false, not, ◌&&◌, ◌||◌, List, [], ◌∷◌, ◌++◌, Option, none, some,
  if◌then◌else◌, length,
}
use hubbub.Common.Bytes.{Bytes, codes, mem}
use hubbub.Common.Assoc.{bytes_eq, lookup, insert}
use hubbub.Config.Channels.{ChannelSet, Channel}
use hubbub.Notify.{Notification}
use hubbub.Outbox.Registry.{Registry, Outcome, add, cancel}
use hubbub.Server.{Results, EngineOps}

-- The outcomes that are received before the window closes, and those that are drained after.
pub record Arrivals : Type 0 where
  pub before : List Outcome
  pub drained : List Outcome

abbrev pub is_live : {A : Type 0} → ChannelSet A → Bytes → Bool
is_live chs id = elim (lookup id chs) [ none ↦ false | some ch ↦ ch.enabled ]

-- The loop over the targets: those to wait for, and the results so far.
unfoldable pub pick :
    {A : Type 0} → ChannelSet A → List Bytes → List Bytes → Results → List Bytes × Results
pick chs [] seen results = ([], results)
pick chs (id ∷ ids) seen results =
    let fresh = not (mem id seen) in
    let (waiting, found) =
      pick chs ids (if fresh then id ∷ seen else seen)
        (if fresh && not (is_live chs id) then insert id (codes "disabled") results else results) in
    (if fresh && is_live chs id then id ∷ waiting else waiting, found)

pub record Enqueued (S : Type 0) : Type 0 where
  pub ids : List Bytes
  pub registry : Registry
  pub engine : S
  pub results : Results

module _ {S : Type 0} (ops : EngineOps S) where
  -- The loop over the channels to wait for.
  unfoldable pub enqueue_all :
      Notification → Bool → List Bytes → Registry → S → Results → Enqueued S
  enqueue_all n test [] registry st results = record {
    ids = [];
    registry = registry;
    engine = st;
    results = results;
  }
  enqueue_all n test (id ∷ waiting) registry st results =
      let (err, st') = ops.enqueue n id test st in
      elim err [
        | some why ↦
            enqueue_all n test waiting (cancel n.request_id (id ∷ []) registry) st'
              (insert id (codes "failed: " ++ why) results)
        | none ↦
            (let rest = enqueue_all n test waiting registry st' results in
              record rest { ids = id ∷ rest.ids })
      ]

-- `results[o.Channel] = o.Status` of each outcome.
unfoldable pub record_all : List Outcome → Results → Results
record_all [] results = results
record_all (o ∷ os) results = record_all os (insert o.channel o.status results)

-- What has no result by the end of the window is queued.
unfoldable pub queue_rest : List Bytes → Results → Results
queue_rest [] results = results
queue_rest (id ∷ ids) results =
    queue_rest ids
      (elim (lookup id results) [ some v ↦ results | none ↦ insert id (codes "queued") results ])

-- The loop that waits: whether the window closed, and the results.
unfoldable pub collect : ℕ → List Outcome → List Outcome → List Bytes → Results → Bool × Results
collect zero before drained ids results = (false, results)
collect (suc pending) [] drained ids results = (true, queue_rest ids (record_all drained results))
collect (suc pending) (o ∷ before) drained ids results =
    collect pending before drained ids (insert o.channel o.status results)

pub record Dispatched (S : Type 0) : Type 0 where
  pub registry : Registry
  pub engine : S
  pub results : Results

module _ {S A : Type 0} (ops : EngineOps S) (chs : ChannelSet A) where
  -- `dispatch`, once there is something to wait for.
  unfoldable pub dispatch_to :
      Notification → Bool → Arrivals → List Bytes → Registry → S → Results → Dispatched S
  dispatch_to n test arrivals waiting registry st results =
      let (chan, registered) = add n.request_id waiting registry in
      let sent = enqueue_all ops n test waiting registered st results in
      let (closed, final) =
        collect (length sent.ids) arrivals.before arrivals.drained sent.ids sent.results in
      record {
        registry = (if closed then cancel n.request_id sent.ids sent.registry else sent.registry);
        engine = sent.engine;
        results = final;
      }

  unfoldable pub dispatch :
      Notification → List Bytes → Bool → Arrivals → Registry → S → Dispatched S
  dispatch n targets test arrivals registry st =
      let (waiting, results) = pick chs targets [] [] in
      elim waiting [
        | [] ↦ record { registry = registry; engine = st; results = results }
        | id ∷ ids ↦ dispatch_to n test arrivals (id ∷ ids) registry st results
      ]
