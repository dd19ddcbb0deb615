-- ===== src/Outbox/Publisher.antt =====
-- outbox_publisher.cpp: the publisher's loop, between the outbox and the message broker.
--
-- A round does `DrainCompletions`, `ExpireConfirms` and the offers of the rows that it claimed. The
-- calls that it makes of the store are its `Mark`s; what the broker and the clock answer is given.
pub mod Settles
use online_judge.Base.{
  ℕ, ◌+◌, ◌*◌, ◌^◌, min, Text, ◌=t◌, List, [], ◌∷◌, ◌++◌, Option, none, some, Bool, true, false,
  not, ◌&&◌, leb, if◌then◌else◌,
}

pub record Config : Type 0 where
  pub max_retry_delay_seconds : ℕ
  pub confirm_timeout_seconds : ℕ

-- An entry of `in_flight_`, with its key. Times are microseconds of the steady clock.
pub record InFlight : Type 0 where
  pub message_id : Text
  pub attempt_count : ℕ
  pub deadline : ℕ

-- `Completion`, in the fields that are read, with the time at which it is drained.
pub record Completion : Type 0 where
  pub message_id : Text
  pub success : Bool
  pub drained_at : ℕ

-- A claimed row: what `running_` and the broker's `Publish` answer for it, and when.
pub record Offer : Type 0 where
  pub message_id : Text
  pub attempt_count : ℕ
  pub running : Bool
  pub accepted : Bool
  pub offered_at : ℕ

-- A call of the store: `MarkPublished`, or `MarkFailed` with its delay.
pub data Mark : Type 0 where
  published : Text → Mark
  failed : Text → ℕ → Mark

-- `in_flight_.find` and `erase`.
abbrev pub find : Text → List InFlight → Option InFlight
find id [] = none
find id (e ∷ es) = if e.message_id =t id then some e else find id es

abbrev pub erase : Text → List InFlight → List InFlight
erase id [] = []
erase id (e ∷ es) = let rest = erase id es in if e.message_id =t id then rest else e ∷ rest

-- `RetryDelay`.
pub retry_delay : Config → ℕ → ℕ
retry_delay config attempt_count = min config.max_retry_delay_seconds (2 ^ min attempt_count 10)

module _ (config : Config) where
  drain_found : Completion → InFlight → Mark
  unfolding retry_delay
  drain_found c e =
      if c.success && not (leb e.deadline c.drained_at)
      then published c.message_id
      else failed c.message_id (retry_delay config e.attempt_count)

  -- `DrainCompletions`.
  pub drain_completions : List InFlight → List Completion → List InFlight × List Mark
  unfolding drain_found
  drain_completions in_flight [] = (in_flight, [])
  drain_completions in_flight (c ∷ ready) = elim (find c.message_id in_flight) [
    | none ↦ drain_completions in_flight ready
    | some e ↦
        let (rest, marks) = drain_completions (erase c.message_id in_flight) ready in
        (rest, drain_found c e ∷ marks)
  ]

  -- `ExpireConfirms`.
  pub expire_confirms : ℕ → List InFlight → List InFlight × List Mark
  unfolding retry_delay
  expire_confirms now [] = ([], [])
  expire_confirms now (e ∷ in_flight) =
      let (rest, marks) = expire_confirms now in_flight in
      if leb e.deadline now
      then (rest, failed e.message_id (retry_delay config e.attempt_count) ∷ marks)
      else (e ∷ rest, marks)

  -- The loop of `Run` over the claimed rows; the last component is the calls of `Publish`.
  pub publish_rows : List InFlight → List Offer → List InFlight × List Mark × List Text
  unfolding retry_delay
  publish_rows in_flight [] = (in_flight, [], [])
  publish_rows in_flight (o ∷ offers) = elim o.running [
    | false ↦ (in_flight, [], [])
    | true ↦ elim (find o.message_id in_flight) [
      | some e ↦ publish_rows in_flight offers
      | none ↦ elim o.accepted [
        | true ↦
            let entry : InFlight = record {
              message_id = o.message_id;
              attempt_count = o.attempt_count;
              deadline = o.offered_at + config.confirm_timeout_seconds * 1000000;
            } in
            let (rest, marks, calls) = publish_rows (entry ∷ in_flight) offers in
            (rest, marks, o.message_id ∷ calls)
        | false ↦
            let (rest, marks, calls) = publish_rows in_flight offers in
            (
              rest,
              failed o.message_id (retry_delay config o.attempt_count) ∷ marks,
              o.message_id ∷ calls,
            )
      ]
    ]
  ]

-- What a round of `Run` is given; `claimed` is empty if `Claim` failed.
pub record Round : Type 0 where
  pub ready : List Completion
  pub now : ℕ
  pub claimed : List Offer

module _ (config : Config) where
  -- One round of `Run`.
  pub round : List InFlight → Round → List InFlight × List Mark × List Text
  unfolding drain_completions expire_confirms publish_rows
  round in_flight r =
      let (drained, marks) = drain_completions config in_flight r.ready in
      let (alive, marks') = expire_confirms config r.now drained in
      let (rest, marks'', calls) = publish_rows config alive r.claimed in
      (rest, marks ++ (marks' ++ marks''), calls)

  -- The loop of `Run`, with the last `DrainCompletions`.
  pub run : List InFlight → List Round → List Completion → List InFlight × List Mark × List Text
  unfolding drain_completions round
  run in_flight [] last =
      let (rest, marks) = drain_completions config in_flight last in (rest, marks, [])
  run in_flight (r ∷ rounds) last =
      let (next, marks, calls) = round in_flight r in
      let (rest, marks', calls') = run next rounds last in (rest, marks ++ marks', calls ++ calls')
