-- ===== src/Outbox/Publisher/Settles.antt =====
-- outbox_publisher.cpp: the messages given to the broker, and the marks made of them.
use online_judge.Base.{
  ℕ, ◌+◌, ◌*◌, ◌≤◌, ◌<◌, ◌≡◌, refl, inl, inr, Text, ◌=t◌, List, [], ◌∷◌, ◌++◌, none, some, arith,
  tally, tally-append, Text-discrete, subst, Option-cases, Bool-cases, if◌then◌else◌,
}
use online_judge.Outbox.Publisher.{
  Config, InFlight, Completion, Offer, Mark, published, failed, find, erase, drain_found,
  drain_completions, expire_confirms, publish_rows, Round, round, run,
}

-- 1 for an entry, a mark or a call of a message.
abbrev pub in_flight_of : Text → InFlight → ℕ
in_flight_of k e = if e.message_id =t k then 1 else 0

abbrev pub mark_of : Text → Mark → ℕ
mark_of k (published id) = if id =t k then 1 else 0
mark_of k (failed id delay) = if id =t k then 1 else 0

abbrev pub call_of : Text → Text → ℕ
call_of k id = if id =t k then 1 else 0

find-none : (k : Text) (es : List InFlight) → find k es ≡ none → tally (in_flight_of k) es ≡ 0
find-none k [] h = refl
find-none k (e ∷ es) h = ground (arith, find-none k es)

find-some :
    (k : Text) (es : List InFlight) (e : InFlight)
    → find k es ≡ some e
    → 0 < tally (in_flight_of k) es
find-some k [] e h = ground arith
find-some k (x ∷ es) e h = ground (arith, find-some k es e)

tally-erase :
    (k id : Text) (es : List InFlight)
    → tally (in_flight_of k) (erase id es) ≡ (if id =t k then 0 else tally (in_flight_of k) es)
tally-erase k id [] = ground arith
tally-erase k id (e ∷ es) = ground (arith, tally-erase k id es)

-- A message that is found is erased once, and one that is not found has room for an entry.
erase-counts :
    (k id : Text) (es : List InFlight) (e : InFlight)
    → find id es ≡ some e
    → tally (in_flight_of k) es ≤ 1
    → tally (in_flight_of k) es ≡ tally (in_flight_of k) (erase id es) + (if id =t k then 1 else 0)
erase-counts k id es e h one = elim (Text-discrete id k) [
  | yes same ↦
      subst
        (λ j.
          tally (in_flight_of j) es ≤ 1
          → tally (in_flight_of j) es
            ≡ tally (in_flight_of j) (erase id es) + (if id =t j then 1 else 0))
        same (λ one'. ground (arith, tally-erase id id es, find-some id es e h)) one
  | no other ↦ ground (arith, tally-erase k id es)
]

room_for :
    (k id : Text) (es : List InFlight)
    → find id es ≡ none
    → tally (in_flight_of k) es ≤ 1
    → tally (in_flight_of k) es + (if id =t k then 1 else 0) ≤ 1
room_for k id es h one = elim (Text-discrete id k) [
  | yes same ↦
      subst (λ j. tally (in_flight_of j) es + (if id =t j then 1 else 0) ≤ 1) same
        (ground (arith, find-none id es h))
  | no other ↦ ground arith
]

module _ (config : Config) where
  drain_found-mark :
      (k : Text) (c : Completion) (e : InFlight)
      → mark_of k (drain_found config c e) ≡ (if c.message_id =t k then 1 else 0)
  unfolding drain_found
  drain_found-mark k c e = ground arith

  drain-counts :
      (k : Text) (es : List InFlight) (ready : List Completion)
      → ((j : Text) → tally (in_flight_of j) es ≤ 1)
      → let (rest, marks) = drain_completions config es ready in
        (tally (in_flight_of k) es ≡ tally (in_flight_of k) rest + tally (mark_of k) marks)
        × (tally (in_flight_of k) rest ≤ 1)
  unfolding drain_completions
  drain-counts k es [] h = (omega arith, h k)
  drain-counts k es (c ∷ ready) h = elim (Option-cases (find c.message_id es)) [
    | inl missing ↦ rw (missing, drain_completions) (drain-counts k es ready h)
    | inr (e, found) ↦
        let (count, one) =
          drain-counts k (erase c.message_id es) ready
            (λ j. ground (arith, tally-erase j c.message_id es, h j)) in
        rw (found, drain_completions)
          (
            omega (
              arith,
              count,
              drain_found-mark k c e,
              erase-counts k c.message_id es e found (h k),
            ),
            one,
          )
  ]

  expire-counts :
      (k : Text) (now : ℕ) (es : List InFlight)
      → let (rest, marks) = expire_confirms config now es in
        tally (in_flight_of k) es ≡ tally (in_flight_of k) rest + tally (mark_of k) marks
  unfolding expire_confirms
  expire-counts k now [] = refl
  expire-counts k now (e ∷ es) = ground (arith, expire-counts k now es)

  publish-counts :
      (k : Text) (es : List InFlight) (offers : List Offer)
      → tally (in_flight_of k) es ≤ 1
      → let (rest, marks, calls) = publish_rows config es offers in
        (tally (in_flight_of k) es + tally (call_of k) calls
          ≡ tally (in_flight_of k) rest + tally (mark_of k) marks)
        × (tally (in_flight_of k) rest ≤ 1)
  unfolding publish_rows
  publish-counts k es [] h = (omega arith, h)
  publish-counts k es (o ∷ offers) h = elim (Bool-cases o.running) [
    | inr stops ↦ rw (stops, publish_rows) (omega arith, h)
    | inl runs ↦ elim (Option-cases (find o.message_id es)) [
      | inr (e, found) ↦ rw (runs, found, publish_rows) (publish-counts k es offers h)
      | inl missing ↦ elim (Bool-cases o.accepted) [
        | inr refused ↦
            let (count, one) = publish-counts k es offers h in
            rw (runs, missing, refused, publish_rows) (omega (arith, count), one)
        | inl taken ↦
            let entry : InFlight = record {
              message_id = o.message_id;
              attempt_count = o.attempt_count;
              deadline = o.offered_at + config.confirm_timeout_seconds * 1000000;
            } in
            let (count, one) =
              publish-counts k (entry ∷ es) offers
                (omega (arith, room_for k o.message_id es missing h)) in
            rw (runs, missing, taken, publish_rows) (omega (arith, count), one)
      ]
    ]
  ]

  round-counts :
      (k : Text) (es : List InFlight) (r : Round)
      → ((j : Text) → tally (in_flight_of j) es ≤ 1)
      → let (rest, marks, calls) = round config es r in
        (tally (in_flight_of k) es + tally (call_of k) calls
          ≡ tally (in_flight_of k) rest + tally (mark_of k) marks)
        × (tally (in_flight_of k) rest ≤ 1)
  unfolding round
  round-counts k es r h =
      let drained = drain_completions config es r.ready in
      let alive = expire_confirms config r.now drained.0 in
      let told = publish_rows config alive.0 r.claimed in
      let d = drain-counts k es r.ready h in
      let x = expire-counts k r.now drained.0 in
      let p = publish-counts k alive.0 r.claimed (omega (arith, d.1, x)) in
      (
        omega (
          arith,
          d.0,
          x,
          p.0,
          tally-append (mark_of k) drained.1 (alive.1 ++ told.1),
          tally-append (mark_of k) alive.1 told.1,
        ),
        p.1,
      )

  run-counts :
      (k : Text) (es : List InFlight) (rounds : List Round) (last : List Completion)
      → ((j : Text) → tally (in_flight_of j) es ≤ 1)
      → let (rest, marks, calls) = run config es rounds last in
        (tally (in_flight_of k) es + tally (call_of k) calls
          ≡ tally (in_flight_of k) rest + tally (mark_of k) marks)
        × (tally (in_flight_of k) rest ≤ 1)
  unfolding run
  run-counts k es [] last h = let d = drain-counts k es last h in (omega (arith, d.0), d.1)
  run-counts k es (r ∷ rounds) last h =
      let now = round config es r in
      let later = run config now.0 rounds last in
      let c = round-counts k es r h in
      let d = run-counts k now.0 rounds last (λ j. (round-counts j es r h).1) in
      (
        omega (
          arith,
          c.0,
          d.0,
          tally-append (mark_of k) now.1 later.1,
          tally-append (call_of k) now.2 later.2,
        ),
        d.1,
      )

  -- From the start of the publisher, over any rounds of its loop: for each message, the calls of the
  -- broker's `Publish` are as many as the calls that mark it as published or failed, but for the at
  -- most one entry that is still in flight.
  pub publish_marks_once :
      (k : Text) (rounds : List Round) (last : List Completion)
      → let (rest, marks, calls) = run config [] rounds last in
        (tally (call_of k) calls ≡ tally (in_flight_of k) rest + tally (mark_of k) marks)
        × (tally (in_flight_of k) rest ≤ 1)
  publish_marks_once k rounds last =
      let (count, one) = run-counts k [] rounds last (λ j. omega arith) in
      (omega (arith, count), one)
