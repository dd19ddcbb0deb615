-- ===== src/Outbox/Claims/Attempts.antt =====
-- model_submission.hpp: how often a message of the outbox is handed out, and to whom.
use online_judge.Base.{
  ℕ, ◌+◌, ◌-◌, ◌≤◌, ◌≡◌, ◌≢◌, refl, ◌⊎◌, inl, inr, Text, ◌=t◌, List, [], ◌∷◌, Option, none, some,
  false, tally, arith, subst, Option-cases, Bool-cases, if◌then◌else◌, leb, ltb, ◌||◌, ◌==◌,
  is_empty,
}
use online_judge.Outbox.{
  sending, dead, JudgeOutbox, Database, Env, put, outbox_max_age_micros, Commit, committed,
  rolled_back, commit_unanswered, kept, answers,
}
use online_judge.Outbox.Claims.{
  is_claimable, fail_submission, mark_outbox_terminal, leased, claim_row, claim_rows,
  claim_pending_outbox,
}

-- What holds of the row at a key. A row is leased exactly while it is being sent.
pub record IsSound (key : Text) (row : JudgeOutbox) : Type 0 where
  pub keyed : row.message_id ≡ key
  pub tries : row.attempt_count ≤ 20
  pub leased_while_sending :
      ((row.status ≡ sending) × (row.lease_owner ≢ none))
      ⊎ ((row.status ≢ sending) × (row.lease_owner ≡ none))

abbrev pub IsSoundAt : Text → Option JudgeOutbox → Type 0
IsSoundAt key none = Unit
IsSoundAt key (some row) = IsSound key row

abbrev pub attempts : Option JudgeOutbox → ℕ
attempts none = 0
attempts (some row) = row.attempt_count

abbrev pub is_message : Text → JudgeOutbox → ℕ
is_message key row = if row.message_id =t key then 1 else 0

abbrev handed_out : Text → Option JudgeOutbox → ℕ
handed_out key none = 0
handed_out key (some row) = is_message key row

-- The rows handed out by a claim.
abbrev pub or_nil : Option (List JudgeOutbox) → List JudgeOutbox
or_nil none = []
or_nil (some rows) = rows

module _ (env : Env) where
  open env use {stored}

  pub put-at :
      (table : Text → Option JudgeOutbox) (id : Text) (row : JudgeOutbox) (k : Text)
      → ((k ≡ id) × (put table id row k ≡ some row)) ⊎ ((k ≢ id) × (put table id row k ≡ table k))
  put-at table id row k = ground arith

  fail_submission-outbox :
      (db : Database) (id : Option ℕ) (reason : Text) (now : ℕ)
      → (fail_submission env db id reason now).outbox ≡ db.outbox
  unfolding fail_submission
  fail_submission-outbox db none reason now = refl
  fail_submission-outbox db (some id) reason now = ground arith

  mark_outbox_terminal-outbox :
      (db : Database) (id : Text) (row : JudgeOutbox) (reason : Text) (now : ℕ)
      → (mark_outbox_terminal env db id row reason now).outbox
        ≡ put db.outbox id (record row {
          status = dead;
          lease_owner = none;
          lease_expires_at = none;
          confirm_deadline = none;
        })
  unfolding mark_outbox_terminal
  mark_outbox_terminal-outbox db id row reason now =
      fail_submission-outbox _ row.submission_id reason now

  pub put-IsSoundAt :
      (table : Text → Option JudgeOutbox) (id : Text) (row : JudgeOutbox) (k : Text)
      → IsSound id row
      → IsSoundAt k (table k)
      → IsSoundAt k (put table id row k)
  put-IsSoundAt table id row k s t = elim (put-at table id row k) [
    | inl (same, e) ↦ rw (e, same) s
    | inr (_, e) ↦ rw e t
  ]

  put-attempts :
      (table : Text → Option JudgeOutbox) (id : Text) (row row' : JudgeOutbox) (k : Text) (n : ℕ)
      → table id ≡ some row
      → row'.message_id ≡ id
      → row'.attempt_count ≡ row.attempt_count + n
      → attempts (put table id row' k)
        ≡ attempts (table k) + (if row'.message_id =t k then n else 0)
  put-attempts table id row row' k n h same more = elim (put-at table id row' k) [
    | inl (at, e) ↦ rw (e, at, h) (ground arith)
    | inr (off, e) ↦ rw e (ground arith)
  ]

  dead_attempts :
      (table : Text → Option JudgeOutbox) (id : Text) (row : JudgeOutbox) (k : Text)
      → table id ≡ some row
      → row.message_id ≡ id
      → attempts (
          put table id
            (record row {
              status = dead;
              lease_owner = none;
              lease_expires_at = none;
              confirm_deadline = none;
            })
            k)
        ≡ attempts (table k) + 0
  dead_attempts table id row k h same =
      elim (put-at table id
        (record row {
          status = dead;
          lease_owner = none;
          lease_expires_at = none;
          confirm_deadline = none;
        })
        k) [ inl (at, e) ↦ rw (e, at, h) (omega arith) | inr (off, e) ↦ rw e (omega arith) ]

  leased-IsSound :
      (id : Text) (row : JudgeOutbox) (owner : Text) (lease_seconds confirm_timeout_seconds now : ℕ)
      → IsSound id row
      → leb 20 row.attempt_count ≡ false
      → let row' = leased env row owner lease_seconds confirm_timeout_seconds now in
        IsSound id row' × (row'.attempt_count ≡ row.attempt_count + 1) × (row'.message_id ≡ id)
  unfolding leased
  leased-IsSound id row owner lease_seconds confirm_timeout_seconds now s h =
      (ground arith, ground arith, s.keyed)

  dead-IsSound :
      (id : Text) (row : JudgeOutbox)
      → IsSound id row
      → IsSound id (record row {
        status = dead;
        lease_owner = none;
        lease_expires_at = none;
        confirm_deadline = none;
      })
  dead-IsSound id row s = ground arith

  -- What one round does to the row at any key.
  claim_row-at :
      (db : Database) (id : Text) (row : JudgeOutbox) (owner : Text)
      → (lease_seconds confirm_timeout_seconds now : ℕ) (k : Text) → IsSound id row
      → db.outbox id ≡ some row
      → IsSoundAt k (db.outbox k)
      → let (db', handed) =
          claim_row env db id row owner lease_seconds confirm_timeout_seconds now in
        IsSoundAt k (db'.outbox k)
        × (attempts (db'.outbox k) ≡ attempts (db.outbox k) + handed_out k handed)
  unfolding claim_row
  claim_row-at db id row owner lease_seconds confirm_timeout_seconds now k s h t =
      elim (Bool-cases
        (ltb outbox_max_age_micros (now - row.created_at) || leb 20 row.attempt_count)) [
          | inl e ↦
              rw (e, claim_row, mark_outbox_terminal-outbox db id row)
                (
                  put-IsSoundAt db.outbox id _ k (dead-IsSound id row s) t,
                  dead_attempts db.outbox id row k h s.keyed,
                )
          | inr e ↦
              let (s', more, same) =
                leased-IsSound id row owner lease_seconds confirm_timeout_seconds now s
                  (ground arith) in
              rw (e, claim_row)
                (
                  put-IsSoundAt db.outbox id _ k s' t,
                  put-attempts db.outbox id row _ k 1 h same more,
                )
        ]

  pub claim_rows-at :
      (owner : Text) (lease_seconds confirm_timeout_seconds now room : ℕ) (db : Database)
      → (keys : List Text) (k : Text) → ((j : Text) → IsSoundAt j (db.outbox j))
      → let (db', rows) =
          claim_rows env owner lease_seconds confirm_timeout_seconds now room db keys in
        IsSoundAt k (db'.outbox k)
        × (attempts (db'.outbox k) ≡ attempts (db.outbox k) + tally (is_message k) rows)
  unfolding claim_rows
  claim_rows-at owner lease_seconds confirm_timeout_seconds now room db [] k s = (s k, omega arith)
  claim_rows-at owner lease_seconds confirm_timeout_seconds now room db (id ∷ keys) k s =
      elim (Option-cases (db.outbox id)) [
        | inl missing ↦
            rw (missing, claim_rows)
              (claim_rows-at owner lease_seconds confirm_timeout_seconds now room db keys k s)
        | inr (row, found) ↦ elim (Bool-cases (is_claimable row now)) [
          | inl yields ↦
              let c = claim_row env db id row owner lease_seconds confirm_timeout_seconds now in
              let at : (j : Text)
                  → IsSoundAt j (c.0.outbox j)
                    × (attempts (c.0.outbox j) ≡ attempts (db.outbox j) + handed_out j c.1) =
                λ j.
                  claim_row-at db id row owner lease_seconds confirm_timeout_seconds now j
                    (subst (IsSoundAt id) found (s id)) found (s j) in
              elim (Option-cases c.1) [
                | inl none_handed ↦
                    let (sound, count) =
                      claim_rows-at owner lease_seconds confirm_timeout_seconds now room c.0 keys k
                        (λ j. (at j).0) in
                    let before = rw none_handed at (at k).1 in
                    rw (found, yields, none_handed, claim_rows)
                      (sound, omega (arith, count, before))
                | inr (row', handed) ↦ elim (Bool-cases (leb room 1)) [
                  | inl full ↦
                      let before = rw handed at (at k).1 in
                      rw (found, yields, handed, full, claim_rows) ((at k).0, omega (arith, before))
                  | inr more ↦
                      let (sound, count) =
                        claim_rows-at owner lease_seconds confirm_timeout_seconds now (room - 1) c.0
                          keys k (λ j. (at j).0) in
                      let before = rw handed at (at k).1 in
                      rw (found, yields, handed, more, claim_rows)
                        (sound, omega (arith, count, before))
                ]
              ]
          | inr skips ↦
              rw (found, skips, claim_rows)
                (claim_rows-at owner lease_seconds confirm_timeout_seconds now room db keys k s)
        ]
      ]

  -- What an operation does to the row at a key: it counts at least what it hands out.
  abbrev pub Counted : Database → Text → Database → List JudgeOutbox → Type 0
  Counted db k db' rows =
      IsSoundAt k (db'.outbox k)
      × (attempts (db.outbox k) + tally (is_message k) rows ≤ attempts (db'.outbox k))

  pub same-Counted :
      (db db' : Database) (k : Text)
      → IsSoundAt k (db.outbox k)
      → db'.outbox ≡ db.outbox
      → Counted db k db' []
  same-Counted db db' k s e = rw e (s, omega arith)

  -- `put` of a row with as many attempts as the one it replaces.
  pub put-Counted :
      (db db' : Database) (id : Text) (row : JudgeOutbox) (k : Text)
      → IsSoundAt k (db.outbox k)
      → IsSound id row
      → attempts (db.outbox id) ≡ row.attempt_count
      → db'.outbox ≡ put db.outbox id row
      → Counted db k db' []
  put-Counted db db' id row k s sound same e = elim (put-at db.outbox id row k) [
    | inl (at, found) ↦ rw (e, found, at) (sound, omega (arith, same))
    | inr (off, found) ↦ rw (e, found) (s, omega arith)
  ]

  pub kept-Counted :
      (db db' : Database) (k : Text) (commit : Commit)
      → IsSoundAt k (db.outbox k)
      → Counted db k db' []
      → Counted db k (kept commit db db') []
  kept-Counted db db' k committed s c = c
  kept-Counted db db' k rolled_back s c = (s, omega arith)
  kept-Counted db db' k commit_unanswered s c = c

  ended-Counted :
      (db db' : Database) (rows : List JudgeOutbox) (k : Text) (commit : Commit)
      → IsSoundAt k (db.outbox k)
      → IsSoundAt k (db'.outbox k)
        × (attempts (db'.outbox k) ≡ attempts (db.outbox k) + tally (is_message k) rows)
      → Counted db k (kept commit db db') (or_nil (if answers commit then some rows else none))
  ended-Counted db db' rows k committed s (sound, count) = (sound, omega (arith, count))
  ended-Counted db db' rows k rolled_back s c = (s, omega arith)
  ended-Counted db db' rows k commit_unanswered s (sound, count) = (sound, omega (arith, count))

  pub claims-Counted :
      (db : Database) (limit : ℕ) (owner : Text) (lease confirm now : ℕ) (keys : List Text)
      → (commit : Commit) (k : Text) → ((j : Text) → IsSoundAt j (db.outbox j))
      → let (db', rows) = claim_pending_outbox env db limit owner lease confirm now keys commit in
        Counted db k db' (or_nil rows)
  unfolding claim_pending_outbox
  claims-Counted db limit owner lease confirm now keys commit k s =
      elim (Bool-cases (limit == 0 || is_empty owner)) [
        | inl bad ↦ rw (bad, claim_pending_outbox) (same-Counted db db k (s k) refl)
        | inr good ↦
            rw (good, claim_pending_outbox)
              (ended-Counted db _ _ k commit (s k)
                (claim_rows-at owner lease confirm now limit db keys k s))
      ]

pub attempts_bounded : (k : Text) (row : Option JudgeOutbox) → IsSoundAt k row → attempts row ≤ 20
attempts_bounded k none s = omega arith
attempts_bounded k (some row) s = s.tries
