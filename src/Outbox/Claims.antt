-- ===== src/Outbox/Claims.antt =====
-- model_submission.hpp: `ClaimPendingOutbox`, `MarkOutboxTerminal` and `UpdateOutbox`.
pub mod Attempts
pub mod Marks
use online_judge.Base.{
  ℕ, ◌+◌, ◌*◌, ◌-◌, ◌%◌, Text, ◌=t◌, codes, List, [], ◌∷◌, ◌++◌, Option, none, some, Bool, true,
  false, not, ◌||◌, ltb, leb, ◌==◌, is_empty, if◌then◌else◌,
}
use online_judge.Outbox.{
  OutboxStatus, waiting, sending, published, dead, JudgeOutbox, Database, Env, put, put_id, Commit,
  kept, answers, outbox_max_age_micros, outbox_max_attempts,
}

abbrev is_null_or_past : Option ℕ → ℕ → Bool
is_null_or_past none now = true
is_null_or_past (some t) now = leb t now

-- The condition `claimable` of the query.
pub is_claimable : JudgeOutbox → ℕ → Bool
is_claimable row now = elim row.status [
  | waiting ↦ is_null_or_past row.next_retry_at now
  | sending ↦ is_null_or_past row.lease_expires_at now
  | published ↦ false
  | dead ↦ false
]

module _ (env : Env) where
  open env use {stored}

  -- The tail of `MarkOutboxTerminal`: a submission that has no result yet fails.
  fail_submission : Database → Option ℕ → Text → ℕ → Database
  fail_submission db none reason now = db
  fail_submission db (some id) reason now = elim (db.submissions id) [
    | none ↦ db
    | some s ↦
        if s.status =t codes "QUEUED" || s.status =t codes "JUDGING"
        then record db {
          submissions = put_id db.submissions id (record s {
            status = codes "SYSTEM_ERROR";
            result_json =
                some (codes "{\"status\":\"SYSTEM_ERROR\",\"reason\":\"" ++ reason ++ codes "\"}");
            is_pass = some false;
            completed_at = some (stored now);
            result_version = (s.result_version + 1) % 18446744073709551616;
          });
        }
        else db
  ]

  -- `MarkOutboxTerminal`.
  pub mark_outbox_terminal : Database → Text → JudgeOutbox → Text → ℕ → Database
  unfolding fail_submission
  mark_outbox_terminal db id row reason now =
      fail_submission
        (record db {
          outbox = put db.outbox id (record row {
            status = dead;
            lease_owner = none;
            lease_expires_at = none;
            confirm_deadline = none;
          });
        })
        row.submission_id reason now

  -- The row that the loop of `ClaimPendingOutbox` leases. The publisher reads no time of it.
  pub leased : JudgeOutbox → Text → (lease_seconds confirm_timeout_seconds now : ℕ) → JudgeOutbox
  leased row owner lease_seconds confirm_timeout_seconds now = record row {
    status = sending;
    lease_owner = some owner;
    lease_expires_at = some (stored (now + lease_seconds * 1000000));
    confirm_deadline = some (stored (now + confirm_timeout_seconds * 1000000));
    next_retry_at = none;
    attempt_count = (row.attempt_count + 1) % 4294967296;
  }

  -- One round of the loop: the database, and the row if it is handed out.
  pub claim_row :
      Database
      → Text
      → JudgeOutbox
      → Text
      → (lease_seconds confirm_timeout_seconds now : ℕ) → Database × Option JudgeOutbox
  unfolding mark_outbox_terminal leased
  claim_row db id row owner lease_seconds confirm_timeout_seconds now =
      let expired = ltb outbox_max_age_micros (now - row.created_at) in
      if expired || leb outbox_max_attempts row.attempt_count
      then (
        mark_outbox_terminal db id row
            (if expired then codes "OUTBOX_EXPIRED" else codes "OUTBOX_RETRIES_EXHAUSTED") now,
        none,
      )
      else (let row' = leased row owner lease_seconds confirm_timeout_seconds now in
          (record db { outbox = put db.outbox id row' }, some row'))

  -- The loop over the result of the query. The database chooses `keys`, in the order of creation and
  -- without the rows that others lock; those of them that the condition fits are its result. `room`
  -- is the limit less `rows->size()`.
  pub claim_rows :
      (owner : Text)
      → (lease_seconds confirm_timeout_seconds now : ℕ) → (room : ℕ) → Database
      → (keys : List Text) → Database × List JudgeOutbox
  unfolding claim_row is_claimable
  claim_rows owner lease_seconds confirm_timeout_seconds now room db [] = (db, [])
  claim_rows owner lease_seconds confirm_timeout_seconds now room db (id ∷ keys) =
      elim (db.outbox id) [
        | none ↦ claim_rows owner lease_seconds confirm_timeout_seconds now room db keys
        | some row ↦ elim (is_claimable row now) [
          | false ↦ claim_rows owner lease_seconds confirm_timeout_seconds now room db keys
          | true ↦
              let (db', handed) =
                claim_row db id row owner lease_seconds confirm_timeout_seconds now in
              elim handed [
                | none ↦ claim_rows owner lease_seconds confirm_timeout_seconds now room db' keys
                | some row' ↦ elim (leb room 1) [
                  | true ↦ (db', row' ∷ [])
                  | false ↦
                      let (db'', rows) =
                        claim_rows owner lease_seconds confirm_timeout_seconds now (room - 1) db'
                          keys in
                      (db'', row' ∷ rows)
                ]
              ]
        ]
      ]

  unfoldable pub claim_pending_outbox :
      Database
      → (limit : ℕ) → (owner : Text) → (lease_seconds confirm_timeout_seconds now : ℕ)
      → (keys : List Text) → Commit
      → Database × Option (List JudgeOutbox)
  unfolding claim_rows
  claim_pending_outbox db limit owner lease_seconds confirm_timeout_seconds now keys commit =
      if limit == 0 || is_empty owner
      then (db, none)
      else (let (db', rows) =
            claim_rows owner lease_seconds confirm_timeout_seconds now limit db keys in
          (kept commit db db', if answers commit then some rows else none))

  abbrev is_sending : OutboxStatus → Bool
  is_sending sending = true
  is_sending waiting = false
  is_sending published = false
  is_sending dead = false

  abbrev is_owner : Option Text → Text → Bool
  is_owner none owner = false
  is_owner (some o) owner = o =t owner

  -- The row that `UpdateOutbox` writes.
  pub updated : JudgeOutbox → (is_published : Bool) → (retry_delay_seconds now : ℕ) → JudgeOutbox
  updated row true retry_delay_seconds now = record row {
    status = published;
    published_at = some (stored now);
    next_retry_at = none;
    lease_owner = none;
    lease_expires_at = none;
    confirm_deadline = none;
  }
  updated row false retry_delay_seconds now = record row {
    status = waiting;
    next_retry_at = some (stored (now + retry_delay_seconds * 1000000));
    lease_owner = none;
    lease_expires_at = none;
    confirm_deadline = none;
  }

  -- `UpdateOutbox`. `found` is the row that its `find` read, without a lock and perhaps some time
  -- before the whole row is written to `db`. A row of the outbox is never erased.
  unfoldable pub update_outbox :
      Database
      → (found : Option JudgeOutbox) → (message_id owner : Text) → (is_published : Bool)
      → (retry_delay_seconds now : ℕ) → Commit
      → Database × Bool
  unfolding updated
  update_outbox db found message_id owner is_published retry_delay_seconds now commit =
      if is_empty message_id || is_empty owner then (db, false) else elim found [
        | none ↦ (db, false)
        | some row ↦
            if not (is_sending row.status) || not (is_owner row.lease_owner owner)
            then (db, false)
            else (
              kept commit db (record db {
                outbox =
                    put db.outbox message_id (updated row is_published retry_delay_seconds now);
              }),
              answers commit,
            )
      ]

  pub mark_outbox_published :
      Database → Option JudgeOutbox → Text → Text → ℕ → Commit → Database × Bool
  unfolding update_outbox
  mark_outbox_published db found message_id owner now commit =
      update_outbox db found message_id owner true 0 now commit

  pub mark_outbox_failed :
      Database → Option JudgeOutbox → Text → Text → ℕ → ℕ → Commit → Database × Bool
  unfolding update_outbox
  mark_outbox_failed db found message_id owner retry_delay_seconds now commit =
      update_outbox db found message_id owner false retry_delay_seconds now commit
