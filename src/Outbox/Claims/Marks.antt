-- ===== src/Outbox/Claims/Marks.antt =====
-- model_submission.hpp, `UpdateOutbox`: who may mark a message, and what a mark changes.
use online_judge.Base.{
  ℕ, ◌+◌, ◌*◌, ◌≡◌, ◌≢◌, refl, ◌⊎◌, inl, inr, Text, [], ◌∷◌, Option, none, some, Bool, true, false,
  arith, subst, sym, ◌∙◌, Bool-cases, is_empty, ◌||◌, not, if◌then◌else◌,
}
use online_judge.Outbox.{
  sending, published, waiting, JudgeOutbox, Database, Env, put, Commit, committed, rolled_back,
  kept, answers, commit_unanswered,
}
use online_judge.Outbox.Claims.{updated, update_outbox, is_sending, is_owner}
use online_judge.Outbox.Claims.Attempts.{IsSound, IsSoundAt, put-IsSoundAt}

module _ (env : Env) where
  open env use {stored}

  -- `row'` is the row with the mark.
  pub record Marked (row row' : JudgeOutbox) (is_published : Bool) (delay now : ℕ) : Type 0 where
    pub becomes :
        ((is_published ≡ true)
          × (row'.status ≡ published)
          × (row'.published_at ≡ some (stored now))
          × (row'.next_retry_at ≡ none))
        ⊎ ((is_published ≡ false)
            × (row'.status ≡ waiting)
            × (row'.published_at ≡ row.published_at)
            × (row'.next_retry_at ≡ some (stored (now + delay * 1000000))))
    pub no_owner : row'.lease_owner ≡ none
    pub no_lease : row'.lease_expires_at ≡ none
    pub no_deadline : row'.confirm_deadline ≡ none
    pub same_id : row'.message_id ≡ row.message_id
    pub same_attempts : row'.attempt_count ≡ row.attempt_count
    pub same_payload : row'.payload ≡ row.payload
    pub same_submission : row'.submission_id ≡ row.submission_id
    pub same_custom : row'.custom_task_id ≡ row.custom_task_id
    pub same_creation : row'.created_at ≡ row.created_at

  updated-Marked :
      (row : JudgeOutbox) (is_published : Bool) (delay now : ℕ)
      → Marked row (updated env row is_published delay now) is_published delay now
  unfolding updated
  updated-Marked row true delay now = record {
    becomes = inl (refl, refl, refl, refl);
    no_owner = refl;
    no_lease = refl;
    no_deadline = refl;
    same_id = refl;
    same_attempts = refl;
    same_payload = refl;
    same_submission = refl;
    same_custom = refl;
    same_creation = refl;
  }
  updated-Marked row false delay now = record {
    becomes = inr (refl, refl, refl, refl);
    no_owner = refl;
    no_lease = refl;
    no_deadline = refl;
    same_id = refl;
    same_attempts = refl;
    same_payload = refl;
    same_submission = refl;
    same_custom = refl;
    same_creation = refl;
  }

  -- The row that was read is not being sent under the lease of `owner`.
  abbrev pub NotHeld : Option JudgeOutbox → Text → Type 0
  NotHeld none owner = Unit
  NotHeld (some row) owner = (row.status ≢ sending) ⊎ (row.lease_owner ≢ some owner)

  -- Why a mark is not made.
  abbrev pub Unmarked : Option JudgeOutbox → (id owner : Text) → Commit → Type 0
  Unmarked found id owner commit =
      (id ≡ []) ⊎ (owner ≡ []) ⊎ NotHeld found owner ⊎ (commit ≡ rolled_back)

  -- What a mark does, by the row that it read and by how its transaction ends.
  abbrev pub MarkEnds :
      Database
      → Option JudgeOutbox
      → (id owner : Text) → Bool
      → (delay now : ℕ) → Commit
      → Database × Bool
      → Type 0
  MarkEnds db found id owner is_published delay now commit (db', answer) =
      ((answer ≡ false) × (db' ≡ db) × Unmarked found id owner commit)
      ⊎ ((row row' : JudgeOutbox) × (found ≡ some row)
          × (row.status ≡ sending)
          × (row.lease_owner ≡ some owner)
          × Marked row row' is_published delay now
          × (db' ≡ record db { outbox = put db.outbox id row' })
          × (((commit ≡ committed) × (answer ≡ true))
              ⊎ ((commit ≡ commit_unanswered) × (answer ≡ false))))

  held :
      (row : JudgeOutbox) (owner : Text)
      → (((not (is_sending env row.status) || not (is_owner env row.lease_owner owner)) ≡ true)
          × ((row.status ≢ sending) ⊎ (row.lease_owner ≢ some owner)))
        ⊎ (((not (is_sending env row.status) || not (is_owner env row.lease_owner owner)) ≡ false)
            × (row.status ≡ sending)
            × (row.lease_owner ≡ some owner))
  held row owner = ground arith

  no_name : (id owner : Text) → (is_empty id || is_empty owner) ≡ true → (id ≡ []) ⊎ (owner ≡ [])
  no_name [] owner e = inl refl
  no_name (c ∷ id) [] e = inr refl
  no_name (c ∷ id) (d ∷ owner) e = absurd (cc e)

  pub update_branches :
      (db : Database) (found : Option JudgeOutbox) (id owner : Text) (is_published : Bool)
      (delay now : ℕ) (commit : Commit)
      → MarkEnds db found id owner is_published delay now commit
          (update_outbox env db found id owner is_published delay now commit)
  unfolding update_outbox
  update_branches db found id owner is_published delay now commit =
      elim (Bool-cases (is_empty id || is_empty owner)) [
        | inl nameless ↦
            rw (nameless, update_outbox)
              (inl (
                refl,
                refl,
                elim (no_name id owner nameless) [ inl e ↦ inl e | inr e ↦ inr (inl e) ],
              ))
        | inr named ↦ rw (named, update_outbox) (by_row found)
      ]
    where
      by_commit :
          (row : JudgeOutbox) (c : Commit)
          → row.status ≡ sending
          → row.lease_owner ≡ some owner
          → MarkEnds db (some row) id owner is_published delay now c (
            (kept c db
                (record db { outbox = put db.outbox id (updated env row is_published delay now) })),
            answers c,
          )
      by_commit row committed s o =
          inr
            (row, _, refl, s, o, updated-Marked row is_published delay now, refl, inl (refl, refl))
      by_commit row rolled_back s o = inl (refl, refl, inr (inr (inr refl)))
      by_commit row commit_unanswered s o =
          inr
            (row, _, refl, s, o, updated-Marked row is_published delay now, refl, inr (refl, refl))

      by_row :
          (o : Option JudgeOutbox)
          → MarkEnds db o id owner is_published delay now commit (elim o [
            | none ↦ (db, false)
            | some row ↦
                if not (is_sending env row.status) || not (is_owner env row.lease_owner owner)
                then (db, false)
                else (
                  kept commit db (record db {
                    outbox = put db.outbox id (updated env row is_published delay now);
                  }),
                  answers commit,
                )
          ])
      by_row none = inl (refl, refl, inr (inr (inl tt)))
      by_row (some row) = elim (held row owner) [
        | inl (other, why) ↦ rw other (inl (refl, refl, inr (inr (inl why))))
        | inr (its, s, o) ↦ rw its (by_commit row commit s o)
      ]

  Marked-IsSound :
      (id : Text) (row row' : JudgeOutbox) (is_published : Bool) (delay now : ℕ)
      → IsSound id row
      → Marked row row' is_published delay now
      → IsSound id row'
  Marked-IsSound id row row' is_published delay now s m = record {
    keyed = m.same_id ∙ s.keyed;
    tries = omega (arith, s.tries, m.same_attempts);
    leased_while_sending = inr (unsent m.becomes, m.no_owner);
  }
    where
      unsent :
          ((is_published ≡ true)
              × (row'.status ≡ published)
              × (row'.published_at ≡ some (stored now))
              × (row'.next_retry_at ≡ none))
            ⊎ ((is_published ≡ false)
                × (row'.status ≡ waiting)
                × (row'.published_at ≡ row.published_at)
                × (row'.next_retry_at ≡ some (stored (now + delay * 1000000))))
          → row'.status ≢ sending
      unsent (inl (_, e, _, _)) = λ h. cc (e, h)
      unsent (inr (_, e, _, _)) = λ h. cc (e, h)

  -- A mark keeps the rows sound if the row that it read was.
  pub marks-IsSoundAt :
      (db : Database) (found : Option JudgeOutbox) (id owner : Text) (is_published : Bool)
      (delay now : ℕ) (commit : Commit) (k : Text)
      → ((j : Text) → IsSoundAt j (db.outbox j))
      → IsSoundAt id found
      → IsSoundAt k ((update_outbox env db found id owner is_published delay now commit).0.outbox k)
  marks-IsSoundAt db found id owner is_published delay now commit k s f =
      elim (update_branches db found id owner is_published delay now commit) [
        | inl (_, same, _) ↦ subst (λ (x : Database). IsSoundAt k (x.outbox k)) (sym same) (s k)
        | inr (row, row', e, _, _, m, becomes, _) ↦
            subst (λ (x : Database). IsSoundAt k (x.outbox k)) (sym becomes)
              (put-IsSoundAt env db.outbox id row' k
                (Marked-IsSound id row row' is_published delay now (subst (IsSoundAt id) e f) m)
                (s k))
      ]
