-- ===== src/Inbox/Lease.antt =====
-- judge_inbox.hpp: the owner of a message and its result. A history is a sequence of calls
-- of any judge instances for one message, each at its own server time.
use online_judge.Base.{
  ℕ, ◌+◌, ◌≤◌, ◌<◌, ◌≡◌, ◌≢◌, refl, Text, List, [], ◌∷◌, Option, none, some, All, arith, ◌⊎◌, subst,
  sym,
}
use online_judge.Inbox.{
  Entry, processing, completed, reply_started, reply_completed, reply_conflict, reply_processing,
  reply_done, claim_script, complete_script,
}

pub data Call : Type 0 where
  claims : (fingerprint owner : Text) (lease_ms retention_ms now : ℕ) → Call
  completes : (fingerprint owner result : Text) (ttl_ms now : ℕ) → Call

abbrev pub time_of : Call → ℕ
time_of (claims f o l r now) = now
time_of (completes f o p t now) = now

pub step : Option Entry → Call → Option Entry
step slot (claims f o l r now) = (claim_script f o l r now slot).1
step slot (completes f o p t now) = (complete_script f o p t now slot).1

pub run : Option Entry → List Call → Option Entry
run slot [] = slot
run slot (c ∷ rest) = run (step slot c) rest

-- The script answers of a history satisfy a predicate at the slots where they were given.
abbrev pub Throughout : (Option Entry → Call → Type 0) → Option Entry → List Call → Type 0
Throughout P slot [] = Unit
Throughout P slot (c ∷ rest) = P slot c × Throughout P (step slot c) rest

-- The call comes before `t` and is no completion by `owner`.
abbrev pub Foreign : Text → ℕ → Call → Type 0
Foreign owner t (claims f o l r now) = now < t
Foreign owner t (completes f o p l now) = (now < t) × (o ≢ owner)

-- A claim is told to wait or that the payload differs, and a completion is refused.
abbrev pub Refused : Option Entry → Call → Type 0
Refused slot (claims f o l r now) =
    ((n : ℕ) × ((claim_script f o l r now slot).0 ≡ reply_processing n))
    ⊎ ((claim_script f o l r now slot).0 ≡ reply_conflict)
Refused slot (completes f o p t now) = (complete_script f o p t now slot).0 ≢ reply_done

pub record IsHeld (e : Entry) (owner : Text) (lease_end : ℕ) : Type 0 where
  pub is_processing : e.state ≡ processing
  pub owned : e.owner ≡ some owner
  pub leased : e.lease_until ≡ some lease_end
  pub retained : lease_end ≤ e.expires_at

held_step :
    (e : Entry) (owner : Text) (lease_end : ℕ) (c : Call)
    → IsHeld e owner lease_end
    → Foreign owner lease_end c
    → (step (some e) c ≡ some e) × Refused (some e) c
unfolding step claim_script complete_script
held_step e owner lease_end (claims f o l r now) h b = (ground arith, ground arith)
held_step e owner lease_end (completes f o p t now) h b = (ground arith, ground arith)

held_run :
    (e : Entry) (owner : Text) (lease_end : ℕ) (history : List Call)
    → IsHeld e owner lease_end
    → All (Foreign owner lease_end) history
    → (run (some e) history ≡ some e) × Throughout Refused (some e) history
unfolding run
held_run e owner lease_end [] h b = (refl, tt)
held_run e owner lease_end (c ∷ rest) h b =
    let (same, refused) = held_step e owner lease_end c h b.0 in
    let (r, t) = held_run e owner lease_end rest h b.1 in (rw same r, (refused, rw same t))

granted_entry :
    (slot : Option Entry) (f o : Text) (lease_ms retention_ms now : ℕ)
    → lease_ms ≤ retention_ms
    → (claim_script f o lease_ms retention_ms now slot).0 ≡ reply_started
    → (e : Entry) × (step slot (claims f o lease_ms retention_ms now) ≡ some e)
      × IsHeld e o (now + lease_ms)
      × (e.fingerprint ≡ some f)
unfolding step claim_script
granted_entry slot f o lease_ms retention_ms now h g = (
  record {
    state = processing;
    fingerprint = some f;
    owner = some o;
    lease_until = some (now + lease_ms);
    result = none;
    expires_at = now + retention_ms;
  },
  ground arith,
  ground arith,
  refl,
)

-- A judge that was made the owner keeps the message to itself until its lease ends: whatever other
-- judges call before that time, completions by the owner aside, changes nothing at the key, every
-- claim of theirs is answered by a wait or a conflict, and none of their completions succeeds.
pub lease_exclusive :
    (slot : Option Entry) (f o : Text) (lease_ms retention_ms now : ℕ) (history : List Call)
    → lease_ms ≤ retention_ms
    → (claim_script f o lease_ms retention_ms now slot).0 ≡ reply_started
    → All (Foreign o (now + lease_ms)) history
    → let held = step slot (claims f o lease_ms retention_ms now) in
      (run held history ≡ held) × Throughout Refused held history
lease_exclusive slot f o lease_ms retention_ms now history fits g b =
    let (e, is, held, _) = granted_entry slot f o lease_ms retention_ms now fits g in
    rw is (held_run e o (now + lease_ms) history held b)

-- What a finished entry answers: the stored result to its own fingerprint, a conflict to any other.
abbrev pub Replays : Text → Text → Option Entry → Call → Type 0
Replays fp result slot (claims f o l r now) =
    ((f ≡ fp) × ((claim_script f o l r now slot).0 ≡ reply_completed (some result)))
    ⊎ ((f ≢ fp) × ((claim_script f o l r now slot).0 ≡ reply_conflict))
Replays fp result slot (completes f o p t now) =
    ((f ≡ fp) × (p ≡ result) × ((complete_script f o p t now slot).0 ≡ reply_done))
    ⊎ (((f ≢ fp) ⊎ (p ≢ result)) × ((complete_script f o p t now slot).0 ≢ reply_done))

pub record IsFinal (e : Entry) (fp result : Text) : Type 0 where
  pub is_completed : e.state ≡ completed
  pub printed : e.fingerprint ≡ some fp
  pub stored : e.result ≡ some result

final_step :
    (e : Entry) (fp result : Text) (c : Call)
    → IsFinal e fp result
    → time_of c < e.expires_at
    → (step (some e) c ≡ some e) × Replays fp result (some e) c
unfolding step claim_script complete_script
final_step e fp result (claims f o l r now) h b = (ground arith, ground arith)
final_step e fp result (completes f o p t now) h b = (ground arith, ground arith)

final_run :
    (e : Entry) (fp result : Text) (history : List Call)
    → IsFinal e fp result
    → All (λ c. time_of c < e.expires_at) history
    → (run (some e) history ≡ some e) × Throughout (Replays fp result) (some e) history
unfolding run
final_run e fp result [] h b = (refl, tt)
final_run e fp result (c ∷ rest) h b =
    let (same, replayed) = final_step e fp result c h b.0 in
    let (r, t) = final_run e fp result rest h b.1 in (rw same r, (replayed, rw same t))

completed_entry :
    (e : Entry) (f o result : Text) (lease_end ttl_ms now : ℕ)
    → IsHeld e o lease_end
    → e.fingerprint ≡ some f
    → now < lease_end
    → (done : Entry) × (step (some e) (completes f o result ttl_ms now) ≡ some done)
      × ((complete_script f o result ttl_ms now (some e)).0 ≡ reply_done)
      × IsFinal done f result
      × (done.expires_at ≡ now + ttl_ms)
unfolding step complete_script
completed_entry e f o result lease_end ttl_ms now h p b = (
  record e {
    state = completed;
    result = some result;
    owner = none;
    lease_until = none;
    expires_at = now + ttl_ms;
  },
  ground arith,
  ground arith,
  ground arith,
  refl,
)

-- From the grant of a lease to the end of the result's time to live: other judges' calls during the
-- lease do not keep the owner from completing before it ends, and from then on the key does not
-- change, every claim of the same payload is answered by that result and of another payload by a
-- conflict, and no completion with another result or payload succeeds.
pub owner_completes_for_good :
    (slot : Option Entry) (f o result : Text) (lease_ms retention_ms now ttl_ms later : ℕ)
    → (before after : List Call) → lease_ms ≤ retention_ms
    → (claim_script f o lease_ms retention_ms now slot).0 ≡ reply_started
    → All (Foreign o (now + lease_ms)) before
    → later < now + lease_ms
    → All (λ c. time_of c < later + ttl_ms) after
    → let held = run (step slot (claims f o lease_ms retention_ms now)) before in
      let finished = step held (completes f o result ttl_ms later) in
      ((complete_script f o result ttl_ms later held).0 ≡ reply_done)
      × (run finished after ≡ finished)
      × Throughout (Replays f result) finished after
owner_completes_for_good slot f o result lease_ms retention_ms now ttl_ms later before after fits g
      b t a =
    let (e, is, held, printed) = granted_entry slot f o lease_ms retention_ms now fits g in
    let (same, _) = held_run e o (now + lease_ms) before held b in
    let (d, becomes, replied, final, ends) =
      completed_entry e f o result (now + lease_ms) ttl_ms later held printed t in
    let (fixed, replays) =
      final_run d f result after final (subst (λ x. All (λ c. time_of c < x) after) (sym ends) a) in
    rw (is, same, becomes) (replied, fixed, replays)
