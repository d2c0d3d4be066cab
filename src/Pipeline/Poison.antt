-- ===== src/Pipeline/Poison.antt =====
-- The search for poison messages keeps a store valid: it adds entries for failed tasks that have
-- none, as those that an operator cancelled.
use ninai.Base.{
  List, Option, Outcome, Text, [], length, none, ok, raise, scalar_one_or_none, select, some, ℕ,
  ◌+◌, ◌==◌, ◌>>=◌, ◌∷◌,
}
use ninai.Pipeline.{DeadLetterTask, PipelineTask, Store, poison_message}
use ninai.Pipeline.Invariant.{IsValid, Keeps, check_and_quarantine-Keeps}
use ninai.Pipeline.Quarantine.{check_and_quarantine}
use ninai.Pipeline.Review.{
  add_found, detect_poison_messages, poison_groups, quarantine_all, quarantine_groups,
  quarantine_one,
}
use ninai.Pipeline.Steps.{chain-Keeps}

-- A chain whose steps keep the store valid.
then-Keeps :
    {A B : Type 0} (o : Outcome (A × Store)) (k : A × Store → Outcome (B × Store))
    → Keeps o
    → ((s : A × Store) → IsValid s.1 → Keeps (k s))
    → Keeps (o >>= k)
then-Keeps (ok s) k h f = f s h
then-Keeps (raise e) k h f = tt

quarantine_one-Keeps :
    (next_id : ℕ) (t : Option PipelineTask) (now : ℕ) (ds : List DeadLetterTask) (db : Store)
    → IsValid db
    → Keeps (quarantine_one next_id t now (ds, db))
unfolding quarantine_one
quarantine_one-Keeps next_id none now ds db h = h
quarantine_one-Keeps next_id (some t) now ds db h =
    then-Keeps (check_and_quarantine next_id t poison_message now db)
      (λ r. ok (add_found r.0 ds, r.1))
      (check_and_quarantine-Keeps next_id t poison_message now db h) (λ s v. v)

quarantine_all-Keeps :
    (next_id : ℕ) (ids : List ℕ) (now : ℕ) (s : List DeadLetterTask × Store)
    → IsValid s.1
    → Keeps (quarantine_all next_id ids now s)
unfolding quarantine_all
quarantine_all-Keeps next_id [] now s h = h
quarantine_all-Keeps next_id (id ∷ ids) now s h =
    chain-Keeps (scalar_one_or_none (select (λ t. t.id == id) (s.1).tasks)) _ (λ t.
      then-Keeps (quarantine_one next_id t now s) (quarantine_all (next_id + 1) ids now)
        (quarantine_one-Keeps next_id t now s.0 s.1 h) (quarantine_all-Keeps (next_id + 1) ids now))

quarantine_groups-Keeps :
    (next_id : ℕ) (gs : List (Text × List ℕ)) (now : ℕ) (s : List DeadLetterTask × Store)
    → IsValid s.1
    → Keeps (quarantine_groups next_id gs now s)
unfolding quarantine_groups
quarantine_groups-Keeps next_id [] now s h = h
quarantine_groups-Keeps next_id (g ∷ gs) now s h =
    then-Keeps (quarantine_all next_id g.1 now s) (quarantine_groups (next_id + length g.1) gs now)
      (quarantine_all-Keeps next_id g.1 now s h)
      (quarantine_groups-Keeps (next_id + length g.1) gs now)

pub detect_poison_messages-Keeps :
    (next_id org_id now : ℕ) (db : Store)
    → IsValid db
    → Keeps (detect_poison_messages next_id org_id now db)
unfolding detect_poison_messages
detect_poison_messages-Keeps next_id org_id now db h =
    quarantine_groups-Keeps next_id (poison_groups org_id db) now ([], db) h
