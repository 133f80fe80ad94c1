-- ===== src/Runs/Invariant.antt =====
-- What holds of the run store: its records pass their validator, stand under their own id, never
-- outnumber the capacity, and each has an owner entry.
use governed_analytics_agent.Common.{
  ℕ, suc, ◌≤◌, ◌≡◌, refl, String, Bool, true, ◌&&◌, Option, none, some, [], ◌∷◌, leb, arith, eq_iff,
  Dict, lookup, insert, erase, IsDistinct, insert-IsDistinct, erase-IsDistinct, length,
}
use governed_analytics_agent.Runs.{RunStore}
use governed_analytics_agent.Runs.Changes.{
  Change, same, added, updated, removed, Advances, starts, ends,
}
use governed_analytics_agent.Runs.Record.{
  RunRecord, RunResult, queued_record, running_record, terminal_record, with_result,
  validate_lifecycle, is_queued, is_running,
}

abbrev within : Option ℕ → ℕ → Bool
within none t = true
within (some s) t = leb s t

-- A valid record of the run whose times are not past `t`.
pub record IsValid (t : ℕ) (run_id : String) (r : RunRecord) : Type 0 where
  pub named : r.run_id ≡ run_id
  pub valid : validate_lifecycle r ≡ true
  pub timely : (leb r.created_at t && within r.started_at t) ≡ true

abbrev pub AllValid : ℕ → Dict RunRecord → Type 0
AllValid t [] = Unit
AllValid t ((k, r) ∷ d) = IsValid t k r × AllValid t d

abbrev pub SameKeys : Dict RunRecord → Dict (Option ℕ) → Type 0
SameKeys [] [] = Unit
SameKeys ((k, r) ∷ records) ((j, o) ∷ owners) = (k ≡ j) × SameKeys records owners
SameKeys _ _ = ⊥

pub record IsSound (t : ℕ) (s : RunStore) : Type 0 where
  pub distinct : IsDistinct s.records
  pub valid : AllValid t s.records
  pub bounded : length s.records ≤ s.max_runs
  pub owned : SameKeys s.records s.owners

later-IsValid : (t now : ℕ) (k : String) (r : RunRecord) → t ≤ now → IsValid t k r → IsValid now k r
later-IsValid t now k r le v = ground (arith, v.named, v.valid, v.timely)

later-AllValid : (t now : ℕ) (d : Dict RunRecord) → t ≤ now → AllValid t d → AllValid now d
later-AllValid t now [] le v = tt
later-AllValid t now ((k, r) ∷ d) le v =
    (later-IsValid t now k r le v.0, later-AllValid t now d le v.1)

lookup-AllValid :
    (t : ℕ) (k : String) (r : RunRecord) (d : Dict RunRecord)
    → AllValid t d
    → lookup k d ≡ some r
    → IsValid t k r
lookup-AllValid t k r [] v e = absurd (ground arith)
lookup-AllValid t k r ((j, q) ∷ d) v e = ground (arith, eq_iff j k, lookup-AllValid t k r d v.1)

insert-AllValid :
    (t : ℕ) (k : String) (r : RunRecord) (d : Dict RunRecord)
    → IsValid t k r
    → AllValid t d
    → AllValid t (insert k r d)
insert-AllValid t k r [] h v = (h, tt)
insert-AllValid t k r ((j, q) ∷ d) h v = ground (arith, eq_iff j k, insert-AllValid t k r d h v.1)

erase-AllValid : (t : ℕ) (k : String) (d : Dict RunRecord) → AllValid t d → AllValid t (erase k d)
erase-AllValid t k [] v = tt
erase-AllValid t k ((j, q) ∷ d) v = ground (arith, erase-AllValid t k d v.1)

length-insert_new :
    (k : String) (r : RunRecord) (d : Dict RunRecord)
    → lookup k d ≡ none
    → length (insert k r d) ≡ suc (length d)
length-insert_new k r [] h = refl
length-insert_new k r ((j, q) ∷ d) h = ground (arith, length-insert_new k r d)

length-insert_known :
    (k : String) (r q : RunRecord) (d : Dict RunRecord)
    → lookup k d ≡ some q
    → length (insert k r d) ≡ length d
length-insert_known k r q [] h = absurd (ground arith)
length-insert_known k r q ((j, p) ∷ d) h = ground (arith, length-insert_known k r q d)

length-erase : (k : String) (d : Dict RunRecord) → length (erase k d) ≤ length d
length-erase k [] = omega arith
length-erase k ((j, q) ∷ d) = ground (arith, length-erase k d)

insert-SameKeys :
    (k : String) (r : RunRecord) (o : Option ℕ) (d : Dict RunRecord) (owners : Dict (Option ℕ))
    → SameKeys d owners
    → SameKeys (insert k r d) (insert k o owners)
insert-SameKeys k r o [] [] h = (refl, tt)
insert-SameKeys k r o [] (p ∷ owners) h = elim h [ ]
insert-SameKeys k r o (q ∷ d) [] h = elim h [ ]
insert-SameKeys k r o ((j, q) ∷ d) ((i, p) ∷ owners) h =
    ground (arith, insert-SameKeys k r o d owners h.1)

update-SameKeys :
    (k : String) (r q : RunRecord) (d : Dict RunRecord) (owners : Dict (Option ℕ))
    → lookup k d ≡ some q
    → SameKeys d owners
    → SameKeys (insert k r d) owners
update-SameKeys k r q [] owners e h = absurd (ground arith)
update-SameKeys k r q (p ∷ d) [] e h = elim h [ ]
update-SameKeys k r q ((j, p) ∷ d) ((i, o) ∷ owners) e h =
    ground (arith, eq_iff j k, update-SameKeys k r q d owners)

erase-SameKeys :
    (k : String) (d : Dict RunRecord) (owners : Dict (Option ℕ))
    → SameKeys d owners
    → SameKeys (erase k d) (erase k owners)
erase-SameKeys k [] [] h = tt
erase-SameKeys k [] (p ∷ owners) h = elim h [ ]
erase-SameKeys k (q ∷ d) [] h = elim h [ ]
erase-SameKeys k ((j, q) ∷ d) ((i, p) ∷ owners) h = ground (arith, erase-SameKeys k d owners h.1)

queued-IsValid :
    (now : ℕ) (run_id query : String) → IsValid now run_id (queued_record run_id query now)
unfolding validate_lifecycle
queued-IsValid now run_id query = ground arith

running-IsValid :
    (t now : ℕ) (k : String) (r : RunRecord)
    → t ≤ now
    → is_queued r ≡ true
    → IsValid t k r
    → IsValid now k (running_record now r)
unfolding validate_lifecycle running_record
running-IsValid t now k r le q v = ground (arith, v.named, v.valid, v.timely)

terminal-IsValid :
    (t now : ℕ) (k : String) (r : RunRecord) (result : RunResult)
    → t ≤ now
    → is_running r ≡ true
    → IsValid t k r
    → IsValid now k (terminal_record now result r)
unfolding validate_lifecycle terminal_record with_result
terminal-IsValid t now k r result le q v = ground (arith, v.named, v.valid, v.timely)

Advances-IsValid :
    (t now : ℕ) (k : String) (r r' : RunRecord)
    → t ≤ now
    → Advances now r r'
    → IsValid t k r
    → IsValid now k r'
Advances-IsValid t now k r _ le (starts q) v = running-IsValid t now k r le q v
Advances-IsValid t now k r _ le (ends q result) v = terminal-IsValid t now k r result le q v

pub Change-IsSound :
    (t now : ℕ) (s s' : RunStore)
    → t ≤ now
    → IsSound t s
    → Change now s s'
    → IsSound now s' × (s'.max_runs ≡ s.max_runs)
Change-IsSound t now s s' le h (same e) =
    let later = later-AllValid t now s.records le h.valid in
    rw e
      (record { distinct = h.distinct; valid = later; bounded = h.bounded; owned = h.owned }, refl)
Change-IsSound t now s s' le h (added k query owner free room e) =
    let new = queued_record k query now in
    let later = later-AllValid t now s.records le h.valid in
    let longer = length-insert_new k new s.records free in
    rw e (
      record {
        distinct = insert-IsDistinct k new s.records h.distinct;
        valid = insert-AllValid now k new s.records (queued-IsValid now k query) later;
        bounded = omega (arith, longer, room);
        owned = insert-SameKeys k new owner s.records s.owners h.owned;
      },
      refl,
    )
Change-IsSound t now s s' le h (updated k r r' found step e) =
    let later = later-AllValid t now s.records le h.valid in
    let valid =
      Advances-IsValid t now k r r' le step (lookup-AllValid t k r s.records h.valid found) in
    rw e (
      record {
        distinct = insert-IsDistinct k r' s.records h.distinct;
        valid = insert-AllValid now k r' s.records valid later;
        bounded = omega (arith, length-insert_known k r' r s.records found, h.bounded);
        owned = update-SameKeys k r' r s.records s.owners found h.owned;
      },
      refl,
    )
Change-IsSound t now s s' le h (removed k r found idle e) =
    let later = later-AllValid t now s.records le h.valid in
    rw e (
      record {
        distinct = erase-IsDistinct k s.records h.distinct;
        valid = erase-AllValid now k s.records later;
        bounded = omega (arith, length-erase k s.records, h.bounded);
        owned = erase-SameKeys k s.records s.owners h.owned;
      },
      refl,
    )
