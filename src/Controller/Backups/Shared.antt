-- ===== src/Controller/Backups/Shared.antt =====
-- enhancements/0001-zigbee-ember/src/HomeyEmberController.mts: the callers of `writeBackup` that
-- share a backup.
-- How often a caller is in a list.
use homey_shs_enhanced.Controller.Backups.{
  no_backups, stored, reading, read, resume_read, becomes_ready, storing, calls, settle_all,
  BackupEvent, NetworkKey, resume_store, BackupPhase, write_backup, Backups, publish_counters,
  backup_step, backup_run, settle_backup,
}
use homey_shs_enhanced.Prelude.{
  Option-cases, Bool-cases, arith, List, Result, Option, ℕ, [], refl, none, some, ok, err, inl, inr,
  ◌==◌, ◌≡◌, ◌++◌, if◌then◌else◌, ◌∷◌, ◌+◌,
}

abbrev pub waits_for : ℕ → List ℕ → ℕ
waits_for c [] = 0
waits_for c (d ∷ ds) = (if d == c then 1 else 0) + waits_for c ds

abbrev pub settled_of : ℕ → List (ℕ × Result (Unit {0})) → ℕ
settled_of c [] = 0
settled_of c (o ∷ os) = (if o.0 == c then 1 else 0) + settled_of c os

-- How often a caller calls in a run.
abbrev pub calls_of : ℕ → List BackupEvent → ℕ
calls_of c [] = 0
calls_of c (calls d ∷ es) = (if d == c then 1 else 0) + calls_of c es
calls_of c (becomes_ready b ∷ es) = calls_of c es
calls_of c (read r ∷ es) = calls_of c es
calls_of c (stored r ∷ es) = calls_of c es

-- With no backup under way nobody waits.
abbrev pub IsQuiet : Option BackupPhase → List ℕ → Type 0
IsQuiet none waiting = waiting ≡ []
IsQuiet (some phase) waiting = ¬ (waiting ≡ [])

-- The calls that a state accounts for.
abbrev pub accounted : ℕ → Backups → ℕ
accounted c s = waits_for c s.waiting + settled_of c s.settled

settled_of-settle_all :
    (c : ℕ) (r : Result (Unit {0})) (cs : List ℕ) (os : List (ℕ × Result (Unit {0})))
    → settled_of c (settle_all r cs ++ os) ≡ waits_for c cs + settled_of c os
settled_of-settle_all c r [] os = omega arith
settled_of-settle_all c r (d ∷ cs) os = omega (arith, settled_of-settle_all c r cs os)

write_backup-accounted :
    (c d : ℕ) (s : Backups)
    → accounted c (write_backup d s) ≡ accounted c s + (if d == c then 1 else 0)
unfolding write_backup
write_backup-accounted c d s = elim (Bool-cases s.ready) [
  | inl b ↦ elim (Option-cases s.in_flight) [
    | inl e ↦ ground (arith, b, e)
    | inr (p, e) ↦ ground (arith, b, e)
  ]
  | inr b ↦ ground (arith, b)
]

settle_backup-accounted :
    (c : ℕ) (r : Result (Unit {0})) (s : Backups) → accounted c (settle_backup r s) ≡ accounted c s
unfolding settle_backup
settle_backup-accounted c r s = omega (arith, settled_of-settle_all c r s.waiting s.settled)

resume_read-accounted :
    (c : ℕ) (p : Option BackupPhase) (r : Result (Option NetworkKey)) (s : Backups)
    → accounted c (resume_read p r s) ≡ accounted c s
resume_read-accounted c none r s = refl
resume_read-accounted c (some (storing key)) r s = refl
resume_read-accounted c (some reading) (ok key) s = refl
resume_read-accounted c (some reading) (err e) s = settle_backup-accounted c (err e) s

resume_store-accounted :
    (c : ℕ) (p : Option BackupPhase) (r : Result (Unit {0})) (s : Backups)
    → accounted c (resume_store p r s) ≡ accounted c s
unfolding publish_counters
resume_store-accounted c none r s = refl
resume_store-accounted c (some reading) r s = refl
resume_store-accounted c (some (storing key)) (ok _) s =
    settle_backup-accounted c (ok tt) (publish_counters key s)
resume_store-accounted c (some (storing key)) (err e) s = settle_backup-accounted c (err e) s

run-accounted :
    (c : ℕ) (s : Backups) (es : List BackupEvent)
    → accounted c (backup_run s es) ≡ accounted c s + calls_of c es
unfolding backup_run backup_step
run-accounted c s [] = omega arith
run-accounted c s (becomes_ready b ∷ es) = run-accounted c (record s { ready = b }) es
run-accounted c s (calls d ∷ es) =
    omega (arith, run-accounted c (write_backup d s) es, write_backup-accounted c d s)
run-accounted c s (read r ∷ es) = omega (
  arith,
  run-accounted c (resume_read s.in_flight r s) es,
  resume_read-accounted c s.in_flight r s,
)
run-accounted c s (stored r ∷ es) = omega (
  arith,
  run-accounted c (resume_store s.in_flight r s) es,
  resume_store-accounted c s.in_flight r s,
)

resume_read-IsQuiet :
    (p : Option BackupPhase) (r : Result (Option NetworkKey)) (s : Backups)
    → s.in_flight ≡ p
    → IsQuiet p s.waiting
    → let t = resume_read p r s in IsQuiet t.in_flight t.waiting
unfolding settle_backup
resume_read-IsQuiet none r s e q = rw e q
resume_read-IsQuiet (some (storing key)) r s e q = rw e q
resume_read-IsQuiet (some reading) (ok key) s e q = q
resume_read-IsQuiet (some reading) (err x) s e q = refl

resume_store-IsQuiet :
    (p : Option BackupPhase) (r : Result (Unit {0})) (s : Backups)
    → s.in_flight ≡ p
    → IsQuiet p s.waiting
    → let t = resume_store p r s in IsQuiet t.in_flight t.waiting
unfolding settle_backup
resume_store-IsQuiet none r s e q = rw e q
resume_store-IsQuiet (some reading) r s e q = rw e q
resume_store-IsQuiet (some (storing key)) (ok _) s e q = refl
resume_store-IsQuiet (some (storing key)) (err x) s e q = refl

step-IsQuiet :
    (s : Backups) (e : BackupEvent)
    → IsQuiet s.in_flight s.waiting
    → let t = backup_step s e in IsQuiet t.in_flight t.waiting
unfolding backup_step write_backup
step-IsQuiet s (becomes_ready b) q = q
step-IsQuiet s (read r) q = resume_read-IsQuiet s.in_flight r s refl q
step-IsQuiet s (stored r) q = resume_store-IsQuiet s.in_flight r s refl q
step-IsQuiet s (calls c) q = elim (Bool-cases s.ready) [
  | inr b ↦ simp b q
  | inl b ↦ elim (Option-cases s.in_flight) [
    | inl e ↦ simp (b, e) (λ h. cc)
    | inr (p, e) ↦ simp (b, e) (λ h. cc)
  ]
]

run-IsQuiet :
    (s : Backups) (es : List BackupEvent)
    → IsQuiet s.in_flight s.waiting
    → let t = backup_run s es in IsQuiet t.in_flight t.waiting
unfolding backup_run
run-IsQuiet s [] q = q
run-IsQuiet s (e ∷ es) q = run-IsQuiet (backup_step s e) es (step-IsQuiet s e q)

-- Whatever comes in whatever order: every call of `writeBackup` is at each point either waiting or
-- has ended, and has ended once at most; and calls wait exactly while a backup is under way, so one
-- that failed is not shared by later calls.
pub backup_run-shared :
    (c : ℕ) (es : List BackupEvent)
    → let s = backup_run no_backups es in
      (waits_for c s.waiting + settled_of c s.settled ≡ calls_of c es)
      × IsQuiet s.in_flight s.waiting
backup_run-shared c es =
    (omega (arith, run-accounted c no_backups es), run-IsQuiet no_backups es refl)
