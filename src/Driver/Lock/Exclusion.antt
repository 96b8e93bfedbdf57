-- ===== src/Driver/Lock/Exclusion.antt =====
-- enhancements/0001-zigbee-ember/src/homey-ember.cjs: `withMulticastLock` as a lock with tickets,
-- step by step.
use homey_shs_enhanced.Driver.Lock.Tickets.{
  ticket_phase, ticket_run, no_tickets, ticket_step, Refines, TicketLock,
}
use homey_shs_enhanced.Driver.Lock.{
  released, is_waiting, is_running, running, waiting, operation_settles, begins, LockEvent,
  is_resolved, lock_step, unlocked, begin, lock_run, release, enters, Chain, enter,
}
use homey_shs_enhanced.Prelude.{
  true, not, leb, Bool-cases, ltb, ℕ, List, [], zero, suc, inl, inr, ◌≤◌, ◌∷◌, ◌≡◌, if◌then◌else◌,
  ◌⊎◌, ◌<◌, ◌==◌, ◌&&◌, arith, refl,
}

enter-Refines :
    (s : Chain) (a : TicketLock) → Refines s a → Refines (enter s) (ticket_step a enters)
unfolding enter
enter-Refines s a r = record {
  count = ground (arith, r.count);
  last = refl;
  linked = λ k l. ground (arith, r.linked k, r.last);
  agree = λ k p l. ground (arith, r.agree k, r.count, r.behind, r.serving);
  behind = omega (arith, r.behind);
  serving = λ b. omega (arith, r.serving b);
}

-- `begin` and the ticket lock test the same.
begin-agrees :
    (s : Chain) (a : TicketLock) (k : ℕ)
    → Refines s a
    → (ltb 0 k && leb k s.made && is_waiting (s.phase k) && is_resolved s (s.previous k))
      ≡ (k == suc a.served && leb k a.next && not a.busy)
unfolding is_resolved
begin-agrees s a zero r = ground arith
begin-agrees s a (suc k) r = elim (Bool-cases (leb (suc k) s.made)) [
  | inr b ↦ ground (arith, r.count)
  | inl b ↦ elim (Bool-cases (k == 0)) [
    | inl z ↦ ground (arith, r.linked k, r.agree (suc k), r.count, r.behind)
    | inr z ↦ ground (arith, r.linked k, r.agree (suc k), r.agree k, r.count, r.behind)
  ]
]

release-agrees :
    (s : Chain) (a : TicketLock) (k : ℕ)
    → Refines s a
    → (ltb 0 k && leb k s.made && is_running (s.phase k)) ≡ (k == suc a.served && a.busy)
release-agrees s a zero r = ground arith
release-agrees s a (suc k) r = elim (Bool-cases (leb (suc k) s.made)) [
  | inr b ↦ ground (arith, r.count, r.serving)
  | inl b ↦ ground (arith, r.agree (suc k), r.count)
]

begin-Refines :
    (s : Chain) (a : TicketLock) (k : ℕ)
    → Refines s a
    → Refines (begin k s) (ticket_step a (begins k))
unfolding begin
begin-Refines s a k r = elim (Bool-cases (k == suc a.served && leb k a.next && not a.busy)) [
  | inr b ↦ simp (begin-agrees s a k r, b) r
  | inl b ↦
      simp (begin-agrees s a k r, b)
        (record {
          count = r.count;
          last = r.last;
          linked = r.linked;
          agree = λ j p l. ground (arith, r.agree j p l);
          behind = r.behind;
          serving = λ _. ground arith;
        })
]

release-Refines :
    (s : Chain) (a : TicketLock) (k : ℕ)
    → Refines s a
    → Refines (release k s) (ticket_step a (operation_settles k))
unfolding release
release-Refines s a k r = elim (Bool-cases (k == suc a.served && a.busy)) [
  | inr b ↦ simp (release-agrees s a k r, b) r
  | inl b ↦
      simp (release-agrees s a k r, b)
        (record {
          count = r.count;
          last = r.last;
          linked = r.linked;
          agree = λ j p l. ground (arith, r.agree j p l);
          behind = ground (arith, r.serving);
          serving = λ e. cc;
        })
]

lock_step-Refines :
    (s : Chain) (a : TicketLock) (e : LockEvent)
    → Refines s a
    → Refines (lock_step s e) (ticket_step a e)
unfolding lock_step
lock_step-Refines s a enters r = enter-Refines s a r
lock_step-Refines s a (begins k) r = begin-Refines s a k r
lock_step-Refines s a (operation_settles k) r = release-Refines s a k r

lock_run-Refines :
    (s : Chain) (a : TicketLock) (es : List LockEvent)
    → Refines s a
    → Refines (lock_run s es) (ticket_run a es)
unfolding lock_run
lock_run-Refines s a [] r = r
lock_run-Refines s a (e ∷ es) r =
    lock_run-Refines (lock_step s e) (ticket_step a e) es (lock_step-Refines s a e r)

unlocked-Refines : Refines unlocked no_tickets
unlocked-Refines = record {
  count = refl;
  last = refl;
  linked = λ k l. absurd (omega arith);
  agree = λ k p l. absurd (omega arith);
  behind = omega arith;
  serving = λ e. cc;
}

-- The chain of promises refines a lock with tickets: in whatever order calls come, go on and
-- settle, each call waits, runs or is done exactly when the holder of the ticket of its number does.
pub lock_run-refines :
    (es : List LockEvent) (k : ℕ)
    → 0 < k
    → k ≤ (lock_run unlocked es).made
    → (lock_run unlocked es).phase k ≡ ticket_phase (ticket_run no_tickets es) k
lock_run-refines es k p l = (lock_run-Refines unlocked no_tickets es unlocked-Refines).agree k p l

-- While an operation on the multicast table runs, the operations of all earlier calls have settled,
-- and those of all later calls have not begun; so no two run at a time, and they run in the order
-- in which they were called, whether they return or throw.
pub lock_run-exclusive :
    (es : List LockEvent) (j k : ℕ)
    → let s = lock_run unlocked es in
      0 < j
      → j ≤ s.made
      → 0 < k
      → k ≤ s.made
      → s.phase k ≡ running
      → s.phase j ≡ (if ltb j k then released else if j == k then running else waiting)
lock_run-exclusive es j k pj lj pk lk run =
    let s = lock_run unlocked es in
    let a = ticket_run no_tickets es in
    ground (arith, run, lock_run-refines es j pj lj, lock_run-refines es k pk lk)

-- The lock is never stuck: while a call waits, either an operation
-- runs or some call can go on at once.
pub lock_run-progress :
    (es : List LockEvent) (k : ℕ)
    → let s = lock_run unlocked es in
      0 < k
      → k ≤ s.made
      → s.phase k ≡ waiting
      → (j : ℕ) × ((s.phase j ≡ running) ⊎ ((begin j s).phase j ≡ running))
unfolding begin
lock_run-progress es k p l w =
    let s = lock_run unlocked es in
    let a = ticket_run no_tickets es in
    let r = lock_run-Refines unlocked no_tickets es unlocked-Refines in
    let j = suc a.served in
    let near : j ≤ s.made = ground (arith, r.agree k p l, w, r.count) in
    (
      j,
      elim (Bool-cases a.busy) [
        | inl b ↦ inl (ground (arith, r.agree j))
        | inr b ↦
            let goes : (j == suc a.served && leb j a.next && not a.busy) ≡ true =
              ground (arith, r.count) in
            inr (ground (arith, begin-agrees s a j r, goes))
      ],
    )
