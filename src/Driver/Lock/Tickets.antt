-- ===== src/Driver/Lock/Tickets.antt =====
-- enhancements/0001-zigbee-ember/src/homey-ember.cjs: `withMulticastLock` beside a lock with
-- tickets, which serves its callers one at a time in the order in which they came.
-- `next`: the tickets given; `served`: those whose holder is done; `busy`: the next one is served.
use homey_shs_enhanced.Driver.Lock.{
  enters, waiting, operation_settles, running, released, LockPhase, begins, LockEvent, Chain,
}
use homey_shs_enhanced.Prelude.{
  not, leb, Bool, List, ℕ, [], suc, true, false, ◌∷◌, ◌&&◌, if◌then◌else◌, ◌==◌, ◌≤◌, ◌<◌, ◌≡◌,
}

pub record TicketLock : Type 0 where
  pub next : ℕ
  pub served : ℕ
  pub busy : Bool

abbrev pub no_tickets : TicketLock
no_tickets = record { next = 0; served = 0; busy = false }

abbrev pub ticket_step : TicketLock → LockEvent → TicketLock
ticket_step a enters = record a { next = suc a.next }
ticket_step a (begins k) =
    if k == suc a.served && leb k a.next && not a.busy then record a { busy = true } else a
ticket_step a (operation_settles k) =
    if k == suc a.served && a.busy then record a { served = suc a.served; busy = false } else a

abbrev pub ticket_run : TicketLock → List LockEvent → TicketLock
ticket_run a [] = a
ticket_run a (e ∷ es) = ticket_run (ticket_step a e) es

-- Where the holder of ticket `k` waits.
abbrev pub ticket_phase : TicketLock → ℕ → LockPhase
ticket_phase a k =
    if leb k a.served then released else if k == suc a.served && a.busy then running else waiting

pub record Refines (s : Chain) (a : TicketLock) : Type 0 where
  pub count : s.made ≡ a.next
  pub last : s.tail ≡ s.made
  pub linked : (k : ℕ) → k < s.made → s.previous (suc k) ≡ k
  pub agree : (k : ℕ) → 0 < k → k ≤ s.made → s.phase k ≡ ticket_phase a k
  pub behind : a.served ≤ a.next
  pub serving : a.busy ≡ true → a.served < a.next
