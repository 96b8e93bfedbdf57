-- ===== src/Driver/Pending/Once.antt =====
-- enhancements/0001-zigbee-ember/src/homey-ember.cjs: the promises of `waitForMessageSent`,
-- counted.
use homey_shs_enhanced.Driver.Pending.{
  reject_pending_sends, on_not_dispatched, on_timeout, on_message_sent, no_sends, send_step,
  send_run, matches, report_to, Expected, fail_pending, Report, on_abort, reject_each,
  wait_for_message_sent, finish, rejects_all, not_dispatched, aborts, times_out, reported,
  registers, same_send, SendEvent, Pending, get_pending, Sends, set_pending, Send, is_watched,
}
use homey_shs_enhanced.Prelude.{
  zero, suc, ◌⊎◌, Option, none, err, ◌∙◌, ==-refl, Thrown, Bool-cases, arith, ℕ, List, Result, [],
  refl, some, inl, inr, ◌+◌, ◌∷◌, ◌≡◌, if◌then◌else◌, ◌≤◌,
}
use homey_shs_enhanced.Driver.Pending.Counts.{
  count_watched, count_settled, count_pending, registrations, IsWatched, tally, is_watched-count,
  count_pending-set_le, get_pending-count, finish-tally, finish-IsWatched, still_watched,
  registrations-cons,
}

one_of : (m n : ℕ) → m + n ≡ 1 → ((m ≡ 1) × (n ≡ 0)) ⊎ ((m ≡ 0) × (n ≡ 1))
one_of zero n h = inr (refl, omega arith)
one_of (suc m) n h = inl (omega arith, omega arith)

-- What neither registers a promise nor leaves one unwatched.
abbrev Keeps : Sends → Sends → Type 0
Keeps s s' = IsWatched s' × ((k : Send) → tally k s' ≡ tally k s)

finish-Keeps :
    (w : Send) (r : Result ℕ) (s : Sends)
    → 1 ≤ count_watched w s.watched
    → IsWatched s
    → Keeps s (finish w r s)
finish-Keeps w r s h v = (finish-IsWatched w r s h v, λ k. finish-tally k w r s h)

finish_watched-Keeps :
    (w : Send) (r : Result ℕ) (s : Sends)
    → IsWatched s
    → Keeps s (if is_watched w s.watched then finish w r s else s)
finish_watched-Keeps w r s v = elim (Bool-cases (is_watched w s.watched)) [
  | inl on ↦ simp on (finish-Keeps w r s (is_watched-count w s.watched on) v)
  | inr off ↦ simp off (v, λ k. refl)
]

module _ (ok_status timeout_status : ℕ) (delivery_error : ℕ → Thrown) where
  on_abort-Keeps :
      (w : Send) (reason : Thrown) (s : Sends)
      → IsWatched s
      → Keeps s (on_abort ok_status timeout_status delivery_error w reason s)
  unfolding on_abort
  on_abort-Keeps w reason s v = finish_watched-Keeps w _ s v

  report_to-Keeps :
      (found : Option Pending) (report : Report) (tag : ℕ) (s : Sends)
      → get_pending tag s.pending ≡ found
      → IsWatched s
      → Keeps s (report_to ok_status timeout_status delivery_error found report s)
  report_to-Keeps none report tag s e v = (v, λ k. refl)
  report_to-Keeps (some p) report tag s e v =
      let h : 1 ≤ count_watched p.send s.watched =
        omega (arith, get_pending-count tag s.pending p e, v p.send) in
      elim (Bool-cases (matches p.expected report)) [
        | inl same ↦ simp same (finish-Keeps p.send _ s h v)
        | inr other ↦ simp other (v, λ k. refl)
      ]

  fail_pending-Keeps :
      (found : Option Pending) (e : Thrown) (tag : ℕ) (s : Sends)
      → get_pending tag s.pending ≡ found
      → IsWatched s
      → Keeps s (fail_pending ok_status timeout_status delivery_error found e s)
  fail_pending-Keeps none e tag s h v = (v, λ k. refl)
  fail_pending-Keeps (some p) e tag s h v =
      finish-Keeps p.send _ s (omega (arith, get_pending-count tag s.pending p h, v p.send)) v

  reject_each-Keeps :
      (ps : List Pending) (e : Thrown) (s : Sends)
      → ((k : Send) → count_pending k ps ≤ count_watched k s.watched)
      → IsWatched s
      → Keeps s (reject_each ok_status timeout_status delivery_error ps e s)
  unfolding reject_each
  reject_each-Keeps [] e s h v = (v, λ k. refl)
  reject_each-Keeps (p ∷ ps) e s h v =
      let first : 1 ≤ count_watched p.send s.watched =
        ground (arith, h p.send, ==-refl p.send.0, ==-refl p.send.1) in
      let one = finish-Keeps p.send (err e) s first v in
      let rest =
        reject_each-Keeps ps e (finish p.send (err e) s)
          (λ k. still_watched p.send (err e) ps s k first (h k)) one.0 in
      (rest.0, λ k. rest.1 k ∙ one.1 k)

  wait_for_message_sent-accounts :
      (w : Send) (expected : Option Expected) (aborted : Option Thrown) (s : Sends)
      → IsWatched s
      → let s' =
          wait_for_message_sent ok_status timeout_status delivery_error w expected aborted s in
        IsWatched s' × ((k : Send) → tally k s' ≡ (if same_send w k then 1 else 0) + tally k s)
  unfolding wait_for_message_sent
  wait_for_message_sent-accounts w expected none s v = (
    λ k.
        omega
          (arith, v k, count_pending-set_le k (record { send = w; expected = expected }) s.pending),
    λ k. omega arith,
  )
  wait_for_message_sent-accounts w expected (some reason) s v =
      let p : Pending = record { send = w; expected = expected } in
      let s' : Sends = record s { pending = set_pending p s.pending; watched = w ∷ s.watched } in
      let later =
        on_abort-Keeps w reason s' (λ k. omega (arith, v k, count_pending-set_le k p s.pending)) in
      (later.0, λ k. omega (arith, later.1 k))

  send_step-accounts :
      (e : SendEvent) (s : Sends)
      → IsWatched s
      → let s' = send_step ok_status timeout_status delivery_error s e in
        IsWatched s' × ((k : Send) → tally k s' ≡ registrations k (e ∷ []) + tally k s)
  unfolding send_step on_message_sent on_timeout on_not_dispatched reject_pending_sends
  send_step-accounts (registers w expected aborted) s v =
      let one = wait_for_message_sent-accounts w expected aborted s v in
      (one.0, λ k. omega (arith, one.1 k))
  send_step-accounts (reported tag report) s v =
      let one = report_to-Keeps _ report tag s refl v in (one.0, λ k. omega (arith, one.1 k))
  send_step-accounts (times_out w) s v =
      let one = finish_watched-Keeps w (err (delivery_error timeout_status)) s v in
      (one.0, λ k. omega (arith, one.1 k))
  send_step-accounts (aborts w reason) s v =
      let one = on_abort-Keeps w reason s v in (one.0, λ k. omega (arith, one.1 k))
  send_step-accounts (not_dispatched tag e) s v =
      let one = fail_pending-Keeps _ e tag s refl v in (one.0, λ k. omega (arith, one.1 k))
  send_step-accounts (rejects_all e) s v =
      let one = reject_each-Keeps s.pending e s v v in (one.0, λ k. omega (arith, one.1 k))

  -- The same from any state on.
  accounts_from :
      (es : List SendEvent) (s : Sends)
      → IsWatched s
      → let s' = send_run ok_status timeout_status delivery_error s es in
        IsWatched s' × ((k : Send) → tally k s' ≡ registrations k es + tally k s)
  unfolding send_run
  accounts_from [] s v = (v, λ k. omega arith)
  accounts_from (e ∷ es) s v =
      let one = send_step-accounts e s v in
      let rest = accounts_from es (send_step ok_status timeout_status delivery_error s e) one.0 in
      (rest.0, λ k. omega (arith, one.1 k, rest.1 k, registrations-cons k e es))

  -- Over any sequence of sends, reports, timeouts, aborts, failed dispatches and stops, message
  -- tags that are used again included: each promise that was registered once is either unsettled,
  -- with its timer and listener in place, or settled once, with both removed; one that was never
  -- registered is neither; and every pending entry belongs to a promise of the first kind.
  pub send_run-settles :
      (es : List SendEvent) (k : Send)
      → let s = send_run ok_status timeout_status delivery_error no_sends es in
        (registrations k es ≡ 1
          → ((count_watched k s.watched ≡ 1) × (count_settled k s.settled ≡ 0))
            ⊎ ((count_watched k s.watched ≡ 0) × (count_settled k s.settled ≡ 1)))
        × (registrations k es ≡ 0
            → (count_watched k s.watched ≡ 0) × (count_settled k s.settled ≡ 0))
        × (count_pending k s.pending ≤ count_watched k s.watched)
  send_run-settles es k =
      let all_in = accounts_from es no_sends (λ k. omega arith) in
      (
        λ h. one_of _ _ (omega (arith, all_in.1 k, h)),
        λ h. (omega (arith, all_in.1 k, h), omega (arith, all_in.1 k, h)),
        all_in.0 k,
      )
