-- ===== src/Driver/Pending.antt =====
-- enhancements/0001-zigbee-ember/src/homey-ember.cjs: the sends that wait for the coordinator's
-- report (`waitForMessageSent`, `onMessageSent`, `rejectPendingSends`, and how `sendRawZclFrame`
-- ends one that was not dispatched). herdsman's status numbers are parameters.
pub mod Counts
pub mod Once
pub mod Rejected
use homey_shs_enhanced.Promises.{abort_error}
use homey_shs_enhanced.Prelude.{
  Thrown, ℕ, Result, List, Option, Bool, [], true, false, none, some, ok, err, ◌∷◌, if◌then◌else◌,
  ◌==◌, ◌++◌, ◌||◌, ◌&&◌,
}

-- A promise of `waitForMessageSent`, by its message tag and its number among all promises.
abbrev pub Send : Type 0
Send = ℕ × ℕ

abbrev pub same_send : Send → Send → Bool
same_send a b = a.0 == b.0 && a.1 == b.1

pub record Expected : Type 0 where
  pub kind : ℕ
  pub destination : ℕ
  pub profile_id : ℕ
  pub cluster_id : ℕ
  pub source_endpoint : ℕ
  pub destination_endpoint : ℕ

-- An entry of `homeyPendingSends`, with its key; `resolve`, `reject` and `cleanup` are those of the
-- promise.
pub record Pending : Type 0 where
  pub send : Send
  pub expected : Option Expected

-- The arguments of `onMessageSent`, but for the message tag.
pub record Report : Type 0 where
  pub status : ℕ
  pub kind : ℕ
  pub destination : ℕ
  pub profile_id : ℕ
  pub cluster_id : ℕ
  pub source_endpoint : ℕ
  pub destination_endpoint : ℕ
  pub sequence : ℕ

-- `watched`: the promises whose timer and abort listener are in place. `settled`: the calls of
-- `resolve`, with the APS sequence, and of `reject`, the earliest first.
pub record Sends : Type 0 where
  pub pending : List Pending
  pub watched : List Send
  pub settled : List (Send × Result ℕ)

abbrev pub no_sends : Sends
no_sends = record { pending = []; watched = []; settled = [] }

unfoldable pub get_pending : ℕ → List Pending → Option Pending
get_pending tag [] = none
get_pending tag (p ∷ ps) = if p.send.0 == tag then some p else get_pending tag ps

unfoldable pub set_pending : Pending → List Pending → List Pending
set_pending p [] = p ∷ []
set_pending p (q ∷ qs) = if q.send.0 == p.send.0 then p ∷ qs else q ∷ set_pending p qs

unfoldable pub delete_pending : ℕ → List Pending → List Pending
delete_pending tag [] = []
delete_pending tag (p ∷ ps) =
    if p.send.0 == tag then delete_pending tag ps else p ∷ delete_pending tag ps

unfoldable pub is_watched : Send → List Send → Bool
is_watched k [] = false
is_watched k (w ∷ ws) = same_send w k || is_watched k ws

unfoldable pub unwatch : Send → List Send → List Send
unwatch k [] = []
unwatch k (w ∷ ws) = if same_send w k then ws else w ∷ unwatch k ws

-- `delete(messageTag)`, `cleanup()`, and `resolve` or `reject`.
unfoldable pub finish : Send → Result ℕ → Sends → Sends
finish k r s = record {
  pending = delete_pending k.0 s.pending;
  watched = unwatch k s.watched;
  settled = s.settled ++ (k, r) ∷ [];
}

-- `!pending.expected || (...)`.
unfoldable pub matches : Option Expected → Report → Bool
matches none report = true
matches (some x) report =
    report.kind == x.kind
    && report.destination == x.destination
    && report.profile_id == x.profile_id
    && report.cluster_id == x.cluster_id
    && report.source_endpoint == x.source_endpoint
    && report.destination_endpoint == x.destination_endpoint

-- What ends a pending send. `reported`: the coordinator's report for a message tag; `times_out` and
-- `aborts`: the promise's own timer and listener; `not_dispatched`: `sendRawZclFrame` fails to hand
-- the frame of a tag to the coordinator; `rejects_all`: the adapter stops or the coordinator resets.
pub data SendEvent : Type 0 where
  -- The signal's abort reason, if it is aborted already.
  registers : Send → Option Expected → Option Thrown → SendEvent
  reported : ℕ → Report → SendEvent
  times_out : Send → SendEvent
  aborts : Send → Thrown → SendEvent
  not_dispatched : ℕ → Thrown → SendEvent
  rejects_all : Thrown → SendEvent

-- `ok_status` and `timeout_status` are herdsman's; `delivery_error` makes the
-- `HomeyEmberStatusError` of a status.
module _ (ok_status timeout_status : ℕ) (delivery_error : ℕ → Thrown) where
  unfoldable pub on_abort : Send → Thrown → Sends → Sends
  on_abort k reason s = if is_watched k s.watched then finish k (err (abort_error reason)) s else s

  unfoldable pub on_timeout : Send → Sends → Sends
  on_timeout k s =
      if is_watched k s.watched then finish k (err (delivery_error timeout_status)) s else s

  unfoldable pub wait_for_message_sent : Send → Option Expected → Option Thrown → Sends → Sends
  wait_for_message_sent k expected aborted s =
      let s' : Sends = record s {
        pending = set_pending (record { send = k; expected = expected }) s.pending;
        watched = k ∷ s.watched;
      } in
      elim aborted [ none ↦ s' | some reason ↦ on_abort k reason s' ]

  abbrev pub delivered : Report → Result ℕ
  delivered report =
      if report.status == ok_status then ok report.sequence else err (delivery_error report.status)

  abbrev pub report_to : Option Pending → Report → Sends → Sends
  report_to none report s = s
  report_to (some p) report s =
      if matches p.expected report then finish p.send (delivered report) s else s

  unfoldable pub on_message_sent : ℕ → Report → Sends → Sends
  on_message_sent tag report s = report_to (get_pending tag s.pending) report s

  abbrev pub fail_pending : Option Pending → Thrown → Sends → Sends
  fail_pending none e s = s
  fail_pending (some p) e s = finish p.send (err e) s

  unfoldable pub on_not_dispatched : ℕ → Thrown → Sends → Sends
  on_not_dispatched tag e s = fail_pending (get_pending tag s.pending) e s

  -- The loop of `rejectPendingSends` over the entries `ps`.
  unfoldable pub reject_each : List Pending → Thrown → Sends → Sends
  reject_each [] e s = s
  reject_each (p ∷ ps) e s = reject_each ps e (finish p.send (err e) s)

  unfoldable pub reject_pending_sends : Thrown → Sends → Sends
  reject_pending_sends e s = reject_each s.pending e s

  unfoldable pub send_step : Sends → SendEvent → Sends
  send_step s (registers k expected aborted) = wait_for_message_sent k expected aborted s
  send_step s (reported tag report) = on_message_sent tag report s
  send_step s (times_out k) = on_timeout k s
  send_step s (aborts k reason) = on_abort k reason s
  send_step s (not_dispatched tag e) = on_not_dispatched tag e s
  send_step s (rejects_all e) = reject_pending_sends e s

  unfoldable pub send_run : Sends → List SendEvent → Sends
  send_run s [] = s
  send_run s (e ∷ es) = send_run (send_step s e) es
