-- ===== src/Driver/Dispatch/Raw.antt =====
-- enhancements/0001-zigbee-ember/src/homey-ember.cjs: what `sendRawZclFrame` hands to the
-- coordinator, and how it ends.
use homey_shs_enhanced.Driver.Dispatch.Sending.{
  raw_expected, dispatch_raw, send_raw_zcl_frame, raw_frame, raw_with, Dispatched, delivery_error,
  end_raw_dispatch,
}
use homey_shs_enhanced.Driver.Dispatch.Requests.{is_cleared}
use homey_shs_enhanced.Driver.Dispatch.{unicast, EzspCall, RawRequest, HerdsmanNumbers}
use homey_shs_enhanced.Driver.Pending.{
  report_to, delivered, matches, Report, send_run, wait_for_message_sent, set_pending,
  on_message_sent, on_not_dispatched, SendEvent, Send, fail_pending, Sends, Pending, finish,
  delete_pending, get_pending,
}
use homey_shs_enhanced.Prelude.{
  or_default, ◌≢◌, sym, subst, ==-refl, ◌++◌, false, ==_iff, ap, Bool, Result, true, ok, err, ◌⊎◌,
  arith, Bool-cases, Thrown, Option, List, ℕ, [], refl, none, some, inl, inr, ◌∷◌, ◌==◌, ◌≡◌,
}

get_pending-delete : (tag : ℕ) (ps : List Pending) → get_pending tag (delete_pending tag ps) ≡ none
unfolding get_pending delete_pending
get_pending-delete tag [] = refl
get_pending-delete tag (p ∷ ps) = elim (Bool-cases (p.send.0 == tag)) [
  | inl here ↦ ground (arith, here, get_pending-delete tag ps)
  | inr there ↦ ground (arith, there, get_pending-delete tag ps)
]

get_pending-tag :
    (tag : ℕ) (ps : List Pending) (p : Pending) → get_pending tag ps ≡ some p → p.send.0 ≡ tag
unfolding get_pending
get_pending-tag tag [] p h = cc
get_pending-tag tag (q ∷ ps) p h = elim (Bool-cases (q.send.0 == tag)) [
  | inl here ↦ ground (arith, here, h)
  | inr there ↦ ground (arith, there, h, get_pending-tag tag ps p)
]

get_pending-set_pending :
    (p : Pending) (ps : List Pending) → get_pending p.send.0 (set_pending p ps) ≡ some p
unfolding get_pending set_pending
get_pending-set_pending p [] = rw (==-refl p.send.0) refl
get_pending-set_pending p (q ∷ ps) = elim (Bool-cases (q.send.0 == p.send.0)) [
  | inl here ↦ rw (here, ==-refl p.send.0) refl
  | inr there ↦ rw (there, there) (get_pending-set_pending p ps)
]

module _ (h : HerdsmanNumbers) (q : RawRequest) (k : Send) where
  open h use {ok_status, timeout_status}

  fail_pending-forgets :
      (found : Option Pending) (e : Thrown) (s : Sends)
      → get_pending k.0 s.pending ≡ found
      → get_pending k.0 (fail_pending ok_status timeout_status (delivery_error h) found e s).pending
        ≡ none
  unfolding finish
  fail_pending-forgets none e s f = f
  fail_pending-forgets (some p) e s f =
      ground (arith, f, get_pending-tag k.0 s.pending p f, get_pending-delete k.0 s.pending)

  abbrev pub handed_raw : Option (List ℕ) → Bool → List EzspCall
  handed_raw (some bytes) true = unicast q.network_address (raw_frame h q) k.0 bytes ∷ []
  handed_raw _ _ = []

  -- EZSP took the frame.
  abbrev pub IsAccepted : Result (ℕ × ℕ) → Type 0
  IsAccepted answer = (n : ℕ) × (answer ≡ ok (ok_status, n))

  abbrev pub EndsRaw : Result (ℕ × ℕ) → Dispatched h → Type 0
  EndsRaw answer o =
      (IsAccepted answer × (o.2 ≡ ok k))
      ⊎ (¬ IsAccepted answer
          × ((e : Thrown) × (o.2 ≡ err e))
          × (get_pending k.0 o.0.pending ≡ none))

  end_raw_dispatch-EndsRaw :
      (call : EzspCall) (answer : Result (ℕ × ℕ)) (s : Sends)
      → EndsRaw answer (end_raw_dispatch h k call answer s)
        × ((end_raw_dispatch h k call answer s).1 ≡ call ∷ [])
  unfolding end_raw_dispatch on_not_dispatched
  end_raw_dispatch-EndsRaw call (err e) s = (
    inr (
      λ t. let (n, x) = t in cc,
      (_, refl),
      fail_pending-forgets (get_pending k.0 s.pending) _ s refl,
    ),
    refl,
  )
  end_raw_dispatch-EndsRaw call (ok (status, n)) s = elim (Bool-cases (status == ok_status)) [
    | inl same ↦
        rw same (inl ((n, ap (λ c. ok (c, n)) ((==_iff status ok_status).0 same)), refl), refl)
    | inr other ↦ rw other (
      inr (
        λ t. let (m, x) = t in absurd (ground (arith, x)),
        (_, refl),
        fail_pending-forgets (get_pending k.0 s.pending) _ s refl,
      ),
      refl,
    )
  ]

  abbrev pub EndsDispatch : Bool → Result (ℕ × ℕ) → Sends → Dispatched h → Type 0
  EndsDispatch true answer s o = EndsRaw answer o
  EndsDispatch false answer s o = (o.0 ≡ s) × ((e : Thrown) × (o.2 ≡ err e))

  raw_with-ends :
      (bytes : Option (List ℕ)) (aborted : Option Thrown) (locked : Result (Unit {0}))
      (aborted_later : Option Thrown) (meanwhile : List SendEvent) (answer : Result (ℕ × ℕ))
      (s : Sends)
      → let o = raw_with h q bytes aborted locked aborted_later k meanwhile answer s in
        let cleared = is_cleared bytes aborted locked aborted_later in
        EndsDispatch cleared answer s o × (o.1 ≡ handed_raw bytes cleared)
  unfolding dispatch_raw
  raw_with-ends none aborted locked later meanwhile answer s = ((refl, (_, refl)), refl)
  raw_with-ends (some b) (some x) locked later meanwhile answer s = ((refl, (_, refl)), refl)
  raw_with-ends (some b) none (err e) later meanwhile answer s = ((refl, (_, refl)), refl)
  raw_with-ends (some b) none (ok _) (some x) meanwhile answer s = ((refl, (_, refl)), refl)
  raw_with-ends (some b) none (ok _) none meanwhile answer s =
      end_raw_dispatch-EndsRaw (unicast q.network_address (raw_frame h q) k.0 b) answer _

  -- A raw frame reaches EZSP if its data is a buffer, it is aborted neither when it is sent nor
  -- when it leaves the queue, and the interpan lock is open, and not otherwise; it is then handed
  -- over once. If it is not, the call throws, and no send is registered. If it is, then whatever
  -- happened to the sends meanwhile, the call goes on to wait for the frame's own report if EZSP
  -- took the frame with an OK status, and otherwise throws and leaves nothing that waits under its
  -- message tag.
  pub send_raw_zcl_frame-ends :
      (aborted : Option Thrown) (locked : Result (Unit {0})) (aborted_later : Option Thrown)
      (meanwhile : List SendEvent) (answer : Result (ℕ × ℕ)) (s : Sends)
      → let o = send_raw_zcl_frame h q aborted locked aborted_later k meanwhile answer s in
        let cleared = is_cleared q.bytes aborted locked aborted_later in
        EndsDispatch cleared answer s o × (o.1 ≡ handed_raw q.bytes cleared)
  unfolding send_raw_zcl_frame
  send_raw_zcl_frame-ends aborted locked aborted_later meanwhile answer s =
      raw_with-ends q.bytes aborted locked aborted_later meanwhile answer s

  -- A report is about the frame of the request, with the defaults of what the request leaves out.
  pub record IsOwn (report : Report) : Type 0 where
    pub direct : report.kind ≡ h.direct
    pub destination : report.destination ≡ q.network_address
    pub profile : report.profile_id ≡ or_default q.profile_id h.fixed_profile_id
    pub cluster : report.cluster_id ≡ q.cluster_id
    pub from_endpoint : report.source_endpoint ≡ or_default q.source_endpoint h.fixed_endpoint
    pub to_endpoint : report.destination_endpoint ≡ q.endpoint

  -- How the promise ends that a report settles.
  abbrev pub IsOutcome : Report → Result ℕ → Type 0
  IsOutcome report r =
      (report.status ≡ ok_status → r ≡ ok report.sequence)
      × (report.status ≢ ok_status → r ≡ err (delivery_error h report.status))

  -- What a report under the frame's tag does, once the call waits.
  abbrev pub IsReported : Report → Sends → Dispatched h → Type 0
  IsReported report s o =
      let t = on_message_sent ok_status timeout_status (delivery_error h) k.0 report o.0 in
      (o.2 ≡ ok k)
      × (IsOwn report
          → ((r : Result ℕ) × (t.settled ≡ s.settled ++ (k, r) ∷ []) × IsOutcome report r)
            × (get_pending k.0 t.pending ≡ none))
      × (¬ IsOwn report → t ≡ o.0)

  IsOwn-matches : (report : Report) → IsOwn report → matches (some (raw_expected h q)) report ≡ true
  unfolding matches raw_expected raw_frame
  IsOwn-matches report v = ground (
    arith,
    v.direct,
    v.destination,
    v.profile,
    v.cluster,
    v.from_endpoint,
    v.to_endpoint,
    ==-refl report.kind,
  )

  matches-IsOwn : (report : Report) → matches (some (raw_expected h q)) report ≡ true → IsOwn report
  unfolding matches raw_expected raw_frame
  matches-IsOwn report m = record {
    direct = ground arith;
    destination = ground arith;
    profile = ground arith;
    cluster = ground arith;
    from_endpoint = ground arith;
    to_endpoint = ground arith;
  }

  delivered-IsOutcome :
      (report : Report)
      → IsOutcome report (delivered ok_status timeout_status (delivery_error h) report)
  delivered-IsOutcome report = elim (Bool-cases (report.status == ok_status)) [
    | inl same ↦ rw same (λ e. refl, λ n. absurd (n (ground arith)))
    | inr other ↦ rw other (λ e. absurd (ground arith), λ n. refl)
  ]

  registered : Sends → Sends
  registered s =
      wait_for_message_sent ok_status timeout_status (delivery_error h) k (some (raw_expected h q))
        none s

  registered-reported :
      (report : Report) (s : Sends) (found : Option Pending)
      → found ≡ some (record { send = k; expected = some (raw_expected h q) })
      → let t = report_to ok_status timeout_status (delivery_error h) found report (registered s) in
        (matches (some (raw_expected h q)) report ≡ true
          → (t.settled
              ≡ s.settled ++ (k, delivered ok_status timeout_status (delivery_error h) report) ∷ [])
            × (get_pending k.0 t.pending ≡ none))
        × (matches (some (raw_expected h q)) report ≡ false → t ≡ registered s)
  unfolding registered wait_for_message_sent finish
  registered-reported report s found f =
      rw f (λ m. rw m (refl, get_pending-delete k.0 _), λ m. rw m refl)

  sent_registers :
      (bytes : List ℕ) (n : ℕ) (s : Sends)
      → q.bytes ≡ some bytes
      → send_raw_zcl_frame h q none (ok tt) none k [] (ok (ok_status, n)) s
        ≡ (registered s, unicast q.network_address (raw_frame h q) k.0 bytes ∷ [], ok k)
  unfolding send_raw_zcl_frame dispatch_raw end_raw_dispatch registered send_run
  sent_registers bytes n s b = simp (b, ==-refl ok_status) refl

  -- A raw frame that EZSP took waits for the report under its message tag. A report with the
  -- frame's type, destination, profile, cluster and endpoints, where the request leaves profile or
  -- source endpoint to the default the default, settles its promise, with the report's APS
  -- sequence if its status is OK and with the error of the status otherwise, and then nothing waits
  -- under the tag; a report under that tag that differs in any of these changes nothing.
  pub send_raw_zcl_frame-IsReported :
      (bytes : List ℕ) (n : ℕ) (report : Report) (s : Sends)
      → q.bytes ≡ some bytes
      → IsReported report s (send_raw_zcl_frame h q none (ok tt) none k [] (ok (ok_status, n)) s)
  unfolding on_message_sent registered wait_for_message_sent
  send_raw_zcl_frame-IsReported bytes n report s b =
      let (settles, ignores) = registered-reported report s _ (
        get_pending-set_pending (record { send = k; expected = some (raw_expected h q) })
          s.pending) in
      subst (IsReported report s) (sym (sent_registers bytes n s b)) (
        refl,
        λ v.
            let (settled, forgotten) = settles (IsOwn-matches report v) in
            ((_, settled, delivered-IsOutcome report), forgotten),
        λ v. elim (Bool-cases (matches (some (raw_expected h q)) report)) [
          | inl m ↦ absurd (v (matches-IsOwn report m))
          | inr m ↦ ignores m
        ],
      )
