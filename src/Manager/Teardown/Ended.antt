-- ===== src/Manager/Teardown/Ended.antt =====
-- enhancements/0001-zigbee-ember/src/ManagerZigbeeEmber.mts: the sessions and the controller when
-- the manager tears Zigbee down.
use homey_shs_enhanced.Controller.Radio.{
  Radio, destroy, suppress_final_backup, take_adapter, take_from, last_backup,
}
use homey_shs_enhanced.Prelude.{
  subst, sym, ◌≢◌, Thrown, arith, Option-cases, refl, ok, err, inl, inr, ◌≡◌, not, Result, ℕ, List,
  Bool, Option, [], true, false, none, some, ◌+◌, ◌∷◌, ◌++◌, ◌&&◌, if◌then◌else◌,
}
use homey_shs_enhanced.Manager.Teardown.{
  destroy_controller, no_sessions, suppress_if, call, abort_controller_sessions, teardown_zigbee,
  Calls, base_zigbee_destroy, controller_destroy, suppress_backup, local_destroy, aborts_interview,
  aborts_pairing, abort_session, TeardownEnds, ManagerCall, Sessions,
}

abbrev pub is_call : ManagerCall → ManagerCall → Bool
is_call aborts_pairing aborts_pairing = true
is_call aborts_interview aborts_interview = true
is_call suppress_backup suppress_backup = true
is_call controller_destroy controller_destroy = true
is_call base_zigbee_destroy base_zigbee_destroy = true
is_call _ _ = false

abbrev pub calls_made : ManagerCall → List ManagerCall → ℕ
calls_made c [] = 0
calls_made c (d ∷ ds) = (if is_call c d then 1 else 0) + calls_made c ds

abbrev pub present : Option (Result (Unit {0})) → ℕ
present none = 0
present (some r) = 1

abbrev pub one_if : Bool → ℕ
one_if b = if b then 1 else 0

calls_made-append :
    (c : ManagerCall) (cs ds : List ManagerCall)
    → calls_made c (cs ++ ds) ≡ calls_made c cs + calls_made c ds
calls_made-append c [] ds = omega arith
calls_made-append c (d ∷ cs) ds = omega (arith, calls_made-append c cs ds)

-- The calls that end the sessions, and how often each of them stands there.
abbrev pub aborts_of : Sessions → List ManagerCall
aborts_of s =
    abort_session aborts_pairing s.add_node ++ abort_session aborts_interview s.interview_node

aborts_of-made :
    (s : Sessions)
    → (calls_made aborts_pairing (aborts_of s) ≡ present s.add_node)
      × (calls_made aborts_interview (aborts_of s) ≡ present s.interview_node)
      × (calls_made controller_destroy (aborts_of s) ≡ 0)
      × (calls_made suppress_backup (aborts_of s) ≡ 0)
aborts_of-made s = elim (Option-cases s.add_node) [
  | inl a ↦ elim (Option-cases s.interview_node) [
    | inl b ↦ rw (a, b) (refl, refl, refl, refl)
    | inr (y, b) ↦ rw (a, b) (refl, refl, refl, refl)
  ]
  | inr (x, a) ↦ elim (Option-cases s.interview_node) [
    | inl b ↦ rw (a, b) (refl, refl, refl, refl)
    | inr (y, b) ↦ rw (a, b) (refl, refl, refl, refl)
  ]
]

-- The part of a teardown after the sessions.
abbrev pub teardown_rest : Bool → Result (Unit {0}) → Bool → Result (Unit {0}) → Calls
teardown_rest backup local controller inherited = call local_destroy local (
    suppress_if (not backup && controller)
      (destroy_controller controller (call base_zigbee_destroy inherited ([], ok tt))))

IsTornDown : Bool → Result (Unit {0}) → Bool → Result (Unit {0}) → Calls → Type 0
IsTornDown backup local controller inherited (calls, r) =
    (local ≡ ok tt
      → (calls_made controller_destroy calls ≡ one_if controller)
        × (calls_made suppress_backup calls ≡ one_if (not backup && controller))
        × (r ≡ inherited))
    × ((e : Thrown) → local ≡ err e → (calls_made controller_destroy calls ≡ 0) × (r ≡ err e))
    × (calls_made aborts_pairing calls ≡ 0)
    × (calls_made aborts_interview calls ≡ 0)

-- What stands between Homey's two parts.
wrapped :
    (quiet controller : Bool) (inherited : Result (Unit {0}))
    → let (calls, r) =
        suppress_if quiet
          (destroy_controller controller (call base_zigbee_destroy inherited ([], ok tt))) in
      (calls_made controller_destroy calls ≡ one_if controller)
      × (calls_made suppress_backup calls ≡ one_if quiet)
      × (calls_made aborts_pairing calls ≡ 0)
      × (calls_made aborts_interview calls ≡ 0)
      × (r ≡ inherited)
wrapped quiet controller inherited = ground arith

teardown_rest-IsTornDown :
    (backup : Bool) (local : Result (Unit {0})) (controller : Bool) (inherited : Result (Unit {0}))
    → IsTornDown backup local controller inherited (teardown_rest backup local controller inherited)
unfolding IsTornDown
teardown_rest-IsTornDown backup (err e) controller inherited =
    (λ h. cc, λ x h. (refl, cc), refl, refl)
teardown_rest-IsTornDown backup (ok u) controller inherited =
    let (d, q, p, i, r) = wrapped (not backup && controller) controller inherited in
    (λ h. (omega (arith, d), omega (arith, q), r), λ x h. cc, omega (arith, p), omega (arith, i))

-- What the calls do to the radio of the manager's controller.
abbrev pub call_on : ManagerCall → Radio → Radio
call_on suppress_backup s = suppress_final_backup s
call_on controller_destroy s = destroy s
call_on _ s = s

abbrev pub calls_on : List ManagerCall → Radio → Radio
calls_on [] s = s
calls_on (c ∷ cs) s = calls_on cs (call_on c s)

-- A live controller is destroyed, after a last backup or without one.
abbrev pub IsDestroyed : Bool → Radio → Type 0
IsDestroyed backup t =
    (t.destroyed ≡ true)
    × (backup ≡ true → t.teardown ≡ last_backup)
    × (backup ≡ false → t.teardown ≢ last_backup)

abbrev pub IsLive : Radio → Type 0
IsLive s = (s.destroyed ≡ false) × (s.skip_final_backup ≡ false)

calls_on-aborts :
    (a b : Option (Result (Unit {0}))) (cs : List ManagerCall) (s : Radio)
    → calls_on ((abort_session aborts_pairing a ++ abort_session aborts_interview b) ++ cs) s
      ≡ calls_on cs s
calls_on-aborts none none cs s = refl
calls_on-aborts none (some y) cs s = refl
calls_on-aborts (some x) none cs s = refl
calls_on-aborts (some x) (some y) cs s = refl

take_from-quiet : (a : Option ℕ) (s : Radio) → (take_from a s).teardown ≢ last_backup
take_from-quiet none s e = cc
take_from-quiet (some k) s e = cc

destroy-backup : (s : Radio) → IsLive s → IsDestroyed true (destroy s)
unfolding destroy
destroy-backup s (alive_now, loud) = rw (alive_now, loud) (refl, λ _. refl, λ e. cc)

take_from-destroyed : (a : Option ℕ) (s : Radio) → (take_from a s).destroyed ≡ s.destroyed
take_from-destroyed none s = refl
take_from-destroyed (some k) s = refl

destroy-quiet : (s : Radio) → IsLive s → IsDestroyed false (destroy (suppress_final_backup s))
unfolding destroy suppress_final_backup take_adapter
destroy-quiet s (alive_now, loud) =
    rw alive_now (take_from-destroyed s.adapter _, λ e. cc, λ _. take_from-quiet s.adapter _)

rest-IsDestroyed :
    (backup : Bool) (inherited : Result (Unit {0})) (s : Radio)
    → IsLive s
    → IsDestroyed backup (calls_on (teardown_rest backup (ok tt) true inherited).0 s)
rest-IsDestroyed true (ok u) s v = destroy-backup s v
rest-IsDestroyed true (err e) s v = destroy-backup s v
rest-IsDestroyed false (ok u) s v = destroy-quiet s v
rest-IsDestroyed false (err e) s v = destroy-quiet s v

ends-IsDestroyed :
    (backup : Bool) (ends : TeardownEnds) (s : Radio)
    → ends.local ≡ ok tt
    → ends.controller ≡ true
    → IsLive s
    → IsDestroyed backup
        (calls_on (teardown_rest backup ends.local ends.controller ends.inherited).0 s)
ends-IsDestroyed backup ends s h c v = rw (h, c) (rest-IsDestroyed backup ends.inherited s v)

-- However its parts end, a teardown calls the abort callback of a pairing and of an interview once
-- if there is one, and forgets both. Unless Homey's own part throws, it destroys the controller
-- once if there is one, suppresses its last backup once if none is asked for and not otherwise, and
-- ends as the inherited part does; done to a controller that is neither destroyed nor told to skip
-- its last backup, its calls leave it destroyed, in its last backup if one is asked for and past
-- that point if none is. If Homey's part throws, the controller is not destroyed, and the teardown
-- throws the same.
pub teardown_zigbee-ends :
    (backup : Bool) (ends : TeardownEnds) (s : Sessions)
    → let (s', (calls, r)) = teardown_zigbee backup ends s in
      (s' ≡ no_sessions)
      × (calls_made aborts_pairing calls ≡ present s.add_node)
      × (calls_made aborts_interview calls ≡ present s.interview_node)
      × (ends.local ≡ ok tt
          → (calls_made controller_destroy calls ≡ one_if ends.controller)
            × (calls_made suppress_backup calls ≡ one_if (not backup && ends.controller))
            × (r ≡ ends.inherited)
            × (ends.controller ≡ true
                → (radio : Radio) → IsLive radio
                → IsDestroyed backup (calls_on calls radio)))
      × ((e : Thrown)
          → ends.local ≡ err e
          → (calls_made controller_destroy calls ≡ 0) × (r ≡ err e))
unfolding teardown_zigbee abort_controller_sessions IsTornDown
teardown_zigbee-ends backup ends s =
    let rest = teardown_rest backup ends.local ends.controller ends.inherited in
    let (works, fails, pairing, interview) =
      teardown_rest-IsTornDown backup ends.local ends.controller ends.inherited in
    let (p, i, d, u) = aborts_of-made s in
    (
      refl,
      omega (arith, calls_made-append aborts_pairing (aborts_of s) rest.0, p, pairing),
      omega (arith, calls_made-append aborts_interview (aborts_of s) rest.0, i, interview),
      λ h.
          let (once, quiet, same) = works h in
          (
            omega (arith, calls_made-append controller_destroy (aborts_of s) rest.0, d, once),
            omega (arith, calls_made-append suppress_backup (aborts_of s) rest.0, u, quiet),
            same,
            λ c radio v.
                subst (IsDestroyed backup)
                  (sym (calls_on-aborts s.add_node s.interview_node _ radio))
                  (ends-IsDestroyed backup ends radio h c v),
          ),
      λ e h.
          let (never, same) = fails e h in
          (
            omega (arith, calls_made-append controller_destroy (aborts_of s) rest.0, d, never),
            same,
          ),
    )
