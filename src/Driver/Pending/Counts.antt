-- ===== src/Driver/Pending/Counts.antt =====
-- enhancements/0001-zigbee-ember/src/homey-ember.cjs: how often a promise of `waitForMessageSent` is
-- watched, pending and settled, and what its end changes of that.
use homey_shs_enhanced.Driver.Pending.{
  finish, rejects_all, not_dispatched, aborts, times_out, reported, registers, same_send, SendEvent,
  Pending, get_pending, Sends, delete_pending, set_pending, Send, unwatch, is_watched,
}
use homey_shs_enhanced.Prelude.{
  ==-refl, subst, Bool-cases, arith, ℕ, List, Result, [], refl, true, some, inl, inr, ◌+◌, ◌∷◌, ◌≡◌,
  if◌then◌else◌, ◌≤◌, ◌==◌, ◌++◌,
}

abbrev pub count_watched : Send → List Send → ℕ
count_watched k [] = 0
count_watched k (w ∷ ws) = (if same_send w k then 1 else 0) + count_watched k ws

abbrev pub count_settled : Send → List (Send × Result ℕ) → ℕ
count_settled k [] = 0
count_settled k ((w, r) ∷ ws) = (if same_send w k then 1 else 0) + count_settled k ws

abbrev pub count_pending : Send → List Pending → ℕ
count_pending k [] = 0
count_pending k (p ∷ ps) = (if same_send p.send k then 1 else 0) + count_pending k ps

-- How often a sequence of events registers a promise.
abbrev pub registrations : Send → List SendEvent → ℕ
registrations k [] = 0
registrations k (registers w expected aborted ∷ es) =
    (if same_send w k then 1 else 0) + registrations k es
registrations k (reported tag report ∷ es) = registrations k es
registrations k (times_out w ∷ es) = registrations k es
registrations k (aborts w reason ∷ es) = registrations k es
registrations k (not_dispatched tag e ∷ es) = registrations k es
registrations k (rejects_all e ∷ es) = registrations k es

-- Every pending entry is watched.
abbrev pub IsWatched : Sends → Type 0
IsWatched s = (k : Send) → count_pending k s.pending ≤ count_watched k s.watched

abbrev pub tally : Send → Sends → ℕ
tally k s = count_watched k s.watched + count_settled k s.settled

count_settled-snoc :
    (k w : Send) (r : Result ℕ) (ss : List (Send × Result ℕ))
    → count_settled k (ss ++ (w, r) ∷ []) ≡ (if same_send w k then 1 else 0) + count_settled k ss
count_settled-snoc k w r [] = refl
count_settled-snoc k w r (x ∷ ss) = omega (arith, count_settled-snoc k w r ss)

count_watched-unwatch :
    (k w : Send) (ws : List Send)
    → 1 ≤ count_watched w ws
    → (if same_send w k then 1 else 0) + count_watched k (unwatch w ws) ≡ count_watched k ws
unfolding unwatch
count_watched-unwatch k w [] h = absurd (omega arith)
count_watched-unwatch k w (x ∷ ws) h = ground (arith, count_watched-unwatch k w ws)

pub is_watched-count : (k : Send) (ws : List Send) → is_watched k ws ≡ true → 1 ≤ count_watched k ws
unfolding is_watched
is_watched-count k [] h = cc
is_watched-count k (w ∷ ws) h = ground (arith, is_watched-count k ws)

count_pending-delete_le :
    (k : Send) (tag : ℕ) (ps : List Pending)
    → count_pending k (delete_pending tag ps) ≤ (if k.0 == tag then 0 else count_pending k ps)
unfolding delete_pending
count_pending-delete_le k tag [] = omega arith
count_pending-delete_le k tag (p ∷ ps) = ground (arith, count_pending-delete_le k tag ps)

pub count_pending-set_le :
    (k : Send) (p : Pending) (ps : List Pending)
    → count_pending k (set_pending p ps)
      ≤ (if same_send p.send k then 1 else 0) + count_pending k ps
unfolding set_pending
count_pending-set_le k p [] = omega arith
count_pending-set_le k p (q ∷ ps) = ground (arith, count_pending-set_le k p ps)

pub get_pending-count :
    (tag : ℕ) (ps : List Pending) (p : Pending)
    → get_pending tag ps ≡ some p
    → 1 ≤ count_pending p.send ps
unfolding get_pending
get_pending-count tag [] p h = cc
get_pending-count tag (q ∷ ps) p h = elim (Bool-cases (q.send.0 == tag)) [
  | inl here ↦
      let same : q ≡ p = ground arith in
      subst (λ r. 1 ≤ count_pending r.send (q ∷ ps)) same
        (ground (arith, ==-refl q.send.0, ==-refl q.send.1))
  | inr there ↦ ground (arith, get_pending-count tag ps p)
]

-- What the end of one promise changes.
pub finish-tally :
    (k w : Send) (r : Result ℕ) (s : Sends)
    → 1 ≤ count_watched w s.watched
    → tally k (finish w r s) ≡ tally k s
unfolding finish
finish-tally k w r s h =
    omega (arith, count_watched-unwatch k w s.watched h, count_settled-snoc k w r s.settled)

pub finish-IsWatched :
    (w : Send) (r : Result ℕ) (s : Sends)
    → 1 ≤ count_watched w s.watched
    → IsWatched s
    → IsWatched (finish w r s)
unfolding finish
finish-IsWatched w r s h v k =
    ground
      (arith, v k, count_watched-unwatch k w s.watched h, count_pending-delete_le k w.0 s.pending)

pub still_watched :
    (w : Send) (r : Result ℕ) (ps : List Pending) (s : Sends) (k : Send)
    → 1 ≤ count_watched w s.watched
    → (if same_send w k then 1 else 0) + count_pending k ps ≤ count_watched k s.watched
    → count_pending k ps ≤ count_watched k (finish w r s).watched
unfolding finish
still_watched w r ps s k h l = omega (arith, count_watched-unwatch k w s.watched h)

pub registrations-cons :
    (k : Send) (e : SendEvent) (es : List SendEvent)
    → registrations k (e ∷ es) ≡ registrations k (e ∷ []) + registrations k es
registrations-cons k (registers w expected aborted) es = omega arith
registrations-cons k (reported tag report) es = omega arith
registrations-cons k (times_out w) es = omega arith
registrations-cons k (aborts w reason) es = omega arith
registrations-cons k (not_dispatched tag e) es = omega arith
registrations-cons k (rejects_all e) es = omega arith
