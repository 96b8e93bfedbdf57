-- ===== src/Driver/Pending/Rejected.antt =====
-- enhancements/0001-zigbee-ember/src/homey-ember.cjs: the loop of `rejectPendingSends`.
use homey_shs_enhanced.Driver.Pending.{
  finish, Sends, Send, reject_each, reject_pending_sends, delete_pending, Pending,
}
use homey_shs_enhanced.Prelude.{
  append_assoc, append-nil, sym, Result, ==-refl, All, arith, Bool, Bool-cases, Thrown, ℕ, List, [],
  refl, true, false, err, inl, inr, ◌∙◌, ◌≡◌, ◌∷◌, ◌++◌, ◌||◌, ◌==◌,
}

abbrev pub has_tag : List Pending → ℕ → Bool
has_tag [] tag = false
has_tag (p ∷ ps) tag = p.send.0 == tag || has_tag ps tag

abbrev pub rejections : List Pending → Thrown → List (Send × Result ℕ)
rejections [] e = []
rejections (p ∷ ps) e = (p.send, err e) ∷ rejections ps e

abbrev Covered : List Pending → List Pending → Type 0
Covered ps qs = All (λ q. has_tag ps q.send.0 ≡ true) qs

Covered-delete :
    (p : Pending) (ps qs : List Pending)
    → Covered (p ∷ ps) qs
    → Covered ps (delete_pending p.send.0 qs)
unfolding delete_pending
Covered-delete p ps [] h = tt
Covered-delete p ps (q ∷ qs) (c, h) = elim (Bool-cases (q.send.0 == p.send.0)) [
  | inl gone ↦ simp gone (Covered-delete p ps qs h)
  | inr kept ↦ simp kept (ground arith, Covered-delete p ps qs h)
]

Covered-more : (p : Pending) (ps qs : List Pending) → Covered ps qs → Covered (p ∷ ps) qs
Covered-more p ps [] h = tt
Covered-more p ps (q ∷ qs) (c, h) = (ground arith, Covered-more p ps qs h)

Covered-self : (ps : List Pending) → Covered ps ps
Covered-self [] = tt
Covered-self (p ∷ ps) = (ground (arith, ==-refl p.send.0), Covered-more p ps ps (Covered-self ps))

Covered-nil : (qs : List Pending) → Covered [] qs → qs ≡ []
Covered-nil [] h = refl
Covered-nil (q ∷ qs) h = cc

module _ (ok_status timeout_status : ℕ) (delivery_error : ℕ → Thrown) where
  reject_each-settled :
      (ps : List Pending) (e : Thrown) (s : Sends)
      → (reject_each ok_status timeout_status delivery_error ps e s).settled
        ≡ s.settled ++ rejections ps e
  unfolding reject_each finish
  reject_each-settled [] e s = sym (append-nil s.settled)
  reject_each-settled (p ∷ ps) e s =
      reject_each-settled ps e (finish p.send (err e) s)
      ∙ append_assoc s.settled ((p.send, err e) ∷ []) (rejections ps e)

  reject_each-pending :
      (ps : List Pending) (e : Thrown) (s : Sends)
      → Covered ps s.pending
      → (reject_each ok_status timeout_status delivery_error ps e s).pending ≡ []
  unfolding reject_each finish
  reject_each-pending [] e s h = Covered-nil s.pending h
  reject_each-pending (p ∷ ps) e s h =
      reject_each-pending ps e (finish p.send (err e) s) (Covered-delete p ps s.pending h)

  -- When the adapter stops or the coordinator resets, every pending send is rejected with the same
  -- error, in the order of the map, and none is pending any more.
  pub reject_pending_sends-all :
      (e : Thrown) (s : Sends)
      → let s' = reject_pending_sends ok_status timeout_status delivery_error e s in
        (s'.pending ≡ []) × (s'.settled ≡ s.settled ++ rejections s.pending e)
  unfolding reject_pending_sends
  reject_pending_sends-all e s = (
    reject_each-pending s.pending e s (Covered-self s.pending),
    reject_each-settled s.pending e s,
  )
