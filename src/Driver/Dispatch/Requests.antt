-- ===== src/Driver/Dispatch/Requests.antt =====
-- enhancements/0001-zigbee-ember/src/homey-ember.cjs: what `sendHomeyZdo` hands to the coordinator,
-- and the answer that it waits for.
-- The bytes are a buffer, the signal is not aborted, neither when the call is made nor when it
-- leaves the queue, and the interpan lock is open.
use homey_shs_enhanced.Driver.Dispatch.Asking.{
  no_answer, answer_by_address, answer_by_eui64, zdo_call, zdo_wait, ZdoWait,
}
use homey_shs_enhanced.Driver.Dispatch.{
  default_send_timeout, EzspCall, HomeyZdoRequest, HerdsmanNumbers,
}
use homey_shs_enhanced.Prelude.{
  or_default, ◌⊎◌, ◌≢◌, Bool, Thrown, Result, ℕ, List, Option, [], true, false, none, some, ok, ◌∷◌,
  ◌≡◌,
}

abbrev pub is_cleared : Option (List ℕ) → Option Thrown → Result (Unit {0}) → Option Thrown → Bool
is_cleared (some bytes) none (ok _) none = true
is_cleared _ _ _ _ = false

module _ (h : HerdsmanNumbers) (q : HomeyZdoRequest) where
  open h use {ok_status}

  abbrev pub handed_zdo : Option (List ℕ) → Bool → ℕ → List EzspCall
  handed_zdo (some bytes) true tag = zdo_call h q bytes tag ∷ []
  handed_zdo _ _ tag = []

  -- EZSP took the frame, and gave the sequence of the answer that is waited for.
  abbrev pub IsTaken : Result (ℕ × ℕ) → ZdoWait h → Type 0
  IsTaken answer w = (n : ℕ) × (answer ≡ ok (ok_status, n)) × (w ≡ zdo_wait h q n)

  -- What a request may wait for after the dispatch with sequence `n`.
  abbrev pub IsWait : ZdoWait h → ℕ → Type 0
  IsWait no_answer n =
      (or_default q.disable_response false ≡ true)
      ⊎ (h.response_cluster_id q.cluster_id ≡ none)
      ⊎ (h.response_cluster_id q.cluster_id ≡ some 0)
  IsWait (answer_by_eui64 ieee m cluster timeout) n =
      (h.response_cluster_id q.cluster_id ≡ some cluster)
      × (cluster ≡ h.network_address_response)
      × (ieee ≡ q.ieee_address)
      × (m ≡ n)
      × (timeout ≡ or_default q.timeout default_send_timeout)
  IsWait (answer_by_address address m cluster timeout) n =
      (h.response_cluster_id q.cluster_id ≡ some cluster)
      × (cluster ≢ h.network_address_response)
      × (address ≡ q.network_address)
      × (m ≡ n)
      × (timeout ≡ or_default q.timeout default_send_timeout)
