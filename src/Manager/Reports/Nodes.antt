-- ===== src/Manager/Reports/Nodes.antt =====
-- enhancements/0001-zigbee-ember/src/ManagerZigbeeEmber.mts: the nodes and bridges in the manager's
-- reports.
use homey_shs_enhanced.Manager.State.{ControllerState}
use homey_shs_enhanced.Manager.Reports.{
  put_truthy, coordinator_node, with_coordinator, get_state_nodes, put_node, get_node_at,
  StateNodes, remove_flag, StateNode, demote_bridges,
}
use homey_shs_enhanced.Prelude.{
  text_eq_refl, text_eq_sound, subst, ap, true, ok, ◌≢◌, Bool-cases, text_eq, ==-refl, arith, List,
  Text, ℕ, [], refl, false, some, inl, inr, if◌then◌else◌, ◌==◌, ◌≡◌, ◌∷◌, ◌-◌, ◌+◌, ◌≤◌,
}

text_eq_sym : (s t : Text) → text_eq s t ≡ false → text_eq t s ≡ false
text_eq_sym s t h = elim (Bool-cases (text_eq t s)) [
  | inr apart ↦ apart
  | inl same ↦
      absurd (
        ground
          (arith, h, subst (λ u. text_eq u t ≡ true) (text_eq_sound t s same) (text_eq_refl t)))
]

get_node_at-put_node :
    {N : Type 0} (key k : Text) (node : StateNode N) (ns : StateNodes N)
    → get_node_at k (put_node key node ns) ≡ (if text_eq key k then some node else get_node_at k ns)
get_node_at-put_node key k node [] = refl
get_node_at-put_node key k node ((j, n) ∷ ns) = elim (Bool-cases (text_eq j key)) [
  | inl same ↦
      let as_key : text_eq j k ≡ text_eq key k = ap (λ t. text_eq t k) (text_eq_sound j key same) in
      elim (Bool-cases (text_eq key k)) [
        | inl hit ↦ rw (same, as_key, hit) refl
        | inr miss ↦ rw (same, as_key, miss) refl
      ]
  | inr other ↦ elim (Bool-cases (text_eq j k)) [
    | inl hit ↦
        let apart : text_eq key k ≡ false =
          subst (λ t. text_eq key t ≡ false) (text_eq_sound j k hit) (text_eq_sym j key other) in
        rw (other, hit, apart) refl
    | inr miss ↦ rw (other, miss) (get_node_at-put_node key k node ns)
  ]
]

-- How often a bridge has a flag.
abbrev pub flag_count : ℕ → List ℕ → ℕ
flag_count f [] = 0
flag_count f (g ∷ gs) = (if g == f then 1 else 0) + flag_count f gs

flag_count-remove_flag :
    (flag f : ℕ) (fs : List ℕ)
    → flag_count f (remove_flag flag fs) ≡ flag_count f fs - (if flag == f then 1 else 0)
flag_count-remove_flag flag f [] = ground arith
flag_count-remove_flag flag f (g ∷ gs) = ground (arith, flag_count-remove_flag flag f gs)

-- A demoted bridge that had no flag twice is no main controller any more, and has its other flags
-- as they were.
abbrev pub IsDemoted : ℕ → List ℕ → List ℕ → Type 0
IsDemoted flag before now =
    (flag_count flag before ≤ 1 → flag_count flag now ≡ 0)
    × ((f : ℕ) → (flag == f) ≡ false → flag_count f now ≡ flag_count f before)

abbrev pub AllDemoted : ℕ → List (List ℕ) → List (List ℕ) → Type 0
AllDemoted flag [] [] = Unit
AllDemoted flag (b ∷ bs) (c ∷ cs) = IsDemoted flag b c × AllDemoted flag bs cs
AllDemoted flag _ _ = ⊥

pub demote_bridges-AllDemoted :
    (flag : ℕ) (bridges : List (List ℕ)) → AllDemoted flag bridges (demote_bridges flag bridges)
unfolding demote_bridges
demote_bridges-AllDemoted flag [] = tt
demote_bridges-AllDemoted flag (b ∷ bs) = (
  (
    λ h. ground (arith, flag_count-remove_flag flag flag b, ==-refl flag),
    λ f other. ground (arith, flag_count-remove_flag flag f b),
  ),
  demote_bridges-AllDemoted flag bs,
)

-- The report of the nodes has the coordinator under its address once the manager knows it, in place
-- of what stood there, and every other node as Homey reported it, before the satellites are added.
pub get_state_nodes-coordinator :
    {N : Type 0} (ns : StateNodes N) (state : ControllerState) (k : Text)
    → state.ieee_address ≢ []
    → let report = with_coordinator (some state) ns in
      (get_state_nodes (ok ns) (some state) (λ m. ok m) ≡ ok report)
      × (get_node_at k report ≡ (
          if text_eq state.ieee_address k
          then some (coordinator_node state.ieee_address)
          else get_node_at k ns))
unfolding get_state_nodes
get_state_nodes-coordinator ns state k h = (refl, placed state.ieee_address h)
  where
    placed :
        (ieee : Text)
        → ieee ≢ []
        → get_node_at k (put_truthy ieee ns)
          ≡ (if text_eq ieee k then some (coordinator_node ieee) else get_node_at k ns)
    placed [] h = absurd (h refl)
    placed (c ∷ s) h = get_node_at-put_node (c ∷ s) k (coordinator_node (c ∷ s)) ns
