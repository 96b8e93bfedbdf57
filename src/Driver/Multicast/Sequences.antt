-- ===== src/Driver/Multicast/Sequences.antt =====
-- enhancements/0001-zigbee-ember/src/homey-ember.cjs: sequences of calls of `addMulticastGroup` and
-- `removeMulticastGroup`, each made after the one before has settled, beside a set of groups.
-- Each call with its group, and its signal's reason when it is made and when it leaves the queue.
use homey_shs_enhanced.Driver.Multicast.Table.{count}
use homey_shs_enhanced.Driver.Multicast.Mirror.{IsDistinct, IsMirror}
use homey_shs_enhanced.Driver.Multicast.{
  remove_multicast_group, Outcome, Groups, add_multicast_group, Ncp,
}
use homey_shs_enhanced.Prelude.{
  List, Result, Thrown, Bool, ℕ, Option, [], ok, err, ◌∷◌, ◌==◌, if◌then◌else◌, ◌≡◌,
}

pub data GroupCall : Type 0 where
  adds removes : Option Thrown → Option Thrown → ℕ → GroupCall

-- The set, as how often each group is in it.
abbrev pub GroupSet : Type 0
GroupSet = ℕ → ℕ

abbrev pub set_member : ℕ → ℕ → GroupSet → GroupSet
set_member n group m a = if a == group then n else m a

module _ (ncp : Ncp) (protected : ℕ → Bool) where
  -- What a call that returned does to the set; one that threw does nothing.
  abbrev pub spec_step : GroupCall → Result (Unit {0}) → GroupSet → GroupSet
  spec_step c (err e) m = m
  spec_step (adds x y group) (ok _) m = set_member 1 group m
  spec_step (removes x y group) (ok _) m = if protected group then m else set_member 0 group m

  abbrev pub group_step : GroupCall → Groups ncp → Outcome ncp
  group_step (adds x y group) s = add_multicast_group ncp x y s.table group s
  group_step (removes x y group) s = remove_multicast_group ncp protected x y group s

  -- The set that the calls make, by how each of them ends.
  abbrev pub spec_run : List GroupCall → Groups ncp → GroupSet → GroupSet
  spec_run [] s m = m
  spec_run (c ∷ cs) s m = let (s', r) = group_step c s in spec_run cs s' (spec_step c r m)

  abbrev pub groups_run : List GroupCall → Groups ncp → Groups ncp
  groups_run [] s = s
  groups_run (c ∷ cs) s = groups_run cs (group_step c s).0

  record Kept (c : GroupCall) (s : Groups ncp) (o : Outcome ncp) : Type 0 where
    pub mirror : IsMirror ncp o.0
    pub distinct : IsDistinct ncp o.0
    pub agrees :
        (m : GroupSet)
        → ((a : ℕ) → count a s.table ≡ m a)
        → (a : ℕ) → count a o.0.table ≡ spec_step c o.1 m a
