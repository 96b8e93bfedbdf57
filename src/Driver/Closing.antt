-- ===== src/Driver/Closing.antt =====
-- enhancements/0001-zigbee-ember/src/homey-ember.cjs: the adapter's `permitJoin`, which closes the
-- network without herdsman's clearing of the transient link keys. How each command ends is a
-- parameter.
pub mod Plan
use homey_shs_enhanced.Prelude.{
  not, Option, ℕ, Result, List, [], none, some, ok, err, ◌==◌, ◌∷◌, if◌then◌else◌,
}

-- `inherited`: `super.permitJoin`. `set_join_policy`: to `ALLOW_REJOINS_ONLY`. `close_node`: the ZDO
-- request to one node. `broadcast_close`: the same to all.
pub data JoinCommand : Type 0 where
  inherited : ℕ → Option ℕ → JoinCommand
  set_join_policy close_coordinator broadcast_close : JoinCommand
  close_node : ℕ → JoinCommand

-- The commands that were given, and how the call ends.
abbrev pub Commands : Type 0
Commands = List JoinCommand × Result (Unit {0})

-- `outcome`: for a command that returns a status, an error if it is not `OK`.
module _ (outcome : JoinCommand → Result (Unit {0})) where
  -- A command, and what follows unless it fails.
  abbrev pub then_run : JoinCommand → Result (Unit {0}) → Commands → Commands
  then_run c (err e) later = (c ∷ [], err e)
  then_run c (ok _) (cs, r) = (c ∷ cs, r)

  abbrev pub give : JoinCommand → Commands → Commands
  give c later = then_run c (outcome c) later

  abbrev pub done_joining : Commands
  done_joining = ([], ok tt)

  -- After the policy is set: `networkAddress` is that of a node, 0 for the coordinator alone, or
  -- `undefined` for the whole network.
  unfoldable pub close_at : Option ℕ → Commands
  close_at none = give close_coordinator (give broadcast_close done_joining)
  close_at (some address) =
      if address == 0
      then give close_coordinator done_joining
      else give (close_node address) done_joining

  -- `locked`: `checkInterpanLock`.
  unfoldable pub adapter_permit_join : Result (Unit {0}) → ℕ → Option ℕ → Commands
  adapter_permit_join locked seconds address =
      if not (seconds == 0)
      then give (inherited seconds address) done_joining
      else elim locked [ err e ↦ ([], err e) | ok _ ↦ give set_join_policy (close_at address) ]
