-- ===== src/Export.antt =====
-- cosmos/app/export.go: the export of the chain's state, and `prepForZeroHeightGenesis`, which resets
-- what refers to a block height. The keepers are arguments; an operation that the code runs in a
-- context of another height is given the height.
pub mod Laws
mod Quiet
mod Heights
mod Rewrites
mod Prepared
mod Zero
mod Tests
use nexus_node.Common.{
  ℕ, ◌+◌, Bool, true, false, not, ◌&&◌, ◌||◌, List, [], ◌∷◌, map, String, Result, ok, err,
  if◌then◌else◌, is_empty,
}
use nexus_node.Common.Text.{Bytes, bytes_eq}
use nexus_node.Upgrades.Api.{
  Chain, Out, done, failed, panicked, App, next, ◌>>=◌, ◌>>◌, pure, crash, or_panic, read,
}

-- An entry of an unbonding or of a redelegation: the other fields of the SDK's records stay as they
-- are.
pub record Entry : Type 0 where
  pub creation_height : ℕ
  pub balance : ℕ

pub record Redelegation : Type 0 where
  pub delegator : Bytes
  pub source : Bytes
  pub destination : Bytes
  pub entries : List Entry

pub record Unbonding : Type 0 where
  pub delegator : Bytes
  pub validator : Bytes
  pub entries : List Entry

pub record Staker : Type 0 where
  -- The address as the record spells it.
  pub operator : Bytes
  pub jailed : Bool
  pub unbonding_height : ℕ

pub record Delegation : Type 0 where
  pub delegator_address : Bytes
  pub validator_address : Bytes

pub record Info : Type 0 where
  pub start_height : ℕ
  pub tombstoned : Bool

pub record Codec : Type 0 where
  pub validator_bytes : Bytes → Result Chain Bytes
  pub account_bytes : Bytes → Result Chain Bytes
  pub validator_text : Bytes → Result Chain Bytes

-- The staking keeper. An iteration visits the records that are stored when it starts.
pub record Staking (W : Type 0) : Type 0 where
  pub validators : W → Result Chain (List Staker)
  pub delegations : W → Result Chain (List Delegation)
  pub redelegations : W → Result Chain (List Redelegation)
  pub set_redelegation : Redelegation → App W Unit
  pub unbondings : W → Result Chain (List Unbonding)
  pub set_unbonding : Unbonding → App W Unit
  -- The addresses of the keys under `ValidatorsKey`, in the order of the reverse iterator.
  pub validator_keys : W → List Bytes
  pub get_validator : Bytes → W → Result Chain Staker
  pub set_validator : Staker → App W Unit
  pub close_iterator : App W Unit
  pub apply_validator_set_updates : ℕ → App W Unit

-- The distribution keeper. `C` is the type of the SDK's coins, with their addition.
pub record Distribution (W C : Type 0) : Type 0 where
  pub add : C → C → C
  pub withdraw_commission : ℕ → Bytes → App W Unit
  pub withdraw_rewards : ℕ → Bytes → Bytes → App W Unit
  pub delete_slash_events : App W Unit
  pub delete_historical_rewards : App W Unit
  pub outstanding_rewards : Bytes → W → Result Chain C
  pub community_pool : W → Result Chain C
  pub set_community_pool : C → App W Unit
  pub after_validator_created : ℕ → Bytes → App W Unit
  pub before_delegation_created : ℕ → Bytes → Bytes → App W Unit
  pub after_delegation_modified : ℕ → Bytes → Bytes → App W Unit

pub record Slashing (W : Type 0) : Type 0 where
  pub signing_infos : W → Result Chain (List (Bytes × Info))
  pub set_signing_info : Bytes → Info → App W Unit

pub record Keepers (W C : Type 0) : Type 0 where
  pub codec : Codec
  pub staking : Staking W
  pub distribution : Distribution W C
  pub slashing : Slashing W

-- `if err != nil { panic(err) }`
abbrev pub must_out : {A : Type 0} → Out A → Out A
must_out (done a) = done a
must_out (failed e) = panicked e
must_out (panicked e) = panicked e

-- `_ = m`: an error is dropped, a panic is not.
abbrev pub dropped : Out Unit → Out Unit
dropped (done a) = done tt
dropped (failed e) = done tt
dropped (panicked e) = panicked e

abbrev pub after_close : {W : Type 0} → Out Unit → W → App W Unit → Out Unit × W
after_close (done a) w k = k w
after_close (failed e) w k = (done tt, w)
after_close (panicked e) w k = (panicked e, w)

module _ {W : Type 0} where
  abbrev pub must : {A : Type 0} → App W A → App W A
  must m w = (must_out (m w).0, (m w).1)

  abbrev pub ignore : App W Unit → App W Unit
  ignore m w = (dropped (m w).0, (m w).1)

  -- A loop over the elements that an iteration visits.
  abbrev pub walk : {A : Type 0} → (A → App W Unit) → List A → App W Unit
  walk f [] = pure tt
  walk f (x ∷ xs) = f x >> walk f xs

  -- `if err := iter.Close(); err != nil { log; return }`, before what follows.
  abbrev pub unless_failed : App W Unit → App W Unit → App W Unit
  unless_failed m k w = after_close (m w).0 (m w).1 k

abbrev pub zero_height : Entry → Entry
zero_height e = record e { creation_height = 0 }

abbrev pub reset_redelegation : Redelegation → Redelegation
reset_redelegation r = record r { entries = map zero_height r.entries }

abbrev pub reset_unbonding : Unbonding → Unbonding
reset_unbonding u = record u { entries = map zero_height u.entries }

-- `allowedAddrsMap[addr]`
abbrev pub is_allowed : List Bytes → Bytes → Bool
is_allowed [] addr = false
is_allowed (a ∷ rest) addr = bytes_eq a addr || is_allowed rest addr

-- What is written for a validator whose address reads `addr`.
unfoldable pub reset_validator : List Bytes → Bytes → Staker → Staker
reset_validator allowed addr v = record v {
  unbonding_height = 0;
  jailed = if not (is_empty allowed) && not (is_allowed allowed addr) then true else v.jailed;
}

abbrev pub reset_info : Info → Info
reset_info info = record info { start_height = 0 }

module _ {W C : Type 0} (k : Keepers W C) where
  unfoldable pub check_allowed : List Bytes → App W Unit
  check_allowed = walk (λ addr. must (read (λ _. k.codec.validator_bytes addr)) >>= λ _. pure tt)

  unfoldable pub withdraw_commission : ℕ → Staker → App W Unit
  withdraw_commission height val = do
    val_bz ← must (read (λ _. k.codec.validator_bytes val.operator))
    ignore (k.distribution.withdraw_commission height val_bz)

  unfoldable pub withdraw_rewards : ℕ → Delegation → App W Unit
  withdraw_rewards height delegation = do
    val_addr ← must (read (λ _. k.codec.validator_bytes delegation.validator_address))
    del_addr ← must (read (λ _. k.codec.account_bytes delegation.delegator_address))
    ignore (k.distribution.withdraw_rewards height del_addr val_addr)

  -- Give what a validator has not withdrawn to the community pool, and start it anew.
  unfoldable pub reinitialize_validator : ℕ → Staker → App W Unit
  reinitialize_validator height val = do
    val_bz ← must (read (λ _. k.codec.validator_bytes val.operator))
    rewards ← must (read (k.distribution.outstanding_rewards val_bz))
    pool ← must (read k.distribution.community_pool)
    must (k.distribution.set_community_pool (k.distribution.add pool rewards))
    must (k.distribution.after_validator_created height val_bz)

  unfoldable pub reinitialize_delegation : ℕ → Delegation → App W Unit
  reinitialize_delegation height del = do
    val_addr ← must (read (λ _. k.codec.validator_bytes del.validator_address))
    del_addr ← must (read (λ _. k.codec.account_bytes del.delegator_address))
    or_panic "error while incrementing period"
        (k.distribution.before_delegation_created height del_addr val_addr)
    or_panic "error while creating a new delegation period record"
        (k.distribution.after_delegation_modified height del_addr val_addr)

  -- The part on fee distribution, which runs its hooks at height zero.
  unfoldable pub reset_distribution : ℕ → App W Unit
  reset_distribution height = do
    vals ← must (read k.staking.validators)
    walk (withdraw_commission height) vals
    dels ← must (read k.staking.delegations)
    walk (withdraw_rewards height) dels
    k.distribution.delete_slash_events
    k.distribution.delete_historical_rewards
    again ← must (read k.staking.validators)
    walk (reinitialize_validator 0) again
    walk (reinitialize_delegation 0) dels

  unfoldable pub reset_redelegations : App W Unit
  reset_redelegations = do
    reds ← must (read k.staking.redelegations)
    walk (λ red. must (k.staking.set_redelegation (reset_redelegation red))) reds

  unfoldable pub reset_unbondings : App W Unit
  reset_unbondings = do
    ubds ← must (read k.staking.unbondings)
    walk (λ ubd. must (k.staking.set_unbonding (reset_unbonding ubd))) ubds

  unfoldable pub reset_validator_at : List Bytes → Bytes → App W Unit
  reset_validator_at allowed addr = do
    validator ← or_panic "expected validator, not found" (read (k.staking.get_validator addr))
    val_addr ← must (read (λ _. k.codec.validator_text addr))
    must (k.staking.set_validator (reset_validator allowed val_addr validator))

  unfoldable pub reset_validators : List Bytes → App W Unit
  reset_validators allowed w = walk (reset_validator_at allowed) (k.staking.validator_keys w) w

  unfoldable pub reset_signing_infos : App W Unit
  reset_signing_infos = do
    infos ← must (read k.slashing.signing_infos)
    walk (λ entry. ignore (k.slashing.set_signing_info entry.0 (reset_info entry.1))) infos

  unfoldable pub prep_for_zero_height_genesis : ℕ → List Bytes → App W Unit
  prep_for_zero_height_genesis height allowed = do
    check_allowed allowed
    reset_distribution height
    reset_redelegations
    reset_unbondings
    reset_validators allowed
    unless_failed k.staking.close_iterator
        (do must (k.staking.apply_validator_set_updates height); reset_signing_infos)

-- What the export takes from the rest of the application: the modules' genesis in the codec's form,
-- its JSON text, and the validators that CometBFT starts with.
pub record Exporter (W G V P : Type 0) : Type 0 where
  pub last_block_height : W → ℕ
  pub export_genesis : List String → App W G
  pub marshal_indent : G → Result Chain Bytes
  pub write_validators : App W V
  pub consensus_params : W → P

pub record ExportedApp (V P : Type 0) : Type 0 where
  pub app_state : Bytes
  pub validators : V
  pub height : ℕ
  pub consensus_params : P

module _ {W C G V P : Type 0} (k : Keepers W C) (app : Exporter W G V P) where
  -- The preparation, and the height that it leaves to the export.
  unfoldable pub prepare_height : Bool → List Bytes → App W ℕ
  prepare_height for_zero_height allowed w =
      let height = app.last_block_height w in
      let prepared = (prep_for_zero_height_genesis k height allowed >>= λ _. pure 0) w in
      if for_zero_height then prepared else pure (height + 1) w

  -- The value of a result counts only when its error is nil.
  unfoldable pub export_app_state_and_validators :
      Bool → List Bytes → List String → App W (ExportedApp V P)
  export_app_state_and_validators for_zero_height allowed modules = do
    height ← prepare_height for_zero_height allowed
    gen_state ← app.export_genesis modules
    app_state ← read (λ _. app.marshal_indent gen_state)
    validators ← app.write_validators
    params ← read (λ w. ok (app.consensus_params w))
    pure (record {
      app_state = app_state;
      validators = validators;
      height = height;
      consensus_params = params;
    })
