-- ===== src/Testnet/Options.antt =====
-- `getCommandArgs` of cosmos/cmd/nexusd/cmd/testnet.go.
use nexus_node.Common.{
  List, [], Option, none, some, String, ◌∷◌, Result, ok, err, ◌>>=◌, ◌>>◌, is_empty, fail_if,
}
use nexus_node.Common.Text.{Bytes}
use nexus_node.Upgrades.Api.{Chain}
use nexus_node.Testnet.Args.{split}

pub record ValArgs : Type 0 where
  pub new_val_addr : Bytes
  pub new_operator_address : Bytes
  pub new_val_pub_key : Bytes
  pub accounts_to_fund : List Bytes
  pub upgrade_to_trigger : Bytes
  pub home_dir : Bytes

-- The options of the command: an option is `none` where it has another type; `cast.ToString` gives an
-- empty text where nothing is set.
pub record Options : Type 0 where
  pub new_val_addr : Option Bytes
  pub user_pub_key : Option Bytes
  pub new_op_addr : Option Bytes
  pub trigger_testnet_upgrade : Option Bytes
  pub accounts_to_fund : Bytes
  pub home : Bytes

abbrev pub typed : Option Bytes → String → Result Chain Bytes
typed none text = err (text ∷ [])
typed (some v) text = ok v

unfoldable pub get_command_args : Options → Result Chain ValArgs
get_command_args o = do
  addr ← typed o.new_val_addr "newValAddr is not of type bytes.HexBytes"
  key ← typed o.user_pub_key "newValPubKey is not of type crypto.PubKey"
  operator ← typed o.new_op_addr "newOperatorAddress is not of type string"
  upgrade ← typed o.trigger_testnet_upgrade "upgradeToTrigger is not of type string"
  fail_if (is_empty o.home) ("invalid home dir" ∷ [])
  ok (record {
    new_val_addr = addr;
    new_operator_address = operator;
    new_val_pub_key = key;
    accounts_to_fund = split o.accounts_to_fund;
    upgrade_to_trigger = upgrade;
    home_dir = o.home;
  })
