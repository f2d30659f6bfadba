-- ===== src/Cli/Exported.antt =====
-- `appExport` of cosmos/cmd/nexusd/cmd/commands.go. `new_app` is `app.New`, which is told whether to load
-- the latest height.
use nexus_node.Common.{ℕ, Bool, true, false, List, [], ◌∷◌, Option, none, some, String}
use nexus_node.Common.Text.{Bytes}
use nexus_node.Upgrades.Api.{App, ◌>>◌, pure, fail}
use nexus_node.Export.{Keepers, Exporter, ExportedApp, export_app_state_and_validators}

-- `-1` stands for the latest height, which is `none`.
abbrev pub load_app : {W : Type 0} → (Bool → App W Unit) → (ℕ → App W Unit) → Option ℕ → App W Unit
load_app new_app load_height none = new_app true
load_app new_app load_height (some height) = new_app false >> load_height height

abbrev pub require_home : {W : Type 0} → Option Bytes → App W Unit
require_home none = fail ("application home not set" ∷ [])
require_home (some []) = fail ("application home not set" ∷ [])
require_home (some (c ∷ s)) = pure tt

abbrev pub require_viper : {W : Type 0} → Bool → App W Unit
require_viper true = pure tt
require_viper false = fail ("appOpts is not viper.Viper" ∷ [])

unfoldable pub app_export :
    {W C G V P : Type 0}
    → Keepers W C
    → Exporter W G V P
    → (Bool → App W Unit)
    → (ℕ → App W Unit)
    → Option Bytes
    → Bool
    → Option ℕ
    → Bool
    → List Bytes
    → List String
    → App W (ExportedApp V P)
app_export k app new_app load_height home is_viper height for_zero_height allowed modules = do
  require_home home
  require_viper is_viper
  load_app new_app load_height height
  export_app_state_and_validators k app for_zero_height allowed modules
