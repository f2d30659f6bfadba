-- ===== src/Config/Keeper/Start.antt =====
-- What a node that starts connects with and what its keeper is.
use nexus_node.Common.{
  Bool, not, ◌≡◌, refl, sym, ap, Option, Result, ok, err, >>=-ok, fail_if-ok, ok_injective, String,
}
use mathlib.Core.Path.{subst}
use nexus_node.Common.Text.{Bytes}
use nexus_node.ChainSpec.{ChainSpec}
use nexus_node.Evm.Keeper.{Keeper}
use nexus_node.Config.{File}
use nexus_node.Config.Secret.{Secret, SecretError, load_jwt_secret}
use nexus_node.Config.Secret.Bounds.{IsSecret, load_jwt_secret-IsSecret}
use nexus_node.Config.Keeper.{
  RawConfig, KeeperConfig, EngineError, EngineEnv, Addresses, bad_authority, read_config, loaded,
  or_default, create_engine_client, engine_or_panic, new_keeper, not_dialled,
}
use nexus_node.Config.Keeper.Laws.{IsConfig, read_config-IsConfig}

loaded-ok : (r : Result SecretError Secret) (s : Secret) → loaded r ≡ ok s → r ≡ ok s
unfolding loaded
loaded-ok (ok x) s h = cc
loaded-ok (err e) s h = absurd (cc)

engine_or_panic-ok :
    (r : Result EngineError (String × Secret)) (client : String × Secret)
    → engine_or_panic r ≡ ok client
    → r ≡ ok client
unfolding engine_or_panic
engine_or_panic-ok (ok x) client h = cc
engine_or_panic-ok (err e) client h = absurd (cc)

create_engine_client-IsSecret :
    (env : EngineEnv) (file : String → File) (dials : String → Bool) (client : String × Secret)
    → create_engine_client env file dials ≡ ok client
    → IsSecret client.1
unfolding create_engine_client loaded
create_engine_client-IsSecret env file dials client h =
    let path = or_default env.jwt_secret_path "jwt.hex" in
    let (s, e, h1) = >>=-ok (loaded (load_jwt_secret file path)) _ client h in
    let (fine, h2) =
      fail_if-ok (not (dials (or_default env.url "http://localhost:8551"))) not_dialled _ client
        h1 in
    subst (λ c. IsSecret c.1) (ok_injective refl h2)
      (load_jwt_secret-IsSecret file path s (loaded-ok (load_jwt_secret file path) s e))

-- A node that starts: the secret of its engine's connection has 32 bytes, and the keeper has the given
-- chain specification and the recipient and the clock of a configuration file whose numbers are uint64
-- and whose window does not stop before it starts.
pub new_keeper-IsConfig :
    (a : Addresses) (unmarshal : Bytes → Option RawConfig) (path : String) (env : EngineEnv)
    (file : String → File) (dials : String → Bool) (authority_ok : Bool) (spec : ChainSpec)
    (client : String × Secret) (k : Keeper)
    → new_keeper a unmarshal path env file dials authority_ok spec ≡ ok (client, k)
    → IsSecret client.1
      × ((cfg : KeeperConfig) × (read_config a unmarshal path file ≡ ok cfg)
          × IsConfig cfg
          × (k.clock ≡ record {
            use_block_timestamp = cfg.use_block_timestamp;
            unix_timestamp_offset = cfg.unix_timestamp_offset;
          })
          × (k.suggested_fee_recipient ≡ cfg.suggested_fee_recipient)
          × (k.chain_spec ≡ spec))
unfolding new_keeper
new_keeper-IsConfig a unmarshal path env file dials authority_ok spec client k h =
    let (fine, h1) = fail_if-ok (not authority_ok) bad_authority _ (client, k) h in
    let (connected, e, h2) =
      >>=-ok (engine_or_panic (create_engine_client env file dials)) _ (client, k) h1 in
    let (cfg, good, h3) = >>=-ok (read_config a unmarshal path file) _ (client, k) h2 in
    let same = ok_injective refl h3 in
    let secret =
      create_engine_client-IsSecret env file dials connected
        (engine_or_panic-ok (create_engine_client env file dials) connected e) in
    (
      subst (λ p. IsSecret p.0.1) same secret,
      (
        cfg,
        good,
        read_config-IsConfig a unmarshal path file cfg good,
        ap (λ p. p.1.clock) (sym same),
        ap (λ p. p.1.suggested_fee_recipient) (sym same),
        ap (λ p. p.1.chain_spec) (sym same),
      ),
    )
