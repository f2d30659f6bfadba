-- ===== src/Genesis/Params.antt =====
-- cosmos/x/evm/keeper/msg_update_params.go and query_params.go: who may change the evm module's
-- parameters, and reading them. The address codec is an argument.
use nexus_node.Common.{
  Option, none, some, Result, Done, ok, err, ◌>>=◌, ◌>>◌, fail_if, Bool, true, not, ◌≡◌, refl, sym,
  ap, ◌⊎◌, inl, inr, String, Bool-cases, Option-cases,
}
use nexus_node.Common.Text.{Bytes, bytes_eq, bytes_eq_sound}
use nexus_node.Genesis.{Store}

pub data UpdateError : Type 0 where
  invalid_address invalid_signer bad_params : UpdateError

address_of : Option Bytes → Result UpdateError Bytes
address_of none = err invalid_address
address_of (some a) = ok a

module _ {P : Type 0} where
  stored_if : P → Store P → Result UpdateError Done → Result UpdateError Done × Store P
  stored_if p s (err e) = (err e, s)
  stored_if p s (ok u) = (ok tt, record s { stored_params = some p })

  -- `UpdateParams`; `params_fit` is what `Params.Validate` says.
  pub update_params :
      (String → Option Bytes)
      → Bytes
      → (P → Bool)
      → String
      → P
      → Store P
      → Result UpdateError Done × Store P
  unfolding stored_if address_of
  update_params string_to_bytes keeper_authority params_fit authority params s =
      stored_if params s (
        address_of (string_to_bytes authority) >>= λ a.
        (fail_if (not (bytes_eq keeper_authority a)) invalid_signer
          >> fail_if (not (params_fit params)) bad_params))

  -- `Params` of the query server, of a request that is not nil: parameters that were never stored are
  -- the zero value.
  pub query_params : P → Store P → P
  query_params zero_params s = elim s.stored_params [ none ↦ zero_params | some p ↦ p ]

module _ {P : Type 0} (string_to_bytes : String → Option Bytes) (keeper_authority : Bytes)
    (params_fit : P → Bool) (zero_params : P) where
  -- An update succeeds only in the name of the keeper's authority and with parameters that are valid,
  -- and a query then gives them; an update that fails, in any other name in particular, changes nothing.
  -- The block state stays in both cases.
  pub update_params-query :
      (authority : String) (params : P) (s : Store P)
      → let (r, s') =
          update_params string_to_bytes keeper_authority params_fit authority params s in
        ((r ≡ ok tt)
          × (string_to_bytes authority ≡ some keeper_authority)
          × (params_fit params ≡ true)
          × (query_params zero_params s' ≡ params)
          × (s'.block_state ≡ s.block_state))
        ⊎ ((e : UpdateError) × (r ≡ err e) × (s' ≡ s))
  unfolding update_params query_params address_of stored_if
  update_params-query authority params s = elim (Option-cases (string_to_bytes authority)) [
    | inl bad ↦ rw bad (inr (invalid_address, refl, refl))
    | inr (a, good) ↦ elim (Bool-cases (bytes_eq keeper_authority a)) [
      | inr other ↦ rw (good, other) (inr (invalid_signer, refl, refl))
      | inl mine ↦ elim (Bool-cases (params_fit params)) [
        | inr unfit ↦ rw (good, mine, unfit) (inr (bad_params, refl, refl))
        | inl fit ↦
            rw (good, mine, fit)
              (inl (refl, ap some (sym (bytes_eq_sound keeper_authority a mine)), refl, refl, refl))
      ]
    ]
  ]
