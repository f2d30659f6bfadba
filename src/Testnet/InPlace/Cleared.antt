-- ===== src/Testnet/InPlace/Cleared.antt =====
-- Which keys of the staking module's store a call leaves: what the conversion relies on, and the
-- clearing of the old validators.
use nexus_node.Common.{
  Bool, true, false, not, ◌&&◌, ◌||◌, List, [], ◌∷◌, ok, ◌≡◌, refl, ap, ◌∙◌, arith,
}
use nexus_node.Common.Text.{Bytes, bytes_eq, has_prefix}
use nexus_node.Upgrades.Api.{App, done, ◌>>=◌, ◌>>◌, read}
use nexus_node.Export.{must, is_allowed}
use nexus_node.Testnet.InPlace.{Keepers, NewValidator, delete_all, delete_under, clear_validators}

module _ {W : Type 0} (holds : Bytes → W → Bool) where
  -- A call that goes well, after which a key is held as the function says of whether it was before.
  abbrev pub Changes : App W Unit → (Bytes → Bool → Bool) → Type 0
  Changes m f = (w : W) → ((m w).0 ≡ done tt) × ((b : Bytes) → holds b (m w).1 ≡ f b (holds b w))

  abbrev pub Still : App W Unit → Type 0
  Still m = Changes m (λ b held. held)

  -- Keys that are the held ones with a prefix.
  abbrev pub Covers : Bytes → W → List Bytes → Type 0
  Covers prefix w keys =
      ((b : Bytes) → holds b w ≡ true → has_prefix b prefix ≡ true → is_allowed keys b ≡ true)
      × ((b : Bytes) → is_allowed keys b ≡ true → has_prefix b prefix ≡ true)

  pub then_Changes :
      (m n : App W Unit) (f g : Bytes → Bool → Bool)
      → Changes m f
      → Changes n g
      → Changes (m >> n) (λ b held. g b (f b held))
  then_Changes m n f g a c w =
      let (d, e) = a w in let (d2, e2) = c (m w).1 in (rw d d2, λ b. rw d (e2 b ∙ ap (g b) (e b)))

  pub must-Changes : (m : App W Unit) (f : Bytes → Bool → Bool) → Changes m f → Changes (must m) f
  must-Changes m f a w = let (d, e) = a w in (rw d refl, e)

-- The prefixes of the stores that are cleared, and the keys of the new validator.
pub record StoreKeys : Type 0 where
  pub power_prefix : Bytes
  pub last_prefix : Bytes
  pub validator_key : NewValidator → Bytes
  pub cons_key : NewValidator → Bytes
  pub power_key : NewValidator → Bytes
  pub last_key : Bytes → Bytes

pub record StoreLaws {W : Type 0} (k : Keepers W) (holds : Bytes → W → Bool) (s : StoreKeys)
    : Type 0 where
  pub delete :
      (key : Bytes) → Changes holds (k.staking.delete key) (λ b held. not (bytes_eq key b) && held)
  pub power_keys :
      (w : W)
      → (keys : List Bytes) × (k.staking.power_keys w ≡ ok keys)
        × Covers holds s.power_prefix w keys
  pub last_validator_keys :
      (w : W)
      → (keys : List Bytes) × (k.staking.last_validator_keys w ≡ ok keys)
        × Covers holds s.last_prefix w keys
  pub keys_under : (p : Bytes) (w : W) → Covers holds p w (k.staking.keys_under p w)
  pub set_validator :
      (v : NewValidator)
      → Changes holds (k.staking.set_validator v) (λ b held. bytes_eq (s.validator_key v) b || held)
  pub set_by_cons_addr :
      (v : NewValidator) (key : Bytes)
      → k.pack_key key ≡ ok v.pub_key
      → Changes holds (k.staking.set_by_cons_addr v) (λ b held. bytes_eq (s.cons_key v) b || held)
  pub set_by_power_index :
      (v : NewValidator)
      → v.jailed ≡ false
      → Changes holds
          (k.staking.set_by_power_index v)
          (λ b held. bytes_eq (s.power_key v) b || held)
  pub set_last_power :
      (addr : Bytes)
      → Changes holds
          (k.staking.set_last_power addr 0)
          (λ b held. bytes_eq (s.last_key addr) b || held)

module _ {W : Type 0} (k : Keepers W) (s : StoreKeys) where
  -- Whether a key lies in one of the stores that are emptied.
  abbrev pub cleared : Bytes → Bool
  cleared b =
      has_prefix b s.power_prefix
      || (has_prefix b s.last_prefix
          || (has_prefix b k.staking.validators_prefix
              || has_prefix b k.staking.validator_queue_prefix))

merged : (x y h : Bool) → (not y && (not x && h)) ≡ (not (x || y) && h)
merged true true h = refl
merged true false h = refl
merged false true h = refl
merged false false h = refl

module _ {W : Type 0} (k : Keepers W) (holds : Bytes → W → Bool) (s : StoreKeys)
    (laws : StoreLaws k holds s) where
  delete_all-Changes :
      (keys : List Bytes)
      → Changes holds (delete_all k keys) (λ b held. not (is_allowed keys b) && held)
  delete_all-Changes [] w = (refl, λ b. refl)
  delete_all-Changes (key ∷ keys) w =
      let (d, e) =
        then_Changes holds (k.staking.delete key) (delete_all k keys)
          (λ b held. not (bytes_eq key b) && held) (λ b held. not (is_allowed keys b) && held)
          (laws.delete key) (delete_all-Changes keys) w in
      (d, λ b. e b ∙ merged (bytes_eq key b) (is_allowed keys b) (holds b w))

  covered :
      (prefix : Bytes) (w : W) (keys : List Bytes)
      → Covers holds prefix w keys
      → (b : Bytes)
      → (not (is_allowed keys b) && holds b w) ≡ (not (has_prefix b prefix) && holds b w)
  covered prefix w keys (all, only) b = let there = all b in let under = only b in ground arith

  delete_covered :
      (prefix : Bytes) (keys : List Bytes) (w : W)
      → Covers holds prefix w keys
      → ((delete_all k keys w).0 ≡ done tt)
        × ((b : Bytes) → holds b (delete_all k keys w).1 ≡ (not (has_prefix b prefix) && holds b w))
  delete_covered prefix keys w c =
      let (d, e) = delete_all-Changes keys w in (d, λ b. e b ∙ covered prefix w keys c b)

  delete_under-Changes :
      (p : Bytes) → Changes holds (delete_under k p) (λ b held. not (has_prefix b p) && held)
  delete_under-Changes p w = delete_covered p (k.staking.keys_under p w) w (laws.keys_under p w)

  after_powers-Changes :
      Changes holds
        (must (read k.staking.last_validator_keys) >>= λ lasts.
          delete_all k lasts
          >> (delete_under k k.staking.validators_prefix
              >> delete_under k k.staking.validator_queue_prefix))
        (λ b held.
          not (has_prefix b k.staking.validator_queue_prefix)
          && (not (has_prefix b k.staking.validators_prefix)
              && (not (has_prefix b s.last_prefix) && held)))
  after_powers-Changes w =
      let (keys, e, c) = laws.last_validator_keys w in
      let (d1, e1) = delete_covered s.last_prefix keys w c in
      let (d2, e2) =
        then_Changes holds (delete_under k k.staking.validators_prefix)
          (delete_under k k.staking.validator_queue_prefix)
          (λ b held. not (has_prefix b k.staking.validators_prefix) && held)
          (λ b held. not (has_prefix b k.staking.validator_queue_prefix) && held)
          (delete_under-Changes k.staking.validators_prefix)
          (delete_under-Changes k.staking.validator_queue_prefix) (delete_all k keys w).1 in
      rw e (
        rw d1 d2,
        λ b. rw d1 (
            e2 b
            ∙ ap
                (λ held.
                  not (has_prefix b k.staking.validator_queue_prefix)
                  && (not (has_prefix b k.staking.validators_prefix) && held))
                (e1 b)),
      )

  all_merged :
      (p l v q h : Bool)
      → (not q && (not v && (not l && (not p && h)))) ≡ (not (p || (l || (v || q))) && h)
  all_merged p l v q h = ground arith

  pub clear_validators-Changes :
      Changes holds (clear_validators k) (λ b held. not (cleared k s b) && held)
  unfolding clear_validators
  clear_validators-Changes w =
      let (keys, e, c) = laws.power_keys w in
      let (d1, e1) = delete_covered s.power_prefix keys w c in
      let (d2, e2) = after_powers-Changes (delete_all k keys w).1 in
      rw e (
        rw d1 d2,
        λ b. rw d1 (
            e2 b
            ∙ (ap
                  (λ held.
                    not (has_prefix b k.staking.validator_queue_prefix)
                    && (not (has_prefix b k.staking.validators_prefix)
                        && (not (has_prefix b s.last_prefix) && held)))
                  (e1 b)
                ∙ all_merged (has_prefix b s.power_prefix) (has_prefix b s.last_prefix)
                    (has_prefix b k.staking.validators_prefix)
                    (has_prefix b k.staking.validator_queue_prefix) (holds b w))),
      )
