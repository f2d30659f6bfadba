-- ===== src/ChainSpec/Order.antt =====
-- `Validate` and the order of the forks.
use nexus_node.Common.{ℕ, ◌≤◌, ◌≡◌, ◌↔◌, true, Option, none, some, ok, arith}
use nexus_node.ChainSpec.{
  ChainSpec, validate, is_prague_active, is_osaka_active, is_amsterdam_active,
}

-- `later` is unset, or both are set and `earlier` does not come after `later`.
abbrev pub Follows : Option ℕ → Option ℕ → Type 0
Follows earlier none = Unit
Follows none (some later) = ⊥
Follows (some earlier) (some later) = earlier ≤ later

-- `Validate` accepts a chain specification exactly when Osaka follows Prague and Amsterdam follows
-- Osaka: a fork that is set has its predecessor set, at the same time or before.
pub validate-iff-ordered :
    (c : ChainSpec)
    → (validate c ≡ ok tt) ↔ (
        Follows c.prague_timestamp c.osaka_timestamp
        × Follows c.osaka_timestamp c.amsterdam_timestamp)
unfolding validate
validate-iff-ordered c = ground arith

-- Under a specification that `Validate` accepts, a timestamp at which Amsterdam is active has Osaka
-- active, and one at which Osaka is active has Prague active.
pub active_cascade :
    (c : ChainSpec) (t : ℕ)
    → validate c ≡ ok tt
    → (is_amsterdam_active c t ≡ true → is_osaka_active c t ≡ true)
      × (is_osaka_active c t ≡ true → is_prague_active c t ≡ true)
unfolding validate is_prague_active is_osaka_active is_amsterdam_active
active_cascade c t h = (λ a. ground arith, λ o. ground arith)
