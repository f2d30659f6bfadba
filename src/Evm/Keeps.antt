-- ===== src/Evm/Keeps.antt =====
-- Properties of the node that a handler keeps, one rule for each way to build a handler.
use nexus_node.Common.{◌≡◌, refl, Bool, true, false, Option, none, some, Result, ok, err, arith}
use mathlib.Core.Path.{subst}
use nexus_node.Evm.State.{
  KeeperError, Node, Handler, ◌>>=◌, pure, lift, fail_if, get_block_state, on_world,
}

-- However `m` ends, what `P` says of the node before holds after.
pub record Keeps {World A : Type 0} (P : Node World → Type 0) (m : Handler World A) : Type 0 where
  pub at : (n n' : Node World) (r : Result KeeperError A) → m n ≡ some (r, n') → P n → P n'

module _ {World A : Type 0} {P : Node World → Type 0} where
  pub Keeps-lift : (r : Result KeeperError A) → Keeps P (lift r)
  Keeps-lift r = record { at = λ n n' r' h p. let q : n ≡ n' = cc in subst P q p }

  pub Keeps-pure : (a : A) → Keeps P (pure a)
  Keeps-pure a = record { at = λ n n' r' h p. let q : n ≡ n' = cc in subst P q p }

module _ {World A B : Type 0} {P : Node World → Type 0} where
  bind_at :
      (f : A → Handler World B)
      → ((a : A) → Keeps P (f a))
      → (t : Option (Result KeeperError A × Node World)) (n' : Node World)
        (r : Result KeeperError B)
      → elim t [ none ↦ none | some (s, n1) ↦ elim s [ ok a ↦ f a n1 | err e ↦ some (err e, n1) ] ]
        ≡ some (r, n')
      → ((n1 : Node World) (s : Result KeeperError A) → t ≡ some (s, n1) → P n1)
      → P n'
  bind_at f kf none n' r h p = absurd (cc)
  bind_at f kf (some (ok a, n1)) n' r h p = (kf a).at n1 n' r h (p n1 (ok a) refl)
  bind_at f kf (some (err e, n1)) n' r h p = let q : n1 ≡ n' = cc in subst P q (p n1 (err e) refl)

  pub Keeps-bind :
      (m : Handler World A) (f : A → Handler World B)
      → Keeps P m
      → ((a : A) → Keeps P (f a))
      → Keeps P (m >>= f)
  Keeps-bind m f km kf = record {
    at = λ n n' r h p. bind_at f kf (m n) n' r h (λ n1 s e. km.at n n1 s e p);
  }

module _ {World : Type 0} {P : Node World → Type 0} where
  pub Keeps-fail_if : (b : Bool) (e : KeeperError) → Keeps P (fail_if b e)
  Keeps-fail_if true e = Keeps-lift (err e)
  Keeps-fail_if false e = Keeps-pure tt

  pub Keeps-get_block_state : Keeps P get_block_state
  Keeps-get_block_state = record { at = λ n n' r h p. let q : n ≡ n' = ground arith in subst P q p }

  on_world_at :
      {A : Type 0}
      → ((n : Node World) (w : World) → P n → P (record n { world = w }))
      → (t : Option (Result KeeperError A × World)) (n n' : Node World) (r : Result KeeperError A)
      → on_world (λ w. t) n ≡ some (r, n')
      → P n
      → P n'
  on_world_at stable none n n' r h p = absurd (cc)
  on_world_at stable (some (s, w)) n n' r h p =
      let q : record n { world = w } ≡ n' = cc in subst P q (stable n w p)

  pub Keeps-on_world :
      {A : Type 0} (m : World → Option (Result KeeperError A × World))
      → ((n : Node World) (w : World) → P n → P (record n { world = w }))
      → Keeps P (on_world m)
  Keeps-on_world m stable = record { at = λ n n' r h p. on_world_at stable (m n.world) n n' r h p }

pub ruleset keeps_rules =
    (Keeps-bind, Keeps-lift, Keeps-pure, Keeps-fail_if, Keeps-get_block_state, Keeps-on_world)
