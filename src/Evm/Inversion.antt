-- ===== src/Evm/Inversion.antt =====
-- What a handler that succeeded has gone through, step by step.
use nexus_node.Common.{
  ◌≡◌, refl, ap, ◌⊎◌, inl, inr, Bool, true, false, Option, none, some, Result, Done, ok, err, arith,
}
use nexus_node.Evm.State.{
  BlockState, KeeperError, Node, Handler, ◌>>=◌, lift, fail_if, get_block_state, on_world,
}

module _ {World A B : Type 0} (f : A → Handler World B) where
  bind_at :
      (t : Option (Result KeeperError A × Node World)) (n' : Node World) (b : B)
      → elim t [ none ↦ none | some (r, n1) ↦ elim r [ ok a ↦ f a n1 | err e ↦ some (err e, n1) ] ]
        ≡ some (ok b, n')
      → (a : A) × (n1 : Node World) × (t ≡ some (ok a, n1)) × (f a n1 ≡ some (ok b, n'))
  bind_at none n' b h = cc
  bind_at (some (ok a, n1)) n' b h = (a, n1, refl, h)
  bind_at (some (err e, n1)) n' b h = cc

  pub >>=-ok :
      (m : Handler World A) (n n' : Node World) (b : B)
      → (m >>= f) n ≡ some (ok b, n')
      → (a : A) × (n1 : Node World) × (m n ≡ some (ok a, n1)) × (f a n1 ≡ some (ok b, n'))
  >>=-ok m n n' b h = bind_at (m n) n' b h

module _ {World : Type 0} where
  pub fail_if-ok :
      {B : Type 0} (b : Bool) (e : KeeperError) (f : Done → Handler World B) (n n' : Node World)
      (r : B)
      → (fail_if b e >>= f) n ≡ some (ok r, n')
      → (b ≡ false) × (f tt n ≡ some (ok r, n'))
  fail_if-ok true e f n n' r h = cc
  fail_if-ok false e f n n' r h = (refl, h)

  pub lift-ok :
      {A B : Type 0} (r : Result KeeperError A) (f : A → Handler World B) (n n' : Node World)
      (b : B)
      → (lift r >>= f) n ≡ some (ok b, n')
      → (a : A) × (r ≡ ok a) × (f a n ≡ some (ok b, n'))
  lift-ok (ok a) f n n' b h = (a, refl, h)
  lift-ok (err e) f n n' b h = cc

  block_state_at :
      {B : Type 0} (o : Option BlockState) (f : BlockState → Handler World B) (n n' : Node World)
      (b : B)
      → n.block_state ≡ o
      → (get_block_state >>= f) n ≡ some (ok b, n')
      → (s : BlockState) × (n.block_state ≡ some s) × (f s n ≡ some (ok b, n'))
  block_state_at none f n n' b e h = ground arith
  block_state_at (some s) f n n' b e h = (s, e, ground arith)

  pub get_block_state-ok :
      {B : Type 0} (f : BlockState → Handler World B) (n n' : Node World) (b : B)
      → (get_block_state >>= f) n ≡ some (ok b, n')
      → (s : BlockState) × (n.block_state ≡ some s) × (f s n ≡ some (ok b, n'))
  get_block_state-ok f n n' b h = block_state_at n.block_state f n n' b refl h

  world_at :
      {A B : Type 0} (t : Option (Result KeeperError A × World)) (f : A → Handler World B)
      (n n' : Node World) (b : B)
      → (on_world (λ w. t) >>= f) n ≡ some (ok b, n')
      → (a : A) × (w : World) × (t ≡ some (ok a, w))
        × (f a (record n { world = w }) ≡ some (ok b, n'))
  world_at none f n n' b h = cc
  world_at (some (ok a, w)) f n n' b h = (a, w, refl, h)
  world_at (some (err e, w)) f n n' b h = cc

  pub on_world-ok :
      {A B : Type 0} (m : World → Option (Result KeeperError A × World)) (f : A → Handler World B)
      (n n' : Node World) (b : B)
      → (on_world m >>= f) n ≡ some (ok b, n')
      → (a : A) × (w : World) × (m n.world ≡ some (ok a, w))
        × (f a (record n { world = w }) ≡ some (ok b, n'))
  on_world-ok m f n n' b h = world_at (m n.world) f n n' b h

  world_err_at :
      {A B : Type 0} (t : Option (Result KeeperError A × World)) (f : A → Handler World B)
      (n n' : Node World) (e : KeeperError)
      → (on_world (λ w. t) >>= f) n ≡ some (err e, n')
      → ((w : World) × (t ≡ some (err e, w)))
        ⊎ ((a : A) × (w : World) × (t ≡ some (ok a, w))
            × (f a (record n { world = w }) ≡ some (err e, n')))
  world_err_at none f n n' e h = absurd (cc)
  world_err_at (some (ok a, w)) f n n' e h = inr (a, w, refl, h)
  world_err_at (some (err x, w)) f n n' e h =
      let q : x ≡ e = cc in inl (w, ap (λ y. some (err y, w)) q)

  -- A step on the world that is followed by another fails in the one or in the other.
  pub on_world-err :
      {A B : Type 0} (m : World → Option (Result KeeperError A × World)) (f : A → Handler World B)
      (n n' : Node World) (e : KeeperError)
      → (on_world m >>= f) n ≡ some (err e, n')
      → ((w : World) × (m n.world ≡ some (err e, w)))
        ⊎ ((a : A) × (w : World) × (m n.world ≡ some (ok a, w))
            × (f a (record n { world = w }) ≡ some (err e, n')))
  on_world-err m f n n' e h = world_err_at (m n.world) f n n' e h
