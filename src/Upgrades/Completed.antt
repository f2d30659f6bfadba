-- ===== src/Upgrades/Completed.antt =====
-- What a computation of Api that succeeds went through.
use nexus_node.Common.{◌≡◌, refl, String}
use nexus_node.Upgrades.Api.{Out, App, ◌>>=◌, next, wrap, wrap_out}

module _ {W A B : Type 0} where
  next-done :
      (o : Out A) (w : W) (f : A → App W B) (b : B)
      → (next o w f).0 ≡ Out.done b
      → (a : A) × (o ≡ Out.done a) × ((f a w).0 ≡ Out.done b) × (next o w f ≡ f a w)
  next-done (Out.done a) w f b h = (a, refl, h, refl)
  next-done (Out.failed e) w f b h = absurd (cc)
  next-done (Out.panicked e) w f b h = absurd (cc)

  -- Both parts of a computation that succeeds did.
  pub bind-done :
      (m : App W A) (f : A → App W B) (w : W) (b : B)
      → ((m >>= f) w).0 ≡ Out.done b
      → (a : A) × ((m w).0 ≡ Out.done a)
        × ((f a (m w).1).0 ≡ Out.done b)
        × ((m >>= f) w ≡ f a (m w).1)
  bind-done m f w b h = next-done (m w).0 (m w).1 f b h

pub wrap-done :
    {W A : Type 0} (text : String) (m : App W A) (w : W) (a : A)
    → (wrap text m w).0 ≡ Out.done a
    → (m w).0 ≡ Out.done a
wrap-done {W} {A} text m w a h = unwrapped (m w).0 h
  where
    unwrapped : (o : Out A) → wrap_out text o ≡ Out.done a → o ≡ Out.done a
    unwrapped (Out.done b) e = e
    unwrapped (Out.failed f) e = absurd (cc)
    unwrapped (Out.panicked f) e = absurd (cc)
