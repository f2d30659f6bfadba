-- ===== src/Export/Heights.antt =====
-- A loop that rewrites each record of a store changes the store as a map over it, once.
use nexus_node.Common.{
  true, List, [], ◌∷◌, map, Option, none, some, ◌≡◌, refl, sym, ap, ◌∙◌, All, arith, if◌then◌else◌,
  Bool-cases, inl, inr,
}
use nexus_node.Common.Text.{Bytes, bytes_eq}
use nexus_node.Upgrades.Api.{App, Out, done, ◌>>◌}
use nexus_node.Export.{walk, is_allowed}
use mathlib.Core.Path.{fun_ext}

module _ {A : Type 0} (change : A → A) where
  abbrev pub changed : Option A → Option A
  changed none = none
  changed (some a) = some (change a)

  -- One key's record changed, and those of a list of keys.
  abbrev pub over : Bytes → (Bytes → Option A) → Bytes → Option A
  over key at b = if bytes_eq key b then changed (at b) else at b

  abbrev pub over_all : List Bytes → (Bytes → Option A) → Bytes → Option A
  over_all keys at b = if is_allowed keys b then changed (at b) else at b

  changed_twice :
      ((a : A) → change (change a) ≡ change a) → (o : Option A) → changed (changed o) ≡ changed o
  changed_twice twice none = refl
  changed_twice twice (some a) = ap some (twice a)

  over_all-over :
      ((a : A) → change (change a) ≡ change a)
      → (key : Bytes) (keys : List Bytes) (at : Bytes → Option A)
      → over_all keys (over key at) ≡ over_all (key ∷ keys) at
  over_all-over twice key keys at = fun_ext (λ b. ground (arith, changed_twice twice (at b)))

  -- Where every record has its key among the keys, all are changed.
  pub over_all_complete :
      (keys : List Bytes) (at : Bytes → Option A)
      → ((b : Bytes) (a : A) → at b ≡ some a → is_allowed keys b ≡ true)
      → over_all keys at ≡ (λ b. changed (at b))
  over_all_complete keys at complete = fun_ext (λ b. at_key b (at b) refl)
    where
      at_key :
          (b : Bytes) (o : Option A)
          → at b ≡ o
          → (if is_allowed keys b then changed (at b) else at b) ≡ changed (at b)
      at_key b none e = rw e (ground arith)
      at_key b (some a) e = rw (complete b a e) refl

-- A store among the others.
pub record Field (S A : Type 0) : Type 0 where
  pub get : S → Bytes → Option A
  pub set : (Bytes → Option A) → S → S
  pub get-set : (at : Bytes → Option A) (s : S) → get (set at s) ≡ at
  pub set-set : (at later : Bytes → Option A) (s : S) → set later (set at s) ≡ set later s
  pub set-get : (s : S) → set (get s) s ≡ s

-- What a call did: it went well, and the stores it left are these.
abbrev pub Leaves : {W S : Type 0} → (W → S) → Out Unit × W → S → Type 0
Leaves stored r s = (r.0 ≡ done tt) × (stored r.1 ≡ s)

-- A sequence of two calls leaves what the second leaves.
pub Leaves-then :
    {W S : Type 0} (stored : W → S) (m n : App W Unit) (w : W) (s : S)
    → (m w).0 ≡ done tt
    → Leaves stored (n (m w).1) s
    → Leaves stored ((m >> n) w) s
Leaves-then stored m n w s e (h, g) = (rw e h, rw e g)

module _ {W S A I : Type 0} (stored : W → S) (f : Field S A) (change : A → A)
    (twice : (a : A) → change (change a) ≡ change a) (key : I → Bytes)
    (Fits : I → Option A → Type 0) (step : I → App W Unit)
    (step_lem : (x : I) (w : W)
      → Fits x (changed change (f.get (stored w) (key x)))
      → Leaves stored (step x w) (f.set (over change (key x) (f.get (stored w))) (stored w))) where
  over-Fits :
      (x y : I) (at : Bytes → Option A)
      → Fits y (changed change (at (key y)))
      → Fits y (changed change (over change (key x) at (key y)))
  over-Fits x y at h = elim (Bool-cases (bytes_eq (key x) (key y))) [
    | inl e ↦ rw e (rw (changed_twice change twice (at (key y))) h)
    | inr e ↦ rw e h
  ]

  all-over-Fits :
      (x : I) (ys : List I) (at later : Bytes → Option A)
      → later ≡ over change (key x) at
      → All (λ y. Fits y (changed change (at (key y)))) ys
      → All (λ y. Fits y (changed change (later (key y)))) ys
  all-over-Fits x [] at later e h = tt
  all-over-Fits x (y ∷ ys) at later e (h, hs) =
      (rw e (over-Fits x y at h), all-over-Fits x ys at later e hs)

  -- The whole loop.
  pub walk-changes :
      (xs : List I) (w : W)
      → All (λ x. Fits x (changed change (f.get (stored w) (key x)))) xs
      → Leaves stored
          (walk step xs w)
          (f.set (over_all change (map key xs) (f.get (stored w))) (stored w))
  walk-changes [] w h = (refl, sym (f.set-get (stored w)))
  walk-changes (x ∷ xs) w (h, hs) =
      let one = step_lem x w h in
      let at = f.get (stored w) in
      let now : f.get (stored (step x w).1) ≡ over change (key x) at =
        ap f.get one.1 ∙ f.get-set (over change (key x) at) (stored w) in
      let rest = walk-changes xs (step x w).1 (all-over-Fits x xs at _ now hs) in
      let shape : f.set (over_all change (map key xs) (f.get (stored (step x w).1)))
            (stored (step x w).1)
          ≡ f.set (over_all change (key x ∷ map key xs) at) (stored w) =
        rw now (
          rw one.1 (
            rw (over_all-over change twice (key x) (map key xs) at)
              (f.set-set (over change (key x) at) _ (stored w)))) in
      Leaves-then stored (step x) (walk step xs) w _ one.0 (rest.0, rest.1 ∙ shape)
