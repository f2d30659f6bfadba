-- ===== src/Export/Rewrites.antt =====
-- A loop that writes each listed record of a store back, changed.
use nexus_node.Common.{
  List, [], ◌∷◌, map, Option, some, ◌≡◌, refl, sym, ap, ◌∙◌, All, Bool-cases, inl, inr,
}
use nexus_node.Common.Text.{Bytes, bytes_eq, bytes_eq_sound}
use nexus_node.Upgrades.Api.{App}
use nexus_node.Export.{Redelegation, Unbonding, Staker, Info, Entry, walk, zero_height}
use nexus_node.Export.Laws.{Stored, Lists, put}
use nexus_node.Export.Heights.{changed, over, over_all_complete, Field, Leaves, walk-changes}
use mathlib.Core.Path.{fun_ext}

-- The four stores.
unfoldable pub redelegations_field : Field Stored Redelegation
redelegations_field = record {
  get = λ s. s.redelegations;
  set = λ at s. record s { redelegations = at };
  get-set = λ at s. refl;
  set-set = λ at later s. refl;
  set-get = λ s. refl;
}

unfoldable pub unbondings_field : Field Stored Unbonding
unbondings_field = record {
  get = λ s. s.unbondings;
  set = λ at s. record s { unbondings = at };
  get-set = λ at s. refl;
  set-set = λ at later s. refl;
  set-get = λ s. refl;
}

unfoldable pub validators_field : Field Stored Staker
validators_field = record {
  get = λ s. s.validators;
  set = λ at s. record s { validators = at };
  get-set = λ at s. refl;
  set-set = λ at later s. refl;
  set-get = λ s. refl;
}

unfoldable pub infos_field : Field Stored Info
infos_field = record {
  get = λ s. s.infos;
  set = λ at s. record s { infos = at };
  get-set = λ at s. refl;
  set-set = λ at later s. refl;
  set-get = λ s. refl;
}

pub put-over :
    {A : Type 0} (change : A → A) (key : Bytes) (a : A) (at : Bytes → Option A)
    → changed change (at key) ≡ some (change a)
    → put key (change a) at ≡ over change key at
put-over change key a at h = fun_ext (λ b. elim (Bool-cases (bytes_eq key b)) [
  | inl e ↦
      let same : key ≡ b = bytes_eq_sound key b e in
      rw e (sym h ∙ ap (λ c. changed change (at c)) same)
  | inr e ↦ rw e refl
])

-- A listing of records fits the store that it lists.
listed :
    {A I : Type 0} (change : A → A) (at : Bytes → Option A) (key : I → Bytes) (value : I → A)
    (xs : List I)
    → All (λ x. (a : A) × (at (key x) ≡ some a) × (a ≡ value x)) xs
    → All (λ x. changed change (at (key x)) ≡ some (change (value x))) xs
listed change at key value [] h = tt
listed change at key value (x ∷ xs) ((a, e, g), hs) =
    (rw e (ap (λ b. some (change b)) g), listed change at key value xs hs)

pub zero_twice : (es : List Entry) → map zero_height (map zero_height es) ≡ map zero_height es
zero_twice [] = refl
zero_twice (e ∷ es) = ap (λ t. zero_height e ∷ t) (zero_twice es)

-- A loop that writes each listed record back, changed.
pub rewrites :
    {W A I : Type 0} (stored : W → Stored) (f : Field Stored A) (change : A → A) (key : I → Bytes)
    (value : I → A) (step : I → App W Unit)
    → ((a : A) → change (change a) ≡ change a)
    → ((x : I) (w : W)
        → Leaves stored
            (step x w)
            (f.set (put (key x) (change (value x)) (f.get (stored w))) (stored w)))
    → (xs : List I) (w : W) → Lists (f.get (stored w)) key (λ x a. a ≡ value x) xs
    → Leaves stored (walk step xs w) (f.set (λ b. changed change (f.get (stored w) b)) (stored w))
rewrites stored f change key value step twice writes xs w (fit, complete) =
    let walked =
      walk-changes stored f change twice key (λ x o. o ≡ some (change (value x))) step
        (λ x v h.
          let (d, g) = writes x v in
          (
            d,
            g
                ∙ ap (λ at. f.set at (stored v))
                    (put-over change (key x) (value x) (f.get (stored v)) h),
          ))
        xs w (listed change (f.get (stored w)) key value xs fit) in
    (
      walked.0,
      walked.1
          ∙ ap (λ at. f.set at (stored w))
              (over_all_complete change (map key xs) (f.get (stored w)) complete),
    )
