-- ===== src/Testnet/Stakes.antt =====
-- Which node gets which amount of the list of stakes.
use nexus_node.Common.{
  ℕ, Bool, true, false, List, [], ◌∷◌, Option, none, some, ◌≡◌, refl, ap, ◌∙◌, map, if◌then◌else◌,
  Bool-cases, inl, inr,
}
use nexus_node.Common.Text.{Bytes}
use nexus_node.Upgrades.Api.{Out, done, panicked}
use nexus_node.Testnet.Args.{Amount, add_stake, parse_stakes}

keep : Option Amount → List Amount → List Amount
keep none ns = ns
keep (some n) ns = n ∷ ns

-- The integers among the amounts, in their order.
unfoldable pub readable : (Bytes → Option Amount) → List Bytes → List Amount
unfolding keep
readable new_int [] = []
readable new_int (a ∷ rest) = keep (new_int a) (readable new_int rest)

unfoldable pub any_negative : List Amount → Bool
any_negative [] = false
any_negative (n ∷ ns) = if n.negative then true else any_negative ns

-- What the integers come to.
unfoldable pub stakes_of : List Amount → Out (List ℕ)
stakes_of ns =
    if any_negative ns
    then panicked ("negative coin amount" ∷ [])
    else done (map (λ (n : Amount). n.magnitude) ns)

stakes_nil : done [] ≡ stakes_of []
unfolding stakes_of any_negative
stakes_nil = refl

add_stake-some :
    (n : Amount) (ns : List Amount) → add_stake (some n) (stakes_of ns) ≡ stakes_of (n ∷ ns)
unfolding stakes_of any_negative add_stake
add_stake-some n ns = elim (Bool-cases (any_negative ns)) [
  | inl e ↦ elim (Bool-cases n.negative) [ inl f ↦ rw (e, f) refl | inr f ↦ rw (e, f) refl ]
  | inr e ↦ elim (Bool-cases n.negative) [ inl f ↦ rw (e, f) refl | inr f ↦ rw (e, f) refl ]
]

add_stake-keep :
    (o : Option Amount) (ns : List Amount) → add_stake o (stakes_of ns) ≡ stakes_of (keep o ns)
unfolding add_stake keep
add_stake-keep none ns = refl
add_stake-keep (some n) ns = add_stake-some n ns

-- The command takes the readable amounts in their order, whatever stands between them: the i-th node
-- gets the i-th readable amount. It panics exactly when one of them is negative.
pub parse_stakes-readable :
    (new_int : Bytes → Option Amount) (texts : List Bytes)
    → parse_stakes new_int texts ≡ stakes_of (readable new_int texts)
unfolding parse_stakes readable
parse_stakes-readable new_int [] = stakes_nil
parse_stakes-readable new_int (a ∷ rest) =
    ap (add_stake (new_int a)) (parse_stakes-readable new_int rest)
    ∙ add_stake-keep (new_int a) (readable new_int rest)
