-- ===== src/Proposal/Quorum.antt =====
-- The vote count of ProcessProposal against plain sums.
use nexus_node.Common.{
  ℕ, ◌+◌, ◌*◌, ◌^◌, ◌≤◌, ◌<◌, ◌≡◌, ◌↔◌, true, List, [], ◌∷◌, if◌then◌else◌, arith,
}
use nexus_node.Common.Words.{add64, u64_mod}
use nexus_node.Proposal.{Vote, total_power, voted_power, has_quorum}

-- The power of all validators, and of those that committed.
unfoldable pub power_sum : List Vote → ℕ
power_sum [] = 0
power_sum (v ∷ votes) = v.power + power_sum votes

pub committed_sum : List Vote → ℕ
committed_sum [] = 0
committed_sum (v ∷ votes) = (if v.committed then v.power else 0) + committed_sum votes

total_power-eq :
    (acc : ℕ) (votes : List Vote)
    → acc + power_sum votes < u64_mod
    → total_power acc votes ≡ acc + power_sum votes
unfolding total_power power_sum
total_power-eq acc [] h = omega arith
total_power-eq acc (v ∷ votes) h =
    omega (arith, total_power-eq (add64 acc v.power) votes (omega arith))

committed-le-power : (votes : List Vote) → committed_sum votes ≤ power_sum votes
unfolding committed_sum power_sum
committed-le-power [] = omega arith
committed-le-power (v ∷ votes) = ground (arith, committed-le-power votes)

voted_power-eq :
    (acc : ℕ) (votes : List Vote)
    → acc + power_sum votes < u64_mod
    → voted_power acc votes ≡ acc + committed_sum votes
unfolding voted_power committed_sum power_sum
voted_power-eq acc [] h = omega arith
voted_power-eq acc (v ∷ votes) h =
    ground (arith, voted_power-eq (add64 acc v.power) votes, voted_power-eq acc votes)

-- While twice the total power is below 2 ^ 63, the int64 arithmetic of ProcessProposal accepts exactly
-- when the validators that committed hold more than two thirds of the power, as exact fractions.
pub has_quorum_iff :
    (votes : List Vote)
    → 2 * power_sum votes < 2 ^ 63
    → (has_quorum votes ≡ true) ↔ (2 * power_sum votes < 3 * committed_sum votes)
unfolding has_quorum
has_quorum_iff votes h =
    let t : total_power 0 votes ≡ power_sum votes =
      omega (arith, total_power-eq 0 votes (omega arith)) in
    let v : voted_power 0 votes ≡ committed_sum votes =
      omega (arith, voted_power-eq 0 votes (omega arith)) in
    (
      (λ q. ground (arith, t, v, committed-le-power votes)),
      (λ q. ground (arith, t, v, committed-le-power votes)),
    )
