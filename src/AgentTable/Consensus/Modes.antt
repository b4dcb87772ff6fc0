-- ===== src/AgentTable/Consensus/Modes.antt =====
-- What the quorum modes decide, and how they compare.
use vega_claude.Prelude.{
  ℕ, ◌+◌, ◌*◌, ◌≡◌, ◌≤◌, ◌<◌, ◌↔◌, refl, String, Bool, true, false, List, [], ◌∷◌, length,
  string_eq, if◌then◌else◌, arith,
}
use vega_claude.AgentTable.Consensus.{
  Vote, ConsensusEngine, approvals, simple_majority, supermajority, unanimous, weighted,
  total_score, weighted_score, conf_multiplier, evaluate, has_quorum, diff, ◌+ℤ◌, is_positive,
  signed,
}

approvals-length : (votes : List Vote) → approvals votes ≤ length votes
approvals-length [] = omega arith
approvals-length (v ∷ votes) = ground (arith, approvals-length votes)

-- The weight of the votes that approve, and of those that reject.
abbrev pub weight_for : Bool → List Vote → ℕ
weight_for b [] = 0
weight_for true (v ∷ votes) =
    (if v.approved then v.weight * conf_multiplier v.confidence else 0) + weight_for true votes
weight_for false (v ∷ votes) =
    (if v.approved then 0 else v.weight * conf_multiplier v.confidence) + weight_for false votes

add-diff :
    (b : Bool) (n x y : ℕ) → signed b n +ℤ diff x y ≡ (if b then diff (n + x) y else diff x (n + y))
add-diff true n x y = ground arith
add-diff false n x y = ground arith

total_score-diff :
    (votes : List Vote) → total_score votes ≡ diff (weight_for true votes) (weight_for false votes)
unfolding total_score weighted_score
total_score-diff [] = refl
total_score-diff (v ∷ votes) = rw (total_score-diff votes) (
    rw
      (add-diff v.approved (v.weight * conf_multiplier v.confidence) (weight_for true votes)
        (weight_for false votes))
      (ground arith))

is_positive-diff : (a b : ℕ) → (is_positive (diff a b) ≡ true) ↔ (b < a)
is_positive-diff a b = ground arith

weighted_iff :
    (votes : List Vote) → (weighted votes ≡ true) ↔ (weight_for false votes < weight_for true votes)
unfolding weighted
weighted_iff votes =
    rw (total_score-diff votes) (is_positive-diff (weight_for true votes) (weight_for false votes))

abbrev pub engine : String → ℕ → List Vote → ConsensusEngine
engine mode min_voters votes = record {
  quorum_mode = mode;
  min_voters = min_voters;
  arbiter_weight = 3;
  votes = votes;
}

-- In each of its modes the engine approves exactly when enough voters took part and, in order, more
-- than half of them approve; at least two thirds do; all do; the weight for exceeds the weight
-- against.
pub approved_iff :
    (min_voters : ℕ) (votes : List Vote)
    → let quorum = min_voters ≤ length votes in
      ((evaluate (engine "simple_majority" min_voters votes) ≡ true)
        ↔ (quorum × (length votes < 2 * approvals votes)))
      × ((evaluate (engine "supermajority" min_voters votes) ≡ true)
          ↔ (quorum × (2 * length votes ≤ 3 * approvals votes)))
      × ((evaluate (engine "unanimous" min_voters votes) ≡ true)
          ↔ (quorum × (approvals votes ≡ length votes)))
      × ((evaluate (engine "weighted" min_voters votes) ≡ true)
          ↔ (quorum × (weight_for false votes < weight_for true votes)))
unfolding evaluate has_quorum simple_majority supermajority unanimous
approved_iff min_voters votes = ground (arith, weighted_iff votes)

none_for : (votes : List Vote) → approvals votes ≡ 0 → weight_for true votes ≡ 0
none_for [] h = refl
none_for (v ∷ votes) h = ground (arith, none_for votes)

-- With at least one voter required, what all approve has the supermajority, what has the
-- supermajority has the simple majority, and no mode, known or not, approves without at least the
-- required number of votes and one approval among them.
pub modes_ordered :
    (min_voters : ℕ) (votes : List Vote) (mode : String)
    → 1 ≤ min_voters
    → (evaluate (engine "unanimous" min_voters votes) ≡ true
        → evaluate (engine "supermajority" min_voters votes) ≡ true)
      × (evaluate (engine "supermajority" min_voters votes) ≡ true
          → evaluate (engine "simple_majority" min_voters votes) ≡ true)
      × (evaluate (engine mode min_voters votes) ≡ true
          → (min_voters ≤ length votes) × (1 ≤ approvals votes))
unfolding evaluate has_quorum simple_majority supermajority unanimous
modes_ordered min_voters votes mode h =
    ground (arith, weighted_iff votes, none_for votes, approvals-length votes)
