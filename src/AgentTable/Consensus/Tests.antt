-- ===== src/AgentTable/Consensus/Tests.antt =====
-- Votes of three agents.
use vega_claude.Prelude.{
  ◌≡◌, ◌≤◌, ◌<◌, ◌*◌, ◌↔◌, Bool, true, false, List, [], ◌∷◌, length, arith, String,
}
use vega_claude.AgentTable.Consensus.{Vote, approvals, evaluate}
use vega_claude.AgentTable.Consensus.Ballot.{
  vote_of, votes_by, add_votes, last_given, add_votes-last,
}
use vega_claude.AgentTable.Consensus.Modes.{engine, weight_for, approved_iff, modes_ordered}

abbrev vote : String → Bool → Vote
vote voter approved = record { voter = voter; approved = approved; confidence = "high"; weight = 2 }

abbrev two_of_three : List Vote
two_of_three = vote "doer" true ∷ vote "critic" false ∷ vote "arbiter" true ∷ []

add_votes-last_example :
    let e = engine "simple_majority" 2 two_of_three in
    let given = vote "critic" true ∷ [] in
    (votes_by "critic" (add_votes given e).votes ≤ 1)
    × (vote_of "critic" (add_votes given e).votes
        ≡ last_given "critic" given (vote_of "critic" e.votes))
add_votes-last_example =
    add_votes-last (vote "critic" true ∷ []) (engine "simple_majority" 2 two_of_three) "critic"
      (omega arith)

approved_iff_example :
    let quorum = 2 ≤ length two_of_three in
    ((evaluate (engine "simple_majority" 2 two_of_three) ≡ true)
      ↔ (quorum × (length two_of_three < 2 * approvals two_of_three)))
    × ((evaluate (engine "supermajority" 2 two_of_three) ≡ true)
        ↔ (quorum × (2 * length two_of_three ≤ 3 * approvals two_of_three)))
    × ((evaluate (engine "unanimous" 2 two_of_three) ≡ true)
        ↔ (quorum × (approvals two_of_three ≡ length two_of_three)))
    × ((evaluate (engine "weighted" 2 two_of_three) ≡ true)
        ↔ (quorum × (weight_for false two_of_three < weight_for true two_of_three)))
approved_iff_example = approved_iff 2 two_of_three

modes_ordered_example :
    (evaluate (engine "unanimous" 2 two_of_three) ≡ true
      → evaluate (engine "supermajority" 2 two_of_three) ≡ true)
    × (evaluate (engine "supermajority" 2 two_of_three) ≡ true
        → evaluate (engine "simple_majority" 2 two_of_three) ≡ true)
    × (evaluate (engine "weighted" 2 two_of_three) ≡ true
        → (2 ≤ length two_of_three) × (1 ≤ approvals two_of_three))
modes_ordered_example = modes_ordered 2 two_of_three "weighted" (omega arith)
