-- ===== src/AgentTable/Consensus/Ballot.antt =====
-- The votes as a map from voters: one vote each, the last one given.
use vega_claude.Prelude.{
  ℕ, ◌≡◌, ◌≤◌, refl, String, Option, none, some, not, List, [], ◌∷◌, ◌++◌, select, count_if,
  string_eq, ◌==◌, ==_iff, if◌then◌else◌, arith,
}
use vega_claude.AgentTable.Consensus.{Vote, ConsensusEngine, add_vote}

-- The vote of a voter.
abbrev pub vote_of : String → List Vote → Option Vote
vote_of u [] = none
vote_of u (v ∷ vs) = if v.voter == u then some v else vote_of u vs

-- How many votes a voter has.
abbrev pub votes_by : String → List Vote → ℕ
votes_by u vs = count_if (λ v. v.voter == u) vs

vote_of-replace :
    (u : String) (w : Vote) (vs : List Vote)
    → vote_of u (select (λ v. not (v.voter == w.voter)) vs ++ w ∷ [])
      ≡ (if w.voter == u then some w else vote_of u vs)
vote_of-replace u w [] = refl
vote_of-replace u w (v ∷ vs) =
    ground
      (arith, vote_of-replace u w vs, ==_iff v.voter w.voter, ==_iff v.voter u, ==_iff w.voter u)

votes_by-replace :
    (u : String) (w : Vote) (vs : List Vote)
    → votes_by u (select (λ v. not (v.voter == w.voter)) vs ++ w ∷ [])
      ≡ (if w.voter == u then 1 else votes_by u vs)
votes_by-replace u w [] = refl
votes_by-replace u w (v ∷ vs) =
    ground
      (arith, votes_by-replace u w vs, ==_iff v.voter w.voter, ==_iff v.voter u, ==_iff w.voter u)

-- The votes given, one after the other.
unfoldable pub add_votes : List Vote → ConsensusEngine → ConsensusEngine
unfolding add_vote
add_votes [] e = e
add_votes (v ∷ vs) e = add_votes vs (add_vote v e)

-- The last vote that a voter gave, else the one in the engine.
abbrev pub last_given : String → List Vote → Option Vote → Option Vote
last_given u [] o = o
last_given u (v ∷ vs) o = last_given u vs (if v.voter == u then some v else o)

abbrev SingleBy : String → List Vote → Type 0
SingleBy u vs = votes_by u vs ≤ 1

-- After any sequence of votes given to an engine with at most one vote of each voter, every voter
-- has at most one, and it is the last one that the voter gave, or the former one.
pub add_votes-last :
    (given : List Vote) (e : ConsensusEngine) (u : String)
    → votes_by u e.votes ≤ 1
    → (votes_by u (add_votes given e).votes ≤ 1)
      × (vote_of u (add_votes given e).votes ≡ last_given u given (vote_of u e.votes))
unfolding add_votes add_vote
add_votes-last [] e u h = (h, refl)
add_votes-last (w ∷ given) e u h =
    let (x, y) =
      add_votes-last given (add_vote w e) u (ground (arith, votes_by-replace u w e.votes)) in
    (x, rw y (rw (vote_of-replace u w e.votes) refl))
