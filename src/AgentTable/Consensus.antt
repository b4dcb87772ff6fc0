-- ===== src/AgentTable/Consensus.antt =====
-- `ConsensusEngine` of copilot-ralph-mode/ralph_mode/agent_table/consensus.py. A weight counts
-- halves, and a score counts quarters, since the multipliers are halves; so the sums are exact, as
-- the floats are for such weights. Of a result only the decision is modelled.
pub mod Ballot
pub mod Modes
mod Tests
use vega_claude.Prelude.{
  ℕ, ◌+◌, ◌*◌, ◌-◌, String, Option, none, some, Bool, true, false, not, List, [], ◌∷◌, ◌++◌, ltb,
  leb, nat_beq, length, select, count_if, string_eq, ◌==◌, if◌then◌else◌,
}
use vega_claude.Prelude.Int.{ℤ, pos, negsuc}

pub record Vote : Type 0 where
  pub voter : String
  pub approved : Bool
  pub confidence : String
  pub weight : ℕ

-- conf_multiplier, in halves
unfoldable pub conf_multiplier : String → ℕ
conf_multiplier confidence =
    if confidence == "low"
    then 1
    else if confidence == "medium"
    then 2
    else if confidence == "high"
    then 3
    else if confidence == "certain"
    then 4
    else 2

-- The integer a - b.
abbrev pub diff : ℕ → ℕ → ℤ
diff a b = if leb b a then pos (a - b) else negsuc (b - a - 1)

infixl 60 ◌+ℤ◌
abbrev pub ◌+ℤ◌ : ℤ → ℤ → ℤ
pos a +ℤ pos b = pos (a + b)
pos a +ℤ negsuc b = diff a (b + 1)
negsuc a +ℤ pos b = diff b (a + 1)
negsuc a +ℤ negsuc b = negsuc (a + b + 1)

abbrev signed : Bool → ℕ → ℤ
signed true n = pos n
signed false n = diff 0 n

unfoldable pub weighted_score : Vote → ℤ
weighted_score v = signed v.approved (v.weight * conf_multiplier v.confidence)

pub record ConsensusEngine : Type 0 where
  pub quorum_mode : String
  pub min_voters : ℕ
  pub arbiter_weight : ℕ
  pub votes : List Vote

unfoldable pub add_vote : Vote → ConsensusEngine → ConsensusEngine
add_vote vote e = record e {
  votes = select (λ v. not (v.voter == vote.voter)) e.votes ++ vote ∷ [];
}

-- `metadata` holds `approved` and `confidence`, if at all, as a bool and a text.
pub record AgentMessage : Type 0 where
  pub sender : String
  pub approved : Option Bool
  pub confidence : Option String

abbrev or_false : Option Bool → Bool
or_false none = false
or_false (some b) = b

abbrev or_medium : Option String → String
or_medium none = "medium"
or_medium (some confidence) = confidence

-- The vote that `add_vote_from_message` records and returns; 1.0 is two halves.
unfoldable pub message_vote : AgentMessage → ConsensusEngine → Vote
message_vote message e = record {
  voter = message.sender;
  approved = or_false message.approved;
  confidence = or_medium message.confidence;
  weight = if message.sender == "arbiter" then e.arbiter_weight else 2;
}

unfoldable pub add_vote_from_message : AgentMessage → ConsensusEngine → ConsensusEngine
unfolding message_vote add_vote
add_vote_from_message message e = add_vote (message_vote message e) e

unfoldable pub clear_votes : ConsensusEngine → ConsensusEngine
clear_votes e = record e { votes = [] }

unfoldable pub has_quorum : ConsensusEngine → Bool
has_quorum e = leb e.min_voters (length e.votes)

abbrev pub approvals : List Vote → ℕ
approvals votes = count_if (λ v. v.approved) votes

-- approvals > total / 2
unfoldable pub simple_majority : List Vote → Bool
simple_majority votes = ltb (length votes) (2 * approvals votes)

-- approvals >= total * 2 / 3
unfoldable pub supermajority : List Vote → Bool
supermajority votes = leb (2 * length votes) (3 * approvals votes)

unfoldable pub unanimous : List Vote → Bool
unanimous votes = nat_beq (approvals votes) (length votes)

unfoldable pub total_score : List Vote → ℤ
unfolding weighted_score
total_score [] = pos 0
total_score (v ∷ votes) = weighted_score v +ℤ total_score votes

abbrev is_positive : ℤ → Bool
is_positive (pos n) = ltb 0 n
is_positive (negsuc n) = false

unfoldable pub weighted : List Vote → Bool
unfolding total_score
weighted votes = is_positive (total_score votes)

-- result["approved"]
unfoldable pub evaluate : ConsensusEngine → Bool
unfolding has_quorum simple_majority supermajority unanimous weighted
evaluate e =
    if has_quorum e
    then if e.quorum_mode == "simple_majority"
      then simple_majority e.votes
      else if e.quorum_mode == "supermajority"
      then supermajority e.votes
      else if e.quorum_mode == "unanimous"
      then unanimous e.votes
      else if e.quorum_mode == "weighted"
      then weighted e.votes
      else simple_majority e.votes
    else false

-- Which of its three lines `summary_line` gives.
pub data Summary : Type 0 where
  waiting approved_line rejected_line : Summary

unfoldable pub summary_line : ConsensusEngine → Summary
unfolding has_quorum evaluate
summary_line e =
    if has_quorum e then if evaluate e then approved_line else rejected_line else waiting
