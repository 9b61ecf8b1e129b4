-- ===== src/Market/Voting/Tallies.antt =====
-- Lemmas on the counts of the stored votes.
use uwu_context_db.Prelude.{
  ℕ, ◌+◌, ◌≡◌, [], ◌∷◌, nat_beq, nat_eq, list_eq, pair_eq, if◌then◌else◌, contains_key, Map,
}
use uwu_context_db.Market.Voting.{MarketId, AgentId, Vote, VoteTally}

abbrev pub total : VoteTally → ℕ
total t = t.upvotes + (t.downvotes + t.flags)

-- Every vote stands under its entry.
abbrev IsKeyed : Map (MarketId × AgentId) Vote → Type 0
IsKeyed [] = Unit
IsKeyed ((k, v) ∷ votes) = (v.entry_id ≡ k.0) × IsKeyed votes

-- What a new vote under a key adds to the votes on an entry.
abbrev pub added : MarketId → MarketId × AgentId → Map (MarketId × AgentId) Vote → ℕ
added id key votes = if nat_beq key.0 id then (if contains_key key votes then 0 else 1) else 0
