-- ===== src/Market/Voting.antt =====
-- voting.rs: `SocialVoter`. The verifier of signatures and the reputation of voters are parameters.
-- A weight is the bit pattern of its float; times are numbers of time units.
pub mod Replays
pub mod Tallies
use Prim.Native.Nat.{◌%◌, ◌^◌}
use uwu_context_db.Prelude.{
  ℕ, ◌+◌, Bool, ◌||◌, Option, List, [], ◌∷◌, leb, ltb, nat_beq, nat_eq, list_eq, pair_eq,
  if◌then◌else◌, contains, Map, insert, Result, ok, err, Text,
}

abbrev pub MarketId : Type 0
MarketId = ℕ

abbrev pub AgentId : Type 0
AgentId = Text

pub data VoteOp : Type 0 where
  upvote downvote flag_outdated : VoteOp

pub record VotePayload : Type 0 where
  pub voter : AgentId
  pub entry_id : MarketId
  pub op : VoteOp
  pub evidence : Option Text
  pub timestamp : ℕ
  pub replay_id : ℕ

pub record SignedVote : Type 0 where
  pub payload : VotePayload
  pub public_key : Text
  pub signature : Text

pub record Vote : Type 0 where
  pub voter : AgentId
  pub entry_id : MarketId
  pub op : VoteOp
  pub weight : ℕ
  pub evidence : Option Text
  pub timestamp : ℕ
  pub replay_id : ℕ

pub data VoteError : Type 0 where
  invalid_signature stale future_dated replay : VoteError
  invalid_weight : ℕ → VoteError
  reputation : Text → VoteError

-- The float score is left out.
pub record VoteTally : Type 0 where
  pub upvotes : ℕ
  pub downvotes : ℕ
  pub flags : ℕ

pub record VoteState : Type 0 where
  pub votes : Map (MarketId × AgentId) Vote
  pub replay_ids : List ℕ

pub record VotingConfig : Type 0 where
  pub max_age : ℕ
  pub max_future_skew : ℕ
  pub downvote_margin : ℕ
  pub flag_threshold : ℕ

abbrev pub new : VoteState
new = record { votes = []; replay_ids = [] }

-- The bits of 1.0 and of -0.0.
abbrev pub one_bits : ℕ
one_bits = 1065353216

abbrev pub minus_zero_bits : ℕ
minus_zero_bits = 2147483648

-- `weight.is_finite() && (0.0..=1.0).contains(&weight)`
unfoldable pub is_weight : ℕ → Bool
is_weight bits = leb bits one_bits || nat_beq bits minus_zero_bits

abbrev pub accepted : VotePayload → ℕ → Vote
accepted p weight = record {
  voter = p.voter;
  entry_id = p.entry_id;
  op = p.op;
  weight = weight;
  evidence = p.evidence;
  timestamp = p.timestamp;
  replay_id = p.replay_id;
}

module _ (verify : VotePayload → Text → Text → Bool) (weight_for : AgentId → Result Text ℕ)
    (config : VotingConfig) where
  -- The checks before the state is locked; they give the weight.
  unfoldable pub authorize : SignedVote → ℕ → Result VoteError ℕ
  unfolding is_weight
  authorize signed now =
      let p = signed.payload in
      if ltb (p.timestamp + config.max_age) now
      then err stale
      else if ltb (now + config.max_future_skew) p.timestamp
      then err future_dated
      else if verify p signed.public_key signed.signature
      then (elim (weight_for p.voter) [
        | err e ↦ err (reputation e)
        | ok weight ↦ if is_weight weight then ok weight else err (invalid_weight weight)
      ])
      else err invalid_signature

  unfoldable pub submit : SignedVote → ℕ → VoteState → Result VoteError (Unit {0}) × VoteState
  unfolding authorize
  submit signed now s =
      let p = signed.payload in
      elim (authorize signed now) [
        | err e ↦ (err e, s)
        | ok weight ↦ if contains s.replay_ids p.replay_id then (err replay, s) else (
          ok tt,
          record {
            votes = insert (p.entry_id, p.voter) (accepted p weight) s.votes;
            replay_ids = p.replay_id ∷ s.replay_ids;
          },
        )
      ]

  -- Requests one after another, each with the time of its arrival.
  unfoldable pub submit_all : List (SignedVote × ℕ) → VoteState → VoteState
  unfolding submit
  submit_all [] s = s
  submit_all ((v, now) ∷ vs) s = submit_all vs (submit v now s).1

-- `a + b` on `u32`, which wraps where overflow is not checked.
abbrev pub add_u32 : ℕ → ℕ → ℕ
add_u32 a b = (a + b) % 2 ^ 32

abbrev pub count_op : VoteOp → VoteTally → VoteTally
count_op upvote t = record t { upvotes = add_u32 t.upvotes 1 }
count_op downvote t = record t { downvotes = add_u32 t.downvotes 1 }
count_op flag_outdated t = record t { flags = add_u32 t.flags 1 }

abbrev pub no_votes : VoteTally
no_votes = record { upvotes = 0; downvotes = 0; flags = 0 }

-- The loop of `tally`, from its end.
unfoldable pub tally_of : MarketId → Map (MarketId × AgentId) Vote → VoteTally
tally_of id [] = no_votes
tally_of id ((k, v) ∷ votes) =
    let rest = tally_of id votes in if nat_beq v.entry_id id then count_op v.op rest else rest

abbrev pub tally : MarketId → VoteState → VoteTally
tally id s = tally_of id s.votes

unfoldable pub should_delist : VotingConfig → MarketId → VoteState → Bool
unfolding tally_of
should_delist config id s =
    let t = tally id s in
    ltb (add_u32 t.upvotes config.downvote_margin) t.downvotes || leb config.flag_threshold t.flags
