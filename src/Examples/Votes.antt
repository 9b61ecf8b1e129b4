-- ===== src/Examples/Votes.antt =====
-- Runs of the voting service.
use uwu_context_db.Prelude.{
  ℕ, ◌≡◌, refl, Bool, true, none, List, [], ◌∷◌, contains, Result, ok, Text,
}
use uwu_context_db.Market.Voting.{
  VotePayload, SignedVote, VotingConfig, upvote, downvote, VoteOp, new, authorize, submit,
  submit_all, is_weight,
}
use uwu_context_db.Market.Voting.Replays.{replay-refused, IsSound, submitted-IsSound}

abbrev minutes : VotingConfig
minutes = record { max_age = 5; max_future_skew = 1; downvote_margin = 3; flag_threshold = 5 }

abbrev trusting : VotePayload → Text → Text → Bool
trusting p key signature = true

abbrev half : Text → Result Text ℕ
half voter = ok 1056964608

abbrev request : VoteOp → ℕ → ℕ → SignedVote
request op at id = record {
  payload = record {
    voter = 1 ∷ [];
    entry_id = 7;
    op = op;
    evidence = none;
    timestamp = at;
    replay_id = id;
  };
  public_key = [];
  signature = [];
}

first-ok : (submit trusting half minutes (request upvote 10 1) 11 new).0 ≡ ok tt
unfolding submit authorize contains is_weight
first-ok = refl

replay-refused_example :
    (let t =
        submit_all trusting half minutes
          ((request downvote 11 2, 12) ∷ [])
          (submit trusting half minutes (request upvote 10 1) 11 new).1 in
      ¬ ((submit trusting half minutes (request downvote 12 1) 13 t).0 ≡ ok tt))
replay-refused_example =
    replay-refused trusting half minutes (request upvote 10 1) (request downvote 12 1) 11 13
      ((request downvote 11 2, 12) ∷ []) new first-ok refl

abbrev requests : List (SignedVote × ℕ)
requests = (request upvote 10 1, 11) ∷ (request downvote 3 2, 12) ∷ []

submitted-IsSound_example :
    IsSound trusting half minutes (submit_all trusting half minutes requests new)
submitted-IsSound_example = submitted-IsSound trusting half minutes requests
