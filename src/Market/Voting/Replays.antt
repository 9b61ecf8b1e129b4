-- ===== src/Market/Voting/Replays.antt =====
-- Lemmas on requests one after another: their replay ids, and the votes that they store.
use uwu_context_db.Prelude.{
  ℕ, ◌+◌, ◌≡◌, ◌⊎◌, ◌↔◌, pair_beq_iff, refl, ap, arith, inl, inr, Bool, true, false, Bool-cases,
  some, List, [], ◌∷◌, ltb, nat_eq, list_eq, pair_eq, contains, contains-cons_self, Map, lookup,
  lookup-insert, insert, Result, ok, err, Text, ◌==◌,
}
use uwu_context_db.Market.Voting.{
  MarketId, AgentId, VotePayload, SignedVote, Vote, VoteError, replay, VoteState, VotingConfig, new,
  is_weight, accepted, authorize, submit, submit_all,
}

Result-cases {ℓ} : {E : Type ℓ} (r : Result E ℕ) → ((w : ℕ) × (r ≡ ok w)) ⊎ ((e : E) × (r ≡ err e))
Result-cases (ok w) = inl (w, refl)
Result-cases (err e) = inr (e, refl)

key_iff : (a b : MarketId × AgentId) → ((a == b) ≡ true) ↔ (a ≡ b)
key_iff = pair_beq_iff

-- A vote that is found after an insertion is the one inserted or was there.
found-insert :
    (here at : MarketId × AgentId) (e vote : Vote) (votes : Map (MarketId × AgentId) Vote)
    → lookup at (insert here e votes) ≡ some vote
    → ((here ≡ at) × (e ≡ vote)) ⊎ (lookup at votes ≡ some vote)
found-insert here at e vote votes got = elim (Bool-cases (here == at)) [
  | inl same ↦
      inl ((key_iff here at).0 same, ground (arith, got, lookup-insert here at e votes, same))
  | inr other ↦ inr (ground (arith, got, lookup-insert here at e votes, other))
]

module _ (verify : VotePayload → Text → Text → Bool) (weight_for : AgentId → Result Text ℕ)
    (config : VotingConfig) where
  -- The two ways a request ends: refused, with the state as it was, or stored.
  pub submit-cases :
      (v : SignedVote) (now : ℕ) (s : VoteState)
      → ((e : VoteError) × (submit verify weight_for config v now s ≡ (err e, s)))
        ⊎ ((w : ℕ) × (authorize verify weight_for config v now ≡ ok w)
            × (contains s.replay_ids v.payload.replay_id ≡ false)
            × (submit verify weight_for config v now s ≡ (
              ok tt,
              record {
                votes = insert (v.payload.entry_id, v.payload.voter) (accepted v.payload w) s.votes;
                replay_ids = v.payload.replay_id ∷ s.replay_ids;
              },
            )))
  unfolding submit
  submit-cases v now s = elim (Result-cases (authorize verify weight_for config v now)) [
    | inr (e, q) ↦ inl (e, rw (submit, q) refl)
    | inl (w, q) ↦ elim (Bool-cases (contains s.replay_ids v.payload.replay_id)) [
      | inl seen ↦ inl (replay, rw (submit, q, seen) refl)
      | inr fresh ↦ inr (w, q, fresh, rw (submit, q, fresh) refl)
    ]
  ]

  submit-seen :
      (v : SignedVote) (now id : ℕ) (s : VoteState)
      → contains s.replay_ids id ≡ true
      → contains (submit verify weight_for config v now s).1.replay_ids id ≡ true
  unfolding contains
  submit-seen v now id s h = elim (submit-cases v now s) [
    | inl (e, q) ↦ rw q h
    | inr (w, a, fresh, q) ↦ rw q (ground (arith, h))
  ]

  submit_all-seen :
      (vs : List (SignedVote × ℕ)) (id : ℕ) (s : VoteState)
      → contains s.replay_ids id ≡ true
      → contains (submit_all verify weight_for config vs s).replay_ids id ≡ true
  unfolding submit_all
  submit_all-seen [] id s h = h
  submit_all-seen ((v, now) ∷ vs) id s h =
      submit_all-seen vs id (submit verify weight_for config v now s).1 (submit-seen v now id s h)

  submit-ok :
      (v : SignedVote) (now : ℕ) (s : VoteState)
      → (submit verify weight_for config v now s).0 ≡ ok tt
      → (contains s.replay_ids v.payload.replay_id ≡ false)
        × (contains (submit verify weight_for config v now s).1.replay_ids v.payload.replay_id
            ≡ true)
  unfolding contains
  submit-ok v now s h = elim (submit-cases v now s) [
    | inl (e, q) ↦ absurd (ground (arith, h, ap (λ r. r.0) q))
    | inr (w, a, fresh, q) ↦ (fresh, rw q (contains-cons_self v.payload.replay_id s.replay_ids))
  ]

  -- Once a request is accepted, no request with its replay id is accepted again, whatever requests
  -- come in between and whatever the second one says.
  pub replay-refused :
      (v u : SignedVote) (now at : ℕ) (between : List (SignedVote × ℕ)) (s : VoteState)
      → (submit verify weight_for config v now s).0 ≡ ok tt
      → u.payload.replay_id ≡ v.payload.replay_id
      → (let t =
            submit_all verify weight_for config between
              (submit verify weight_for config v now s).1 in
          ¬ ((submit verify weight_for config u at t).0 ≡ ok tt))
  replay-refused v u now at between s accepted_v same accepted_u =
      let t =
        submit_all verify weight_for config between (submit verify weight_for config v now s).1 in
      let seen =
        submit_all-seen between v.payload.replay_id (submit verify weight_for config v now s).1
          (submit-ok v now s accepted_v).1 in
      let fresh = (submit-ok u at t accepted_u).0 in absurd (ground (arith, seen, rw same at fresh))

  -- A vote of a request whose signature was verified, with the weight of the reputation policy.
  pub record IsAuthentic (vote : Vote) : Type 0 where
    pub payload : VotePayload
    pub public_key : Text
    pub signature : Text
    pub verified : verify payload public_key signature ≡ true
    pub weighed : weight_for payload.voter ≡ ok vote.weight
    pub in_range : is_weight vote.weight ≡ true
    pub same : vote ≡ accepted payload vote.weight

  authorize-ok :
      (v : SignedVote) (now w : ℕ)
      → authorize verify weight_for config v now ≡ ok w
      → (verify v.payload v.public_key v.signature ≡ true)
        × (weight_for v.payload.voter ≡ ok w)
        × (is_weight w ≡ true)
  unfolding authorize
  authorize-ok v now w h =
      let p = v.payload in
      elim (Bool-cases (ltb (p.timestamp + config.max_age) now)) [
        | inl old ↦ absurd (ground (arith, h, old))
        | inr recent ↦ elim (Bool-cases (ltb (now + config.max_future_skew) p.timestamp)) [
          | inl ahead ↦ absurd (ground (arith, h, recent, ahead))
          | inr timely ↦ elim (Bool-cases (verify p v.public_key v.signature)) [
            | inr forged ↦ absurd (ground (arith, h, recent, timely, forged))
            | inl signed ↦ elim (Result-cases (weight_for p.voter)) [
              | inr (e, unknown) ↦ absurd (ground (arith, h, recent, timely, signed, unknown))
              | inl (x, known) ↦ elim (Bool-cases (is_weight x)) [
                | inr outside ↦ absurd (ground (arith, h, recent, timely, signed, known, outside))
                | inl inside ↦
                    let same : x ≡ w = ground (arith, h, recent, timely, signed, known, inside) in
                    (signed, rw (← same) known, rw (← same) inside)
              ]
            ]
          ]
        ]
      ]

  pub record IsSound (s : VoteState) : Type 0 where
    pub authentic :
        (id : MarketId) (voter : AgentId) (vote : Vote)
        → lookup (id, voter) s.votes ≡ some vote
        → IsAuthentic vote × (vote.entry_id ≡ id) × (vote.voter ≡ voter)
    pub once :
        (id : MarketId) (voter : AgentId) (vote : Vote)
        → lookup (id, voter) s.votes ≡ some vote
        → contains s.replay_ids vote.replay_id ≡ true

  stored :
      (v : SignedVote) (now w : ℕ) (s : VoteState)
      → IsSound s
      → authorize verify weight_for config v now ≡ ok w
      → IsSound (record {
        votes = insert (v.payload.entry_id, v.payload.voter) (accepted v.payload w) s.votes;
        replay_ids = v.payload.replay_id ∷ s.replay_ids;
      })
  unfolding contains
  stored v now w s h a =
      let p = v.payload in
      let e = accepted p w in
      let (signed, known, inside) = authorize-ok v now w a in
      record {
        authentic = λ id voter vote got.
            elim (found-insert (p.entry_id, p.voter) (id, voter) e vote s.votes got) [
              | inl (key, same) ↦ rw (← same) (
                record {
                  payload = p;
                  public_key = v.public_key;
                  signature = v.signature;
                  verified = signed;
                  weighed = known;
                  in_range = inside;
                  same = refl;
                },
                ap (λ k. k.0) key,
                ap (λ k. k.1) key,
              )
              | inr old ↦ h.authentic id voter vote old
            ];
        once = λ id voter vote got.
            elim (found-insert (p.entry_id, p.voter) (id, voter) e vote s.votes got) [
              | inl (key, same) ↦ rw (← same) (contains-cons_self p.replay_id s.replay_ids)
              | inr old ↦ ground (arith, h.once id voter vote old)
            ];
      }

  submit-IsSound :
      (v : SignedVote) (now : ℕ) (s : VoteState)
      → IsSound s
      → IsSound (submit verify weight_for config v now s).1
  unfolding contains
  submit-IsSound v now s h = elim (submit-cases v now s) [
    | inl (e, q) ↦ rw q h
    | inr (w, a, fresh, q) ↦ rw q (stored v now w s h a)
  ]

  submit_all-IsSound :
      (vs : List (SignedVote × ℕ)) (s : VoteState)
      → IsSound s
      → IsSound (submit_all verify weight_for config vs s)
  unfolding submit_all
  submit_all-IsSound [] s h = h
  submit_all-IsSound ((v, now) ∷ vs) s h =
      submit_all-IsSound vs (submit verify weight_for config v now s).1 (submit-IsSound v now s h)

  -- After any requests, every stored vote is of a request with a verified signature, carries the
  -- weight that the reputation policy gives its voter, which is in range, stands under its entry and
  -- voter, and its replay id counts as used.
  pub submitted-IsSound :
      (vs : List (SignedVote × ℕ)) → IsSound (submit_all verify weight_for config vs new)
  unfolding lookup
  submitted-IsSound vs = submit_all-IsSound vs new (record {
    authentic = λ id voter vote h. absurd (ground (arith, h));
    once = λ id voter vote h. absurd (ground (arith, h));
  })
