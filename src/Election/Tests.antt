-- ===== src/Election/Tests.antt =====
-- Runs on small inputs, and instances of the theorems at them.
use ca_op.Prelude.{all, ℕ, ◌≡◌, refl, sym, ◌∙◌, ◌⊎◌, true, false, not, none, some, [], ◌∷◌, arith}
use ca_op.Ballot.{Ballot, lt_ballot, le_ballot, eq_ballot}
use ca_op.Quorum.{majority, is_prepare_quorum}
use ca_op.Messages.{Role, follower, Phase, accept, HeartbeatReply, reply}
use ca_op.Election.{
  BleConfig, BallotLeaderElection, new_hb_round, ble_with, handle, max_from, max_reply_ballot,
  update_leader, is_happy, update_happiness, may_take_over, takeover_ballot, check_takeover,
  sync_promise, end_round, hb_timeout,
}
use ca_op.Election.Leader.{Dominates, Below}
use ca_op.Election.Takeover.{end_round-changes_ballot, MayElect, hb_timeout-elects}
use ca_op.Election.Replies.{AllCurrent, handle-AllCurrent}
use ca_op.Election.Run.{timeout, run, run-le_leader}

abbrev config : BleConfig
config = record {
  configuration_id = 1;
  pid = 1;
  peers = 2 ∷ 3 ∷ [];
  priority = 0;
  flexible_quorum = none;
}

abbrev old_leader : Ballot
old_leader = record { config_id = 1; n = 5; priority = 0; pid = 3 }

abbrev rival : Ballot
rival = record { config_id = 1; n = 1; priority = 0; pid = 2 }

-- A node that recovered with the ballot of leader 3, which is gone; node 2 is unhappy too.
abbrev unhappy_reply : HeartbeatReply
unhappy_reply = record { round = 1; ballot = rival; leader = old_leader; happy = false }

abbrev orphan : BallotLeaderElection
orphan = record {
  configuration_id = 1;
  pid = 1;
  peers = 2 ∷ 3 ∷ [];
  hb_round = 1;
  heartbeat_replies = unhappy_reply ∷ [];
  prev_replies = [];
  current_ballot = record { config_id = 1; n = 0; priority = 0; pid = 1 };
  leader = old_leader;
  happy = true;
  quorum = majority 2;
  outgoing = [];
}

abbrev follows : Role × Phase
follows = (follower, accept)

abbrev taken : Ballot
taken = record { config_id = 1; n = 6; priority = 0; pid = 1 }

-- The recovered node receives the reply of its first round.
collects :
    handle
      (record orphan { heartbeat_replies = [] })
      (record { from = 2; to = 1; msg = reply unhappy_reply })
    ≡ orphan
unfolding handle
collects = refl

-- It takes over in the next round, past the old leader's number.
takes_over : (hb_timeout orphan follows old_leader).1 ≡ some taken
unfolding hb_timeout end_round sync_promise new_hb_round check_takeover may_take_over
    takeover_ballot update_happiness is_happy update_leader max_reply_ballot max_from eq_ballot
    lt_ballot is_prepare_quorum
takes_over = refl

recovers : (ble_with config (some old_leader)).current_ballot.n ≡ 0
unfolding ble_with eq_ballot
recovers = refl

orphan-Below : Below 5 orphan
orphan-Below = record {
  leader_below = omega arith;
  current_below = omega arith;
  replies_below = (omega arith, tt);
}

hb_timeout-elects_example :
    ((hb_timeout orphan follows old_leader).0.leader ≡ taken)
    × ((hb_timeout orphan follows old_leader).0.current_ballot ≡ taken)
    × (le_ballot old_leader taken ≡ true)
    × Dominates taken (unhappy_reply ∷ [])
    × MayElect orphan follows old_leader taken
hb_timeout-elects_example =
    hb_timeout-elects 5 orphan follows old_leader taken (omega arith) orphan-Below takes_over

taken_over : (end_round orphan follows old_leader).current_ballot ≡ taken
unfolding end_round sync_promise new_hb_round check_takeover may_take_over takeover_ballot
    update_happiness is_happy update_leader max_reply_ballot max_from eq_ballot lt_ballot
    is_prepare_quorum
taken_over = refl

end_round-changes_ballot_example :
    ((is_prepare_quorum (majority 2) 2 ≡ true)
      × (all (λ r. not r.happy) (unhappy_reply ∷ []) ≡ true)
      × (is_happy (update_leader orphan) follows ≡ false))
    ⊎ ((◌≡◌ {A = ℕ} 3 1)
        × (lt_ballot old_leader old_leader ≡ true)
        × ((end_round orphan follows old_leader).current_ballot ≡ old_leader))
end_round-changes_ballot_example =
    end_round-changes_ballot orphan follows old_leader (λ e. cc (sym taken_over ∙ e))

handle-AllCurrent_example :
    AllCurrent (handle orphan (record { from = 2; to = 1; msg = reply unhappy_reply }))
handle-AllCurrent_example =
    handle-AllCurrent orphan (record { from = 2; to = 1; msg = reply unhappy_reply })
      ((refl, refl), tt)

run-le_leader_example :
    le_ballot old_leader
      (run orphan (timeout follows old_leader ∷ timeout follows rival ∷ [])).leader
    ≡ true
run-le_leader_example =
    run-le_leader 5 orphan (timeout follows old_leader ∷ timeout follows rival ∷ []) (omega arith)
      (omega arith, (omega arith, tt)) orphan-Below
