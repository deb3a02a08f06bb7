-- ===== src/Scenarios/Workers.antt =====
-- Two workers on the outbox of the small deployment.
use pingerus.Base.{◌≡◌, refl, ap, sym, inl, inr, [], ◌∷◌, List, sort_by}
use pingerus.Base.Int.{pos, int_eq}
use pingerus.Text.{codes, text_eq}
use pingerus.World.{interact}
use pingerus.World.Rows.{created, success}
use pingerus.Retry.{run, default_kafka_policy}
use pingerus.OutboxRunner.{tick, handler_of}
use pingerus.OutboxRunner.Workers.{
  Move, works, stops, passes, enqueues, Runner, new_runner, move_all, start,
}
use pingerus.OutboxRunner.Workers.Counts.{Tallies, move_all-Tallies}
use pingerus.OutboxRunner.Workers.Soundness.{move_all-IsSound}
use pingerus.OutboxRunner.Workers.Fair.{IsSound}
use pingerus.Scenarios.Deliveries.{read_payload, no_wait, loaded_outbox}

-- Both workers pick; the first handles the message and marks it, the second is stopped.
abbrev moves : List Move
moves =
    works 0
    ∷ works 1
    ∷ enqueues (codes "status:2:0") (pos 1) []
    ∷ works 0
    ∷ passes 3
    ∷ works 1
    ∷ works 0
    ∷ stops 1
    ∷ []

abbrev after_moves : Runner
after_moves =
    move_all (codes "changes") no_wait read_payload (pos 10) 60 moves (new_runner 2 loaded_outbox)

loaded_outbox-IsSound : IsSound (codes "changes") no_wait read_payload loaded_outbox
loaded_outbox-IsSound m done (inl e) = absurd (new_row (ap (λ n. n.status) (sym e), done))
  where
    new_row : (created ≡ m.status) × (m.status ≡ success) → ⊥
    new_row h = cc
loaded_outbox-IsSound m done (inr h) = absurd h

move_all-IsSound_example : IsSound (codes "changes") no_wait read_payload after_moves.world
move_all-IsSound_example =
    move_all-IsSound (codes "changes") no_wait read_payload (pos 10) 60 2 moves loaded_outbox
      loaded_outbox-IsSound

-- The message of the small deployment is done at the end of these moves.
finished_later : after_moves.counters.m_ok ≡ 1
unfolding move_all start tick handler_of run interact int_eq text_eq sort_by default_kafka_policy
finished_later = refl

move_all-Tallies_example : Tallies after_moves
move_all-Tallies_example =
    move_all-Tallies (codes "changes") no_wait read_payload (pos 10) 60 2 moves loaded_outbox
