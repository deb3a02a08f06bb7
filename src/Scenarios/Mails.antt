-- ===== src/Scenarios/Mails.antt =====
-- The notifier in the small deployment.
use pingerus.Base.{◌*◌, ◌≡◌, refl, true, false, none, some, [], ◌∷◌, arith}
use pingerus.Base.Int.{pos}
use pingerus.Text.{codes}
use pingerus.World.Errors.{Result, ok, err, message}
use pingerus.World.Rows.{ProtoMessage, check_request, status_change}
use pingerus.Postgres.Checks.{second}
use pingerus.Consumer.{Loop, start_loop, next, round, proto_handler}
use pingerus.Consumer.Runs.{here, again}
use pingerus.Notifier.{StatusChange, handle_status_change, on_status_change}
use pingerus.Notifier.Smtp.{Mailer}
use pingerus.Notifier.Outcome.{Ended, handle_status_change-Ended}
use pingerus.Notifier.Controller.{PbStatusChange, status_change_handler, run}
use pingerus.Notifier.Controller.Mailing.{IsFrugal, Reach-IsFrugal, run-stops}
use pingerus.Scenarios.{world}
use pingerus.Scenarios.Consuming.{Place, in_order, partition, begin, deadline, is_done, late}

abbrev mailer : Mailer
mailer = record {
  auth = true;
  use_tls = true;
  from = codes "p@b.c";
  subj_prefix = codes "[p]";
  offers_auth = λ w. true;
}

abbrev change : StatusChange
change = record { check_id = pos 1; old_status = false; new_status = true; at = 80 * second }

handle_status_change-Ended_example :
    Ended mailer change world (handle_status_change mailer change world)
handle_status_change-Ended_example = handle_status_change-Ended mailer change world

abbrev unmarshal : ProtoMessage → Result PbStatusChange
unmarshal (check_request id) = err (message "proto")
unmarshal (status_change id old new ts) =
    ok (record { check_id = id; old_status = old; new_status = new; ts = ts })

abbrev started : Loop Place
started = start_loop begin world

-- The second message alone: its status is the old one.
abbrev unchanged : Loop Place
unchanged =
    start_loop
      (record { offset = 5; key = codes "2"; value = status_change (pos 2) true true none } ∷ [], 5)
      world

abbrev passed_over : Loop Place
passed_over = start_loop ([], 6) world

taken : round in_order is_done (status_change_handler unmarshal mailer) unchanged ≡ next passed_over
unfolding round status_change_handler on_status_change proto_handler
taken = refl

Reach-IsFrugal_example : IsFrugal unmarshal mailer in_order partition is_done unchanged passed_over
Reach-IsFrugal_example =
    Reach-IsFrugal unmarshal mailer in_order partition is_done unchanged passed_over
      (again here taken)

run-stops_example :
    (t : Loop Place) × (run unmarshal mailer in_order is_done 9 started ≡ some (ok tt, t))
    × IsFrugal unmarshal mailer in_order partition is_done started t
run-stops_example =
    run-stops unmarshal mailer in_order partition is_done started deadline late 9 5
      (omega arith, omega arith, omega arith)
