-- ===== src/Notifier/Controller/Mailing.antt =====
-- The notifier at work on its topic.
use pingerus.Base.{
  ℕ, suc, ◌+◌, ◌≤◌, ◌≡◌, refl, ap, ◌∙◌, inl, inr, Bool, true, some, List, [], ◌∷◌, length,
  length-append, arith,
}
use pingerus.Text.{Text}
use pingerus.World.{World, ◌>>=◌}
use pingerus.World.Forward.{bind-IsForward, lift-IsForward}
use pingerus.World.Errors.{errors_is-sentinel, sentinel, canceled, Result, ok}
use pingerus.World.Laws.{Result-cases}
use pingerus.World.Rows.{ProtoMessage}
use pingerus.Notifier.Clock.{on_status_change-IsForward}
use pingerus.Notifier.Messages.{AtMostOneMail, on_status_change-AtMostOneMail}
use pingerus.Notifier.Smtp.{Mailer}
use pingerus.Notifier.Controller.{PbStatusChange, status_change_handler, without_canceled, run}
use pingerus.Consumer.{Fetched, Reader, Loop, proto_handler}
use pingerus.Consumer.Partitions.{Partition}
use pingerus.Consumer.Runs.{Reach, Progress, Through, quiet, called, Reach-Progress}
use pingerus.Consumer.Stopping.{IsEnough, consume-IsStopped}

module _ (unmarshal : ProtoMessage → Result PbStatusChange) (m : Mailer) where
  status_change_handler-AtMostOneMail :
      (key : Text) (value : ProtoMessage) (w : World)
      → AtMostOneMail w (status_change_handler unmarshal m key value w).1
  unfolding status_change_handler proto_handler ◌>>=◌
  status_change_handler-AtMostOneMail key value w = elim (Result-cases (unmarshal value)) [
    | inl (c, e) ↦
        rw e (on_status_change-AtMostOneMail m c.check_id c.old_status c.new_status c.ts w)
    | inr (x, e) ↦ rw e (inl refl)
  ]

  pub status_change_handler-ticks :
      (key : Text) (value : ProtoMessage) (w : World)
      → w.clock ≤ (status_change_handler unmarshal m key value w).1.clock
  unfolding status_change_handler proto_handler
  status_change_handler-ticks key value w =
      (bind-IsForward (lift-IsForward (unmarshal value))
          λ c. on_status_change-IsForward m c.check_id c.old_status c.new_status c.ts).later
        w

  AtMostOneMail-length : (w v : World) → AtMostOneMail w v → length v.mails ≤ suc (length w.mails)
  AtMostOneMail-length w v (inl e) = omega (arith, ap length e)
  AtMostOneMail-length w v (inr (mail, e)) = omega (arith, ap length e)

  Through-mails :
      (w v : World) (ms : List Fetched)
      → Through (status_change_handler unmarshal m) w ms v
      → length v.mails ≤ length w.mails + length ms
  Through-mails w v ms (quiet later) = omega (arith, ap length later.mails)
  Through-mails w v ms (called {ms = ns} {v = x} n {at = at} before_it till after) =
      let earlier = Through-mails w x ns before_it in
      let after_call : World = (status_change_handler unmarshal m n.key n.value at).1 in
      let one =
        AtMostOneMail-length at after_call (status_change_handler-AtMostOneMail n.key n.value at) in
      omega (
        arith,
        earlier,
        one,
        ap length till.mails,
        ap length after.mails,
        length-append ns (n ∷ []),
      )

  module _ {S : Type 0} (r : Reader S) (p : Partition S r) (done : World → Bool) (l : Loop S) where
    open p use {pending}

    -- One mail at most for each message that was taken on the way.
    abbrev pub IsFrugal : Loop S → Type 0
    IsFrugal t =
        length t.world.mails + length (pending t.reader)
        ≤ length l.world.mails + length (pending l.reader)

    Progress-IsFrugal :
        (t : Loop S) → Progress r p done (status_change_handler unmarshal m) l t → IsFrugal t
    Progress-IsFrugal t g = omega (
      arith,
      Through-mails l.world t.world g.messages g.handled,
      ap length g.in_order,
      length-append g.messages (pending t.reader),
    )

    -- For a reader with the laws of Partition: whatever the messages of the partition are and
    -- whichever calls fail, when the notifier begins another round, it has sent at most one mail for
    -- each message that it has taken.
    pub Reach-IsFrugal :
        (t : Loop S) → Reach r done (status_change_handler unmarshal m) l t → IsFrugal t
    Reach-IsFrugal t reach =
        Progress-IsFrugal t (Reach-Progress r p done (status_change_handler unmarshal m) l reach)

    no_error :
        (t : Loop S) → without_canceled unmarshal m (some (sentinel canceled, t)) ≡ some (ok tt, t)
    no_error t = rw (errors_is-sentinel canceled) refl

    module _ (deadline : ℕ) (late : (w : World) → deadline ≤ w.clock → done w ≡ true) where
      -- For a reader with the laws of Partition and a backoff of at least 200 ms at the start: where the
      -- notifier's context is done from a deadline on, Run returns no error, after at most one
      -- round for each message that is left, one for each 200 ms until the deadline, and one more; and
      -- it has sent at most one mail for each message that it has taken.
      pub run-stops :
          (fuel waits : ℕ)
          → IsEnough r p done
              (status_change_handler unmarshal m)
              deadline
              late
              (λ n. status_change_handler-ticks n.key n.value)
              fuel
              waits
              l
          → (t : Loop S) × (run unmarshal m r done fuel l ≡ some (ok tt, t)) × IsFrugal t
      unfolding run
      run-stops fuel waits enough =
          let (t, e, g) =
            consume-IsStopped r p done (status_change_handler unmarshal m) deadline late
              (λ n. status_change_handler-ticks n.key n.value) fuel waits l enough in
          (t, ap (without_canceled unmarshal m) e ∙ no_error t, Progress-IsFrugal t g)
