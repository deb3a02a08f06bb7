-- ===== src/CheckService/Requests.antt =====
-- Sequences of API requests about checks.
use pingerus.Base.{◌≢◌, refl, ◌∙◌, Option, none, some, List, [], ◌∷◌, arith, All}
use pingerus.Base.Int.{ℤ}
use pingerus.World.{World, Op}
use pingerus.World.Errors.{ok}
use pingerus.Postgres.Checks.Calls.{db-list_by_user}
use pingerus.CheckService
use pingerus.CheckService.Isolation.{
  IsNumbered, Untouched, create-isolated, get-isolated, update-isolated, delete-isolated,
}
use pingerus.CheckService.Api.{
  PbCheck, CreateCheckRequest, Validators, duration_of, from_pb, create_check, get_check,
  update_check, delete_check, list_checks,
}

pub data Request : Type 0 where
  create : CreateCheckRequest → Request
  get : ℤ → Request
  update : Option PbCheck → Request
  delete : ℤ → Request
  list : ℤ → Request

abbrev pub dropped {ℓ} : {A : Type ℓ} → Op A → Op (Unit {0})
dropped m w = let (r, w') = m w in (ok tt, w')

module _ (v : Validators) where
  -- The handler of a request, without its answer, for the user of the context.
  unfoldable pub answer : Option ℤ → Request → Op (Unit {0})
  answer user (create req) = dropped (create_check v user req)
  answer user (get id) = dropped (get_check v user id)
  answer user (update inp) = dropped (update_check v user inp)
  answer user (delete id) = dropped (delete_check v user id)
  answer user (list id) = dropped (list_checks v user id)

  -- The world after the handler of a request that the interceptor let through for a user.
  unfoldable pub handle : ℤ → Request → World → World
  unfolding answer
  handle uid r w = (answer (some uid) r w).1

  handle_all : List (ℤ × Request) → World → World
  handle_all [] w = w
  handle_all ((uid, r) ∷ rs) w = handle_all rs (handle uid r w)

  pub handle-isolated :
      (user owner : ℤ) (ne : user ≢ owner) (r : Request) (w : World) (n : IsNumbered w)
      → IsNumbered (handle owner r w) × Untouched user w (handle owner r w)
  unfolding handle answer create_check get_check update_check delete_check list_checks
  handle-isolated user owner ne (create req) w n =
      ground (arith, create-isolated user owner ne w n req.url (duration_of req.interval_sec))
  handle-isolated user owner ne (get id) w n = ground (arith, get-isolated user owner ne w n id)
  handle-isolated user owner ne (update none) w n = ground arith
  handle-isolated user owner ne (update (some c)) w n =
      ground (arith, update-isolated user owner ne w n (record (from_pb c) { user_id = owner }))
  handle-isolated user owner ne (delete id) w n =
      ground (arith, delete-isolated user owner ne w n id)
  handle-isolated user owner ne (list id) w n =
      unfold CheckService.list_by_user in ground (arith, db-list_by_user owner w)

  -- Where the numbers of the checks are in order, below the sequence: whatever requests other users
  -- send, valid or not, and whichever calls of the database fail, the rows of the table checks that
  -- belong to a user stay as they were, in their order.
  handle_all-Untouched :
      (user : ℤ) (rs : List (ℤ × Request)) (w : World)
      → All (λ p. user ≢ p.0) rs
      → IsNumbered w
      → Untouched user w (handle_all rs w)
  unfolding handle_all
  handle_all-Untouched user [] w others n = refl
  handle_all-Untouched user ((owner, r) ∷ rs) w others n =
      let (n', same) = handle-isolated user owner others.0 r w n in
      handle_all-Untouched user rs (handle owner r w) others.1 n' ∙ same
