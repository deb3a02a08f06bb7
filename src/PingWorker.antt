-- ===== src/PingWorker.antt =====
-- internal/services/ping-worker: handler.go with the adapters of repo/adapters.go and the client of
-- http_client.go. The network and the JSON encoder are parameters.
pub mod Atomic
pub mod Outcome
pub mod Messages
pub mod Calm
pub mod Keys
pub mod Silence
pub mod Controller
use pingerus.Base.{
  ℕ, ◌+◌, ◌-◌, ◌*◌, ◌/◌, ◌≡◌, Bool, true, false, not, ◌&&◌, ◌||◌, Option, none, some, List, [], ◌∷◌,
  ◌++◌, leb, String, if◌then◌else◌,
}
use pingerus.Base.Int.{ℤ, pos, negsuc, not_positive, ltb_ℤ, sub_ℕ}
use pingerus.Text.{Text, codes, trim_space, has_prefix, is_empty}
use pingerus.Text.Decimal.{format_int}
use pingerus.World.{
  World, Op, Context, background, now, interact, unless, wrapping, attempt, pure, raise, ◌>>=◌,
  ◌>>◌,
}
use pingerus.World.Errors.{Error, Result, ok, err}
use pingerus.World.Rows.{Time, Check, Run}
use pingerus.Postgres.Checks
use pingerus.Postgres.Runs
use pingerus.Postgres.Outbox
use pingerus.Postgres.Transactor.{in_tx}

-- outbox.KindStatusChanged
abbrev pub kind_status_changed : ℤ
kind_status_changed = pos 1

-- StatusChangedPayload
pub record StatusChangedPayload : Type 0 where
  pub check_id : ℤ
  pub old : Bool
  pub new : Bool
  pub at : Time

-- What the handler uses of packages outside the repository: http.NewRequestWithContext accepts a URL
-- or not, the client gets a status code or fails, and json.Marshal of a payload.
pub record Outside : Type 0 where
  pub accepts_url : Text → Bool
  pub response : Text → Time → Option ℕ
  pub marshal : StatusChangedPayload → Text

-- strings.TrimSpace, and a scheme where there is none.
unfoldable pub normalize_url : Text → Text
unfolding trim_space has_prefix
normalize_url s =
    let t = trim_space s in
    if is_empty t
    then t
    else if has_prefix t (codes "http://") || has_prefix t (codes "https://")
    then t
    else codes "http://" ++ t

abbrev pub is_up : ℕ → Bool
is_up code = leb 200 code && leb code 399

-- The status code, and whether the site is up: what is left of Ping's answer once the error is dropped.
abbrev pub answered : Option ℕ → ℤ × Bool
answered none = (pos 0, false)
answered (some code) = (pos code, is_up code)

-- nanoseconds to whole milliseconds
abbrev pub milliseconds : ℕ → ℤ
milliseconds d = pos (d / 1000000)

-- CheckRepo.GetByID of the adapters: the four fields that it copies.
unfoldable pub slim : Check → Check
slim c = record {
  id = c.id;
  user_id = c.user_id;
  name = [];
  url = c.url;
  interval = pos 0;
  active = false;
  last_status = c.last_status;
  next_run = 0;
  created_at = 0;
  updated_at = 0;
}

-- The status is news: up for the first time, or other than the last one.
unfoldable pub has_changed : Option Bool → Bool → Bool
has_changed none status = status
has_changed (some prev) status = if prev then not status else status

abbrev pub old_status : Option Bool → Bool
old_status none = false
old_status (some prev) = prev

-- t.UnixNano(), as a number of nanoseconds since the Unix epoch.
abbrev pub unix_nano : Time → ℤ
unix_nano t = sub_ℕ t (62135596800 * 1000000000)

-- fmt.Sprintf("status:%d:%d", chk.ID, payload.At.UnixNano())
unfoldable pub status_key : ℤ → Time → Text
status_key id at = codes "status:" ++ (format_int id ++ (codes ":" ++ format_int (unix_nano at)))

abbrev pub run_of : Check → Bool → ℤ → ℤ → Time → Run
run_of chk status code latency at = record {
  id = pos 0;
  check_id = chk.id;
  timestamp = at;
  status = status;
  code = code;
  latency = latency;
}

-- The three writes of a change, each with the clock that it reads.
unfoldable pub save_run : Check → Bool → ℤ → ℤ → Context → Op ℤ
unfolding now wrapping ◌>>=◌
save_run chk status code latency ctx = do
  at ← now
  wrapping "insert run" (Runs.insert ctx (run_of chk status code latency at))

unfoldable pub save_status : Check → Bool → Context → Op (Unit {0})
unfolding now wrapping ◌>>=◌
save_status chk status ctx = do
  at ← now
  wrapping "update check"
      (Checks.update ctx (record chk { last_status = some status; updated_at = at; active = true }))

module _ (out : Outside) where
  -- HTTPPing.Do: the request takes its time; the answer may be an error that nothing reads.
  unfoldable pub ping : Text → Op (ℤ × Bool)
  ping url w =
      if out.accepts_url url
      then (let (_, w') = interact w in (ok (answered (out.response url w'.clock)), w'))
      else (ok (pos 0, false), w)

  unfoldable pub save_message : Check → Bool → Context → Op (Unit {0})
  unfolding now wrapping status_key ◌>>=◌
  save_message chk status ctx = do
    at ← now
    wrapping "outbox enqueue" (
        Outbox.enqueue ctx (status_key chk.id at) kind_status_changed (
          out.marshal (record {
            check_id = chk.id;
            old = old_status chk.last_status;
            new = status;
            at = at;
          })))

  -- The function that HandleCheck runs in a transaction.
  unfoldable pub record_change : Check → Bool → ℤ → ℤ → Context → Op (Unit {0})
  unfolding save_run save_status save_message ◌>>=◌
  record_change chk status code latency ctx = do
    save_run chk status code latency ctx
    save_status chk status ctx
    save_message chk status ctx

  -- What follows the ping: an error of the transaction is printed and dropped.
  unfoldable pub settle : Check → Bool → ℤ → ℤ → Op (Unit {0})
  unfolding in_tx record_change attempt ◌>>=◌
  settle chk status code latency =
      if has_changed chk.last_status status
      then (do attempt (in_tx background (record_change chk status code latency)); pure tt)
      else pure tt

  -- HandleCheck, once the check is loaded.
  unfoldable pub check_site : Check → Op (Unit {0})
  check_site chk = do
    start ← now
    answer ← ping (normalize_url chk.url)
    stop ← now
    at ← now
    let latency = milliseconds (stop - start)
    attempt (Runs.insert background (run_of chk answer.1 answer.0 latency at))
    settle chk answer.1 answer.0 latency

  unfoldable pub handle_check : ℤ → Op (Unit {0})
  handle_check check_id =
      if not_positive check_id
      then pure tt
      else do loaded ← wrapping "get check" (Checks.get_by_id check_id); check_site (slim loaded)
