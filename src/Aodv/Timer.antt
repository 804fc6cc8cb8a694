-- ===== src/Aodv/Timer.antt =====
-- Timers: java/main/osak/ext/ns3/core/Timer.java. The ScheduledThreadPoolExecutor is outside: what is
-- handed to it is listed, and whether a task has run is its business. Times are numbers of objects.
use osak_ext_ns.Prelude.{
  ℕ, Bool, true, false, Option, none, some, List, [], ◌∷◌, ◌++◌, if◌then◌else◌,
}
use osak_ext_ns.Result.{Result, ok, fault, Fault, ◌>>=◌, deref}
use osak_ext_ns.Aodv.Time.{Time, TimeUnit, Times, make}

-- The ScheduledFuture of the task that was handed over last.
pub record Future : Type 0 where
  pub is_cancelled : Bool
  pub is_done : Bool

pub record Timer : Type 0 where
  pub has_task : Bool
  pub delay : ℕ
  pub res : Option Future
  pub submitted : List Time

-- `new Timer()`: the delay is a new Time of 0 seconds; `res` is null.
abbrev pub new_timer : Times → Timer × Times
new_timer ts =
    let (r, ts') = make (record { value = 0; unit = TimeUnit.seconds }) ts in
    (record { has_task = false; delay = r; res = none; submitted = [] }, ts')

-- `SetFunction`, of a function that is not null, and `SetDelay`.
abbrev pub set_function : Timer → Timer
set_function t = record t { has_task = true }

abbrev pub set_delay : ℕ → Timer → Timer
set_delay delay t = record t { delay = delay }

-- `res.cancel(true)`: a task that has ended stays as it is.
abbrev pub cancel_future : Future → Future
cancel_future f = if f.is_done then f else record { is_cancelled = true; is_done = true }

unfoldable pub cancel : Timer → Result Timer
cancel t = do
  f ← deref t.res
  ok (if f.is_cancelled then t else record t { res = some (cancel_future f) })

-- `executor.schedule`, which refuses a null task.
unfoldable pub schedule : Times → Timer → Result Timer
schedule ts t =
    if t.has_task
    then ok (record t {
      res = some (record { is_cancelled = false; is_done = false });
      submitted = t.submitted ++ (ts.at t.delay ∷ []);
    })
    else fault Fault.null_pointer

-- `Schedule(delay)` and `Schedule(delay, func)`.
abbrev pub schedule_after : ℕ → Times → Timer → Result Timer
schedule_after delay ts t = schedule ts (set_delay delay t)

abbrev pub schedule_function : ℕ → Times → Timer → Result Timer
schedule_function delay ts t = schedule_after delay ts (set_function t)
