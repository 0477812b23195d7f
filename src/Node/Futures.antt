-- ===== src/Node/Futures.antt =====
-- `concurrent.futures.Future`, as far as src/coldwatch/node/supervisor.py calls it: the states of the
-- futures that the supervisor has handed out, by their number in order of `submit`.
use coldwatch.Base.{ℕ, ◌≡◌, Bool, true, false, Option, none, some, List, ◌==◌, if◌then◌else◌, arith}
use coldwatch.Base.Keys.{ℕ_key}
use coldwatch.Base.Dict.{Dict, get, put, get-put}
use coldwatch.Node.Scan.{ScanUtxo, ScanFailed}

-- A cancellation is notified once the worker has seen it.
pub data Future : Type 0 where
  pending running cancelled notified : Future
  result : List ScanUtxo → Future
  failed : ScanFailed → Future

-- `future.done()`.
abbrev pub done : Future → Bool
done Future.pending = false
done Future.running = false
done Future.cancelled = true
done Future.notified = true
done (Future.result utxos) = true
done (Future.failed error) = true

-- The states that `set_running_or_notify_cancel` accepts.
abbrev pub is_waiting : Future → Bool
is_waiting Future.pending = true
is_waiting Future.running = false
is_waiting Future.cancelled = true
is_waiting Future.notified = false
is_waiting (Future.result utxos) = false
is_waiting (Future.failed error) = false

abbrev pub is_running : Future → Bool
is_running Future.pending = false
is_running Future.running = true
is_running Future.cancelled = false
is_running Future.notified = false
is_running (Future.result utxos) = false
is_running (Future.failed error) = false

-- A new future is pending.
unfoldable pub state_of : ℕ → Dict ℕ Future → Future
state_of i futures = elim (get i futures) [ none ↦ Future.pending | some state ↦ state ]

-- `future.set_running_or_notify_cancel()`: its value and the state it leaves, or none where it raises.
unfoldable pub set_running : Future → Option (Bool × Future)
set_running Future.pending = some (true, Future.running)
set_running Future.cancelled = some (false, Future.notified)
set_running Future.running = none
set_running Future.notified = none
set_running (Future.result utxos) = none
set_running (Future.failed error) = none

-- `future.set_result` and `future.set_exception`: of a future that is done, InvalidStateError.
unfoldable pub set_outcome : Future → Future → Option Future
set_outcome outcome state = if done state then none else some outcome

-- `future.cancel()`: a future that runs or is done stays as it is.
unfoldable pub cancel_future : Future → Future
cancel_future Future.pending = Future.cancelled
cancel_future Future.running = Future.running
cancel_future Future.cancelled = Future.cancelled
cancel_future Future.notified = Future.notified
cancel_future (Future.result utxos) = Future.result utxos
cancel_future (Future.failed error) = Future.failed error

pub state_of-put :
    (i j : ℕ) (state : Future) (futures : Dict ℕ Future)
    → state_of j (put i state futures) ≡ (if i == j then state else state_of j futures)
unfolding state_of
state_of-put i j state futures = ground (arith, get-put i j state futures)
