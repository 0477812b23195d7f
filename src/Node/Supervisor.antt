-- ===== src/Node/Supervisor.antt =====
-- src/coldwatch/node/supervisor.py: `ScanSupervisor`. A method takes the supervisor and returns its
-- outcome with the supervisor it leaves; the worker thread is a state machine whose phases are the
-- places at which other threads can be seen to run between its calls of the queue and of the node.
pub mod Worker
pub mod Outcomes
pub mod Groups
pub mod Delivery
pub mod Holds
pub mod Events
pub mod Served
pub mod Kept
pub mod Settings
pub mod Invariant
pub mod Progress
pub mod Serving
pub mod Closing
pub mod Answers
pub mod Asked
mod Tests
pub mod Closed
pub mod Bounds
pub mod Results
use coldwatch.Base.{
  ℕ, suc, ◌+◌, Bool, true, false, Option, none, some, List, [], ◌∷◌, ◌++◌, ◌==◌, ltb, leb, not,
  ◌&&◌, if◌then◌else◌, length,
}
use coldwatch.Base.Integers.{ℤ}
use coldwatch.Base.Keys.{ℕ_key, bytes_key}
use coldwatch.Base.Dict.{Dict, get, put}
use coldwatch.Base.Results.{Result, ok, err}
use coldwatch.Node.Json.{Json, PyError, truthy}
use coldwatch.Node.Rpc.{Reply, RpcFailure, rpc_error, transport_error, escaped, call}
use coldwatch.Node.Scan.{
  ScanUtxo, ScanFailed, rejected, unreachable, shut_down, ScanError, failed, uncaught, new_found,
  read_answer,
}
use coldwatch.Node.Futures.{Future, done, state_of, set_running, set_outcome, cancel_future}

-- A request holds its future by the future's number.
pub record Request : Type 0 where
  pub spk : List ℕ
  pub future : ℕ

-- Where the worker thread is, with what it holds: not started; at the head of `_run`'s loop; in the
-- first `get` of `_collect`; in the loop on `get_nowait`; in the loop on the window; behind
-- `_collect`; behind the test of `_stopping` that follows; in the call of the node; returned; or ended by an exception.
pub data Phase : Type 0 where
  unborn idle waiting : Phase
  gathering lingering collected cleared scanning : List Request → Phase
  gone : Phase
  crashed : List Request → Phase

pub record Supervisor : Type 0 where
  pub batch_max : ℕ
  pub queue_maxsize : ℕ
  -- Callers in `submit`, past its test of `_closed`.
  pub entering : ℕ
  -- `None` wakes the worker.
  pub queue : List (Option Request)
  pub futures : Dict ℕ Future
  -- The futures handed out have the numbers below.
  pub issued : ℕ
  pub stopping : Bool
  pub scan_in_flight : Bool
  -- `self._worker is not None`.
  pub has_worker : Bool
  pub closed : Bool
  -- A `close` is between its abort and its drain.
  pub joining : Bool
  pub orphans_aborted : ℕ
  pub batches_run : ℕ
  pub phase : Phase

pub data SupervisorError : Type 0 where
  already_started is_closed scan_queue_full : SupervisorError
  -- What `_abort_scan` lets through.
  abort_raised : PyError → SupervisorError

abbrev pub new_supervisor : ℕ → ℕ → Supervisor
new_supervisor batch_max queue_maxsize = record {
  batch_max = batch_max;
  queue_maxsize = queue_maxsize;
  entering = 0;
  queue = [];
  futures = [];
  issued = 0;
  stopping = false;
  scan_in_flight = false;
  has_worker = false;
  closed = false;
  joining = false;
  orphans_aborted = 0;
  batches_run = 0;
  phase = unborn;
}

-- `queue.put_nowait` raises Full at the bound; a bound of 0 is none.
unfoldable pub is_full : Supervisor → Bool
is_full s = not (s.queue_maxsize == 0) && leb s.queue_maxsize (length s.queue)

-- `submit` behind its test of `_closed`.
unfoldable pub put_request : List ℕ → Supervisor → Result SupervisorError ℕ × Supervisor
unfolding is_full
put_request spk s = if is_full s then (err scan_queue_full, s) else (
  ok s.issued,
  record s {
    queue = s.queue ++ some (record { spk = spk; future = s.issued }) ∷ [];
    futures = put s.issued Future.pending s.futures;
    issued = suc s.issued;
  },
)

-- A call that no other thread cuts into.
unfoldable pub submit : List ℕ → Supervisor → Result SupervisorError ℕ × Supervisor
submit spk s = if s.closed then (err is_closed, s) else put_request spk s

unfoldable pub pending : Supervisor → ℕ
pending s = length s.queue

-- A caller cancels the future that it was given.
unfoldable pub cancel : ℕ → Supervisor → Supervisor
cancel i s = record s { futures = put i (cancel_future (state_of i s.futures)) s.futures }

-- `_fail`.
unfoldable pub fail : ScanFailed → List Request → Dict ℕ Future → Dict ℕ Future
fail error [] futures = futures
fail error (request ∷ requests) futures = fail error requests (
    if done (state_of request.future futures)
    then futures
    else put request.future (Future.failed error) futures)

-- `_drain_queue`: the queue is empty behind it.
unfoldable pub drain : ScanFailed → List (Option Request) → Dict ℕ Future → Dict ℕ Future
drain error [] futures = futures
drain error (none ∷ queue) futures = drain error queue futures
drain error (some request ∷ queue) futures = drain error queue (
    if done (state_of request.future futures)
    then futures
    else put request.future (Future.failed error) futures)

-- `[r for r in batch if r.future.set_running_or_notify_cancel()]`, or none where that raises.
unfoldable pub take_live : List Request → Dict ℕ Future → Option (List Request × Dict ℕ Future)
take_live [] futures = some ([], futures)
take_live (request ∷ batch) futures = elim (set_running (state_of request.future futures)) [
  | none ↦ none
  | some (starts, state) ↦ elim (take_live batch (put request.future state futures)) [
    | none ↦ none
    | some (live, left) ↦ some (if starts then request ∷ live else live, left)
  ]
]

-- `spk_requests.setdefault(request.spk, []).append(request)`.
unfoldable pub group : Request → Dict (List ℕ) (List Request) → Dict (List ℕ) (List Request)
group request spk_requests = elim (get request.spk spk_requests) [
  | none ↦ put request.spk (request ∷ []) spk_requests
  | some requests ↦ put request.spk (requests ++ request ∷ []) spk_requests
]

unfoldable pub group_all :
    List Request → Dict (List ℕ) (List Request) → Dict (List ℕ) (List Request)
group_all [] spk_requests = spk_requests
group_all (request ∷ live) spk_requests = group_all live (group request spk_requests)

-- `for request in requests: request.future.set_result(outcome)`, or none where that raises.
unfoldable pub deliver : List ScanUtxo → List Request → Dict ℕ Future → Option (Dict ℕ Future)
deliver outcome [] futures = some futures
deliver outcome (request ∷ requests) futures =
    elim (set_outcome (Future.result outcome) (state_of request.future futures)) [
      | none ↦ none
      | some state ↦ deliver outcome requests (put request.future state futures)
    ]

-- `found[spk]` is there for each key of `spk_requests`.
unfoldable pub found_of : List ℕ → Dict (List ℕ) (List ScanUtxo) → List ScanUtxo
found_of spk found = elim (get spk found) [ none ↦ [] | some utxos ↦ utxos ]

unfoldable pub deliver_all :
    Dict (List ℕ) (List ScanUtxo)
    → Dict (List ℕ) (List Request)
    → Dict ℕ Future
    → Option (Dict ℕ Future)
unfolding found_of
deliver_all found [] futures = some futures
deliver_all found ((spk, requests) ∷ spk_requests) futures =
    elim (deliver (found_of spk found) requests futures) [
      | none ↦ none
      | some left ↦ deliver_all found spk_requests left
    ]
