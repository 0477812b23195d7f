-- ===== src/Node/Supervisor/Worker.antt =====
-- src/coldwatch/node/supervisor.py: `start`, `close`, and the worker thread's `_run`, `_collect` and
-- `_execute`. `close` is two steps, since it waits for the worker between them.
use coldwatch.Base.{
  ℕ, suc, Bool, true, false, Option, none, some, List, [], ◌∷◌, ◌++◌, ltb, ◌||◌, if◌then◌else◌,
  length,
}
use coldwatch.Base.Integers.{ℤ}
use coldwatch.Base.Dict.{Dict}
use coldwatch.Base.Results.{Result, ok, err}
use coldwatch.Match.Keys.Display.{to_hex}
use coldwatch.Node.Json.{Json, PyError, truthy}
use coldwatch.Node.Rpc.{Reply, RpcFailure, rpc_error, transport_error, escaped, call}
use coldwatch.Node.Scan.{
  ScanUtxo, rejected, unreachable, shut_down, ScanError, failed, uncaught, new_found, read_answer,
}
use coldwatch.Node.Futures.{Future}
use coldwatch.Node.Supervisor.{
  Request, Phase, unborn, idle, waiting, gathering, lingering, collected, cleared, scanning, gone,
  crashed, Supervisor, SupervisorError, already_started, abort_raised, is_full, fail, drain,
  take_live, group_all, deliver_all,
}

-- The requests of a scan, by their scripts.
unfoldable pub spk_requests : List Request → Dict (List ℕ) (List Request)
spk_requests live = group_all live []

-- The text `raw(<hex>)` of each script that the scan is for, which the call hands to the node.
unfoldable pub descriptors : Dict (List ℕ) (List Request) → List (List ℕ)
descriptors [] = []
descriptors ((spk, requests) ∷ rest) =
    (114 ∷ 97 ∷ 119 ∷ 40 ∷ [] ++ to_hex spk ++ 41 ∷ []) ∷ descriptors rest

-- `_collect` where the batch can grow: the next item of the queue, or what follows if it is empty.
unfoldable pub take_next : List Request → (List Request → Phase) → Phase → Supervisor → Supervisor
take_next batch loop otherwise s = elim s.queue [
  | [] ↦ record s { phase = otherwise }
  | none ∷ queue ↦ record s { queue = queue; phase = collected batch }
  | some request ∷ queue ↦ record s { queue = queue; phase = loop (batch ++ request ∷ []) }
]

-- `_execute` from `if not live` up to the call of the node.
unfoldable pub scan : List Request → Dict ℕ Future → Supervisor → Supervisor
scan [] futures s = record s { futures = futures; phase = idle }
scan (request ∷ live) futures s = record s {
  futures = futures;
  scan_in_flight = true;
  phase = scanning (request ∷ live);
}

-- `_execute` up to the call of the node.
unfoldable pub execute : List Request → Supervisor → Supervisor
unfolding scan
execute batch s = elim (take_live batch s.futures) [
  | none ↦ record s { phase = crashed batch }
  | some (live, futures) ↦ scan live futures s
]

-- `_run` between `_collect` and `_execute`: a batch that passes the test of `_stopping` is executed,
-- whatever other threads do in between.
unfoldable pub begin : List Request → Supervisor → Supervisor
begin [] s = record s { phase = if s.stopping then gone else idle }
begin (request ∷ requests) s =
    if s.stopping
    then record s { futures = fail shut_down (request ∷ requests) s.futures; phase = gone }
    else record s { phase = cleared (request ∷ requests) }

-- `_execute` behind the call of the node: a failure for all, or for each what was found.
unfoldable pub resolve :
    Result ScanError (Dict (List ℕ) (List ScanUtxo)) → List Request → Supervisor → Supervisor
unfolding spk_requests
resolve (err (uncaught why)) live s = record s { phase = crashed live }
resolve (err (failed error)) live s = record s { futures = fail error live s.futures; phase = idle }
resolve (ok found) live s = elim (deliver_all found (spk_requests live) s.futures) [
  | none ↦ record s { phase = crashed live }
  | some futures ↦ record s { futures = futures; phase = idle }
]

module _ (read_int : List ℕ → Option ℤ) where
  -- The handlers around the call of the node, and behind them the answer.
  unfoldable pub handle_reply :
      List Request → Result RpcFailure Json → Result ScanError (Dict (List ℕ) (List ScanUtxo))
  unfolding spk_requests
  handle_reply live (err (rpc_error code)) = err (failed (rejected code))
  handle_reply live (err transport_error) = err (failed unreachable)
  handle_reply live (err (escaped why)) = err (uncaught why)
  handle_reply live (ok json) = read_answer read_int json (new_found (spk_requests live))

  -- What the answer to a scan of these requests comes to.
  unfoldable pub answer_to : Reply → List Request → Result ScanError (Dict (List ℕ) (List ScanUtxo))
  answer_to reply live = handle_reply live (call read_int reply)

  -- `_execute` from the call's return on, `finally` included.
  unfoldable pub finish_scan : Reply → List Request → Supervisor → Supervisor
  finish_scan reply live s =
      resolve (answer_to reply live) live
        (record s { scan_in_flight = false; batches_run = suc s.batches_run })

  -- One step of the worker. `expired` says that the wait it is in has run out, and `reply` what the
  -- node answers if it is in a call. Where it waits for what is not there, nothing changes.
  unfoldable pub work : Bool → Reply → Supervisor → Supervisor
  unfolding take_next begin execute finish_scan
  work expired reply s = elim s.phase [
    | unborn ↦ s
    | idle ↦ record s { phase = if s.stopping then gone else waiting }
    | waiting ↦ take_next [] gathering (if expired then collected [] else waiting) s
    | gathering batch ↦
        if ltb (length batch) s.batch_max
        then take_next batch gathering (lingering batch) s
        else record s { phase = lingering batch }
    | lingering batch ↦
        if ltb (length batch) s.batch_max
        then (if s.stopping || expired
            then record s { phase = collected batch }
            else take_next batch lingering (lingering batch) s)
        else record s { phase = collected batch }
    | collected batch ↦ begin batch s
    | cleared batch ↦ execute batch s
    | scanning live ↦ finish_scan reply live s
    | gone ↦ s
    | crashed held ↦ s
  ]

  -- `_abort_scan`.
  unfoldable pub abort_scan : Reply → Result PyError Bool
  abort_scan reply = elim (call read_int reply) [
    | ok json ↦ ok (truthy json)
    | err (escaped why) ↦ err why
    | err (rpc_error code) ↦ ok false
    | err transport_error ↦ ok false
  ]

  -- `start`. A worker that starts when the supervisor is stopping returns at once.
  unfoldable pub start : Reply → Supervisor → Result SupervisorError Unit × Supervisor
  start reply s = if s.has_worker then (err already_started, s) else elim (abort_scan reply) [
    | err why ↦ (err (abort_raised why), s)
    | ok found ↦ (
      ok tt,
      record s {
        orphans_aborted = if found then suc s.orphans_aborted else s.orphans_aborted;
        has_worker = true;
        phase = if s.stopping then s.phase else idle;
      },
    )
  ]

  -- `close` up to the wait for the worker.
  unfoldable pub close_begin : Reply → Supervisor → Result SupervisorError Unit × Supervisor
  unfolding is_full
  close_begin reply s =
      if s.closed
      then (ok tt, s)
      else let woken = if is_full s then s.queue else s.queue ++ none ∷ [] in
        let told = record s { closed = true; stopping = true; queue = woken } in
        if s.scan_in_flight
        then elim (abort_scan reply) [
          | err why ↦ (err (abort_raised why), told)
          | ok found ↦ (ok tt, record told { joining = true })
        ]
        else (ok tt, record told { joining = true })

-- `close` behind the wait for the worker, which ends when the worker does or times out.
unfoldable pub close_end : Supervisor → Supervisor
close_end s =
    if s.joining
    then record s {
      has_worker = false;
      joining = false;
      queue = [];
      futures = drain shut_down s.queue s.futures;
    }
    else s
