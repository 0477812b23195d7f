-- ===== src/Node/Supervisor/Tests.antt =====
-- Runs of the supervisor, and the theorems at concrete events.
use coldwatch.Base.{
  ℕ, zero, suc, ◌+◌, ◌≤◌, ◌<◌, ◌≡◌, refl, true, false, Option, none, some, List, [], ◌∷◌, ◌++◌,
  length, replicate, All, arith,
}
use coldwatch.Base.Integers.{ℤ, pos}
use coldwatch.Base.Results.{err}
use coldwatch.Base.Keys.{ℕ_key, bytes_key}
use coldwatch.Base.Dict.{get, put}
use coldwatch.Match.Index.Items.{has_item}
use coldwatch.Match.Keys.Display.{digit, to_hex, from_hex, reverse, is_space, hex_pair, digit_value}
use coldwatch.Node.Json.{
  boolean, integer, text, array, object, element, no_more, member, no_member, get_member, truthy,
  to_list, subscript, to_bytes, to_int, members, elements,
}
use coldwatch.Node.Rpc.{Reply, no_response, body, result_name, call, answer_of, result_of}
use coldwatch.Node.Scan.{
  spk_name, txid_name, vout_name, success_name, unspents_name, read_answer, read_entries, utxo_of,
  add_utxo, new_found,
}
use coldwatch.Node.Futures.{Future, done, state_of, set_running, set_outcome}
use coldwatch.Node.Supervisor.{
  Request, scanning, idle, Supervisor, new_supervisor, is_closed, submit, put_request, is_full,
  cancel, take_live, group, group_all, deliver, deliver_all, found_of,
}
use coldwatch.Node.Supervisor.Worker.{
  work, start, take_next, scan, execute, begin, spk_requests, descriptors, resolve, finish_scan,
  close_begin, answer_to, handle_reply, close_end, abort_scan,
}
use coldwatch.Node.Supervisor.Outcomes.{ids}
use coldwatch.Node.Supervisor.Groups.{script_of}
use coldwatch.Node.Supervisor.Events.{
  Event, enters, puts, enter, proceed, starts, closes, works, after, after_all,
}
use coldwatch.Node.Supervisor.Served.{IsServed}
use coldwatch.Node.Supervisor.Invariant.{after_all-IsServed}
use coldwatch.Node.Supervisor.Bounds.{after_all-IsBounded}
use coldwatch.Node.Supervisor.Bounds.Steps.{IsBounded}
use coldwatch.Node.Supervisor.Progress.{IsReadable}
use coldwatch.Node.Supervisor.Serving.{work_all, requests_resolved}
use coldwatch.Node.Supervisor.Closing.{close_resolves}
use coldwatch.Node.Supervisor.Closing.Steps.{is_over}
use coldwatch.Node.Supervisor.Closed.{closed_for_good}
use coldwatch.Node.Supervisor.Closed.Scans.{Spends}
use coldwatch.Node.Supervisor.Answers.{outcome}
use coldwatch.Node.Supervisor.Results.{Settles, scan_outcomes}

-- No text reads as a number.
abbrev no_int : List ℕ → Option ℤ
no_int s = none

-- Two requests for one script and one for another, and the start of the worker.
abbrev enrolments : List Event
enrolments =
    enters
    ∷ enters
    ∷ puts (81 ∷ [])
    ∷ puts (82 ∷ [])
    ∷ enters
    ∷ puts (81 ∷ [])
    ∷ starts no_response
    ∷ []

abbrev tick : Event
tick = works true no_response

-- The worker takes the three requests and calls the node.
abbrev called : List Event
called = enrolments ++ tick ∷ tick ∷ tick ∷ tick ∷ tick ∷ tick ∷ tick ∷ tick ∷ []

-- A coin of the first script: "51" and "0102", which reads as the bytes 1 and 2.
abbrev found_one : Reply
found_one = body (
    object (
      member result_name
        (object (
          member success_name (boolean true) (
            member unspents_name
              (array (
                element
                  (object (
                    member spk_name (text (53 ∷ 49 ∷ [])) (
                      member txid_name (text (48 ∷ 49 ∷ 48 ∷ 50 ∷ []))
                        (member vout_name (integer (pos 7)) no_member))))
                  no_more))
              no_member)))
        no_member))

abbrev live : List Request
live =
    record { spk = 81 ∷ []; future = 0 }
    ∷ record { spk = 82 ∷ []; future = 1 }
    ∷ record { spk = 81 ∷ []; future = 2 }
    ∷ []

abbrev fresh : Supervisor
fresh = new_supervisor 25 100

called_phase : (after_all no_int called fresh).phase ≡ scanning live
unfolding after_all after enter proceed put_request is_full cancel start abort_scan call work
    take_next begin execute scan take_live set_running state_of get put close_begin
called_phase = refl

-- A reply that does not come fails a scan and raises nothing.
no_response-IsReadable : IsReadable no_int no_response
unfolding answer_to handle_reply call
no_response-IsReadable requests why = λ e. absurd (ground arith)

unanswered : List Reply
unanswered = replicate 30 no_response

unanswered-IsReadable : All (IsReadable no_int) (replicate 30 no_response)
unanswered-IsReadable = All-replicate 30
  where
    All-replicate : (n : ℕ) → All (IsReadable no_int) (replicate n no_response)
    All-replicate zero = tt
    All-replicate (suc n) = (no_response-IsReadable, All-replicate n)

after_all-IsServed_example : IsServed (after_all no_int called (new_supervisor 25 100))
after_all-IsServed_example = after_all-IsServed no_int 25 100 called

after_all-IsBounded_example : IsBounded 2 3 (after_all no_int called (new_supervisor 2 3))
after_all-IsBounded_example = after_all-IsBounded no_int 2 3 called

enrolled :
    ((after_all no_int enrolments fresh).phase ≡ idle)
    × ((after_all no_int enrolments fresh).stopping ≡ false)
    × (length (after_all no_int enrolments fresh).queue ≡ 3)
    × ((after_all no_int enrolments fresh).issued ≡ 3)
unfolding after_all after enter proceed put_request is_full cancel start abort_scan call work
    take_next begin execute scan take_live set_running state_of get put close_begin
enrolled = (refl, refl, refl, refl)

requests_resolved_example :
    done (
      state_of 2
        (work_all no_int
          (replicate 30 no_response)
          (after_all no_int enrolments (new_supervisor 25 100))).futures)
    ≡ true
unfolding after_all after enter proceed put_request is_full cancel start abort_scan call work
    take_next begin execute scan take_live set_running state_of get put close_begin
requests_resolved_example =
    requests_resolved no_int 25 100 enrolments (replicate 30 no_response) refl refl
      unanswered-IsReadable (omega arith) 2 (omega arith)

-- A `close` while the node is scanning and a caller is between the test of `submit` and its put.
abbrev closing : List Event
closing = called ++ enters ∷ enters ∷ puts (83 ∷ []) ∷ closes no_response ∷ []

close_resolves_example :
    let t = close_end (
      work_all no_int
        (replicate 30 no_response)
        (after_all no_int closing (new_supervisor 25 100))) in
    (is_over t.phase ≡ true)
    × (t.queue ≡ [])
    × ((i : ℕ) → i < t.issued → done (state_of i t.futures) ≡ true)
unfolding after_all after enter proceed put_request is_full cancel start abort_scan call work
    take_next begin execute scan take_live set_running state_of get put close_begin
close_resolves_example =
    close_resolves no_int 25 100 closing (replicate 30 no_response) refl refl unanswered-IsReadable
      (omega arith)

scan_outcomes_example :
    let s = after_all no_int called (new_supervisor 25 100) in
    let t = work no_int true found_one s in
    ((i : ℕ) (spk : List ℕ)
      → script_of i live ≡ some spk
      → Settles (outcome no_int spk found_one) i live s.futures t)
    × ((i : ℕ) → has_item i (ids live) ≡ false → state_of i t.futures ≡ state_of i s.futures)
    × (t.scan_in_flight ≡ false)
scan_outcomes_example = scan_outcomes no_int 25 100 called true found_one live called_phase

closed_for_good_example :
    let s = after_all no_int closing (new_supervisor 25 100) in
    let t = after_all no_int enrolments s in
    (submit (81 ∷ []) t ≡ (err is_closed, t))
    × (t.entering ≤ s.entering)
    × (t.issued + t.entering ≤ s.issued + s.entering)
    × Spends s t
unfolding after_all after enter proceed put_request is_full cancel start abort_scan call work
    take_next begin execute scan take_live set_running state_of get put close_begin
closed_for_good_example = closed_for_good no_int 25 100 closing enrolments (81 ∷ []) refl

-- A `close` between the test of `_stopping` and the call of the node: the scan begins all the same.
abbrev late : Supervisor
late =
    after_all no_int
      (enrolments
        ++ tick ∷ tick ∷ tick ∷ tick ∷ tick ∷ tick ∷ tick ∷ closes no_response ∷ tick ∷ [])
      fresh

late_scan : (late.stopping ≡ true) × (late.phase ≡ scanning live)
unfolding after_all after enter proceed put_request is_full cancel start abort_scan call work
    take_next begin execute scan take_live set_running state_of get put close_begin
late_scan = (refl, refl)

-- The two requests for the first script get its coin, the other none.
found_run :
    (state_of 0 (work no_int true found_one (after_all no_int called fresh)).futures
      ≡ Future.result (record { txid = 2 ∷ 1 ∷ []; vout = pos 7; spk = 81 ∷ [] } ∷ []))
    × (state_of 1 (work no_int true found_one (after_all no_int called fresh)).futures
        ≡ Future.result [])
    × (state_of 2 (work no_int true found_one (after_all no_int called fresh)).futures
        ≡ Future.result (record { txid = 2 ∷ 1 ∷ []; vout = pos 7; spk = 81 ∷ [] } ∷ []))
unfolding after_all after enter proceed put_request is_full start abort_scan call work take_next
    begin execute scan take_live set_running state_of get put close_begin finish_scan resolve
    answer_to handle_reply spk_requests group group_all deliver deliver_all found_of set_outcome
    read_answer read_entries utxo_of add_utxo new_found answer_of result_of get_member members
    elements truthy to_list subscript to_bytes to_int from_hex reverse is_space hex_pair digit_value
found_run = (refl, refl, refl)

described :
    descriptors (spk_requests live)
    ≡ (114 ∷ 97 ∷ 119 ∷ 40 ∷ 53 ∷ 49 ∷ 41 ∷ []) ∷ (114 ∷ 97 ∷ 119 ∷ 40 ∷ 53 ∷ 50 ∷ 41 ∷ []) ∷ []
unfolding descriptors spk_requests group_all group get put to_hex digit
described = refl
