-- ===== src/Node/Supervisor/Answers.antt =====
-- What the answer to a scan makes of the futures of its requests.
use coldwatch.Base.{
  ℕ, ◌≡◌, refl, ◌∙◌, ap, Option, some, List, [], ◌∷◌, ◌++◌, ◌==◌, not, if◌then◌else◌, if-elim,
  Bool-cases, Option-cases, inl, inr, arith,
}
use coldwatch.Base.Integers.{ℤ}
use coldwatch.Base.Keys.{bytes_key, bytes_beq, bytes_beq_iff}
use coldwatch.Base.Dict.{Dict, get, put}
use coldwatch.Base.Results.{Result, ok, err, Result-cases}
use coldwatch.Node.Json.{Json, null, object, array, no_more, PyError, truthy, get_member, to_list}
use coldwatch.Node.Rpc.{Reply, RpcFailure, rpc_error, transport_error, escaped, call}
use coldwatch.Node.Scan.{
  ScanUtxo, ScanFailed, rejected, unreachable, incomplete, ScanError, failed, uncaught, caught,
  success_name, unspents_name, new_found, read_answer,
}
use coldwatch.Node.Scan.Found.{utxos_of, of_script, found_with, Found, read_entries-Found}
use coldwatch.Node.Futures.{Future}
use coldwatch.Node.Supervisor.{Request, group, group_all, found_of}
use coldwatch.Node.Supervisor.Worker.{spk_requests, handle_reply, answer_to}
use coldwatch.Node.Supervisor.Groups.{script_of}

get-new_found-put :
    {A : Type 0} (spk k : List ℕ) (v : A) (d : Dict (List ℕ) A)
    → get spk (new_found (put k v d)) ≡ (if bytes_beq k spk then some [] else get spk (new_found d))
unfolding get put new_found
get-new_found-put spk k v [] = refl
get-new_found-put spk k v ((j, w) ∷ d) = ground (
  arith,
  get-new_found-put spk k v d,
  bytes_beq_iff j k,
  bytes_beq_iff j spk,
  bytes_beq_iff k spk,
)

get-new_found-group :
    (spk : List ℕ) (r : Request) (d : Dict (List ℕ) (List Request))
    → get spk (new_found (group r d))
      ≡ (if bytes_beq r.spk spk then some [] else get spk (new_found d))
unfolding group
get-new_found-group spk r d = elim (Option-cases (get r.spk d)) [
  | inl e ↦ rw (group, e) (get-new_found-put spk r.spk (r ∷ []) d)
  | inr (requests, e) ↦ rw (group, e) (get-new_found-put spk r.spk (requests ++ r ∷ []) d)
]

kept_asked :
    (spk : List ℕ) (live : List Request) (old : Dict (List ℕ) (List Request))
    → get spk (new_found old) ≡ some []
    → get spk (new_found (group_all live old)) ≡ some []
unfolding group_all
kept_asked spk [] old h = h
kept_asked spk (r ∷ live) old h = kept_asked spk live (group r old) (
    get-new_found-group spk r old
    ∙ rw h (
        if-elim (λ (o : Option (List ScanUtxo)). o ≡ some []) (bytes_beq r.spk spk) (λ e. refl)
          (λ e. refl)))

first :
    (r : Request) (spk : List ℕ) (other : Option (List ScanUtxo))
    → r.spk ≡ spk
    → (if bytes_beq r.spk spk then some [] else other) ≡ some []
first r spk other e = ground (arith, (bytes_beq_iff r.spk spk).1 e)

-- The script of each request is asked for.
pub asked :
    (i : ℕ) (spk : List ℕ) (live : List Request) (old : Dict (List ℕ) (List Request))
    → script_of i live ≡ some spk
    → get spk (new_found (group_all live old)) ≡ some []
unfolding group_all script_of
asked i spk [] old h = cc
asked i spk (r ∷ live) old h = elim (Bool-cases (r.future == i)) [
  | inl here ↦
      kept_asked spk live (group r old)
        (get-new_found-group spk r old ∙ first r spk _ (ground arith))
  | inr later ↦ asked i spk live (group r old) (ground arith)
]

unfoldable pub outcome_of_error : ScanError → Result PyError Future
outcome_of_error (failed error) = ok (Future.failed error)
outcome_of_error (uncaught what) = err what

unfoldable pub outcome_of_utxos : List ℕ → Result PyError (List ScanUtxo) → Result PyError Future
outcome_of_utxos spk (ok utxos) = ok (Future.result (of_script spk utxos))
outcome_of_utxos spk (err why) = outcome_of_error (caught why)

module _ (read_int : List ℕ → Option ℤ) where
  -- The outcome of a request for a script, by the reply alone: the exception that ends the worker, or
  -- the state of the future, with the unspent outputs of the answer that pay the script, in its order.
  unfoldable pub outcome_of_answer : List ℕ → Json → Result PyError Future
  outcome_of_answer spk (object answer) =
      if not (truthy (get_member success_name null answer))
      then ok (Future.failed incomplete)
      else elim (to_list (get_member unspents_name (array no_more) answer)) [
        | err why ↦ err why
        | ok entries ↦ outcome_of_utxos spk (utxos_of read_int entries)
      ]
  outcome_of_answer spk other = ok (Future.failed incomplete)

  unfoldable pub outcome_of_call : List ℕ → Result RpcFailure Json → Result PyError Future
  outcome_of_call spk (ok json) = outcome_of_answer spk json
  outcome_of_call spk (err (rpc_error code)) = ok (Future.failed (rejected code))
  outcome_of_call spk (err transport_error) = ok (Future.failed unreachable)
  outcome_of_call spk (err (escaped why)) = err why

  unfoldable pub outcome : List ℕ → Reply → Result PyError Future
  outcome spk reply = outcome_of_call spk (call read_int reply)

-- The end of a scan against the outcome of a request for one of its scripts.
unfoldable pub Agrees :
    List ℕ → Result ScanError (Dict (List ℕ) (List ScanUtxo)) → Result PyError Future → Type 0
Agrees spk (err (failed error)) o = o ≡ ok (Future.failed error)
Agrees spk (err (uncaught why)) o = o ≡ err why
Agrees spk (ok found) o = o ≡ ok (Future.result (found_of spk found))

error-Agrees : (spk : List ℕ) (e : ScanError) → Agrees spk (err e) (outcome_of_error e)
unfolding Agrees outcome_of_error
error-Agrees spk (failed error) = refl
error-Agrees spk (uncaught what) = refl

failed-Agrees :
    (spk : List ℕ) (error : ScanFailed) → Agrees spk (err (failed error)) (ok (Future.failed error))
unfolding Agrees
failed-Agrees spk error = refl

uncaught-Agrees : (spk : List ℕ) (why : PyError) → Agrees spk (err (uncaught why)) (err why)
unfolding Agrees
uncaught-Agrees spk why = refl

result-Agrees :
    (spk : List ℕ) (left : Dict (List ℕ) (List ScanUtxo)) (utxos : List ScanUtxo)
    → get spk left ≡ found_with (some []) utxos
    → Agrees spk (ok left) (ok (Future.result utxos))
unfolding Agrees found_of found_with
result-Agrees spk left utxos h = ground arith

Found-Agrees :
    (spk : List ℕ) (r : Result PyError (List ScanUtxo))
    (end : Result ScanError (Dict (List ℕ) (List ScanUtxo))) (found : Dict (List ℕ) (List ScanUtxo))
    → get spk found ≡ some []
    → Found r end found
    → Agrees spk end (outcome_of_utxos spk r)
unfolding outcome_of_utxos Found
Found-Agrees spk (err why) end found new e = rw e (error-Agrees spk (caught why))
Found-Agrees spk (ok utxos) end found new (left, e, finds) = rw e (
    result-Agrees spk left (of_script spk utxos)
      (finds spk ∙ ap (λ (t : Option (List ScanUtxo)). found_with t (of_script spk utxos)) new))

module _ (read_int : List ℕ → Option ℤ) where
  answer-Agrees :
      (spk : List ℕ) (json : Json) (found : Dict (List ℕ) (List ScanUtxo))
      → get spk found ≡ some []
      → Agrees spk (read_answer read_int json found) (outcome_of_answer read_int spk json)
  unfolding read_answer outcome_of_answer
  answer-Agrees spk (object answer) found new =
      elim (Bool-cases (truthy (get_member success_name null answer))) [
        | inr fails ↦ rw fails (failed-Agrees spk incomplete)
        | inl succeeds ↦
            elim (Result-cases (to_list (get_member unspents_name (array no_more) answer))) [
              | inr (why, e) ↦ rw (succeeds, e) (uncaught-Agrees spk why)
              | inl (entries, e) ↦
                  rw (succeeds, e)
                    (Found-Agrees spk (utxos_of read_int entries) _ found new
                      (read_entries-Found read_int entries found))
            ]
      ]
  answer-Agrees spk _ found new = failed-Agrees spk incomplete

  handle_reply-Agrees :
      (r : Result RpcFailure Json) (live : List Request) (i : ℕ) (spk : List ℕ)
      → script_of i live ≡ some spk
      → Agrees spk (handle_reply read_int live r) (outcome_of_call read_int spk r)
  unfolding handle_reply outcome_of_call spk_requests
  handle_reply-Agrees (err (rpc_error code)) live i spk mine = failed-Agrees spk (rejected code)
  handle_reply-Agrees (err transport_error) live i spk mine = failed-Agrees spk unreachable
  handle_reply-Agrees (err (escaped why)) live i spk mine = uncaught-Agrees spk why
  handle_reply-Agrees (ok json) live i spk mine =
      answer-Agrees spk json (new_found (group_all live [])) (asked i spk live [] mine)

  pub reply-Agrees :
      (reply : Reply) (live : List Request) (i : ℕ) (spk : List ℕ)
      → script_of i live ≡ some spk
      → Agrees spk (answer_to read_int reply live) (outcome read_int spk reply)
  unfolding answer_to outcome
  reply-Agrees reply live i spk mine = handle_reply-Agrees (call read_int reply) live i spk mine
