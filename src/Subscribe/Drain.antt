-- ===== src/Subscribe/Drain.antt =====
-- The loop over one socket against the ingest's own `run`.
use coldwatch.Base.{
  ℕ, suc, ◌+◌, ◌≡◌, refl, ◌∙◌, ap, String, Option, none, some, List, [], ◌∷◌, ◌++◌, length,
  Option-cases, inl, inr, arith,
}
use coldwatch.Base.Results.{ok, err, Result-cases}
use coldwatch.Match.Block.{Block}
use coldwatch.Match.Index.Contract.{WatchIndex}
use coldwatch.Match.Matcher.{Match}
use coldwatch.Match.Stream.{StreamMessage, StreamIngest, StreamError, Owed, handle, run}
use coldwatch.Subscribe.{
  Subscriber, Envelope, decode_parts, notify, count_malformed, receive, hand_on, after_feed,
  after_receive, feed, drain_socket,
}
use coldwatch.Subscribe.Outcomes.{
  flatten, with_message, messages_of, one_without, undecoded, Refines, recounted, notify_lem,
}

module _ {S F X : Type 0} (decode : List ℕ → Option String) (sha256 : List ℕ → List ℕ)
    (ix : WatchIndex S) (hmac : List ℕ → List ℕ → List ℕ) (k : List ℕ)
    (expand : Option (F → Block → Owed F X)) where
  Refines-nil :
      (handled : ℕ) (s : Subscriber S F)
      → Refines {X = X}
          (ok (flatten s.delivered), s.ingest)
          (ok handled, s)
          (handled + 0)
          (s.malformed_envelopes + 0)
  unfolding Refines
  Refines-nil handled s = (ap ok (omega arith), refl, refl, omega arith)

  drain-none :
      (parts : Envelope) (envelopes : List Envelope) (handled : ℕ) (s : Subscriber S F)
      → decode_parts decode parts ≡ none
      → drain_socket decode sha256 ix hmac k expand (parts ∷ envelopes) handled s
        ≡ drain_socket decode sha256 ix hmac k expand envelopes
            (handled + 1)
            (record s { malformed_envelopes = suc s.malformed_envelopes })
  unfolding drain_socket receive count_malformed after_receive
  drain-none parts envelopes handled s e =
      ap
        (λ (m : Option StreamMessage).
          after_receive (feed decode sha256 ix hmac k expand)
            (drain_socket decode sha256 ix hmac k expand envelopes (handled + 1))
            (count_malformed m s))
        e

  drain-err :
      (parts : Envelope) (message : StreamMessage) (why : StreamError X) (envelopes : List Envelope)
      (handled : ℕ) (s : Subscriber S F)
      → decode_parts decode parts ≡ some message
      → (handle sha256 ix hmac k expand message s.ingest).0 ≡ err why
      → drain_socket decode sha256 ix hmac k expand (parts ∷ envelopes) handled s
        ≡ (err why, record s { ingest = (handle sha256 ix hmac k expand message s.ingest).1 })
  unfolding drain_socket receive count_malformed after_receive after_feed feed hand_on
  drain-err parts message why envelopes handled s e h =
      ap
        (λ (m : Option StreamMessage).
          after_receive (feed decode sha256 ix hmac k expand)
            (drain_socket decode sha256 ix hmac k expand envelopes (handled + 1))
            (count_malformed m s))
        e
      ∙ ap
          (λ r.
            after_feed (drain_socket decode sha256 ix hmac k expand envelopes (handled + 1))
              (hand_on (r, (handle sha256 ix hmac k expand message s.ingest).1) s))
          h

  drain-ok :
      (parts : Envelope) (message : StreamMessage) (found : List Match) (envelopes : List Envelope)
      (handled : ℕ) (s : Subscriber S F)
      → decode_parts decode parts ≡ some message
      → (handle sha256 ix hmac k expand message s.ingest).0 ≡ ok found
      → drain_socket decode sha256 ix hmac k expand (parts ∷ envelopes) handled s
        ≡ drain_socket decode sha256 ix hmac k expand envelopes (handled + 1) (
            notify found
              (record s { ingest = (handle sha256 ix hmac k expand message s.ingest).1 }))
  unfolding drain_socket receive count_malformed after_receive after_feed feed hand_on
  drain-ok parts message found envelopes handled s e h =
      ap
        (λ (m : Option StreamMessage).
          after_receive (feed decode sha256 ix hmac k expand)
            (drain_socket decode sha256 ix hmac k expand envelopes (handled + 1))
            (count_malformed m s))
        e
      ∙ ap
          (λ r.
            after_feed (drain_socket decode sha256 ix hmac k expand envelopes (handled + 1))
              (hand_on (r, (handle sha256 ix hmac k expand message s.ingest).1) s))
          h

  run-err :
      (message : StreamMessage) (messages : List StreamMessage) (why : StreamError X)
      (found : List Match) (j : StreamIngest S F)
      → (handle sha256 ix hmac k expand message j).0 ≡ err why
      → run sha256 ix hmac k expand (message ∷ messages) found j
        ≡ (err why, (handle sha256 ix hmac k expand message j).1)
  unfolding run
  run-err message messages why found j h = rw (run, h) refl

  run-ok :
      (message : StreamMessage) (messages : List StreamMessage) (found new : List Match)
      (j : StreamIngest S F)
      → (handle sha256 ix hmac k expand message j).0 ≡ ok new
      → run sha256 ix hmac k expand (message ∷ messages) found j
        ≡ run sha256 ix hmac k expand messages
            (found ++ new)
            (handle sha256 ix hmac k expand message j).1
  unfolding run
  run-ok message messages found new j h = rw (run, h) refl

  step_none :
      (parts : Envelope) (envelopes : List Envelope) (handled : ℕ) (s : Subscriber S F)
      → decode_parts decode parts ≡ none
      → let t : Subscriber S F = record s { malformed_envelopes = suc s.malformed_envelopes } in
        Refines {X = X}
          (run sha256 ix hmac k expand
            (messages_of decode envelopes)
            (flatten t.delivered)
            t.ingest)
          (drain_socket decode sha256 ix hmac k expand envelopes (handled + 1) t)
          ((handled + 1) + length envelopes)
          (t.malformed_envelopes + undecoded decode envelopes)
        → Refines {X = X}
            (run sha256 ix hmac k expand
              (messages_of decode (parts ∷ envelopes))
              (flatten s.delivered)
              s.ingest)
            (drain_socket decode sha256 ix hmac k expand (parts ∷ envelopes) handled s)
            (handled + length (parts ∷ envelopes))
            (s.malformed_envelopes + undecoded decode (parts ∷ envelopes))
  unfolding messages_of with_message undecoded one_without
  step_none parts envelopes handled s e next =
      rw (drain-none parts envelopes handled s e, messages_of, undecoded, e)
        (recounted _ _ _ _ _ _ _ refl (omega arith) (omega arith) next)

  step_err :
      (parts : Envelope) (message : StreamMessage) (why : StreamError X) (envelopes : List Envelope)
      (handled : ℕ) (s : Subscriber S F)
      → decode_parts decode parts ≡ some message
      → (handle sha256 ix hmac k expand message s.ingest).0 ≡ err why
      → Refines {X = X}
          (run sha256 ix hmac k expand
            (messages_of decode (parts ∷ envelopes))
            (flatten s.delivered)
            s.ingest)
          (drain_socket decode sha256 ix hmac k expand (parts ∷ envelopes) handled s)
          (handled + length (parts ∷ envelopes))
          (s.malformed_envelopes + undecoded decode (parts ∷ envelopes))
  unfolding messages_of with_message undecoded one_without Refines
  step_err parts message why envelopes handled s e h =
      rw
        (
          drain-err parts message why envelopes handled s e h,
          messages_of,
          undecoded,
          e,
          run-err message (messages_of decode envelopes) why (flatten s.delivered) s.ingest h,
        )
        (refl, refl)

  step_ok :
      (parts : Envelope) (message : StreamMessage) (found : List Match) (envelopes : List Envelope)
      (handled : ℕ) (s : Subscriber S F)
      → decode_parts decode parts ≡ some message
      → (handle sha256 ix hmac k expand message s.ingest).0 ≡ ok found
      → let t : Subscriber S F =
          notify found
            (record s { ingest = (handle sha256 ix hmac k expand message s.ingest).1 }) in
        Refines {X = X}
          (run sha256 ix hmac k expand
            (messages_of decode envelopes)
            (flatten t.delivered)
            t.ingest)
          (drain_socket decode sha256 ix hmac k expand envelopes (handled + 1) t)
          ((handled + 1) + length envelopes)
          (t.malformed_envelopes + undecoded decode envelopes)
        → Refines {X = X}
            (run sha256 ix hmac k expand
              (messages_of decode (parts ∷ envelopes))
              (flatten s.delivered)
              s.ingest)
            (drain_socket decode sha256 ix hmac k expand (parts ∷ envelopes) handled s)
            (handled + length (parts ∷ envelopes))
            (s.malformed_envelopes + undecoded decode (parts ∷ envelopes))
  unfolding messages_of with_message undecoded one_without
  step_ok parts message found envelopes handled s e h next =
      let kept : Subscriber S F = record s {
        ingest = (handle sha256 ix hmac k expand message s.ingest).1;
      } in
      let t : Subscriber S F = notify found kept in
      rw
        (
          drain-ok parts message found envelopes handled s e h,
          messages_of,
          undecoded,
          e,
          run-ok message (messages_of decode envelopes) (flatten s.delivered) found s.ingest h,
        )
        (recounted _ _ _ _ _ _ _
          (ap (λ f. run sha256 ix hmac k expand (messages_of decode envelopes) f t.ingest)
              (notify_lem found kept).2
            ∙ ap
                (λ j.
                  run sha256 ix hmac k expand (messages_of decode envelopes)
                    (flatten s.delivered ++ found) j)
                (notify_lem found kept).0)
          (omega arith) (omega (arith, (notify_lem found kept).1)) next)

  -- What draining a socket comes to, by what `run` of its messages does.
  pub drain_socket-Refines :
      (envelopes : List Envelope) (handled : ℕ) (s : Subscriber S F)
      → Refines {X = X}
          (run sha256 ix hmac k expand
            (messages_of decode envelopes)
            (flatten s.delivered)
            s.ingest)
          (drain_socket decode sha256 ix hmac k expand envelopes handled s)
          (handled + length envelopes)
          (s.malformed_envelopes + undecoded decode envelopes)
  unfolding run drain_socket messages_of undecoded
  drain_socket-Refines [] handled s = Refines-nil handled s
  drain_socket-Refines (parts ∷ envelopes) handled s =
      elim (Option-cases (decode_parts decode parts)) [
        | inl e ↦ step_none parts envelopes handled s e (
            drain_socket-Refines envelopes (handled + 1)
              (record s { malformed_envelopes = suc s.malformed_envelopes }))
        | inr (message, e) ↦
            elim (Result-cases (handle sha256 ix hmac k expand message s.ingest).0) [
              | inr (why, h) ↦ step_err parts message why envelopes handled s e h
              | inl (found, h) ↦ step_ok parts message found envelopes handled s e h (
                  drain_socket-Refines envelopes (handled + 1) (
                    notify found
                      (record s { ingest = (handle sha256 ix hmac k expand message s.ingest).1 })))
            ]
      ]
