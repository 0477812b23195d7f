-- ===== src/Subscribe/Passes.antt =====
-- A pass over both sockets against the ingest's own `run`.
use coldwatch.Base.{
  ℕ, ◌+◌, ◌≡◌, refl, subst, String, Option, none, some, List, [], ◌∷◌, ◌++◌, length, length-append,
  arith,
}
use coldwatch.Base.Results.{Result, ok, err}
use coldwatch.Match.Block.{Block}
use coldwatch.Match.Index.Contract.{WatchIndex}
use coldwatch.Match.Stream.{StreamMessage, StreamError, Owed, run}
use coldwatch.Subscribe.{
  Subscriber, Envelope, receive, after_feed, after_receive, feed, drain_socket, drain_next,
  poll_once,
}
use coldwatch.Subscribe.Outcomes.{flatten, messages_of, undecoded, Refines, recounted}
use coldwatch.Subscribe.Drain.{drain_socket-Refines}

module _ {S F X : Type 0} (decode : List ℕ → Option String) (sha256 : List ℕ → List ℕ)
    (ix : WatchIndex S) (hmac : List ℕ → List ℕ → List ℕ) (k : List ℕ)
    (expand : Option (F → Block → Owed F X)) where
  after_feed-next :
      (ys : List Envelope) (go go' : Subscriber S F → Result (StreamError X) ℕ × Subscriber S F)
      (r : Result (StreamError X) Unit × Subscriber S F)
      → ((s : Subscriber S F) → go' s ≡ drain_next decode sha256 ix hmac k expand ys (go s))
      → after_feed go' r ≡ drain_next decode sha256 ix hmac k expand ys (after_feed go r)
  unfolding after_feed drain_next
  after_feed-next ys go go' (err e, s) h = refl
  after_feed-next ys go go' (ok _, s) h = h s

  after_receive-next :
      (ys : List Envelope) (go go' : Subscriber S F → Result (StreamError X) ℕ × Subscriber S F)
      (m : Option StreamMessage × Subscriber S F)
      → ((s : Subscriber S F) → go' s ≡ drain_next decode sha256 ix hmac k expand ys (go s))
      → after_receive (feed decode sha256 ix hmac k expand) go' m
        ≡ drain_next decode sha256 ix hmac k expand ys
            (after_receive (feed decode sha256 ix hmac k expand) go m)
  unfolding after_receive
  after_receive-next ys go go' (none, s) h = h s
  after_receive-next ys go go' (some message, s) h =
      after_feed-next ys go go' (feed decode sha256 ix hmac k expand message s) h

  -- Draining two sockets in a row is draining what both give.
  drain_socket-append :
      (xs ys : List Envelope) (handled : ℕ) (s : Subscriber S F)
      → drain_socket decode sha256 ix hmac k expand (xs ++ ys) handled s
        ≡ drain_next decode sha256 ix hmac k expand ys
            (drain_socket decode sha256 ix hmac k expand xs handled s)
  unfolding drain_socket drain_next
  drain_socket-append [] ys handled s = refl
  drain_socket-append (parts ∷ xs) ys handled s =
      after_receive-next ys (drain_socket decode sha256 ix hmac k expand xs (handled + 1))
        (drain_socket decode sha256 ix hmac k expand (xs ++ ys) (handled + 1))
        (receive decode parts s) (drain_socket-append xs ys (handled + 1))

  -- A pass over both sockets does to the ingest what `run` of the messages in the envelopes does, those of
  -- the block socket first, and hands the callback all that it returns: `poll_once` then returns the
  -- number of envelopes and has counted those that hold no message; where `run` raises, `poll_once`
  -- raises the same.
  pub poll_once-Refines :
      (blocks txs : List Envelope) (s : Subscriber S F)
      → Refines {X = X}
          (run sha256 ix hmac k expand
            (messages_of decode (blocks ++ txs))
            (flatten s.delivered)
            s.ingest)
          (poll_once decode sha256 ix hmac k expand blocks txs s)
          (length blocks + length txs)
          (s.malformed_envelopes + undecoded decode (blocks ++ txs))
  unfolding poll_once
  poll_once-Refines blocks txs s =
      subst
        (λ (out : Result (StreamError X) ℕ × Subscriber S F).
          Refines
            (run sha256 ix hmac k expand (messages_of decode (blocks ++ txs)) (flatten s.delivered)
              s.ingest)
            out (length blocks + length txs)
            (s.malformed_envelopes + undecoded decode (blocks ++ txs)))
        (drain_socket-append blocks txs 0 s)
        (recounted _ _ _ _ _ _ _ refl (omega (arith, length-append blocks txs)) refl
          (drain_socket-Refines decode sha256 ix hmac k expand (blocks ++ txs) 0 s))
