-- ===== src/Subscribe/Outcomes.antt =====
-- What a pass over the sockets comes to, against the ingest's own `run`.
use coldwatch.Base.{
  ℕ, ◌+◌, ◌≡◌, refl, sym, ◌∙◌, ap, String, Option, none, some, List, [], ◌∷◌, ◌++◌, append_assoc,
  append-nil,
}
use coldwatch.Base.Results.{Result, ok, err}
use coldwatch.Match.Matcher.{Match}
use coldwatch.Match.Stream.{StreamMessage, StreamError, Outcome}
use coldwatch.Subscribe.{Subscriber, Envelope, decode_parts, notify}

-- All that was handed to the callback.
unfoldable pub flatten : List (List Match) → List Match
flatten [] = []
flatten (found ∷ more) = found ++ flatten more

unfoldable pub with_message : Option StreamMessage → List StreamMessage → List StreamMessage
with_message none messages = messages
with_message (some message) messages = message ∷ messages

-- The messages in some envelopes, and the number of those that hold none.
unfoldable pub messages_of : (List ℕ → Option String) → List Envelope → List StreamMessage
messages_of decode [] = []
messages_of decode (parts ∷ envelopes) =
    with_message (decode_parts decode parts) (messages_of decode envelopes)

unfoldable pub one_without : Option StreamMessage → ℕ
one_without none = 1
one_without (some message) = 0

unfoldable pub undecoded : (List ℕ → Option String) → List Envelope → ℕ
undecoded decode [] = 0
undecoded decode (parts ∷ envelopes) =
    one_without (decode_parts decode parts) + undecoded decode envelopes

flatten-append :
    (xs : List (List Match)) (found : List Match) → flatten (xs ++ found ∷ []) ≡ flatten xs ++ found
unfolding flatten
flatten-append [] found = append-nil found
flatten-append (x ∷ xs) found =
    ap (λ t. x ++ t) (flatten-append xs found) ∙ sym (append_assoc x (flatten xs) found)

module _ {S F X : Type 0} where
  -- What draining comes to, where the ingest's own `run` of the messages comes to the first outcome.
  unfoldable pub Refines :
      Outcome X S F (List Match) → Result (StreamError X) ℕ × Subscriber S F → ℕ → ℕ → Type 0
  Refines (ok all, ingest) out handled malformed =
      (out.0 ≡ ok handled)
      × (out.1.ingest ≡ ingest)
      × (flatten out.1.delivered ≡ all)
      × (out.1.malformed_envelopes ≡ malformed)
  Refines (err e, ingest) out handled malformed = (out.0 ≡ err e) × (out.1.ingest ≡ ingest)

module _ {S F X : Type 0} where
  pub recounted :
      (o o' : Outcome X S F (List Match)) (out : Result (StreamError X) ℕ × Subscriber S F)
      (n n' m m' : ℕ)
      → o ≡ o'
      → n ≡ n'
      → m ≡ m'
      → Refines o out n m
      → Refines o' out n' m'
  recounted o o' out n n' m m' e f g r = rw (sym e, sym f, sym g) r

module _ {S F : Type 0} where
  pub notify_lem :
      (found : List Match) (s : Subscriber S F)
      → ((notify found s).ingest ≡ s.ingest)
        × ((notify found s).malformed_envelopes ≡ s.malformed_envelopes)
        × (flatten (notify found s).delivered ≡ flatten s.delivered ++ found)
  unfolding notify
  notify_lem [] s = (refl, refl, sym (append-nil (flatten s.delivered)))
  notify_lem (m ∷ more) s = (refl, refl, flatten-append s.delivered (m ∷ more))
