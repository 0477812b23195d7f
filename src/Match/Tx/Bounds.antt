-- ===== src/Match/Tx/Bounds.antt =====
-- What holds of any transaction that the parser returns, on any bytes.
use coldwatch.Base.{
  ℕ, ◌+◌, ◌*◌, ◌^◌, ◌≤◌, ◌<◌, ◌≡◌, ◌↔◌, refl, Bool, true, false, List, [], ◌∷◌, ltb, ◌==◌,
  if◌then◌else◌, length, All, arith, Bool-cases, inl, inr,
}
use coldwatch.Base.Bytes.{IsBytes}
use coldwatch.Base.Results.{ok, Result-cases}
use coldwatch.Match.Tx.{
  OutPoint, TxOutput, Transaction, skip_witnesses, pure, is_coinbase_of, finish, read_tail,
  read_rest, read_body, read_tx, dsha256, parse_tx, check_end,
}
use coldwatch.Match.Tx.Ensures.{
  Ensures, Within, Ensures-bind, Ensures-pure, Ensures-value, Ensures-raise, Ensures-if,
  Ensures-uint, Ensures-count,
}
use coldwatch.Match.Tx.Loops.{
  IsOutPoint, IsNumbered, Ensures-inputs, Ensures-outputs, Ensures-witnesses, Ensures-tell,
  Ensures-marker,
}

-- What the parser promises of a transaction that it read from `start` to `end`.
pub record IsParsed (sha256 : List ℕ → List ℕ) (buf : List ℕ) (start : ℕ) (tx : Transaction)
    (end : ℕ) : Type 0 where
  pub in_buffer : end ≤ length buf
  pub room : start + 51 + 9 * length tx.outputs ≤ end
  pub inputs : All IsOutPoint tx.inputs
  pub numbered : IsNumbered 0 tx.outputs
  pub coinbase : (tx.is_coinbase ≡ true) ↔ (tx.inputs ≡ [])
  pub hashed : (form : List ℕ) × (tx.txid ≡ dsha256 sha256 form)

kept_inputs :
    (c : Bool) (ops : List OutPoint) → 0 < length ops → (c ≡ true) ↔ ((if c then [] else ops) ≡ [])
kept_inputs true ops h = (λ _. refl, λ _. refl)
kept_inputs false (op ∷ ops) h = (λ e. cc, λ e. cc)
kept_inputs false [] h = elim h [ ]

kept_outpoints :
    (c : Bool) (ops : List OutPoint) → All IsOutPoint ops → All IsOutPoint (if c then [] else ops)
kept_outpoints true ops h = tt
kept_outpoints false ops h = h

module _ (sha256 : List ℕ → List ℕ) {buf : List ℕ} (bytes : IsBytes buf) (start : ℕ) where
  Ensures-finish :
      (pos : ℕ) (seg : Bool) (ops : List OutPoint) (outs : List TxOutput) (ws ls end : ℕ)
      → pos ≤ length buf
      → start + 51 + 9 * length outs ≤ pos
      → 0 < length ops
      → All IsOutPoint ops
      → IsNumbered 0 outs
      → Ensures buf pos (finish sha256 start seg ops outs ws ls end) (IsParsed sha256 buf start)
  unfolding finish
  Ensures-finish pos seg ops outs ws ls end here room some_input outpoints numbered =
      Ensures-value _ pos refl (record {
        in_buffer = here;
        room = room;
        inputs = kept_outpoints (is_coinbase_of ops) ops outpoints;
        numbered = numbered;
        coinbase = kept_inputs (is_coinbase_of ops) ops some_input;
        hashed = (_, refl);
      })

  Ensures-section :
      (pos n : ℕ) (seg : Bool)
      → pos ≤ length buf
      → Ensures buf pos (if seg then skip_witnesses n else pure tt) λ _ p. Within buf pos 0 p
  Ensures-section pos n seg here =
      Ensures-if seg (λ _. Ensures-witnesses bytes n pos here) (λ _. Ensures-pure (omega arith))

  Ensures-tail :
      (pos n : ℕ) (seg : Bool) (ops : List OutPoint) (outs : List TxOutput) (ws : ℕ)
      → pos ≤ length buf
      → start + 47 + 9 * length outs ≤ pos
      → 0 < length ops
      → All IsOutPoint ops
      → IsNumbered 0 outs
      → Ensures buf pos (read_tail sha256 start seg n ops outs ws) (IsParsed sha256 buf start)
  unfolding read_tail
  Ensures-tail pos n seg ops outs ws here room some_input outpoints numbered =
      Ensures-bind (λ _ p. Within buf pos 0 p) (Ensures-section pos n seg here)
        λ _ p h.
          Ensures-bind (λ m q. (m ≡ p) × (q ≡ p)) (Ensures-tell bytes p)
            λ ls q k.
              Ensures-bind (λ v e. (v < 256 ^ 4) × (e ≡ q + 4) × (e ≤ length buf))
                (Ensures-uint q 4 bytes)
                λ lock e m.
                  Ensures-bind (λ n s. (n ≡ e) × (s ≡ e)) (Ensures-tell bytes e)
                    λ end s o.
                      Ensures-finish s seg ops outs ws ls end (omega arith) (omega arith) some_input
                        outpoints numbered

  Ensures-rest :
      (pos n : ℕ) (seg : Bool)
      → start + 5 ≤ pos
      → pos ≤ length buf
      → 0 < n
      → Ensures buf pos (read_rest sha256 start seg n) (IsParsed sha256 buf start)
  unfolding read_rest
  Ensures-rest pos n seg above here some_input =
      Ensures-bind (λ ops p. (length ops ≡ n) × All IsOutPoint ops × Within buf pos (41 * n) p)
        (Ensures-inputs bytes n pos here)
        λ ops p h.
          Ensures-bind (λ k q. (k * 9 + q ≤ length buf) × (k < 2 ^ 64) × Within buf p 1 q)
            (Ensures-count p 9 bytes)
            λ k q c.
              Ensures-bind
                (λ outs s. (length outs ≡ k) × IsNumbered 0 outs × Within buf q (9 * k) s)
                (Ensures-outputs bytes k 0 q (omega arith))
                λ outs s o.
                  Ensures-bind (λ m e. (m ≡ s) × (e ≡ s)) (Ensures-tell bytes s)
                    λ ws e w.
                      Ensures-tail e n seg ops outs ws (omega arith) (omega arith) (omega arith) h.1
                        o.1

  Ensures-body :
      start ≤ length buf → Ensures buf start (read_body sha256 start) (IsParsed sha256 buf start)
  unfolding read_body
  Ensures-body here =
      Ensures-bind (λ v p. (v < 256 ^ 4) × (p ≡ start + 4) × (p ≤ length buf))
        (Ensures-uint start 4 bytes)
        λ version p h.
          Ensures-bind (λ _ q. Within buf p 0 q) (Ensures-marker bytes p start (omega arith))
            λ seg q k.
              Ensures-bind (λ n s. (n * 41 + s ≤ length buf) × (n < 2 ^ 64) × Within buf q 1 s)
                (Ensures-count q 41 bytes)
                λ n s c.
                  Ensures-if (n == 0) (λ _. Ensures-raise)
                    (λ e. Ensures-rest s n seg (omega arith) (omega arith) (ground arith))

  -- Whatever the bytes, a transaction that `read_tx` returns lies in the buffer and takes 51 bytes
  -- and 9 for each output, its outpoints have 32 bytes and a 32-bit index, its outputs are numbered
  -- from 0, it is a coinbase exactly if it has no inputs, and its txid is a double hash.
  pub read_tx-IsParsed :
      (tx : Transaction) (end : ℕ)
      → read_tx sha256 buf start ≡ ok (tx, end)
      → IsParsed sha256 buf start tx end
  unfolding read_tx
  read_tx-IsParsed tx end e = elim (Bool-cases (ltb (length buf) start)) [
    | inl past ↦ cc (rw (past, read_tx) at e)
    | inr here ↦ (Ensures-body (ground arith)).holds tx end (rw (here, read_tx) at e)
  ]

-- The same of a transaction that `parse_tx` returns.
pub parse_tx-IsParsed :
    (sha256 : List ℕ → List ℕ) {raw : List ℕ} (tx : Transaction)
    → IsBytes raw
    → parse_tx sha256 raw ≡ ok tx
    → (end : ℕ) × IsParsed sha256 raw 0 tx end
unfolding parse_tx check_end
parse_tx-IsParsed sha256 {raw} tx bytes parsed = elim (Result-cases (read_tx sha256 raw 0)) [
  | inr (e, q) ↦ cc (rw (q, parse_tx) at parsed)
  | inl ((t, end), q) ↦
      let same : t ≡ tx = ground (arith, rw (q, parse_tx, check_end) at parsed) in
      (end, rw (← same) (read_tx-IsParsed sha256 bytes 0 t end q))
]
