-- ===== src/Match/Tx/Loops.antt =====
-- Postconditions of the loops of `read_tx`, on any bytes.
use coldwatch.Base.{
  ℕ, zero, suc, ◌+◌, ◌*◌, ◌^◌, ◌≤◌, ◌<◌, ◌≡◌, refl, ap, List, [], ◌∷◌, length, All, arith,
}
use coldwatch.Base.Bytes.{IsBytes}
use coldwatch.Match.Tx.{
  OutPoint, TxOutput, read_input, read_inputs, read_output, read_outputs, take_bytes, skip_items,
  skip_witness, skip_witnesses, marker, tell,
}
use coldwatch.Match.Tx.Ensures.{
  Ensures, Within, Ensures-bind, Ensures-weaken, Ensures-pure, Ensures-take, Ensures-uint,
  Ensures-count, Ensures-sized,
}

-- An outpoint that `canonical_outpoint` accepts.
abbrev pub IsOutPoint : OutPoint → Type 0
IsOutPoint op = (length op.txid ≡ 32) × (op.vout < 2 ^ 32)

-- Outputs numbered from `n` on.
abbrev pub IsNumbered : ℕ → List TxOutput → Type 0
IsNumbered n [] = Unit
IsNumbered n (o ∷ os) = (o.vout ≡ n) × IsNumbered (n + 1) os

module _ {buf : List ℕ} (bytes : IsBytes buf) where
  Ensures-input : (pos : ℕ) → Ensures buf pos read_input λ op p. IsOutPoint op × Within buf pos 41 p
  unfolding read_input
  Ensures-input pos =
      Ensures-bind (λ l p. (length l ≡ 32) × IsBytes l × (p ≡ pos + 32) × Within buf pos 32 p)
        (Ensures-take pos 32 bytes)
        λ txid p h.
          Ensures-bind (λ v q. (v < 256 ^ 4) × (q ≡ p + 4) × (q ≤ length buf))
            (Ensures-uint p 4 bytes)
            λ vout q k.
              Ensures-bind (λ l s. IsBytes l × Within buf q 1 s) (Ensures-sized q bytes)
                λ script s m.
                  Ensures-bind (λ v e. (v < 256 ^ 4) × (e ≡ s + 4) × (e ≤ length buf))
                    (Ensures-uint s 4 bytes)
                    λ sequence e o. Ensures-pure ((h.0, omega arith), omega arith)

  pub Ensures-inputs :
      (n pos : ℕ)
      → pos ≤ length buf
      → Ensures buf pos
          (read_inputs n)
          λ ops p. (length ops ≡ n) × All IsOutPoint ops × Within buf pos (41 * n) p
  unfolding read_inputs
  Ensures-inputs zero pos here = Ensures-pure (refl, tt, omega arith)
  Ensures-inputs (suc n) pos here =
      Ensures-bind (λ op p. IsOutPoint op × Within buf pos 41 p) (Ensures-input pos)
        λ op p h.
          Ensures-bind (λ ops q. (length ops ≡ n) × All IsOutPoint ops × Within buf p (41 * n) q)
            (Ensures-inputs n p (omega arith))
            λ ops q k. Ensures-pure (ap suc k.0, (h.0, k.1), omega arith)

  Ensures-output :
      (n pos : ℕ) → Ensures buf pos (read_output n) λ o p. (o.vout ≡ n) × Within buf pos 9 p
  unfolding read_output
  Ensures-output n pos =
      Ensures-bind (λ l p. (length l ≡ 8) × IsBytes l × (p ≡ pos + 8) × Within buf pos 8 p)
        (Ensures-take pos 8 bytes)
        λ value p h.
          Ensures-bind (λ l q. IsBytes l × Within buf p 1 q) (Ensures-sized p bytes)
            λ spk q k. Ensures-pure (refl, omega arith)

  pub Ensures-outputs :
      (n k pos : ℕ)
      → pos ≤ length buf
      → Ensures buf pos
          (read_outputs n k)
          λ outs p. (length outs ≡ n) × IsNumbered k outs × Within buf pos (9 * n) p
  unfolding read_outputs
  Ensures-outputs zero k pos here = Ensures-pure (refl, tt, omega arith)
  Ensures-outputs (suc n) k pos here =
      Ensures-bind (λ o p. (o.vout ≡ k) × Within buf pos 9 p) (Ensures-output k pos)
        λ o p h.
          Ensures-bind (λ os q. (length os ≡ n) × IsNumbered (k + 1) os × Within buf p (9 * n) q)
            (Ensures-outputs n (k + 1) p (omega arith))
            λ os q m. Ensures-pure (ap suc m.0, (h.0, m.1), omega arith)

  Ensures-items :
      (n pos : ℕ) → pos ≤ length buf → Ensures buf pos (skip_items n) λ _ p. Within buf pos 0 p
  unfolding skip_items
  Ensures-items zero pos here = Ensures-pure (omega arith)
  Ensures-items (suc n) pos here =
      Ensures-bind (λ l p. IsBytes l × Within buf pos 1 p) (Ensures-sized pos bytes)
        λ l p h.
          Ensures-weaken (λ _ q. Within buf p 0 q) (Ensures-items n p (omega arith))
            (λ _ q k. omega arith)

  Ensures-witness : (pos : ℕ) → Ensures buf pos skip_witness λ _ p. Within buf pos 0 p
  unfolding skip_witness
  Ensures-witness pos =
      Ensures-bind (λ n p. (n * 1 + p ≤ length buf) × (n < 2 ^ 64) × Within buf pos 1 p)
        (Ensures-count pos 1 bytes)
        λ n p h.
          Ensures-weaken (λ _ q. Within buf p 0 q) (Ensures-items n p (omega arith))
            (λ _ q k. omega arith)

  pub Ensures-witnesses :
      (n pos : ℕ) → pos ≤ length buf → Ensures buf pos (skip_witnesses n) λ _ p. Within buf pos 0 p
  unfolding skip_witnesses
  Ensures-witnesses zero pos here = Ensures-pure (omega arith)
  Ensures-witnesses (suc n) pos here =
      Ensures-bind (λ _ p. Within buf pos 0 p) (Ensures-witness pos)
        λ _ p h.
          Ensures-weaken (λ _ q. Within buf p 0 q) (Ensures-witnesses n p (omega arith))
            (λ _ q k. omega arith)

  pub Ensures-tell : (pos : ℕ) → Ensures buf pos tell λ n p. (n ≡ pos) × (p ≡ pos)
  Ensures-tell pos = record { holds = λ n p e. (cc, cc) }

  pub Ensures-marker :
      (pos start : ℕ) → pos ≤ length buf → Ensures buf pos (marker start) λ _ p. Within buf pos 0 p
  unfolding marker take_bytes
  Ensures-marker pos start here = record { holds = λ b p e. ground arith }
