-- ===== src/Match/Tx/Ensures.antt =====
-- Postconditions of the reader: what holds of a value and a position that a method returns.
use coldwatch.Base.{
  ℕ, ◌+◌, ◌-◌, ◌*◌, ◌^◌, ◌≤◌, ◌<◌, ◌≡◌, refl, Bool, true, false, List, [], ◌∷◌, ltb, ◌==◌,
  if◌then◌else◌, length, All-take, All-drop, length-take, length-drop, drop, arith, get_or,
}
use mathlib.Core.Path.{subst₂}
use coldwatch.Base.Bytes.{IsByte, IsBytes, from_le-lt}
use coldwatch.Base.Results.{Result, ok, err}
use coldwatch.Match.Tx.{
  Reader, ◌>>=◌, MalformedTransaction, take_bytes, uint, varint, varint_from, count, check_count,
  sized_bytes, pure, raise, slice,
}

-- If `m` returns at `pos`, `P` holds of its value and of the position that it leaves.
pub record Ensures {A : Type 0} (buf : List ℕ) (pos : ℕ) (m : Reader A) (P : A → ℕ → Type 0)
    : Type 0 where
  pub holds : (a : A) (p : ℕ) → m buf pos ≡ ok (a, p) → P a p

-- `p` is at least `n` bytes behind `pos`, and in the buffer.
abbrev pub Within : List ℕ → ℕ → ℕ → ℕ → Type 0
Within buf pos n p = (pos + n ≤ p) × (p ≤ length buf)

bind_holds :
    {A B : Type 0} (P : A → ℕ → Type 0) (Q : B → ℕ → Type 0) (buf : List ℕ) (f : A → Reader B)
    (x : Result MalformedTransaction (A × ℕ))
    → ((a : A) (p : ℕ) → x ≡ ok (a, p) → P a p)
    → ((a : A) (p : ℕ) → P a p → Ensures buf p (f a) Q)
    → (b : B) (q : ℕ)
    → elim x as (λ _. Result MalformedTransaction (B × ℕ)) [ err e ↦ err e | ok (a, p) ↦ f a buf p ]
      ≡ ok (b, q)
    → Q b q
bind_holds P Q buf f (ok (a, p)) hm hf b q e = (hf a p (hm a p refl)).holds b q e
bind_holds P Q buf f (err x) hm hf b q e = cc

module _ {buf : List ℕ} where
  pub Ensures-bind :
      {A B : Type 0} {pos : ℕ} {m : Reader A} {f : A → Reader B} (P : A → ℕ → Type 0)
      {Q : B → ℕ → Type 0}
      → Ensures buf pos m P
      → ((a : A) (p : ℕ) → P a p → Ensures buf p (f a) Q)
      → Ensures buf pos (m >>= f) Q
  Ensures-bind {pos = pos} {m = m} {f = f} P {Q} hm hf = record {
    holds = bind_holds P Q buf f (m buf pos) hm.holds hf;
  }

  pub Ensures-weaken :
      {A : Type 0} {pos : ℕ} {m : Reader A} (P : A → ℕ → Type 0) {Q : A → ℕ → Type 0}
      → Ensures buf pos m P
      → ((a : A) (p : ℕ) → P a p → Q a p)
      → Ensures buf pos m Q
  Ensures-weaken P h k = record { holds = λ a p e. k a p (h.holds a p e) }

  pub Ensures-pure :
      {A : Type 0} {pos : ℕ} {a : A} {Q : A → ℕ → Type 0} → Q a pos → Ensures buf pos (pure a) Q
  Ensures-pure {a = a} {Q} q = record { holds = λ b p e. subst₂ Q (cc) (cc) q }

  -- A method whose outcome is known.
  pub Ensures-value :
      {A : Type 0} {pos : ℕ} {m : Reader A} (a : A) (q : ℕ) {Q : A → ℕ → Type 0}
      → m buf pos ≡ ok (a, q)
      → Q a q
      → Ensures buf pos m Q
  Ensures-value a q {Q} known h = record { holds = λ b p e. subst₂ Q (cc) (cc) h }

  pub Ensures-raise :
      {A : Type 0} {pos : ℕ} {e : MalformedTransaction} {Q : A → ℕ → Type 0}
      → Ensures buf pos (raise e) Q
  Ensures-raise = record { holds = λ b p e. cc }

  pub Ensures-if :
      {A : Type 0} {pos : ℕ} {m n : Reader A} {Q : A → ℕ → Type 0} (b : Bool)
      → (b ≡ true → Ensures buf pos m Q)
      → (b ≡ false → Ensures buf pos n Q)
      → Ensures buf pos (if b then m else n) Q
  Ensures-if true hm hn = hm refl
  Ensures-if false hm hn = hn refl

  pub Ensures-take :
      (pos n : ℕ)
      → IsBytes buf
      → Ensures buf pos
          (take_bytes n)
          λ l p. (length l ≡ n) × IsBytes l × (p ≡ pos + n) × Within buf pos n p
  unfolding take_bytes
  Ensures-take pos n bytes = record {
    holds = λ l p e.
        let fits : pos + n ≤ length buf = ground arith in
        let piece : slice buf pos (pos + n) ≡ l = ground arith in
        let end : p ≡ pos + n = ground arith in
        (
          rw (← piece, length-take, length-drop) (omega arith),
          rw (← piece)
              (All-take IsByte (pos + n - pos) (drop pos buf) (All-drop IsByte pos buf bytes)),
          end,
          omega arith,
        );
  }

  -- An unsigned field of `k` bytes.
  pub Ensures-uint :
      (pos k : ℕ)
      → IsBytes buf
      → Ensures buf pos (uint k) λ v p. (v < 256 ^ k) × (p ≡ pos + k) × (p ≤ length buf)
  unfolding uint
  Ensures-uint pos k bytes =
      Ensures-bind (λ l p. (length l ≡ k) × IsBytes l × (p ≡ pos + k) × Within buf pos k p)
        (Ensures-take pos k bytes)
        (λ l p (len, bs, at, w). Ensures-pure (rw len at (from_le-lt l bs), at, w.1))

  Ensures-varint_from :
      (pos first : ℕ)
      → first < 256
      → pos ≤ length buf
      → IsBytes buf
      → Ensures buf pos (varint_from first) λ v p. (v < 2 ^ 64) × Within buf pos 0 p
  unfolding varint_from
  Ensures-varint_from pos first small here bytes =
      Ensures-if (ltb first 0xFD) (λ _. Ensures-pure (omega arith, omega arith))
        λ _.
          Ensures-if (first == 0xFD) (λ _. wide 2 (omega arith))
            λ _. Ensures-if (first == 0xFE) (λ _. wide 4 (omega arith)) (λ _. wide 8 (omega arith))
    where
      wide :
          (k : ℕ)
          → 256 ^ k ≤ 2 ^ 64
          → Ensures buf pos (uint k) λ v p. (v < 2 ^ 64) × Within buf pos 0 p
      wide k h =
          Ensures-weaken (λ v p. (v < 256 ^ k) × (p ≡ pos + k) × (p ≤ length buf))
            (Ensures-uint pos k bytes) (λ v p q. (omega arith, omega arith))

  pub Ensures-varint :
      (pos : ℕ) → IsBytes buf → Ensures buf pos varint λ v p. (v < 2 ^ 64) × Within buf pos 1 p
  unfolding varint
  Ensures-varint pos bytes =
      Ensures-bind (λ l p. (length l ≡ 1) × IsBytes l × (p ≡ pos + 1) × Within buf pos 1 p)
        (Ensures-take pos 1 bytes)
        λ l p q.
          Ensures-weaken (λ v p'. (v < 2 ^ 64) × Within buf p 0 p')
            (Ensures-varint_from p (get_or l 0 0) (head_byte l q.1) (omega arith) bytes)
            (λ v p' w. (omega arith, omega arith))
    where
      head_byte : (l : List ℕ) → IsBytes l → get_or l 0 0 < 256
      head_byte [] h = omega arith
      head_byte (b ∷ bs) h = h.0

  -- A count leaves room for as many items of the least size.
  pub Ensures-count :
      (pos least : ℕ)
      → IsBytes buf
      → Ensures buf pos
          (count least)
          λ n p. (n * least + p ≤ length buf) × (n < 2 ^ 64) × Within buf pos 1 p
  unfolding count check_count
  Ensures-count pos least bytes =
      Ensures-bind (λ v p. (v < 2 ^ 64) × Within buf pos 1 p) (Ensures-varint pos bytes)
        λ v p q. record { holds = λ n p' e. ground arith }

  pub Ensures-sized :
      (pos : ℕ) → IsBytes buf → Ensures buf pos sized_bytes λ l p. IsBytes l × Within buf pos 1 p
  unfolding sized_bytes
  Ensures-sized pos bytes =
      Ensures-bind (λ n p. (n * 1 + p ≤ length buf) × (n < 2 ^ 64) × Within buf pos 1 p)
        (Ensures-count pos 1 bytes)
        λ n p q.
          Ensures-weaken (λ l p'. (length l ≡ n) × IsBytes l × (p' ≡ p + n) × Within buf p n p')
            (Ensures-take p n bytes) (λ l p' w. (w.1, omega arith))
