-- ===== src/Match/Block/Errors.antt =====
-- The errors of `parse_block`.
use coldwatch.Base.{
  ℕ, zero, suc, ◌+◌, ◌≤◌, ◌<◌, ◌≡◌, ◌≢◌, ◌↔◌, List, ◌∷◌, ltb, ◌==◌, if◌then◌else◌, length, get_or,
  arith, Bool-cases, inl, inr,
}
use coldwatch.Base.Results.{ok, err, Result-cases, >>=-ne-err, >>=-eq-err}
use coldwatch.Match.Tx.{read_tx}
use coldwatch.Match.Block.{
  struct_error, header_size, unpack_from, wide_count, count_from, read_count, read_transactions,
  close_block, read_counted, parse_block,
}

-- How many bytes the count takes behind its first.
abbrev pub count_width : ℕ → ℕ
count_width first =
    if ltb first 0xFD then 0 else if first == 0xFD then 2 else if first == 0xFE then 4 else 8

wide_count-struct_error :
    (width : ℕ) (raw : List ℕ) (pos : ℕ)
    → (wide_count width raw pos ≡ err struct_error) ↔ (length raw < pos + 1 + width)
unfolding wide_count unpack_from
wide_count-struct_error width raw pos = (λ e. ground arith, λ h. ground arith)

count_from-struct_error :
    (first : ℕ) (raw : List ℕ) (pos : ℕ)
    → (count_from first raw pos ≡ err struct_error)
      ↔ ((0xFD ≤ first) × (length raw < pos + 1 + count_width first))
unfolding count_from
count_from-struct_error first raw pos = elim (Bool-cases (ltb first 0xFD)) [
  | inl small ↦ rw small ((λ e. cc), λ h. absurd (ground (arith, h.0)))
  | inr l ↦ elim (Bool-cases (first == 0xFD)) [
    | inl two ↦ rw (l, two) (with_width (ground arith) (wide_count-struct_error 2 raw pos))
    | inr l' ↦ elim (Bool-cases (first == 0xFE)) [
      | inl four ↦ rw (l, l', four) (with_width (ground arith) (wide_count-struct_error 4 raw pos))
      | inr l'' ↦ rw (l, l', l'') (with_width (ground arith) (wide_count-struct_error 8 raw pos))
    ]
  ]
]
  where
    with_width : {P Q : Type 0} → 0xFD ≤ first → P ↔ Q → P ↔ ((0xFD ≤ first) × Q)
    with_width h (f, g) = (λ p. (h, f p), λ q. g q.1)

module _ (sha256 : List ℕ → List ℕ) where
  read_transactions-ne-struct_error :
      (n : ℕ) (raw : List ℕ) (pos : ℕ) → read_transactions sha256 n raw pos ≢ err struct_error
  unfolding read_transactions
  read_transactions-ne-struct_error zero raw pos = λ e. cc
  read_transactions-ne-struct_error (suc n) raw pos = elim (Result-cases (read_tx sha256 raw pos)) [
    | inl ((tx, next), e) ↦
        rw (e, read_transactions)
          (>>=-ne-err (read_transactions sha256 n raw next) (λ (txs, end). ok (tx ∷ txs, end))
            struct_error (read_transactions-ne-struct_error n raw next) (λ _ q. cc))
    | inr (x, e) ↦ rw (e, read_transactions) (λ q. cc)
  ]

  read_counted-ne-struct_error :
      (raw : List ℕ) (p : ℕ × ℕ) → read_counted sha256 raw p ≢ err struct_error
  unfolding read_counted close_block
  read_counted-ne-struct_error raw (n, pos) q =
      >>=-ne-err (read_transactions sha256 n raw pos) (close_block sha256 raw) struct_error
        (read_transactions-ne-struct_error n raw pos) (λ (txs, end) k. ground arith) (ground arith)

  -- `struct.error` comes out exactly of a buffer that holds a header and a first byte of the count
  -- from 0xFD on, and ends inside the field that this byte announces.
  pub parse_block-struct_error :
      (raw : List ℕ)
      → (parse_block sha256 raw ≡ err struct_error) ↔ (
          (header_size < length raw)
          × (0xFD ≤ get_or raw header_size 0)
          × (length raw < header_size + 1 + count_width (get_or raw header_size 0)))
  unfolding parse_block read_count
  parse_block-struct_error raw =
      let (bind_raises, raises_bind) =
        >>=-eq-err (read_count raw header_size) (read_counted sha256 raw) struct_error
          (read_counted-ne-struct_error raw) in
      let (there, back) = count_from-struct_error (get_or raw header_size 0) raw header_size in
      elim (Bool-cases (ltb (length raw) (header_size + 1))) [
        | inl short ↦ (λ e. cc (rw (short, parse_block) at e), λ h. absurd (ground (arith, h.0)))
        | inr long ↦ (
          λ e.
              let (a, b) = there (bind_raises (rw (long, parse_block) at e)) in
              (ground arith, a, b),
          λ h. rw (long, parse_block) (raises_bind (back (h.1, h.2))),
        )
      ]
