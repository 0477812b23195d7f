-- ===== src/Match/Tx/Reads.antt =====
-- A calculus for the reader: what a method returns where its buffer goes on with given bytes.
use coldwatch.Base.{
  ℕ, ◌+◌, ◌-◌, ◌*◌, ◌^◌, ◌≤◌, ◌<◌, ◌≡◌, refl, sym, ap, ◌∙◌, subst, List, [], ◌∷◌, ◌++◌, ltb, length,
  get_or, drop, length-append, take-append, drop-append, drop-drop, append_assoc, arith,
  le→ltb_false, Bool-cases, inl, inr,
}
use coldwatch.Base.Bytes.{from_le, to_le, length-to_le, from_le-to_le}
use coldwatch.Base.Results.{ok}
use coldwatch.Match.Tx.{
  Reader, ◌>>=◌, pure, slice, take_bytes, uint, varint, varint_from, check_count, count,
  sized_bytes,
}
use coldwatch.Match.Tx.Wire.{encode_varint, encode_sized}

-- The buffer goes on with `r` at `pos`, to its end.
pub record Rest (buf : List ℕ) (pos : ℕ) (r : List ℕ) : Type 0 where
  pub follows : drop pos buf ≡ r
  pub fits : pos + length r ≡ length buf

-- Where the buffer goes on with `bs` and then `r`, `m` returns `a` just behind `bs`.
pub record Reads {A : Type 0} (buf : List ℕ) (pos : ℕ) (r : List ℕ) (m : Reader A) (bs : List ℕ)
    (a : A) : Type 0 where
  pub run : Rest buf pos (bs ++ r) → m buf pos ≡ ok (a, pos + length bs)

module _ {buf : List ℕ} where
  pub Rest-advance :
      {pos : ℕ} (bs r : List ℕ) → Rest buf pos (bs ++ r) → Rest buf (pos + length bs) r
  Rest-advance {pos} bs r h = record {
    follows = sym (drop-drop pos (length bs) buf) ∙ rw h.follows (drop-append bs r);
    fits = omega (arith, h.fits, length-append bs r);
  }

  pub Rest-slice :
      {pos : ℕ} (bs r : List ℕ) → Rest buf pos (bs ++ r) → slice buf pos (pos + length bs) ≡ bs
  Rest-slice {pos} bs r h =
      let width : pos + length bs - pos ≡ length bs = omega arith in
      rw (width, h.follows) (take-append bs r)

check_count_ok :
    (least n : ℕ) (buf : List ℕ) (pos : ℕ)
    → n * least + pos ≤ length buf
    → check_count least n buf pos ≡ ok (n, pos)
unfolding check_count
check_count_ok least n buf pos h = rw (le→ltb_false (length buf) (n * least + pos) h)

-- A bind whose first part returns.
pub >>=_ok :
    {A B : Type 0} (m : Reader A) (f : A → Reader B) (buf : List ℕ) (pos : ℕ) {a : A} {p : ℕ}
    → m buf pos ≡ ok (a, p)
    → (m >>= f) buf pos ≡ f a buf p
>>=_ok m f buf pos e = rw (e, ◌>>=◌)

-- One method after another.
pub Reads-bind :
    {A B : Type 0} {buf : List ℕ} {pos : ℕ} {r : List ℕ} {m : Reader A} (f : A → Reader B)
    {bs cs : List ℕ} {a : A} {b : B}
    → Reads buf pos (cs ++ r) m bs a
    → Reads buf (pos + length bs) r (f a) cs b
    → Reads buf pos r (m >>= f) (bs ++ cs) b
Reads-bind {buf = buf} {pos = pos} {r = r} {m = m} f {bs} {cs} {a} {b} hm hf = record {
  run = λ h.
      let h' : Rest buf pos (bs ++ (cs ++ r)) =
        subst (λ l. Rest buf pos l) (append_assoc bs cs r) h in
      >>=_ok m f buf pos (hm.run h')
      ∙ hf.run (Rest-advance bs (cs ++ r) h')
      ∙ ap (λ (n : ℕ). ok (b, n)) (omega (arith, length-append bs cs));
}

module _ {buf : List ℕ} {pos : ℕ} {r : List ℕ} where
  pub Reads-pure : {A : Type 0} {a : A} → Reads buf pos r (pure a) [] a
  Reads-pure {a = a} = record { run = λ h. ap (λ (n : ℕ). ok (a, n)) (omega arith) }

  pub Reads-take : (n : ℕ) (bs : List ℕ) → length bs ≡ n → Reads buf pos r (take_bytes n) bs bs
  unfolding take_bytes
  Reads-take n bs e = record {
    run = λ h. rw (← e) (
        rw (le→ltb_false (length buf) (pos + length bs) (omega (arith, h.fits, length-append bs r)))
          (ap (λ l. ok (l, pos + length bs)) (Rest-slice bs r h)));
  }

  -- The last method only maps the value: no bytes are read.
  pub Reads-map :
      {A B : Type 0} {m : Reader A} (f : A → B) {bs : List ℕ} {a : A}
      → Reads buf pos r m bs a
      → Reads buf pos r (m >>= λ x. pure (f x)) bs (f a)
  Reads-map {m = m} f {bs} h = record { run = λ e. >>=_ok m (λ x. pure (f x)) buf pos (h.run e) }

  pub Reads-uint : (k v : ℕ) → v < 256 ^ k → Reads buf pos r (uint k) (to_le k v) v
  unfolding uint
  Reads-uint k v h =
      subst (λ x. Reads buf pos r (uint k) (to_le k v) x) (from_le-to_le k v h)
        (Reads-map from_le (Reads-take k (to_le k v) (length-to_le k v)))

module _ {buf : List ℕ} {r : List ℕ} where
  Reads-varint_from :
      {pos : ℕ} (b n : ℕ) (bs : List ℕ)
      → Reads buf (pos + 1) r (varint_from b) bs n
      → Reads buf pos r varint (b ∷ bs) n
  unfolding varint
  Reads-varint_from b n bs h =
      Reads-bind (λ l. varint_from (get_or l 0 0)) (Reads-take 1 (b ∷ []) refl) h

  pub Reads-varint : {pos : ℕ} (n : ℕ) → n < 2 ^ 64 → Reads buf pos r varint (encode_varint n) n
  unfolding encode_varint varint_from
  Reads-varint n h = elim (Bool-cases (ltb n 0xFD)) [
    | inl small ↦ rw small (Reads-varint_from n n [] (rw small Reads-pure))
    | inr l ↦ elim (Bool-cases (ltb n (2 ^ 16))) [
      | inl two ↦ rw (l, two) (Reads-varint_from 0xFD n (to_le 2 n) (Reads-uint 2 n (ground arith)))
      | inr l' ↦ elim (Bool-cases (ltb n (2 ^ 32))) [
        | inl four ↦
            rw (l, l', four) (Reads-varint_from 0xFE n (to_le 4 n) (Reads-uint 4 n (ground arith)))
        | inr l'' ↦
            rw (l, l', l'') (Reads-varint_from 0xFF n (to_le 8 n) (Reads-uint 8 n (ground arith)))
      ]
    ]
  ]

  -- A count is accepted where that many items of the least size fit in what follows.
  pub Reads-count :
      {pos : ℕ} (least n : ℕ)
      → n < 2 ^ 64
      → n * least ≤ length r
      → Reads buf pos r (count least) (encode_varint n) n
  unfolding count
  Reads-count {pos} least n h fits = record {
    run = λ e.
        let next : Rest buf (pos + length (encode_varint n)) r =
          Rest-advance (encode_varint n) r e in
        >>=_ok varint (check_count least) buf pos ((Reads-varint n h).run e)
        ∙ check_count_ok least n buf (pos + length (encode_varint n)) (omega (arith, next.fits));
  }

module _ {buf : List ℕ} {r : List ℕ} where
  pub Reads-sized :
      {pos : ℕ} (bs : List ℕ)
      → length bs < 2 ^ 64
      → Reads buf pos r sized_bytes (encode_sized bs) bs
  unfolding sized_bytes encode_sized
  Reads-sized bs h =
      Reads-bind (λ n. take_bytes n)
        (Reads-count 1 (length bs) h (omega (arith, length-append bs r)))
        (Reads-take (length bs) bs refl)
