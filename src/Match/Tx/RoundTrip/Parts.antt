-- ===== src/Match/Tx/RoundTrip/Parts.antt =====
-- The parts of a serialised transaction: what each loop of `read_tx` makes of them.
use coldwatch.Base.{
  ℕ, zero, suc, ◌+◌, ◌*◌, ◌≤◌, ◌≡◌, refl, ap, ◌∙◌, le→leb, Bool, true, false, List, [], ◌∷◌, ◌++◌,
  ◌==◌, length, get_or, drop, All, length-append, arith,
}
use coldwatch.Base.Bytes.{to_le, length-to_le}
use native.Mathlib.Nat.{zero-add, suc-add}
use coldwatch.Match.Tx.{
  read_input, read_inputs, read_output, read_outputs, skip_items, skip_witness, skip_witnesses,
  marker,
}
use coldwatch.Match.Tx.Wire.{
  encode_varint, encode_sized, encode_each, encode_input, encode_output, encode_items,
  encode_marker, WireInput, WireOutput, IsInput, IsOutput, IsItems, IsSized, outpoint_of, outpoints,
  numbered,
}
use coldwatch.Match.Tx.Reads.{
  Rest, Reads, Reads-bind, Reads-pure, Reads-take, Reads-map, Reads-uint, Reads-count, Reads-sized,
}

pub length-encode_varint_pos : (n : ℕ) → 1 ≤ length (encode_varint n)
unfolding encode_varint
length-encode_varint_pos n = ground (arith, length-to_le 2 n)

pub length-encode_sized_pos : (bs : List ℕ) → 1 + length bs ≤ length (encode_sized bs)
unfolding encode_sized
length-encode_sized_pos bs =
    omega
      (arith, length-append (encode_varint (length bs)) bs, length-encode_varint_pos (length bs))

length-encode_input : (i : WireInput) → IsInput i → 41 ≤ length (encode_input i)
unfolding encode_input
length-encode_input i h =
    rw (length-append, length-append, length-append, length-to_le, length-to_le)
      (omega (arith, h.txid, length-encode_sized_pos i.script))

length-encode_output : (o : WireOutput) → 9 ≤ length (encode_output o)
unfolding encode_output
length-encode_output o =
    rw (length-append, length-to_le) (omega (arith, length-encode_sized_pos o.spk))

-- Items of at least `least` bytes each.
length-encode_each {ℓ κ} :
    {A : Type ℓ} {P : A → Type κ} (f : A → List ℕ) (least : ℕ)
    → ((x : A) → P x → least ≤ length (f x))
    → (xs : List A) → All P xs
    → length xs * least ≤ length (encode_each f xs)
unfolding encode_each
length-encode_each f least h [] w = omega arith
length-encode_each f least h (x ∷ xs) (w, ws) =
    rw length-append (grind (arith, h x w, length-encode_each f least h xs ws))

pub length-encode_inputs :
    (is : List WireInput) → All IsInput is → length is * 41 ≤ length (encode_each encode_input is)
length-encode_inputs is h = length-encode_each encode_input 41 length-encode_input is h

pub length-encode_outputs :
    (os : List WireOutput) → All IsOutput os → length os * 9 ≤ length (encode_each encode_output os)
length-encode_outputs os h = length-encode_each encode_output 9 (λ o _. length-encode_output o) os h

module _ {buf : List ℕ} {r : List ℕ} where
  Reads-input :
      {pos : ℕ} (i : WireInput)
      → IsInput i
      → Reads buf pos r read_input (encode_input i) (outpoint_of i)
  unfolding read_input encode_input
  Reads-input i h = Reads-bind _ (Reads-take 32 i.txid h.txid) (
      Reads-bind _ (Reads-uint 4 i.vout (omega (arith, h.vout))) (
        Reads-bind _ (Reads-sized i.script h.script)
          (Reads-map (λ _. outpoint_of i) (Reads-uint 4 i.sequence (omega (arith, h.sequence))))))

  Reads-output :
      {pos : ℕ} (n : ℕ) (o : WireOutput)
      → IsOutput o
      → Reads buf pos r (read_output n) (encode_output o) (record { vout = n; spk = o.spk })
  unfolding read_output encode_output
  Reads-output n o h =
      Reads-bind _ (Reads-take 8 (to_le 8 o.value) (length-to_le 8 o.value))
        (Reads-map (λ spk. record { vout = n; spk = spk }) (Reads-sized o.spk h.1))

-- The buffer, and what stands behind the part that is read.
module _ {buf : List ℕ} {r : List ℕ} where
  pub Reads-inputs :
      (is : List WireInput) {pos : ℕ}
      → All IsInput is
      → Reads buf pos r (read_inputs (length is)) (encode_each encode_input is) (outpoints is)
  unfolding read_inputs encode_each
  Reads-inputs [] h = Reads-pure
  Reads-inputs (i ∷ is) (h, hs) =
      Reads-bind _ (Reads-input i h) (Reads-map (λ ops. outpoint_of i ∷ ops) (Reads-inputs is hs))

  pub Reads-outputs :
      (os : List WireOutput) (n : ℕ) {pos : ℕ}
      → All IsOutput os
      → Reads buf pos r (read_outputs (length os) n) (encode_each encode_output os) (numbered n os)
  unfolding read_outputs encode_each
  Reads-outputs [] n h = Reads-pure
  Reads-outputs (o ∷ os) n (h, hs) =
      Reads-bind _ (Reads-output n o h)
        (Reads-map (λ outs. record { vout = n; spk = o.spk } ∷ outs) (Reads-outputs os (n + 1) hs))

  Reads-items :
      (items : List (List ℕ)) {pos : ℕ}
      → All IsSized items
      → Reads buf pos r (skip_items (length items)) (encode_each encode_sized items) tt
  unfolding skip_items encode_each
  Reads-items [] h = Reads-pure
  Reads-items (b ∷ bs) (h, hs) = Reads-bind _ (Reads-sized b h) (Reads-items bs hs)

length-encode_items :
    (items : List (List ℕ))
    → All IsSized items
    → length items * 1 ≤ length (encode_each encode_sized items)
length-encode_items items h =
    length-encode_each encode_sized 1 (λ b _. omega (arith, length-encode_sized_pos b)) items h

module _ {buf : List ℕ} {r : List ℕ} where
  Reads-witness :
      (items : List (List ℕ)) {pos : ℕ}
      → IsItems items
      → Reads buf pos r skip_witness (encode_items items) tt
  unfolding encode_items skip_witness
  Reads-witness items (few, h) =
      Reads-bind (λ n. skip_items n) (Reads-count 1 (length items) few room) (Reads-items items h)
    where
      room : length items * 1 ≤ length (encode_each encode_sized items ++ r)
      room =
          omega
            (arith, length-append (encode_each encode_sized items) r, length-encode_items items h)

module _ {buf : List ℕ} {r : List ℕ} where
  pub Reads-witnesses :
      (ws : List (List (List ℕ))) {pos : ℕ}
      → All IsItems ws
      → Reads buf pos r (skip_witnesses (length ws)) (encode_each encode_items ws) tt
  unfolding skip_witnesses encode_each
  Reads-witnesses [] h = Reads-pure
  Reads-witnesses (w ∷ ws) (h, hs) = Reads-bind _ (Reads-witness w h) (Reads-witnesses ws hs)

get_or-drop : (n i : ℕ) (xs : List ℕ) → get_or xs (n + i) 0 ≡ get_or (drop n xs) i 0
get_or-drop zero i xs = rw zero-add
get_or-drop (suc n) i [] = refl
get_or-drop (suc n) i (x ∷ xs) = rw suc-add (get_or-drop n i xs)

pub byte_at :
    {buf : List ℕ} {pos : ℕ} {l : List ℕ} (i j : ℕ)
    → Rest buf pos l
    → j ≡ pos + i
    → get_or buf j 0 ≡ get_or l i 0
byte_at {buf} {pos} i j e h = rw h (get_or-drop pos i buf ∙ ap (λ l. get_or l i 0) e.follows)

-- The marker, where one is written; where none is, the next byte must not be zero.
pub Reads-marker :
    {buf : List ℕ} {r : List ℕ} (start : ℕ) (segwit : Bool)
    → (segwit ≡ false → (get_or r 0 0 == 0) ≡ false)
    → Reads buf (start + 4) r (marker start) (encode_marker segwit) segwit
unfolding marker
Reads-marker {buf} {r} start true h = record {
  run = λ e.
      let z : get_or buf (start + 4) 0 ≡ 0 = byte_at 0 (start + 4) e (omega arith) in
      let o : get_or buf (start + 5) 0 ≡ 1 = byte_at 1 (start + 5) e (omega arith) in
      rw (le→leb (start + 6) (length buf) (omega (arith, e.fits)), z, o)
        ((Reads-map {buf = buf} {pos = start + 4} {r = r} (λ _. true)
            (Reads-take 2 (0 ∷ 1 ∷ []) refl)).run
          e);
}
Reads-marker {buf} {r} start false h = record {
  run = λ e.
      let z : (get_or buf (start + 4) 0 == 0) ≡ false =
        rw (byte_at 0 (start + 4) e (omega arith)) (h refl) in
      ground (arith, z);
}
