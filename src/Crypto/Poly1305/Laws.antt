-- ===== src/Crypto/Poly1305/Laws.antt =====
-- The authenticator against the polynomial that it evaluates.
use native.Mathlib.Nat.{mod-add-div', add-mul-mod_self_right, pow-zero, pow-succ'}
use coldwatch.Base.{
  ℕ, zero, suc, ◌+◌, ◌*◌, ◌/◌, ◌%◌, ◌^◌, ◌≡◌, refl, sym, ap, ◌∙◌, List, [], ◌∷◌, take, drop, length,
  arith,
}
use coldwatch.Base.Bytes.{from_le, to_le, from_le-to_le, length-to_le}
use coldwatch.Base.Results.{ok}
use coldwatch.Crypto.Poly1305.{prime, block_number, absorb, point, poly1305_mac}

-- The numbers of the blocks.
pub blocks : ℕ → List ℕ → List ℕ
blocks zero message = []
blocks (suc n) message = block_number (take 16 message) ∷ blocks n (drop 16 message)

-- The polynomial with these coefficients, the first one the highest, and no constant term, at `r`.
pub polynomial : List ℕ → ℕ → ℕ
polynomial [] r = 0
polynomial (c ∷ cs) r = c * r ^ suc (length cs) + polynomial cs r

spread : (q d p c r : ℕ) → (q + d * p + c) * r ≡ (q + c) * r + d * r * p
spread q d p c r = grind arith

reduce_once : (a p c r : ℕ) → (a % p + c) * r % p ≡ (a + c) * r % p
reduce_once a p c r =
    sym (add-mul-mod_self_right ((a % p + c) * r) (a / p * r) p)
    ∙ ap (λ (t : ℕ). t % p) (sym (spread (a % p) (a / p) p c r))
    ∙ ap (λ (t : ℕ). (t + c) * r % p) (mod-add-div' a p)

-- The loop without its reductions.
horner : ℕ → ℕ → ℕ → List ℕ → ℕ
horner zero acc r message = acc
horner (suc n) acc r message =
    horner n ((acc + block_number (take 16 message)) * r) r (drop 16 message)

absorb-mod :
    (n a r : ℕ) (message : List ℕ) → absorb n (a % prime) r message ≡ horner n a r message % prime
unfolding absorb horner
absorb-mod zero a r message = refl
absorb-mod (suc n) a r message =
    ap (λ (t : ℕ). absorb n t r (drop 16 message))
      (reduce_once a prime (block_number (take 16 message)) r)
    ∙ absorb-mod n ((a + block_number (take 16 message)) * r) r (drop 16 message)

length-blocks : (n : ℕ) (message : List ℕ) → length (blocks n message) ≡ n
unfolding blocks
length-blocks zero message = refl
length-blocks (suc n) message = ap suc (length-blocks n (drop 16 message))

regroup : (a c r p s : ℕ) → (a + c) * r * p + s ≡ a * (r * p) + (c * (r * p) + s)
regroup a c r p s = grind arith

horner-polynomial :
    (n a r : ℕ) (message : List ℕ)
    → horner n a r message ≡ a * r ^ n + polynomial (blocks n message) r
unfolding horner polynomial blocks
horner-polynomial zero a r message = rw (pow-zero r) (omega arith)
horner-polynomial (suc n) a r message =
    let c = block_number (take 16 message) in
    rw
      (
        horner-polynomial n ((a + c) * r) r (drop 16 message),
        length-blocks n (drop 16 message),
        pow-succ' r n,
      )
      (regroup a c r (r ^ n) _)

-- With a key of 32 bytes the tag has 16 bytes. They are, little-endian and modulo 2^128, the second
-- half of the key added to the polynomial of the message's blocks at the clamped first half, reduced
-- once, modulo 2^130 - 5.
pub poly1305_mac-polynomial :
    (key message : List ℕ)
    → length key ≡ 32
    → (tag : List ℕ) × (poly1305_mac key message ≡ ok tag)
      × (length tag ≡ 16)
      × (from_le tag
          ≡ (polynomial (blocks ((length message + 15) / 16) message) (point key) % prime
              + from_le (drop 16 key))
            % 2 ^ 128)
unfolding poly1305_mac
poly1305_mac-polynomial key message size =
    let n = (length message + 15) / 16 in
    let value = (absorb n 0 (point key) message + from_le (drop 16 key)) % 2 ^ 128 in
    let reduced : absorb n 0 (point key) message
        ≡ polynomial (blocks n message) (point key) % prime =
      absorb-mod n 0 (point key) message
      ∙ ap (λ (t : ℕ). t % prime) (horner-polynomial n 0 (point key) message ∙ omega arith) in
    (
      to_le 16 value,
      rw size,
      length-to_le 16 value,
      from_le-to_le 16 value (omega arith)
          ∙ ap (λ (t : ℕ). (t + from_le (drop 16 key)) % 2 ^ 128) reduced,
    )
