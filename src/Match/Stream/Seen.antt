-- ===== src/Match/Stream/Seen.antt =====
-- match/stream.py: `SeenTransactions`, the txids already alerted on.
use coldwatch.Base.{
  ℕ, suc, ◌+◌, ◌≤◌, ◌≡◌, refl, Bool, true, false, Option, none, some, List, [], ◌∷◌, ◌++◌, ltb, not,
  if◌then◌else◌, length, length-append, Bool-cases, inl, inr, arith, le→ltb_false,
}
use coldwatch.Base.Keys.{bytes_key, agree_refl}
use coldwatch.Base.Dict.{Dict, has, put, has-put, length-put}

pub record SeenTransactions : Type 0 where
  pub maxlen : ℕ
  pub seen : Dict (List ℕ) (Unit {0})
  pub evicted : ℕ

-- `SeenTransactions(maxlen)`; `none` is the ValueError of a bound below 1.
unfoldable pub new_seen : ℕ → Option SeenTransactions
new_seen maxlen =
    if ltb maxlen 1 then none else some (record { maxlen = maxlen; seen = []; evicted = 0 })

-- `txid in seen`.
unfoldable pub knows : List ℕ → SeenTransactions → Bool
knows txid s = has txid s.seen

-- The loop `while len(self._seen) > self.maxlen`.
unfoldable pub forget_oldest : ℕ → Dict (List ℕ) (Unit {0}) → ℕ → SeenTransactions
forget_oldest maxlen [] evicted = record { maxlen = maxlen; seen = []; evicted = evicted }
forget_oldest maxlen (entry ∷ rest) evicted =
    let next = forget_oldest maxlen rest (evicted + 1) in
    if ltb maxlen (length (entry ∷ rest))
    then next
    else record { maxlen = maxlen; seen = entry ∷ rest; evicted = evicted }

-- `add(txid)`, with what it returns.
unfoldable pub add : List ℕ → SeenTransactions → Bool × SeenTransactions
add txid s =
    if has txid s.seen
    then (false, s)
    else (true, forget_oldest s.maxlen (put txid tt s.seen) s.evicted)

put_new :
    (txid : List ℕ) (d : Dict (List ℕ) (Unit {0}))
    → has txid d ≡ false
    → put txid tt d ≡ d ++ (txid, tt) ∷ []
unfolding has put
put_new txid [] h = refl
put_new txid ((j, u) ∷ d) h = ground (arith, put_new txid d)

has_last : (txid : List ℕ) (d : Dict (List ℕ) (Unit {0})) → has txid (d ++ (txid, tt) ∷ []) ≡ true
unfolding has
has_last txid [] = rw (agree_refl txid)
has_last txid ((j, u) ∷ d) = ground (arith, has_last txid d)

forget_oldest_lem :
    (maxlen : ℕ) (txid : List ℕ) (d : Dict (List ℕ) (Unit {0})) (n : ℕ)
    → 1 ≤ maxlen
    → (length (forget_oldest maxlen (d ++ (txid, tt) ∷ []) n).seen ≤ maxlen)
      × (has txid (forget_oldest maxlen (d ++ (txid, tt) ∷ []) n).seen ≡ true)
      × (length (forget_oldest maxlen (d ++ (txid, tt) ∷ []) n).seen
            + (forget_oldest maxlen (d ++ (txid, tt) ∷ []) n).evicted
          ≡ length d + n + 1)
unfolding forget_oldest has
forget_oldest_lem maxlen txid [] n h =
    let one : ltb maxlen 1 ≡ false = le→ltb_false maxlen 1 h in
    rw one (h, rw (agree_refl txid), omega arith)
forget_oldest_lem maxlen txid ((j, u) ∷ d) n h =
    elim (Bool-cases (ltb maxlen (suc (length (d ++ (txid, tt) ∷ []))))) [
      | inl over ↦
          let (a, b, c) = forget_oldest_lem maxlen txid d (n + 1) h in
          rw over (a, b, omega (arith, c))
      | inr room ↦
          rw room (ground arith, has_last txid ((j, u) ∷ d), rw length-append (omega arith))
    ]

-- `add` says whether the txid is new. A txid that is known changes nothing; a new one is known
-- afterwards, no more than `maxlen` are held, and those held and those evicted are one more than
-- before.
pub add_remembers :
    (txid : List ℕ) (s : SeenTransactions)
    → 1 ≤ s.maxlen
    → ((add txid s).0 ≡ not (knows txid s))
      × (knows txid (add txid s).1 ≡ true)
      × (if knows txid s
          then (add txid s).1 ≡ s
          else (length (add txid s).1.seen ≤ s.maxlen)
            × (length (add txid s).1.seen + (add txid s).1.evicted ≡ length s.seen + s.evicted + 1))
unfolding add knows
add_remembers txid s h = elim (Bool-cases (has txid s.seen)) [
  | inl old ↦ rw old (refl, old, refl)
  | inr new ↦
      let (a, b, c) = forget_oldest_lem s.maxlen txid s.seen s.evicted h in
      rw (new, put_new txid s.seen new) (refl, b, (a, c))
]

pub add_known :
    (txid : List ℕ) (s : SeenTransactions) → knows txid s ≡ true → add txid s ≡ (false, s)
unfolding add knows
add_known txid s h = rw h

forget_none :
    (maxlen : ℕ) (d : Dict (List ℕ) (Unit {0})) (n : ℕ)
    → length d ≤ maxlen
    → forget_oldest maxlen d n ≡ record { maxlen = maxlen; seen = d; evicted = n }
unfolding forget_oldest
forget_none maxlen [] n h = refl
forget_none maxlen (entry ∷ rest) n h = ground arith

-- The txids `others`, added in turn.
unfoldable pub add_all : List (List ℕ) → SeenTransactions → SeenTransactions
add_all [] s = s
add_all (other ∷ others) s = add_all others (add other s).1

add_keeps :
    (txid other : List ℕ) (s : SeenTransactions)
    → knows txid s ≡ true
    → length s.seen + 1 ≤ s.maxlen
    → (knows txid (add other s).1 ≡ true)
      × (length (add other s).1.seen ≤ length s.seen + 1)
      × ((add other s).1.maxlen ≡ s.maxlen)
unfolding add knows
add_keeps txid other s known room =
    let size = length-put other tt s.seen in
    elim (Bool-cases (has other s.seen)) [
      | inl old ↦ rw old (known, omega arith, refl)
      | inr new ↦
          let here : length (put other tt s.seen) ≤ s.maxlen = ground (arith, size) in
          rw (new, forget_none s.maxlen (put other tt s.seen) s.evicted here)
            (ground (arith, has-put other txid tt s.seen), ground (arith, size), refl)
    ]

-- A txid that is known stays known while there is room for those added behind it.
pub add_all_keeps :
    (txid : List ℕ) (others : List (List ℕ)) (s : SeenTransactions)
    → knows txid s ≡ true
    → length s.seen + length others ≤ s.maxlen
    → knows txid (add_all others s) ≡ true
unfolding add_all
add_all_keeps txid [] s known room = known
add_all_keeps txid (other ∷ others) s known room =
    let (known', size, same) = add_keeps txid other s known (omega arith) in
    add_all_keeps txid others (add other s).1 known' (omega (arith, size, same))
