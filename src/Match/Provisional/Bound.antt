-- ===== src/Match/Provisional/Bound.antt =====
-- The bound on unconfirmed transactions, and what an eviction leaves.
use coldwatch.Base.{ℕ, ◌+◌, ◌≤◌, ◌≡◌, refl, true, List, [], ◌∷◌, ◌==◌, if◌then◌else◌, length, arith}
use coldwatch.Base.Keys.{bytes_key, bytes_beq, bytes_beq_iff, agree_refl}
use coldwatch.Base.Dict.{
  Dict, put, remove, has, has-put, get-put, get-remove, length-put, length-remove-le,
}
use coldwatch.Match.Index.Items.{has_item, add_item, has_item-add_item}
use coldwatch.Match.Index.Memory.{items_at, items_at-remove}
use coldwatch.Match.Provisional.{
  ProvisionalOutpoints, drop_all, created_by, has_outpoint, add_created, evict, add, items, forget,
  pending_transactions,
}

evict_bound :
    (maxlen : ℕ) (d : Dict (List ℕ) (List (List ℕ))) (coins : Dict (List ℕ) (List ℕ)) (n : ℕ)
    → (length (evict maxlen d coins n).by_txid ≤ maxlen)
      × ((evict maxlen d coins n).maxlen ≡ maxlen)
      × (length (evict maxlen d coins n).by_txid + (evict maxlen d coins n).evicted ≡ length d + n)
unfolding evict
evict_bound maxlen [] coins n = (omega arith, refl, refl)
evict_bound maxlen ((txid, stale) ∷ rest) coins n =
    ground (arith, evict_bound maxlen rest (drop_all stale coins) (n + 1))

-- After any `add` no more than `maxlen` transactions are held, the bound is what it was, and the
-- transactions held and those evicted are those from before and the added one if it is new.
pub add_bound :
    (txid : List ℕ) (i : ℕ) (op : List ℕ) (p : ProvisionalOutpoints)
    → (pending_transactions (add txid i op p) ≤ p.maxlen)
      × ((add txid i op p).maxlen ≡ p.maxlen)
      × (pending_transactions (add txid i op p) + (add txid i op p).evicted
          ≡ pending_transactions p + p.evicted + (if has txid p.by_txid then 0 else 1))
unfolding add pending_transactions
add_bound txid i op p =
    let d = put txid (add_created op (created_by txid p.by_txid)) p.by_txid in
    let coins = put op (add_item i (items_at op p.by_outpoint)) p.by_outpoint in
    ground (
      arith,
      evict_bound p.maxlen d coins p.evicted,
      length-put txid (add_created op (created_by txid p.by_txid)) p.by_txid,
    )

evict_room :
    (maxlen : ℕ) (d : Dict (List ℕ) (List (List ℕ))) (coins : Dict (List ℕ) (List ℕ)) (n : ℕ)
    → length d ≤ maxlen
    → evict maxlen d coins n
      ≡ record { maxlen = maxlen; by_outpoint = coins; by_txid = d; evicted = n }
unfolding evict
evict_room maxlen [] coins n h = refl
evict_room maxlen ((txid, stale) ∷ rest) coins n h = ground arith

-- There is room for another coin of `txid` with no eviction.
abbrev pub HasRoom : List ℕ → ProvisionalOutpoints → Type 0
HasRoom txid p = pending_transactions p + (if has txid p.by_txid then 0 else 1) ≤ p.maxlen

add_room :
    (txid : List ℕ) (i : ℕ) (op : List ℕ) (p : ProvisionalOutpoints)
    → HasRoom txid p
    → add txid i op p ≡ record p {
      by_outpoint = put op (add_item i (items_at op p.by_outpoint)) p.by_outpoint;
      by_txid = put txid (add_created op (created_by txid p.by_txid)) p.by_txid;
    }
unfolding add pending_transactions
add_room txid i op p h =
    evict_room p.maxlen _ _ p.evicted
      (ground (arith, length-put txid (add_created op (created_by txid p.by_txid)) p.by_txid))

-- With room, `add` gives the coin its item and leaves every other coin and item as they were.
pub items-add :
    (txid : List ℕ) (i j : ℕ) (op k : List ℕ) (p : ProvisionalOutpoints)
    → HasRoom txid p
    → has_item j (items k (add txid i op p)) ≡ (
        if bytes_beq op k
        then (if i == j then true else has_item j (items k p))
        else has_item j (items k p))
unfolding items items_at
items-add txid i j op k p h = rw (add_room txid i op p h) (
    ground (
      arith,
      get-put op k (add_item i (items_at op p.by_outpoint)) p.by_outpoint,
      has_item-add_item i j (items_at op p.by_outpoint),
      bytes_beq_iff op k,
    ))

-- With room there is room again for the same transaction.
pub HasRoom-add :
    (txid : List ℕ) (i : ℕ) (op : List ℕ) (p : ProvisionalOutpoints)
    → HasRoom txid p
    → HasRoom txid (add txid i op p)
unfolding pending_transactions
HasRoom-add txid i op p h =
    let created = add_created op (created_by txid p.by_txid) in
    rw (add_room txid i op p h, has-put txid txid created p.by_txid, agree_refl txid)
      (ground (arith, length-put txid created p.by_txid))

get-drop_all :
    (ops : List (List ℕ)) (k : List ℕ) (d : Dict (List ℕ) (List ℕ))
    → items_at k (drop_all ops d) ≡ (if has_outpoint k ops then [] else items_at k d)
unfolding drop_all has_outpoint
get-drop_all [] k d = refl
get-drop_all (op ∷ ops) k d =
    ground (arith, get-drop_all ops k (remove op d), items_at-remove op k d)

created_by-remove :
    (txid : List ℕ) (d : Dict (List ℕ) (List (List ℕ))) → created_by txid (remove txid d) ≡ []
unfolding created_by
created_by-remove txid d = ground (arith, get-remove txid txid d, agree_refl txid)

-- When a transaction is forgotten, its own coins go with it and all other coins stay; no pending
-- transaction is added.
pub items-forget :
    (txid k : List ℕ) (p : ProvisionalOutpoints)
    → (items k (forget txid p)
        ≡ (if has_outpoint k (created_by txid p.by_txid) then [] else items k p))
      × (pending_transactions (forget txid p) ≤ pending_transactions p)
      × (created_by txid (forget txid p).by_txid ≡ [])
unfolding items forget pending_transactions
items-forget txid k p = (
  get-drop_all (created_by txid p.by_txid) k p.by_outpoint,
  length-remove-le txid p.by_txid,
  created_by-remove txid p.by_txid,
)
