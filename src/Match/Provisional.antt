-- ===== src/Match/Provisional.antt =====
-- match/matcher.py: `ProvisionalOutpoints`, the coins that exist only in the mempool.
pub mod Bound
mod Tests
use coldwatch.Base.{
  ℕ, suc, ◌+◌, Bool, true, false, Option, none, some, List, [], ◌∷◌, ◌++◌, ltb, if◌then◌else◌,
  length,
}
use coldwatch.Base.Keys.{bytes_key, bytes_beq}
use coldwatch.Base.Dict.{Dict, get, put, remove}
use coldwatch.Match.Index.Items.{add_item}
use coldwatch.Match.Index.Memory.{items_at}

pub record ProvisionalOutpoints : Type 0 where
  pub maxlen : ℕ
  pub by_outpoint : Dict (List ℕ) (List ℕ)
  pub by_txid : Dict (List ℕ) (List (List ℕ))
  pub evicted : ℕ

-- `ProvisionalOutpoints(maxlen)`; `none` is the ValueError of a bound below 1.
unfoldable pub new_provisional : ℕ → Option ProvisionalOutpoints
new_provisional maxlen =
    if ltb maxlen 1
    then none
    else some (record { maxlen = maxlen; by_outpoint = []; by_txid = []; evicted = 0 })

-- `_drop(outpoints)`.
unfoldable pub drop_all : List (List ℕ) → Dict (List ℕ) (List ℕ) → Dict (List ℕ) (List ℕ)
drop_all [] d = d
drop_all (op ∷ ops) d = drop_all ops (remove op d)

-- `self._by_txid.get(txid, ())`.
unfoldable pub created_by : List ℕ → Dict (List ℕ) (List (List ℕ)) → List (List ℕ)
created_by txid d = elim (get txid d) [ none ↦ [] | some l ↦ l ]

unfoldable pub has_outpoint : List ℕ → List (List ℕ) → Bool
has_outpoint op [] = false
has_outpoint op (o ∷ l) = if bytes_beq o op then true else has_outpoint op l

-- `if outpoint not in created: created.append(outpoint)`.
unfoldable pub add_created : List ℕ → List (List ℕ) → List (List ℕ)
unfolding has_outpoint
add_created op l = if has_outpoint op l then l else l ++ op ∷ []

-- The loop `while len(self._by_txid) > self.maxlen`: the oldest transaction goes, with its coins.
unfoldable pub evict :
    ℕ → Dict (List ℕ) (List (List ℕ)) → Dict (List ℕ) (List ℕ) → ℕ → ProvisionalOutpoints
evict maxlen [] coins evicted = record {
  maxlen = maxlen;
  by_outpoint = coins;
  by_txid = [];
  evicted = evicted;
}
evict maxlen ((txid, stale) ∷ rest) coins evicted =
    let next = evict maxlen rest (drop_all stale coins) (evicted + 1) in
    if ltb maxlen (length ((txid, stale) ∷ rest)) then next else record {
      maxlen = maxlen;
      by_outpoint = coins;
      by_txid = (txid, stale) ∷ rest;
      evicted = evicted;
    }

-- `add(txid, item_id, outpoint_hmac)`.
unfoldable pub add : List ℕ → ℕ → List ℕ → ProvisionalOutpoints → ProvisionalOutpoints
add txid i op p =
    evict p.maxlen (put txid (add_created op (created_by txid p.by_txid)) p.by_txid)
      (put op (add_item i (items_at op p.by_outpoint)) p.by_outpoint) p.evicted

unfoldable pub items : List ℕ → ProvisionalOutpoints → List ℕ
items op p = items_at op p.by_outpoint

-- `forget(txid)`.
unfoldable pub forget : List ℕ → ProvisionalOutpoints → ProvisionalOutpoints
forget txid p = record p {
  by_txid = remove txid p.by_txid;
  by_outpoint = drop_all (created_by txid p.by_txid) p.by_outpoint;
}

-- `len(p)`.
unfoldable pub coin_count : ProvisionalOutpoints → ℕ
coin_count p = length p.by_outpoint

unfoldable pub pending_transactions : ProvisionalOutpoints → ℕ
pending_transactions p = length p.by_txid
