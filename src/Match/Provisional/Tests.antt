-- ===== src/Match/Provisional/Tests.antt =====
-- The theorems on mempool coins at concrete inputs.
use coldwatch.Base.{[], ◌∷◌}
use coldwatch.Base.Keys.{bytes_key}
use coldwatch.Match.Provisional.{ProvisionalOutpoints}

-- Transaction 1 made coin 4 of item 7.
abbrev one_coin : ProvisionalOutpoints
one_coin = record {
  maxlen = 1;
  by_outpoint = (4 ∷ [], 7 ∷ []) ∷ [];
  by_txid = (1 ∷ [], (4 ∷ []) ∷ []) ∷ [];
  evicted = 0;
}
