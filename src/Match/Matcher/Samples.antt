-- ===== src/Match/Matcher/Samples.antt =====
-- A watched script, a deposit to it and its spender for the tests.
use coldwatch.Base.{ℕ, refl, List, [], ◌∷◌, ◌++◌, replicate, true, false, arith}
use coldwatch.Match.Keys.{spk_hmac}
use coldwatch.Match.Tx.{Transaction}
use coldwatch.Match.Index.Contract.{IsWatchIndex}
use coldwatch.Match.Index.Memory.{
  InMemoryWatchIndex, in_memory, memory_index, memory_index-IsWatchIndex,
}
use coldwatch.Match.Provisional.{ProvisionalOutpoints}
use coldwatch.Match.Matcher.{Matcher}
use coldwatch.Match.Matcher.Reports.{IsMatchable, coin}

-- A function in place of HMAC-SHA256.
abbrev pub toy_hmac : List ℕ → List ℕ → List ℕ
toy_hmac key message = key ++ message

abbrev pub toy_key : List ℕ
toy_key = 9 ∷ []

abbrev pub no_coins : ProvisionalOutpoints
no_coins = record { maxlen = 2; by_outpoint = []; by_txid = []; evicted = 0 }

-- Item 7 watches the script 51.
abbrev pub watcher : Matcher InMemoryWatchIndex
watcher = record {
  index = in_memory ((7, spk_hmac toy_hmac toy_key (0x51 ∷ [])) ∷ []);
  provisional = no_coins;
}

abbrev pub laws : IsWatchIndex memory_index
laws = memory_index-IsWatchIndex.0

pub watcher-IsSound : laws.IsSound watcher.index
watcher-IsSound = memory_index-IsWatchIndex.1 ((7, spk_hmac toy_hmac toy_key (0x51 ∷ [])) ∷ [])

abbrev pub deposit : Transaction
deposit = record {
  txid = replicate 32 1;
  inputs = [];
  outputs = record { vout = 0; spk = 0x51 ∷ [] } ∷ [];
  is_coinbase = true;
  has_witness = false;
}

abbrev pub spender : Transaction
spender = record {
  txid = replicate 32 2;
  inputs = record { txid = replicate 32 1; vout = 0 } ∷ [];
  outputs = [];
  is_coinbase = false;
  has_witness = false;
}

-- It spends another coin.
abbrev pub bystander : Transaction
bystander = record {
  txid = replicate 32 3;
  inputs = record { txid = replicate 32 1; vout = 1 } ∷ [];
  outputs = [];
  is_coinbase = false;
  has_witness = false;
}

abbrev pub deposited : List ℕ
deposited = coin toy_hmac toy_key (replicate 32 1) 0

pub deposit-IsMatchable : IsMatchable deposit
deposit-IsMatchable = record { own_txid = refl; spent = tt; indexed = (omega arith, tt) }

pub spender-IsMatchable : IsMatchable spender
spender-IsMatchable = record { own_txid = refl; spent = ((refl, omega arith), tt); indexed = tt }

pub bystander-IsMatchable : IsMatchable bystander
bystander-IsMatchable = record { own_txid = refl; spent = ((refl, omega arith), tt); indexed = tt }
