-- ===== src/Storage/Store/Index.antt =====
-- storage/store.py: `WatchIndex`, what the matching loop sees.
use coldwatch.Base.{ℕ, Bool, false, none, some, List, [], ◌∷◌, ◌&&◌, ◌==◌, if◌then◌else◌}
use coldwatch.Base.Keys.{ℕ_key, bytes_beq}
use coldwatch.Base.Dict.{Dict, get}
use coldwatch.Match.Index.Contract.{WatchIndex}
use coldwatch.Storage.Rows.{is_tracked, ItemRow, Database}
use coldwatch.Storage.Coins.{insert_or_ignore, delete_coins, owners, count_of}

-- The query of `items_watching_spk`.
unfoldable pub watching : List ℕ → Dict ℕ ItemRow → List ℕ
watching h [] = []
watching h ((i, row) ∷ rest) =
    let more = watching h rest in
    if bytes_beq row.spk_hmac h && is_tracked row.status then i ∷ more else more

unfoldable pub items_watching_spk : List ℕ → Database → List ℕ
items_watching_spk h db = watching h db.items

unfoldable pub items_owning_outpoint : List ℕ → Database → List ℕ
items_owning_outpoint h db = owners h db.utxos

-- `EXISTS (SELECT 1 FROM watch_item WHERE id = ? AND status IN _TRACKED)`.
unfoldable pub tracks : ℕ → Database → Bool
tracks i db = elim (get i db.items) [ none ↦ false | some row ↦ is_tracked row.status ]

unfoldable pub add_outpoint : ℕ → List ℕ → Database → Database
add_outpoint i h db =
    if tracks i db then record db { utxos = insert_or_ignore i h db.utxos } else db

unfoldable pub drop_outpoint : ℕ → List ℕ → Database → Database
drop_outpoint i h db = record db { utxos = delete_coins (λ j k. j == i && bytes_beq k h) db.utxos }

unfoldable pub outpoint_count : ℕ → Database → ℕ
outpoint_count i db = count_of i db.utxos

abbrev pub store_index : WatchIndex Database
store_index = record {
  items_watching_spk = items_watching_spk;
  items_owning_outpoint = items_owning_outpoint;
  add_outpoint = add_outpoint;
  drop_outpoint = drop_outpoint;
}
