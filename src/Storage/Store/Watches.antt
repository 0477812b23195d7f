-- ===== src/Storage/Store/Watches.antt =====
-- storage/store.py: the methods on tenants, and the scrub that ends a purge.
use coldwatch.Base.{
  ℕ, ◌+◌, ◌%◌, Bool, false, Option, none, some, List, [], ◌∷◌, ◌||◌, ◌==◌, if◌then◌else◌,
}
use coldwatch.Base.Keys.{ℕ_key, bytes_beq}
use coldwatch.Base.Dict.{Dict, get, has, put, remove}
use coldwatch.Base.Results.{Result, ok, err, ◌>>=◌}
use coldwatch.Storage.Rows.{
  WatchStatus, StoreError, unknown_row, purge_incomplete, integrity, operational, WatchRow, ItemRow,
  ChannelEntry, RouteRow, Database, Watch,
}
use coldwatch.Storage.Tables.{delete_where}
use coldwatch.Storage.Coins.{delete_coins}
use coldwatch.Storage.Store.{transaction}

-- `WHERE token_hash = ?`, on a UNIQUE column.
unfoldable pub find_token : List ℕ → Dict ℕ WatchRow → Option (ℕ × WatchRow)
find_token h [] = none
find_token h ((id, row) ∷ rest) =
    if bytes_beq row.token_hash h then some (id, row) else find_token h rest

unfoldable pub watch_of : ℕ → WatchRow → Watch
watch_of id row = record {
  id = id;
  status = row.status;
  balance_sats = row.balance_sats;
  alarm_undelivered = row.alarm_undelivered;
}

-- The row that `create_watch` inserts, with the defaults of its other columns.
unfoldable pub new_watch : List ℕ → ℕ → WatchRow
new_watch h today = record {
  token_hash = h;
  balance_sats = 0;
  status = WatchStatus.active;
  alarm_undelivered = false;
  created_at = today;
}

module _ (sha256 : List ℕ → List ℕ) where
  unfoldable pub create_watch : List ℕ → ℕ → Database → Result StoreError (List ℕ × ℕ) × Database
  create_watch token today db =
      let id = db.watch_seq + 1 in
      transaction
        (λ db. elim (find_token (sha256 token) db.watches) [
          | some taken ↦ (err integrity, db)
          | none ↦ (
            ok (token, id),
            record db {
              watches = put id (new_watch (sha256 token) today) db.watches;
              watch_seq = id;
            },
          )
        ])
        db

  unfoldable pub watch_by_token : List ℕ → Database → Option Watch
  watch_by_token token db = elim (find_token (sha256 token) db.watches) [
    | none ↦ none
    | some (id, row) ↦ some (watch_of id row)
  ]

unfoldable pub watch : ℕ → Database → Result StoreError Watch
watch id db = elim (get id db.watches) [ none ↦ err unknown_row | some row ↦ ok (watch_of id row) ]

-- `_require_watch`.
unfoldable pub require_watch : ℕ → Database → Result StoreError Unit
require_watch id db = if has id db.watches then ok tt else err unknown_row

-- Whether an item, or a channel, is there and of the watch.
unfoldable pub item_of_watch : ℕ → ℕ → Dict ℕ ItemRow → Bool
item_of_watch id i items = elim (get i items) [ none ↦ false | some row ↦ row.watch_id == id ]

unfoldable pub channel_of_watch : ℕ → ℕ → Dict ℕ ChannelEntry → Bool
channel_of_watch id c channels = elim (get c channels) [
  | none ↦ false
  | some row ↦ row.watch_id == id
]

unfoldable pub delete_routes : (ℕ → ℕ → Bool) → List RouteRow → List RouteRow
delete_routes p [] = []
delete_routes p (r ∷ routes) =
    let rest = delete_routes p routes in if p r.item_id r.channel_id then rest else r ∷ rest

-- `DELETE FROM watch WHERE id = ?`, with what `ON DELETE CASCADE` takes.
unfoldable pub delete_watch : ℕ → Database → Database
delete_watch id db = record db {
  watches = remove id db.watches;
  items = delete_where (λ (row : ItemRow). row.watch_id == id) db.items;
  utxos = delete_coins (λ i h. item_of_watch id i db.items) db.utxos;
  channels = delete_where (λ (row : ChannelEntry). row.watch_id == id) db.channels;
  routes =
      delete_routes (λ i c. item_of_watch id i db.items || channel_of_watch id c db.channels)
        db.routes;
}

-- How the database answers `VACUUM` and the checkpoint: the code of the error that one of them
-- raises, 0 if it has none, or else whether the checkpoint was busy.
pub record Scrubbing : Type 0 where
  pub raised : Option ℕ
  pub busy : Bool

-- SQLITE_BUSY and SQLITE_LOCKED, by the low byte of the code.
unfoldable pub is_blocked : ℕ → Bool
is_blocked code = code % 256 == 5 || code % 256 == 6

-- `_scrub`.
unfoldable pub scrub : Scrubbing → Result StoreError Unit
scrub s = elim s.raised [
  | some code ↦ if is_blocked code then err purge_incomplete else err (operational code)
  | none ↦ if s.busy then err purge_incomplete else ok tt
]

-- The transaction of `purge_watch`, which deletes first and then asks whether there was a row.
unfoldable pub remove_watch : ℕ → Database → Result StoreError Unit × Database
remove_watch id db =
    transaction (λ db. (if has id db.watches then ok tt else err unknown_row, delete_watch id db))
      db

unfoldable pub purge_watch : Scrubbing → ℕ → Database → Result StoreError Unit × Database
purge_watch s id db = let (removed, left) = remove_watch id db in (removed >>= (λ _. scrub s), left)

unfoldable pub finish_purge : Scrubbing → Database → Result StoreError Unit × Database
finish_purge s db = (scrub s, db)
