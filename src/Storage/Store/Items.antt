-- ===== src/Storage/Store/Items.antt =====
-- storage/store.py: the methods on items.
use coldwatch.Base.{
  ℕ, ◌+◌, Bool, true, false, Option, none, some, List, [], ◌∷◌, ◌||◌, ◌==◌, not, if◌then◌else◌,
  String,
}
use coldwatch.Base.Keys.{ℕ_key}
use coldwatch.Base.Dict.{Dict, get, has, put}
use coldwatch.Base.Results.{Result, ok, err, ◌>>=◌}
use coldwatch.Match.Keys.{Subkeys, spk_hmac}
use coldwatch.Crypto.Aead.{seal, open_}
use coldwatch.Storage.Rows.{
  ItemStatus, same_status, StoreError, unknown_row, not_armable, bad_transition, not_activatable,
  integrity, ItemRow, ChannelEntry, RouteRow, Database, valid_mode, Item,
}
use coldwatch.Storage.Coins.{insert_all, delete_coins}
use coldwatch.Storage.Store.{transaction, crypto_call, aad, aad_spk, aad_label}
use coldwatch.Storage.Store.Watches.{require_watch}

unfoldable pub item_from : ℕ → ItemRow → Item
item_from id row = record {
  id = id;
  watch_id = row.watch_id;
  chain = row.chain;
  status = row.status;
  incoming_mode = row.incoming_mode;
  drip_rate = row.drip_rate;
}

-- The row that `add_item` inserts, with the defaults of its other columns.
unfoldable pub new_item : ℕ → String → List ℕ → List ℕ → List ℕ → String → ℕ → ItemRow
new_item watch_id chain hash spk_ct label_ct mode today = record {
  watch_id = watch_id;
  chain = chain;
  spk_hmac = hash;
  spk_ct = spk_ct;
  label_ct = label_ct;
  incoming_mode = mode;
  status = ItemStatus.arming;
  drip_rate = 10;
  created_at = today;
}

-- `add_item`, of a watch, a chain, a script, a label in UTF-8 and a mode, with the nonces of the
-- two `seal` and the day.
unfoldable pub add_item :
    (List ℕ → List ℕ → List ℕ)
    → Subkeys
    → List ℕ × List ℕ
    → ℕ
    → ℕ
    → String
    → List ℕ
    → List ℕ
    → String
    → Database
    → Result StoreError ℕ × Database
add_item hmac keys (nonce_spk, nonce_label) today watch_id chain spk label mode db =
    let id = db.item_seq + 1 in
    transaction
      (λ db. inserted id db (do
        _ ← require_watch watch_id db
        spk_ct ← crypto_call (seal nonce_spk keys.store spk (aad aad_spk watch_id))
        label_ct ← crypto_call (seal nonce_label keys.store label (aad aad_label watch_id))
        if not (valid_mode mode)
            then err integrity
            else ok (
                new_item watch_id chain (spk_hmac hmac keys.match spk) spk_ct label_ct mode today)))
      db
  where
    inserted : ℕ → Database → Result StoreError ItemRow → Result StoreError ℕ × Database
    inserted id db (err why) = (err why, db)
    inserted id db (ok row) = (ok id, record db { items = put id row db.items; item_seq = id })

unfoldable pub item : ℕ → Database → Result StoreError Item
item i db = elim (get i db.items) [ none ↦ err unknown_row | some row ↦ ok (item_from i row) ]

-- `items_of`.
unfoldable pub items_in : ℕ → Dict ℕ ItemRow → List Item
items_in watch_id [] = []
items_in watch_id ((i, row) ∷ rest) =
    let more = items_in watch_id rest in
    if row.watch_id == watch_id then item_from i row ∷ more else more

unfoldable pub items_of : ℕ → Database → List Item
items_of watch_id db = items_in watch_id db.items

unfoldable pub item_spk : Subkeys → ℕ → Database → Result StoreError (List ℕ)
item_spk keys i db = elim (get i db.items) [
  | none ↦ err unknown_row
  | some row ↦ crypto_call (open_ keys.store row.spk_ct (aad aad_spk row.watch_id))
]

unfoldable pub item_label : Subkeys → ℕ → Database → Result StoreError (List ℕ)
item_label keys i db = elim (get i db.items) [
  | none ↦ err unknown_row
  | some row ↦ crypto_call (open_ keys.store row.label_ct (aad aad_label row.watch_id))
]

-- `_require_item`.
unfoldable pub require_item : ℕ → Database → Result StoreError Unit
require_item i db = if has i db.items then ok tt else err unknown_row

-- `UPDATE watch_item SET status = ? WHERE id = ?`.
unfoldable pub set_status : ItemStatus → ℕ → Database → Database
set_status to i db = elim (get i db.items) [
  | none ↦ db
  | some row ↦ record db { items = put i (record row { status = to }) db.items }
]

-- The same with `AND status = ?`; `none` where no row is in that status.
unfoldable pub update_status : ItemStatus → ItemStatus → ℕ → Database → Option Database
update_status from to i db = elim (get i db.items) [
  | none ↦ none
  | some row ↦ if same_status row.status from then some (set_status to i db) else none
]

unfoldable pub arm : ℕ → List (List ℕ) → Database → Result StoreError Unit × Database
arm i outpoint_hmacs db =
    transaction
      (λ db. elim (update_status ItemStatus.arming ItemStatus.armed i db) [
        | none ↦ (require_item i db >>= (λ _. err not_armable), db)
        | some armed ↦ (ok tt, record armed { utxos = insert_all i outpoint_hmacs armed.utxos })
      ])
      db

-- `EXISTS (SELECT 1 FROM route r JOIN channel c ... AND c.verified_at IS NOT NULL)`.
unfoldable pub is_verified : ChannelEntry → Bool
is_verified row = elim row.verified_at [ none ↦ false | some day ↦ true ]

unfoldable pub has_verified : ℕ → List RouteRow → Dict ℕ ChannelEntry → Bool
has_verified i [] channels = false
has_verified i (r ∷ routes) channels =
    let more = has_verified i routes channels in
    if r.item_id == i
    then elim (get r.channel_id channels) [
      | none ↦ more
      | some row ↦ if is_verified row then true else more
    ]
    else more

unfoldable pub activate : ℕ → Database → Result StoreError Unit × Database
activate i db =
    transaction
      (λ db. elim (get i db.items) [
        | none ↦ (err unknown_row, db)
        | some row ↦
            if not (same_status row.status ItemStatus.armed)
              || not (has_verified i db.routes db.channels)
            then (err not_activatable, db)
            else (ok tt, set_status ItemStatus.active i db)
      ])
      db

-- `_transition`.
unfoldable pub transition :
    ℕ → ItemStatus → ItemStatus → Database → Result StoreError Unit × Database
transition i from to db =
    transaction
      (λ db. elim (update_status from to i db) [
        | none ↦ (require_item i db >>= (λ _. err bad_transition), db)
        | some changed ↦ (ok tt, changed)
      ])
      db

unfoldable pub pause : ℕ → Database → Result StoreError Unit × Database
pause i db = transition i ItemStatus.active ItemStatus.paused db

unfoldable pub resume : ℕ → Database → Result StoreError Unit × Database
resume i db = transition i ItemStatus.paused ItemStatus.active db

unfoldable pub stop_item : ℕ → Database → Result StoreError Unit × Database
stop_item i db =
    transaction
      (λ db. elim (require_item i db) [
        | err why ↦ (err why, db)
        | ok _ ↦ (
          ok tt,
          set_status ItemStatus.stopped i
              (record db { utxos = delete_coins (λ j h. j == i) db.utxos }),
        )
      ])
      db
