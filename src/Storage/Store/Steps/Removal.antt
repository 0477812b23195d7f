-- ===== src/Storage/Store/Steps/Removal.antt =====
-- What `purge_watch` removes, and what it leaves.
use coldwatch.Base.{
  ℕ, ◌≡◌, refl, Bool, true, false, none, List, ◌||◌, ◌==◌, ==_refl, if◌then◌else◌, arith,
}
use coldwatch.Base.Keys.{ℕ_key}
use coldwatch.Base.Dict.{get, has, get-remove, has-remove}
use coldwatch.Base.Results.{err}
use coldwatch.Match.Index.Items.{has_item}
use coldwatch.Storage.Rows.{unknown_row, ItemRow, ChannelEntry, Database}
use coldwatch.Storage.Tables.{get-delete_where}
use coldwatch.Storage.Coins.{delete_coins, has_item-owners, has_coin-delete_coins}
use coldwatch.Storage.Store.{transaction, end_transaction}
use coldwatch.Storage.Store.Watches.{
  Scrubbing, scrub, require_watch, item_of_watch, channel_of_watch, delete_watch, remove_watch,
  purge_watch,
}
use coldwatch.Storage.Store.Index.{items_owning_outpoint}
use coldwatch.Storage.Store.Steps.Valid.{IsValid, has_route, has_route-delete_routes}

pub purge_lem :
    (s : Scrubbing) (id : ℕ) (db : Database)
    → has id db.watches ≡ true
    → purge_watch s id db ≡ (scrub s, delete_watch id db)
unfolding purge_watch remove_watch require_watch transaction end_transaction
purge_lem s id db there = rw there refl

pub unknown_lem :
    (s : Scrubbing) (id : ℕ) (db : Database)
    → has id db.watches ≡ false
    → purge_watch s id db ≡ (err unknown_row, db)
unfolding purge_watch remove_watch require_watch transaction end_transaction
unknown_lem s id db absent = rw absent refl

-- On a database in order, `purge_watch` of a tenant that is there returns or raises as the scrub does.
-- Either way the tenant's items, coins, channels and routes are gone with it and every other row is
-- as it was, and to purge the tenant again raises `UnknownRow` and changes nothing.
pub purge_watch_removes :
    (s : Scrubbing) (id : ℕ) (db : Database)
    → IsValid db
    → has id db.watches ≡ true
    → let new = (purge_watch s id db).1 in
      ((purge_watch s id db).0 ≡ scrub s)
      × ((again : Scrubbing) → purge_watch again id new ≡ (err unknown_row, new))
      × ((k : ℕ) → get k new.watches ≡ (if id == k then none else get k db.watches))
      × ((i : ℕ) → get i new.items ≡ (if item_of_watch id i db.items then none else get i db.items))
      × ((c : ℕ)
          → get c new.channels
            ≡ (if channel_of_watch id c db.channels then none else get c db.channels))
      × ((i : ℕ) (h : List ℕ)
          → has_item i (items_owning_outpoint h new) ≡ (
              if item_of_watch id i db.items
              then false
              else has_item i (items_owning_outpoint h db)))
      × ((i c : ℕ)
          → has_route i c new.routes ≡ (
              if item_of_watch id i db.items || channel_of_watch id c db.channels
              then false
              else has_route i c db.routes))
purge_watch_removes s id db w there =
    let mine : ItemRow → Bool = λ row. row.watch_id == id in
    let ours : ChannelEntry → Bool = λ row. row.watch_id == id in
    let cut : ℕ → List ℕ → Bool = λ i h. item_of_watch id i db.items in
    rw (purge_lem s id db there) (
      refl,
      λ again.
          unknown_lem again id (delete_watch id db)
            (unfold delete_watch in rw (has-remove id id db.watches, ==_refl id) refl),
      λ k. unfold delete_watch in get-remove id k db.watches,
      λ i.
          unfold delete_watch item_of_watch in
          ground (arith, get-delete_where mine i db.items w.items.unique),
      λ c.
          unfold delete_watch channel_of_watch in
          ground (arith, get-delete_where ours c db.channels w.channels.unique),
      λ i h.
          unfold delete_watch items_owning_outpoint in
          ground (
            arith,
            has_item-owners i h db.utxos,
            has_item-owners i h (delete_coins cut db.utxos),
            has_coin-delete_coins cut i h db.utxos,
          ),
      λ i c.
          unfold delete_watch in
          has_route-delete_routes
            (λ i c. item_of_watch id i db.items || channel_of_watch id c db.channels) i c db.routes,
    )
