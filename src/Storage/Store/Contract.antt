-- ===== src/Storage/Store/Contract.antt =====
-- The store is an index for the matching loop.
use coldwatch.Base.{
  ℕ, ◌≡◌, refl, Bool, true, false, none, some, List, [], ◌∷◌, ◌&&◌, ◌==◌, ==_iff, if◌then◌else◌,
  arith,
}
use coldwatch.Base.Keys.{ℕ_key, bytes_beq, bytes_beq_iff}
use coldwatch.Base.Dict.{Dict, get, has, HasUniqueKeys}
use coldwatch.Match.Index.Contract.{IsWatchIndex}
use coldwatch.Match.Index.Items.{has_item}
use coldwatch.Storage.Rows.{is_tracked, ItemRow, Database}
use coldwatch.Storage.Coins.{
  insert_or_ignore, delete_coins, has_item-owners, has_coin-insert_or_ignore, has_coin-delete_coins,
}
use coldwatch.Storage.Store.Index.{
  watching, items_watching_spk, items_owning_outpoint, tracks, add_outpoint, drop_outpoint,
  store_index,
}

owning-add :
    (i j : ℕ) (h k : List ℕ) (db : Database)
    → has_item j (items_owning_outpoint k (add_outpoint i h db)) ≡ (
        if i == j && (bytes_beq h k && tracks i db)
        then true
        else has_item j (items_owning_outpoint k db))
unfolding items_owning_outpoint add_outpoint
owning-add i j h k db = ground (
  arith,
  has_item-owners j k db.utxos,
  has_item-owners j k (insert_or_ignore i h db.utxos),
  has_coin-insert_or_ignore i j h k db.utxos,
)

owning-drop :
    (i j : ℕ) (h k : List ℕ) (db : Database)
    → has_item j (items_owning_outpoint k (drop_outpoint i h db))
      ≡ (if i == j && bytes_beq h k then false else has_item j (items_owning_outpoint k db))
unfolding items_owning_outpoint drop_outpoint
owning-drop i j h k db =
    let gone : ℕ → List ℕ → Bool = λ x y. x == i && bytes_beq y h in
    ground (
      arith,
      has_item-owners j k db.utxos,
      has_item-owners j k (delete_coins gone db.utxos),
      has_coin-delete_coins gone j k db.utxos,
      ==_iff i j,
      ==_iff j i,
      bytes_beq_iff h k,
      bytes_beq_iff k h,
    )

pub watching-has :
    (i : ℕ) (h : List ℕ) (items : Dict ℕ ItemRow)
    → has i items ≡ false
    → has_item i (watching h items) ≡ false
unfolding watching has has_item
watching-has i h [] absent = refl
watching-has i h ((j, row) ∷ items) absent = ground (arith, watching-has i h items)

pub watching_tracked :
    (i : ℕ) (h : List ℕ) (items : Dict ℕ ItemRow)
    → HasUniqueKeys items
    → has_item i (watching h items) ≡ true
    → elim (get i items) [ none ↦ false | some row ↦ is_tracked row.status ] ≡ true
unfolding watching get has_item HasUniqueKeys
watching_tracked i h [] u there = absurd (ground arith)
watching_tracked i h ((j, row) ∷ items) (n, u) there =
    ground (arith, watching_tracked i h items u, watching-has i h items, ==_iff j i)

watching-add :
    (i : ℕ) (h k : List ℕ) (db : Database)
    → items_watching_spk k (add_outpoint i h db) ≡ items_watching_spk k db
unfolding items_watching_spk add_outpoint
watching-add i h k db = ground arith

items-add : (i : ℕ) (h : List ℕ) (db : Database) → (add_outpoint i h db).items ≡ db.items
unfolding add_outpoint
items-add i h db = ground arith

abbrev store_laws : IsWatchIndex store_index
store_laws = record {
  IsSound = λ db. HasUniqueKeys db.items;
  tracks = tracks;
  add-IsSound = λ i h db w. rw (items-add i h db) w;
  drop-IsSound = λ i h db w. unfold drop_outpoint in w;
  owning-add = λ i j h k db _. owning-add i j h k db;
  owning-drop = λ i j h k db _. owning-drop i j h k db;
  watching-add = watching-add;
  watching-drop = λ i h k db. unfold items_watching_spk drop_outpoint in refl;
  tracks-add = λ i j h db. unfold tracks in rw (items-add i h db) refl;
  tracks-drop = λ i j h db. unfold tracks drop_outpoint in refl;
  watching_tracked =
      λ i k db w there. unfold items_watching_spk tracks in watching_tracked i k db.items w there;
}

-- The store keeps the contract of `WatchIndex` on a database whose items have ids of their own, and
-- tracks the items that are armed, active or paused.
pub store_index-IsWatchIndex :
    (laws : IsWatchIndex store_index) × ((db : Database) → HasUniqueKeys db.items → laws.IsSound db)
    × ((i : ℕ) (db : Database) → laws.tracks i db ≡ tracks i db)
store_index-IsWatchIndex = (store_laws, λ db u. u, λ i db. refl)
