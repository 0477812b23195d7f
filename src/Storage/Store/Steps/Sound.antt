-- ===== src/Storage/Store/Steps/Sound.antt =====
-- Every step keeps a database in order.
use coldwatch.Base.{
  ℕ, ◌+◌, ◌≡◌, refl, sym, ◌∙◌, Bool, true, false, some, Option-cases, List, ◌&&◌, ◌||◌, ◌==◌,
  ==_iff, inl, inr, arith,
}
use coldwatch.Base.Keys.{ℕ_key, bytes_beq}
use coldwatch.Base.Dict.{Dict, get, has, put, get-put, has-put, has-remove}
use coldwatch.Storage.Rows.{
  ItemStatus, is_tracked, WatchRow, ItemRow, ChannelEntry, RouteRow, Database,
}
use coldwatch.Storage.Tables.{
  IsTable, remove-IsTable, insert-IsTable, update-IsTable, delete-IsTable, get-delete_where,
}
use coldwatch.Storage.Coins.{
  Coins, has_coin, insert_or_ignore, insert_all, delete_coins, has_coin-insert_or_ignore,
  has_coin-insert_all, has_coin-delete_coins,
}
use coldwatch.Storage.Store.Watches.{item_of_watch, channel_of_watch, delete_watch, new_watch}
use coldwatch.Storage.Store.Channels.{insert_or_replace, same_owner}
use coldwatch.Storage.Store.Index.{tracks}
use coldwatch.Storage.Store.Steps.{
  Step, stay, mint, purge, enrol, baseline, confirm, mute, unmute, stop, connect, verify, link,
  collect, spend,
}
use coldwatch.Storage.Store.Steps.Valid.{
  IsValid, get-some, get_next, has_route-delete_routes, has_route-insert_or_replace,
}

-- A step that gives an item another status, and keeps its coins only if that one is tracked.
move-IsValid :
    (i : ℕ) (row : ItemRow) (to : ItemStatus) (coins : Coins) (db : Database)
    → get i db.items ≡ some row
    → ((h : List ℕ) → has_coin i h coins ≡ true → is_tracked to ≡ true)
    → ((j : ℕ) (h : List ℕ)
        → (i == j) ≡ false
        → has_coin j h coins ≡ true
        → has_coin j h db.utxos ≡ true)
    → IsValid db
    → IsValid (record db { items = put i (record row { status = to }) db.items; utxos = coins })
unfolding tracks same_owner
move-IsValid i row to coins db there own others w =
    let new : ItemRow = record row { status = to } in
    record {
      watches = w.watches;
      items = update-IsTable db.item_seq i new db.items (get-some i row db.items there) w.items;
      channels = w.channels;
      coins = λ j h coin.
          ground (arith, get-put i j new db.items, own h, others j h, w.coins j h, ==_iff i j);
      enrolled = λ j found q.
          ground (arith, get-put i j new db.items, w.enrolled i row there, w.enrolled j found);
      connected = w.connected;
      routed = λ j c r. ground (arith, get-put i j new db.items, w.routed j c r, ==_iff i j);
    }

purge-IsValid : (id : ℕ) (db : Database) → IsValid db → IsValid (delete_watch id db)
unfolding delete_watch tracks same_owner item_of_watch channel_of_watch
purge-IsValid id db w =
    let mine : ItemRow → Bool = λ row. row.watch_id == id in
    let ours : ChannelEntry → Bool = λ row. row.watch_id == id in
    let cut : ℕ → List ℕ → Bool = λ i h. item_of_watch id i db.items in
    let cut_route : ℕ → ℕ → Bool =
      λ i c. item_of_watch id i db.items || channel_of_watch id c db.channels in
    let items_after = λ (i : ℕ). get-delete_where mine i db.items w.items.unique in
    let channels_after = λ (c : ℕ). get-delete_where ours c db.channels w.channels.unique in
    record {
      watches = remove-IsTable db.watch_seq id db.watches w.watches;
      items = delete-IsTable db.item_seq mine db.items w.items;
      channels = delete-IsTable db.channel_seq ours db.channels w.channels;
      coins = λ i h coin.
          ground (arith, has_coin-delete_coins cut i h db.utxos, items_after i, w.coins i h);
      enrolled = λ i row q. ground (
        arith,
        items_after i,
        has-remove id row.watch_id db.watches,
        w.enrolled i row,
        ==_iff row.watch_id id,
        ==_iff id row.watch_id,
      );
      connected = λ c row q. ground (
        arith,
        channels_after c,
        has-remove id row.watch_id db.watches,
        w.connected c row,
        ==_iff row.watch_id id,
        ==_iff id row.watch_id,
      );
      routed = λ i c r. ground (
        arith,
        has_route-delete_routes cut_route i c db.routes,
        items_after i,
        channels_after c,
        w.routed i c,
      );
    }

-- A new tenant takes nothing from those that are there.
watches-IsValid :
    (seq : ℕ) (watches : Dict ℕ WatchRow) (db : Database)
    → IsTable seq watches
    → ((k : ℕ) → has k db.watches ≡ true → has k watches ≡ true)
    → IsValid db
    → IsValid (record db { watches = watches; watch_seq = seq })
unfolding tracks same_owner
watches-IsValid seq watches db table keeps w = record {
  watches = table;
  items = w.items;
  channels = w.channels;
  coins = w.coins;
  enrolled = λ i row q. keeps row.watch_id (w.enrolled i row q);
  connected = λ c row q. keeps row.watch_id (w.connected c row q);
  routed = w.routed;
}

pub enrol-IsValid :
    (row : ItemRow) (db : Database)
    → has row.watch_id db.watches ≡ true
    → IsValid db
    → IsValid (record db { items = put (db.item_seq + 1) row db.items; item_seq = db.item_seq + 1 })
unfolding tracks same_owner
enrol-IsValid row db owner w =
    let id = db.item_seq + 1 in
    let before = λ (j : ℕ) (found : ItemRow). get_next db.item_seq j found db.items w.items in
    record {
      watches = w.watches;
      items = insert-IsTable db.item_seq row db.items w.items;
      channels = w.channels;
      coins = λ i h coin. elim (Option-cases (get i db.items)) [
        | inl absent ↦ absurd (ground (arith, w.coins i h coin))
        | inr (found, q) ↦
            ground (arith, get-put id i row db.items, w.coins i h coin, before i found q)
      ];
      enrolled = λ i found q. ground (arith, get-put id i row db.items, owner, w.enrolled i found);
      connected = w.connected;
      routed = λ i c r. elim (Option-cases (get i db.items)) [
        | inl absent ↦ absurd (ground (arith, w.routed i c r))
        | inr (found, q) ↦
            ground (arith, get-put id i row db.items, w.routed i c r, before i found q)
      ];
    }

-- A channel that is new, or keeps its tenant.
channels-IsValid :
    (seq : ℕ) (c : ℕ) (row : ChannelEntry) (db : Database)
    → IsTable seq (put c row db.channels)
    → has row.watch_id db.watches ≡ true
    → ((old : ChannelEntry) → get c db.channels ≡ some old → old.watch_id ≡ row.watch_id)
    → IsValid db
    → IsValid (record db { channels = put c row db.channels; channel_seq = seq })
unfolding tracks same_owner
channels-IsValid seq c row db table owner same w = record {
  watches = w.watches;
  items = w.items;
  channels = table;
  coins = w.coins;
  enrolled = w.enrolled;
  connected = λ j found q. ground (arith, get-put c j row db.channels, w.connected j found);
  routed = λ i j r. elim (Option-cases (get j db.channels)) [
    | inl absent ↦ absurd (ground (arith, w.routed i j r))
    | inr (found, q) ↦
        ground (arith, get-put c j row db.channels, w.routed i j r, same found, ==_iff c j)
  ];
}

-- Coins that are new are those of an item that is tracked.
coins-IsValid :
    (coins : Coins) (db : Database)
    → ((i : ℕ) (h : List ℕ) → has_coin i h coins ≡ true → tracks i db ≡ true)
    → IsValid db
    → IsValid (record db { utxos = coins })
unfolding tracks same_owner
coins-IsValid coins db live w = record {
  watches = w.watches;
  items = w.items;
  channels = w.channels;
  coins = live;
  enrolled = w.enrolled;
  connected = w.connected;
  routed = w.routed;
}

link-IsValid :
    (r : RouteRow) (db : Database)
    → same_owner r.item_id r.channel_id db ≡ some true
    → IsValid db
    → IsValid (record db { routes = insert_or_replace r db.routes })
unfolding tracks same_owner
link-IsValid r db owner w = record {
  watches = w.watches;
  items = w.items;
  channels = w.channels;
  coins = w.coins;
  enrolled = w.enrolled;
  connected = w.connected;
  routed = λ i c q. ground (
    arith,
    has_route-insert_or_replace r i c db.routes,
    w.routed i c,
    owner,
    ==_iff r.item_id i,
    ==_iff r.channel_id c,
  );
}

pub Step-IsValid : {d : Bool} {db new : Database} → Step d db new → IsValid db → IsValid new
Step-IsValid stay w = w
Step-IsValid {db = db} (mint h today fresh) w =
    watches-IsValid (db.watch_seq + 1) _ db (insert-IsTable db.watch_seq _ db.watches w.watches)
      (λ k there. ground (arith, has-put (db.watch_seq + 1) k (new_watch h today) db.watches)) w
Step-IsValid {db = db} (purge id there) w = purge-IsValid id db w
Step-IsValid {db = db} (enrol row owner arming) w = enrol-IsValid row db owner w
Step-IsValid {db = db} (baseline i row hs there arming) w =
    move-IsValid i row ItemStatus.armed (insert_all i hs db.utxos) db there
      (λ h coin. unfold is_tracked in refl)
      (λ j h other coin. sym (has_coin-insert_all i j hs h db.utxos other) ∙ coin) w
Step-IsValid {db = db} (confirm i row there armed proven) w =
    move-IsValid i row ItemStatus.active db.utxos db there (λ h coin. unfold is_tracked in refl)
      (λ j h other coin. coin) w
Step-IsValid {db = db} (mute i row there active) w =
    move-IsValid i row ItemStatus.paused db.utxos db there (λ h coin. unfold is_tracked in refl)
      (λ j h other coin. coin) w
Step-IsValid {db = db} (unmute i row there paused) w =
    move-IsValid i row ItemStatus.active db.utxos db there (λ h coin. unfold is_tracked in refl)
      (λ j h other coin. coin) w
Step-IsValid {db = db} (stop i row there) w =
    let gone : ℕ → List ℕ → Bool = λ j h. j == i in
    move-IsValid i row ItemStatus.stopped (delete_coins gone db.utxos) db there
      (λ h coin. absurd (ground (arith, has_coin-delete_coins gone i h db.utxos, ==_iff i i)))
      (λ j h other coin. ground (arith, has_coin-delete_coins gone j h db.utxos)) w
Step-IsValid {db = db} (connect row owner unverified) w =
    channels-IsValid (db.channel_seq + 1) (db.channel_seq + 1) row db
      (insert-IsTable db.channel_seq row db.channels w.channels) owner
      (λ old q.
        absurd (
          ground
            (arith, get_next db.channel_seq (db.channel_seq + 1) old db.channels w.channels q)))
      w
Step-IsValid {db = db} (verify c day row there) w =
    channels-IsValid db.channel_seq c _ db
      (update-IsTable db.channel_seq c _ db.channels (get-some c row db.channels there) w.channels)
      (w.connected c row there) (λ old q. ground arith) w
Step-IsValid {db = db} (link r owner) w = link-IsValid r db owner w
Step-IsValid {db = db} (collect i h live) w =
    coins-IsValid (insert_or_ignore i h db.utxos) db
      (λ j k coin.
        ground (arith, has_coin-insert_or_ignore i j h k db.utxos, w.coins j k, ==_iff i j))
      w
Step-IsValid {db = db} (spend i h drops) w =
    let gone : ℕ → List ℕ → Bool = λ j k. j == i && bytes_beq k h in
    coins-IsValid (delete_coins gone db.utxos) db
      (λ j k coin. ground (arith, has_coin-delete_coins gone j k db.utxos, w.coins j k)) w
