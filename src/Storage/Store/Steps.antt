-- ===== src/Storage/Store/Steps.antt =====
-- The calls that write, and the atomic steps that they take between databases.
pub mod Taken
pub mod Valid
pub mod Sound
pub mod Life
pub mod Histories
pub mod Sealed
pub mod Holding
pub mod Removal
pub mod Activation
use coldwatch.Base.{
  ℕ, ◌+◌, ◌≡◌, refl, ap, Bool, true, false, Option, none, some, Option-cases, List, [], ◌∷◌, ◌++◌,
  ◌&&◌, ◌||◌, ◌==◌, not, if◌then◌else◌, String, Bool-cases, inl, inr, arith,
}
use coldwatch.Base.Keys.{ℕ_key, bytes_beq}
use coldwatch.Base.Dict.{Dict, get, has, put, get-has}
use coldwatch.Base.Results.{Result, ok, err, ◌>>=◌, Result-cases}
use coldwatch.Match.Keys.{Subkeys, spk_hmac}
use coldwatch.Crypto.Aead.{seal}
use coldwatch.Storage.Rows.{
  ItemStatus, same_status, is_tracked, StoreError, ItemRow, ChannelEntry, RouteRow, Database,
  empty_database, valid_mode, valid_severity,
}
use coldwatch.Storage.Coins.{insert_or_ignore, insert_all, delete_coins}
use coldwatch.Storage.Store.{transaction, crypto_call, aad, aad_spk, aad_label, aad_dest}
use coldwatch.Storage.Store.Watches
use coldwatch.Storage.Store.Items
use coldwatch.Storage.Store.Channels
use coldwatch.Storage.Store.Index
use coldwatch.Storage.Store.Watches.{
  Scrubbing, new_watch, find_token, delete_watch, require_watch, remove_watch,
}
use coldwatch.Storage.Store.Items.{
  set_status, update_status, transition, require_item, has_verified, new_item,
}
use coldwatch.Storage.Store.Channels.{insert_or_replace, same_owner, new_channel}
use coldwatch.Storage.Store.Index.{tracks}

-- The methods that write, with their arguments.
pub data Call : Type 0 where
  create_watch : List ℕ → ℕ → Call
  purge_watch : Scrubbing → ℕ → Call
  finish_purge : Scrubbing → Call
  add_item : List ℕ × List ℕ → ℕ → ℕ → String → List ℕ → List ℕ → String → Call
  arm : ℕ → List (List ℕ) → Call
  activate pause resume stop_item : ℕ → Call
  add_channel : List ℕ → ℕ → String → List ℕ → Bool → Call
  mark_verified : ℕ → ℕ → Call
  route : ℕ → ℕ → String → Call
  add_outpoint drop_outpoint : ℕ → List ℕ → Call

-- The one call that takes a coin from an item that goes on.
unfoldable pub is_drop : Call → Bool
is_drop (drop_outpoint i h) = true
is_drop call = false

-- The database that a call leaves.
module _ (sha256 : List ℕ → List ℕ) (hmac : List ℕ → List ℕ → List ℕ) (keys : Subkeys) where
  unfoldable pub after : Call → Database → Database
  after (create_watch token today) db = (Watches.create_watch sha256 token today db).1
  after (purge_watch s id) db = (Watches.purge_watch s id db).1
  after (finish_purge s) db = (Watches.finish_purge s db).1
  after (add_item nonces today id chain spk label mode) db =
      (Items.add_item hmac keys nonces today id chain spk label mode db).1
  after (arm i hs) db = (Items.arm i hs db).1
  after (activate i) db = (Items.activate i db).1
  after (pause i) db = (Items.pause i db).1
  after (resume i) db = (Items.resume i db).1
  after (stop_item i) db = (Items.stop_item i db).1
  after (add_channel nonce id kind dest ack) db =
      (Channels.add_channel keys nonce id kind dest ack db).1
  after (mark_verified today c) db = (Channels.mark_verified today c db).1
  after (route i c severity) db = (Channels.route i c severity db).1
  after (add_outpoint i h) db = Index.add_outpoint i h db
  after (drop_outpoint i h) db = Index.drop_outpoint i h db

  -- A row of calls.
  unfoldable pub after_all : List Call → Database → Database
  after_all [] db = db
  after_all (call ∷ calls) db = after_all calls (after call db)

-- What a call may do to the database, and when: an independent description of the store. Only a call
-- that is `dropping` spends.
pub data Step (dropping : Bool) (db : Database) : Database → Type 0 where
  stay : Step dropping db db
  mint :
      (h : List ℕ) (today : ℕ)
      → find_token h db.watches ≡ none
      → Step dropping db (record db {
        watches = put (db.watch_seq + 1) (new_watch h today) db.watches;
        watch_seq = db.watch_seq + 1;
      })
  purge : (id : ℕ) → has id db.watches ≡ true → Step dropping db (delete_watch id db)
  enrol :
      (row : ItemRow)
      → has row.watch_id db.watches ≡ true
      → row.status ≡ ItemStatus.arming
      → Step dropping db
          (record db { items = put (db.item_seq + 1) row db.items; item_seq = db.item_seq + 1 })
  baseline :
      (i : ℕ) (row : ItemRow) (hs : List (List ℕ))
      → get i db.items ≡ some row
      → row.status ≡ ItemStatus.arming
      → Step dropping db (record db {
        items = put i (record row { status = ItemStatus.armed }) db.items;
        utxos = insert_all i hs db.utxos;
      })
  confirm :
      (i : ℕ) (row : ItemRow)
      → get i db.items ≡ some row
      → row.status ≡ ItemStatus.armed
      → has_verified i db.routes db.channels ≡ true
      → Step dropping db
          (record db { items = put i (record row { status = ItemStatus.active }) db.items })
  mute :
      (i : ℕ) (row : ItemRow)
      → get i db.items ≡ some row
      → row.status ≡ ItemStatus.active
      → Step dropping db
          (record db { items = put i (record row { status = ItemStatus.paused }) db.items })
  unmute :
      (i : ℕ) (row : ItemRow)
      → get i db.items ≡ some row
      → row.status ≡ ItemStatus.paused
      → Step dropping db
          (record db { items = put i (record row { status = ItemStatus.active }) db.items })
  stop :
      (i : ℕ) (row : ItemRow)
      → get i db.items ≡ some row
      → Step dropping db (record db {
        items = put i (record row { status = ItemStatus.stopped }) db.items;
        utxos = delete_coins (λ j h. j == i) db.utxos;
      })
  connect :
      (row : ChannelEntry)
      → has row.watch_id db.watches ≡ true
      → row.verified_at ≡ none
      → Step dropping db (record db {
        channels = put (db.channel_seq + 1) row db.channels;
        channel_seq = db.channel_seq + 1;
      })
  verify :
      (c day : ℕ) (row : ChannelEntry)
      → get c db.channels ≡ some row
      → Step dropping db
          (record db { channels = put c (record row { verified_at = some day }) db.channels })
  link :
      (r : RouteRow)
      → same_owner r.item_id r.channel_id db ≡ some true
      → Step dropping db (record db { routes = insert_or_replace r db.routes })
  collect :
      (i : ℕ) (h : List ℕ)
      → tracks i db ≡ true
      → Step dropping db (record db { utxos = insert_or_ignore i h db.utxos })
  spend :
      (i : ℕ) (h : List ℕ)
      → dropping ≡ true
      → Step dropping db
          (record db { utxos = delete_coins (λ j k. j == i && bytes_beq k h) db.utxos })
