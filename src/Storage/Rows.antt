-- ===== src/Storage/Rows.antt =====
-- storage/schema.py, and the types of storage/store.py. A table with an AUTOINCREMENT key is a
-- dictionary in the order of its keys, beside the highest key ever given; a column that no method
-- reads or writes is left out, and a text is its characters or its UTF-8 bytes.
use coldwatch.Base.{ℕ, Bool, true, false, Option, List, [], String, ◌||◌}
use coldwatch.Base.Keys.{string_key}
use coldwatch.Base.Dict.{Dict}
use coldwatch.Crypto.ChaCha20.{CryptoError}

pub data ItemStatus : Type 0 where
  arming armed active paused stopped : ItemStatus

pub data WatchStatus : Type 0 where
  active grace stopped : WatchStatus

-- `status = ?` and `row[0] != ...value`.
unfoldable pub same_status : ItemStatus → ItemStatus → Bool
same_status ItemStatus.arming ItemStatus.arming = true
same_status ItemStatus.armed ItemStatus.armed = true
same_status ItemStatus.active ItemStatus.active = true
same_status ItemStatus.paused ItemStatus.paused = true
same_status ItemStatus.stopped ItemStatus.stopped = true
same_status s t = false

-- `_TRACKED`.
unfoldable pub is_tracked : ItemStatus → Bool
is_tracked ItemStatus.arming = false
is_tracked ItemStatus.armed = true
is_tracked ItemStatus.active = true
is_tracked ItemStatus.paused = true
is_tracked ItemStatus.stopped = false

-- What the methods raise. `integrity` is SQLite's refusal of a CHECK or UNIQUE, `operational` any
-- other error of the database, with its code.
pub data StoreError : Type 0 where
  unknown_row purge_incomplete not_armable bad_transition not_activatable : StoreError
  different_watches integrity : StoreError
  operational : ℕ → StoreError
  crypto : CryptoError → StoreError

pub record WatchRow : Type 0 where
  pub token_hash : List ℕ
  pub balance_sats : ℕ
  pub status : WatchStatus
  pub alarm_undelivered : Bool
  pub created_at : ℕ

pub record ItemRow : Type 0 where
  pub watch_id : ℕ
  pub chain : String
  pub spk_hmac : List ℕ
  pub spk_ct : List ℕ
  pub label_ct : List ℕ
  pub incoming_mode : String
  pub status : ItemStatus
  pub drip_rate : ℕ
  pub created_at : ℕ

pub record ChannelEntry : Type 0 where
  pub watch_id : ℕ
  pub kind : String
  pub dest_ct : List ℕ
  pub privacy_ack : Bool
  pub verified_at : Option ℕ

pub record RouteRow : Type 0 where
  pub item_id : ℕ
  pub channel_id : ℕ
  pub min_severity : String

pub record Database : Type 0 where
  pub watches : Dict ℕ WatchRow
  pub items : Dict ℕ ItemRow
  -- Item and outpoint hash, in the order of the items.
  pub utxos : List (ℕ × List ℕ)
  pub channels : Dict ℕ ChannelEntry
  pub routes : List RouteRow
  -- `sqlite_sequence`.
  pub watch_seq : ℕ
  pub item_seq : ℕ
  pub channel_seq : ℕ

abbrev pub empty_database : Database
empty_database = record {
  watches = [];
  items = [];
  utxos = [];
  channels = [];
  routes = [];
  watch_seq = 0;
  item_seq = 0;
  channel_seq = 0;
}

-- `CHECK (incoming_mode IN ('info', 'mute'))`.
unfoldable pub valid_mode : String → Bool
valid_mode mode = string_key.agree mode "info" || string_key.agree mode "mute"

-- `CHECK (min_severity IN ('info', 'alarm'))`.
unfoldable pub valid_severity : String → Bool
valid_severity s = string_key.agree s "info" || string_key.agree s "alarm"

-- What `watch`, `item` and `channels_for` return.
pub record Watch : Type 0 where
  pub id : ℕ
  pub status : WatchStatus
  pub balance_sats : ℕ
  pub alarm_undelivered : Bool

pub record Item : Type 0 where
  pub id : ℕ
  pub watch_id : ℕ
  pub chain : String
  pub status : ItemStatus
  pub incoming_mode : String
  pub drip_rate : ℕ

pub record ChannelRow : Type 0 where
  pub id : ℕ
  pub kind : String
  pub privacy_ack : Bool
  pub verified : Bool
  pub min_severity : String
