-- ===== src/Storage/Store/Tests.antt =====
-- The theorems on the store at a small database.
use coldwatch.Base.{
  ℕ, ◌≡◌, ◌⊎◌, refl, true, false, none, some, List, [], ◌∷◌, map, ◌++◌, ◌||◌, ◌==◌, ==_iff,
  if◌then◌else◌, replicate, take, arith,
}
use coldwatch.Base.Keys.{ℕ_key}
use coldwatch.Base.Dict.{get, has, put, HasUniqueKeys}
use coldwatch.Base.Results.{ok, err}
use coldwatch.Match.Keys.{
  Subkeys, spk_hmac, outpoint_hmac, canonical_outpoint, tagged, tagged_message,
}
use coldwatch.Base.Bytes.{to_le}
use coldwatch.Match.Matcher.{
  Matcher, match, apply, apply_outputs, outgoing, incoming, each, spend_input, pay_output,
  drop_owners, add_owners,
}
use coldwatch.Match.Matcher.Reports.{coin}
use coldwatch.Match.Matcher.Record.{spends}
use coldwatch.Match.Matcher.Samples.{
  no_coins, deposit, spender, deposit-IsMatchable, spender-IsMatchable,
}
use coldwatch.Storage.Alarm.{store_alarms, here, called}
use coldwatch.Match.Index.Items.{has_item, is_empty}
use coldwatch.Storage.Rows.{
  ItemStatus, WatchStatus, StoreError, WatchRow, ItemRow, ChannelEntry, Database, Item, is_tracked,
  same_status, unknown_row, valid_mode, valid_severity,
}
use coldwatch.Storage.Coins.{has_coin, place, insert_or_ignore, delete_coins}
use coldwatch.Storage.Store.{transaction, end_transaction}
use coldwatch.Storage.Store.Watches.{Scrubbing, scrub, purge_watch, item_of_watch, channel_of_watch}
use coldwatch.Storage.Store.Items.{
  activate, pause, transition, update_status, set_status, has_verified, is_verified, stop_item,
  require_item, item, add_item, item_spk, item_label,
}
use coldwatch.Storage.Store.Channels.{channels_for, same_owner, route, insert_or_replace}
use coldwatch.Storage.Store.Index.{
  store_index, tracks, add_outpoint, drop_outpoint, watching, items_watching_spk,
  items_owning_outpoint,
}
use coldwatch.Storage.Store.Steps.{Call, is_drop, after, after_all}
use coldwatch.Storage.Tables.{IsAscending, IsAbove}
use coldwatch.Storage.Store.Steps.Valid.{IsValid, has_route}
use coldwatch.Storage.Store.Steps.Life.{Moves}
use coldwatch.Storage.Store.Steps.Histories.{is_over, after-Moves, after_all-IsValid, over_for_good}
use coldwatch.Storage.Store.Steps.Sealed.{add_item-item_spk}
use coldwatch.Storage.Store.Steps.Removal.{purge_watch_removes}
use coldwatch.Storage.Store.Steps.Activation.{any_verified, activate_proven}

abbrev toy_sha256 : List ℕ → List ℕ
toy_sha256 message = take 32 (message ++ replicate 32 0)

abbrev toy_hmac : List ℕ → List ℕ → List ℕ
toy_hmac key message = take 32 (message ++ key)

abbrev keys : Subkeys
keys = record { match = replicate 32 1; store = replicate 32 2 }

abbrev tenant : WatchRow
tenant = record {
  token_hash = replicate 32 7;
  balance_sats = 0;
  status = WatchStatus.active;
  alarm_undelivered = false;
  created_at = 20000;
}

abbrev vault : ItemRow
vault = record {
  watch_id = 1;
  chain = "btc";
  spk_hmac = 4 ∷ [];
  spk_ct = 5 ∷ [];
  label_ct = 6 ∷ [];
  incoming_mode = "info";
  status = ItemStatus.armed;
  drip_rate = 10;
  created_at = 20000;
}

abbrev mail : ChannelEntry
mail = record {
  watch_id = 1;
  kind = "email";
  dest_ct = 8 ∷ [];
  privacy_ack = true;
  verified_at = some 20001;
}

-- One tenant with an armed item that watches the script of the hash, its coin, and a channel that the
-- item is routed to.
abbrev holding : List ℕ → Database
holding hash = record {
  watches = (1, tenant) ∷ [];
  items = (1, record vault { spk_hmac = hash }) ∷ [];
  utxos = (1, 9 ∷ []) ∷ [];
  channels = (1, mail) ∷ [];
  routes = record { item_id = 1; channel_id = 1; min_severity = "alarm" } ∷ [];
  watch_seq = 1;
  item_seq = 2;
  channel_seq = 1;
}

holding-IsValid : (hash : List ℕ) → IsValid (holding hash)
unfolding has_coin get has has_route HasUniqueKeys IsAscending IsAbove tracks is_tracked same_owner
holding-IsValid hash = record {
  watches = record { unique = (refl, tt); ascending = (tt, tt); bounded = λ k h. ground arith };
  items = record { unique = (refl, tt); ascending = (tt, tt); bounded = λ k h. ground arith };
  channels = record { unique = (refl, tt); ascending = (tt, tt); bounded = λ k h. ground arith };
  coins = λ i h coin. ground (arith, ==_iff 1 i);
  enrolled = λ i row q. ground (arith, ==_iff 1 i);
  connected = λ c row q. ground (arith, ==_iff 1 c);
  routed = λ i c r. ground (arith, ==_iff 1 i, ==_iff 1 c);
}

abbrev sample : Database
sample = holding (4 ∷ [])

sample-IsValid : IsValid sample
sample-IsValid = holding-IsValid (4 ∷ [])

-- A checkpoint that another connection blocks.
abbrev blocked : Scrubbing
blocked = record { raised = none; busy = true }

after_all-IsValid_example :
    IsValid (after_all toy_sha256 toy_hmac keys (Call.activate 1 ∷ Call.pause 1 ∷ []) sample)
after_all-IsValid_example =
    after_all-IsValid toy_sha256 toy_hmac keys (Call.activate 1 ∷ Call.pause 1 ∷ []) sample
      sample-IsValid

after-Moves_example :
    Moves 2 1 (some vault) (get 1 (after toy_sha256 toy_hmac keys (Call.activate 1) sample).items)
unfolding get
after-Moves_example = after-Moves toy_sha256 toy_hmac keys (Call.activate 1) sample sample-IsValid 1

-- The id 2 was given, and its item is gone.
over_for_good_example :
    let new =
      after_all toy_sha256 toy_hmac keys
        (Call.arm 2 ((3 ∷ []) ∷ []) ∷ Call.add_outpoint 2 (3 ∷ []) ∷ [])
        sample in
    (is_over (get 2 new.items) ≡ true)
    × (get 2 sample.items ≡ none → get 2 new.items ≡ none)
    × ((h : List ℕ)
        → (has_item 2 (items_watching_spk h new) ≡ false)
          × (has_item 2 (items_owning_outpoint h new) ≡ false))
unfolding is_over get
over_for_good_example =
    over_for_good toy_sha256 toy_hmac keys
      (Call.arm 2 ((3 ∷ []) ∷ []) ∷ Call.add_outpoint 2 (3 ∷ []) ∷ []) 2 sample sample-IsValid
      (omega arith) refl

add_item-item_spk_example :
    (new : Database) × (add_item toy_hmac keys
        (replicate 12 3, replicate 12 4)
        20002
        1
        "btc"
        (81 ∷ [])
        (104 ∷ 105 ∷ [])
        "mute"
        sample
      ≡ (ok 3, new))
    × ((calls : List Call)
        → let later = after_all toy_sha256 toy_hmac keys calls new in
          (get 3 later.items ≡ none)
          ⊎ ((item_spk keys 3 later ≡ ok (81 ∷ []))
              × (item_label keys 3 later ≡ ok (104 ∷ 105 ∷ []))
              × (has_item 3 (items_watching_spk (spk_hmac toy_hmac keys.match (81 ∷ [])) later)
                  ≡ tracks 3 later)))
unfolding has valid_mode
add_item-item_spk_example =
    add_item-item_spk toy_sha256 toy_hmac keys (replicate 12 3) (replicate 12 4) 20002 1 "btc"
      (81 ∷ []) (104 ∷ 105 ∷ []) "mute" sample sample-IsValid refl refl refl refl (omega arith)
      (omega arith) refl

purge_watch_removes_example :
    let new = (purge_watch blocked 1 sample).1 in
    ((purge_watch blocked 1 sample).0 ≡ scrub blocked)
    × ((again : Scrubbing) → purge_watch again 1 new ≡ (err unknown_row, new))
    × ((k : ℕ) → get k new.watches ≡ (if 1 == k then none else get k sample.watches))
    × ((i : ℕ)
        → get i new.items ≡ (if item_of_watch 1 i sample.items then none else get i sample.items))
    × ((c : ℕ)
        → get c new.channels
          ≡ (if channel_of_watch 1 c sample.channels then none else get c sample.channels))
    × ((i : ℕ) (h : List ℕ)
        → has_item i (items_owning_outpoint h new) ≡ (
            if item_of_watch 1 i sample.items
            then false
            else has_item i (items_owning_outpoint h sample)))
    × ((i c : ℕ)
        → has_route i c new.routes ≡ (
            if item_of_watch 1 i sample.items || channel_of_watch 1 c sample.channels
            then false
            else has_route i c sample.routes))
unfolding has
purge_watch_removes_example = purge_watch_removes blocked 1 sample sample-IsValid refl

activate_proven_example :
    ((before : Item) × ((activate 1 sample).0 ≡ ok tt)
      × (item 1 sample ≡ ok before)
      × (before.status ≡ ItemStatus.armed)
      × (any_verified (channels_for 1 sample) ≡ true)
      × (item 1 (activate 1 sample).1 ≡ ok (record before { status = ItemStatus.active })))
    ⊎ ((why : StoreError) × (activate 1 sample ≡ (err why, sample))
        × ((before : Item)
            → item 1 sample ≡ ok before
            → before.status ≡ ItemStatus.armed
            → any_verified (channels_for 1 sample) ≡ false))
activate_proven_example = activate_proven 1 sample

-- An item is activated and muted, and its coins follow.
lived :
    let db =
      after_all toy_sha256 toy_hmac keys
        (Call.activate 1
          ∷ Call.pause 1
          ∷ Call.add_outpoint 1 (2 ∷ [])
          ∷ Call.drop_outpoint 1 (9 ∷ [])
          ∷ [])
        sample in
    (get 1 db.items ≡ some (record vault { status = ItemStatus.paused }))
    × (db.utxos ≡ (1, 2 ∷ []) ∷ [])
unfolding after_all after activate pause transition update_status set_status same_status
    has_verified is_verified transaction end_transaction tracks is_tracked add_outpoint
    drop_outpoint insert_or_ignore has_coin place delete_coins get put
lived = (refl, refl)

-- A stopped item keeps no coin; a script of an armed one finds it; a route is one per pair.
stopped :
    let db =
      after_all toy_sha256 toy_hmac keys
        (Call.stop_item 1 ∷ Call.add_outpoint 1 (2 ∷ []) ∷ Call.route 1 1 "info" ∷ [])
        sample in
    (db.utxos ≡ [])
    × (items_watching_spk (4 ∷ []) db ≡ [])
    × (items_watching_spk (4 ∷ []) sample ≡ 1 ∷ [])
    × (db.routes ≡ record { item_id = 1; channel_id = 1; min_severity = "info" } ∷ [])
unfolding after_all after stop_item require_item set_status transaction end_transaction tracks
    is_tracked add_outpoint delete_coins get has put route same_owner insert_or_replace
    valid_severity items_watching_spk watching
stopped = (refl, refl, refl, refl)

-- The item watches the script 51, to which the deposit pays.
abbrev script_hash : List ℕ
script_hash = spk_hmac toy_hmac keys.match (0x51 ∷ [])

abbrev watcher : Matcher Database
watcher = record { index = holding script_hash; provisional = no_coins }

abbrev credited : Matcher Database
credited = (apply store_index toy_hmac keys.match deposit watcher).1

abbrev deposited : List ℕ
deposited = coin toy_hmac keys.match deposit.txid 0

live : tracks 1 (after toy_sha256 toy_hmac keys (Call.activate 1) credited.index) ≡ true
unfolding tracks is_tracked after activate set_status same_status has_verified is_verified
    transaction end_transaction get put apply apply_outputs each spend_input pay_output add_owners
    outpoint_hmac canonical_outpoint spk_hmac tagged tagged_message to_le is_empty
    items_watching_spk watching add_outpoint insert_or_ignore has_coin place
    coldwatch.Match.Matcher.forget
live = refl

spent : spends toy_hmac keys.match spender.inputs deposited ≡ true
unfolding spends tagged tagged_message to_le
spent = refl

store_alarms_example :
    (alarmed told : List ℕ) × (match store_index toy_hmac keys.match spender (record credited {
      index = after toy_sha256 toy_hmac keys (Call.activate 1) credited.index;
    })
      ≡ ok (
          map (λ j. record { item_id = j; direction = outgoing }) alarmed
          ++ map (λ j. record { item_id = j; direction = incoming }) told))
    × (has_item 1 alarmed ≡ true)
unfolding get
store_alarms_example =
    store_alarms toy_sha256 toy_hmac keys 1 (record vault { spk_hmac = script_hash }) deposit
      spender [] [] (record { vout = 0; spk = 0x51 ∷ [] }) watcher (holding-IsValid script_hash)
      refl (unfold is_tracked in refl) refl deposit-IsMatchable refl
      (called here (Call.activate 1) (unfold is_drop in refl) live) spender-IsMatchable spent
