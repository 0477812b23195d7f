-- ===== src/Storage/Store/Channels.antt =====
-- storage/store.py: the methods on channels and routes.
use coldwatch.Base.{
  ℕ, ◌+◌, Bool, Option, none, some, List, [], ◌∷◌, ◌&&◌, ◌||◌, ◌==◌, ltb, not, if◌then◌else◌,
  String,
}
use coldwatch.Base.Keys.{ℕ_key}
use coldwatch.Base.Dict.{Dict, get, put}
use coldwatch.Base.Results.{Result, ok, err, ◌>>=◌}
use coldwatch.Match.Keys.{Subkeys}
use coldwatch.Crypto.Aead.{seal, open_}
use coldwatch.Storage.Rows.{
  StoreError, unknown_row, different_watches, integrity, ChannelEntry, RouteRow, Database,
  valid_severity, ChannelRow,
}
use coldwatch.Storage.Store.{transaction, crypto_call, aad, aad_dest}
use coldwatch.Storage.Store.Watches.{require_watch}
use coldwatch.Storage.Store.Items.{is_verified}

unfoldable pub new_channel : ℕ → String → List ℕ → Bool → ChannelEntry
new_channel watch_id kind dest_ct ack = record {
  watch_id = watch_id;
  kind = kind;
  dest_ct = dest_ct;
  privacy_ack = ack;
  verified_at = none;
}

-- `add_channel`, of a watch, a kind, a destination in UTF-8 and `privacy_ack`, with the nonce of
-- its `seal`.
unfoldable pub add_channel :
    Subkeys → List ℕ → ℕ → String → List ℕ → Bool → Database → Result StoreError ℕ × Database
add_channel keys nonce watch_id kind dest ack db =
    let id = db.channel_seq + 1 in
    transaction
      (λ db. inserted id db (do
        _ ← require_watch watch_id db
        dest_ct ← crypto_call (seal nonce keys.store dest (aad aad_dest watch_id))
        ok (new_channel watch_id kind dest_ct ack)))
      db
  where
    inserted : ℕ → Database → Result StoreError ChannelEntry → Result StoreError ℕ × Database
    inserted id db (err why) = (err why, db)
    inserted id db (ok row) =
        (ok id, record db { channels = put id row db.channels; channel_seq = id })

unfoldable pub channel_dest : Subkeys → ℕ → Database → Result StoreError (List ℕ)
channel_dest keys c db = elim (get c db.channels) [
  | none ↦ err unknown_row
  | some row ↦ crypto_call (open_ keys.store row.dest_ct (aad aad_dest row.watch_id))
]

unfoldable pub mark_verified : ℕ → ℕ → Database → Result StoreError Unit × Database
mark_verified today c db =
    transaction
      (λ db. elim (get c db.channels) [
        | none ↦ (err unknown_row, db)
        | some row ↦ (
          ok tt,
          record db { channels = put c (record row { verified_at = some today }) db.channels },
        )
      ])
      db

-- `INSERT OR REPLACE INTO route`, in the order of the primary key (item_id, channel_id).
unfoldable pub insert_or_replace : RouteRow → List RouteRow → List RouteRow
insert_or_replace r [] = r ∷ []
insert_or_replace r (s ∷ routes) =
    if s.item_id == r.item_id && s.channel_id == r.channel_id
    then r ∷ routes
    else if ltb r.item_id s.item_id || (r.item_id == s.item_id && ltb r.channel_id s.channel_id)
    then r ∷ s ∷ routes
    else s ∷ insert_or_replace r routes

-- The query of `route`: whether the item and the channel are of the same watch.
unfoldable pub same_owner : ℕ → ℕ → Database → Option Bool
same_owner i c db = elim (get i db.items) [
  | none ↦ none
  | some item ↦ elim (get c db.channels) [
    | none ↦ none
    | some channel ↦ some (item.watch_id == channel.watch_id)
  ]
]

unfoldable pub route : ℕ → ℕ → String → Database → Result StoreError Unit × Database
route i c min_severity db =
    let row : RouteRow = record { item_id = i; channel_id = c; min_severity = min_severity } in
    transaction
      (λ db. elim (same_owner i c db) [
        | none ↦ (err unknown_row, db)
        | some same ↦
            if not same
            then (err different_watches, db)
            else if not (valid_severity min_severity)
            then (err integrity, db)
            else (ok tt, record db { routes = insert_or_replace row db.routes })
      ])
      db

unfoldable pub channel_row : RouteRow → ChannelEntry → ChannelRow
channel_row r row = record {
  id = r.channel_id;
  kind = row.kind;
  privacy_ack = row.privacy_ack;
  verified = is_verified row;
  min_severity = r.min_severity;
}

-- The join of `channels_for`.
unfoldable pub routed : ℕ → List RouteRow → Dict ℕ ChannelEntry → List ChannelRow
routed i [] channels = []
routed i (r ∷ routes) channels =
    let more = routed i routes channels in
    if r.item_id == i
    then elim (get r.channel_id channels) [ none ↦ more | some row ↦ channel_row r row ∷ more ]
    else more

unfoldable pub channels_for : ℕ → Database → List ChannelRow
channels_for i db = routed i db.routes db.channels
