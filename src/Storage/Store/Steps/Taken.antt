-- ===== src/Storage/Store/Steps/Taken.antt =====
-- Every call takes a step.
use coldwatch.Base.{
  ℕ, ◌≡◌, refl, ap, Bool, true, some, Option-cases, List, ◌==◌, String, Bool-cases, inl, inr, arith,
}
use coldwatch.Base.Keys.{ℕ_key}
use coldwatch.Base.Dict.{get, has, put, get-has}
use coldwatch.Base.Results.{err, ◌>>=◌, Result-cases}
use coldwatch.Match.Keys.{Subkeys, spk_hmac}
use coldwatch.Crypto.Aead.{seal}
use coldwatch.Storage.Rows.{
  ItemStatus, same_status, StoreError, ItemRow, Database, valid_mode, valid_severity,
}
use coldwatch.Storage.Coins.{delete_coins}
use coldwatch.Storage.Store.{
  transaction, end_transaction, crypto_call, aad, aad_spk, aad_label, aad_dest,
}
use coldwatch.Storage.Store.Watches
use coldwatch.Storage.Store.Items
use coldwatch.Storage.Store.Channels
use coldwatch.Storage.Store.Index
use coldwatch.Storage.Store.Watches.{
  Scrubbing, new_watch, find_token, delete_watch, require_watch, remove_watch,
}
use coldwatch.Storage.Store.Items.{
  set_status, update_status, transition, require_item, has_verified, new_item,
}
use coldwatch.Storage.Store.Channels.{insert_or_replace, same_owner, new_channel}
use coldwatch.Storage.Store.Index.{tracks}
use coldwatch.Storage.Store.Steps.{
  Call, create_watch, purge_watch, finish_purge, add_item, arm, activate, pause, resume, stop_item,
  add_channel, mark_verified, route, add_outpoint, drop_outpoint, is_drop, after, Step, stay, mint,
  purge, enrol, baseline, confirm, mute, unmute, stop, connect, verify, link, collect, spend,
}

pub same_status_lem : (s t : ItemStatus) → same_status s t ≡ true → s ≡ t
unfolding same_status
same_status_lem ItemStatus.arming ItemStatus.arming h = refl
same_status_lem ItemStatus.armed ItemStatus.armed h = refl
same_status_lem ItemStatus.active ItemStatus.active h = refl
same_status_lem ItemStatus.paused ItemStatus.paused h = refl
same_status_lem ItemStatus.stopped ItemStatus.stopped h = refl
same_status_lem s t h = absurd (ground arith)

-- What is left where no row is in the status that the update asks for.
refused_lem :
    (i : ℕ) (why : StoreError) (db : Database)
    → (end_transaction {A = Unit} db (require_item i db >>= (λ _. err why), db)).1 ≡ db
unfolding transaction end_transaction require_item
refused_lem i why db = ground arith

create-Step :
    {d : Bool} (sha256 : List ℕ → List ℕ) (token : List ℕ) (today : ℕ) (db : Database)
    → Step d db (Watches.create_watch sha256 token today db).1
unfolding Watches.create_watch transaction end_transaction
create-Step sha256 token today db = elim (Option-cases (find_token (sha256 token) db.watches)) [
  | inl new ↦ rw new (mint (sha256 token) today new)
  | inr (row, taken) ↦ rw taken stay
]

purge-Step :
    {d : Bool} (s : Scrubbing) (id : ℕ) (db : Database) → Step d db (Watches.purge_watch s id db).1
unfolding Watches.purge_watch remove_watch transaction end_transaction require_watch
purge-Step s id db = elim (Bool-cases (has id db.watches)) [
  | inl there ↦ rw there (purge id there)
  | inr absent ↦ rw absent stay
]

pub set_status_lem :
    (to : ItemStatus) (i : ℕ) (row : ItemRow) (db : Database)
    → get i db.items ≡ some row
    → set_status to i db ≡ record db { items = put i (record row { status = to }) db.items }
unfolding set_status
set_status_lem to i row db there = rw (set_status, there) refl

transition-Step :
    {d : Bool} (i : ℕ) (from to : ItemStatus) (db : Database)
    → ((row : ItemRow)
        → get i db.items ≡ some row
        → row.status ≡ from
        → Step d db (record db { items = put i (record row { status = to }) db.items }))
    → Step d db (transition i from to db).1
unfolding transition update_status transaction end_transaction
transition-Step i from to db step = elim (Option-cases (get i db.items)) [
  | inl absent ↦ rw (absent, refused_lem i StoreError.bad_transition db) stay
  | inr (row, there) ↦ elim (Bool-cases (same_status row.status from)) [
    | inr other ↦ rw (there, other, refused_lem i StoreError.bad_transition db) stay
    | inl same ↦
        rw (there, same, set_status_lem to i row db there)
          (step row there (same_status_lem row.status from same))
  ]
]

arm-Step : {d : Bool} (i : ℕ) (hs : List (List ℕ)) (db : Database) → Step d db (Items.arm i hs db).1
unfolding Items.arm update_status transaction end_transaction
arm-Step i hs db = elim (Option-cases (get i db.items)) [
  | inl absent ↦ rw (absent, refused_lem i StoreError.not_armable db) stay
  | inr (row, there) ↦ elim (Bool-cases (same_status row.status ItemStatus.arming)) [
    | inr other ↦ rw (there, other, refused_lem i StoreError.not_armable db) stay
    | inl same ↦
        rw (there, same, set_status_lem ItemStatus.armed i row db there)
          (baseline i row hs there (same_status_lem row.status ItemStatus.arming same))
  ]
]

activate-Step : {d : Bool} (i : ℕ) (db : Database) → Step d db (Items.activate i db).1
unfolding Items.activate transaction end_transaction
activate-Step i db = elim (Option-cases (get i db.items)) [
  | inl absent ↦ rw absent stay
  | inr (row, there) ↦ elim (Bool-cases (same_status row.status ItemStatus.armed)) [
    | inr other ↦ rw (there, other) stay
    | inl same ↦ elim (Bool-cases (has_verified i db.routes db.channels)) [
      | inr unproven ↦ rw (there, same, unproven) stay
      | inl proven ↦
          rw (there, same, proven, set_status_lem ItemStatus.active i row db there)
            (confirm i row there (same_status_lem row.status ItemStatus.armed same) proven)
    ]
  ]
]

stop-Step : {d : Bool} (i : ℕ) (db : Database) → Step d db (Items.stop_item i db).1
unfolding Items.stop_item require_item transaction end_transaction
stop-Step i db = elim (Option-cases (get i db.items)) [
  | inl absent ↦ rw (get-has i db.items absent) stay
  | inr (row, there) ↦ elim (Bool-cases (has i db.items)) [
    | inr absent ↦ rw absent stay
    | inl here ↦
        rw
          (
            here,
            set_status_lem ItemStatus.stopped i row
                (record db { utxos = delete_coins (λ j h. j == i) db.utxos }) there,
          )
          (stop i row there)
  ]
]

mark-Step : {d : Bool} (day c : ℕ) (db : Database) → Step d db (Channels.mark_verified day c db).1
unfolding Channels.mark_verified transaction end_transaction
mark-Step day c db = elim (Option-cases (get c db.channels)) [
  | inl absent ↦ rw absent stay
  | inr (row, there) ↦ rw there (verify c day row there)
]

-- A sealed value that comes back, or an error.
add_channel-Step :
    {d : Bool} (keys : Subkeys) (nonce : List ℕ) (id : ℕ) (kind : String) (dest : List ℕ)
    (ack : Bool) (db : Database)
    → Step d db (Channels.add_channel keys nonce id kind dest ack db).1
unfolding Channels.add_channel transaction end_transaction require_watch
add_channel-Step keys nonce id kind dest ack db = elim (Bool-cases (has id db.watches)) [
  | inr absent ↦ rw absent stay
  | inl there ↦ elim (Result-cases (crypto_call (seal nonce keys.store dest (aad aad_dest id)))) [
    | inr (why, failed) ↦ rw (there, failed) stay
    | inl (ct, sealed) ↦
        rw (there, sealed)
          (connect (new_channel id kind ct ack) (unfold new_channel in there)
            (unfold new_channel in refl))
  ]
]

add_item-Step :
    {d : Bool} (hmac : List ℕ → List ℕ → List ℕ) (keys : Subkeys) (n m : List ℕ) (today id : ℕ)
    (chain : String) (spk label : List ℕ) (mode : String) (db : Database)
    → Step d db (Items.add_item hmac keys (n, m) today id chain spk label mode db).1
unfolding Items.add_item transaction end_transaction require_watch
add_item-Step hmac keys n m today id chain spk label mode db =
    elim (Bool-cases (has id db.watches)) [
      | inr absent ↦ rw absent stay
      | inl there ↦ elim (Result-cases (crypto_call (seal n keys.store spk (aad aad_spk id)))) [
        | inr (why, failed) ↦ rw (there, failed) stay
        | inl (ct, sealed) ↦
            elim (Result-cases (crypto_call (seal m keys.store label (aad aad_label id)))) [
              | inr (why, failed) ↦ rw (there, sealed, failed) stay
              | inl (ct', sealed') ↦ elim (Bool-cases (valid_mode mode)) [
                | inr bad ↦ rw (there, sealed, sealed', bad) stay
                | inl good ↦
                    rw (there, sealed, sealed', good)
                      (enrol (new_item id chain (spk_hmac hmac keys.match spk) ct ct' mode today)
                        (unfold new_item in there) (unfold new_item in refl))
              ]
            ]
      ]
    ]

route-Step :
    {d : Bool} (i c : ℕ) (severity : String) (db : Database)
    → Step d db (Channels.route i c severity db).1
unfolding Channels.route transaction end_transaction
route-Step i c severity db = elim (Option-cases (same_owner i c db)) [
  | inl absent ↦ rw absent stay
  | inr (same, there) ↦ elim (Bool-cases same) [
    | inr other ↦ rw (there, other) stay
    | inl one ↦ elim (Bool-cases (valid_severity severity)) [
      | inr bad ↦ rw (there, one, bad) stay
      | inl good ↦
          rw (there, one, good)
            (link (record { item_id = i; channel_id = c; min_severity = severity })
              (rw there (ap some one)))
    ]
  ]
]

pub add_outpoint-Step :
    {d : Bool} (i : ℕ) (h : List ℕ) (db : Database) → Step d db (Index.add_outpoint i h db)
unfolding Index.add_outpoint
add_outpoint-Step i h db = elim (Bool-cases (tracks i db)) [
  | inl live ↦ rw live (collect i h live)
  | inr dead ↦ rw dead stay
]

-- Every call, whatever its arguments and the database, takes one step of the description or leaves
-- the database as it was.
pub after-Step :
    (sha256 : List ℕ → List ℕ) (hmac : List ℕ → List ℕ → List ℕ) (keys : Subkeys) (call : Call)
    (db : Database)
    → Step (is_drop call) db (after sha256 hmac keys call db)
unfolding after is_drop
after-Step sha256 hmac keys (create_watch token today) db = create-Step sha256 token today db
after-Step sha256 hmac keys (purge_watch s id) db = purge-Step s id db
after-Step sha256 hmac keys (finish_purge s) db = unfold Watches.finish_purge in stay
after-Step sha256 hmac keys (add_item (n, m) today id chain spk label mode) db =
    add_item-Step hmac keys n m today id chain spk label mode db
after-Step sha256 hmac keys (arm i hs) db = arm-Step i hs db
after-Step sha256 hmac keys (activate i) db = activate-Step i db
after-Step sha256 hmac keys (pause i) db =
    unfold Items.pause in transition-Step i ItemStatus.active ItemStatus.paused db (mute i)
after-Step sha256 hmac keys (resume i) db =
    unfold Items.resume in transition-Step i ItemStatus.paused ItemStatus.active db (unmute i)
after-Step sha256 hmac keys (stop_item i) db = stop-Step i db
after-Step sha256 hmac keys (add_channel nonce id kind dest ack) db =
    add_channel-Step keys nonce id kind dest ack db
after-Step sha256 hmac keys (mark_verified today c) db = mark-Step today c db
after-Step sha256 hmac keys (route i c severity) db = route-Step i c severity db
after-Step sha256 hmac keys (add_outpoint i h) db = add_outpoint-Step i h db
after-Step sha256 hmac keys (drop_outpoint i h) db = unfold Index.drop_outpoint in spend i h refl
