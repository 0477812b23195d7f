-- ===== src/Storage/Store/Steps/Holding.antt =====
-- An item that goes on being tracked keeps its coins.
use coldwatch.Base.{
  ℕ, ◌≡◌, ◌∙◌, Bool, true, false, none, some, List, ◌==◌, ==_iff, Bool-cases, inl, inr, arith,
}
use coldwatch.Base.Keys.{ℕ_key}
use coldwatch.Base.Dict.{get, put, get-put}
use coldwatch.Storage.Rows.{ItemStatus, is_tracked, ItemRow, Database}
use coldwatch.Storage.Tables.{get-delete_where}
use coldwatch.Storage.Coins.{
  has_coin, insert_all, delete_coins, has_coin-insert_or_ignore, has_coin-insert_all,
  has_coin-insert_all_self, has_coin-delete_coins,
}
use coldwatch.Storage.Store.Watches.{item_of_watch, delete_watch}
use coldwatch.Storage.Store.Index.{tracks}
use coldwatch.Storage.Store.Steps.{
  Step, stay, mint, purge, enrol, baseline, confirm, mute, unmute, stop, connect, verify, link,
  collect, spend,
}
use coldwatch.Storage.Store.Steps.Valid.{IsValid}

purge_keeps :
    (id i : ℕ) (h : List ℕ) (db : Database)
    → IsValid db
    → has_coin i h db.utxos ≡ true
    → tracks i (delete_watch id db) ≡ true
    → has_coin i h (delete_watch id db).utxos ≡ true
unfolding delete_watch tracks item_of_watch
purge_keeps id i h db w coin live =
    let cut : ℕ → List ℕ → Bool = λ j g. item_of_watch id j db.items in
    ground (
      arith,
      has_coin-delete_coins cut i h db.utxos,
      get-delete_where (λ (row : ItemRow). row.watch_id == id) i db.items w.items.unique,
    )

baseline_keeps :
    (i j : ℕ) (hs : List (List ℕ)) (h : List ℕ) (db : Database)
    → has_coin i h db.utxos ≡ true
    → has_coin i h (insert_all j hs db.utxos) ≡ true
baseline_keeps i j hs h db coin = elim (Bool-cases (j == i)) [
  | inr other ↦ has_coin-insert_all j i hs h db.utxos other ∙ coin
  | inl same ↦ rw ((==_iff j i).0 same) (ground (arith, has_coin-insert_all_self i hs h db.utxos))
]

stop_keeps :
    (i j : ℕ) (row : ItemRow) (h : List ℕ) (db : Database)
    → has_coin i h db.utxos ≡ true
    → elim (get i (put j (record row { status = ItemStatus.stopped }) db.items)) [
      | none ↦ false
      | some found ↦ is_tracked found.status
    ]
      ≡ true
    → has_coin i h (delete_coins (λ k g. k == j) db.utxos) ≡ true
unfolding is_tracked
stop_keeps i j row h db coin live = ground (
  arith,
  has_coin-delete_coins (λ k g. k == j) i h db.utxos,
  get-put j i (record row { status = ItemStatus.stopped }) db.items,
  ==_iff i j,
  ==_iff j i,
)

-- No step but a drop takes a coin from an item that is tracked after it.
pub Step-keeps :
    {db new : Database}
    → Step false db new
    → IsValid db
    → (i : ℕ) (h : List ℕ) → has_coin i h db.utxos ≡ true
    → tracks i new ≡ true
    → has_coin i h new.utxos ≡ true
Step-keeps stay w i h coin live = coin
Step-keeps (mint g today fresh) w i h coin live = coin
Step-keeps {db} (purge id there) w i h coin live = purge_keeps id i h db w coin live
Step-keeps (enrol row owner arming) w i h coin live = coin
Step-keeps {db} (baseline j row hs there arming) w i h coin live = baseline_keeps i j hs h db coin
Step-keeps (confirm j row there armed proven) w i h coin live = coin
Step-keeps (mute j row there active) w i h coin live = coin
Step-keeps (unmute j row there paused) w i h coin live = coin
Step-keeps {db} (stop j row there) w i h coin live =
    stop_keeps i j row h db coin (unfold tracks in live)
Step-keeps (connect row owner unverified) w i h coin live = coin
Step-keeps (verify c day row there) w i h coin live = coin
Step-keeps (link r owner) w i h coin live = coin
Step-keeps {db} (collect j g there) w i h coin live =
    ground (arith, has_coin-insert_or_ignore j i g h db.utxos)
Step-keeps (spend j g drops) w i h coin live = absurd (ground arith)
