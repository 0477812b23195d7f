-- ===== src/Storage/Store/Steps/Histories.antt =====
-- What holds of the store after any row of calls.
use coldwatch.Base.{ℕ, ◌≤◌, ◌≡◌, refl, Bool, true, false, Option, none, some, List, [], ◌∷◌, arith}
use coldwatch.Base.Keys.{ℕ_key}
use coldwatch.Base.Dict.{get}
use coldwatch.Match.Keys.{Subkeys}
use coldwatch.Match.Index.Items.{has_item}
use coldwatch.Storage.Rows.{ItemStatus, same_status, is_tracked, ItemRow, Database}
use coldwatch.Storage.Coins.{has_item-owners}
use coldwatch.Storage.Store.Index.{tracks, items_watching_spk, items_owning_outpoint}
use coldwatch.Storage.Store.Contract.{watching_tracked}
use coldwatch.Storage.Store.Steps.{Call, after, after_all}
use coldwatch.Storage.Store.Steps.Taken.{after-Step, same_status_lem}
use coldwatch.Storage.Store.Steps.Valid.{IsValid}
use coldwatch.Storage.Store.Steps.Sound.{Step-IsValid}
use coldwatch.Storage.Store.Steps.Life.{
  Moves, stays, enrols, arms, activates, pauses, resumes, stops, goes, Step-Moves, Step_grows,
}

-- No item, or one that is stopped.
unfoldable pub is_over : Option ItemRow → Bool
is_over none = true
is_over (some row) = same_status row.status ItemStatus.stopped

-- An id that was given, and whose item is gone or stopped.
IsOver : ℕ → Database → Type 0
IsOver i db = (i ≤ db.item_seq) × (is_over (get i db.items) ≡ true)

Moves-is_over :
    {seq i : ℕ} {o o' : Option ItemRow}
    → Moves seq i o o'
    → i ≤ seq
    → is_over o ≡ true
    → is_over o' ≡ true
unfolding is_over same_status
Moves-is_over (stays o) given over = over
Moves-is_over (enrols row new arming) given over = absurd (omega arith)
Moves-is_over (arms row arming) given over = absurd (ground arith)
Moves-is_over (activates row armed) given over = absurd (ground arith)
Moves-is_over (pauses row active) given over = absurd (ground arith)
Moves-is_over (resumes row paused) given over = absurd (ground arith)
Moves-is_over (stops row) given over = refl
Moves-is_over (goes row) given over = refl

over_untracked :
    (o : Option ItemRow)
    → is_over o ≡ true
    → elim o [ none ↦ false | some row ↦ is_tracked row.status ] ≡ false
unfolding is_over
over_untracked none over = refl
over_untracked (some row) over =
    rw (same_status_lem row.status ItemStatus.stopped over) (unfold is_tracked in refl)

-- An item that is over has no coin and is not found by its script.
over_shows :
    (i : ℕ) (db : Database)
    → IsValid db
    → is_over (get i db.items) ≡ true
    → (h : List ℕ)
    → (has_item i (items_watching_spk h db) ≡ false)
      × (has_item i (items_owning_outpoint h db) ≡ false)
unfolding items_watching_spk items_owning_outpoint tracks
over_shows i db w over h = (
  ground
      (arith, over_untracked (get i db.items) over, watching_tracked i h db.items w.items.unique),
  ground (arith, over_untracked (get i db.items) over, has_item-owners i h db.utxos, w.coins i h),
)

-- No id comes back.
Moves-none : {seq i : ℕ} {o o' : Option ItemRow} → Moves seq i o o' → i ≤ seq → o ≡ none → o' ≡ none
Moves-none (stays o) given gone = gone
Moves-none (enrols row new arming) given gone = absurd (omega arith)
Moves-none (arms row arming) given gone = absurd (ground arith)
Moves-none (activates row armed) given gone = absurd (ground arith)
Moves-none (pauses row active) given gone = absurd (ground arith)
Moves-none (resumes row paused) given gone = absurd (ground arith)
Moves-none (stops row) given gone = absurd (ground arith)
Moves-none (goes row) given gone = refl

module _ (sha256 : List ℕ → List ℕ) (hmac : List ℕ → List ℕ → List ℕ) (keys : Subkeys) where
  -- Every call moves every item along the graph, or leaves it.
  pub after-Moves :
      (call : Call) (db : Database)
      → IsValid db
      → (i : ℕ)
      → Moves db.item_seq i (get i db.items) (get i (after sha256 hmac keys call db).items)
  after-Moves call db w i = Step-Moves (after-Step sha256 hmac keys call db) w i

  -- A database in order stays in order, whatever calls are made.
  pub after_all-IsValid :
      (calls : List Call) (db : Database)
      → IsValid db
      → IsValid (after_all sha256 hmac keys calls db)
  unfolding after_all
  after_all-IsValid [] db w = w
  after_all-IsValid (call ∷ calls) db w =
      after_all-IsValid calls _ (Step-IsValid (after-Step sha256 hmac keys call db) w)

  -- Once an item is stopped or gone, its id never names a live one again: whatever calls follow, no
  -- row comes back where there was none, and no script and no coin finds the item.
  pub over_for_good :
      (calls : List Call) (i : ℕ) (db : Database)
      → IsValid db
      → i ≤ db.item_seq
      → is_over (get i db.items) ≡ true
      → let new = after_all sha256 hmac keys calls db in
        (is_over (get i new.items) ≡ true)
        × (get i db.items ≡ none → get i new.items ≡ none)
        × ((h : List ℕ)
            → (has_item i (items_watching_spk h new) ≡ false)
              × (has_item i (items_owning_outpoint h new) ≡ false))
  unfolding after_all
  over_for_good [] i db w given over = (over, λ gone. gone, over_shows i db w over)
  over_for_good (call ∷ calls) i db w given over =
      let step = after-Step sha256 hmac keys call db in
      let move = after-Moves call db w i in
      let (over', gone', shows) =
        over_for_good calls i (after sha256 hmac keys call db) (Step-IsValid step w)
          (omega (arith, Step_grows step)) (Moves-is_over move given over) in
      (over', λ gone. gone' (Moves-none move given gone), shows)
