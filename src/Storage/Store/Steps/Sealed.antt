-- ===== src/Storage/Store/Steps/Sealed.antt =====
-- What `add_item` seals, and the row that keeps it.
use coldwatch.Base.{
  ℕ, ◌+◌, ◌≤◌, ◌≡◌, refl, true, false, ◌⊎◌, inl, inr, Option, none, some, Option-cases, List, [],
  ◌∷◌, ◌&&◌, ==_iff, ==_refl, subst, String, length, arith,
}
use coldwatch.Base.Keys.{ℕ_key, bytes_beq, bytes_beq_iff}
use coldwatch.Base.Bytes.{IsBytes}
use coldwatch.Base.Dict.{Dict, get, has, put, get-put, HasUniqueKeys}
use coldwatch.Base.Results.{ok}
use coldwatch.Crypto.Aead.{open_}
use coldwatch.Crypto.Aead.Laws.{open-seal}
use coldwatch.Match.Keys.{Subkeys, spk_hmac}
use coldwatch.Match.Index.Items.{has_item}
use coldwatch.Storage.Rows.{is_tracked, ItemRow, Database, valid_mode}
use coldwatch.Storage.Store.{transaction, end_transaction, crypto_call, aad, aad_spk, aad_label}
use coldwatch.Storage.Store.Watches.{require_watch}
use coldwatch.Storage.Store.Items.{add_item, new_item, item_spk, item_label}
use coldwatch.Storage.Store.Index.{watching, items_watching_spk, tracks}
use coldwatch.Storage.Store.Contract.{watching-has}
use coldwatch.Storage.Store.Steps.{Call, after, after_all}
use coldwatch.Storage.Store.Steps.Taken.{after-Step}
use coldwatch.Storage.Store.Steps.Valid.{IsValid}
use coldwatch.Storage.Store.Steps.Sound.{Step-IsValid, enrol-IsValid}
use coldwatch.Storage.Store.Steps.Life.{
  Moves, stays, enrols, arms, activates, pauses, resumes, stops, goes, Step_grows,
}
use coldwatch.Storage.Store.Steps.Histories.{after-Moves, after_all-IsValid}

-- A row, and what is left of it: nothing, or a row with the same sealed columns.
unfoldable Keeps : ItemRow → Option ItemRow → Type 0
Keeps row none = Unit
Keeps row (some new) =
    (new.watch_id ≡ row.watch_id)
    × (new.spk_hmac ≡ row.spk_hmac)
    × (new.spk_ct ≡ row.spk_ct)
    × (new.label_ct ≡ row.label_ct)

Moves-Keeps :
    {seq i : ℕ} {o o' : Option ItemRow} (row : ItemRow)
    → Moves seq i o o'
    → i ≤ seq
    → Keeps row o
    → Keeps row o'
unfolding Keeps
Moves-Keeps row (stays o) given k = k
Moves-Keeps row (enrols new later arming) given k = absurd (omega arith)
Moves-Keeps row (arms old arming) given k = k
Moves-Keeps row (activates old armed) given k = k
Moves-Keeps row (pauses old active) given k = k
Moves-Keeps row (resumes old paused) given k = k
Moves-Keeps row (stops old) given k = k
Moves-Keeps row (goes old) given k = tt

put-Keeps : (i : ℕ) (row : ItemRow) (items : Dict ℕ ItemRow) → Keeps row (get i (put i row items))
unfolding Keeps
put-Keeps i row items = rw (get-put i i row items, ==_refl i) (refl, refl, refl, refl)

-- Which items a script finds.
pub has_item-watching :
    (i : ℕ) (h : List ℕ) (items : Dict ℕ ItemRow)
    → HasUniqueKeys items
    → has_item i (watching h items) ≡ elim (get i items) [
      | none ↦ false
      | some row ↦ bytes_beq row.spk_hmac h && is_tracked row.status
    ]
unfolding watching get has_item HasUniqueKeys
has_item-watching i h [] u = refl
has_item-watching i h ((j, row) ∷ items) (n, u) =
    ground (arith, has_item-watching i h items u, watching-has i h items, ==_iff j i)

-- What a row that keeps the sealed columns shows of them.
unfoldable Shows : (List ℕ → List ℕ → List ℕ) → Subkeys → ℕ → List ℕ → List ℕ → Database → Type 0
Shows hmac keys i spk label db =
    (item_spk keys i db ≡ ok spk)
    × (item_label keys i db ≡ ok label)
    × (has_item i (items_watching_spk (spk_hmac hmac keys.match spk) db) ≡ tracks i db)

Keeps-Shows :
    (hmac : List ℕ → List ℕ → List ℕ) (keys : Subkeys) (i : ℕ) (row : ItemRow) (spk label : List ℕ)
    (db : Database)
    → Keeps row (get i db.items)
    → HasUniqueKeys db.items
    → crypto_call (open_ keys.store row.spk_ct (aad aad_spk row.watch_id)) ≡ ok spk
    → crypto_call (open_ keys.store row.label_ct (aad aad_label row.watch_id)) ≡ ok label
    → row.spk_hmac ≡ spk_hmac hmac keys.match spk
    → (get i db.items ≡ none) ⊎ Shows hmac keys i spk label db
unfolding Shows Keeps item_spk item_label items_watching_spk tracks
Keeps-Shows hmac keys i row spk label db k u opens opens' hashed =
    elim (Option-cases (get i db.items)) [
      | inl gone ↦ inl gone
      | inr (found, there) ↦
          let (e1, e2, e3, e4) = subst (λ o. Keeps row o) there k in
          inr (
            rw (item_spk, there, e1, e3) opens,
            rw (item_label, there, e1, e4) opens',
            rw (has_item-watching i (spk_hmac hmac keys.match spk) db.items u, there, e2, hashed)
                (ground (
                  arith,
                  bytes_beq_iff (spk_hmac hmac keys.match spk) (spk_hmac hmac keys.match spk),
                )),
          )
    ]

module _ (sha256 : List ℕ → List ℕ) (hmac : List ℕ → List ℕ → List ℕ) (keys : Subkeys) where
  after_all-Keeps :
      (row : ItemRow) (calls : List Call) (i : ℕ) (db : Database)
      → IsValid db
      → i ≤ db.item_seq
      → Keeps row (get i db.items)
      → Keeps row (get i (after_all sha256 hmac keys calls db).items)
  unfolding after_all
  after_all-Keeps row [] i db w given k = k
  after_all-Keeps row (call ∷ calls) i db w given k =
      let step = after-Step sha256 hmac keys call db in
      after_all-Keeps row calls i (after sha256 hmac keys call db) (Step-IsValid step w)
        (omega (arith, Step_grows step))
        (Moves-Keeps row (after-Moves sha256 hmac keys call db w i) given k)

  -- On a database in order, `add_item` for a watch that is there, with keys of 32 bytes, nonces of 12
  -- and a mode of the schema returns the next id; and whatever calls follow, the item is gone or
  -- `item_spk` and `item_label` return what was given, and its script finds it exactly while it is
  -- tracked.
  pub add_item-item_spk :
      (n m : List ℕ) (today watch_id : ℕ) (chain : String) (spk label : List ℕ) (mode : String)
      (db : Database)
      → IsValid db
      → has watch_id db.watches ≡ true
      → length keys.store ≡ 32
      → length n ≡ 12
      → length m ≡ 12
      → IsBytes spk
      → IsBytes label
      → valid_mode mode ≡ true
      → (new : Database) × (add_item hmac keys (n, m) today watch_id chain spk label mode db
          ≡ (ok (db.item_seq + 1), new))
        × ((calls : List Call)
            → let later = after_all sha256 hmac keys calls new in
              let id = db.item_seq + 1 in
              (get id later.items ≡ none)
              ⊎ ((item_spk keys id later ≡ ok spk)
                  × (item_label keys id later ≡ ok label)
                  × (has_item id (items_watching_spk (spk_hmac hmac keys.match spk) later)
                      ≡ tracks id later)))
  unfolding add_item new_item require_watch transaction end_transaction crypto_call Shows
  add_item-item_spk n m today watch_id chain spk label mode db w there hk hn hm bytes bytes' good =
      let (ct, sealed, _, opens) = open-seal keys.store n spk (aad aad_spk watch_id) hk hn bytes in
      let (ct', sealed', _, opens') =
        open-seal keys.store m label (aad aad_label watch_id) hk hm bytes' in
      let id = db.item_seq + 1 in
      let row = new_item watch_id chain (spk_hmac hmac keys.match spk) ct ct' mode today in
      let new : Database = record db { items = put id row db.items; item_seq = id } in
      let w' = enrol-IsValid row db there w in
      (
        new,
        rw (there, sealed, sealed', good) refl,
        λ calls.
            Keeps-Shows hmac keys id row spk label (after_all sha256 hmac keys calls new)
              (after_all-Keeps row calls id new w' (omega arith) (put-Keeps id row db.items))
              (after_all-IsValid sha256 hmac keys calls new w').items.unique (rw opens refl)
              (rw opens' refl) refl,
      )
