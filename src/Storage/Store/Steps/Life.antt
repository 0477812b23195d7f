-- ===== src/Storage/Store/Steps/Life.antt =====
-- The life of an item, step by step.
use coldwatch.Base.{
  Bool, ℕ, ◌+◌, ◌<◌, ◌≤◌, ◌≡◌, Option, none, some, Option-cases, ◌==◌, ==_iff, if◌then◌else◌,
  Bool-cases, inl, inr, arith,
}
use coldwatch.Base.Keys.{ℕ_key}
use coldwatch.Base.Dict.{Dict, get, put, get-put, HasUniqueKeys}
use coldwatch.Storage.Rows.{ItemStatus, ItemRow, Database}
use coldwatch.Storage.Tables.{IsTable, delete_where, get-delete_where}
use coldwatch.Storage.Store.Watches.{delete_watch}
use coldwatch.Storage.Store.Steps.{
  Step, stay, mint, purge, enrol, baseline, confirm, mute, unmute, stop, connect, verify, link,
  collect, spend,
}
use coldwatch.Storage.Store.Steps.Valid.{IsValid, get_next}

-- What a step may do to the row of item `i`, where `seq` is the highest id given before it: the
-- status moves along the graph of the statuses, and no other column changes.
pub data Moves (seq i : ℕ) : Option ItemRow → Option ItemRow → Type 0 where
  stays : (o : Option ItemRow) → Moves seq i o o
  enrols : (row : ItemRow) → seq < i → row.status ≡ ItemStatus.arming → Moves seq i none (some row)
  arms :
      (row : ItemRow)
      → row.status ≡ ItemStatus.arming
      → Moves seq i (some row) (some (record row { status = ItemStatus.armed }))
  activates :
      (row : ItemRow)
      → row.status ≡ ItemStatus.armed
      → Moves seq i (some row) (some (record row { status = ItemStatus.active }))
  pauses :
      (row : ItemRow)
      → row.status ≡ ItemStatus.active
      → Moves seq i (some row) (some (record row { status = ItemStatus.paused }))
  resumes :
      (row : ItemRow)
      → row.status ≡ ItemStatus.paused
      → Moves seq i (some row) (some (record row { status = ItemStatus.active }))
  stops :
      (row : ItemRow) → Moves seq i (some row) (some (record row { status = ItemStatus.stopped }))
  goes : (row : ItemRow) → Moves seq i (some row) none

-- A row that is replaced moves; the others stay.
put-Moves :
    (seq i j : ℕ) (new : ItemRow) (items : Dict ℕ ItemRow) (o : Option ItemRow)
    → get i items ≡ o
    → Moves seq i o (some new)
    → Moves seq j (get j items) (get j (put i new items))
put-Moves seq i j new items o there move = elim (Bool-cases (i == j)) [
  | inr other ↦ rw (get-put i j new items, other) (stays (get j items))
  | inl same ↦
      let e : i ≡ j = (==_iff i j).0 same in rw (get-put i j new items, same, ← e, there) move
]

purge-Moves :
    (seq id j : ℕ) (items : Dict ℕ ItemRow)
    → HasUniqueKeys items
    → Moves seq j (get j items) (get j (delete_where (λ (row : ItemRow). row.watch_id == id) items))
purge-Moves seq id j items u =
    rw (get-delete_where (λ (row : ItemRow). row.watch_id == id) j items u)
      (purge_lem (get j items))
  where
    purge_lem :
        (o : Option ItemRow)
        → Moves seq j o
            (elim o [ none ↦ none | some row ↦ if row.watch_id == id then none else some row ])
    purge_lem none = stays none
    purge_lem (some row) = elim (Bool-cases (row.watch_id == id)) [
      | inl mine ↦ rw mine (goes row)
      | inr other ↦ rw other (stays (some row))
    ]

enrol-Moves :
    (seq j : ℕ) (row : ItemRow) (items : Dict ℕ ItemRow)
    → IsTable seq items
    → row.status ≡ ItemStatus.arming
    → Moves seq j (get j items) (get j (put (seq + 1) row items))
enrol-Moves seq j row items w arming = elim (Option-cases (get j items)) [
  | inl absent ↦ elim (Bool-cases (seq + 1 == j)) [
    | inl same ↦ rw (get-put (seq + 1) j row items, same, absent) (enrols row (ground arith) arming)
    | inr other ↦ rw (get-put (seq + 1) j row items, other) (stays (get j items))
  ]
  | inr (found, there) ↦
      rw (get-put (seq + 1) j row items, get_next seq j found items w there) (stays (get j items))
]

pub Step-Moves :
    {d : Bool} {db new : Database}
    → Step d db new
    → IsValid db
    → (j : ℕ) → Moves db.item_seq j (get j db.items) (get j new.items)
Step-Moves {db = db} stay w j = stays (get j db.items)
Step-Moves {db = db} (mint h today fresh) w j = stays (get j db.items)
Step-Moves {db = db} (purge id there) w j =
    unfold delete_watch in purge-Moves db.item_seq id j db.items w.items.unique
Step-Moves {db = db} (enrol row owner arming) w j =
    enrol-Moves db.item_seq j row db.items w.items arming
Step-Moves {db = db} (baseline i row hs there arming) w j =
    put-Moves db.item_seq i j _ db.items (some row) there (arms row arming)
Step-Moves {db = db} (confirm i row there armed proven) w j =
    put-Moves db.item_seq i j _ db.items (some row) there (activates row armed)
Step-Moves {db = db} (mute i row there active) w j =
    put-Moves db.item_seq i j _ db.items (some row) there (pauses row active)
Step-Moves {db = db} (unmute i row there paused) w j =
    put-Moves db.item_seq i j _ db.items (some row) there (resumes row paused)
Step-Moves {db = db} (stop i row there) w j =
    put-Moves db.item_seq i j _ db.items (some row) there (stops row)
Step-Moves {db = db} (connect row owner unverified) w j = stays (get j db.items)
Step-Moves {db = db} (verify c day row there) w j = stays (get j db.items)
Step-Moves {db = db} (link r owner) w j = stays (get j db.items)
Step-Moves {db = db} (collect i h live) w j = stays (get j db.items)
Step-Moves {db = db} (spend i h drops) w j = stays (get j db.items)

pub Step_grows : {d : Bool} {db new : Database} → Step d db new → db.item_seq ≤ new.item_seq
Step_grows stay = omega arith
Step_grows (mint h today fresh) = omega arith
Step_grows (purge id there) = unfold delete_watch in omega arith
Step_grows (enrol row owner arming) = omega arith
Step_grows (baseline i row hs there arming) = omega arith
Step_grows (confirm i row there armed proven) = omega arith
Step_grows (mute i row there active) = omega arith
Step_grows (unmute i row there paused) = omega arith
Step_grows (stop i row there) = omega arith
Step_grows (connect row owner unverified) = omega arith
Step_grows (verify c day row there) = omega arith
Step_grows (link r owner) = omega arith
Step_grows (collect i h live) = omega arith
Step_grows (spend i h drops) = omega arith
