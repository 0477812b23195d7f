-- ===== src/Storage/Coins.antt =====
-- The table `utxo`, with the primary key (item_id, outpoint_hmac): its rows in the order of the items.
use coldwatch.Base.{
  ℕ, ◌+◌, ◌≡◌, refl, Bool, true, false, List, [], ◌∷◌, ◌&&◌, ◌==◌, ==_iff, ltb, if◌then◌else◌,
  arith,
}
use coldwatch.Base.Keys.{bytes_beq, bytes_beq_iff}
use coldwatch.Match.Index.Items.{has_item}

abbrev pub Coins : Type 0
Coins = List (ℕ × List ℕ)

unfoldable pub has_coin : ℕ → List ℕ → Coins → Bool
has_coin i h [] = false
has_coin i h ((j, k) ∷ rows) = if j == i && bytes_beq k h then true else has_coin i h rows

-- A new row goes behind the rows of the items up to its own.
unfoldable pub place : ℕ → List ℕ → Coins → Coins
place i h [] = (i, h) ∷ []
place i h ((j, k) ∷ rows) = if ltb i j then (i, h) ∷ (j, k) ∷ rows else (j, k) ∷ place i h rows

-- `INSERT OR IGNORE INTO utxo`.
unfoldable pub insert_or_ignore : ℕ → List ℕ → Coins → Coins
insert_or_ignore i h rows = if has_coin i h rows then rows else place i h rows

-- `executemany` of it.
unfoldable pub insert_all : ℕ → List (List ℕ) → Coins → Coins
insert_all i [] rows = rows
insert_all i (h ∷ hs) rows = insert_all i hs (insert_or_ignore i h rows)

-- `DELETE FROM utxo WHERE ...`, of the rows that the test is true of.
unfoldable pub delete_coins : (ℕ → List ℕ → Bool) → Coins → Coins
delete_coins p [] = []
delete_coins p ((j, k) ∷ rows) =
    let rest = delete_coins p rows in if p j k then rest else (j, k) ∷ rest

-- `SELECT item_id FROM utxo WHERE outpoint_hmac = ? ORDER BY item_id`.
unfoldable pub owners : List ℕ → Coins → List ℕ
owners h [] = []
owners h ((j, k) ∷ rows) = if bytes_beq k h then j ∷ owners h rows else owners h rows

-- `SELECT COUNT(*) FROM utxo WHERE item_id = ?`.
unfoldable pub count_of : ℕ → Coins → ℕ
count_of i [] = 0
count_of i ((j, k) ∷ rows) = if j == i then count_of i rows + 1 else count_of i rows

has_coin-place :
    (i j : ℕ) (h k : List ℕ) (rows : Coins)
    → has_coin j k (place i h rows) ≡ (if i == j && bytes_beq h k then true else has_coin j k rows)
unfolding has_coin place
has_coin-place i j h k [] = refl
has_coin-place i j h k ((x, y) ∷ rows) = ground (arith, has_coin-place i j h k rows)

pub has_coin-insert_or_ignore :
    (i j : ℕ) (h k : List ℕ) (rows : Coins)
    → has_coin j k (insert_or_ignore i h rows)
      ≡ (if i == j && bytes_beq h k then true else has_coin j k rows)
unfolding insert_or_ignore
has_coin-insert_or_ignore i j h k rows =
    ground (arith, has_coin-place i j h k rows, ==_iff i j, bytes_beq_iff h k)

-- A baseline adds coins of its own item only.
pub has_coin-insert_all :
    (i j : ℕ) (hs : List (List ℕ)) (k : List ℕ) (rows : Coins)
    → (i == j) ≡ false
    → has_coin j k (insert_all i hs rows) ≡ has_coin j k rows
unfolding insert_all
has_coin-insert_all i j [] k rows other = refl
has_coin-insert_all i j (h ∷ hs) k rows other = ground (
  arith,
  has_coin-insert_all i j hs k (insert_or_ignore i h rows) other,
  has_coin-insert_or_ignore i j h k rows,
)

unfoldable pub has_hash : List ℕ → List (List ℕ) → Bool
has_hash k [] = false
has_hash k (h ∷ hs) = if bytes_beq h k then true else has_hash k hs

-- And each of them.
pub has_coin-insert_all_self :
    (i : ℕ) (hs : List (List ℕ)) (k : List ℕ) (rows : Coins)
    → has_coin i k (insert_all i hs rows) ≡ (if has_hash k hs then true else has_coin i k rows)
unfolding insert_all has_hash
has_coin-insert_all_self i [] k rows = refl
has_coin-insert_all_self i (h ∷ hs) k rows = ground (
  arith,
  has_coin-insert_all_self i hs k (insert_or_ignore i h rows),
  has_coin-insert_or_ignore i i h k rows,
  ==_iff i i,
)

pub has_coin-delete_coins :
    (p : ℕ → List ℕ → Bool) (j : ℕ) (k : List ℕ) (rows : Coins)
    → has_coin j k (delete_coins p rows) ≡ (if p j k then false else has_coin j k rows)
unfolding has_coin delete_coins
has_coin-delete_coins p j k [] = ground arith
has_coin-delete_coins p j k ((x, y) ∷ rows) =
    ground (arith, has_coin-delete_coins p j k rows, ==_iff x j, bytes_beq_iff y k)

pub has_item-owners :
    (j : ℕ) (h : List ℕ) (rows : Coins) → has_item j (owners h rows) ≡ has_coin j h rows
unfolding has_item owners has_coin
has_item-owners j h [] = refl
has_item-owners j h ((x, y) ∷ rows) = ground (arith, has_item-owners j h rows)
