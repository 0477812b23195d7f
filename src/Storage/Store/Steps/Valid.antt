-- ===== src/Storage/Store/Steps/Valid.antt =====
-- When a database is in order.
use coldwatch.Base.{
  ℕ, ◌+◌, ◌≡◌, refl, Bool, true, false, some, List, [], ◌∷◌, ◌&&◌, ◌==◌, ==_iff, if◌then◌else◌,
  Bool-cases, inl, inr, arith,
}
use coldwatch.Base.Keys.{ℕ_key}
use coldwatch.Base.Dict.{Dict, get, has, has-get}
use coldwatch.Storage.Rows.{ItemRow, ChannelEntry, RouteRow, Database, empty_database}
use coldwatch.Storage.Tables.{IsTable, nil-IsTable}
use coldwatch.Storage.Coins.{has_coin}
use coldwatch.Storage.Store.Watches.{delete_routes}
use coldwatch.Storage.Store.Channels.{insert_or_replace, same_owner}
use coldwatch.Storage.Store.Index.{tracks}

unfoldable pub has_route : ℕ → ℕ → List RouteRow → Bool
has_route i c [] = false
has_route i c (r ∷ routes) =
    if r.item_id == i && r.channel_id == c then true else has_route i c routes

-- The rows that others refer to are there, and a coin is that of an item which is tracked.
pub record IsValid (db : Database) : Type 0 where
  pub watches : IsTable db.watch_seq db.watches
  pub items : IsTable db.item_seq db.items
  pub channels : IsTable db.channel_seq db.channels
  pub coins : (i : ℕ) (h : List ℕ) → has_coin i h db.utxos ≡ true → tracks i db ≡ true
  pub enrolled :
      (i : ℕ) (row : ItemRow) → get i db.items ≡ some row → has row.watch_id db.watches ≡ true
  pub connected :
      (c : ℕ) (row : ChannelEntry)
      → get c db.channels ≡ some row
      → has row.watch_id db.watches ≡ true
  pub routed : (i c : ℕ) → has_route i c db.routes ≡ true → same_owner i c db ≡ some true

pub empty-IsValid : IsValid empty_database
unfolding has_coin get has_route
empty-IsValid = record {
  watches = nil-IsTable 0;
  items = nil-IsTable 0;
  channels = nil-IsTable 0;
  coins = λ i h there. absurd (ground arith);
  enrolled = λ i row there. absurd (ground arith);
  connected = λ c row there. absurd (ground arith);
  routed = λ i c there. absurd (ground arith);
}

-- A row that is there.
pub get-some : {V : Type 0} (k : ℕ) (v : V) (d : Dict ℕ V) → get k d ≡ some v → has k d ≡ true
get-some k v d there = elim (Bool-cases (has k d)) [
  | inl here ↦ here
  | inr absent ↦ absurd (ground (arith, has-get k d absent))
]

-- A key above the highest given.
pub get_next :
    {V : Type 0} (seq k : ℕ) (v : V) (d : Dict ℕ V)
    → IsTable seq d
    → get k d ≡ some v
    → (seq + 1 == k) ≡ false
get_next seq k v d w there = ground (arith, w.bounded k, get-some k v d there)

pub has_route-delete_routes :
    (p : ℕ → ℕ → Bool) (i c : ℕ) (routes : List RouteRow)
    → has_route i c (delete_routes p routes) ≡ (if p i c then false else has_route i c routes)
unfolding has_route delete_routes
has_route-delete_routes p i c [] = ground arith
has_route-delete_routes p i c (r ∷ routes) =
    ground (arith, has_route-delete_routes p i c routes, ==_iff r.item_id i, ==_iff r.channel_id c)

pub has_route-insert_or_replace :
    (r : RouteRow) (i c : ℕ) (routes : List RouteRow)
    → has_route i c (insert_or_replace r routes)
      ≡ (if r.item_id == i && r.channel_id == c then true else has_route i c routes)
unfolding has_route insert_or_replace
has_route-insert_or_replace r i c [] = refl
has_route-insert_or_replace r i c (s ∷ routes) = ground (
  arith,
  has_route-insert_or_replace r i c routes,
  ==_iff s.item_id r.item_id,
  ==_iff s.channel_id r.channel_id,
)
