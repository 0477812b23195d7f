-- ===== src/Storage/Store/Steps/Activation.antt =====
-- When `activate` returns, and when it raises.
use coldwatch.Base.{
  ℕ, ◌≡◌, refl, sym, ap, ◌∙◌, Bool, true, false, ◌⊎◌, inl, inr, some, Option-cases, List, [], ◌∷◌,
  ◌==◌, ==_refl, if◌then◌else◌, Bool-cases, arith,
}
use coldwatch.Base.Keys.{ℕ_key}
use coldwatch.Base.Dict.{Dict, get, put, get-put}
use coldwatch.Base.Results.{Result, ok, err}
use coldwatch.Storage.Rows.{
  ItemStatus, same_status, StoreError, unknown_row, not_activatable, ItemRow, ChannelEntry,
  RouteRow, Database, Item, ChannelRow,
}
use coldwatch.Storage.Store.{transaction, end_transaction}
use coldwatch.Storage.Store.Items
use coldwatch.Storage.Store.Items.{item, item_from, set_status, has_verified}
use coldwatch.Storage.Store.Channels.{routed, channel_row, channels_for}
use coldwatch.Storage.Store.Steps.Taken.{same_status_lem, set_status_lem}

unfoldable pub any_verified : List ChannelRow → Bool
any_verified [] = false
any_verified (c ∷ channels) = if c.verified then true else any_verified channels

any_verified-routed :
    (i : ℕ) (routes : List RouteRow) (channels : Dict ℕ ChannelEntry)
    → any_verified (routed i routes channels) ≡ has_verified i routes channels
unfolding any_verified routed has_verified channel_row
any_verified-routed i [] channels = refl
any_verified-routed i (r ∷ routes) channels = elim (Bool-cases (r.item_id == i)) [
  | inr other ↦ rw other (any_verified-routed i routes channels)
  | inl same ↦ elim (Option-cases (get r.channel_id channels)) [
    | inl absent ↦ rw (same, absent) (any_verified-routed i routes channels)
    | inr (row, there) ↦ rw (same, there, any_verified, any_verified-routed i routes channels) refl
  ]
]

item_lem :
    (i : ℕ) (row : ItemRow) (db : Database)
    → get i db.items ≡ some row
    → item i db ≡ ok (item_from i row)
unfolding item
item_lem i row db there = rw (item, there) refl

-- A row in another status is no item in that one.
other_lem :
    (i : ℕ) (row : ItemRow) (before : Item) (s : ItemStatus)
    → ◌≡◌ {A = Result StoreError Item} (ok (item_from i row)) (ok before)
    → before.status ≡ s
    → row.status ≡ s
unfolding item_from
other_lem i row before s q e =
    ap (λ (r : Result StoreError Item). elim r [ ok it ↦ it.status | err why ↦ row.status ]) q ∙ e

same_lem : (s : ItemStatus) → same_status s s ≡ true
unfolding same_status
same_lem ItemStatus.arming = refl
same_lem ItemStatus.armed = refl
same_lem ItemStatus.active = refl
same_lem ItemStatus.paused = refl
same_lem ItemStatus.stopped = refl

-- `activate` either returns, and then the item was armed and `channels_for` lists a channel that is
-- verified, and the item is active and otherwise as it was; or it raises, and then nothing changed,
-- and there is no such item, or it is not armed, or `channels_for` lists no verified channel.
pub activate_proven :
    (i : ℕ) (db : Database)
    → ((before : Item) × ((Items.activate i db).0 ≡ ok tt)
        × (item i db ≡ ok before)
        × (before.status ≡ ItemStatus.armed)
        × (any_verified (channels_for i db) ≡ true)
        × (item i (Items.activate i db).1 ≡ ok (record before { status = ItemStatus.active })))
      ⊎ ((why : StoreError) × (Items.activate i db ≡ (err why, db))
          × ((before : Item)
              → item i db ≡ ok before
              → before.status ≡ ItemStatus.armed
              → any_verified (channels_for i db) ≡ false))
unfolding Items.activate transaction end_transaction channels_for item_from
activate_proven i db = elim (Option-cases (get i db.items)) [
  | inl absent ↦
      rw absent
        (inr (unknown_row, refl, λ before q. absurd (unfold item in ground (arith, absent))))
  | inr (row, there) ↦
      let status = other_lem i row in
      let found = item_lem i row db there in
      let verified = any_verified-routed i db.routes db.channels in
      elim (Bool-cases (same_status row.status ItemStatus.armed)) [
        | inr other ↦
            rw (there, other)
              (inr (
                not_activatable,
                refl,
                λ before q armed.
                    let e = status before ItemStatus.armed (sym found ∙ q) armed in
                    absurd (
                      ground (
                        arith,
                        same_lem ItemStatus.armed,
                        ap (λ s. same_status s ItemStatus.armed) e,
                      )),
              ))
        | inl same ↦ elim (Bool-cases (has_verified i db.routes db.channels)) [
          | inr unproven ↦
              rw (there, same, unproven)
                (inr (not_activatable, refl, λ before q armed. rw verified unproven))
          | inl proven ↦
              let new : ItemRow = record row { status = ItemStatus.active } in
              rw (there, same, proven, set_status_lem ItemStatus.active i row db there)
                (inl (
                  item_from i row,
                  refl,
                  found,
                  same_status_lem row.status ItemStatus.armed same,
                  rw verified proven,
                  item_lem i new (record db { items = put i new db.items })
                      (rw (get-put i i new db.items, ==_refl i) refl),
                ))
        ]
      ]
]
