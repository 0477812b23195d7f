-- ===== src/Match/Index/Contract.antt =====
-- match/matcher.py: `WatchIndex`, and what the matching loop relies on.
use coldwatch.Base.{ℕ, ◌≡◌, Bool, true, false, List, ◌&&◌, ◌==◌, if◌then◌else◌}
use coldwatch.Base.Keys.{bytes_beq}
use coldwatch.Match.Index.Items.{has_item}

pub record WatchIndex (S : Type 0) : Type 0 where
  pub items_watching_spk : List ℕ → S → List ℕ
  pub items_owning_outpoint : List ℕ → S → List ℕ
  pub add_outpoint : ℕ → List ℕ → S → S
  pub drop_outpoint : ℕ → List ℕ → S → S

-- The contract. `tracks` says which items an index records coins for: every item of a dictionary,
-- the armed, active and paused ones of a database.
pub record IsWatchIndex {S : Type 0} (ix : WatchIndex S) : Type 1 where
  pub IsSound : S → Type 0
  pub tracks : ℕ → S → Bool
  pub add-IsSound : (i : ℕ) (h : List ℕ) (s : S) → IsSound s → IsSound (ix.add_outpoint i h s)
  pub drop-IsSound : (i : ℕ) (h : List ℕ) (s : S) → IsSound s → IsSound (ix.drop_outpoint i h s)
  pub owning-add :
      (i j : ℕ) (h k : List ℕ) (s : S)
      → IsSound s
      → has_item j (ix.items_owning_outpoint k (ix.add_outpoint i h s)) ≡ (
          if i == j && (bytes_beq h k && tracks i s)
          then true
          else has_item j (ix.items_owning_outpoint k s))
  pub owning-drop :
      (i j : ℕ) (h k : List ℕ) (s : S)
      → IsSound s
      → has_item j (ix.items_owning_outpoint k (ix.drop_outpoint i h s))
        ≡ (if i == j && bytes_beq h k then false else has_item j (ix.items_owning_outpoint k s))
  pub watching-add :
      (i : ℕ) (h k : List ℕ) (s : S)
      → ix.items_watching_spk k (ix.add_outpoint i h s) ≡ ix.items_watching_spk k s
  pub watching-drop :
      (i : ℕ) (h k : List ℕ) (s : S)
      → ix.items_watching_spk k (ix.drop_outpoint i h s) ≡ ix.items_watching_spk k s
  pub tracks-add : (i j : ℕ) (h : List ℕ) (s : S) → tracks j (ix.add_outpoint i h s) ≡ tracks j s
  pub tracks-drop : (i j : ℕ) (h : List ℕ) (s : S) → tracks j (ix.drop_outpoint i h s) ≡ tracks j s
  pub watching_tracked :
      (i : ℕ) (k : List ℕ) (s : S)
      → IsSound s
      → has_item i (ix.items_watching_spk k s) ≡ true
      → tracks i s ≡ true
