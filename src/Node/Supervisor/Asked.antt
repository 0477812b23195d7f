-- ===== src/Node/Supervisor/Asked.antt =====
-- What a scan asks the node for.
use coldwatch.Base.{
  ℕ, ◌≡◌, refl, Bool, true, false, List, [], ◌∷◌, ◌++◌, if◌then◌else◌, Option-cases, inl, inr,
  arith,
}
use coldwatch.Base.Keys.{bytes_key, bytes_beq}
use coldwatch.Base.Dict.{Dict, get, has, has-put, HasUniqueKeys}
use coldwatch.Node.Supervisor.{Request, group, group_all}
use coldwatch.Node.Supervisor.Worker.{spk_requests}
use coldwatch.Node.Supervisor.Delivery.{group-HasUniqueKeys}

-- A request for the script is among them.
unfoldable pub wants : List ℕ → List Request → Bool
wants spk [] = false
wants spk (r ∷ requests) = if bytes_beq r.spk spk then true else wants spk requests

has-group :
    (spk : List ℕ) (r : Request) (groups : Dict (List ℕ) (List Request))
    → has spk (group r groups) ≡ (if bytes_beq r.spk spk then true else has spk groups)
unfolding group
has-group spk r groups = elim (Option-cases (get r.spk groups)) [
  | inl e ↦ rw (group, e) (has-put r.spk spk (r ∷ []) groups)
  | inr (requests, e) ↦ rw (group, e) (has-put r.spk spk (requests ++ r ∷ []) groups)
]

has-group_all :
    (spk : List ℕ) (live : List Request) (groups : Dict (List ℕ) (List Request))
    → has spk (group_all live groups) ≡ (if wants spk live then true else has spk groups)
unfolding group_all wants
has-group_all spk [] groups = refl
has-group_all spk (r ∷ live) groups =
    ground (arith, has-group_all spk live (group r groups), has-group spk r groups)

group_all-HasUniqueKeys :
    (live : List Request) (groups : Dict (List ℕ) (List Request))
    → HasUniqueKeys groups
    → HasUniqueKeys (group_all live groups)
unfolding group_all
group_all-HasUniqueKeys [] groups u = u
group_all-HasUniqueKeys (r ∷ live) groups u =
    group_all-HasUniqueKeys live (group r groups) (group-HasUniqueKeys r groups u)

-- A scan asks for each script of its requests, once, and for no other.
pub asks_once :
    (live : List Request)
    → HasUniqueKeys (spk_requests live)
      × ((spk : List ℕ) → has spk (spk_requests live) ≡ wants spk live)
unfolding spk_requests HasUniqueKeys has
asks_once live =
    (group_all-HasUniqueKeys live [] tt, λ spk. ground (arith, has-group_all spk live []))
