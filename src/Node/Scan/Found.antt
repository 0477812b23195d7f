-- ===== src/Node/Scan/Found.antt =====
-- What is found for a script: the unspent outputs of the answer that pay it, in the answer's order.
use coldwatch.Base.{
  ℕ, ◌≡◌, refl, sym, ◌∙◌, ap, Option, none, some, List, [], ◌∷◌, ◌++◌, append_assoc, append-nil,
  if◌then◌else◌, Bool-cases, Option-cases, inl, inr,
}
use coldwatch.Base.Integers.{ℤ}
use coldwatch.Base.Keys.{bytes_key, bytes_beq, bytes_beq_iff}
use coldwatch.Base.Dict.{Dict, get, get-put}
use coldwatch.Base.Results.{Result, ok, err, Result-cases}
use coldwatch.Node.Json.{Json, PyError}
use coldwatch.Node.Scan.{ScanUtxo, ScanError, caught, add_utxo, utxo_of, read_entries}

-- The outputs that pay a script.
unfoldable pub of_script : List ℕ → List ScanUtxo → List ScanUtxo
of_script spk [] = []
of_script spk (utxo ∷ utxos) =
    let rest = of_script spk utxos in if bytes_beq utxo.spk spk then utxo ∷ rest else rest

unfoldable pub found_with : Option (List ScanUtxo) → List ScanUtxo → Option (List ScanUtxo)
found_with none more = none
found_with (some utxos) more = some (utxos ++ more)

unfoldable pub with_utxo :
    ScanUtxo → Result PyError (List ScanUtxo) → Result PyError (List ScanUtxo)
with_utxo utxo (err why) = err why
with_utxo utxo (ok utxos) = ok (utxo ∷ utxos)

module _ (read_int : List ℕ → Option ℤ) where
  -- Each entry read on its own, or the first refusal.
  unfoldable pub utxos_of : List Json → Result PyError (List ScanUtxo)
  utxos_of [] = ok []
  utxos_of (entry ∷ entries) = elim (utxo_of read_int entry) [
    | err why ↦ err why
    | ok utxo ↦ with_utxo utxo (utxos_of entries)
  ]

found_with-nil : (old : Option (List ScanUtxo)) → old ≡ found_with old []
unfolding found_with
found_with-nil none = refl
found_with-nil (some utxos) = ap some (sym (append-nil utxos))

absent_lem :
    (spk : List ℕ) (utxo : ScanUtxo) (found : Dict (List ℕ) (List ScanUtxo))
    → get utxo.spk found ≡ none
    → get spk found ≡ found_with (get spk found) (of_script spk (utxo ∷ []))
unfolding found_with of_script
absent_lem spk utxo found absent = elim (Bool-cases (bytes_beq utxo.spk spk)) [
  | inl same ↦
      let gone : get spk found ≡ none =
        ap (λ (t : List ℕ). get t found) (sym ((bytes_beq_iff utxo.spk spk).0 same)) ∙ absent in
      rw gone refl
  | inr other ↦ rw other (found_with-nil (get spk found))
]

here_lem :
    (spk : List ℕ) (utxo : ScanUtxo) (utxos : List ScanUtxo) (found : Dict (List ℕ) (List ScanUtxo))
    → get utxo.spk found ≡ some utxos
    → (if bytes_beq utxo.spk spk then some (utxos ++ utxo ∷ []) else get spk found)
      ≡ found_with (get spk found) (of_script spk (utxo ∷ []))
unfolding of_script found_with
here_lem spk utxo utxos found here = elim (Bool-cases (bytes_beq utxo.spk spk)) [
  | inl same ↦
      let there : get spk found ≡ some utxos =
        ap (λ (t : List ℕ). get t found) (sym ((bytes_beq_iff utxo.spk spk).0 same)) ∙ here in
      rw (same, there) refl
  | inr other ↦ rw other (found_with-nil (get spk found))
]

get-add_utxo :
    (spk : List ℕ) (utxo : ScanUtxo) (found : Dict (List ℕ) (List ScanUtxo))
    → get spk (add_utxo utxo found) ≡ found_with (get spk found) (of_script spk (utxo ∷ []))
unfolding add_utxo
get-add_utxo spk utxo found = elim (Option-cases (get utxo.spk found)) [
  | inl absent ↦ rw (add_utxo, absent) (absent_lem spk utxo found absent)
  | inr (utxos, here) ↦
      rw (add_utxo, here)
        (get-put utxo.spk spk (utxos ++ utxo ∷ []) found ∙ here_lem spk utxo utxos found here)
]

-- How the loop over the entries ends, by what the entries read as: with the first refusal, or with the
-- outputs of each script that was asked for behind those found before.
unfoldable pub Found :
    Result PyError (List ScanUtxo)
    → Result ScanError (Dict (List ℕ) (List ScanUtxo))
    → Dict (List ℕ) (List ScanUtxo)
    → Type 0
Found (err why) end found = end ≡ err (caught why)
Found (ok utxos) end found =
    (left : Dict (List ℕ) (List ScanUtxo)) × (end ≡ ok left)
    × ((spk : List ℕ) → get spk left ≡ found_with (get spk found) (of_script spk utxos))

found_with-cons :
    (spk : List ℕ) (old : Option (List ScanUtxo)) (utxo : ScanUtxo) (utxos : List ScanUtxo)
    → found_with (found_with old (of_script spk (utxo ∷ []))) (of_script spk utxos)
      ≡ found_with old (of_script spk (utxo ∷ utxos))
unfolding found_with of_script
found_with-cons spk none utxo utxos = refl
found_with-cons spk (some old) utxo utxos = elim (Bool-cases (bytes_beq utxo.spk spk)) [
  | inl same ↦ rw same (ap some (append_assoc old (utxo ∷ []) (of_script spk utxos)))
  | inr other ↦ rw (other, append-nil old) refl
]

Found-cons :
    (utxo : ScanUtxo) (r : Result PyError (List ScanUtxo))
    (end : Result ScanError (Dict (List ℕ) (List ScanUtxo))) (found : Dict (List ℕ) (List ScanUtxo))
    → Found r end (add_utxo utxo found)
    → Found (with_utxo utxo r) end found
unfolding Found with_utxo
Found-cons utxo (err why) end found h = h
Found-cons utxo (ok utxos) end found (left, e, finds) = (
  left,
  e,
  λ spk.
      finds spk
      ∙ ap (λ t. found_with t (of_script spk utxos)) (get-add_utxo spk utxo found)
      ∙ found_with-cons spk (get spk found) utxo utxos,
)

Found-refused :
    (why : PyError) (end : Result ScanError (Dict (List ℕ) (List ScanUtxo)))
    (found : Dict (List ℕ) (List ScanUtxo))
    → end ≡ err (caught why)
    → Found (err why) end found
unfolding Found
Found-refused why end found e = e

pub read_entries-Found :
    (read_int : List ℕ → Option ℤ) (entries : List Json) (found : Dict (List ℕ) (List ScanUtxo))
    → Found (utxos_of read_int entries) (read_entries read_int entries found) found
unfolding read_entries utxos_of
read_entries-Found read_int [] found =
    unfold Found of_script in (found, refl, λ spk. found_with-nil (get spk found))
read_entries-Found read_int (entry ∷ entries) found = elim (Result-cases (utxo_of read_int entry)) [
  | inr (why, e) ↦ rw (utxos_of, read_entries, e) (Found-refused why _ found refl)
  | inl (utxo, e) ↦
      rw (utxos_of, read_entries, e)
        (Found-cons utxo (utxos_of read_int entries) _ found
          (read_entries-Found read_int entries (add_utxo utxo found)))
]
