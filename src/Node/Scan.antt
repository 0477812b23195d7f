-- ===== src/Node/Scan.antt =====
-- src/coldwatch/node/supervisor.py, the part of `_execute` that reads the answer to a scan.

pub mod Found
use coldwatch.Base.{
  ℕ, Bool, true, false, Option, none, some, List, [], ◌∷◌, ◌++◌, not, if◌then◌else◌,
}
use coldwatch.Base.Integers.{ℤ}
use coldwatch.Base.Keys.{bytes_key}
use coldwatch.Base.Dict.{Dict, get, put}
use coldwatch.Base.Results.{Result, ok, err, ◌>>=◌}
use coldwatch.Match.Keys.Display.{reverse}
use coldwatch.Node.Json.{
  Json, null, object, array, no_more, PyError, truthy, to_int, subscript, get_member, to_bytes,
  to_list,
}

pub record ScanUtxo : Type 0 where
  pub txid : List ℕ
  pub vout : ℤ
  pub spk : List ℕ

-- `ScanFailed`, by its detail, with the code of the node's error.
pub data ScanFailed : Type 0 where
  rejected : ℤ → ScanFailed
  unreachable incomplete malformed shut_down : ScanFailed

-- What reading an answer raises: the failure that `_fail` hands on, or an exception that nothing catches.
pub data ScanError : Type 0 where
  failed : ScanFailed → ScanError
  uncaught : PyError → ScanError

-- "scriptPubKey", "txid", "vout", "success" and "unspents".
abbrev pub spk_name : List ℕ
spk_name = 115 ∷ 99 ∷ 114 ∷ 105 ∷ 112 ∷ 116 ∷ 80 ∷ 117 ∷ 98 ∷ 75 ∷ 101 ∷ 121 ∷ []

abbrev pub txid_name : List ℕ
txid_name = 116 ∷ 120 ∷ 105 ∷ 100 ∷ []

abbrev pub vout_name : List ℕ
vout_name = 118 ∷ 111 ∷ 117 ∷ 116 ∷ []

abbrev pub success_name : List ℕ
success_name = 115 ∷ 117 ∷ 99 ∷ 99 ∷ 101 ∷ 115 ∷ 115 ∷ []

abbrev pub unspents_name : List ℕ
unspents_name = 117 ∷ 110 ∷ 115 ∷ 112 ∷ 101 ∷ 110 ∷ 116 ∷ 115 ∷ []

-- `except (KeyError, ValueError, TypeError)`.
unfoldable pub caught : PyError → ScanError
caught PyError.key_error = failed malformed
caught PyError.value_error = failed malformed
caught PyError.type_error = failed malformed
caught PyError.overflow_error = uncaught PyError.overflow_error
caught PyError.attribute_error = uncaught PyError.attribute_error

-- `{spk: [] for spk in spk_requests}`.
unfoldable pub new_found : {A : Type 0} → Dict (List ℕ) A → Dict (List ℕ) (List ScanUtxo)
new_found [] = []
new_found ((spk, requests) ∷ rest) = (spk, []) ∷ new_found rest

-- `if spk in found: found[spk].append(utxo)`.
unfoldable pub add_utxo : ScanUtxo → Dict (List ℕ) (List ScanUtxo) → Dict (List ℕ) (List ScanUtxo)
add_utxo utxo found = elim (get utxo.spk found) [
  | none ↦ found
  | some utxos ↦ put utxo.spk (utxos ++ utxo ∷ []) found
]

module _ (read_int : List ℕ → Option ℤ) where
  unfoldable pub utxo_of : Json → Result PyError ScanUtxo
  utxo_of entry = subscript spk_name entry >>= to_bytes >>= λ spk.
      subscript txid_name entry >>= to_bytes >>= λ txid.
      subscript vout_name entry >>= to_int read_int >>= λ vout.
      ok (record { txid = reverse txid; vout = vout; spk = spk })

  -- `for entry in result.get("unspents", [])`.
  unfoldable pub read_entries :
      List Json → Dict (List ℕ) (List ScanUtxo) → Result ScanError (Dict (List ℕ) (List ScanUtxo))
  read_entries [] found = ok found
  read_entries (entry ∷ entries) found = elim (utxo_of entry) [
    | err why ↦ err (caught why)
    | ok utxo ↦ read_entries entries (add_utxo utxo found)
  ]

  -- From the answer to a scan of these scripts to `found`.
  unfoldable pub read_answer :
      Json → Dict (List ℕ) (List ScanUtxo) → Result ScanError (Dict (List ℕ) (List ScanUtxo))
  read_answer (object answer) found =
      if not (truthy (get_member success_name null answer))
      then err (failed incomplete)
      else elim (to_list (get_member unspents_name (array no_more) answer)) [
        | err why ↦ err (uncaught why)
        | ok entries ↦ read_entries entries found
      ]
  read_answer other found = err (failed incomplete)
