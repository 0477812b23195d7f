-- ===== src/Storage/Store.antt =====
-- storage/store.py: the methods of `Store`, over the tables. A method returns its outcome with the
-- database that it leaves; what the store draws or asks elsewhere is an argument: the token, the
-- nonces, the day, and how the database answers `VACUUM` and the checkpoint.
pub mod Watches
pub mod Items
pub mod Channels
pub mod Index
pub mod Contract
pub mod Steps
mod Tests
use coldwatch.Base.{ℕ, List, [], ◌∷◌, ◌++◌}
use coldwatch.Base.Bytes.{to_le}
use coldwatch.Base.Results.{Result, ok, err}
use coldwatch.Crypto.ChaCha20.{CryptoError}
use coldwatch.Storage.Rows.{StoreError, crypto, Database}

-- How `with self._db:` ends that began at `db`, by the outcome of its body and what the body has
-- written: the connection commits where the body returns and rolls back where it raises.
unfoldable pub end_transaction :
    {A : Type 0} → Database → Result StoreError A × Database → Result StoreError A × Database
end_transaction db (ok a, written) = (ok a, written)
end_transaction db (err why, written) = (err why, db)

unfoldable pub transaction :
    {A : Type 0}
    → (Database → Result StoreError A × Database)
    → Database
    → Result StoreError A × Database
transaction body db = end_transaction db (body db)

-- An error of the cipher passes through.
unfoldable pub crypto_call : {A : Type 0} → Result CryptoError A → Result StoreError A
crypto_call (ok a) = ok a
crypto_call (err why) = err (crypto why)

-- `_AAD_SPK`, `_AAD_LABEL` and `_AAD_DEST`.
abbrev pub aad_spk : List ℕ
aad_spk = b's' ∷ b'p' ∷ b'k' ∷ []

abbrev pub aad_label : List ℕ
aad_label = b'l' ∷ b'a' ∷ b'b' ∷ b'e' ∷ b'l' ∷ []

abbrev pub aad_dest : List ℕ
aad_dest = b'd' ∷ b'e' ∷ b's' ∷ b't' ∷ []

-- `_aad`.
unfoldable pub aad : List ℕ → ℕ → List ℕ
aad purpose watch_id = purpose ++ to_le 8 watch_id
