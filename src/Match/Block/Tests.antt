-- ===== src/Match/Block/Tests.antt =====
-- Small blocks, and the theorems at them.
use coldwatch.Base.{ℕ, ◌≤◌, ◌<◌, ◌≡◌, ◌↔◌, refl, List, [], ◌∷◌, ◌++◌, replicate, arith}
use coldwatch.Base.Results.{ok, err}
use coldwatch.Match.Samples.{toy_hash, payment, payment-IsWireTx}
use coldwatch.Match.Block.{struct_error, parse_block}
use coldwatch.Match.Block.Errors.{parse_block-struct_error}
use coldwatch.Match.Block.Tiling.{IsWhole, parse_block-IsWhole}
use coldwatch.Match.Block.RoundTrip.{serialise_block, parse_block-serialise, block}

abbrev header : List ℕ
header = replicate 80 3

-- A header and a count that is cut off behind its first byte.
abbrev cut : List ℕ
cut = replicate 80 3 ++ (0xFD ∷ 0 ∷ [])

parse_block-struct_error_example :
    (parse_block toy_hash cut ≡ err struct_error) ↔ ((80 < 82) × (0xFD ≤ 0xFD) × (82 < 83))
parse_block-struct_error_example = parse_block-struct_error toy_hash cut

parse_block-serialise_example :
    parse_block toy_hash (serialise_block header (payment ∷ payment ∷ []))
    ≡ ok (block toy_hash header (payment ∷ payment ∷ []))
parse_block-serialise_example =
    parse_block-serialise toy_hash header (payment ∷ payment ∷ []) refl (omega arith) (omega arith)
      ((payment-IsWireTx, omega arith), ((payment-IsWireTx, omega arith), tt))

parse_block-IsWhole_example :
    IsWhole toy_hash (serialise_block header (payment ∷ [])) (block toy_hash header (payment ∷ []))
parse_block-IsWhole_example =
    parse_block-IsWhole toy_hash (serialise_block header (payment ∷ []))
      (block toy_hash header (payment ∷ []))
      (parse_block-serialise toy_hash header (payment ∷ []) refl (omega arith) (omega arith)
        ((payment-IsWireTx, omega arith), tt))
