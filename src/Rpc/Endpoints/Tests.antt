-- ===== src/Rpc/Endpoints/Tests.antt =====
-- Two servers, at "1.2" and "h".
use gd_rpc.Base.{◌≡◌, refl, [], ◌∷◌, some, none, map, arith}
use gd_rpc.Base.Int.{pos}
use gd_rpc.Text.Decimal.{atoi}
use gd_rpc.Rpc.Endpoints.{endpoints, pieces, split, fields}
use gd_rpc.Rpc.Endpoints.Parsing.{Published, joined, all_lines, read_endpoint, endpoints-joined}

abbrev first : Published
first = record { ip = b'1' ∷ b'.' ∷ b'2' ∷ []; port = pos 80; weight = pos 5 }

abbrev second : Published
second = record { ip = b'h' ∷ []; port = pos 8080; weight = pos 1 }

endpoints-first :
    endpoints (b'1' ∷ b'.' ∷ b'2' ∷ b' ' ∷ b'8' ∷ b'0' ∷ b' ' ∷ b'5' ∷ [])
    ≡ some (
        record {
          key = b'1' ∷ b'.' ∷ b'2' ∷ b':' ∷ b'8' ∷ b'0' ∷ [];
          port = 1;
          ip = b'8' ∷ b'0' ∷ [];
          weight = b'5' ∷ [];
        }
        ∷ [])
unfolding endpoints split fields pieces atoi
endpoints-first = refl

endpoints-joined_example :
    (endpoints (joined first (second ∷ [])) ≡ some (map read_endpoint (first ∷ second ∷ [])))
    × (endpoints (all_lines (first ∷ second ∷ [])) ≡ none)
endpoints-joined_example =
    endpoints-joined first (second ∷ [])
      ((refl, (refl, (refl, omega arith))), (refl, (refl, (refl, omega arith))))
      (((refl, omega arith), (refl, omega arith)), omega arith)
