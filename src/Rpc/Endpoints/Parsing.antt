-- ===== src/Rpc/Endpoints/Parsing.antt =====
-- What the constructor makes of the lines that servers publish.
use gd_rpc.Base.{
  ℕ, suc, ◌≡◌, ◌≢◌, refl, sym, ap, ◌∙◌, List, [], ◌∷◌, ◌++◌, false, none, some, arith, ◌==◌,
  append_assoc, map, Option-cases, Bool-cases, inl, inr, ◌≤◌,
}
use gd_rpc.Base.Int.{ℤ, pos, negsuc}
use gd_rpc.Text.Decimal.{
  atoi, print_nat, print_int, is_digit, AllDigits, print_nat-AllDigits, print_nat-ne-nil,
}
use gd_rpc.Rpc.ZkClient.{endpoint_line}
use gd_rpc.Rpc.Endpoints.{
  Endpoint, pieces, split, drop_last_empty, fields, to_uint16, endpoint_of, parse_all, endpoints,
}

-- No byte of a text is a separator.
abbrev pub IsWhole : ℕ → List ℕ → Type 0
IsWhole sep [] = 0 ≤ 0
IsWhole sep (c ∷ cs) = ((c == sep) ≡ false) × IsWhole sep cs

pub IsWhole-append :
    (sep : ℕ) (xs ys : List ℕ) → IsWhole sep xs → IsWhole sep ys → IsWhole sep (xs ++ ys)
IsWhole-append sep [] ys h k = k
IsWhole-append sep (x ∷ xs) ys (h, hs) k = (h, IsWhole-append sep xs ys hs k)

IsWhole-AllDigits : (sep : ℕ) (ds : List ℕ) → is_digit sep ≡ false → AllDigits ds → IsWhole sep ds
IsWhole-AllDigits sep [] h d = omega arith
IsWhole-AllDigits sep (c ∷ cs) h (d, ds) = (ground (arith, h, d), IsWhole-AllDigits sep cs h ds)

pub IsWhole-print_int :
    (sep : ℕ) (z : ℤ) → is_digit sep ≡ false → (b'-' == sep) ≡ false → IsWhole sep (print_int z)
unfolding print_int
IsWhole-print_int sep (pos n) h k = IsWhole-AllDigits sep (print_nat n) h (print_nat-AllDigits n)
IsWhole-print_int sep (negsuc n) h k =
    (k, IsWhole-AllDigits sep (print_nat (suc n)) h (print_nat-AllDigits (suc n)))

pieces_first :
    (sep : ℕ) (xs ys : List ℕ) → IsWhole sep xs → pieces sep (xs ++ (sep ∷ ys)) ≡ xs ∷ pieces sep ys
unfolding pieces
pieces_first sep [] ys h = ground arith
pieces_first sep (x ∷ xs) ys (h, hs) = rw (h, pieces_first sep xs ys hs) refl

pieces_one : (sep : ℕ) (xs : List ℕ) → IsWhole sep xs → pieces sep xs ≡ xs ∷ []
unfolding pieces
pieces_one sep [] h = refl
pieces_one sep (x ∷ xs) (h, hs) = rw (h, pieces_one sep xs hs) refl

pieces_some :
    (sep : ℕ) (cs : List ℕ) → (p : List ℕ) × (ps : List (List ℕ)) × (pieces sep cs ≡ p ∷ ps)
unfolding pieces
pieces_some sep [] = ([], [], refl)
pieces_some sep (c ∷ cs) =
    let (p, ps, e) = pieces_some sep cs in
    elim (Bool-cases (c == sep)) [
      | inl t ↦ ([], pieces sep cs, rw t refl)
      | inr t ↦ (c ∷ p, ps, rw (t, e) refl)
    ]

-- A separator at the end makes an empty piece of its own.
pieces_last : (sep : ℕ) (cs : List ℕ) → pieces sep (cs ++ (sep ∷ [])) ≡ pieces sep cs ++ ([] ∷ [])
unfolding pieces
pieces_last sep [] = ground arith
pieces_last sep (c ∷ cs) =
    let (p, ps, e) = pieces_some sep cs in
    elim (Bool-cases (c == sep)) [
      | inl t ↦ rw (t, pieces_last sep cs) refl
      | inr t ↦ rw (t, pieces_last sep cs) (rw e refl)
    ]

parse_all_empty : (ls : List (List ℕ)) → parse_all (ls ++ ([] ∷ [])) ≡ none
unfolding fields pieces
parse_all_empty [] = refl
parse_all_empty (l ∷ ls) = elim (Option-cases (endpoint_of (fields l))) [
  | inl n ↦ rw (n, parse_all) refl
  | inr (e, n) ↦ rw (n, parse_all_empty ls, parse_all) refl
]

drop_more :
    (p q : List ℕ) (ps : List (List ℕ))
    → drop_last_empty (p ∷ q ∷ ps) ≡ p ∷ drop_last_empty (q ∷ ps)
drop_more [] q ps = refl
drop_more (c ∷ cs) q ps = refl

drop_one : (p : List ℕ) → p ≢ [] → drop_last_empty (p ∷ []) ≡ p ∷ []
drop_one [] h = absurd (h refl)
drop_one (c ∷ cs) h = refl

fields_three :
    (a b c : List ℕ)
    → IsWhole b' ' a
    → IsWhole b' ' b
    → IsWhole b' ' c
    → c ≢ []
    → fields (a ++ (b' ' ∷ (b ++ (b' ' ∷ c)))) ≡ a ∷ b ∷ c ∷ []
unfolding fields
fields_three a b c ha hb hc n =
    ap drop_last_empty (
      pieces_first b' ' a (b ++ (b' ' ∷ c)) ha
      ∙ ap (λ l. a ∷ l) (pieces_first b' ' b c hb ∙ ap (λ l. b ∷ l) (pieces_one b' ' c hc)))
    ∙ drop_more a b (c ∷ [])
    ∙ ap (λ l. a ∷ l) (drop_more b c [] ∙ ap (λ l. b ∷ l) (drop_one c n))

print_int-ne-nil : (z : ℤ) → print_int z ≢ []
unfolding print_int
print_int-ne-nil (pos n) e = print_nat-ne-nil n e
print_int-ne-nil (negsuc n) e = cc

-- What a server publishes.
pub record Published : Type 0 where
  pub ip : List ℕ
  pub port : ℤ
  pub weight : ℤ

abbrev pub IsPlain : Published → Type 0
IsPlain r = IsWhole b' ' r.ip × IsWhole b'\n' r.ip

abbrev pub AllPlain : List Published → Type 0
AllPlain [] = 0 ≤ 0
AllPlain (r ∷ rs) = IsPlain r × AllPlain rs

-- The text of a line, which `endpoint_line` ends.
abbrev pub line_text : Published → List ℕ
line_text r = r.ip ++ (b' ' ∷ (print_int r.port ++ (b' ' ∷ print_int r.weight)))

abbrev pub all_lines : List Published → List ℕ
all_lines [] = []
all_lines (r ∷ rs) = endpoint_line r.ip r.port r.weight ++ all_lines rs

-- The same lines with no line end after the last.
abbrev pub joined : Published → List Published → List ℕ
joined r [] = line_text r
joined r (q ∷ rs) = line_text r ++ (b'\n' ∷ joined q rs)

-- The port and the ip are taken for one another.
abbrev pub read_endpoint : Published → Endpoint
read_endpoint r = record {
  key = r.ip ++ (b':' ∷ print_int r.port);
  port = to_uint16 (atoi r.ip);
  ip = print_int r.port;
  weight = print_int r.weight;
}

endpoint_of_line :
    (r : Published) → IsPlain r → endpoint_of (fields (line_text r)) ≡ some (read_endpoint r)
endpoint_of_line r (h, _) = ap endpoint_of (
    fields_three r.ip (print_int r.port) (print_int r.weight) h
      (IsWhole-print_int b' ' r.port refl refl) (IsWhole-print_int b' ' r.weight refl refl)
      (print_int-ne-nil r.weight))

line_text-IsWhole : (r : Published) → IsPlain r → IsWhole b'\n' (line_text r)
line_text-IsWhole r (_, h) = IsWhole-append b'\n' r.ip _ h (
  refl,
  IsWhole-append b'\n' (print_int r.port) _ (IsWhole-print_int b'\n' r.port refl refl)
      (refl, IsWhole-print_int b'\n' r.weight refl refl),
)

parse_all-joined :
    (r : Published) (rs : List Published)
    → IsPlain r
    → AllPlain rs
    → parse_all (pieces b'\n' (joined r rs)) ≡ some (map read_endpoint (r ∷ rs))
parse_all-joined r [] h hs =
    rw (pieces_one b'\n' (line_text r) (line_text-IsWhole r h), endpoint_of_line r h, parse_all)
      refl
parse_all-joined r (q ∷ rs) h (k, hs) =
    rw (pieces_first b'\n' (line_text r) (joined q rs) (line_text-IsWhole r h))
      (rw (endpoint_of_line r h, parse_all-joined q rs k hs, parse_all) refl)

split-pieces : (sep : ℕ) (s : List ℕ) → s ≢ [] → split sep s ≡ pieces sep s
unfolding split
split-pieces sep [] h = absurd (h refl)
split-pieces sep (c ∷ cs) h = refl

append-ne-nil : (xs ys : List ℕ) → ys ≢ [] → xs ++ ys ≢ []
append-ne-nil [] ys h e = h e
append-ne-nil (x ∷ xs) ys h e = cc

cons-ne-nil : (c : ℕ) (cs : List ℕ) → c ∷ cs ≢ []
cons-ne-nil c cs e = cc

line_text-ne-nil : (r : Published) → line_text r ≢ []
line_text-ne-nil r = append-ne-nil r.ip _ (cons-ne-nil b' ' _)

joined-ne-nil : (r : Published) (rs : List Published) → joined r rs ≢ []
joined-ne-nil r [] = line_text-ne-nil r
joined-ne-nil r (q ∷ rs) = append-ne-nil (line_text r) _ (cons-ne-nil b'\n' _)

endpoint_line_ends :
    (r : Published) (rest : List ℕ)
    → endpoint_line r.ip r.port r.weight ++ rest ≡ line_text r ++ (b'\n' ∷ rest)
unfolding endpoint_line
endpoint_line_ends r rest = simp append_assoc

all_lines-joined :
    (r : Published) (rs : List Published) → all_lines (r ∷ rs) ≡ joined r rs ++ (b'\n' ∷ [])
all_lines-joined r [] = endpoint_line_ends r []
all_lines-joined r (q ∷ rs) =
    endpoint_line_ends r (all_lines (q ∷ rs))
    ∙ ap (λ l. line_text r ++ (b'\n' ∷ l)) (all_lines-joined q rs)
    ∙ sym (append_assoc (line_text r) (b'\n' ∷ joined q rs) (b'\n' ∷ []))

-- Data that ends with a line end is read out of range.
pub endpoints_ended : (s : List ℕ) → endpoints (s ++ (b'\n' ∷ [])) ≡ none
unfolding endpoints
endpoints_ended s =
    ap parse_all (
      split-pieces b'\n' (s ++ (b'\n' ∷ [])) (append-ne-nil s _ (cons-ne-nil b'\n' []))
      ∙ pieces_last b'\n' s)
    ∙ parse_all_empty (pieces b'\n' s)

-- Of servers whose addresses hold no blank and no line end: the constructor reads back every line
-- that they publish, in order, with the port and the address taken for one another, if the data does
-- not end with a line end. As they publish them, each line with its end, it reads an empty endpoint
-- out of range.
pub endpoints-joined :
    (r : Published) (rs : List Published)
    → IsPlain r
    → AllPlain rs
    → (endpoints (joined r rs) ≡ some (map read_endpoint (r ∷ rs)))
      × (endpoints (all_lines (r ∷ rs)) ≡ none)
unfolding endpoints
endpoints-joined r rs h hs = (
  ap parse_all (split-pieces b'\n' (joined r rs) (joined-ne-nil r rs)) ∙ parse_all-joined r rs h hs,
  ap endpoints (all_lines-joined r rs) ∙ endpoints_ended (joined r rs),
)
