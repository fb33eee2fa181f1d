-- ===== src/Cmd/Peers.antt =====
-- cmd/node/main.go, parsePeers. A text is the list of its code points.
pub mod RoundTrip
mod Tests
use uav.Base.{
  nat_key, ℕ, ◌+◌, ◌*◌, ◌-◌, ◌==◌, ◌&&◌, ◌||◌, leb, Bool, Option, none, some, List, [], ◌∷◌,
  if◌then◌else◌, length,
}
use uav.Base.Map
use uav.Base.Map.{Map}

abbrev pub comma : ℕ
comma = 44

abbrev pub equals_sign : ℕ
equals_sign = 61

abbrev pub Text : Type 0
Text = List ℕ

-- unicode.IsSpace.
abbrev pub is_space : ℕ → Bool
is_space c =
    (leb 9 c && leb c 13)
    || (c == 32)
    || (c == 133)
    || (c == 160)
    || (c == 5760)
    || (leb 8192 c && leb c 8202)
    || (c == 8232)
    || (c == 8233)
    || (c == 8239)
    || (c == 8287)
    || (c == 12288)

unfoldable pub trim_left : Text → Text
trim_left [] = []
trim_left (c ∷ cs) = let rest = trim_left cs in if is_space c then rest else c ∷ cs

unfoldable pub trim_right : Text → Text
trim_right [] = []
trim_right (c ∷ cs) =
    let rest = trim_right cs in if is_space c && (length rest == 0) then [] else c ∷ rest

-- strings.TrimSpace.
unfoldable pub trim_space : Text → Text
trim_space s = trim_right (trim_left s)

abbrev pub onto_first : ℕ → List Text → List Text
onto_first c [] = (c ∷ []) ∷ []
onto_first c (item ∷ items) = (c ∷ item) ∷ items

-- strings.Split by one code point.
unfoldable pub split : ℕ → Text → List Text
split sep [] = [] ∷ []
split sep (c ∷ cs) = let rest = split sep cs in if c == sep then [] ∷ rest else onto_first c rest

abbrev pub before : ℕ → Option (Text × Text) → Option (Text × Text)
before c none = none
before c (some (front, back)) = some (c ∷ front, back)

-- strings.SplitN with 2, if it yields two parts.
unfoldable pub cut : ℕ → Text → Option (Text × Text)
cut sep [] = none
cut sep (c ∷ cs) = let rest = cut sep cs in if c == sep then some ([], cs) else before c rest

abbrev pub is_digit : ℕ → Bool
is_digit c = leb 48 c && leb c 57

-- The value of decimal digits behind a number.
unfoldable pub read_digits : ℕ → Text → Option ℕ
read_digits n [] = some n
read_digits n (c ∷ cs) =
    let rest = read_digits (10 * n + (c - 48)) cs in if is_digit c then rest else none

abbrev pub fits16 : Option ℕ → Option ℕ
fits16 none = none
fits16 (some n) = if leb n 65535 then some n else none

-- strconv.ParseUint with base 10 and 16 bits.
unfoldable pub parse_uint16 : Text → Option ℕ
parse_uint16 s = if length s == 0 then none else fits16 (read_digits 0 s)

-- The errors of parsePeers, with what they name.
pub data Parsed : Type 0 where
  peers : Map ℕ Text → Parsed
  invalid_spec : Text → Parsed
  invalid_id : Text → Parsed

-- The loop over the items.
unfoldable pub parse_items : List Text → Map ℕ Text → Parsed
parse_items [] out = peers out
parse_items (item ∷ items) out = elim (cut equals_sign item) [
  | none ↦ invalid_spec item
  | some (id_text, addr) ↦ elim (parse_uint16 (trim_space id_text)) [
    | none ↦ invalid_id id_text
    | some id ↦ parse_items items (Map.put id (trim_space addr) out)
  ]
]

-- parsePeers.
unfoldable pub parse_peers : Text → Parsed
parse_peers s = if length s == 0 then peers [] else parse_items (split comma s) []
