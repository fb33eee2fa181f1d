-- ===== src/Cmd/Peers/RoundTrip.antt =====
-- A list of peers that is printed as the flag wants it parses to the peers.
use uav.Base.{
  nat_key, ℕ, zero, suc, ◌+◌, ◌*◌, ◌-◌, ◌/◌, ◌%◌, ◌<◌, ◌≤◌, ◌≡◌, refl, sym, ap, ◌∙◌, ◌==◌, ◌&&◌,
  ◌||◌, ltb, Bool, true, false, some, List, [], ◌∷◌, ◌++◌, if◌then◌else◌, length, inl, inr,
  Bool-cases, arith,
}
use uav.Base.Map
use uav.Base.Map.{Map, listed}
use uav.Cmd.Peers.{
  comma, equals_sign, Text, is_space, trim_left, trim_right, trim_space, onto_first, split, before,
  cut, is_digit, read_digits, fits16, parse_uint16, peers, parse_items, parse_peers,
}

-- A number in decimal, on fuel above it.
unfoldable pub decimal : ℕ → ℕ → Text
decimal zero n = []
decimal (suc k) n =
    let front = decimal k (n / 10) in
    if ltb n 10 then (48 + n) ∷ [] else front ++ (48 + n % 10) ∷ []

-- A peer with its id and its address, as id=addr.
abbrev pub item : ℕ × Text → Text
item (id, addr) = decimal (suc id) id ++ equals_sign ∷ addr

unfoldable pub print_peers : List (ℕ × Text) → Text
print_peers [] = []
print_peers (p ∷ []) = item p
print_peers (p ∷ q ∷ ps) = item p ++ comma ∷ print_peers (q ∷ ps)

abbrev all_digits : Text → Bool
all_digits [] = true
all_digits (c ∷ cs) = is_digit c && all_digits cs

all_digits-append : (xs ys : Text) → all_digits (xs ++ ys) ≡ (all_digits xs && all_digits ys)
all_digits-append [] ys = refl
all_digits-append (c ∷ xs) ys = ground (arith, all_digits-append xs ys)

all_digits-decimal : (k n : ℕ) → all_digits (decimal k n) ≡ true
unfolding decimal
all_digits-decimal zero n = refl
all_digits-decimal (suc k) n = elim (Bool-cases (ltb n 10)) [
  | inl small ↦ rw small (ground (arith, small))
  | inr large ↦ rw large (
      all_digits-append (decimal k (n / 10)) ((48 + n % 10) ∷ [])
      ∙ ground (arith, all_digits-decimal k (n / 10)))
]

-- A digit is no comma, no equals sign and no space.
digits-free : (c : ℕ) (s : Text) → (c < 48) → all_digits s ≡ true → listed c s ≡ false
digits-free c [] low d = refl
digits-free c (x ∷ s) low d = ground (arith, digits-free c s, d, low)

digits-free_equals : (s : Text) → all_digits s ≡ true → listed equals_sign s ≡ false
digits-free_equals [] d = refl
digits-free_equals (x ∷ s) d = ground (arith, digits-free_equals s, d)

not_space : (c : ℕ) → is_digit c ≡ true → is_space c ≡ false
not_space c d = ground (arith, d)

trim_left-digits : (s : Text) → all_digits s ≡ true → trim_left s ≡ s
unfolding trim_left
trim_left-digits [] d = refl
trim_left-digits (c ∷ s) d =
    let none_there : is_space c ≡ false = not_space c (ground (arith, d)) in rw none_there refl

trim_right-digits : (s : Text) → all_digits s ≡ true → trim_right s ≡ s
unfolding trim_right
trim_right-digits [] d = refl
trim_right-digits (c ∷ s) d =
    let none_there : is_space c ≡ false = not_space c (ground (arith, d)) in
    rw none_there (ap (λ r. c ∷ r) (trim_right-digits s (ground (arith, d))))

read_digits-append :
    (n d : ℕ) (s : Text)
    → all_digits s ≡ true
    → d < 10
    → (value : ℕ) → read_digits n s ≡ some value
    → read_digits n (s ++ (48 + d) ∷ []) ≡ some (10 * value + d)
unfolding read_digits
read_digits-append n d [] ok small value e =
    let digit : is_digit (48 + d) ≡ true = ground (arith, small) in
    let same : n ≡ value = cc in rw digit (ap some (omega (arith, same)))
read_digits-append n d (c ∷ s) ok small value e =
    let digit : is_digit c ≡ true = ground (arith, ok) in
    let step : read_digits n (c ∷ s) ≡ read_digits (10 * n + (c - 48)) s = rw digit refl in
    rw digit
      (read_digits-append (10 * n + (c - 48)) d s (ground (arith, ok)) small value (sym step ∙ e))

read_digits-decimal : (k n : ℕ) → n < k → read_digits 0 (decimal k n) ≡ some n
unfolding decimal read_digits
read_digits-decimal zero n enough = absurd (omega arith)
read_digits-decimal (suc k) n enough = elim (Bool-cases (ltb n 10)) [
  | inl small ↦
      let digit : is_digit (48 + n) ≡ true = ground (arith, small) in
      rw (small, digit) (ap some (omega arith))
  | inr large ↦
      let front = read_digits-decimal k (n / 10) (ground (arith, large)) in
      rw large (
        read_digits-append 0 (n % 10) (decimal k (n / 10)) (all_digits-decimal k (n / 10))
          (omega arith) (n / 10) front
        ∙ ap some (omega arith))
]

cut-item :
    (front back : Text)
    → listed equals_sign front ≡ false
    → cut equals_sign (front ++ equals_sign ∷ back) ≡ some (front, back)
unfolding cut
cut-item [] back free = refl
cut-item (c ∷ front) back free =
    let other : (c == equals_sign) ≡ false = ground (arith, free) in
    rw other (ap (before c) (cut-item front back (ground (arith, free))))

split-one : (s : Text) → listed comma s ≡ false → split comma s ≡ s ∷ []
unfolding split
split-one [] free = refl
split-one (c ∷ s) free =
    let other : (c == comma) ≡ false = ground (arith, free) in
    rw other (ap (onto_first c) (split-one s (ground (arith, free))))

split-more :
    (s rest : Text)
    → listed comma s ≡ false
    → split comma (s ++ comma ∷ rest) ≡ s ∷ split comma rest
unfolding split
split-more [] rest free = refl
split-more (c ∷ s) rest free =
    let other : (c == comma) ≡ false = ground (arith, free) in
    rw other (ap (onto_first c) (split-more s rest (ground (arith, free))))

listed-append : (c : ℕ) (xs ys : Text) → listed c (xs ++ ys) ≡ (listed c xs || listed c ys)
listed-append c [] ys = refl
listed-append c (x ∷ xs) ys = ground (arith, listed-append c xs ys)

-- A peer that the flag can name: the id has 16 bits, and the address has no comma and no space around it.
pub record IsNamed (p : ℕ × Text) : Type 0 where
  pub id_fits : p.0 ≤ 65535
  pub no_comma : listed comma p.1 ≡ false
  pub trimmed : trim_space p.1 ≡ p.1

abbrev pub AreNamed : List (ℕ × Text) → Type 0
AreNamed [] = Unit
AreNamed (p ∷ ps) = IsNamed p × AreNamed ps

-- The map with these peers, the later ones first to count.
abbrev pub put_all : List (ℕ × Text) → Map ℕ Text → Map ℕ Text
put_all [] out = out
put_all ((id, addr) ∷ ps) out = put_all ps (Map.put id addr out)

length-between : (xs ys : Text) (c : ℕ) → (length (xs ++ c ∷ ys) == 0) ≡ false
length-between [] ys c = ground arith
length-between (x ∷ xs) ys c = ground arith

length-decimal : (k n : ℕ) → (length (decimal (suc k) n) == 0) ≡ false
unfolding decimal
length-decimal k n = elim (Bool-cases (ltb n 10)) [
  | inl small ↦ rw small (ground arith)
  | inr large ↦ rw large (length-between (decimal k (n / 10)) [] (48 + n % 10))
]

length-print_peers :
    (p : ℕ × Text) (ps : List (ℕ × Text)) → (length (print_peers (p ∷ ps)) == 0) ≡ false
unfolding print_peers
length-print_peers (id, addr) [] = length-between (decimal (suc id) id) addr equals_sign
length-print_peers p (q ∷ ps) = length-between (item p) (print_peers (q ∷ ps)) comma

parse_uint16-decimal :
    (id : ℕ) → id ≤ 65535 → parse_uint16 (trim_space (decimal (suc id) id)) ≡ some id
unfolding parse_uint16 trim_space
parse_uint16-decimal id fits =
    let text = decimal (suc id) id in
    let ok = all_digits-decimal (suc id) id in
    let trimmed : trim_right (trim_left text) ≡ text =
      ap trim_right (trim_left-digits text ok) ∙ trim_right-digits text ok in
    let full = length-decimal id id in
    rw (trimmed, full)
      (ap fits16 (read_digits-decimal (suc id) id (omega arith)) ∙ ground (arith, fits))

item-comma : (p : ℕ × Text) → IsNamed p → listed comma (item p) ≡ false
item-comma (id, addr) named =
    let front =
      digits-free comma (decimal (suc id) id) (omega arith) (all_digits-decimal (suc id) id) in
    listed-append comma (decimal (suc id) id) (equals_sign ∷ addr)
    ∙ ground (arith, front, named.no_comma)

parse_items-step :
    (spec : Text) (items : List Text) (out : Map ℕ Text) (id_text addr : Text) (id : ℕ)
    → cut equals_sign spec ≡ some (id_text, addr)
    → parse_uint16 (trim_space id_text) ≡ some id
    → parse_items (spec ∷ items) out ≡ parse_items items (Map.put id (trim_space addr) out)
unfolding parse_items
parse_items-step spec items out id_text addr id parts id_read = simp (parts, id_read, parse_items)

parse_items-item :
    (p : ℕ × Text) (items : List Text) (out : Map ℕ Text)
    → IsNamed p
    → parse_items (item p ∷ items) out ≡ parse_items items (Map.put p.0 p.1 out)
parse_items-item (id, addr) items out named =
    let parts =
      cut-item (decimal (suc id) id) addr
        (digits-free_equals (decimal (suc id) id) (all_digits-decimal (suc id) id)) in
    let id_read = parse_uint16-decimal id named.id_fits in
    parse_items-step (item (id, addr)) items out (decimal (suc id) id) addr id parts id_read
    ∙ ap (λ a. parse_items items (Map.put id a out)) named.trimmed

parse_items-print :
    (p : ℕ × Text) (ps : List (ℕ × Text)) (out : Map ℕ Text)
    → AreNamed (p ∷ ps)
    → parse_items (split comma (print_peers (p ∷ ps))) out ≡ peers (put_all (p ∷ ps) out)
unfolding print_peers parse_items
parse_items-print p [] out (named, _) =
    ap (λ items. parse_items items out) (split-one (item p) (item-comma p named))
    ∙ parse_items-item p [] out named
parse_items-print p (q ∷ ps) out (named, rest) =
    ap (λ items. parse_items items out)
      (split-more (item p) (print_peers (q ∷ ps)) (item-comma p named))
    ∙ parse_items-item p (split comma (print_peers (q ∷ ps))) out named
    ∙ parse_items-print q ps (Map.put p.0 p.1 out) rest

-- parsePeers reads the list that names peers as id=addr, with commas between them, as the map of these
-- peers, if the ids have 16 bits and the addresses have no comma and no space around them; an address may
-- have an equals sign.
pub parse_peers-print_peers :
    (ps : List (ℕ × Text)) → AreNamed ps → parse_peers (print_peers ps) ≡ peers (put_all ps [])
unfolding parse_peers print_peers
parse_peers-print_peers [] named = refl
parse_peers-print_peers (p ∷ ps) named =
    rw (length-print_peers p ps) (parse_items-print p ps [] named)
