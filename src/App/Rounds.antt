-- ===== src/App/Rounds.antt =====
-- The rounds of the search in `prepareLogging` of app/src/logger.cpp are enough.
use polkadot_light_client.Common.{
  Bool-cases, length, take, drop, length-drop, Bytes, bytes_eq, bytes_eq→eq, ℕ, zero, suc, ◌+◌, ◌≤◌,
  ◌≡◌, refl, sym, ap, inl, inr, true, Option, none, some, [], ◌∷◌, ◌++◌, arith,
}
use polkadot_light_client.App.Logging.{
  plain, placeholder, Match, format, consed, search, rest_of_line, replaced, replace_loop,
}

length-take_le : (n : ℕ) (xs : Bytes) → length (take n xs) ≤ length xs
unfolding take
length-take_le zero xs = omega arith
length-take_le (suc n) [] = omega arith
length-take_le (suc n) (x ∷ xs) = omega (arith, length-take_le n xs)

-- A text that begins with the placeholder has its length at least.
placeholder_le :
    (text : Bytes)
    → bytes_eq (take (length placeholder) text) placeholder ≡ true
    → length placeholder ≤ length text
placeholder_le text e =
    let same = ap length (bytes_eq→eq (take (length placeholder) text) placeholder e) in
    omega (arith, same, length-take_le (length placeholder) text)

consed-inv :
    (c : ℕ) (o : Option (Bytes × Bytes)) (before after : Bytes)
    → consed c o ≡ some (before, after)
    → (first : Bytes) × (o ≡ some (first, after))
consed-inv c none before after e = absurd (cc)
consed-inv c (some (first, rest)) before after e = (first, cc)

some-pair : {a b c d : Bytes} → ◌≡◌ {A = Option (Bytes × Bytes)} (some (a, b)) (some (c, d)) → b ≡ d
some-pair e = cc

-- What is left behind a match is shorter by the length of the placeholder.
search-length :
    (text before after : Bytes)
    → search text ≡ some (before, after)
    → length after + length placeholder ≤ length text
unfolding search
search-length [] before after e = absurd (cc)
search-length (c ∷ s) before after e =
    elim (Bool-cases (bytes_eq (take (length placeholder) (c ∷ s)) placeholder)) [
      | inl hit ↦
          let left = ap length (some-pair (rw (hit, search) at e)) in
          omega (arith, left, length-drop (length placeholder) (c ∷ s), placeholder_le (c ∷ s) hit)
      | inr miss ↦
          let (first, found) = consed-inv c (search s) before after (rw (miss, search) at e) in
          omega (arith, search-length s first after found)
    ]

module _ (fmt : Bytes) where
  no_rounds : (m : ℕ) → replace_loop m fmt [] ≡ []
  unfolding replace_loop search
  no_rounds zero = refl
  no_rounds (suc m) = refl

  -- A round, where the rounds after it do not matter for what is left.
  round_same :
      (n m : ℕ) (text : Bytes) (found : Option (Bytes × Bytes))
      → search text ≡ found
      → ((rest : Bytes)
          → length rest + length placeholder ≤ length text
          → replace_loop n fmt rest ≡ replace_loop m fmt rest)
      → replaced fmt (replace_loop n fmt) text found ≡ replaced fmt (replace_loop m fmt) text found
  round_same n m text none e h = refl
  round_same n m text (some (before, after)) e h =
      let line = rest_of_line after in
      let suffix = drop (length line) after in
      let m : Match = record { line_rest = line; prefix = before; suffix = suffix } in
      ap (λ (r : Bytes). before ++ (format m plain fmt ++ r))
        (h (drop (length (rest_of_line after)) after) (
          omega (
            arith,
            search-length text before after e,
            length-drop (length (rest_of_line after)) after,
          )))

  -- More rounds than characters change nothing.
  pub replace_loop-enough :
      (n m : ℕ) (text : Bytes)
      → length text ≤ n
      → length text ≤ m
      → replace_loop n fmt text ≡ replace_loop m fmt text
  unfolding replace_loop
  replace_loop-enough zero m [] hn hm = sym (no_rounds m)
  replace_loop-enough zero m (c ∷ text) hn hm = absurd (omega arith)
  replace_loop-enough (suc n) zero [] hn hm = no_rounds (suc n)
  replace_loop-enough (suc n) zero (c ∷ text) hn hm = absurd (omega arith)
  replace_loop-enough (suc n) (suc m) text hn hm =
      round_same n m text (search text) refl
        λ rest short. replace_loop-enough n m rest (omega arith) (omega arith)
