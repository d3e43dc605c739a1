-- ===== src/TrackerAcceptor/Requests.antt =====
-- The line that TrackerClient::do_announce writes, read by the tracker.
use new_thinbt.Common.{
  ℕ, zero, suc, ◌+◌, ◌/◌, ◌%◌, ◌≤◌, ◌<◌, ◌≡◌, ◌≢◌, ◌⊎◌, refl, sym, ap, ap₂, ◌∙◌, inl, inr, true,
  false, ◌||◌, none, some, List, [], ◌∷◌, ◌++◌, ◌>>=◌, append_assoc, append-nil, All, ltb, leb,
  ◌==◌, Bool-cases, arith, ltb→lt, u16_mod, u32_mod,
}
use new_thinbt.Common.Text.{
  codes, strip_prefix, after, before, is_digit, digits, decimal, digits_value, strip_sign, value,
  out_of_range, signed_result, unsigned_value, unsigned_result, stoull,
}
use new_thinbt.Common.Decimal.{
  EndsNumber, digits-All, StartsDigit, digit-StartsDigit, skip_space-starts, strip_sign-starts,
  unsigned_value-starts, digits-StartsDigit, stoull-decimal,
}
use new_thinbt.TrackerServer.{TrackerPeerEntry, Swarms}
use new_thinbt.TrackerClient.{request_text}
use new_thinbt.TrackerAcceptor.{
  json_extract_string, skip_blanks, number_token, token_value, found_string, found_number,
  json_extract_int, answer, thrown, with_numbers, handle_client,
}

-- A digit of a number in base 16, as the hashes are written with.
abbrev pub IsHex : ℕ → Type 0
IsHex c = ((48 ≤ c) × (c ≤ 57)) ⊎ ((97 ≤ c) × (c ≤ 102))

eq_ne : (a b : ℕ) → a ≢ b → (a == b) ≡ false
eq_ne a b ne = ground (arith, ne)

-- A search for a quoted word skips a text without quotes.
after-skip :
    (pattern text rest : List ℕ)
    → All (λ c. c ≢ 34) text
    → after (34 ∷ pattern) (text ++ rest) ≡ after (34 ∷ pattern) rest
unfolding after strip_prefix
after-skip pattern [] rest free = refl
after-skip pattern (c ∷ text) rest free =
    let other : (34 == c) ≡ false = eq_ne 34 c (λ e. free.0 (sym e)) in
    rw (after, strip_prefix, other) (after-skip pattern text rest free.1)

-- A text that a pattern's first byte does not occur in, up to a quote.
strip_prefix-miss :
    (c : ℕ) (pattern text rest : List ℕ)
    → All (λ d. d ≢ c) text
    → 34 ≢ c
    → strip_prefix (c ∷ pattern) (text ++ (34 ∷ rest)) ≡ none
unfolding strip_prefix
strip_prefix-miss c pattern [] rest free ne = rw (strip_prefix, eq_ne c 34 (λ e. ne (sym e))) refl
strip_prefix-miss c pattern (d ∷ text) rest free ne =
    rw (strip_prefix, eq_ne c d (λ e. free.0 (sym e))) refl

before-quote :
    (text rest : List ℕ) → All (λ c. c ≢ 34) text → before 34 (text ++ (34 ∷ rest)) ≡ some text
unfolding before
before-quote [] rest free = refl
before-quote (c ∷ text) rest free =
    rw (before, eq_ne c 34 free.0, before-quote text rest free.1) refl

decimal-free : (n : ℕ) → All (λ c. c ≢ 34) (decimal n)
unfolding decimal
decimal-free n = digits-All (λ c. c ≢ 34) (λ d lt e. omega arith) n n (omega arith)

number_token-digits :
    (fuel n : ℕ) (rest : List ℕ)
    → n ≤ fuel
    → number_token (digits fuel n ++ rest) ≡ digits fuel n ++ number_token rest
unfolding digits number_token is_digit
number_token-digits zero n rest le =
    let digit : is_digit (48 + n) ≡ true = ground arith in rw (number_token, digit) refl
number_token-digits (suc fuel) n rest le = elim (Bool-cases (ltb n 10)) [
  | inl small ↦
      let digit : is_digit (48 + n) ≡ true = ground (arith, ltb→lt n 10 small) in
      rw (digits, small, number_token, digit) refl
  | inr large ↦
      let digit : is_digit (48 + n % 10) ≡ true = ground arith in
      let ih = number_token-digits fuel (n / 10) ((48 + n % 10) ∷ rest) (omega arith) in
      let next : number_token ((48 + n % 10) ∷ rest) ≡ (48 + n % 10) ∷ number_token rest =
        rw (number_token, digit) refl in
      rw
        (
          digits,
          large,
          append_assoc (digits fuel (n / 10)) ((48 + n % 10) ∷ []) rest,
          ih,
          next,
          append_assoc (digits fuel (n / 10)) ((48 + n % 10) ∷ []) (number_token rest),
        )
        refl
]

skip_blanks-starts : (text : List ℕ) → StartsDigit text → skip_blanks text ≡ text
unfolding skip_blanks StartsDigit
skip_blanks-starts [] starts = refl
skip_blanks-starts (c ∷ text) starts =
    let other : (c == 32 || c == 9) ≡ false = ground (arith, starts) in rw (skip_blanks, other) refl

token_value-starts : (text : List ℕ) → StartsDigit text → token_value text ≡ stoull text
unfolding token_value StartsDigit
token_value-starts [] starts = cc
token_value-starts (c ∷ text) starts = refl

-- A number that is followed by a byte that is neither a digit nor a minus.
found_number-decimal :
    (n : ℕ) (rest : List ℕ)
    → n < 18446744073709551616
    → number_token rest ≡ []
    → found_number (some (decimal n ++ rest)) ≡ value n
unfolding found_number decimal EndsNumber
found_number-decimal n rest lt ends =
    let starts = digits-StartsDigit n n rest (omega arith) in
    let alone = digits-StartsDigit n n [] (omega arith) in
    ap (λ t. token_value (number_token t)) (skip_blanks-starts _ starts)
    ∙ ap token_value (number_token-digits n n rest (omega arith) ∙ ap (λ t. digits n n ++ t) ends)
    ∙ token_value-starts _ alone
    ∙ stoull-decimal n [] lt tt

-- A line with any texts in the place of its numbers.
abbrev pub tail_line : List ℕ → List ℕ → List ℕ
tail_line port speed =
    codes "\",\"port\":" ++ (port ++ (codes ",\"speed_mbps\":" ++ (speed ++ codes "}\n")))

abbrev pub line : List ℕ → List ℕ → List ℕ → List ℕ
line hash port speed =
    codes "{\"op\":\"announce\",\"info_hash\":\"" ++ (hash ++ tail_line port speed)

free_of : (c : ℕ) (hash : List ℕ) → 102 < c → All IsHex hash → All (λ d. d ≢ c) hash
free_of c [] lt hex = tt
free_of c (d ∷ hash) lt hex = ((λ e. ground (arith, hex.0)), free_of c hash lt hex.1)

quote_free : (hash : List ℕ) → All IsHex hash → All (λ d. d ≢ 34) hash
quote_free [] hex = tt
quote_free (d ∷ hash) hex = ((λ e. ground (arith, hex.0)), quote_free hash hex.1)

hash_of_line :
    (hash port speed : List ℕ)
    → All IsHex hash
    → json_extract_string (line hash port speed) (codes "info_hash") ≡ hash
unfolding json_extract_string after strip_prefix found_string
hash_of_line hash port speed hex = ap found_string (before-quote hash _ (quote_free hash hex))

-- A key whose first letter is no digit in base 16 is not found in the hash.
after-hash :
    (c : ℕ) (pattern hash rest : List ℕ)
    → 102 < c
    → All IsHex hash
    → after (34 ∷ c ∷ pattern) (34 ∷ (hash ++ (34 ∷ rest))) ≡ after (34 ∷ c ∷ pattern) (34 ∷ rest)
unfolding after strip_prefix
after-hash c pattern hash rest lt hex =
    rw
      (
        after,
        strip_prefix,
        strip_prefix-miss c pattern hash rest (free_of c hash lt hex) (λ e. omega arith),
      )
      (after-skip (c ∷ pattern) hash (34 ∷ rest) (quote_free hash hex))

port_of_line :
    (hash port speed : List ℕ)
    → All IsHex hash
    → json_extract_int (line hash port speed) (codes "port")
      ≡ found_number (some (port ++ (codes ",\"speed_mbps\":" ++ (speed ++ codes "}\n"))))
unfolding json_extract_int after strip_prefix
port_of_line hash port speed hex =
    ap (λ o. found_number (o >>= after (58 ∷ [])))
      (after-hash 112 (codes "ort\"") hash
        (codes ",\"port\":" ++ (port ++ (codes ",\"speed_mbps\":" ++ (speed ++ codes "}\n"))))
        (omega arith) hex)

speed_of_line :
    (hash port speed : List ℕ)
    → All IsHex hash
    → All (λ c. c ≢ 34) port
    → json_extract_int (line hash port speed) (codes "speed_mbps")
      ≡ found_number (some (speed ++ codes "}\n"))
unfolding json_extract_int after strip_prefix
speed_of_line hash port speed hex free =
    ap (λ o. found_number (o >>= after (58 ∷ [])))
      (after-hash 115 (codes "peed_mbps\"") hash
          (codes ",\"port\":" ++ (port ++ (codes ",\"speed_mbps\":" ++ (speed ++ codes "}\n"))))
          (omega arith) hex
        ∙ after-skip (codes "speed_mbps\"") port _ free)

-- The line that a client writes is read as its announcement: with the info-hash that its hexadecimal
-- digits give, its port and its speed.
pub handle_client-request_text :
    (sort : List TrackerPeerEntry → List TrackerPeerEntry) (swarms : Swarms) (hash : List ℕ)
    (port speed : ℕ) (ip : List ℕ) (now : ℕ)
    → All IsHex hash
    → port < u16_mod
    → speed < u32_mod
    → handle_client sort swarms (request_text hash port speed) ip now
      ≡ answer sort swarms hash port speed ip now
unfolding handle_client request_text with_numbers decimal number_token is_digit
handle_client-request_text sort swarms hash port speed ip now hex lt lt' =
    let same_port : port % u16_mod ≡ port = omega arith in
    let same_speed : speed % u32_mod ≡ speed = omega arith in
    let text : List ℕ = line hash (decimal port) (decimal speed) in
    let read_port : json_extract_int text (codes "port") ≡ value port =
      port_of_line hash (decimal port) (decimal speed) hex
      ∙ found_number-decimal port _ (omega arith) refl in
    let read_speed : json_extract_int text (codes "speed_mbps") ≡ value speed =
      speed_of_line hash (decimal port) (decimal speed) hex (decimal-free port)
      ∙ found_number-decimal speed _ (omega arith) refl in
    ap₂
      (with_numbers
        (λ p s. answer sort swarms (json_extract_string text (codes "info_hash")) p s ip now))
      read_port read_speed
    ∙ ap₂
        (λ (p s : ℕ). answer sort swarms (json_extract_string text (codes "info_hash")) p s ip now)
        same_port same_speed
    ∙ ap (λ h. answer sort swarms h port speed ip now)
        (hash_of_line hash (decimal port) (decimal speed) hex)

-- A text of digits.
abbrev pub IsDigits : List ℕ → Type 0
IsDigits = All (λ c. is_digit c ≡ true)

number_token-IsDigits :
    (ds rest : List ℕ) → IsDigits ds → number_token (ds ++ rest) ≡ ds ++ number_token rest
unfolding number_token
number_token-IsDigits [] rest all = refl
number_token-IsDigits (d ∷ ds) rest all =
    rw (number_token, all.0, number_token-IsDigits ds rest all.1) refl

stoull-IsDigits :
    (ds : List ℕ)
    → IsDigits ds
    → 18446744073709551616 ≤ digits_value 0 ds
    → token_value ds ≡ out_of_range
unfolding token_value stoull signed_result unsigned_value unsigned_result digits_value
stoull-IsDigits [] all le = absurd (omega arith)
stoull-IsDigits (d ∷ ds) all le =
    let starts : StartsDigit (d ∷ ds) = digit-StartsDigit d ds all.0 in
    let large : leb 18446744073709551616 (digits_value 0 (d ∷ ds)) ≡ true = ground arith in
    ap signed_result (ap strip_sign (skip_space-starts _ starts) ∙ strip_sign-starts _ starts)
    ∙ ap (unsigned_result false) (unsigned_value-starts _ starts)
    ∙ rw (unsigned_result, large) refl

-- A line whose port has digits for 2^64 or more ends the handler with the exception of std::stoull,
-- whatever the speed and the swarms are.
pub handle_client-thrown :
    (sort : List TrackerPeerEntry → List TrackerPeerEntry) (swarms : Swarms) (hash : List ℕ)
    (port speed ip : List ℕ) (now : ℕ)
    → All IsHex hash
    → IsDigits port
    → 18446744073709551616 ≤ digits_value 0 port
    → handle_client sort swarms (line hash port speed) ip now ≡ thrown out_of_range
unfolding handle_client with_numbers found_number number_token is_digit digits_value
handle_client-thrown sort swarms hash [] speed ip now hex all le = absurd (omega arith)
handle_client-thrown sort swarms hash (d ∷ ds) speed ip now hex all le =
    let text : List ℕ = line hash (d ∷ ds) speed in
    let rest : List ℕ = codes ",\"speed_mbps\":" ++ (speed ++ codes "}\n") in
    let starts : StartsDigit ((d ∷ ds) ++ rest) = digit-StartsDigit d (ds ++ rest) all.0 in
    let read_port : json_extract_int text (codes "port") ≡ out_of_range =
      port_of_line hash (d ∷ ds) speed hex
      ∙ ap (λ t. token_value (number_token t)) (skip_blanks-starts _ starts)
      ∙ ap token_value (number_token-IsDigits (d ∷ ds) rest all ∙ append-nil (d ∷ ds))
      ∙ stoull-IsDigits (d ∷ ds) all le in
    ap
      (λ o.
        with_numbers
          (λ p s. answer sort swarms (json_extract_string text (codes "info_hash")) p s ip now) o
          (json_extract_int text (codes "speed_mbps")))
      read_port
