-- ===== src/Executor/RequestId.antt =====
-- `generateRequestId` and `isValidRequestId` of executor/src/request_types.cpp.
use dbms_project_sp.Base.{
  ℕ, zero, suc, ◌+◌, ◌-◌, subst, sym, ◌/◌, ◌%◌, ◌^◌, ◌≡◌, refl, ap, Bool, true, false, ◌&&◌, ◌||◌,
  List, [], ◌∷◌, ◌++◌, replicate, if◌then◌else◌, ltb, leb, ◌==◌, Bytes, arith,
}

-- The six numbers of 32 bits that the random engine gives, in the order of the calls.
pub record Draws : Type 0 where
  pub low : ℕ
  pub mid : ℕ
  pub high : ℕ
  pub clock : ℕ
  pub node_low : ℕ
  pub node_high : ℕ

abbrev pub hex_digit : ℕ → ℕ
hex_digit d = if ltb d 10 then d + b'0' else d - 10 + b'a'

-- `%0*x` of a number that has at most that many digits.
unfoldable pub hex : ℕ → ℕ → Bytes
hex zero n = []
hex (suc width) n = hex width (n / 16) ++ hex_digit (n % 16) ∷ []

-- The groups of an id from one on. `&` with the ones of the low bits is a remainder, and `|` with
-- a bit above them a sum.
abbrev node_text : Draws → Bytes
node_text d = hex 4 (d.node_high % 2 ^ 16) ++ hex 8 d.node_low

abbrev clock_text : Draws → Bytes
clock_text d = hex 4 (d.clock % 2 ^ 14 + 0x8000) ++ b'-' ∷ node_text d

abbrev version_text : Draws → Bytes
version_text d = hex 4 (d.high % 2 ^ 12 + 0x4000) ++ b'-' ∷ clock_text d

abbrev mid_text : Draws → Bytes
mid_text d = hex 4 (d.mid % 2 ^ 16) ++ b'-' ∷ version_text d

unfoldable pub generate_request_id : Draws → Bytes
generate_request_id d = hex 8 d.low ++ b'-' ∷ mid_text d

abbrev pub is_hex : ℕ → Bool
is_hex c = (leb b'0' c && leb c b'9') || (leb b'a' c && leb c b'f')

abbrev pub is_variant : ℕ → Bool
is_variant c = c == b'8' || c == b'9' || c == b'a' || c == b'b'

abbrev pub CharClass : Type 0
CharClass = ℕ → Bool

abbrev pub is_dash : ℕ → Bool
is_dash c = c == b'-'

abbrev pub is_four : ℕ → Bool
is_four c = c == b'4'

-- The pattern of the regular expression, a class of characters for each character, from a group on.
abbrev pub node_pattern : List CharClass
node_pattern = replicate 4 is_hex ++ replicate 8 is_hex

abbrev pub clock_pattern : List CharClass
clock_pattern = (is_variant ∷ replicate 3 is_hex) ++ is_dash ∷ node_pattern

abbrev pub version_pattern : List CharClass
version_pattern = (is_four ∷ replicate 3 is_hex) ++ is_dash ∷ clock_pattern

abbrev pub mid_pattern : List CharClass
mid_pattern = replicate 4 is_hex ++ is_dash ∷ version_pattern

abbrev pub id_pattern : List CharClass
id_pattern = replicate 8 is_hex ++ is_dash ∷ mid_pattern

abbrev pub all_match : List CharClass → Bytes → Bool
all_match [] [] = true
all_match (p ∷ ps) (c ∷ s) = p c && all_match ps s
all_match _ _ = false

unfoldable pub is_valid_request_id : Bytes → Bool
is_valid_request_id id = all_match id_pattern id

all_match-append :
    (ps qs : List CharClass) (s t : Bytes)
    → all_match ps s ≡ true
    → all_match qs t ≡ true
    → all_match (ps ++ qs) (s ++ t) ≡ true
all_match-append [] qs [] t h k = k
all_match-append [] qs (c ∷ s) t h k = absurd (ground arith)
all_match-append (p ∷ ps) qs [] t h k = absurd (ground arith)
all_match-append (p ∷ ps) qs (c ∷ s) t h k = ground (arith, all_match-append ps qs s t)

is_hex-digit : (d : ℕ) → is_hex (hex_digit (d % 16)) ≡ true
is_hex-digit d = ground arith

replicate-last : {A : Type 0} (n : ℕ) (a : A) → replicate (suc n) a ≡ replicate n a ++ a ∷ []
replicate-last zero a = refl
replicate-last (suc n) a = ap (λ l. a ∷ l) (replicate-last n a)

hex-is_hex : (w n : ℕ) → all_match (replicate w is_hex) (hex w n) ≡ true
unfolding hex
hex-is_hex zero n = refl
hex-is_hex (suc w) n =
    subst (λ ps. all_match ps (hex (suc w) n) ≡ true) (sym (replicate-last w is_hex))
      (all_match-append (replicate w is_hex) (is_hex ∷ []) (hex w (n / 16))
        (hex_digit (n % 16) ∷ []) (hex-is_hex w (n / 16)) (ground (arith, is_hex-digit n)))

group-append :
    (ps qs : List CharClass) (s t : Bytes)
    → all_match ps s ≡ true
    → all_match qs t ≡ true
    → all_match (ps ++ is_dash ∷ qs) (s ++ b'-' ∷ t) ≡ true
group-append ps qs s t h k = all_match-append ps (is_dash ∷ qs) s (b'-' ∷ t) h k

four-digit : (n : ℕ) → is_four (hex_digit ((n % 2 ^ 12 + 0x4000) / 16 / 16 / 16 % 16)) ≡ true
four-digit n = ground arith

variant-digit : (n : ℕ) → is_variant (hex_digit ((n % 2 ^ 14 + 0x8000) / 16 / 16 / 16 % 16)) ≡ true
variant-digit n = ground arith

first-group :
    (p : CharClass) (m : ℕ)
    → p (hex_digit (m / 16 / 16 / 16 % 16)) ≡ true
    → all_match (p ∷ replicate 3 is_hex) (hex 4 m) ≡ true
unfolding hex
first-group p m h = rw (h, is_hex-digit (m / 16 / 16), is_hex-digit (m / 16), is_hex-digit m)

-- Whatever numbers are drawn, the id that is made of them is a valid one.
pub generate_request_id-is_valid : (d : Draws) → is_valid_request_id (generate_request_id d) ≡ true
unfolding generate_request_id is_valid_request_id
generate_request_id-is_valid d =
    group-append (replicate 8 is_hex) mid_pattern (hex 8 d.low) (mid_text d) (hex-is_hex 8 d.low) (
      group-append (replicate 4 is_hex) version_pattern (hex 4 (d.mid % 2 ^ 16)) (version_text d)
        (hex-is_hex 4 (d.mid % 2 ^ 16))
        (group-append (is_four ∷ replicate 3 is_hex) clock_pattern
          (hex 4 (d.high % 2 ^ 12 + 0x4000)) (clock_text d)
          (first-group is_four (d.high % 2 ^ 12 + 0x4000) (four-digit d.high))
          (group-append (is_variant ∷ replicate 3 is_hex) node_pattern
            (hex 4 (d.clock % 2 ^ 14 + 0x8000)) (node_text d)
            (first-group is_variant (d.clock % 2 ^ 14 + 0x8000) (variant-digit d.clock))
            (all_match-append (replicate 4 is_hex) (replicate 8 is_hex)
              (hex 4 (d.node_high % 2 ^ 16)) (hex 8 d.node_low)
              (hex-is_hex 4 (d.node_high % 2 ^ 16)) (hex-is_hex 8 d.node_low)))))
