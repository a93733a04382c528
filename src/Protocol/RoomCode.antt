-- ===== src/Protocol/RoomCode.antt =====
-- crates/protocol/src/lib.rs: `RoomCode`. A string is the list of its code points.
use civ6_lan_bridge.Prelude.{
  ℕ, ◌+◌, ◌-◌, ◌%◌, ◌≤◌, ◌≡◌, ◌↔◌, refl, sym, ◌∙◌, ap, holds_below, holds_below_lem, length-take,
  Bool, true, not, ◌&&◌, ◌==◌, ltb, leb, if◌then◌else◌, Result, ok, err, List, [], ◌∷◌, map, Option,
  none, some, elem, length, take, arith, ℕ_discrete, get_or, All, nat_key,
}

abbrev pub RoomCode : Type 0
RoomCode = List ℕ

pub data RoomCodeError : Type 0 where
  invalid_length : ℕ → ℕ → RoomCodeError
  invalid_character : ℕ → RoomCodeError

abbrev pub min_len : ℕ
min_len = 6

abbrev pub max_len : ℕ
max_len = 12

-- `ABCDEFGHJKLMNPQRSTUVWXYZ23456789`
abbrev pub alphabet : List ℕ
alphabet =
    b'A' ∷ b'B' ∷ b'C' ∷ b'D' ∷ b'E' ∷ b'F' ∷ b'G' ∷ b'H' ∷ b'J' ∷ b'K' ∷ b'L' ∷ b'M' ∷ b'N' ∷ b'P'
    ∷ b'Q' ∷ b'R' ∷ b'S' ∷ b'T' ∷ b'U' ∷ b'V' ∷ b'W' ∷ b'X' ∷ b'Y' ∷ b'Z' ∷ b'2' ∷ b'3' ∷ b'4'
    ∷ b'5' ∷ b'6' ∷ b'7' ∷ b'8' ∷ b'9' ∷ []

unfoldable pub to_ascii_uppercase : ℕ → ℕ
to_ascii_uppercase c = if leb b'a' c && leb c b'z' then c - 32 else c

-- The bytes of a code point in UTF-8.
unfoldable pub len_utf8 : ℕ → ℕ
len_utf8 c = if ltb c 0x80 then 1 else if ltb c 0x800 then 2 else if ltb c 0x10000 then 3 else 4

-- `str::len`
unfoldable pub str_len : List ℕ → ℕ
unfolding len_utf8
str_len [] = 0
str_len (c ∷ cs) = len_utf8 c + str_len cs

unfoldable pub in_alphabet : ℕ → Bool
unfolding ℕ_discrete
in_alphabet c = elem c alphabet

-- `chars().find(|c| !ALPHABET.contains(*c))`
unfoldable pub find_invalid : List ℕ → Option ℕ
find_invalid [] = none
find_invalid (c ∷ cs) = let rest = find_invalid cs in if in_alphabet c then rest else some c

check_characters : RoomCode → Option ℕ → Result RoomCodeError RoomCode
check_characters value none = ok value
check_characters value (some c) = err (invalid_character c)

check_value : RoomCode → Result RoomCodeError RoomCode
unfolding check_characters find_invalid str_len
check_value value =
    if not (leb min_len (str_len value) && leb (str_len value) max_len)
    then err (invalid_length min_len max_len)
    else check_characters value (find_invalid value)

unfoldable pub parse : List ℕ → Result RoomCodeError RoomCode
unfolding check_value to_ascii_uppercase
parse value = check_value (map to_ascii_uppercase value)

-- `random`, from the bytes of the fresh UUID. `byte & 31` is `byte % 32`.
unfoldable pub random : List ℕ → RoomCode
random bytes = map (λ b. get_or alphabet (b % 32) 0) (take 8 bytes)

to_ascii_uppercase_idem : (c : ℕ) → to_ascii_uppercase (to_ascii_uppercase c) ≡ to_ascii_uppercase c
unfolding to_ascii_uppercase
to_ascii_uppercase_idem c = ground arith

map-to_ascii_uppercase_idem :
    (cs : List ℕ) → map to_ascii_uppercase (map to_ascii_uppercase cs) ≡ map to_ascii_uppercase cs
map-to_ascii_uppercase_idem [] = refl
map-to_ascii_uppercase_idem (c ∷ cs) =
    simp (to_ascii_uppercase_idem, map-to_ascii_uppercase_idem cs)

-- Parsing ignores the case of ASCII letters.
pub parse_case_insensitive : (value : List ℕ) → parse (map to_ascii_uppercase value) ≡ parse value
unfolding parse
parse_case_insensitive value = ap check_value (map-to_ascii_uppercase_idem value)

-- What a room code promises: 6 to 12 bytes long, with no character that is easily misread.
pub record IsRoomCode (code : RoomCode) : Type 0 where
  pub long_enough : min_len ≤ str_len code
  pub short_enough : str_len code ≤ max_len
  pub readable : All (λ c. in_alphabet c ≡ true) code

find_invalid-All : (cs : List ℕ) → find_invalid cs ≡ none → All (λ c. in_alphabet c ≡ true) cs
unfolding find_invalid
find_invalid-All [] h = tt
find_invalid-All (c ∷ cs) h = (ground arith, find_invalid-All cs (ground arith))

find_invalid_of_All : (cs : List ℕ) → All (λ c. in_alphabet c ≡ true) cs → find_invalid cs ≡ none
unfolding find_invalid
find_invalid_of_All [] h = refl
find_invalid_of_All (c ∷ cs) h = ground (arith, find_invalid_of_All cs h.1)

check_value-IsRoomCode :
    (value code : RoomCode) → check_value value ≡ ok code → (code ≡ value) × IsRoomCode code
unfolding check_value
check_value-IsRoomCode value code h = (
  same,
  rw same (record {
    long_enough = ground arith;
    short_enough = ground arith;
    readable = find_invalid-All value (ground arith);
  }),
)
  where
    same : code ≡ value
    same = ground arith

check_of_IsRoomCode : (value : RoomCode) → IsRoomCode value → check_value value ≡ ok value
unfolding check_value
check_of_IsRoomCode value v = ground (arith, find_invalid_of_All value v.readable)

-- parse succeeds with a code exactly if the code is the text in upper case, 6 to 12 bytes long
-- and with every character in the alphabet.
pub parse_iff :
    (value : List ℕ) (code : RoomCode)
    → (parse value ≡ ok code) ↔ ((code ≡ map to_ascii_uppercase value) × IsRoomCode code)
unfolding parse
parse_iff value code = (
  check_value-IsRoomCode (map to_ascii_uppercase value) code,
  λ h. rw (← h.0) (check_of_IsRoomCode code h.1),
)

-- A code that parse has accepted parses to itself.
pub parse_idem : (value : List ℕ) (code : RoomCode) → parse value ≡ ok code → parse code ≡ ok code
parse_idem value code h = (parse_iff code code).1 (
  sym (ap (map to_ascii_uppercase) upper ∙ map-to_ascii_uppercase_idem value ∙ sym upper),
  ((parse_iff value code).0 h).1,
)
  where
    upper : code ≡ map to_ascii_uppercase value
    upper = ((parse_iff value code).0 h).0

letter : ℕ → ℕ
letter b = get_or alphabet (b % 32) 0

is_letter : ℕ → Bool
is_letter c = in_alphabet c && (to_ascii_uppercase c == c && len_utf8 c == 1)

letters_checked : holds_below (λ i. is_letter (get_or alphabet i 0)) 32 ≡ true
unfolding holds_below is_letter in_alphabet to_ascii_uppercase len_utf8
letters_checked = refl

is_letter-letter : (b : ℕ) → is_letter (letter b) ≡ true
unfolding letter
is_letter-letter b =
    holds_below_lem (λ i. is_letter (get_or alphabet i 0)) 32 (b % 32) (omega arith) letters_checked

letters-readable : (bs : List ℕ) → All (λ c. in_alphabet c ≡ true) (map letter bs)
unfolding is_letter
letters-readable [] = tt
letters-readable (b ∷ bs) = (ground (arith, is_letter-letter b), letters-readable bs)

letters-upper : (bs : List ℕ) → map to_ascii_uppercase (map letter bs) ≡ map letter bs
unfolding is_letter
letters-upper [] = refl
letters-upper (b ∷ bs) = ground (arith, is_letter-letter b, letters-upper bs)

str_len-letters : (bs : List ℕ) → str_len (map letter bs) ≡ length bs
unfolding is_letter str_len
str_len-letters [] = refl
str_len-letters (b ∷ bs) = ground (arith, is_letter-letter b, str_len-letters bs)

-- From the 16 bytes of any UUID, random makes a code that parse accepts and keeps.
pub parse-random : (bytes : List ℕ) → length bytes ≡ 16 → parse (random bytes) ≡ ok (random bytes)
unfolding random letter
parse-random bytes h = (parse_iff (random bytes) (random bytes)).1 (
  sym (letters-upper (take 8 bytes)),
  record {
    long_enough = omega (arith, str_len-letters (take 8 bytes), length-take 8 bytes);
    short_enough = omega (arith, str_len-letters (take 8 bytes), length-take 8 bytes);
    readable = letters-readable (take 8 bytes);
  },
)
