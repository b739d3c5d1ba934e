-- ===== src/Collaboration/Text.antt =====
-- The texts of the service (src/sovereign_ai/collaboration/service.py): ids, and the mentions that
-- MENTION_PATTERN finds in a message.
use Prim.Native.Char.{Char, code}
use achilles.Prelude.{
  ℕ, zero, suc, ◌-◌, String, Bool, true, false, not, ◌&&◌, ◌||◌, List, [], ◌∷◌, nat_eq, leb, ltb,
  concat, if◌then◌else◌, Result, ok, raised, value_error,
}

abbrev pub is_empty : String → Bool
is_empty String.[] = true
is_empty (String.◌∷◌ c s) = false

-- What `str.strip` takes off.
abbrev pub is_space : ℕ → Bool
is_space c =
    (leb 9 c && leb c 13)
    || (leb 28 c && leb c 32)
    || nat_eq c 133
    || nat_eq c 160
    || nat_eq c 5760
    || (leb 8192 c && leb c 8202)
    || nat_eq c 8232
    || nat_eq c 8233
    || nat_eq c 8239
    || nat_eq c 8287
    || nat_eq c 12288

unfoldable pub strip_left : String → String
strip_left String.[] = ""
strip_left (String.◌∷◌ c s) = if is_space (code c) then strip_left s else String.◌∷◌ c s

unfoldable pub strip_right : String → String
strip_right String.[] = ""
strip_right (String.◌∷◌ c s) =
    let rest = strip_right s in if is_space (code c) && is_empty rest then "" else String.◌∷◌ c rest

-- s.strip()
unfoldable pub strip : String → String
unfolding strip_left strip_right
strip s = strip_right (strip_left s)

-- The letter of `to` that stands where `c` stands in `from`.
unfoldable pub translate : Char → (from to : String) → Char
translate c String.[] to = c
translate c (String.◌∷◌ a from) String.[] = c
translate c (String.◌∷◌ a from) (String.◌∷◌ b to) =
    if nat_eq (code c) (code a) then b else translate c from to

-- s.lower(), on A to Z and the Kelvin sign. No other capital has a lower case that an id may hold.
unfoldable pub lower : String → String
unfolding translate
lower String.[] = ""
lower (String.◌∷◌ c s) =
    String.◌∷◌ (translate c "ABCDEFGHIJKLMNOPQRSTUVWXYZK" "abcdefghijklmnopqrstuvwxyzk") (lower s)

abbrev pub is_lower_or_digit : ℕ → Bool
is_lower_or_digit c = (leb b'a' c && leb c b'z') || (leb b'0' c && leb c b'9')

abbrev pub is_dash : ℕ → Bool
is_dash c = nat_eq c b'_' || nat_eq c b'-'

-- [a-z0-9_-]{0,room} up to the end
unfoldable pub is_id_tail : ℕ → String → Bool
is_id_tail room String.[] = true
is_id_tail zero (String.◌∷◌ c s) = false
is_id_tail (suc room) (String.◌∷◌ c s) =
    (is_lower_or_digit (code c) || is_dash (code c)) && is_id_tail room s

-- ID_PATTERN.fullmatch
unfoldable pub is_id : String → Bool
unfolding is_id_tail
is_id String.[] = false
is_id (String.◌∷◌ c s) = is_lower_or_digit (code c) && is_id_tail 63 s

unfoldable pub validate_id : String → Result String
unfolding strip lower is_id
validate_id value = let id = lower (strip value) in if is_id id then ok id else raised value_error

-- [a-z0-9] under IGNORECASE, which takes in four letters outside ASCII.
abbrev pub is_name_start : ℕ → Bool
is_name_start c =
    is_lower_or_digit c
    || (leb b'A' c && leb c b'Z')
    || nat_eq c 304
    || nat_eq c 305
    || nat_eq c 383
    || nat_eq c 8490

abbrev pub is_name_char : ℕ → Bool
is_name_char c = is_name_start c || is_dash c

-- Where the search for the pattern stands: outside a match, after a character that may or may not
-- stand before a match; after an `@`; or in a name, with room for so many characters more.
pub data Scan : Type 0 where
  outside : (blocked : Bool) → Scan
  at_sign : Scan
  inside : (name : String) (room : ℕ) (blocked : Bool) → Scan

-- `is_letter` is the part of \w beyond ASCII.
module _ (is_letter : ℕ → Bool) where
  -- [\w@]
  abbrev pub blocks : ℕ → Bool
  blocks c =
      is_lower_or_digit c
      || (leb b'A' c && leb c b'Z')
      || nat_eq c b'_'
      || nat_eq c b'@'
      || is_letter c

  abbrev pub after_char : Bool → ℕ → Scan
  after_char blocked c = if nat_eq c b'@' && not blocked then at_sign else outside (blocks c)

  abbrev pub letter : Char → String
  letter c = String.◌∷◌ c ""

  unfoldable pub scan : Scan → String → List String
  scan (outside blocked) String.[] = []
  scan at_sign String.[] = []
  scan (inside name room blocked) String.[] = name ∷ []
  scan (outside blocked) (String.◌∷◌ c s) = scan (after_char blocked (code c)) s
  scan at_sign (String.◌∷◌ c s) =
      scan
        (if is_name_start (code c)
          then inside (letter c) 63 (blocks (code c))
          else outside (blocks (code c)))
        s
  scan (inside name room blocked) (String.◌∷◌ c s) =
      let more = scan (inside (concat name (letter c)) (room - 1) (blocks (code c))) s in
      let done = name ∷ scan (after_char blocked (code c)) s in
      if ltb 0 room && is_name_char (code c) then more else done

  -- MENTION_PATTERN.findall(content)
  unfoldable pub find_mentions : String → List String
  unfolding scan
  find_mentions content = scan (outside false) content
