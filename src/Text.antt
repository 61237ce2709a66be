-- ===== src/Text.antt =====
-- What the fields of the models ask of a text: lengths and the patterns of
-- src/fundermatch/precedent/schema.py and src/fundermatch/orchestration/schema.py.
use funder_match.Base.{
  Bool, Option, String, false, leb, nat_eq, none, some, string_eq, true, within, ℕ, ◌&&◌, ◌==◌,
  ◌||◌,
}
use Prim.Native.Char.{code}
use Prim.Native.String.{count}

-- Classes of characters, by their codes.
abbrev between : ℕ → ℕ → ℕ → Bool
between low high c = leb low c && leb c high

abbrev pub is_lower : ℕ → Bool
is_lower c = between 97 122 c

abbrev is_digit : ℕ → Bool
is_digit c = between 48 57 c

abbrev pub is_alphanumeric : ℕ → Bool
is_alphanumeric c = is_digit c || between 65 90 c || is_lower c

-- `[A-Za-z0-9._-]`
abbrev pub is_name_part : ℕ → Bool
is_name_part c = is_alphanumeric c || c == 46 || c == 95 || c == 45

-- `[a-z0-9_]`
abbrev pub is_type_part : ℕ → Bool
is_type_part c = is_lower c || is_digit c || c == 95

-- `[0-9a-f]`
abbrev is_hex : ℕ → Bool
is_hex c = is_digit c || between 97 102 c

abbrev pub all_codes : (ℕ → Bool) → String → Bool
all_codes p String.[] = true
all_codes p (String.◌∷◌ c s) = p (code c) && all_codes p s

abbrev pub starts : (ℕ → Bool) → String → Bool
starts p String.[] = false
starts p (String.◌∷◌ c s) = p (code c)

abbrev pub is_filled : String → Bool
is_filled s = leb 1 (count s)

-- `^[0-9a-f]{64}$`, and the same of a text that may be missing
abbrev pub is_hash : String → Bool
is_hash s = within 64 64 s && all_codes is_hex s

abbrev pub is_digest : Option String → Bool
is_digest none = true
is_digest (some s) = is_hash s

-- `max_length`, where there is a text
abbrev pub is_short : ℕ → Option String → Bool
is_short n none = true
is_short n (some s) = leb (count s) n
