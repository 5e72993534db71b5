-- ===== src/Documents/Texts.antt =====
-- The methods of Python's texts that the document code uses, for given characters: a character is
-- its code point.
use auto_jobs_apply.Prelude.{
  ℕ, String, Bool, false, ◌&&◌, ◌||◌, List, [], ◌∷◌, ◌==◌, any, str_eq, if◌then◌else◌,
}
use Prim.Native.String.{◌++◌}
use Prim.Native.Char.{Char, code}

abbrev pub newline : List ℕ
newline = b'\n' ∷ []

abbrev pub is_in : List ℕ → Char → Bool
is_in characters c = any (λ d. d == code c) characters

abbrev pub onto_first : Char → List String → List String
onto_first c [] = String.◌∷◌ c "" ∷ []
onto_first c (piece ∷ pieces) = String.◌∷◌ c piece ∷ pieces

-- `text.split(d)`, and `re.split` at a class of characters: the pieces between the delimiters.
unfoldable pub split : List ℕ → String → List String
split delimiters String.[] = "" ∷ []
split delimiters (String.◌∷◌ c text) =
    let rest = split delimiters text in if is_in delimiters c then "" ∷ rest else onto_first c rest

-- `text.split(d + d)`, of a delimiter that is a character twice.
unfoldable pub split_at_pair : ℕ → String → List String
split_at_pair d String.[] = "" ∷ []
split_at_pair d (String.◌∷◌ c String.[]) = String.◌∷◌ c "" ∷ []
split_at_pair d (String.◌∷◌ c (String.◌∷◌ next text)) =
    let after_pair = split_at_pair d text in
    let after_one = split_at_pair d (String.◌∷◌ next text) in
    if code c == d && code next == d then "" ∷ after_pair else onto_first c after_one

-- `separator.join(pieces)`
unfoldable pub join : String → List String → String
join separator [] = ""
join separator (piece ∷ []) = piece
join separator (piece ∷ next ∷ pieces) = piece ++ (separator ++ join separator (next ∷ pieces))

-- `delimiter in text`
unfoldable pub has_character : ℕ → String → Bool
has_character d String.[] = false
has_character d (String.◌∷◌ c text) = code c == d || has_character d text

-- `text.lstrip(characters)`
unfoldable pub lstrip : List ℕ → String → String
lstrip characters String.[] = ""
lstrip characters (String.◌∷◌ c text) =
    let rest = lstrip characters text in if is_in characters c then rest else String.◌∷◌ c text

-- `text.rstrip(characters)`
unfoldable pub rstrip : List ℕ → String → String
rstrip characters String.[] = ""
rstrip characters (String.◌∷◌ c text) =
    let rest = rstrip characters text in
    if is_in characters c && str_eq rest "" then "" else String.◌∷◌ c rest

-- `text.startswith(characters)`
abbrev pub starts_with_one_of : List ℕ → String → Bool
starts_with_one_of characters String.[] = false
starts_with_one_of characters (String.◌∷◌ c text) = is_in characters c
