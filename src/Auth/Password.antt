-- ===== src/Auth/Password.antt =====
-- backend/src/auth/service.py: `validate_password`, whose pattern asks for twelve or more characters on
-- one line with a lower-case letter, a capital, a digit and a special character.
use Prim.Native.Char.{Char, code}
use Prim.Native.String.{[], ◌∷◌, count}
use modishlog.Prelude.{Bool, false, not, ◌&&◌, ◌||◌, String, ◌==◌, leb, if◌then◌else◌}

abbrev any_char : (Char → Bool) → String → Bool
any_char p [] = false
any_char p (c ∷ s) = p c || any_char p s

abbrev in_text : String → Char → Bool
in_text s c = any_char (λ d. code d == code c) s

abbrev is_newline : Char → Bool
is_newline c = code c == 10

-- What `$` leaves in front of a newline that ends the text.
abbrev without_newline : String → String
without_newline [] = []
without_newline (c ∷ []) = if is_newline c then [] else c ∷ []
without_newline (c ∷ d ∷ s) = c ∷ without_newline (d ∷ s)

abbrev is_lower : Char → Bool
is_lower c = leb 97 (code c) && leb (code c) 122

abbrev is_upper : Char → Bool
is_upper c = leb 65 (code c) && leb (code c) 90

-- `is_decimal` is Unicode's test for decimal digits, which `\d` stands for.
unfoldable pub is_strong : (Char → Bool) → String → Bool
is_strong is_decimal password =
    let line = without_newline password in
    any_char is_lower line
    && (any_char is_upper line
        && (any_char is_decimal line
            && (any_char (in_text "!@#$%^&*()_+-=[]{};':\"\\|,.<>/?") line
                && (leb 12 (count line) && not (any_char is_newline line)))))
