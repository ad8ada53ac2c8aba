-- ===== src/Text.antt =====
-- The text operations of Python that the program uses: `str.strip`, `str.split(",")`, `str(int)`
-- and the concatenation of an f-string. A text is a sequence of code points.
use Prim.Native.Char.{Char, code}
use Prim.Native.String.append
use Prim.Native.String.compare
pub use Prim.Native.String.{◌++◌ as ◌+++◌}
use worker_template.Prelude.{
  ℕ, zero, suc, ◌/◌, ◌%◌, String, ◌≡◌, refl, Bool, true, false, ◌&&◌, ◌||◌, List, [], ◌∷◌, str_eq,
  ltb, leb, ◌==◌, if◌then◌else◌,
}

-- The characters for which `str.isspace` holds, which `strip` removes.
abbrev pub is_space : ℕ → Bool
is_space c =
    (leb 9 c && leb c 13)
    || (leb 28 c && leb c 32)
    || (c == 133)
    || (c == 160)
    || (c == 5760)
    || (leb 8192 c && leb c 8202)
    || (c == 8232)
    || (c == 8233)
    || (c == 8239)
    || (c == 8287)
    || (c == 12288)

unfoldable pub strip_left : String → String
strip_left String.[] = ""
strip_left (String.◌∷◌ c s) =
    let rest = strip_left s in if is_space (code c) then rest else String.◌∷◌ c s

-- A character with what is left to the right of it.
unfoldable pub keep_char : Char → String → String
keep_char c String.[] = if is_space (code c) then "" else String.◌∷◌ c ""
keep_char c (String.◌∷◌ d s) = String.◌∷◌ c (String.◌∷◌ d s)

unfoldable pub strip_right : String → String
unfolding keep_char
strip_right String.[] = ""
strip_right (String.◌∷◌ c s) = keep_char c (strip_right s)

-- `s.strip()`
unfoldable pub strip : String → String
unfolding strip_left strip_right
strip s = strip_right (strip_left s)

-- A character goes to the front of the first piece.
unfoldable pub push_char : Char → List String → List String
push_char c [] = String.◌∷◌ c "" ∷ []
push_char c (p ∷ ps) = String.◌∷◌ c p ∷ ps

-- `s.split(",")`
unfoldable pub split_commas : String → List String
unfolding push_char
split_commas String.[] = "" ∷ []
split_commas (String.◌∷◌ c s) =
    let rest = split_commas s in if code c == b',' then "" ∷ rest else push_char c rest

-- `x in s`
unfoldable pub contains : String → List String → Bool
contains x [] = false
contains x (y ∷ ys) = str_eq x y || contains x ys

digit : ℕ → String
digit zero = "0"
digit (suc zero) = "1"
digit (suc (suc zero)) = "2"
digit (suc (suc (suc zero))) = "3"
digit (suc (suc (suc (suc zero)))) = "4"
digit (suc (suc (suc (suc (suc zero))))) = "5"
digit (suc (suc (suc (suc (suc (suc zero)))))) = "6"
digit (suc (suc (suc (suc (suc (suc (suc zero))))))) = "7"
digit (suc (suc (suc (suc (suc (suc (suc (suc zero)))))))) = "8"
digit _ = "9"

-- The decimal digits of a number below `10 ^ fuel`, in front of those already written.
decimal_onto : ℕ → ℕ → String → String
unfolding digit
decimal_onto zero n acc = acc
decimal_onto (suc fuel) n acc =
    let front = decimal_onto fuel (n / 10) (digit (n % 10) +++ acc) in
    if ltb n 10 then digit n +++ acc else front

-- `str(n)`: `n + 1` rounds are more than its digits.
unfoldable pub str_nat : ℕ → String
unfolding decimal_onto
str_nat n = decimal_onto (suc n) n ""

str_nat-example : str_nat 1207 ≡ "1207"
unfolding str_nat
str_nat-example = refl

strip-example : strip "  a b " ≡ "a b"
unfolding strip
strip-example = refl

split_commas-example : split_commas "a, b,,c" ≡ "a" ∷ " b" ∷ "" ∷ "c" ∷ []
unfolding split_commas
split_commas-example = refl

-- A text that begins with a character is not empty.
pub cons-append-nonempty : (c : Char) (s t : String) → str_eq (String.◌∷◌ c s +++ t) "" ≡ false
cons-append-nonempty c s t = simp (append.cons, compare.cons-nil)

-- `s.startswith(prefix)`
abbrev same_char : Char → Char → Bool
same_char c d = code c == code d

unfoldable pub starts_with : String → String → Bool
starts_with String.[] s = true
starts_with (String.◌∷◌ c p) String.[] = false
starts_with (String.◌∷◌ c p) (String.◌∷◌ d s) = let rest = starts_with p s in same_char c d && rest

-- `separator.join(pieces)`
unfoldable pub join : String → List String → String
join separator [] = ""
join separator (p ∷ []) = p
join separator (p ∷ q ∷ ps) = let rest = join separator (q ∷ ps) in p +++ (separator +++ rest)

-- A text that starts with a character is not empty.
pub starts_with-nonempty :
    (c : Char) (p s : String) → starts_with (String.◌∷◌ c p) s ≡ true → str_eq s "" ≡ false
unfolding starts_with
starts_with-nonempty c p String.[] h = cc
starts_with-nonempty c p (String.◌∷◌ d s) h = simp (compare.cons-nil)
