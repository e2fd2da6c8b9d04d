-- ===== src/Prelude/Text.antt =====
-- What the sources use of `str`: whitespace, `strip`, `lower`, prefixes, suffixes and the order.
use Prim.Native.Char.{Char, code}
use Prim.Native.String.{String, ◌++◌}
use Prim.Native.Nat.{ℕ, suc}
use mathlib.Core.List.{List, [], ◌∷◌}
use mathlib.Core.Bool.{not, Bool, true, false, ◌&&◌, ◌||◌}
use agentic_test_system.Prelude.Tests.{nat_eq, string_eq, leb, ◌==◌, if◌then◌else◌}

-- `str.isspace` of one character.
abbrev pub is_space : Char → Bool
is_space c =
    let n = code c in
    leb 9 n && leb n 13
    || leb 28 n && leb n 32
    || n == 0x85
    || n == 0xa0
    || n == 0x1680
    || leb 0x2000 n && leb n 0x200a
    || n == 0x2028
    || n == 0x2029
    || n == 0x202f
    || n == 0x205f
    || n == 0x3000

-- The pieces of an f-string, joined.
infixr 65 ◌<>◌
abbrev pub ◌<>◌ : String → String → String
s <> t = s ++ t

-- `not s` of a text.
abbrev pub is_blank : String → Bool
is_blank String.[] = true
is_blank (String.◌∷◌ c s) = false

unfoldable pub lstrip : String → String
lstrip String.[] = String.[]
lstrip (String.◌∷◌ c s) = let rest = lstrip s in if is_space c then rest else String.◌∷◌ c s

unfoldable pub rstrip : String → String
rstrip String.[] = String.[]
rstrip (String.◌∷◌ c s) =
    let rest = rstrip s in if is_blank rest && is_space c then String.[] else String.◌∷◌ c rest

-- `s.strip()`.
unfoldable pub strip : String → String
unfolding lstrip rstrip
strip s = rstrip (lstrip s)

-- `not s or not s.strip()`.
unfoldable pub is_missing : String → Bool
unfolding strip
is_missing s = is_blank s || is_blank (strip s)

-- `s.startswith(t)`.
unfoldable pub has_prefix : String → String → Bool
has_prefix s String.[] = true
has_prefix String.[] (String.◌∷◌ d t) = false
has_prefix (String.◌∷◌ c s) (String.◌∷◌ d t) = code c == code d && has_prefix s t

-- `len(s)`.
unfoldable pub char_count : String → ℕ
char_count String.[] = 0
char_count (String.◌∷◌ c s) = suc (char_count s)

-- `sep.join(xs)`.
unfoldable pub join : String → List String → String
join sep [] = ""
join sep (x ∷ []) = x
join sep (x ∷ y ∷ xs) = x <> sep <> join sep (y ∷ xs)

-- `s.endswith(t)`.
unfoldable pub has_suffix : String → String → Bool
has_suffix String.[] t = is_blank t
has_suffix (String.◌∷◌ c s) t = String.◌∷◌ c s == t || has_suffix s t

-- `t in s`.
unfoldable pub has_text : String → String → Bool
unfolding has_prefix
has_text String.[] t = is_blank t
has_text (String.◌∷◌ c s) t = has_prefix (String.◌∷◌ c s) t || has_text s t

push_char : Char → List String → List String
push_char c [] = String.◌∷◌ c String.[] ∷ []
push_char c (l ∷ ls) = String.◌∷◌ c l ∷ ls

-- `s.split(sep)` of a separator of one character.
unfoldable pub split_on : ℕ → String → List String
unfolding push_char
split_on k String.[] = "" ∷ []
split_on k (String.◌∷◌ c s) =
    let rest = split_on k s in if code c == k then "" ∷ rest else push_char c rest

starts_with_newline : String → Bool
starts_with_newline String.[] = false
starts_with_newline (String.◌∷◌ c s) = code c == 0xa

is_line_break : Char → Bool
is_line_break c =
    let n = code c in
    leb 0xa n && leb n 0xd || leb 0x1c n && leb n 0x1e || n == 0x85 || n == 0x2028 || n == 0x2029

-- `s.splitlines()`.
unfoldable pub split_lines : String → List String
unfolding push_char starts_with_newline is_line_break
split_lines String.[] = []
split_lines (String.◌∷◌ c s) =
    let rest = split_lines s in
    if code c == 0xd && starts_with_newline s
    then rest
    else if is_line_break c
    then "" ∷ rest
    else push_char c rest

-- `s.splitlines(keepends=True)`.
unfoldable pub split_lines_keepends : String → List String
unfolding push_char starts_with_newline is_line_break
split_lines_keepends String.[] = []
split_lines_keepends (String.◌∷◌ c s) =
    let rest = split_lines_keepends s in
    if is_line_break c && not (code c == 0xd && starts_with_newline s)
    then String.◌∷◌ c String.[] ∷ rest
    else push_char c rest

-- `s.replace(a, b)` of single characters.
unfoldable pub replace_char : ℕ → Char → String → String
replace_char a b String.[] = String.[]
replace_char a b (String.◌∷◌ c s) =
    let rest = replace_char a b s in String.◌∷◌ (if code c == a then b else c) rest
