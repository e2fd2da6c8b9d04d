-- ===== src/Core/Paths.antt =====
-- What the sources use of `pathlib`, on POSIX texts: `name`, `suffix`, `stem`, `is_absolute`, `/`.
use agentic_test_system.Prelude.{
  ℕ, String, Bool, false, ◌&&◌, ◌||◌, not, ◌==◌, nat_eq, string_eq, ◌<>◌, is_blank, if◌then◌else◌,
}
use Prim.Native.Char.{code}
use agentic_test_system.Core.Models.{FilePath}

has_char : ℕ → String → Bool
has_char k String.[] = false
has_char k (String.◌∷◌ c s) = code c == k || has_char k s

-- What stands behind the last slash.
last_part : FilePath → String
unfolding has_char
last_part String.[] = String.[]
last_part (String.◌∷◌ c s) =
    let rest = last_part s in
    if has_char 0x2f s then rest else if code c == 0x2f then s else String.◌∷◌ c s

-- `path.name`; the path `.` has none.
unfoldable pub name_of : FilePath → String
unfolding last_part
name_of path = if path == "." then "" else last_part path

-- From the last dot on, unless the dot ends the text.
last_dot : String → String
unfolding has_char
last_dot String.[] = String.[]
last_dot (String.◌∷◌ c s) =
    let rest = last_dot s in
    if has_char 0x2e s
    then rest
    else if code c == 0x2e && not (is_blank s)
    then String.◌∷◌ c s
    else String.[]

-- What stands before it.
before_dot : String → String
unfolding has_char
before_dot String.[] = String.[]
before_dot (String.◌∷◌ c s) =
    let rest = before_dot s in
    if has_char 0x2e s
    then String.◌∷◌ c rest
    else if code c == 0x2e && not (is_blank s)
    then String.[]
    else String.◌∷◌ c s

-- `path.suffix` of a name: a dot that starts the name starts no suffix.
unfoldable pub suffix_of : String → String
unfolding last_dot
suffix_of String.[] = String.[]
suffix_of (String.◌∷◌ c s) = last_dot s

-- `path.stem` of a name.
unfoldable pub stem_of : String → String
unfolding before_dot
stem_of String.[] = String.[]
stem_of (String.◌∷◌ c s) = String.◌∷◌ c (before_dot s)

-- `path.is_absolute()`.
unfoldable pub is_absolute : FilePath → Bool
is_absolute String.[] = false
is_absolute (String.◌∷◌ c s) = code c == 0x2f

-- `file if file.is_absolute() else base / file`.
unfoldable pub resolved : FilePath → FilePath → FilePath
unfolding is_absolute
resolved base file =
    if is_absolute file
    then file
    else if base == "."
    then file
    else if base == "/"
    then base <> file
    else base <> "/" <> file
