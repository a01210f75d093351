-- ===== src/Hosts/Bootstrap/Shell.antt =====
-- How a POSIX shell reads a line with double quotes and operators (POSIX 2.2.3 and 2.3), with no
-- expansion: where the line has a character with another meaning to the shell it is refused.
use servers_manager.Base.{
  ℕ, Bool, ◌&&◌, ◌||◌, Option, none, some, List, [], ◌∷◌, ◌++◌, Text, leb, ◌==◌, if◌then◌else◌,
}

-- An operator of several characters shows as one token for each.
pub data Token : Type 0 where
  word : Text → Token
  op : ℕ → Token

unfoldable pub is_operator : ℕ → Bool
is_operator c = c == b'&' || c == b'|' || c == b';' || c == b'>' || c == b'<'

unfoldable pub is_bare : ℕ → Bool
is_bare c =
    leb b'a' c && leb c b'z'
    || leb b'A' c && leb c b'Z'
    || leb b'0' c && leb c b'9'
    || c == b'-'
    || c == b'_'
    || c == b'.'
    || c == b'/'
    || c == b':'
    || c == b'~'

-- What keeps a meaning inside double quotes: `$`, the backquote and the backslash.
unfoldable pub is_live : ℕ → Bool
is_live c = c == b'$' || c == 96 || c == b'\\'

pub data Mode : Type 0 where
  blank : Mode
  bare : Text → Mode
  quoted : Text → Mode
  refused : Mode

unfoldable pub open_word : Text → ℕ → Mode
unfolding is_bare
open_word w c = if c == b'"' then quoted w else if is_bare c then bare (w ++ c ∷ []) else refused

unfoldable pub next : Mode → ℕ → Mode
unfolding open_word is_operator is_live
next blank c = if c == b' ' then blank else if is_operator c then blank else open_word [] c
next (bare w) c = if c == b' ' then blank else if is_operator c then blank else open_word w c
next (quoted w) c =
    if c == b'"' then bare w else if is_live c then refused else quoted (w ++ c ∷ [])
next refused c = refused

-- The tokens that end at a character.
unfoldable pub emit : Mode → ℕ → List Token
unfolding is_operator
emit blank c = if is_operator c then op c ∷ [] else []
emit (bare w) c =
    if c == b' ' then word w ∷ [] else if is_operator c then word w ∷ op c ∷ [] else []
emit (quoted w) c = []
emit refused c = []

unfoldable pub finish : Mode → Option (List Token)
finish blank = some []
finish (bare w) = some (word w ∷ [])
finish _ = none

abbrev pub after : List Token → Option (List Token) → Option (List Token)
after tokens none = none
after tokens (some more) = some (tokens ++ more)

unfoldable pub scan : Mode → Text → Option (List Token)
unfolding next emit finish
scan m [] = finish m
scan m (c ∷ s) = after (emit m c) (scan (next m c) s)

unfoldable pub tokens_of : Text → Option (List Token)
unfolding scan
tokens_of line = scan blank line
