-- ===== src/Yaml/Secret.antt =====
-- The expression `secret:(.[^/]*)/(.*)` of ResolveEntry, as Go's regexp finds it in a text: the
-- leftmost place where it matches. A dot is any character but a newline.
use Prim.Native.Char.{Char, code}
use Prim.Native.String.{[], ◌∷◌}
use verify_directory_operato.Base.{
  Bool, true, false, Option, none, some, String, if◌then◌else◌, nat_eq,
}

newline : Char → Bool
newline c = nat_eq (code c) 10

-- The rest of a text behind a prefix.
unfoldable pub strip : String → String → Option String
strip [] s = some s
strip (p ∷ ps) [] = none
strip (p ∷ ps) (c ∷ s) = let rest = strip ps s in if nat_eq (code p) (code c) then rest else none

-- strings.HasPrefix(s, p)
unfoldable pub has_prefix : String → String → Bool
unfolding strip
has_prefix s p = elim (strip p s) [ some _ ↦ true | none ↦ false ]

-- `.*`: up to the end of the line.
unfoldable pub line : String → String
unfolding newline
line [] = []
line (c ∷ s) = let rest = line s in if newline c then [] else c ∷ rest

-- `[^/]*)/(.*)`: up to the first slash, and the rest of that line.
unfoldable pub at_slash : String → Option (String × String)
unfolding line
at_slash [] = none
at_slash (c ∷ s) =
    let rest = at_slash s in
    if nat_eq (code c) b'/'
    then some ([], line s)
    else elim rest [ none ↦ none | some (a, b) ↦ some (c ∷ a, b) ]

-- `(.[^/]*)/(.*)` at the start of a text.
unfoldable pub groups : String → Option (String × String)
unfolding newline at_slash
groups [] = none
groups (c ∷ s) =
    if newline c then none else elim (at_slash s) [ none ↦ none | some (a, b) ↦ some (c ∷ a, b) ]

-- The whole expression at the start of a text.
unfoldable pub match_here : String → Option (String × String)
unfolding strip groups
match_here s = elim (strip "secret:" s) [ none ↦ none | some rest ↦ groups rest ]

-- re.FindStringSubmatch(s): the two groups of the leftmost match.
unfoldable pub find_submatch : String → Option (String × String)
unfolding match_here
find_submatch [] = none
find_submatch (c ∷ s) =
    let later = find_submatch s in
    elim (match_here (c ∷ s)) [ some found ↦ some found | none ↦ later ]
