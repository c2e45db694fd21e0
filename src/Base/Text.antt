-- ===== src/Base/Text.antt =====
-- Go's `strings` package as far as the operator uses it, and `strconv.Itoa`.
-- `strings.ToLower` is its ASCII part: Kubernetes names are ASCII.
use Prim.Native.Nat.{ℕ, zero, suc, ◌-◌, ◌/◌, ◌%◌}
use Prim.Native.Char.{Char, code}
use Prim.Native.String.{String, [], ◌∷◌, ◌++◌, char_at}
use Prim.Native.String.append
use mathlib.Core.Path.{◌≡◌, sym, ap, ◌∙◌}
use mathlib.Core.Bool.{◌&&◌}
use mathlib.Core.Option.{Option, none, some}
use verify_directory_operato.Base.Tests.{leb, ltb, nat_eq, if◌then◌else◌}

lower_char : Char → Char
lower_char c =
    if leb 65 (code c) && leb (code c) 90
    then char_at "abcdefghijklmnopqrstuvwxyz" (code c - 65)
    else c

-- strings.ToLower(s)
unfoldable pub to_lower : String → String
unfolding lower_char
to_lower [] = []
to_lower (c ∷ s) = lower_char c ∷ to_lower s

pub to_lower-append : (s t : String) → to_lower (s ++ t) ≡ to_lower s ++ to_lower t
unfolding to_lower
to_lower-append [] t = ap to_lower (append.nil t) ∙ sym (append.nil (to_lower t))
to_lower-append (c ∷ s) t =
    ap to_lower (append.cons c s t)
    ∙ ap (λ u. lower_char c ∷ u) (to_lower-append s t)
    ∙ sym (append.cons (lower_char c) (to_lower s) (to_lower t))

-- s[:strings.LastIndex(s, sep)] for a separator of one character, given by its code, and `none`
-- where it does not occur.
unfoldable pub before_last : ℕ → String → Option String
before_last sep [] = none
before_last sep (c ∷ s) = elim (before_last sep s) [
  | some t ↦ some (c ∷ t)
  | none ↦ if nat_eq (code c) sep then some [] else none
]

digit : ℕ → String
digit d = char_at "0123456789" d ∷ []

-- The digits of n, in front of acc. Each round divides n by ten, so n + 1 rounds are enough.
digits : ℕ → ℕ → String → String
digits zero n acc = acc
digits (suc f) n acc =
    let rest = digits f (n / 10) (digit (n % 10) ++ acc) in
    if ltb n 10 then digit n ++ acc else rest

-- The decimal form of n.
unfoldable pub decimal : ℕ → String
unfolding digits digit
decimal n = digits (suc n) n []
