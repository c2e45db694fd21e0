-- ===== src/Yaml/Reference.antt =====
-- ResolveEntry's expression on a reference to a secret.
use Prim.Native.Char.{Char, code}
use Prim.Native.String.{[], ◌∷◌}
use Prim.Native.String.append
use verify_directory_operato.Base.{
  ℕ, ◌≡◌, refl, ap, sym, ◌∙◌, Bool, true, false, not, ◌&&◌, some, String, ◌<>◌, arith, nat_eq,
}
use verify_directory_operato.Yaml.Secret.{strip, line, at_slash, groups, match_here, find_submatch}

-- No character has the code.
abbrev pub lacks : ℕ → String → Bool
lacks n [] = true
lacks n (c ∷ s) = not (nat_eq (code c) n) && lacks n s

-- A name of a secret: its first character is no newline, and no other is a slash.
abbrev pub is_reference_name : String → Bool
is_reference_name [] = false
is_reference_name (c ∷ s) = not (nat_eq (code c) 10) && lacks b'/' s

line-lacks : (s : String) → lacks 10 s ≡ true → line s ≡ s
unfolding line
line-lacks [] h = refl
line-lacks (c ∷ s) h = ground (arith, line-lacks s)

abbrev slash : Char
slash = "/"

slash_front : (t : String) → "/" <> t ≡ slash ∷ t
slash_front t = append.cons slash "" t ∙ ap (λ u. slash ∷ u) (append.nil t)

at_slash-append :
    (s t : String) → lacks b'/' s ≡ true → at_slash (s <> ("/" <> t)) ≡ some (s, line t)
unfolding at_slash
at_slash-append [] t h = rw (append.nil ("/" <> t), slash_front t) (ground arith)
at_slash-append (c ∷ s) t h = rw (append.cons c s ("/" <> t)) (ground (arith, at_slash-append s t))

strip-append : (p s : String) → strip p (p <> s) ≡ some s
unfolding strip
strip-append [] s = rw (append.nil s) refl
strip-append (c ∷ p) s = rw (append.cons c p s) (ground (arith, strip-append p s))

abbrev letter_s : Char
letter_s = "s"

match_here-reference :
    (t : String) (r : String × String) → groups t ≡ some r → match_here ("secret:" <> t) ≡ some r
unfolding match_here
match_here-reference t r h = rw (strip-append "secret:" t, match_here) h

find_submatch-cons :
    (c : Char) (s : String) (r : String × String)
    → match_here (c ∷ s) ≡ some r
    → find_submatch (c ∷ s) ≡ some r
unfolding find_submatch
find_submatch-cons c s r h = rw (h, find_submatch) refl

groups-append :
    (name key : String)
    → is_reference_name name ≡ true
    → groups (name <> ("/" <> key)) ≡ some (name, line key)
unfolding groups
groups-append [] key h = absurd (cc)
groups-append (c ∷ s) key h =
    rw (append.cons c s ("/" <> key)) (ground (arith, at_slash-append s key))

-- ResolveEntry's expression takes a reference apart into the secret's name and the key, if the
-- name does not start with a newline and has no slash behind its first character, and the key has
-- no newline.
pub find_submatch-reference :
    (name key : String)
    → is_reference_name name ≡ true
    → lacks 10 key ≡ true
    → find_submatch ("secret:" <> (name <> ("/" <> key))) ≡ some (name, key)
find_submatch-reference name key hn hk =
    let t = name <> ("/" <> key) in
    let front = append.cons letter_s "ecret:" t in
    let at_front =
      match_here-reference t (name, key)
        (groups-append name key hn ∙ ap (λ k. some (name, k)) (line-lacks key hk)) in
    ap find_submatch front
    ∙ find_submatch-cons letter_s ("ecret:" <> t) (name, key) (ap match_here (sym front) ∙ at_front)
