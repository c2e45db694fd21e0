-- ===== src/Yaml/Resolved.antt =====
-- Which text ResolveEntry makes of a text: itself, or what the secret has that it refers to.
use verify_directory_operato.Base.{◌≡◌, ◌⊎◌, inl, inr, refl, ap, true, false, some, String}
use verify_directory_operato.Base.Dict.{Dict, lookup}
use verify_directory_operato.Kube.{Env, granted, get_secret, ask}
use verify_directory_operato.Kube.Completes.{
  Completes, Completes-pure, Completes-granted, Completes-settled,
}
use verify_directory_operato.Yaml.{Value, text, read_secret, resolve_entry}
use verify_directory_operato.Yaml.Secret.{has_prefix, find_submatch}

module _ {W : Type 0} (E : Env W) where
  -- A secret that has the text under the key whenever it is read.
  abbrev pub HasSecret : String → String → String → String → Type 0
  HasSecret ns name key t =
      (w : W)
      → (entries : Dict String) × ((E.answer (get_secret ns name) w).0 ≡ granted entries)
        × (lookup key entries ≡ some t)

  -- The value is the text, or refers to a secret that has it.
  abbrev pub ResolvesTo : String → Value → String → Type 0
  ResolvesTo ns (text s) t =
      ((has_prefix s "secret:" ≡ false) × (s ≡ t))
      ⊎ ((has_prefix s "secret:" ≡ true)
          × (name : String) × (key : String) × (find_submatch s ≡ some (name, key))
          × HasSecret ns name key t)
  ResolvesTo ns _ t = ⊥

  read_secret-Completes :
      (ns name key t : String)
      → HasSecret ns name key t
      → Completes (λ v. v ≡ text t) (read_secret E ns name key)
  unfolding read_secret
  read_secret-Completes ns name key t has =
      Completes-settled (λ entries. lookup key entries ≡ some t) (λ v. v ≡ text t)
        (ask E (get_secret ns name)) _ _
        (Completes-granted E (get_secret ns name) (λ entries. lookup key entries ≡ some t) has)
        λ entries e. Completes-pure _ _ (rw (e) refl)

  pub resolve_entry-Completes :
      (ns : String) (v : Value) (t : String)
      → ResolvesTo ns v t
      → Completes (λ v'. v' ≡ text t) (resolve_entry E v ns)
  unfolding resolve_entry
  resolve_entry-Completes ns (text s) t (inl (plain, same)) =
      rw (plain, resolve_entry) (Completes-pure _ (text s) (ap text same))
  resolve_entry-Completes ns (text s) t (inr (prefixed, name, key, found, has)) =
      rw (prefixed, found, resolve_entry) (read_secret-Completes ns name key t has)
  resolve_entry-Completes ns _ t h = absurd h
