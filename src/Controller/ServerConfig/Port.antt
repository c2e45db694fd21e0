-- ===== src/Controller/ServerConfig/Port.antt =====
-- The port that the operator takes from a configuration, and the credentials.
use verify_directory_operato.Base.{
  ℕ, ◌<◌, ◌^◌, ◌≡◌, ◌∙◌, sym, subst, refl, not, ◌||◌, Bool, true, false, Option, none, some, String,
  List, [], ◌∷◌, arith, if◌then◌else◌, ◌⊎◌, inl, inr, Bool-cases,
}
use verify_directory_operato.Base.Int.{ℤ, pos, negsuc, pattern32, signed32, to_int32, is_zero}
use verify_directory_operato.Yaml.{
  Value, null, text, int, scalar, seq, raw_map, dict, get_yaml_value,
}
use verify_directory_operato.Yaml.Lookup.{path_value, get_yaml_value-path_value}
use verify_directory_operato.Kube.{Env, Answer, pure}
use verify_directory_operato.Kube.Rules.{
  Returns, Returns-bind, Returns-then, Returns-pure, Returns-raise, Returns-panics,
}
use verify_directory_operato.Controller.Handle.{ServerConfig}
use verify_directory_operato.Controller.ServerConfig.{
  as_port, ldap_port, secure_port, config_of, required, or_default,
}

-- The values of Go's int32.
abbrev pub Fits32 : ℤ → Type 0
Fits32 (pos n) = n < 2 ^ 31
Fits32 (negsuc n) = n < 2 ^ 31

signed32-Fits32 : (p : ℕ) → p < 2 ^ 32 → Fits32 (signed32 p)
signed32-Fits32 p h = ground arith

to_int32-Fits32 : (i : ℤ) → Fits32 (to_int32 i)
unfolding to_int32
to_int32-Fits32 (pos n) = signed32-Fits32 (pattern32 (pos n)) (omega arith)
to_int32-Fits32 (negsuc n) = signed32-Fits32 (pattern32 (negsuc n)) (omega arith)

-- A port and whether it is secure: a value of int32, and 0 only if secure.
abbrev pub IsPort : ℤ × Bool → Type 0
IsPort (port, secure) = Fits32 port × ((not (is_zero port) || secure) ≡ true)

abbrev Fits32IfSome : Option ℤ → Type 0
Fits32IfSome none = Unit
Fits32IfSome (some p) = Fits32 p

as_port-Returns :
    {W : Type 0} (message : String) (v : Value) → Returns {W = W} Fits32IfSome (as_port message v)
as_port-Returns message null = Returns-pure _ none tt
as_port-Returns message (int i) = Returns-pure _ (some (to_int32 i)) (to_int32-Fits32 i)
as_port-Returns message (text s) = Returns-raise _ _
as_port-Returns message (scalar s) = Returns-raise _ _
as_port-Returns message (seq xs) = Returns-raise _ _
as_port-Returns message (raw_map fs) = Returns-raise _ _
as_port-Returns message (dict fs) = Returns-raise _ _

required-Returns :
    {W : Type 0} (message : String) (v : Value)
    → Returns {W = W} (λ s. v ≡ text s) (required message v)
required-Returns message null = Returns-raise _ _
required-Returns message (text s) = Returns-pure _ s refl
required-Returns message (int i) = Returns-panics _
required-Returns message (scalar s) = Returns-panics _
required-Returns message (seq xs) = Returns-panics _
required-Returns message (raw_map fs) = Returns-panics _
required-Returns message (dict fs) = Returns-panics _

-- The text of a value, and a default for nil.
abbrev pub IsTextOr : String → Value → String → Type 0
IsTextOr d v s = (v ≡ text s) ⊎ ((v ≡ null) × (s ≡ d))

or_default-Returns :
    {W : Type 0} (d : String) (v : Value) → Returns {W = W} (IsTextOr d v) (or_default d v)
or_default-Returns d null = Returns-pure _ d (inr (refl, refl))
or_default-Returns d (text s) = Returns-pure _ s (inl refl)
or_default-Returns d (int i) = Returns-panics _
or_default-Returns d (scalar s) = Returns-panics _
or_default-Returns d (seq xs) = Returns-panics _
or_default-Returns d (raw_map fs) = Returns-panics _
or_default-Returns d (dict fs) = Returns-panics _

module _ {W : Type 0} (E : Env W) (decode : String → Answer Value) (namespace : String) where
  found-Returns :
      (v : Value) (k : String) (ks : List String)
      → Returns (λ u. path_value v (k ∷ ks) ≡ u) (get_yaml_value E v (k ∷ ks) false namespace)
  found-Returns v k ks =
      subst (λ m. Returns (λ u. path_value v (k ∷ ks) ≡ u) m)
        (sym (get_yaml_value-path_value E v k ks false namespace)) (Returns-pure _ _ refl)

  secure_port-Returns : (body : Value) → Returns IsPort (secure_port E decode body namespace)
  unfolding secure_port is_zero
  secure_port-Returns body =
      Returns-then _ _ _ λ ldaps. Returns-bind Fits32IfSome _ _ _ (as_port-Returns _ ldaps) chosen
    where
      chosen :
          (o : Option ℤ)
          → Fits32IfSome o
          → Returns {W = W} IsPort
              (elim o [ none ↦ pure (pos 9636, true) | some p ↦ pure (p, true) ])
      chosen none h = Returns-pure IsPort (pos 9636, true) (omega arith, refl)
      chosen (some p) h = Returns-pure IsPort (p, true) (h, ground arith)

  -- The port that the operator uses is a value of int32, and it is 0 only for the secure port.
  pub ldap_port-IsPort : (body : Value) → Returns IsPort (ldap_port E decode body namespace)
  unfolding ldap_port is_zero
  ldap_port-IsPort body =
      Returns-then _ _ _ λ ldap. Returns-bind Fits32IfSome _ _ _ (as_port-Returns _ ldap) chosen
    where
      chosen :
          (o : Option ℤ)
          → Fits32IfSome o
          → Returns {W = W} IsPort (elim o [
            | none ↦ pure (pos 9389, false)
            | some p ↦ if is_zero p then secure_port E decode body namespace else pure (p, false)
          ])
      chosen none h = Returns-pure IsPort (pos 9389, false) (omega arith, refl)
      chosen (some p) h = elim (Bool-cases (is_zero p)) [
        | inl z ↦ rw z (secure_port-Returns body)
        | inr z ↦ rw z (Returns-pure IsPort (p, false) (h, ground (arith, z)))
      ]

  -- The configuration agrees with the document that it was read from.
  pub record Reflects (body : Value) (c : ServerConfig) : Type 0 where
    pub port : IsPort (c.port, c.secure)
    pub license_key : path_value body ("general" ∷ "license" ∷ "key" ∷ []) ≡ text c.license_key
    pub admin_dn : IsTextOr "cn=root" (path_value body ("general" ∷ "admin" ∷ "dn" ∷ [])) c.admin_dn
    pub admin_pwd : path_value body ("general" ∷ "admin" ∷ "pwd" ∷ []) ≡ text c.admin_pwd

  -- Whenever the configuration is read without an error, its port is a value of int32 and 0 only
  -- if secure, its license key and its password are the texts of the document, and its
  -- administrator is that of the document or, if there is none, cn=root.
  pub config_of-Reflects :
      (body : Value) → Returns (Reflects body) (config_of E decode body namespace)
  unfolding config_of
  config_of-Reflects body = Returns-bind _ _ _ _ (ldap_port-IsPort body) λ port is_port.
      Returns-bind _ _ _ _ (found-Returns body _ _) λ license at_license.
        Returns-bind _ _ _ _ (required-Returns _ license) λ license_key is_license.
          Returns-bind _ _ _ _ (found-Returns body _ _) λ dn at_dn.
            Returns-bind _ _ _ _ (or_default-Returns _ dn) λ admin_dn is_dn.
              Returns-bind _ _ _ _ (found-Returns body _ _) λ pwd at_pwd.
                Returns-bind _ _ _ _ (required-Returns _ pwd) λ admin_pwd is_pwd.
                  Returns-then _ _ _ λ suffixes. Returns-pure _ _ (record {
                    port = is_port;
                    license_key = at_license ∙ is_license;
                    admin_dn = subst (λ v. IsTextOr "cn=root" v admin_dn) (sym at_dn) is_dn;
                    admin_pwd = at_pwd ∙ is_pwd;
                  })
