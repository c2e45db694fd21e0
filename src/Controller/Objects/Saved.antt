-- ===== src/Controller/Objects/Saved.antt =====
-- When createConfigMap succeeds.
use verify_directory_operato.Base.{
  ◌≡◌, ◌↔◌, ◌⊎◌, inl, inr, refl, true, String, if◌then◌else◌, Bool-cases,
}
use verify_directory_operato.Kube.{
  Env, Error, Answer, granted, refused, create, update, ok, settle, ask, pure, raise, ◌>>=◌,
}
use verify_directory_operato.Controller.Handle.{Handle}
use verify_directory_operato.Controller.Objects.{
  create_config_map, config_map_object, is_already_exists,
}

module _ {W : Type 0} (E : Env W) (h : Handle) (name key value : String) where
  -- The creation is granted, or it is refused because the object exists and the update of the same
  -- object is granted then.
  abbrev pub IsSaved : Answer (Unit {0}) → W → Type 0
  IsSaved made after =
      (made ≡ granted tt)
      ⊎ ((e : Error) × (made ≡ refused e)
          × (is_already_exists e ≡ true)
          × ((E.answer (update (config_map_object E h name key value)) after).0 ≡ granted tt))

  update_iff :
      (w : W)
      → ((ask E (update (config_map_object E h name key value)) w).outcome ≡ ok tt)
        ↔ ((E.answer (update (config_map_object E h name key value)) w).0 ≡ granted tt)
  unfolding ask
  update_iff w = cases (E.answer (update (config_map_object E h name key value)) w).0 refl
    where
      cases :
          (a : Answer (Unit {0}))
          → (E.answer (update (config_map_object E h name key value)) w).0 ≡ a
          → ((ask E (update (config_map_object E h name key value)) w).outcome ≡ ok tt)
            ↔ ((E.answer (update (config_map_object E h name key value)) w).0 ≡ granted tt)
      cases (granted _) e = rw (e, ask) (λ _. refl, λ _. refl)
      cases (refused x) e = rw (e, ask) (λ p. absurd (cc), λ p. absurd (cc))

  existing_iff :
      (x : Error) (w : W)
      → ((if is_already_exists x
              then ask E (update (config_map_object E h name key value))
              else raise x)
            w).outcome
          ≡ ok tt
        ↔ IsSaved (refused x) w
  unfolding raise
  existing_iff x w = elim (Bool-cases (is_already_exists x)) [
    | inl p ↦ rw p (
      λ e. inr (x, refl, p, (update_iff w).0 e),
      λ s. elim s [ inl q ↦ absurd (cc) | inr (y, r, _, g) ↦ (update_iff w).1 g ],
    )
    | inr p ↦
        rw p
          (λ e. absurd (cc), λ s. elim s [ inl q ↦ absurd (cc) | inr (y, r, t, g) ↦ absurd (cc) ])
  ]

  -- createConfigMap succeeds exactly when the object has been created, or has been found to exist
  -- and has been updated.
  pub create_config_map_iff :
      (w : W)
      → let made = E.answer (create (config_map_object E h name key value)) w in
        ((create_config_map E h name key value w).outcome ≡ ok tt) ↔ IsSaved made.0 made.1
  unfolding create_config_map settle ask ◌>>=◌ pure raise
  create_config_map_iff w =
      cases (E.answer (create (config_map_object E h name key value)) w).0 refl
    where
      cases :
          (a : Answer (Unit {0}))
          → (E.answer (create (config_map_object E h name key value)) w).0 ≡ a
          → ((create_config_map E h name key value w).outcome ≡ ok tt)
            ↔ IsSaved
                (E.answer (create (config_map_object E h name key value)) w).0
                (E.answer (create (config_map_object E h name key value)) w).1
      cases (granted _) e = rw (e, create_config_map, settle, ask, ◌>>=◌) (λ _. inl refl, λ _. refl)
      cases (refused x) e = rw (e, create_config_map, settle, ask, ◌>>=◌) (existing_iff x _)
