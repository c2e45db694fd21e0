-- ===== src/Controller/Grow/Seeding.antt =====
-- createReplicas: how its seeding ends.
use verify_directory_operato.Base.{◌≡◌, ◌≢◌, refl, String, List, []}
use verify_directory_operato.Names.{get_seed_config_map_name}
use verify_directory_operato.Kube.{
  M, Env, ok, panic, Answer, Request, delete, config_maps, pure, raise, settle, ◌>>=◌,
}
use verify_directory_operato.Kube.Rules.{NoError-settle, NoError-pure}
use verify_directory_operato.Kube.Endings.{
  EndsWith, Ends, Ends-after, EndsErrors, Ends-bind, EndsErrors-bind, EndsErrors-answer,
  EndsErrors-NoError, EndsErrors-Ends, Ends-settle, ask-trace,
}
use verify_directory_operato.Controller.Handle.{Handle}
use verify_directory_operato.Controller.Objects.{create_config_map, delete_config_map}
use verify_directory_operato.Controller.Replica.Build.{config_map_key}
use verify_directory_operato.Controller.Grow.{seed_replicas, or_clean_up}

module _ {W : Type 0} (E : Env W) (h : Handle) where
  -- The request that deletes the seed config map.
  abbrev pub Cleans : Request → Type 0
  Cleans q = q ≡ delete config_maps h.directory.namespace (get_seed_config_map_name h.directory)

  clean_up-Ends :
      {B : Type 0} (k : Answer (Unit {0}) → M W B)
      → ((a : Answer (Unit {0})) (w : W) → (k a w).trace ≡ [])
      → Ends Cleans (settle (delete_config_map E h (get_seed_config_map_name h.directory)) >>= k)
  unfolding delete_config_map
  clean_up-Ends k silent = Ends-settle Cleans _ refl _ k (ask-trace E _) silent

  or_clean_up-EndsErrors : (m : M W (Unit {0})) → EndsErrors Cleans (or_clean_up E h m)
  unfolding or_clean_up raise
  or_clean_up-EndsErrors m =
      EndsErrors-bind _ _ _ (EndsErrors-NoError _ _ (NoError-settle m)) λ done.
        EndsErrors-answer _ done _ _ (λ _. EndsErrors-NoError _ _ (NoError-pure tt))
          (λ e. EndsErrors-Ends _ _ (clean_up-Ends (λ _. raise e) (λ _ _. refl)))

  -- Once the seed config map has been created, a seeding that does not panic ends with the request
  -- that deletes it, whether or not the seeding fails.
  pub seed_replicas-Cleans :
      (principal : String) (added : List String) (w : W)
      → (create_config_map E h
          (get_seed_config_map_name h.directory)
          config_map_key
          "seed: \n  replica: \n    clean: true\n"
          w).outcome
        ≡ ok tt
      → (seed_replicas E h principal added w).outcome ≢ panic
      → EndsWith Cleans (seed_replicas E h principal added w).trace
  unfolding seed_replicas pure
  seed_replicas-Cleans principal added w created = Ends-after Cleans _ _ w tt created (
      Ends-bind _ _ _ (or_clean_up-EndsErrors _) λ _.
        Ends-bind _ _ _ (or_clean_up-EndsErrors _) λ _. clean_up-Ends (λ _. pure tt) (λ _ _. refl))
