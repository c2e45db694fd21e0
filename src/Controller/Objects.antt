-- ===== src/Controller/Objects.antt =====
-- Config maps, services and commands, from
-- src/controllers/ibmsecurityverifydirectory_utils.go.
pub mod Saved
use verify_directory_operato.Base.{Bool, true, false, String, List, [], ◌∷◌, if◌then◌else◌}
use verify_directory_operato.Base.Int.{ℤ}
use verify_directory_operato.Names.{labels_for_app, labels_for_pod}
use verify_directory_operato.Kube.{
  M, Env, on_answer, Error, ErrorKind, not_found, already_exists, other, Answer, granted, refused,
  Object, config_map, service, config_maps, ConfigMap, Service, create, update, delete, exec, pure,
  raise, ask, settle, ◌>>=◌, ◌>>◌,
}
use verify_directory_operato.Controller.Handle.{Handle, owned_meta}

-- k8serrors.IsAlreadyExists and k8serrors.IsNotFound
abbrev pub is_already_exists : Error → Bool
is_already_exists e = elim e.kind [ already_exists ↦ true | _ ↦ false ]

abbrev pub is_not_found : Error → Bool
is_not_found e = elim e.kind [ not_found ↦ true | _ ↦ false ]

module _ {W : Type 0} (E : Env W) where
  abbrev pub config_map_object : Handle → String → String → String → Object
  config_map_object h name key value = config_map (record {
    meta = owned_meta E h.directory name (labels_for_app h.directory.name name);
    entries = (key, value) ∷ [];
  })

  -- createConfigMap
  unfoldable pub create_config_map : Handle → String → String → String → M W (Unit {0})
  create_config_map h name key value = do
    created ← settle (ask E (create (config_map_object h name key value)))
    on_answer created (λ _. pure tt)
        (λ e.
          if is_already_exists e
          then ask E (update (config_map_object h name key value))
          else raise e)

  -- deleteConfigMap
  unfoldable pub delete_config_map : Handle → String → M W (Unit {0})
  delete_config_map h name = ask E (delete config_maps h.directory.namespace name)

  abbrev pub cluster_service : Handle → String → ℤ → String → Object
  cluster_service h pod port pvc = service (record {
    meta = owned_meta E h.directory pod (labels_for_app h.directory.name pvc);
    cluster_ip = "";
    selector = labels_for_pod h.directory.name pod pvc;
    port_name = pod;
    port = port;
    target_port = port;
  })

  -- createClusterService
  unfoldable pub create_cluster_service : Handle → String → ℤ → String → M W (Unit {0})
  create_cluster_service h pod port pvc = ask E (create (cluster_service h pod port pvc))

  -- executeCommand
  unfoldable pub execute_command : Handle → String → List String → M W (Unit {0})
  execute_command h pod command = ask E (exec h.directory.namespace pod command)
