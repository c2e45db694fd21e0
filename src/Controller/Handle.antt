-- ===== src/Controller/Handle.antt =====
-- The structures of src/controllers/ibmsecurityverifydirectory_controller.go.
use verify_directory_operato.Base.{Bool, String, List}
use verify_directory_operato.Base.Int.{ℤ}
use verify_directory_operato.Api.{Directory, Labels, Meta}
use verify_directory_operato.Kube.{Env, Error, other}

-- ServerConfig
pub record ServerConfig : Type 0 where
  pub port : ℤ
  pub secure : Bool
  pub license_key : String
  pub admin_dn : String
  pub admin_pwd : String
  pub suffixes : List String

-- RequestHandle: the request's namespace and name, the document, and the server's configuration.
pub record Handle : Type 0 where
  pub req_namespace : String
  pub req_name : String
  pub directory : Directory
  pub config : ServerConfig

-- errors.New(message)
abbrev pub new_error : String → Error
new_error message = record { kind = other; message = message }

-- The metadata of an object that the operator owns.
abbrev pub owned_meta : {W : Type 0} → Env W → Directory → String → Labels → Meta
owned_meta E d name labels = record {
  name = name;
  namespace = d.namespace;
  labels = labels;
  owners = E.owner_refs d;
}
