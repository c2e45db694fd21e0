-- ===== src/Startup.antt =====
-- src/main.go: the start of the operator. What controller-runtime does is the parameter `Runtime`;
-- flag.Parse is its field `parse`, and ctrl.GetConfigOrDie its field `has_config`.
pub mod Order
use verify_directory_operato.Base.{
  ℕ, Bool, true, false, Option, none, some, String, List, [], ◌∷◌, if◌then◌else◌,
}
use verify_directory_operato.Kube.{Error}

-- The variables that the flags set.
pub record Flags : Type 0 where
  pub metrics_addr : String
  pub probe_addr : String
  pub enable_leader_election : Bool

-- ctrl.Options, without the scheme.
pub record Options : Type 0 where
  pub metrics_bind_address : String
  pub port : ℕ
  pub health_probe_bind_address : String
  pub leader_election : Bool
  pub leader_election_id : String

-- The calls of controller-runtime that may fail.
pub data SetupCall : Type 0 where
  new_manager : Options → SetupCall
  setup_controller : SetupCall
  setup_webhook : SetupCall
  add_healthz_check : String → SetupCall
  add_readyz_check : String → SetupCall
  start : SetupCall

-- What flag.Parse makes of the command line: it sets the flags, or ends the process.
pub data Parsed : Type 0 where
  flags_set : Flags → Parsed
  help_asked bad_flag : Parsed

-- The libraries over a world: the error of a call, if any, the parsing of the flags from their
-- defaults, and whether the configuration of the cluster is found.
pub record Runtime (W : Type 0) : Type 0 where
  pub call : SetupCall → W → Option Error × W
  pub parse : Flags → Parsed
  pub has_config : W → Bool

-- How the process ends: its exit code and the calls that it made, oldest first.
pub record Exit : Type 0 where
  pub code : ℕ
  pub calls : List SetupCall

-- The defaults of the flags.
abbrev pub default_flags : Flags
default_flags = record {
  metrics_addr = ":8080";
  probe_addr = ":8081";
  enable_leader_election = false;
}

abbrev pub manager_options : Flags → Options
manager_options flags = record {
  metrics_bind_address = flags.metrics_addr;
  port = 9443;
  health_probe_bind_address = flags.probe_addr;
  leader_election = flags.enable_leader_election;
  leader_election_id = "a2387a90.ibm.com";
}

module _ {W : Type 0} (R : Runtime W) where
  -- The end of main.
  abbrev finished : W → Exit
  finished w = record { code = 0; calls = [] }

  -- `if err := call; err != nil { os.Exit(1) }`, and on.
  unfoldable pub or_exit : SetupCall → (W → Exit) → W → Exit
  or_exit c rest w =
      let (err, w') = R.call c w in
      elim err [
        | some e ↦ record { code = 1; calls = c ∷ [] }
        | none ↦ let end = rest w' in record { code = end.code; calls = c ∷ end.calls }
      ]

  -- From the creation of the manager on.
  unfoldable pub set_up : Flags → W → Exit
  unfolding or_exit
  set_up flags = or_exit (new_manager (manager_options flags)) (
      or_exit setup_controller (
        or_exit setup_webhook (
          or_exit (add_healthz_check "healthz")
            (or_exit (add_readyz_check "readyz") (or_exit start finished)))))

  -- main. flag.Parse exits with 0 where help is asked for and with 2 on a bad flag, and
  -- ctrl.GetConfigOrDie with 1.
  unfoldable pub main : W → Exit
  unfolding set_up
  main w = elim (R.parse default_flags) [
    | flags_set flags ↦ if R.has_config w then set_up flags w else record { code = 1; calls = [] }
    | help_asked ↦ record { code = 0; calls = [] }
    | bad_flag ↦ record { code = 2; calls = [] }
  ]
