-- ===== src/Tests/Starting.antt =====
-- The start of the operator where the webhook cannot be registered.
use verify_directory_operato.Base.{Bool, true, none, some, Option}
use verify_directory_operato.Kube.{Error}
use verify_directory_operato.Controller.Handle.{new_error}
use verify_directory_operato.Startup.{
  SetupCall, setup_webhook, Runtime, flags_set, default_flags, main,
}
use verify_directory_operato.Startup.Order.{Ends, main-ExitsAfter}

abbrev answer : SetupCall → Bool → Option Error × Bool
answer setup_webhook up = (some (new_error "no certificate"), up)
answer _ up = (none, up)

abbrev runtime : Runtime Bool
runtime = record { call = answer; parse = flags_set; has_config = λ up. up }

main-ExitsAfter_example : Ends runtime (flags_set default_flags) true true (main runtime true)
main-ExitsAfter_example = main-ExitsAfter runtime true
