-- ===== src/Kube/Rules/Laws.antt =====
-- What the surroundings document, where a theorem relies on it.
use verify_directory_operato.Base.Lists.{All}
use verify_directory_operato.Base.{ℕ, String, ◌≡◌, Bool, true}
use verify_directory_operato.Base.Dict.{Dict, has}
use verify_directory_operato.Kube.Effect.{ok, M, Request, Env}
use verify_directory_operato.Kube.Rules.Trace.{Emits}

-- wait.PollImmediate makes no request of its own, and returns with no error only after its
-- condition has returned true.
pub record PollsFairly {W : Type 0} (E : Env W) : Type 1 where
  pub emits :
      (P : Request → Type 0) (interval timeout : ℕ) (c : M W Bool)
      → Emits P c
      → Emits P (E.poll_immediate interval timeout c)
  pub seen :
      (interval timeout : ℕ) (c : M W Bool) (w : W)
      → (E.poll_immediate interval timeout c w).outcome ≡ ok tt
      → (w' : W) × ((c w').outcome ≡ ok true)

-- A range over a map meets exactly its keys.
pub record RangesOverKeys {W : Type 0} (E : Env W) : Type 0 where
  pub keys : (m : Dict String) (w : W) (k : String) → has k (E.shuffle m w).0 ≡ has k m

-- A range over a map meets entries of the map.
pub record RangesOverEntries {W : Type 0} (E : Env W) : Type 1 where
  pub entries :
      (R : String × String → Type 0) (m : Dict String) (w : W) → All R m → All R (E.shuffle m w).0
