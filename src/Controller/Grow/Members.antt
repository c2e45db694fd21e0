-- ===== src/Controller/Grow/Members.antt =====
-- Which replicas the map that createReplicas returns has.
use verify_directory_operato.Base.{◌≡◌, ◌||◌, String, List, [], ◌∷◌, arith}
use verify_directory_operato.Base.Dict.{Dict, has, has-insert, insert, contains}
use verify_directory_operato.Kube.{Env}
use verify_directory_operato.Kube.Rules.{Returns, Returns-pure, Returns-bind, Returns-then}
use verify_directory_operato.Controller.Handle.{Handle}
use verify_directory_operato.Controller.Grow.{
  deploy_replicas, connect_replicas, start_replicas, grow, create_first, create_replicas,
}

-- The keys of a map are those of another and the listed ones.
abbrev pub Extends : Dict String → List String → Dict String → Type 0
Extends existing added m = (k : String) → has k m ≡ (has k existing || contains k added)

Extends-insert :
    (existing : Dict String) (added : List String) (m : Dict String) (pvc name : String)
    → Extends (insert pvc name existing) added m
    → Extends existing (pvc ∷ added) m
unfolding contains
Extends-insert existing added m pvc name e k = ground (arith, e k, has-insert pvc k name existing)

module _ {W : Type 0} (E : Env W) (h : Handle) where
  pub deploy_replicas-Extends :
      (added : List String) (pods existing : Dict String)
      → Returns (λ maps. Extends existing added maps.1) (deploy_replicas E h added pods existing)
  unfolding deploy_replicas
  deploy_replicas-Extends [] pods existing = Returns-pure _ _ (λ k. unfold contains in ground arith)
  deploy_replicas-Extends (pvc ∷ added) pods existing = Returns-then _ _ _ λ pod.
      Returns-then _ _ _ λ name. record {
        at = λ w maps e.
            Extends-insert existing added maps.1 pvc name
              ((deploy_replicas-Extends added _ _).at w maps e);
      }

  start_replicas-Extends :
      (principal : String) (added : List String) (existing : Dict String)
      → Returns (Extends existing added) (start_replicas E h principal added existing)
  unfolding start_replicas connect_replicas
  start_replicas-Extends principal added existing =
      Returns-bind _ _ _ _ (deploy_replicas-Extends added [] existing) λ maps keys.
        Returns-then _ _ _ λ order. Returns-then _ _ _ λ _.
          Returns-then _ _ _
            λ _. Returns-then _ _ _ λ order'. Returns-then _ _ _ λ _. Returns-pure _ _ keys

  grow-Extends :
      (principal : String) (added : List String) (existing : Dict String)
      → Returns (Extends existing added) (grow E h principal added existing)
  unfolding grow
  grow-Extends principal added existing = Returns-then _ _ _ λ _. Returns-then _ _ _ λ _.
      Returns-then _ _ _ λ _.
        Returns-bind _ _ _ _ (start_replicas-Extends principal added existing)
          λ m keys. Returns-then _ _ _ λ _. Returns-pure _ _ keys

  create_first-Extends :
      (principal : String) (added : List String)
      → Returns (Extends [] (principal ∷ added)) (create_first E h principal added [])
  unfolding create_first
  create_first-Extends principal [] = Returns-then _ _ _ λ name. Returns-pure _ _ (
      Extends-insert [] [] (insert principal name []) principal name
        (λ k. unfold contains in ground arith))
  create_first-Extends principal (pvc ∷ added) = Returns-then _ _ _ λ name. record {
    at = λ w m e.
        Extends-insert [] (pvc ∷ added) m principal name
          ((grow-Extends principal (pvc ∷ added) _).at w m e);
  }

  -- Whenever createReplicas returns without an error, the map that it returns has the replicas
  -- that existed and the added ones, and no others.
  pub create_replicas-Extends :
      (existing : Dict String) (added : List String)
      → Returns (Extends existing added) (create_replicas E h existing added)
  unfolding create_replicas
  create_replicas-Extends existing [] = Returns-pure _ _ (λ k. unfold contains in ground arith)
  create_replicas-Extends [] (principal ∷ added) = create_first-Extends principal added
  create_replicas-Extends (replica ∷ more) (pvc ∷ added) =
      Returns-then _ _ _ λ order. grow-Extends _ (pvc ∷ added) (replica ∷ more)
