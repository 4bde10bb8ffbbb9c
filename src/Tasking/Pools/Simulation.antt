-- ===== src/Tasking/Pools/Simulation.antt =====
-- The pools of src/tasking.cc against the abstract list, by a relation that their steps keep.
use lomp.Prelude.{ℕ, ◌≡◌, refl, List, [], ◌∷◌, ap₂}
use lomp.Tasking.Pools.Spec.{Call, Reply, replies}

module _ {ℓ} {S : Type ℓ} (step : Call → S → S × Reply) (spec : Call → List ℕ → List ℕ × Reply)
    (R : S → List ℕ → Type 0)
    (keeps : (c : Call) (s : S) (l : List ℕ)
      → R s l
      → R (step c s).0 (spec c l).0 × ((step c s).1 ≡ (spec c l).1)) where
  pub replies-simulate :
      (s : S) (l : List ℕ) (calls : List Call) → R s l → replies step s calls ≡ replies spec l calls
  unfolding replies
  replies-simulate s l [] h = refl
  replies-simulate s l (c ∷ calls) h =
      let (h', e) = keeps c s l h in ap₂ ◌∷◌ e (replies-simulate (step c s).0 (spec c l).0 calls h')
