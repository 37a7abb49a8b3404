-- ===== src/Narrative/Clusters/Manager/Scores.antt =====
-- The scores of an observation.
use trenches.Base.{ℕ, ◌≡◌, String, arith}
use trenches.Base.Number.{Number, whole, ◌≼◌, IsOrdered}
use trenches.Util.Math.{clamp01-IsWithin}
use trenches.Narrative.PhraseTracker.{PhraseObservation}
use trenches.Narrative.Clusters.Manager.{
  compute_sss, compute_novelty, apply_recency_decay, observed,
}
use trenches.Narrative.Clusters.Model.{ClusterManager, BaselineSnapshot, ExtractedPhrase, Settings}

module _ {V : Type 0} ⦃d : Number V⦄ (laws : IsOrdered V) (cfg : Settings V) where
  abbrev pub IsUnit : V → Type 0
  IsUnit x = (whole 0 ≼ x) × (x ≼ whole 1)

  -- Both scores of an observation lie between 0 and 1, whatever the counts and the baseline, NaN
  -- and Infinity included, and at that moment nothing of the first has decayed.
  pub observed-IsUnit :
      (phrase : ExtractedPhrase) (observation : PhraseObservation V) (baseline : BaselineSnapshot V)
      (platform : String) (now : ℕ) (fresh : String) (m : ClusterManager V)
      → let u = (observed cfg phrase observation baseline platform now fresh m).0 in
        IsUnit u.sss × IsUnit u.novelty × (u.decayed_sss ≡ u.sss)
  unfolding observed compute_sss compute_novelty apply_recency_decay
  observed-IsUnit phrase observation baseline platform now fresh m =
      (clamp01-IsWithin laws _, clamp01-IsWithin laws _, ground arith)
