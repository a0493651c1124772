-- ===== src/Tests/Checks.antt =====
-- The theorems on the checks and on `Compute` of training_ops.cc at concrete inputs.
use tfplus.Common.{ℕ, ◌≡◌, refl, Option, some, List, [], ◌∷◌, true, arith, if◌then◌else◌, ◌==◌}
use tfplus.HashMap.Unordered.{UnorderedMap, unordered_map}
use tfplus.Embedding.Value.{EmbeddingValue}
use tfplus.Training.Apply.{Table}
use tfplus.Training.Rules.{adam}
use tfplus.Training.Checks.{Inputs, Failure, group_checks, adam_checks, compute, passed}
use tfplus.Training.Checks.Accepted.{Accepted, group_checks-Accepted}
use tfplus.Training.Checks.Compute.{Ended, compute_lem}
use tfplus.Tests.Lookup.{naturals}
use tfplus.Tests.Training.{whole, rates, items, trained, four, trained-Ready, four-Ready}

-- two keys and rows of two elements
abbrev inputs : Inputs ℕ
inputs = record {
  initialized = λ i. true;
  value_shape = λ i. 2 ∷ [];
  dims = λ i. if i == 5 then 2 ∷ 2 ∷ [] else if i == 6 then 2 ∷ [] else [];
  scalar = λ i. 1;
}

inputs_pass : group_checks inputs whole 4 ≡ passed 2
unfolding group_checks
inputs_pass = refl

adam_inputs_pass : adam_checks inputs whole ≡ passed 2
unfolding adam_checks
adam_inputs_pass = inputs_pass

group_checks_example : Accepted inputs whole 4 2
group_checks_example = group_checks-Accepted inputs whole 4 2 inputs_pass

compute_example :
    (status : Option Failure) × (t' : Table ℕ (UnorderedMap EmbeddingValue)) × (slots' : List
      (Table ℕ (UnorderedMap EmbeddingValue)))
    × (compute unordered_map naturals
          (adam_checks inputs whole)
          (adam whole rates)
          items
          trained
          four
        ≡ some (status, t', slots'))
    × Ended unordered_map naturals inputs whole rates items trained four status t' slots'
compute_example =
    compute_lem unordered_map naturals inputs whole rates items trained four
      (λ e. ground (arith, adam_inputs_pass)) refl (refl, (refl, tt)) trained-Ready four-Ready
