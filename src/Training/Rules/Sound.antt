-- ===== src/Training/Rules/Sound.antt =====
-- The rules of training_ops.cc write each slot, and train the row or put the key in the blacklist.
use tfplus.Common.{
  ℕ, ◌≡◌, refl, true, Option, none, some, List, [], ◌∷◌, arith, length, ◌⊎◌, inl, inr,
}
use tfplus.Training.Scalars.{Scalars}
use tfplus.Training.Actions.{blacklist}
use tfplus.Training.Actions.Plain.{plain}
use tfplus.Training.Apply.Trained.{Gives, Sound}
use tfplus.Training.Rules.{Rates, Rule, group_actions, adam, ams_grad, adadelta}
use tfplus.Training.Rules.Ftrl.{sparse_ftrl}
use tfplus.Training.Rules.Momentum.{
  momentum, ada_belief, ada_hessian, sparse_adagrad, sparse_adadelta,
}
use tfplus.Training.Rules.Lamb.{lamb, lamb_hessian, ada_dqh, sparse_ada_dqh}
use tfplus.Training.Rules.Packed.{adam_v2}
use tfplus.Training.Rules.Dqh.{ada_dqh_v2}

-- a property of all lists of a length, by lists of that length
module _ {V : Type 0} where
  four :
      (rule : Rule V) (grad var : List V)
      → ((a b c d : List V) → Gives rule grad var (a ∷ b ∷ c ∷ d ∷ []))
      → (rows : List (List V)) → length rows ≡ 4
      → Gives rule grad var rows
  four rule grad var f (a ∷ b ∷ c ∷ d ∷ []) n = f a b c d
  four rule grad var f [] n = absurd (omega (arith, n))
  four rule grad var f (a ∷ []) n = absurd (omega (arith, n))
  four rule grad var f (a ∷ b ∷ []) n = absurd (omega (arith, n))
  four rule grad var f (a ∷ b ∷ c ∷ []) n = absurd (omega (arith, n))
  four rule grad var f (a ∷ b ∷ c ∷ d ∷ e ∷ rows) n = absurd (omega (arith, n))

  one :
      (rule : Rule V) (grad var : List V)
      → ((a : List V) → Gives rule grad var (a ∷ []))
      → (rows : List (List V)) → length rows ≡ 1
      → Gives rule grad var rows
  one rule grad var f (a ∷ []) n = f a
  one rule grad var f [] n = absurd (omega (arith, n))
  one rule grad var f (a ∷ b ∷ rows) n = absurd (omega (arith, n))

  two :
      (rule : Rule V) (grad var : List V)
      → ((a b : List V) → Gives rule grad var (a ∷ b ∷ []))
      → (rows : List (List V)) → length rows ≡ 2
      → Gives rule grad var rows
  two rule grad var f (a ∷ b ∷ []) n = f a b
  two rule grad var f [] n = absurd (omega (arith, n))
  two rule grad var f (a ∷ []) n = absurd (omega (arith, n))
  two rule grad var f (a ∷ b ∷ c ∷ rows) n = absurd (omega (arith, n))

  three :
      (rule : Rule V) (grad var : List V)
      → ((a b c : List V) → Gives rule grad var (a ∷ b ∷ c ∷ []))
      → (rows : List (List V)) → length rows ≡ 3
      → Gives rule grad var rows
  three rule grad var f (a ∷ b ∷ c ∷ []) n = f a b c
  three rule grad var f [] n = absurd (omega (arith, n))
  three rule grad var f (a ∷ []) n = absurd (omega (arith, n))
  three rule grad var f (a ∷ b ∷ []) n = absurd (omega (arith, n))
  three rule grad var f (a ∷ b ∷ c ∷ d ∷ rows) n = absurd (omega (arith, n))

module _ {V : Type 0} (r : Scalars V) (rates : Rates V) (inner_dim : ℕ) where
  group_cases :
      (result : Option (List V))
      → (plain (group_actions r rates inner_dim result) ≡ true)
        ⊎ (group_actions r rates inner_dim result ≡ blacklist ∷ [])
  group_cases none = inr refl
  group_cases (some vs) = inl refl

  adam_gives :
      (grad var m v linear accum : List V)
      → Gives (adam r rates inner_dim) grad var (m ∷ v ∷ linear ∷ accum ∷ [])
  unfolding adam
  adam_gives grad var m v linear accum =
      (_, _, refl, group_cases _, (refl, (refl, (refl, (refl, tt)))))

  pub adam-Sound : Sound (adam r rates inner_dim) 4
  adam-Sound = record {
    gives = λ grad var. four (adam r rates inner_dim) grad var (adam_gives grad var);
  }

  ams_grad_gives :
      (grad var vhat m v linear : List V)
      → Gives (ams_grad r rates inner_dim) grad var (vhat ∷ m ∷ v ∷ linear ∷ [])
  unfolding ams_grad
  ams_grad_gives grad var vhat m v linear =
      (_, _, refl, group_cases _, (refl, (refl, (refl, (refl, tt)))))

  pub ams_grad-Sound : Sound (ams_grad r rates inner_dim) 4
  ams_grad-Sound = record {
    gives = λ grad var. four (ams_grad r rates inner_dim) grad var (ams_grad_gives grad var);
  }

  adadelta_gives :
      (grad var linear accum accum_update : List V)
      → Gives (adadelta r rates inner_dim) grad var (linear ∷ accum ∷ accum_update ∷ [])
  unfolding adadelta
  adadelta_gives grad var linear accum accum_update =
      (_, _, refl, group_cases _, (refl, (refl, (refl, tt))))

  pub adadelta-Sound : Sound (adadelta r rates inner_dim) 3
  adadelta-Sound = record {
    gives = λ grad var. three (adadelta r rates inner_dim) grad var (adadelta_gives grad var);
  }

  momentum_gives :
      (grad var linear m accum : List V)
      → Gives (momentum r rates inner_dim) grad var (linear ∷ m ∷ accum ∷ [])
  unfolding momentum
  momentum_gives grad var linear m accum = (_, _, refl, group_cases _, (refl, (refl, (refl, tt))))

  pub momentum-Sound : Sound (momentum r rates inner_dim) 3
  momentum-Sound = record {
    gives = λ grad var. three (momentum r rates inner_dim) grad var (momentum_gives grad var);
  }

  ada_belief_gives :
      (grad var linear accum m v : List V)
      → Gives (ada_belief r rates inner_dim) grad var (linear ∷ accum ∷ m ∷ v ∷ [])
  unfolding ada_belief
  ada_belief_gives grad var linear accum m v =
      (_, _, refl, group_cases _, (refl, (refl, (refl, (refl, tt)))))

  pub ada_belief-Sound : Sound (ada_belief r rates inner_dim) 4
  ada_belief-Sound = record {
    gives = λ grad var. four (ada_belief r rates inner_dim) grad var (ada_belief_gives grad var);
  }

  ada_hessian_gives :
      (hessian : List V)
      → (grad var linear accum m v : List V)
      → Gives (ada_hessian r rates inner_dim hessian) grad var (linear ∷ accum ∷ m ∷ v ∷ [])
  unfolding ada_hessian
  ada_hessian_gives hessian grad var linear accum m v =
      (_, _, refl, group_cases _, (refl, (refl, (refl, (refl, tt)))))

  pub ada_hessian-Sound : (hessian : List V) → Sound (ada_hessian r rates inner_dim hessian) 4
  ada_hessian-Sound hessian = record {
    gives = λ grad var.
        four (ada_hessian r rates inner_dim hessian) grad var (ada_hessian_gives hessian grad var);
  }

  adam_v2_gives :
      (grad var linear m v : List V)
      → Gives (adam_v2 r rates inner_dim) grad var (linear ∷ m ∷ v ∷ [])
  unfolding adam_v2
  adam_v2_gives grad var linear m v = (_, _, refl, group_cases _, (refl, (refl, (refl, tt))))

  pub adam_v2-Sound : Sound (adam_v2 r rates inner_dim) 3
  adam_v2-Sound = record {
    gives = λ grad var. three (adam_v2 r rates inner_dim) grad var (adam_v2_gives grad var);
  }

  sparse_ftrl_gives :
      (grad var linear accum : List V)
      → Gives (sparse_ftrl r rates inner_dim) grad var (linear ∷ accum ∷ [])
  unfolding sparse_ftrl
  sparse_ftrl_gives grad var linear accum = (_, _, refl, inl refl, (refl, (refl, tt)))

  pub sparse_ftrl-Sound : Sound (sparse_ftrl r rates inner_dim) 2
  sparse_ftrl-Sound = record {
    gives = λ grad var. two (sparse_ftrl r rates inner_dim) grad var (sparse_ftrl_gives grad var);
  }

  sparse_adadelta_gives :
      (grad var accum accum_update : List V)
      → Gives (sparse_adadelta r rates inner_dim) grad var (accum ∷ accum_update ∷ [])
  unfolding sparse_adadelta
  sparse_adadelta_gives grad var accum accum_update = (_, _, refl, inl refl, (refl, (refl, tt)))

  pub sparse_adadelta-Sound : Sound (sparse_adadelta r rates inner_dim) 2
  sparse_adadelta-Sound = record {
    gives = λ grad var.
        two (sparse_adadelta r rates inner_dim) grad var (sparse_adadelta_gives grad var);
  }

  sparse_adagrad_gives :
      (grad var accum : List V) → Gives (sparse_adagrad r rates inner_dim) grad var (accum ∷ [])
  unfolding sparse_adagrad
  sparse_adagrad_gives grad var accum = (_, _, refl, inl refl, (ground arith, tt))

  pub sparse_adagrad-Sound : Sound (sparse_adagrad r rates inner_dim) 1
  sparse_adagrad-Sound = record {
    gives =
        λ grad var. one (sparse_adagrad r rates inner_dim) grad var (sparse_adagrad_gives grad var);
  }

  lamb_gives :
      (grad var linear accum m v : List V)
      → Gives (lamb r rates inner_dim) grad var (linear ∷ accum ∷ m ∷ v ∷ [])
  unfolding lamb
  lamb_gives grad var linear accum m v =
      (_, _, refl, group_cases _, (refl, (refl, (refl, (refl, tt)))))

  pub lamb-Sound : Sound (lamb r rates inner_dim) 4
  lamb-Sound = record {
    gives = λ grad var. four (lamb r rates inner_dim) grad var (lamb_gives grad var);
  }

  lamb_hessian_gives :
      (hessian : List V)
      → (grad var linear accum m v : List V)
      → Gives (lamb_hessian r rates inner_dim hessian) grad var (linear ∷ accum ∷ m ∷ v ∷ [])
  unfolding lamb_hessian
  lamb_hessian_gives hessian grad var linear accum m v =
      (_, _, refl, group_cases _, (refl, (refl, (refl, (refl, tt)))))

  pub lamb_hessian-Sound : (hessian : List V) → Sound (lamb_hessian r rates inner_dim hessian) 4
  lamb_hessian-Sound hessian = record {
    gives = λ grad var.
        four (lamb_hessian r rates inner_dim hessian) grad var
          (lamb_hessian_gives hessian grad var);
  }

  ada_dqh_gives :
      (grad var linear m v : List V)
      → Gives (ada_dqh r rates inner_dim) grad var (linear ∷ m ∷ v ∷ [])
  unfolding ada_dqh
  ada_dqh_gives grad var linear m v = (_, _, refl, group_cases _, (refl, (refl, (refl, tt))))

  pub ada_dqh-Sound : Sound (ada_dqh r rates inner_dim) 3
  ada_dqh-Sound = record {
    gives = λ grad var. three (ada_dqh r rates inner_dim) grad var (ada_dqh_gives grad var);
  }

  ada_dqh_v2_gives :
      (grad var linear m v : List V)
      → Gives (ada_dqh_v2 r rates inner_dim) grad var (linear ∷ m ∷ v ∷ [])
  unfolding ada_dqh_v2
  ada_dqh_v2_gives grad var linear m v = (_, _, refl, group_cases _, (refl, (refl, (refl, tt))))

  pub ada_dqh_v2-Sound : Sound (ada_dqh_v2 r rates inner_dim) 3
  ada_dqh_v2-Sound = record {
    gives = λ grad var. three (ada_dqh_v2 r rates inner_dim) grad var (ada_dqh_v2_gives grad var);
  }

  sparse_ada_dqh_gives :
      (grad var m v : List V) → Gives (sparse_ada_dqh r rates inner_dim) grad var (m ∷ v ∷ [])
  unfolding sparse_ada_dqh
  sparse_ada_dqh_gives grad var m v = (_, _, refl, inl refl, (refl, (refl, tt)))

  pub sparse_ada_dqh-Sound : Sound (sparse_ada_dqh r rates inner_dim) 2
  sparse_ada_dqh-Sound = record {
    gives =
        λ grad var. two (sparse_ada_dqh r rates inner_dim) grad var (sparse_ada_dqh_gives grad var);
  }
