-- ===== src/Training/Operations.antt =====
-- Thirteen operations of training_ops.cc with a table per slot, by name. Not among them are the group
-- and the sparse-group FTRL, which read a row that they have freed, the two with a Hessian, whose
-- rule is another for each key, and those with packed slots, whose rules want long rows.
use tfplus.Common.{ℕ, ◌≡◌, sym, subst, some, List, length}
use tfplus.HashMap.{IMap}
use tfplus.Embedding.Value.{EmbeddingValue}
use tfplus.Variable.{Floats}
use tfplus.Training.Scalars.{Scalars}
use tfplus.Training.Rules.{Rates, Rule, adam, ams_grad, adadelta}
use tfplus.Training.Rules.Ftrl.{sparse_ftrl}
use tfplus.Training.Rules.Momentum.{momentum, ada_belief, sparse_adagrad, sparse_adadelta}
use tfplus.Training.Rules.Lamb.{lamb, ada_dqh, sparse_ada_dqh}
use tfplus.Training.Rules.Packed.{adam_v2}
use tfplus.Training.Rules.Dqh.{ada_dqh_v2}
use tfplus.Training.Rules.Sound.{
  lamb-Sound, ada_dqh-Sound, ada_dqh_v2-Sound, sparse_ada_dqh-Sound, adam-Sound, ams_grad-Sound,
  adadelta-Sound, momentum-Sound, ada_belief-Sound, adam_v2-Sound, sparse_ftrl-Sound,
  sparse_adagrad-Sound, sparse_adadelta-Sound,
}
use tfplus.Training.Apply.{Table}
use tfplus.Training.Apply.Ready.{Ready, ReadySlot}
use tfplus.Training.Apply.Trained.{Sound}
use tfplus.Training.Apply.Slots.{Every}
use tfplus.Training.Work.{Item, do_work}
use tfplus.Training.Work.Run.{Worked, do_work_lem}

pub data Operation : Type 0 where
  group_sparse_apply_adam : Operation
  group_sparse_apply_adam_v2 : Operation
  group_sparse_apply_ams_grad : Operation
  group_sparse_apply_adadelta : Operation
  group_sparse_apply_momentum : Operation
  group_sparse_apply_ada_belief : Operation
  group_sparse_apply_lamb : Operation
  group_sparse_apply_ada_dqh : Operation
  group_sparse_apply_ada_dqh_v2 : Operation
  sparse_apply_ada_dqh : Operation
  sparse_apply_adagrad : Operation
  sparse_apply_adadelta : Operation
  sparse_apply_ftrl : Operation

abbrev pub slots_of : Operation → ℕ
slots_of group_sparse_apply_adam = 4
slots_of group_sparse_apply_adam_v2 = 3
slots_of group_sparse_apply_ams_grad = 4
slots_of group_sparse_apply_adadelta = 3
slots_of group_sparse_apply_momentum = 3
slots_of group_sparse_apply_ada_belief = 4
slots_of group_sparse_apply_lamb = 4
slots_of group_sparse_apply_ada_dqh = 3
slots_of group_sparse_apply_ada_dqh_v2 = 3
slots_of sparse_apply_ada_dqh = 2
slots_of sparse_apply_adagrad = 1
slots_of sparse_apply_adadelta = 2
slots_of sparse_apply_ftrl = 2

module _ {V : Type 0} (r : Scalars V) (rates : Rates V) (inner_dim : ℕ) where
  abbrev pub rule_of : Operation → Rule V
  rule_of group_sparse_apply_adam = adam r rates inner_dim
  rule_of group_sparse_apply_adam_v2 = adam_v2 r rates inner_dim
  rule_of group_sparse_apply_ams_grad = ams_grad r rates inner_dim
  rule_of group_sparse_apply_adadelta = adadelta r rates inner_dim
  rule_of group_sparse_apply_momentum = momentum r rates inner_dim
  rule_of group_sparse_apply_ada_belief = ada_belief r rates inner_dim
  rule_of group_sparse_apply_lamb = lamb r rates inner_dim
  rule_of group_sparse_apply_ada_dqh = ada_dqh r rates inner_dim
  rule_of group_sparse_apply_ada_dqh_v2 = ada_dqh_v2 r rates inner_dim
  rule_of sparse_apply_ada_dqh = sparse_ada_dqh r rates inner_dim
  rule_of sparse_apply_adagrad = sparse_adagrad r rates inner_dim
  rule_of sparse_apply_adadelta = sparse_adadelta r rates inner_dim
  rule_of sparse_apply_ftrl = sparse_ftrl r rates inner_dim

  pub rule_of-Sound : (op : Operation) → Sound (rule_of op) (slots_of op)
  rule_of-Sound group_sparse_apply_adam = adam-Sound r rates inner_dim
  rule_of-Sound group_sparse_apply_adam_v2 = adam_v2-Sound r rates inner_dim
  rule_of-Sound group_sparse_apply_ams_grad = ams_grad-Sound r rates inner_dim
  rule_of-Sound group_sparse_apply_adadelta = adadelta-Sound r rates inner_dim
  rule_of-Sound group_sparse_apply_momentum = momentum-Sound r rates inner_dim
  rule_of-Sound group_sparse_apply_ada_belief = ada_belief-Sound r rates inner_dim
  rule_of-Sound group_sparse_apply_lamb = lamb-Sound r rates inner_dim
  rule_of-Sound group_sparse_apply_ada_dqh = ada_dqh-Sound r rates inner_dim
  rule_of-Sound group_sparse_apply_ada_dqh_v2 = ada_dqh_v2-Sound r rates inner_dim
  rule_of-Sound sparse_apply_ada_dqh = sparse_ada_dqh-Sound r rates inner_dim
  rule_of-Sound sparse_apply_adagrad = sparse_adagrad-Sound r rates inner_dim
  rule_of-Sound sparse_apply_adadelta = sparse_adadelta-Sound r rates inner_dim
  rule_of-Sound sparse_apply_ftrl = sparse_ftrl-Sound r rates inner_dim

  -- Each of KvVariableGroupSparseApply with Adam, AdamV2, AMSGrad, Adadelta, Momentum, AdaBelief, Lamb,
  -- AdaDQH and AdaDQHV2, and of KvVariableSparseApply with AdaDQH, Adagrad, Adadelta and Ftrl, comes
  -- to the end of any batch, on a table whose records own their values and as many slots as it has,
  -- without a blacklist, each key having a draw of random numbers for each slot. The tables are then
  -- ready for the next batch, and a key that is not in the batch has the record that it had.
  pub operation_lem :
      {T : Type 0} (m : IMap EmbeddingValue T) (floats : Floats V) (op : Operation)
      (items : List (Item V)) (t : Table V T) (slots : List (Table V T))
      → length slots ≡ slots_of op
      → Every (λ x. length x.draws ≡ length slots) items
      → Ready m floats t
      → Every (ReadySlot m floats) slots
      → (t' : Table V T) × (slots' : List (Table V T)) × (do_work m floats
            (rule_of op)
            items
            t
            slots
          ≡ some (t', slots'))
        × Worked m floats items t t'
        × Every (ReadySlot m floats) slots'
  operation_lem m floats op items t slots n draws ok slots_ok =
      do_work_lem m floats (rule_of op) items t slots
        (subst (Sound (rule_of op)) (sym n) (rule_of-Sound op)) draws ok slots_ok
