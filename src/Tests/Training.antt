-- ===== src/Tests/Training.antt =====
-- The theorems on the training operations of training_ops.cc at concrete inputs: natural numbers in
-- place of floats, over an `UnorderedMap`.
use tfplus.Common.{
  ℕ, ◌+◌, ◌-◌, ◌*◌, ◌/◌, ◌≡◌, refl, ◌∙◌, true, false, none, some, List, [], ◌∷◌, ◌++◌, arith, ltb,
  ◌==◌, min, max, ==_ne,
}
use tfplus.HashMap.Bucket.{assign}
use tfplus.HashMap.Unordered.{UnorderedMap, unordered_map}
use tfplus.Embedding.Value.{EmbeddingValue}
use tfplus.Embedding.Context.{entry}
use tfplus.Table.Owned.{Owned, write-Owned}
use tfplus.Variable.Unsafe.{Draw}
use tfplus.Variable.Unsafe.Handed.{Hands}
use tfplus.Variable.Unsafe.Find.{find_or_insert_unsafe_lem}
use tfplus.Training.Scalars.{Scalars}
use tfplus.Training.Actions.{Action}
use tfplus.Training.Actions.Plain.{Live, last_row}
use tfplus.Training.Rules.{Rates, adam}
use tfplus.Training.Rules.Ftrl.{sparse_group_ftrl}
use tfplus.Training.Rules.Freed.{new_row, sparse_group_ftrl_lem}
use tfplus.Training.Rules.Packed.{adam_v2, adam_v3, check_dim_size}
use tfplus.Training.Rules.Packed.Slots.{adam_v3-adam_v2, check_dim_size-adam_v3}
use tfplus.Training.Rules.Sound.{adam-Sound}
use tfplus.Training.Apply.{Table, Opened, run_table}
use tfplus.Training.Apply.Ready.{Ready, ReadySlot}
use tfplus.Training.Apply.Slots.{Every, Wrote}
use tfplus.Training.Apply.Key.{Steps, apply_key_lem}
use tfplus.Training.Work.{Item, do_work}
use tfplus.Training.Work.Run.{Worked}
use tfplus.Training.Operations.{group_sparse_apply_adam, rule_of, operation_lem}
use tfplus.Tests.Lookup.{
  naturals, config, start, start-Inv, one_key, one_key-Inv, key_7, found_7, means_row,
}

abbrev pub whole : Scalars ℕ
whole = record {
  zero_of = 0;
  one = 1;
  two = 2;
  add = λ a b. a + b;
  sub = λ a b. a - b;
  mul = λ a b. a * b;
  div = λ a b. a / b;
  neg = λ a. 0;
  sqrt = λ a. a;
  rsqrt = λ a. a;
  pow = λ a b. a;
  minus_half = 0;
  tiny = 1;
  equal = λ a b. a == b;
  least = λ a b. min a b;
  most = λ a b. max a b;
  less = λ a b. ltb a b;
  of_size = λ n. n;
}

abbrev pub rates : Rates ℕ
rates = record {
  lr = 1;
  beta1_power = 0;
  beta2_power = 0;
  beta1 = 1;
  beta2 = 1;
  epsilon = 1;
  rho = 1;
  lr_power = 0;
  momentum = 1;
  l1 = 0;
  l2 = 0;
  l21 = 0;
  l2_shrinkage = 1;
  use_nesterov = false;
  update_slots = true;
}

abbrev draw : Draw
draw = record { rand1 = 4; rand2 = 9; day = 18303 }

pub start-Owned : Owned unordered_map naturals.zeros start
start-Owned = record { inv = start-Inv; owned = λ k e f. cc }

pub one_key-Owned : Owned unordered_map naturals.zeros one_key
unfolding assign
one_key-Owned =
    write-Owned unordered_map naturals.zeros 7 key_7 start one_key start-Owned one_key-Inv
      (λ q n. unordered_map.find-insert q 7 key_7 [] tt ∙ rw (==_ne n)) found_7 (λ nz. refl)

abbrev pub trained : Table ℕ (UnorderedMap EmbeddingValue)
trained = record { config = config; store = one_key }

abbrev slot : Table ℕ (UnorderedMap EmbeddingValue)
slot = record { config = config; store = start }

pub trained-Ready : Ready unordered_map naturals trained
trained-Ready = record { owned = one_key-Owned; drawable = omega arith }

slot-ReadySlot : ReadySlot unordered_map naturals slot
slot-ReadySlot = record {
  ready = record { owned = start-Owned; drawable = omega arith };
  shown = λ k e f. cc;
}

abbrev pub four : List (Table ℕ (UnorderedMap EmbeddingValue))
four = slot ∷ slot ∷ slot ∷ slot ∷ []

pub four-Ready : Every (ReadySlot unordered_map naturals) four
four-Ready = (slot-ReadySlot, (slot-ReadySlot, (slot-ReadySlot, (slot-ReadySlot, tt))))

abbrev draws : List Draw
draws = draw ∷ draw ∷ draw ∷ draw ∷ []

abbrev pub items : List (Item ℕ)
items =
    record { key = 7; grad = 1 ∷ 2 ∷ []; draw = draw; draws = draws }
    ∷ record { key = 8; grad = 3 ∷ 4 ∷ []; draw = draw; draws = draws }
    ∷ []

find_or_insert_unsafe_example : Hands unordered_map naturals config true draw 7 one_key
find_or_insert_unsafe_example =
    find_or_insert_unsafe_lem unordered_map naturals config true draw (2 ∷ 4 ∷ []) (6 ∷ 8 ∷ []) 7
      one_key one_key-Owned (record { first = refl; second = refl })

apply_key_example :
    Steps unordered_map naturals (adam whole rates 2) 7 (1 ∷ 2 ∷ []) draw draws trained four
apply_key_example =
    apply_key_lem unordered_map naturals (adam whole rates 2) 7 (1 ∷ 2 ∷ []) draw draws trained four
      trained-Ready four-Ready (adam-Sound whole rates 2) refl

operation_example :
    (t' : Table ℕ (UnorderedMap EmbeddingValue)) × (slots' : List
      (Table ℕ (UnorderedMap EmbeddingValue)))
    × (do_work unordered_map naturals
          (rule_of whole rates 2 group_sparse_apply_adam)
          items
          trained
          four
        ≡ some (t', slots'))
    × Worked unordered_map naturals items trained t'
    × Every (ReadySlot unordered_map naturals) slots'
operation_example =
    operation_lem whole rates 2 unordered_map naturals group_sparse_apply_adam items trained four
      refl (refl, (refl, tt)) trained-Ready four-Ready

abbrev opened_7 : Opened ℕ (UnorderedMap EmbeddingValue)
opened_7 = record {
  table = trained;
  context = record { buf_owner = false; is_valid = true; val = 3; meta = some (entry 7) };
  values = means_row;
}

opened_7-Live : Live unordered_map naturals 7 opened_7.context means_row one_key
unfolding assign
opened_7-Live = record {
  owned = one_key-Owned;
  at = refl;
  borrowed = refl;
  ev = key_7;
  stored = found_7;
  shown = refl;
  shows = refl;
  holds = refl;
}

sparse_group_ftrl_example :
    (actions : List (Action ℕ)) × (slots : List (List (Action ℕ))) × (sparse_group_ftrl whole rates
        2
        (1 ∷ 2 ∷ [])
        means_row
        ((0 ∷ 0 ∷ []) ∷ (0 ∷ 0 ∷ []) ∷ [])
      ≡ some (actions, slots))
    × ((ws : List ℕ)
        → new_row whole rates 2 (1 ∷ 2 ∷ []) means_row (0 ∷ 0 ∷ []) (0 ∷ 0 ∷ []) ≡ some ws
        → (t' : Table ℕ (UnorderedMap EmbeddingValue)) × (run_table unordered_map naturals 7 actions
              opened_7
            ≡ some t')
          × Wrote unordered_map naturals 7 opened_7 actions t'
          × (last_row actions means_row ≡ ws))
    × (new_row whole rates 2 (1 ∷ 2 ∷ []) means_row (0 ∷ 0 ∷ []) (0 ∷ 0 ∷ []) ≡ none
        → run_table unordered_map naturals 7 actions opened_7 ≡ none)
sparse_group_ftrl_example =
    sparse_group_ftrl_lem unordered_map naturals whole rates 2 7 (1 ∷ 2 ∷ []) (0 ∷ 0 ∷ [])
      (0 ∷ 0 ∷ []) opened_7 opened_7-Live

adam_v3-adam_v2_example :
    (actions on_linear on_m on_v on_packed : List (Action ℕ)) × (adam_v2 whole rates 1
        (3 ∷ [])
        (4 ∷ [])
        ((5 ∷ []) ∷ (6 ∷ []) ∷ (7 ∷ []) ∷ [])
      ≡ some (actions, on_linear ∷ on_m ∷ on_v ∷ []))
    × (adam_v3 whole rates 1 1 (3 ∷ []) (4 ∷ []) ((6 ∷ 7 ∷ 5 ∷ []) ∷ [])
        ≡ some (actions, on_packed ∷ []))
    × (last_row on_packed (6 ∷ 7 ∷ 5 ∷ [])
        ≡ last_row on_m (6 ∷ []) ++ (last_row on_v (7 ∷ []) ++ last_row on_linear (5 ∷ [])))
adam_v3-adam_v2_example =
    adam_v3-adam_v2 whole rates 1 1 (3 ∷ []) (4 ∷ []) (6 ∷ []) (7 ∷ []) (5 ∷ []) refl refl refl

check_dim_size_example :
    (check_dim_size (10 ∷ 2 ∷ []) (10 ∷ 2 ∷ []) ≡ true)
    × (adam_v3 whole rates 2 2 (1 ∷ 2 ∷ []) means_row ((0 ∷ 0 ∷ []) ∷ []) ≡ none)
check_dim_size_example =
    check_dim_size-adam_v3 whole rates 2 (10 ∷ 2 ∷ []) 2 (1 ∷ 2 ∷ []) means_row (0 ∷ 0 ∷ []) refl
      (omega arith)
