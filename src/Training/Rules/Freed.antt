-- ===== src/Training/Rules/Freed.antt =====
-- The group rules of FTRL (training_ops.cc) read the trained row after they have put its key in the
-- blacklist, which frees it.
use tfplus.Common.{ℕ, ◌≡◌, refl, ◌∙◌, ap, Option, none, some, List, [], ◌∷◌, arith}
use tfplus.Memory.{load_row}
use tfplus.HashMap.{IMap}
use tfplus.Embedding.Value.{EmbeddingValue}
use tfplus.Embedding.Context.{EvContext}
use tfplus.Table.{Store}
use tfplus.Table.Blacklist.{mark_blacklist_unsafe}
use tfplus.Table.Removal.{mark_shown}
use tfplus.Variable.{Floats, Config}
use tfplus.Training.Scalars.{Scalars, group_shrink, l1_shrink}
use tfplus.Training.Actions.{Action, assign, cover, blacklist, reread, run_action, run_actions}
use tfplus.Training.Actions.Plain.{Live, last_row}
use tfplus.Training.Rules.{Rates}
use tfplus.Training.Rules.Ftrl.{next_linear, denominator, sparse_group_ftrl}
use tfplus.Training.Apply.{Table, Opened, run_table}
use tfplus.Training.Apply.Slots.{Wrote, run_table_lem}

-- what COMPUTE_FTRL makes of the row, `none` if it vanishes as a group
abbrev pub new_row :
    {V : Type 0} → Scalars V → Rates V → ℕ → (grad var linear accum : List V) → Option (List V)
new_row r rates inner_dim grad var linear accum =
    group_shrink r rates.l21 inner_dim
      (l1_shrink r rates.l1 (next_linear r rates inner_dim grad var linear accum))
      (denominator r rates inner_dim grad var accum)

module _ {V T : Type 0} (m : IMap EmbeddingValue T) (floats : Floats V) where
  freed_run :
      (config : Config V) (key : ℕ) (rest : List (Action V)) (c c' : EvContext) (s s' : Store V T)
      → mark_blacklist_unsafe m key (some c) s ≡ some (some c', s')
      → s'.heap.cell c.val ≡ none
      → run_actions m floats config c.val key (blacklist ∷ reread ∷ rest) c s ≡ none
  unfolding run_actions run_action load_row
  freed_run config key rest c c' s s' run freed = ground arith

  freed_lem :
      (key : ℕ) (rest : List (Action V)) (o : Opened V T)
      → Live m floats key o.context o.values o.table.store
      → run_table m floats key (blacklist ∷ reread ∷ rest) o ≡ none
  unfolding run_table
  freed_lem key rest o l =
      let s = o.table.store in
      let (s', run, marked) =
        mark_shown m floats.zeros key l.ev (some o.context) s l.owned.inv (l.at, l.borrowed)
          l.stored l.shown in
      let own = l.owned.owned key l.ev l.stored (l.owned.inv.visible key l.ev l.stored l.shown) in
      ground (
        arith,
        freed_run o.table.config key rest o.context (record o.context { val = s.zero_val }) s s' run
            (ap s'.heap.cell l.shows ∙ marked.freed l.ev l.stored l.shown own),
      )

  -- On a key that has been looked up, the rule of the sparse group FTRL with shrinkage trains the row
  -- without a fault if it does not vanish as a group. If it does, the step on the trained table
  -- faults: it reads the row that the blacklist has freed.
  pub sparse_group_ftrl_lem :
      (r : Scalars V) (rates : Rates V) (inner_dim : ℕ) (key : ℕ) (grad linear accum : List V)
      (o : Opened V T)
      → Live m floats key o.context o.values o.table.store
      → (actions : List (Action V)) × (slots : List (List (Action V))) × (sparse_group_ftrl r rates
            inner_dim grad o.values
            (linear ∷ accum ∷ [])
          ≡ some (actions, slots))
        × ((ws : List V)
            → new_row r rates inner_dim grad o.values linear accum ≡ some ws
            → (t' : Table V T) × (run_table m floats key actions o ≡ some t')
              × Wrote m floats key o actions t'
              × (last_row actions o.values ≡ ws))
        × (new_row r rates inner_dim grad o.values linear accum ≡ none
            → run_table m floats key actions o ≡ none)
  unfolding sparse_group_ftrl
  sparse_group_ftrl_lem r rates inner_dim key grad linear accum o l = (
    _,
    _,
    refl,
    λ ws e.
        let (t', run, w) = run_table_lem m floats key (assign ws ∷ cover ∷ reread ∷ []) o refl l in
        rw e (t', run, w, refl),
    λ e. rw e (freed_lem key [] o l),
  )
