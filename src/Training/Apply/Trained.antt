-- ===== src/Training/Apply/Trained.antt =====
-- The table that an operation of training_ops.cc trains, after the actions of a sound rule.
use tfplus.Common.{
  ℕ, ◌≡◌, refl, sym, subst, ◌⊎◌, inl, inr, true, some, List, [], ◌∷◌, arith, length,
}
use tfplus.Memory.{null}
use tfplus.HashMap.{IMap}
use tfplus.Embedding.Value.{EmbeddingValue}
use tfplus.Embedding.Context.{EvContext}
use tfplus.Table.{Store}
use tfplus.Table.Owned.{Owned, step-Owned}
use tfplus.Table.Blacklist.{mark_blacklist_unsafe}
use tfplus.Table.Removal.{mark_shown}
use tfplus.Variable.{Floats, Config}
use tfplus.Training.Actions.{Action, blacklist, run_action, run_actions}
use tfplus.Training.Actions.Plain.{Live, Elsewhere, plain, last_row}
use tfplus.Training.Rules.{Rule}
use tfplus.Training.Apply.{Table, Opened, run_table}
use tfplus.Training.Apply.Slots.{Pairwise, run_table_lem, run_table_run}

-- On rows of the right number, the rule writes each slot, and trains the row or puts the key in the
-- blacklist.
abbrev pub Gives : {V : Type 0} → Rule V → List V → List V → List (List V) → Type 0
Gives {V} rule grad var rows =
    (actions : List (Action V)) × (slots : List (List (Action V))) × (rule grad var rows
      ≡ some (actions, slots))
    × ((plain actions ≡ true) ⊎ (actions ≡ blacklist ∷ []))
    × Pairwise (λ a values. plain a ≡ true) slots rows

-- a rule of `n` slots
pub record Sound {V : Type 0} (rule : Rule V) (n : ℕ) : Type 0 where
  pub gives :
      (grad var : List V) (rows : List (List V)) → length rows ≡ n → Gives rule grad var rows

module _ {V T : Type 0} (m : IMap EmbeddingValue T) (floats : Floats V) where
  open m use {find_or_null}

  -- the trained table after the actions on it
  pub record Trained (key : ℕ) (o : Opened V T) (actions : List (Action V)) (t' : Table V T)
      : Type 0 where
    pub config : t'.config ≡ o.table.config
    pub owned : Owned m floats.zeros t'.store
    pub elsewhere : Elsewhere m key o.table.store t'.store
    pub row_after :
        plain actions ≡ true → Live m floats key o.context (last_row actions o.values) t'.store
    pub marked :
        actions ≡ blacklist ∷ []
        → (e : EmbeddingValue) × (find_or_null key t'.store.ev_table ≡ some e)
          × (e.in_black ≡ true)
          × (e.embedding_val ≡ null)

  mark_run :
      (config : Config V) (key : ℕ) (c c' : EvContext) (s s' : Store V T)
      → mark_blacklist_unsafe m key (some c) s ≡ some (some c', s')
      → run_actions m floats config c.val key (blacklist ∷ []) c s ≡ some (c', s')
  unfolding run_actions run_action
  mark_run config key c c' s s' run = ground arith

  mark_table :
      (key : ℕ) (o : Opened V T)
      → Live m floats key o.context o.values o.table.store
      → (t' : Table V T) × (run_table m floats key (blacklist ∷ []) o ≡ some t')
        × Trained key o (blacklist ∷ []) t'
  mark_table key o l =
      let s = o.table.store in
      let (s', run, marked) =
        mark_shown m floats.zeros key l.ev (some o.context) s l.owned.inv (l.at, l.borrowed)
          l.stored l.shown in
      let c' : EvContext = record o.context { val = s.zero_val } in
      (
        record o.table { store = s' },
        run_table_run m floats key (blacklist ∷ []) o c' s'
            (mark_run o.table.config key o.context c' s s' run) l.borrowed,
        record {
          config = refl;
          owned =
              step-Owned m floats.zeros key s s' l.owned marked.inv marked.keys
                (λ e f nz. ground (arith, marked.stored, l.stored, l.shown));
          elsewhere = record { keys = marked.keys; rows = λ j d n f nz. marked.rows j d n f };
          row_after = λ p. cc;
          marked = λ q. (
            _,
            marked.stored,
            ground (arith, l.stored, l.shown),
            ground (arith, l.stored, l.shown),
          );
        },
      )

  pub train_table :
      (key : ℕ) (actions : List (Action V)) (o : Opened V T)
      → (plain actions ≡ true) ⊎ (actions ≡ blacklist ∷ [])
      → Live m floats key o.context o.values o.table.store
      → (t' : Table V T) × (run_table m floats key actions o ≡ some t') × Trained key o actions t'
  train_table key actions o (inl p) l =
      let (t', run, w) = run_table_lem m floats key actions o p l in
      (
        t',
        run,
        record {
          config = w.config;
          owned = w.live.owned;
          elsewhere = w.elsewhere;
          row_after = λ p'. w.live;
          marked = λ q. ground (arith, p, q);
        },
      )
  train_table key actions o (inr q) l =
      subst (λ a. (t' : Table V T) × (run_table m floats key a o ≡ some t') × Trained key o a t')
        (sym q) (mark_table key o l)
