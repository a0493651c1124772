-- ===== src/Training/Apply/Ready.antt =====
-- The tables between two keys of a batch (training_ops.cc): what the operations rely on and keep.
use tfplus.Common.{
  ℕ, ◌%◌, ◌<◌, ◌≡◌, refl, sym, ◌∙◌, Bool, false, some, List, arith, length, get_elem?-lt, inl, inr,
  Bool-cases, ◌==◌, ==_iff,
}
use native.Mathlib.Nat.{mod-lt}
use tfplus.Memory.{row}
use tfplus.Memory.Access.{load_row-ok}
use tfplus.HashMap.{IMap}
use tfplus.Embedding.Value.{EmbeddingValue}
use tfplus.Embedding.Context.{EvContext, empty_context}
use tfplus.Table.{Store}
use tfplus.Table.Owned.{Owned}
use tfplus.Variable.{Floats, Config}
use tfplus.Variable.Unsafe.{Draw, find_or_insert_unsafe}
use tfplus.Variable.Unsafe.Insert.{Drawn}
use tfplus.Variable.Unsafe.Find.{find_or_insert_unsafe_lem}
use tfplus.Training.Actions.Plain.{Live, Elsewhere}
use tfplus.Training.Apply.{Table, Opened, open_slot}

-- two rows are drawn from an initial table that is not empty
pub draws :
    {V : Type 0} (config : Config V) (draw : Draw)
    → 0 < length config.random_init_table
    → (t₁ : List V) × (t₂ : List V) × Drawn config draw t₁ t₂
draws config draw pos =
    let table = config.random_init_table in
    let (t₁, e₁) = get_elem?-lt table (draw.rand1 % length table) (mod-lt draw.rand1 pos) in
    let (t₂, e₂) = get_elem?-lt table (draw.rand2 % length table) (mod-lt draw.rand2 pos) in
    (t₁, t₂, record { first = e₁; second = e₂ })

module _ {V T : Type 0} (m : IMap EmbeddingValue T) (floats : Floats V) where
  open m use {find_or_null}

  -- A table whose records own their values, with rows to draw from.
  pub record Ready (t : Table V T) : Type 0 where
    pub owned : Owned m floats.zeros t.store
    pub drawable : 0 < length t.config.random_init_table

  -- the table of a slot, which has no blacklist
  pub record ReadySlot (t : Table V T) : Type 0 where
    pub ready : Ready t
    pub shown :
        (k : ℕ) (e : EmbeddingValue) → find_or_null k t.store.ev_table ≡ some e → e.in_black ≡ false

  -- `vs` is the row of the key, if it has one
  abbrev pub Reads : ℕ → Store V T → List V → Type 0
  Reads key s vs =
      (e : EmbeddingValue) (us : List V)
      → find_or_null key s.ev_table ≡ some e
      → e.in_black ≡ false
      → s.heap.cell e.embedding_val ≡ some (row us)
      → vs ≡ us

  -- a slot after its lookup, and what `values` are
  pub record Opens (key : ℕ) (t : Table V T) (o : Opened V T) : Type 0 where
    pub config : o.table.config ≡ t.config
    pub reads : Reads key t.store o.values
    pub live : Live m floats key o.context o.values o.table.store
    pub elsewhere : Elsewhere m key t.store o.table.store

  open_slot_run :
      (key : ℕ) (draw : Draw) (t : Table V T) (c : EvContext) (filter : Bool) (s' : Store V T)
      (vs : List V)
      → find_or_insert_unsafe m floats t.config false draw key empty_context t.store
        ≡ some ((c, filter), s')
      → s'.heap.cell c.val ≡ some (row vs)
      → open_slot m floats key draw t
        ≡ some (record { table = record t { store = s' }; context = c; values = vs })
  unfolding open_slot
  open_slot_run key draw t c filter s' vs run holds = ground (arith, load_row-ok s'.heap holds)

  pub open_slot_lem :
      (key : ℕ) (draw : Draw) (t : Table V T)
      → ReadySlot t
      → (o : Opened V T) × (open_slot m floats key draw t ≡ some o) × Opens key t o
  open_slot_lem key draw t ok =
      let (t₁, t₂, d) = draws t.config draw ok.ready.drawable in
      let (c, filter, s', run, h) =
        find_or_insert_unsafe_lem m floats t.config false draw t₁ t₂ key t.store ok.ready.owned d in
      (
        record { table = record t { store = s' }; context = c; values = h.vs },
        open_slot_run key draw t c filter s' h.vs run h.holds,
        record {
          config = refl;
          reads = h.same;
          live = record {
            owned = h.owned;
            at = h.at;
            borrowed = h.borrowed;
            ev = h.ev;
            stored = h.stored;
            shown = h.visible (ok.shown key);
            shows = h.shows (h.visible (ok.shown key));
            holds = h.holds;
          };
          elsewhere = record { keys = h.keys; rows = h.rows };
        },
      )

  -- a key that is live, and other keys as they were, leave no key in the blacklist
  pub live-shown :
      (key : ℕ) (c : EvContext) (vs : List V) (s s' : Store V T)
      → Live m floats key c vs s'
      → Elsewhere m key s s'
      → ((k : ℕ) (e : EmbeddingValue) → find_or_null k s.ev_table ≡ some e → e.in_black ≡ false)
      → (k : ℕ) (e : EmbeddingValue) → find_or_null k s'.ev_table ≡ some e
      → e.in_black ≡ false
  live-shown key c vs s s' l o shown k e f = elim (Bool-cases (k == key)) [
    | inl same ↦ ground (arith, (==_iff k key).0 same, l.stored, l.shown)
    | inr differ ↦ shown k e (sym (o.keys k (λ q. ground arith)) ∙ f)
  ]
