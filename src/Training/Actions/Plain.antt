-- ===== src/Training/Actions/Plain.antt =====
-- Assignments, flags and reads on the row of a key that is not in the blacklist (training_ops.cc).
use tfplus.Common.{
  ℕ, ◌≡◌, refl, sym, ◌∙◌, ◌≢◌, Bool, true, false, some, List, [], ◌∷◌, arith, ◌==◌, Bool-cases, inl,
  inr, Option, none, ap, ==_ne, ==_refl,
}
use tfplus.Memory.{Ptr, null, row}
use tfplus.Memory.Access.{load_row-ok, store_row-ok, write-IsFresh}
use tfplus.HashMap.{IMap}
use tfplus.Embedding.Value.{EmbeddingValue}
use tfplus.Embedding.Context.{EvContext, entry}
use tfplus.Table.{Store, load_meta, store_meta}
use tfplus.Table.Ownership.{write-Inv, same_value-Fits}
use tfplus.Table.Owned.{Owned, write-Owned}
use tfplus.Variable.{Floats, Config}
use tfplus.Variable.Values.Steps.{update_under_threshold-ok}
use tfplus.Variable.Values.Overwrite.{copied, rewritten}
use tfplus.Variable.Unsafe.{cover_update_unsafe}
use tfplus.Training.Actions.{Action, assign, cover, blacklist, reread, run_action, run_actions}

-- everything but the blacklist
abbrev pub plain : {V : Type 0} → List (Action V) → Bool
plain [] = true
plain (assign vs ∷ actions) = plain actions
plain (cover ∷ actions) = plain actions
plain (reread ∷ actions) = plain actions
plain (blacklist ∷ _) = false

-- the row after the actions
abbrev pub last_row : {V : Type 0} → List (Action V) → List V → List V
last_row [] vs = vs
last_row (assign ws ∷ actions) vs = last_row actions ws
last_row (cover ∷ actions) vs = last_row actions vs
last_row (reread ∷ actions) vs = last_row actions vs
last_row (blacklist ∷ actions) vs = last_row actions vs

module _ {V T : Type 0} (m : IMap EmbeddingValue T) where
  open m use {find_or_null}

  -- every other key is as it was, with its row
  pub record Elsewhere (key : ℕ) (s s' : Store V T) : Type 0 where
    pub keys : (q : ℕ) → q ≢ key → find_or_null q s'.ev_table ≡ find_or_null q s.ev_table
    pub rows :
        (j : ℕ) (d : EmbeddingValue)
        → j ≢ key
        → find_or_null j s.ev_table ≡ some d
        → d.embedding_val ≢ null
        → s'.heap.cell d.embedding_val ≡ s.heap.cell d.embedding_val

  pub trans-Elsewhere :
      (key : ℕ) (s s₁ s₂ : Store V T)
      → Elsewhere key s s₁
      → Elsewhere key s₁ s₂
      → Elsewhere key s s₂
  trans-Elsewhere key s s₁ s₂ a b = record {
    keys = λ q n. b.keys q n ∙ a.keys q n;
    rows = λ j d n f nz. b.rows j d n (a.keys j n ∙ f) nz ∙ a.rows j d n f nz;
  }

module _ {V T : Type 0} (m : IMap EmbeddingValue T) (floats : Floats V) where
  open m use {find_or_null}

  -- A key whose record is in the table and not in the blacklist, with a context that shows its
  -- value and owns nothing.
  pub record Live (key : ℕ) (c : EvContext) (vs : List V) (s : Store V T) : Type 0 where
    pub owned : Owned m floats.zeros s
    pub at : c.meta ≡ some (entry key)
    pub borrowed : c.buf_owner ≡ false
    pub ev : EmbeddingValue
    pub stored : find_or_null key s.ev_table ≡ some ev
    pub shown : ev.in_black ≡ false
    pub shows : c.val ≡ ev.embedding_val
    pub holds : s.heap.cell c.val ≡ some (row vs)

module _ {V T : Type 0} (m : IMap EmbeddingValue T) (floats : Floats V) (config : Config V) where
  open m use {find_or_null, insert_or_assign}

  assign_lem :
      (key : ℕ) (c : EvContext) (vs ws : List V) (s : Store V T)
      → Live m floats key c vs s
      → (s' : Store V T) × (run_action m floats config c.val key (assign ws) c s ≡ some (c, s'))
        × Live m floats key c ws s'
        × Elsewhere m key s s'
  unfolding run_action
  assign_lem key c vs ws s l =
      let own = l.owned.owned key l.ev l.stored (l.owned.inv.visible key l.ev l.stored l.shown) in
      let nz = l.owned.inv.visible key l.ev l.stored l.shown in
      (
        record s { heap = copied c.val ws s.heap },
        ground (arith, store_row-ok ws s.heap l.holds),
        record {
          owned = record {
            inv = record {
              valid = l.owned.inv.valid;
              fresh = write-IsFresh c.val (row vs) (some (row ws)) s.heap l.owned.inv.fresh l.holds;
              zero =
                  ground (
                    arith,
                    l.owned.inv.zero,
                    l.owned.inv.apart_zero key l.ev l.stored own,
                    l.shows,
                  );
              filled = λ k e f nz'. elim (Bool-cases (e.embedding_val == c.val)) [
                | inl y ↦ (ws, ground arith)
                | inr n ↦ let (us, h) = l.owned.inv.filled k e f nz' in (us, ground arith)
              ];
              visible = l.owned.inv.visible;
              apart_zero = l.owned.inv.apart_zero;
              apart = l.owned.inv.apart;
            };
            owned = l.owned.owned;
          };
          at = l.at;
          borrowed = l.borrowed;
          ev = l.ev;
          stored = l.stored;
          shown = l.shown;
          shows = l.shows;
          holds = ground arith;
        },
        record {
          keys = λ q n. refl;
          rows = λ j d n f nz'.
              ground
                (arith, l.owned.inv.apart key j l.ev d (λ e. n (sym e)) l.stored f own nz, l.shows);
        },
      )

  cover_run :
      (key : ℕ) (c : EvContext) (vs : List V) (s : Store V T)
      → (l : Live m floats key c vs s)
      → run_action m floats config c.val key cover c s
        ≡ some
            (c, record s { ev_table = insert_or_assign key (rewritten floats vs l.ev) s.ev_table })
  unfolding run_action cover_update_unsafe load_meta store_meta
  cover_run key c vs s l =
      let s' : Store V T = record s {
        ev_table = insert_or_assign key (rewritten floats vs l.ev) s.ev_table;
      } in
      ground (
        arith,
        update_under_threshold-ok m floats.exceeds_default c (entry key) l.ev vs s s' l.at,
        l.stored,
        l.shown,
        l.holds,
        l.shows,
        l.owned.inv.visible key l.ev l.stored l.shown,
      )

  cover_lem :
      (key : ℕ) (c : EvContext) (vs : List V) (s : Store V T)
      → Live m floats key c vs s
      → (s' : Store V T) × (run_action m floats config c.val key cover c s ≡ some (c, s'))
        × Live m floats key c vs s'
        × Elsewhere m key s s'
  cover_lem key c vs s l =
      let e = rewritten floats vs l.ev in
      let s' : Store V T = record s { ev_table = insert_or_assign key e s.ev_table } in
      let inv = l.owned.inv in
      let keys : (q : ℕ) → q ≢ key → find_or_null q s'.ev_table ≡ find_or_null q s.ev_table =
        λ q n. rw (m.find-insert q key e s.ev_table inv.valid, ==_ne n) in
      let stored : find_or_null key s'.ev_table ≡ some e =
        m.find-insert key key e s.ev_table inv.valid ∙ rw (==_refl key) in
      (
        s',
        cover_run key c vs s l,
        record {
          owned =
              write-Owned m floats.zeros key e s s' l.owned
                (write-Inv m floats.zeros s.heap s.heap s.ev_table s.zero_val key e inv (
                  same_value-Fits m floats.zeros s.heap s.ev_table s.zero_val key l.ev e inv
                    l.stored refl refl (λ b. b)))
                keys stored (l.owned.owned key l.ev l.stored);
          at = l.at;
          borrowed = l.borrowed;
          ev = e;
          stored = stored;
          shown = l.shown;
          shows = l.shows;
          holds = l.holds;
        },
        record { keys = keys; rows = λ j d n f nz. refl },
      )

  reread_lem :
      (key : ℕ) (c : EvContext) (vs : List V) (s : Store V T)
      → Live m floats key c vs s
      → run_action m floats config c.val key reread c s ≡ some (c, s)
  unfolding run_action
  reread_lem key c vs s l = ground (arith, load_row-ok s.heap l.holds)

  run_actions_step :
      (p : Ptr) (key : ℕ) (a : Action V) (actions : List (Action V)) (c c₁ : EvContext)
      (s s₁ : Store V T)
      → run_action m floats config p key a c s ≡ some (c₁, s₁)
      → run_actions m floats config p key (a ∷ actions) c s
        ≡ run_actions m floats config p key actions c₁ s₁
  unfolding run_actions
  run_actions_step p key a actions c c₁ s s₁ run =
      ap
        (λ (x : Option (EvContext × Store V T)). elim x [
          | none ↦ none
          | some (c₂, s₂) ↦ run_actions m floats config p key actions c₂ s₂
        ])
        run

  -- Assignments, flags and reads on a live key do not fault; the last row assigned is there afterwards, the key
  -- stays live, and no other key changes.
  pub run_plain_lem :
      (key : ℕ) (actions : List (Action V)) (c : EvContext) (vs : List V) (s : Store V T)
      → plain actions ≡ true
      → Live m floats key c vs s
      → (s' : Store V T) × (run_actions m floats config c.val key actions c s ≡ some (c, s'))
        × Live m floats key c (last_row actions vs) s'
        × Elsewhere m key s s'
  unfolding run_actions
  run_plain_lem key [] c vs s p l =
      (s, refl, l, record { keys = λ q n. refl; rows = λ j d n f nz. refl })
  run_plain_lem key (assign ws ∷ actions) c vs s p l =
      let (s₁, run, l₁, e₁) = assign_lem key c vs ws s l in
      let (s₂, run₂, l₂, e₂) = run_plain_lem key actions c ws s₁ p l₁ in
      (
        s₂,
        run_actions_step c.val key _ actions c c s s₁ run ∙ run₂,
        l₂,
        trans-Elsewhere m key s s₁ s₂ e₁ e₂,
      )
  run_plain_lem key (cover ∷ actions) c vs s p l =
      let (s₁, run, l₁, e₁) = cover_lem key c vs s l in
      let (s₂, run₂, l₂, e₂) = run_plain_lem key actions c vs s₁ p l₁ in
      (
        s₂,
        run_actions_step c.val key _ actions c c s s₁ run ∙ run₂,
        l₂,
        trans-Elsewhere m key s s₁ s₂ e₁ e₂,
      )
  run_plain_lem key (blacklist ∷ actions) c vs s p l = cc
  run_plain_lem key (reread ∷ actions) c vs s p l =
      let (s₂, run₂, l₂, e₂) = run_plain_lem key actions c vs s p l in
      (s₂, run_actions_step c.val key _ actions c c s s (reread_lem key c vs s l) ∙ run₂, l₂, e₂)
