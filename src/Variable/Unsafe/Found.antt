-- ===== src/Variable/Unsafe/Found.antt =====
-- `FindOrInsertUnsafe` of kv_variable.h at a key that the table holds.
use tfplus.Common.{
  ℕ, ◌≡◌, refl, sym, ◌&&◌, ◌≢◌, ◌∙◌, Bool, true, false, some, arith, if◌then◌else◌, ==_ne, ==_refl,
}
use tfplus.HashMap.{IMap}
use tfplus.Embedding.Value.{EmbeddingValue, add_frequency}
use tfplus.Embedding.Context.{entry, EvContext, empty_context}
use tfplus.Table.{Store, deref, load_meta, store_meta}
use tfplus.Table.Manager.{find_or_insert_with_fn_unsafe}
use tfplus.Table.Ownership.{write-Inv, same_value-Fits}
use tfplus.Table.Owned.{Owned, write-Owned}
use tfplus.Table.Restore.{restored, with_restored, remove_blacklist_run, with_restored-Restored}
use tfplus.Variable.{Floats, Config, has_low_frequency}
use tfplus.Variable.Lookup.Hits.{shown, counted, get_meta_and_value_hit, shown_row}
use tfplus.Variable.Unsafe.{Draw, forward_found, backward_found, find_or_insert_unsafe}
use tfplus.Variable.Unsafe.Handed.{Handed, Hands}

module _ {V T : Type 0} (m : IMap EmbeddingValue T) (floats : Floats V) (config : Config V) where
  open m use {find_or_null, insert_or_assign}

  -- a found record, with the context that `GetMetaAndValue` leaves
  module _ (key : ℕ) (ev : EmbeddingValue) (s : Store V T) (o : Owned m floats.zeros s)
      (found : find_or_null key s.ev_table ≡ some ev) where
    abbrev found_context : EvContext
    found_context = record {
      buf_owner = false;
      is_valid = true;
      val = shown ev s.zero_val;
      meta = some (entry key);
    }

    found_run :
        (forward : Bool) (draw : Draw)
        → find_or_insert_unsafe m floats config forward draw key empty_context s ≡ (
            if forward
            then forward_found m floats config found_context (counted m ev s)
            else backward_found m floats config draw found_context (counted m ev s))
    unfolding find_or_insert_unsafe find_or_insert_with_fn_unsafe
    found_run forward draw =
        ground (arith, get_meta_and_value_hit m key empty_context ev s refl refl found)

    counted-Owned : Owned m floats.zeros (counted m ev s)
    counted-Owned = record { inv = o.inv; owned = o.owned }

    -- the record is handed out as it is
    as_found :
        (forward filter : Bool)
        → (forward ≡ true → filter ≡ false → ev.in_black ≡ false)
        → (filter ≡ true
            → (forward ≡ true) × (has_low_frequency config.enter_threshold ev.freq_val ≡ true))
        → filter ≡ (forward && has_low_frequency config.enter_threshold ev.freq_val)
        → Handed m floats config forward key found_context filter s (counted m ev s)
    as_found forward filter trained filtered decided =
        let (ws, c, _) = shown_row m floats.zeros key ev s o.inv found in
        record {
          owned = counted-Owned;
          at = refl;
          borrowed = refl;
          ev = ev;
          stored = found;
          shows = λ b. ground arith;
          vs = ws;
          holds = c;
          trained = trained;
          filtered = filtered;
          decided = ground (arith, found, decided);
          visible = λ v. v ev found;
          same = λ e' us f b c'. ground (arith, found, c);
          keys = λ q n. refl;
          rows = λ j d n f nz. refl;
        }

    forward_low_run :
        (draw : Draw)
        → has_low_frequency config.enter_threshold ev.freq_val ≡ true
        → forward_found m floats config found_context (counted m ev s)
          ≡ some ((found_context, true), counted m ev s)
    unfolding forward_found deref load_meta
    forward_low_run draw low = ground arith

    pub forward_low :
        (draw : Draw)
        → has_low_frequency config.enter_threshold ev.freq_val ≡ true
        → Hands m floats config true draw key s
    forward_low draw low = (
      found_context,
      true,
      counted m ev s,
      found_run true draw ∙ (forward_low_run draw low),
      as_found true true (λ a. cc) (λ a. (refl, low)) (sym low),
    )

    forward_shown_run :
        (draw : Draw)
        → has_low_frequency config.enter_threshold ev.freq_val ≡ false
        → ev.in_black ≡ false
        → forward_found m floats config found_context (counted m ev s)
          ≡ some ((found_context, false), counted m ev s)
    unfolding forward_found deref load_meta
    forward_shown_run draw high black = ground arith

    pub forward_shown :
        (draw : Draw)
        → has_low_frequency config.enter_threshold ev.freq_val ≡ false
        → ev.in_black ≡ false
        → Hands m floats config true draw key s
    forward_shown draw high black = (
      found_context,
      false,
      counted m ev s,
      found_run true draw ∙ (forward_shown_run draw high black),
      as_found true false (λ a b. black) (λ a. cc) (sym high),
    )

    forward_black_run :
        (draw : Draw)
        → has_low_frequency config.enter_threshold ev.freq_val ≡ false
        → ev.in_black ≡ true
        → forward_found m floats config found_context (counted m ev s)
          ≡ some (
            (record found_context { val = s.heap.next }, false),
            with_restored m floats.zeros key ev (counted m ev s),
          )
    unfolding forward_found deref load_meta
    forward_black_run draw high black = ground (
      arith,
      remove_blacklist_run m floats.zeros key ev found_context (counted m ev s) counted-Owned found,
    )

    pub forward_black :
        (draw : Draw)
        → has_low_frequency config.enter_threshold ev.freq_val ≡ false
        → ev.in_black ≡ true
        → Hands m floats config true draw key s
    forward_black draw high black =
        let r = with_restored-Restored m floats.zeros key ev (counted m ev s) counted-Owned found in
        (
          record found_context { val = s.heap.next },
          false,
          with_restored m floats.zeros key ev (counted m ev s),
          found_run true draw ∙ (forward_black_run draw high black),
          record {
            owned = r.owned;
            at = refl;
            borrowed = refl;
            ev = restored m floats.zeros s.heap ev;
            stored = r.stored;
            shows = λ b. refl;
            vs = floats.zeros;
            holds = r.holds;
            trained = λ a b. refl;
            filtered = λ a. cc;
            decided = ground (arith, found, high);
            visible = λ v. refl;
            same = λ e' us f b c. ground (arith, found, black);
            keys = r.keys;
            rows = r.rows;
          },
        )

    backward_run :
        (draw : Draw)
        → backward_found m floats config draw found_context (counted m ev s)
          ≡ some (
            (found_context, false),
            record (counted m ev s) {
              ev_table = insert_or_assign key (add_frequency 1 draw.day ev) s.ev_table;
            },
          )
    unfolding backward_found deref load_meta store_meta
    backward_run draw = ground arith

    pub backward : (draw : Draw) → Hands m floats config false draw key s
    unfolding add_frequency
    backward draw =
        let e = add_frequency 1 draw.day ev in
        let s₁ = record (counted m ev s) { ev_table = insert_or_assign key e s.ev_table } in
        let stored : find_or_null key s₁.ev_table ≡ some e =
          m.find-insert key key e s.ev_table o.inv.valid ∙ rw (==_refl key) in
        let keys : (q : ℕ) → q ≢ key → find_or_null q s₁.ev_table ≡ find_or_null q s.ev_table =
          λ q n. rw (m.find-insert q key e s.ev_table o.inv.valid, ==_ne n) in
        let inv₁ = write-Inv m floats.zeros s.heap s.heap s.ev_table s.zero_val key e o.inv (
          same_value-Fits m floats.zeros s.heap s.ev_table s.zero_val key ev e o.inv found refl refl
            (λ b. b)) in
        let (ws, c, _) = shown_row m floats.zeros key ev s o.inv found in
        (
          found_context,
          false,
          s₁,
          found_run false draw ∙ backward_run draw,
          record {
            owned = write-Owned m floats.zeros key e s s₁ o inv₁ keys stored (o.owned key ev found);
            at = refl;
            borrowed = refl;
            ev = e;
            stored = stored;
            shows = λ b. ground arith;
            vs = ws;
            holds = c;
            trained = λ a. cc;
            filtered = λ a. cc;
            decided = refl;
            visible = λ v. v ev found;
            same = λ e' us f b c'. ground (arith, found, c);
            keys = keys;
            rows = λ j d n f nz. refl;
          },
        )
