-- ===== src/Table/Owned.antt =====
-- The tables of training (table_manager.h): every value is a buffer that its record owns.
use tfplus.Common.{
  ℕ, ◌<◌, ◌≡◌, sym, ◌≢◌, inl, inr, ◌∙◌, subst, true, some, List, arith, ◌==◌, Bool-cases, ==_iff,
}
use tfplus.Memory.{null}
use tfplus.Memory.Access.{lt_next}
use tfplus.HashMap.{IMap}
use tfplus.Embedding.Value.{EmbeddingValue}
use tfplus.Table.{Store}
use tfplus.Table.Ownership.{Inv}

module _ {V T : Type 0} (m : IMap EmbeddingValue T) (zeros : List V) where
  open m use {find_or_null}

  -- `Inv`, and each record owns its value, if it has one
  pub record Owned (s : Store V T) : Type 0 where
    pub inv : Inv m zeros s.heap s.ev_table s.zero_val
    pub owned :
        (k : ℕ) (e : EmbeddingValue)
        → find_or_null k s.ev_table ≡ some e
        → e.embedding_val ≢ null
        → e.buf_owner ≡ true

  -- a step that leaves every key but one
  pub step-Owned :
      (key : ℕ) (s s' : Store V T)
      → Owned s
      → Inv m zeros s'.heap s'.ev_table s'.zero_val
      → ((q : ℕ) → q ≢ key → find_or_null q s'.ev_table ≡ find_or_null q s.ev_table)
      → ((e : EmbeddingValue)
          → find_or_null key s'.ev_table ≡ some e
          → e.embedding_val ≢ null
          → e.buf_owner ≡ true)
      → Owned s'
  step-Owned key s s' o inv others here = record {
    inv = inv;
    owned = λ k e f nz. elim (Bool-cases (k == key)) [
      | inl same ↦
          here e (subst (λ j. find_or_null j s'.ev_table ≡ some e) ((==_iff k key).0 same) f) nz
      | inr differ ↦ o.owned k e (sym (others k (λ q. ground arith)) ∙ f) nz
    ];
  }

  -- the key's record is known after the step
  pub write-Owned :
      (key : ℕ) (e : EmbeddingValue) (s s' : Store V T)
      → Owned s
      → Inv m zeros s'.heap s'.ev_table s'.zero_val
      → ((q : ℕ) → q ≢ key → find_or_null q s'.ev_table ≡ find_or_null q s.ev_table)
      → find_or_null key s'.ev_table ≡ some e
      → (e.embedding_val ≢ null → e.buf_owner ≡ true)
      → Owned s'
  write-Owned key e s s' o inv others stored own =
      step-Owned key s s' o inv others (λ d f nz. ground (arith, stored, own))

  -- the value of a record has been allocated
  pub below :
      (k : ℕ) (e : EmbeddingValue) (s : Store V T)
      → Inv m zeros s.heap s.ev_table s.zero_val
      → find_or_null k s.ev_table ≡ some e
      → e.embedding_val ≢ null
      → e.embedding_val < s.heap.next
  below k e s inv f nz = let (vs, c) = inv.filled k e f nz in lt_next s.heap inv.fresh c
