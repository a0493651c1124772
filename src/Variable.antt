-- ===== src/Variable.antt =====
-- tfplus/kv_variable/kernels/kv_variable.h: `class KvVariable`, an embedding table by keys. Parts:
-- the values of a record (Values), lookups (Lookup), updates and removals (Update), and with
-- dynamic_save.hpp and dynamic_restore.hpp the exports (Export, Delta) and imports (Import). The
-- elements `V` are floating-point numbers, which are parameters with the operations that the code
-- applies to rows of them.
pub mod Values
pub mod Lookup
pub mod Update
pub mod Export
pub mod Delta
pub mod Import
pub mod Unsafe
pub mod Reads
use tfplus.Common.{ℕ, ◌≡◌, arith, Bool, true, false, some, List, [], ◌∷◌, ◌==◌, if◌then◌else◌, ltb}
use tfplus.Utility.{get_uint16_from_uint32}
use tfplus.Table.{Store, M}

-- `std::abs(value) >= cutoff_value` at the default cutoff, `(t1 + t2) * V(0.5f)`, and a row of zeros
pub record Floats (V : Type 0) : Type 0 where
  pub exceeds_default : V → Bool
  pub average : List V → List V → List V
  pub zeros : List V

-- the attributes of the variable that its methods on keys read
pub record Config (V : Type 0) : Type 0 where
  pub enter_threshold : ℕ
  pub random_init_table : List (List V)
  pub support_delta_export : Bool

-- `HasLowFrequency`
unfoldable pub has_low_frequency : ℕ → ℕ → Bool
unfolding get_uint16_from_uint32
has_low_frequency enter_threshold frequency =
    ltb (get_uint16_from_uint32 frequency true) enter_threshold

-- `insert` of a concurrent set
unfoldable pub insert_key : ℕ → List ℕ → List ℕ
insert_key k [] = k ∷ []
insert_key k (j ∷ ks) = if j == k then j ∷ ks else j ∷ insert_key k ks

-- `if (NeedDeltaInfo()) train_deltalist_.insert(key)`
unfoldable pub note_delta : {V T : Type 0} → Config V → ℕ → M V T (Unit {0})
unfolding insert_key
note_delta config key s =
    if config.support_delta_export
    then some (tt, record s { train_deltalist = insert_key key s.train_deltalist })
    else some (tt, s)

abbrev pub with_delta : {V T : Type 0} → Config V → ℕ → Store V T → Store V T
with_delta config key s = record s {
  train_deltalist =
      if config.support_delta_export then insert_key key s.train_deltalist else s.train_deltalist;
}

pub note_delta_lem :
    {V T : Type 0} (config : Config V) (key : ℕ) (s : Store V T)
    → note_delta config key s ≡ some (tt, with_delta config key s)
unfolding note_delta
note_delta_lem config key s = ground arith
