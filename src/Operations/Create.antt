-- ===== src/Operations/Create.antt =====
-- `CreateKvVariableOp::Compute` (kv_variable_ops.cc) on several threads: the first call creates the
-- variable, and every call waits for the handle. The atomic accesses are steps.
pub mod Once
use tfplus.Common.{ℕ, suc, ◌≡◌, Bool, true, false, Option, none, some, if◌then◌else◌, ◌==◌}

-- where a call is
pub data Progress : Type 0 where
  entered : Progress
  creating : Progress
  waiting : Progress
  returned : (handle : ℕ) → Progress
  -- before the handle is set, and after the wait for it
  failed : Progress
  no_output : Progress

-- The operation's members, the calls by their numbers, whether the resource manager has a variable
-- of the operation's container and name, and how many of that name the operation's calls have made.
pub record Kernel : Type 0 where
  pub init_token : Bool
  pub table_handle_set : Bool
  pub handle : ℕ
  pub calls : ℕ → Progress
  pub registered : Bool
  pub created : ℕ

-- the operation as its constructor leaves it; the variable may be there from another operation
abbrev pub constructed : (registered : Bool) → Kernel
constructed registered = record {
  init_token = false;
  table_handle_set = false;
  handle = 0;
  calls = λ i. entered;
  registered = registered;
  created = 0;
}

abbrev pub move_call : ℕ → Progress → (ℕ → Progress) → ℕ → Progress
move_call i p calls j = if i == j then p else calls j

-- `init_token_.exchange(true)`
unfoldable pub exchange : ℕ → Kernel → Kernel
exchange i k = record k {
  init_token = true;
  calls = move_call i (if k.init_token then waiting else creating) k.calls;
}

-- `LookupOrCreate`, which makes a variable if there is none, `MakeResourceHandle` and the store to
-- `table_handle_set_`; the handle is what the resource manager gives
unfoldable pub create : ℕ → (new_handle : ℕ) → Kernel → Kernel
create i new_handle k = record k {
  table_handle_set = true;
  handle = new_handle;
  calls = move_call i waiting k.calls;
  registered = true;
  created = if k.registered then k.created else suc k.created;
}

-- an `OP_REQUIRES_OK` of the first call that is not met
unfoldable pub give_up : ℕ → Kernel → Kernel
give_up i k = record k { calls = move_call i failed k.calls }

-- the end of `Compute`, by whether `allocate_output` succeeds
abbrev pub finish : (allocated : Bool) → (handle : ℕ) → Progress
finish true handle = returned handle
finish false handle = no_output

-- one round of the loop on `table_handle_set_`, and what follows the last
unfoldable pub look : ℕ → (allocated : Bool) → Kernel → Kernel
look i allocated k = record k {
  calls = move_call i (if k.table_handle_set then finish allocated k.handle else waiting) k.calls;
}

-- a step of one call
pub data Step : Kernel → Kernel → Type 0 where
  exchanged : (i : ℕ) {k : Kernel} → k.calls i ≡ entered → Step k (exchange i k)
  made : (i h : ℕ) {k : Kernel} → k.calls i ≡ creating → Step k (create i h k)
  gave_up : (i : ℕ) {k : Kernel} → k.calls i ≡ creating → Step k (give_up i k)
  looked :
      (i : ℕ) (allocated : Bool) {k : Kernel} → k.calls i ≡ waiting → Step k (look i allocated k)

pub data Steps : Kernel → Kernel → Type 0 where
  here : {k : Kernel} → Steps k k
  next : {k l n : Kernel} → Steps k l → Step l n → Steps k n
