-- ===== src/Tests/Create.antt =====
-- The theorems on the creation of a variable (kv_variable_ops.cc) at concrete runs.
use tfplus.Common.{true, false, ◌≡◌, ◌≢◌, refl}
use tfplus.Operations.Create.{
  Kernel, returned, waiting, failed, constructed, exchange, create, give_up, look, Steps, here,
  next, exchanged, made, gave_up, looked,
}
use tfplus.Operations.Create.Once.{count, once_lem}

-- two calls: the first creates the variable 5, the second looks before and after, and the
-- first gets no output
abbrev both_entered : Kernel
both_entered = exchange 1 (exchange 0 (constructed false))

abbrev both_back : Kernel
both_back = look 1 true (look 0 false (create 0 5 (look 1 true both_entered)))

both_run : Steps (constructed false) both_back
unfolding exchange create look
both_run =
    next
      (next
        (next (next (next (next here (exchanged 0 refl)) (exchanged 1 refl)) (looked 1 true refl))
          (made 0 5 refl))
        (looked 0 false refl))
      (looked 1 true refl)

second_back : both_back.calls 1 ≡ returned 5
unfolding exchange create look
second_back = refl

once_example :
    (count false both_back.created ≡ 1) × (5 ≡ both_back.handle) × (both_back.calls 0 ≢ failed)
once_example = once_lem false both_back 1 0 5 both_run second_back

-- the first call fails
abbrev given_up : Kernel
given_up = give_up 0 both_entered

given_up_run : Steps (constructed false) given_up
unfolding exchange give_up
given_up_run = next (next (next here (exchanged 0 refl)) (exchanged 1 refl)) (gave_up 0 refl)

first_failed : given_up.calls 0 ≡ failed
unfolding exchange give_up
first_failed = refl

-- the second looks again and again
second_waits : (look 1 true given_up).calls 1 ≡ waiting
unfolding exchange give_up look
second_waits = refl
