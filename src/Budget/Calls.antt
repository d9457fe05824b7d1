-- ===== src/Budget/Calls.antt =====
-- Sequences of method calls on one ledger. The lock makes each call of any thread one step, so an
-- execution of several threads is a list of calls.
use prompt_performance_engin.Prelude.{List, [], ◌∷◌, String}
use prompt_performance_engin.Prelude.Value.{Value}
use prompt_performance_engin.Budget.Ledger.{Ledger, reserve, cancel_before_call, settle}

-- A call of one of the methods that change the ledger.
pub data Call : Type 0 where
  reserving : Value → Value → String → Call
  cancelling : String → Value → Call
  settling : String → Value → String → Value → Value → Call

-- What a call leaves behind, whether it returns or raises.
unfoldable pub after : Call → Ledger → Ledger
after (reserving id maximums token) l = (reserve id maximums token l).1
after (cancelling id token) l = (cancel_before_call id token l).1
after (settling id actuals status receipt token) l = (settle id actuals status receipt token l).1

-- The calls of all threads, in the order in which they take the lock.
unfoldable pub run : List Call → Ledger → Ledger
unfolding after
run [] l = l
run (c ∷ rest) l = run rest (after c l)
