-- ===== src/Interface/Reach/Invariant.antt =====
-- What every step keeps, and which step on sets it is.
use kytos.Interface.Given.{Given}
use kytos.Interface.State.{State}
use kytos.Interface.Reach.{Operation, allowed, used, SetStep}
use kytos.Interface.Reach.Pools.{Pool}

-- The invariant afterwards, and the step on sets.
abbrev pub Moved : Operation → State → State → Type 0
Moved op s s' = Pool s' × SetStep op (allowed s) (used s) (allowed s') (used s')
