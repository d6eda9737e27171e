-- ===== src/Storage/Edges.antt =====
-- The state machine that the contract documents (minos/storage/storage.go, TransitionTask).
use zakros.Base.{◌≡◌, true, arith}
use zakros.Storage.{State, queued, running, awaiting_review, completed, failed}
use zakros.Storage.Memstore.{valid_transition}

pub data Edge : State → State → Type 0 where
  dispatched : Edge queued running
  dispatch_failed : Edge queued failed
  hibernated : Edge running awaiting_review
  merged_running : Edge running completed
  broke : Edge running failed
  respawned : Edge awaiting_review running
  merged : Edge awaiting_review completed
  abandoned : Edge awaiting_review failed

ruleset edges =
    (dispatched, dispatch_failed, hibernated, merged_running, broke, respawned, merged, abandoned)

pub valid_transition-Edge : (a b : State) → valid_transition a b ≡ true → Edge a b
unfolding valid_transition
valid_transition-Edge a b h = grind (arith, edges)

pub Edge-valid_transition : {a b : State} → Edge a b → valid_transition a b ≡ true
unfolding valid_transition
Edge-valid_transition dispatched = ground arith
Edge-valid_transition _ = ground arith
