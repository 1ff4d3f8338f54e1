-- ===== src/Settlements/Kinds.antt =====
-- Every step is of one of four kinds.
use five_api.Base.{ℕ, ◌≡◌, sym, inl, inr}
use mathlib.Core.Path.{subst}
use five_api.Models.{ApiKey, Settlement, Quotes}
use five_api.Settlements.Store.{Db}
use five_api.Settlements.Moves.{Uncharged, Within}
use five_api.Settlements.Effects.{
  unchanged, release-Within, abandon-Within, mark_dispatched-Within, mark_pending-Uncharged,
  note_failure-Within, recover_orphans-Within, records-Within, retry-Within, resolve-Within,
}
use five_api.Settlements.Outcomes.{Admitted, reserve-Admitted, Charged, settle-cases}
use five_api.Settlements.Steps.{
  Step, reserves, releases, dispatches, abandons, reports, settles, fails, takes_over, records,
  retries, resolves, IsSound, Rewritten,
}

-- The four kinds of steps.
pub data Effect (db db' : Db) : Type 0 where
  quiet : Rewritten Within db db' → Effect db db'
  usage : Rewritten Uncharged db db' → Effect db db'
  admitted :
      (rid : ℕ) (k : ApiKey) (amount : ℕ) (quotes : Quotes) (owner now : ℕ)
      → Admitted rid k amount quotes owner now db db'
      → Effect db db'
  charged : (rid : ℕ) → Charged rid db db' → Effect db db'

pub by_equation :
    (P : Settlement → Settlement → Type 0) (db d db' : Db)
    → db' ≡ d
    → Rewritten P db d
    → Rewritten P db db'
by_equation P db d db' e h = subst (Rewritten P db) (sym e) h

pub Step-Effect : (db db' : Db) → IsSound db → Step db db' → Effect db db'
Step-Effect db db' v (reserves rid k amount quotes owner now h) =
    admitted rid k amount quotes owner now (reserve-Admitted rid k amount quotes owner now db db' h)
Step-Effect db db' v (releases rid h) =
    quiet (by_equation Within db _ db' h (release-Within rid db))
Step-Effect db db' v (dispatches rid h) = quiet (mark_dispatched-Within rid db db' h)
Step-Effect db db' v (abandons rid h) =
    quiet (by_equation Within db _ db' h (abandon-Within rid db))
Step-Effect db db' v (reports redact rid payload cost error h) =
    usage (mark_pending-Uncharged redact rid payload cost error db db' h)
Step-Effect db db' v (settles save_error rid owners done h) =
    elim (settle-cases save_error rid owners db db' done h) [
      | inl (idle, e) ↦ quiet (unchanged db db' e)
      | inr (did, c) ↦ charged rid c
    ]
Step-Effect db db' v (fails rid error now h) = quiet (note_failure-Within rid error now db db' h)
Step-Effect db db' v (takes_over live me now stale h) =
    quiet (by_equation Within db _ db' h (recover_orphans-Within live me now stale db))
Step-Effect db db' v (records i h) = quiet (by_equation Within db _ db' h (records-Within i db))
Step-Effect db db' v (retries i h) = quiet (retry-Within i db db' v.distinct h)
Step-Effect db db' v (resolves estimated i action reason h) =
    quiet (resolve-Within estimated i action reason db db' v.distinct h)
