-- ===== src/Settlements/Quota.antt =====
-- A quota is kept by any interleaving of operations whose reports cost no more than was held.
use mathlib.Core.Option
use five_api.Base.{ℕ, ◌≤◌, ◌≡◌, ap, ◌∙◌, true, some, arith, Option, ok, inl, inr, String}
use five_api.Base.Int.{pos}
use five_api.Models.{Settlement, Payload}
use five_api.Redis.{Scope}
use five_api.Settlements.Store.{Db}
use five_api.Settlements.Usage.{mark_pending, awaits_usage, to_pending}
use five_api.Settlements.Rows.{All, All-map}
use five_api.Settlements.Moves.{Within, Within-refl, pending-Uncharged}
use five_api.Settlements.Effects.{
  unchanged, rewrite-All, release-Within, abandon-Within, mark_dispatched-Within,
  note_failure-Within, recover_orphans-Within, records-Within, retry-Within, resolve-Within,
}
use five_api.Settlements.Outcomes.{reserve-Admitted, settle-cases}
use five_api.Settlements.Steps.{
  Step, reserves, releases, dispatches, abandons, reports, settles, fails, takes_over, records,
  retries, resolves, IsSound, Rewritten,
}
use five_api.Settlements.Kinds.{Effect, quiet, usage, admitted, charged, Step-Effect, by_equation}
use five_api.Settlements.Soundness.{Step-IsSound}
use five_api.Settlements.Accounts.{quota_of, quota_of_same, exposure}
use five_api.Settlements.Ledger.{quota_of-Charged}
use five_api.Settlements.Budget.{quiet_bound, Charged-exposure, Admitted_bound}

abbrev WithinEstimate : ℕ → Option ℕ → Settlement → Type 0
WithinEstimate rid cost s = awaits_usage rid s ≡ true → Option.get_or cost 0 ≤ s.occupied

-- A report of usage costs no more than was held for the request.
abbrev pub KeepsToEstimate : (db db' : Db) → Step db db' → Type 0
KeepsToEstimate db db' (reports redact rid payload cost error h) =
    All (WithinEstimate rid cost) db.settlements
KeepsToEstimate db db' _ = Unit

-- Operations in any order, whose reports keep to the estimates.
pub data Frugal (db : Db) : Db → Type 0 where
  still : Frugal db db
  go :
      {mid db' : Db}
      → Frugal db mid
      → (s : Step mid db') → KeepsToEstimate mid db' s
      → Frugal db db'

estimate-Within :
    (redact : Payload → Payload) (rid : ℕ) (payload : Payload) (cost : Option ℕ) (error : String)
    (s : Settlement)
    → WithinEstimate rid cost s
    → awaits_usage rid s ≡ true
    → Within s (to_pending (redact payload) cost error s)
estimate-Within redact rid payload cost error s h e = record {
  uncharged = pending-Uncharged s rid (redact payload) cost error e;
  held_within = ground (arith, h e);
}

mark_pending-Within :
    (redact : Payload → Payload) (rid : ℕ) (payload : Payload) (cost : Option ℕ) (error : String)
    (db db' : Db)
    → mark_pending redact rid payload cost error db ≡ ok db'
    → All (WithinEstimate rid cost) db.settlements
    → Rewritten Within db db'
unfolding mark_pending
mark_pending-Within redact rid payload cost error db db' h a =
    rewrite-All Within (awaits_usage rid) (to_pending (redact payload) cost error) db db'
      (ground arith) Within-refl
      (All-map (WithinEstimate rid cost)
        (λ s. awaits_usage rid s ≡ true → Within s (to_pending (redact payload) cost error s))
        db.settlements (λ s. estimate-Within redact rid payload cost error s) a)

module _ (scope : Scope) (o quota : ℕ) where
  -- The owner's quota, and that it covers what is spent and held.
  abbrev pub KeepsQuota : Db → Type 0
  KeepsQuota db = (quota_of scope o db ≡ some (pos quota)) × (exposure scope o db ≤ quota)

  Effect-quota_of : (db db' : Db) → Effect db db' → quota_of scope o db' ≡ quota_of scope o db
  Effect-quota_of db db' (quiet h) = quota_of_same scope o db db' h.0 h.1
  Effect-quota_of db db' (usage h) = quota_of_same scope o db db' h.0 h.1
  Effect-quota_of db db' (admitted rid k amount quotes owner now a) =
      quota_of_same scope o db db' (ap (λ (d : Db). d.tenants) a.result)
        (ap (λ (d : Db). d.keys) a.result)
  Effect-quota_of db db' (charged rid c) = quota_of-Charged rid db db' c scope o

  kept : (db db' : Db) → Rewritten Within db db' → KeepsQuota db → exposure scope o db' ≤ quota
  kept db db' h k = omega (arith, quiet_bound scope o db db' h, k.1)

  Step-bound :
      (db db' : Db) (s : Step db db')
      → KeepsToEstimate db db' s
      → IsSound db
      → KeepsQuota db
      → exposure scope o db' ≤ quota
  Step-bound db db' (reserves rid k amount quotes owner now h) e v q =
      Admitted_bound rid k amount quotes owner now db db'
        (reserve-Admitted rid k amount quotes owner now db db' h) scope o quota q.0 q.1
  Step-bound db db' (releases rid h) e v q =
      kept db db' (by_equation Within db _ db' h (release-Within rid db)) q
  Step-bound db db' (dispatches rid h) e v q = kept db db' (mark_dispatched-Within rid db db' h) q
  Step-bound db db' (abandons rid h) e v q =
      kept db db' (by_equation Within db _ db' h (abandon-Within rid db)) q
  Step-bound db db' (reports redact rid payload cost error h) e v q =
      kept db db' (mark_pending-Within redact rid payload cost error db db' h e) q
  Step-bound db db' (settles save_error rid owners done h) e v q =
      elim (settle-cases save_error rid owners db db' done h) [
        | inl (idle, same) ↦ kept db db' (unchanged db db' same) q
        | inr (did, c) ↦ omega (arith, Charged-exposure scope o rid db db' v c, q.1)
      ]
  Step-bound db db' (fails rid error now h) e v q =
      kept db db' (note_failure-Within rid error now db db' h) q
  Step-bound db db' (takes_over live me now stale h) e v q =
      kept db db' (by_equation Within db _ db' h (recover_orphans-Within live me now stale db)) q
  Step-bound db db' (records i h) e v q =
      kept db db' (by_equation Within db _ db' h (records-Within i db)) q
  Step-bound db db' (retries i h) e v q = kept db db' (retry-Within i db db' v.distinct h) q
  Step-bound db db' (resolves estimated i action reason h) e v q =
      kept db db' (resolve-Within estimated i action reason db db' v.distinct h) q

  -- From a sound state in which the quota of an owner covers what is spent and held, any operations
  -- whose reports cost no more than was held lead to such a state again.
  pub Frugal-KeepsQuota :
      (db db' : Db) → Frugal db db' → IsSound db → KeepsQuota db → IsSound db' × KeepsQuota db'
  Frugal-KeepsQuota db db' still v q = (v, q)
  Frugal-KeepsQuota db db' (go {mid} r s e) v q =
      let (w, k) = Frugal-KeepsQuota db mid r v q in
      (
        Step-IsSound mid db' w s,
        (Effect-quota_of mid db' (Step-Effect mid db' w s) ∙ k.0, Step-bound mid db' s e w k),
      )
