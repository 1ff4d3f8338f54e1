-- ===== src/Settlements/Moves.antt =====
-- How an operation may change one reservation.
use mathlib.Core.Option
use five_api.Base.{ℕ, ◌≤◌, ◌≡◌, refl, true, false, Option, none, some, ◌≢◌, arith, String}
use five_api.Models.{
  Settlement, State, reserved, pending, failed, uncertain, released, settled, Payload,
}
use five_api.Settlements.Store.{is_settled, occupies}
use five_api.Settlements.Rows.{weigh}
use five_api.Settlements.Reserve.{to_released, to_dispatched, to_uncertain}
use five_api.Settlements.Usage.{awaits_usage, to_pending}
use five_api.Settlements.Apply.{to_settled, to_retried, to_recorded}
use five_api.Settlements.Operator.{
  is_retryable, is_resolvable, is_priced, to_rescheduled, to_written_off, to_estimated,
}

-- The life of a reservation. Nothing leads out of `settled` and `released`.
infix 40 ◌⟶◌
pub data ◌⟶◌ : State → State → Type 0 where
  stay : {s : State} → s ⟶ s
  use_reserved : reserved ⟶ pending
  use_late : uncertain ⟶ pending
  free : reserved ⟶ released
  lose : reserved ⟶ uncertain
  give_up : pending ⟶ failed
  charge : pending ⟶ settled
  reschedule : failed ⟶ pending
  estimate : uncertain ⟶ pending
  forgive_unknown : uncertain ⟶ released
  forgive_failed : failed ⟶ released

ruleset edges = (
  stay, use_reserved, use_late, free, lose, give_up, charge, reschedule, estimate, forgive_unknown,
  forgive_failed,
)

-- What a row holds against the quotas, by its state: an estimate while the cost is unknown, then the
-- cost itself, and nothing once it is charged or released.
abbrev pub Holds : State → Option ℕ → ℕ → Type 0
Holds reserved cost held = cost ≡ none
Holds uncertain cost held = cost ≡ none
Holds pending none held = Unit
Holds pending (some c) held = held ≡ c
Holds failed none held = Unit
Holds failed (some c) held = held ≡ c
Holds settled cost held = (held ≡ 0) × (cost ≢ none)
Holds released cost held = held ≡ 0

-- The cost that a row has been charged.
abbrev pub charged : Settlement → ℕ
charged s = weigh (is_settled s.state) (Option.get_or s.cost 0)

-- What a row still occupies.
abbrev pub held : Settlement → ℕ
held s = weigh (occupies s.state) s.occupied

-- The row is the same reservation, moved along the diagram, and it still holds what it should.
pub record Moves (s s' : Settlement) : Type 0 where
  pub id_kept : s'.id ≡ s.id
  pub request_kept : s'.request_id ≡ s.request_id
  pub tenant_kept : s'.tenant_id ≡ s.tenant_id
  pub key_kept : s'.api_key_id ≡ s.api_key_id
  pub path : s.state ⟶ s'.state
  pub holding : Holds s.state s.cost s.occupied → Holds s'.state s'.cost s'.occupied

-- The row is not charged by the change.
pub record Uncharged (s s' : Settlement) : Type 0 where
  pub moves : Moves s s'
  pub charged_kept : charged s' ≡ charged s

-- The row holds no more than before.
pub record Within (s s' : Settlement) : Type 0 where
  pub uncharged : Uncharged s s'
  pub held_within : held s' ≤ held s

pub Within-refl : (s : Settlement) → Within s s
Within-refl s = record {
  uncharged = record {
    moves = record {
      id_kept = refl;
      request_kept = refl;
      tenant_kept = refl;
      key_kept = refl;
      path = stay;
      holding = λ h. h;
    };
    charged_kept = refl;
  };
  held_within = omega arith;
}

pub free-Within : (s : Settlement) → s.state ≡ reserved → Within s (to_released s)
free-Within s e = grind (arith, edges)

pub dispatch-Within : (s : Settlement) → Within s (to_dispatched s)
dispatch-Within s = grind (arith, edges)

pub lose-Within :
    (s : Settlement) (reason : String) → s.state ≡ reserved → Within s (to_uncertain reason s)
lose-Within s reason e = grind (arith, edges)

pub retried-Within :
    (s : Settlement) (attempts : ℕ) (error : String) (now : ℕ)
    → s.state ≡ pending
    → Within s (to_retried attempts error now s)
retried-Within s attempts error now e = grind (arith, edges)

pub recorded-Within : (s : Settlement) → Within s (to_recorded s)
recorded-Within s = grind (arith, edges)

pub rescheduled-Within :
    (s : Settlement) → is_retryable s.state ≡ true → Within s (to_rescheduled s)
rescheduled-Within s e = grind (arith, edges)

pub written_off-Within :
    (s : Settlement) (reason : String)
    → is_resolvable s.state ≡ true
    → Within s (to_written_off reason s)
written_off-Within s reason e = grind (arith, edges)

pub estimated-Within :
    (s : Settlement) (payload : Payload)
    → is_resolvable s.state ≡ true
    → is_priced s.cost ≡ false
    → Within s (to_estimated s.occupied payload s)
estimated-Within s payload e f = grind (arith, edges)

pub pending-Uncharged :
    (s : Settlement) (rid : ℕ) (payload : Payload) (cost : Option ℕ) (error : String)
    → awaits_usage rid s ≡ true
    → Uncharged s (to_pending payload cost error s)
pending-Uncharged s rid payload cost error h = grind (arith, edges)

pub settled-Moves :
    (s : Settlement) {c : ℕ} → s.state ≡ pending → s.cost ≡ some c → Moves s (to_settled s)
settled-Moves s e f = grind (arith, edges)
