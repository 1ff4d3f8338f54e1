-- ===== src/Failover/Passes.antt =====
-- What one pass of the loop over attempts changes.
use five_api.Base.{
  ℕ, suc, ◌-◌, ◌≤◌, ◌<◌, ◌≡◌, refl, ◌⊎◌, Bool, true, false, Option, none, some, arith, length,
  String, inl, inr, Result, ok, err, Bool-cases, leb,
}
use five_api.Redis.{Redis}
use five_api.Lease.{RequestLease}
use five_api.Failover.Errors.{Kind, Failure, is_http_exception, upstream_status, satisfies}
use five_api.Failover.Keys.{Provider, rotate_key, rotated_to, cooldown_for, is_key_status}
use five_api.Failover.Billing.{Desk}
use five_api.Failover.Attempts.{
  Gateway, Answer, Turn, got, rotates, retries, gives_up, try_next_key, record_attempt_failure,
  send_once, after_rotation, after_send, sent_if, dispatch_lease, turn, begun,
}

pub Turn-cases :
    (t : Turn)
    → ((x : Answer) × (t ≡ got x))
      ⊎ (t ≡ rotates)
      ⊎ (t ≡ retries)
      ⊎ ((e : Failure) × (t ≡ gives_up e))
Turn-cases (got x) = inl (x, refl)
Turn-cases rotates = inr (inl refl)
Turn-cases retries = inr (inr (inl refl))
Turn-cases (gives_up e) = inr (inr (inr (e, refl)))

module _ (r : Redis) (g : Gateway) where
  -- A key is changed on the same channel, and only while a rotation is left.
  abbrev pub Rotated : Provider → Kind → ℕ → Desk r → Desk r × Provider × Bool → Type 0
  Rotated p e rotations d (d', p', b) =
      (p'.channel ≡ p.channel)
      × (p'.keys ≡ p.keys)
      × (d'.sends ≡ d.sends)
      × (b ≡ true → rotations < length p.keys - 1)
      × (b ≡ true → satisfies is_key_status (upstream_status e) ≡ true)

  open r use {Store}

  abbrev SameChannel : Provider → Store × Provider × Bool → Type 0
  SameChannel p (s, p', b) = (p'.channel ≡ p.channel) × (p'.keys ≡ p.keys)

  rotated_to-SameChannel :
      (fingerprint session_index : String → ℕ) (key : Option String) (p : Provider) (s : Store)
      → SameChannel p (rotated_to r fingerprint session_index key p s)
  rotated_to-SameChannel fingerprint session_index none p s = (refl, refl)
  rotated_to-SameChannel fingerprint session_index (some key) p s = (refl, refl)

  rotate_key-SameChannel :
      (fingerprint session_index : String → ℕ) (seconds now : ℕ) (p : Provider) (s : Store)
      → SameChannel p (rotate_key r fingerprint session_index seconds now p s)
  unfolding rotate_key
  rotate_key-SameChannel fingerprint session_index seconds now p s =
      elim (Bool-cases (leb (length p.keys) 1)) [
        | inl single ↦ rw single (refl, refl)
        | inr several ↦ rw several (rotated_to-SameChannel fingerprint session_index _ p _)
      ]

  pub try_next_key-Rotated :
      (p : Provider) (e : Kind) (rotations : ℕ) (d : Desk r)
      → Rotated p e rotations d (try_next_key r g p e rotations d)
  unfolding try_next_key
  try_next_key-Rotated p e rotations d = ground (
    arith,
    rotate_key-SameChannel g.fingerprint g.session_index (cooldown_for g.texts e) g.now p d.store,
  )

  pub record_attempt_failure-sends :
      (id : ℕ) (e : Kind) (d : Desk r) → (record_attempt_failure r g id e d).sends ≡ d.sends
  unfolding record_attempt_failure
  record_attempt_failure-sends id e d = ground arith

  module _ (idempotent : Bool) (upstream : ℕ → ℕ → Result Failure Answer) where
    -- What the next pass finds where there is one, and how many sendings there were at most.
    abbrev pub Passes : ℕ → Provider → ℕ → ℕ → Desk r × Provider × Turn → Type 0
    Passes most p attempt rotations (d, p', t) =
        (p'.channel ≡ p.channel)
        × (p'.keys ≡ p.keys)
        × (length d.sends ≤ most)
        × (t ≡ rotates → rotations < length p.keys - 1)
        × (t ≡ retries → attempt < p.channel.max_retries)

    after_rotation-Passes :
        (p : Provider) (attempt rotations : ℕ) (e : Failure) (d : Desk r)
        (x : Desk r × Provider × Bool)
        → Rotated p e.kind rotations d x
        → Passes
            (length d.sends)
            p
            attempt
            rotations
            (after_rotation r g idempotent upstream attempt e x)
    after_rotation-Passes p attempt rotations e d (d', p', true) h = ground arith
    after_rotation-Passes p attempt rotations e d (d', p', false) h =
        ground (arith, record_attempt_failure-sends p'.channel.id e.kind d')

    after_send-Passes :
        (p : Provider) (attempt rotations : ℕ) (x : Desk r × Result Failure Answer)
        → Passes
            (length x.0.sends)
            p
            attempt
            rotations
            (after_send r g idempotent upstream p attempt rotations x)
    after_send-Passes p attempt rotations (d, ok x) = ground arith
    after_send-Passes p attempt rotations (d, err e) =
        elim (Bool-cases (is_http_exception e.kind)) [
          | inl raised ↦ rw raised (ground arith)
          | inr caught ↦ rw caught (
              after_rotation-Passes p attempt rotations e d (try_next_key r g p e.kind rotations d)
                (try_next_key-Rotated p e.kind rotations d))
        ]

    pub dispatch_lease-sends :
        (lease : Option RequestLease) (d d' : Desk r)
        → dispatch_lease r g lease d ≡ ok d'
        → d'.sends ≡ d.sends
    dispatch_lease-sends none d d' h = ground arith
    dispatch_lease-sends (some lease) d d' h = ground arith

    sent_if-most :
        (p : Provider) (d : Desk r) (x : Result Failure (Desk r))
        → dispatch_lease r g d.lease d ≡ x
        → length (sent_if r g idempotent upstream p d x).0.sends ≤ suc (length d.sends)
    sent_if-most p d (err e) h = omega arith
    sent_if-most p d (ok d') h = ground (arith, dispatch_lease-sends d.lease d d' h)

    pub turn-Passes :
        (p : Provider) (attempt rotations : ℕ) (d : Desk r)
        → Passes
            (suc (length d.sends))
            p
            attempt
            rotations
            (turn r g idempotent upstream p attempt rotations d)
    unfolding turn
    turn-Passes p attempt rotations d =
        let start = begun r g p.channel.id d in
        let x = send_once r g idempotent upstream p start in
        ground (arith, sent_if-most p start _ refl, after_send-Passes p attempt rotations x)
