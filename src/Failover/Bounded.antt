-- ===== src/Failover/Bounded.antt =====
-- The loop over attempts ends, and how often it sends at most.
use five_api.Base.{
  ℕ, zero, suc, ◌+◌, ◌-◌, ◌≤◌, ◌<◌, ◌≡◌, refl, ap, ◌∙◌, Bool, ltb, ◌&&◌, not, Option, arith, length,
  String, inl, inr, Result, Bool-cases,
}
use five_api.Redis.{Redis}
use five_api.Failover.Errors.{Failure}
use five_api.Failover.Keys.{Provider, select_key, has_ready_key}
use five_api.Failover.Billing.{Desk}
use five_api.Failover.Attempts.{
  Gateway, Answer, Turn, got, rotates, retries, gives_up, turn, Loop, answered, broke, spinning,
  send_loop, try_channel, enough, loop_from, next_pass,
}
use five_api.Failover.Passes.{Passes, turn-Passes}

module _ (r : Redis) (g : Gateway) (idempotent : Bool)
    (upstream : ℕ → ℕ → Result Failure Answer) where
  -- The loop has ended, with at most so many sendings.
  abbrev pub EndsWithin : ℕ → Loop r g idempotent upstream → Type 0
  EndsWithin most (answered d p x) = length d.sends ≤ most
  EndsWithin most (broke d p e) = length d.sends ≤ most
  EndsWithin most spinning = ⊥

  abbrev left : Provider → ℕ → ℕ → ℕ
  left p attempt rotations = (p.channel.max_retries - attempt) + (length p.keys - 1 - rotations)

  EndsWithin-le :
      (m n : ℕ) (l : Loop r g idempotent upstream) → m ≤ n → EndsWithin m l → EndsWithin n l
  EndsWithin-le m n (answered d p x) le h = omega arith
  EndsWithin-le m n (broke d p e) le h = omega arith
  EndsWithin-le m n spinning le h = h

  left-same :
      (p p' : Provider) (attempt rotations : ℕ)
      → p'.channel ≡ p.channel
      → p'.keys ≡ p.keys
      → left p' attempt rotations ≡ left p attempt rotations
  left-same p p' attempt rotations c k =
      ap (λ ch. (ch.max_retries - attempt) + (length p'.keys - 1 - rotations)) c
      ∙ ap (λ ks. (p.channel.max_retries - attempt) + (length ks - 1 - rotations)) k

  next_pass-EndsWithin :
      (most n : ℕ) (p : Provider) (attempt rotations : ℕ)
      (rotated retried : Desk r → Provider → Loop r g idempotent upstream)
      (x : Desk r × Provider × Turn)
      → most ≤ n
      → Passes r g idempotent upstream most p attempt rotations x
      → (rotations < length p.keys - 1 → EndsWithin n (rotated x.0 x.1))
      → (attempt < p.channel.max_retries → EndsWithin n (retried x.0 x.1))
      → EndsWithin n (next_pass r g idempotent upstream rotated retried x)
  next_pass-EndsWithin most n p a k rotated retried (d, p', got x) le h f1 f2 = omega arith
  next_pass-EndsWithin most n p a k rotated retried (d, p', rotates) le h f1 f2 = f1 (h.3 refl)
  next_pass-EndsWithin most n p a k rotated retried (d, p', retries) le h f1 f2 = f2 (h.4 refl)
  next_pass-EndsWithin most n p a k rotated retried (d, p', gives_up e) le h f1 f2 = omega arith

  send_loop-EndsWithin :
      (fuel : ℕ) (p : Provider) (attempt rotations : ℕ) (d : Desk r)
      → left p attempt rotations < fuel
      → EndsWithin
          (length d.sends + fuel)
          (send_loop r g idempotent upstream fuel p attempt rotations d)
  unfolding send_loop
  send_loop-EndsWithin zero p attempt rotations d h = absurd (omega arith)
  send_loop-EndsWithin (suc fuel) p attempt rotations d h =
      let x = turn r g idempotent upstream p attempt rotations d in
      let most = length d.sends + suc fuel in
      let passes = turn-Passes r g idempotent upstream p attempt rotations d in
      next_pass-EndsWithin (suc (length d.sends)) most p attempt rotations
        (λ d' p'. send_loop r g idempotent upstream fuel p' attempt (suc rotations) d')
        (λ d' p'. send_loop r g idempotent upstream fuel p' (suc attempt) rotations d') x
        (omega arith) passes
        (λ fits.
          let rest = left-same p x.1 attempt (suc rotations) passes.0 passes.1 in
          EndsWithin-le (length x.0.sends + fuel) most _ (omega arith)
            (send_loop-EndsWithin fuel x.1 attempt (suc rotations) x.0 (omega arith)))
        (λ fits.
          let rest = left-same p x.1 (suc attempt) rotations passes.0 passes.1 in
          EndsWithin-le (length x.0.sends + fuel) most _ (omega arith)
            (send_loop-EndsWithin fuel x.1 (suc attempt) rotations x.0 (omega arith)))

  select_key-same :
      (session : Option String) (p : Provider) (d : Desk r)
      → let (s, p') = select_key r g.fingerprint g.session_index session p d.store in
        (p'.channel ≡ p.channel) × (p'.keys ≡ p.keys)
  unfolding select_key
  select_key-same session p d = ground arith

  loop_from-EndsWithin :
      (p : Provider) (d : Desk r) (x : r.Store × Provider)
      → x.1.channel ≡ p.channel
      → x.1.keys ≡ p.keys
      → EndsWithin
          (length d.sends + p.channel.max_retries + length p.keys + 1)
          (loop_from r g idempotent upstream d x)
  loop_from-EndsWithin p d (s, p') c k =
      let retries_same = ap (λ ch. ch.max_retries) c in
      let keys_same = ap length k in
      EndsWithin-le (length d.sends + enough r g idempotent upstream p') _ _ (omega arith) (
        send_loop-EndsWithin (enough r g idempotent upstream p') p' 0 0 (record d { store = s })
          (omega arith))

  -- The attempts at one channel end, and they send the request at most as often as the channel has
  -- retries and keys, and once more.
  pub try_channel-EndsWithin :
      (session : Option String) (p : Provider) (d : Desk r)
      → EndsWithin
          (length d.sends + p.channel.max_retries + length p.keys + 1)
          (try_channel r g idempotent upstream session p d)
  unfolding try_channel
  try_channel-EndsWithin session p d =
      let (c, k) = select_key-same session p d in
      elim (Bool-cases (ltb 1 (length p.keys) && not g.redis_up)) [
        | inl away ↦ rw away (omega arith)
        | inr asked ↦ elim (Bool-cases (has_ready_key r g.fingerprint g.session_index p d.store)) [
          | inl ready ↦ rw (asked, ready) (loop_from-EndsWithin p d _ c k)
          | inr cooling ↦ rw (asked, cooling) (omega arith)
        ]
      ]
