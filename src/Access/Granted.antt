-- ===== src/Access/Granted.antt =====
-- What a key that is let through has passed.

use five_api.Base.{
  ℕ, ◌≡◌, ◌≢◌, ◌≤◌, ◌<◌, refl, sym, ap, ◌∙◌, Bool, true, false, Option, none, some, String, List,
  [], ◌∷◌, arith, ok, err, ◌==◌, ◌⊎◌, inl, inr, Option-cases, Bool-cases, find_first,
}
use five_api.Models.{Tenant, ApiKey}
use five_api.Base.Int.{ℤ, pos, negsuc, eqb_ℤ, ltb_ℤ}
use five_api.Redis.{Redis, Scope, key, tenant, rpm, or_zero}
use five_api.Limits.Rate.{no_limit, check_rpm, rpm_check_script, count_at}
use five_api.Limits.Counts.{check_rpm-counts}
use five_api.Access.{
  Rejected, rpm_limit, tenant_rpm_limit, in_some_network, check_ip_allowed, is_expired,
  find_enabled, check_key_tenant, authenticate_api_key,
}

-- An address that is let in, by the entries of a key: there are none, or it is an address and in the
-- network of one of them.
module _ (is_address : String → Bool) (in_network : String → String → Option Bool)
    (client_ip : String) where
  abbrev pub InSome : List String → Type 0
  InSome [] = ⊥
  InSome (entry ∷ entries) = (in_network entry client_ip ≡ some true) ⊎ InSome entries

  abbrev pub FromHere : List String → Type 0
  FromHere [] = Unit {0}
  FromHere (entry ∷ entries) = (is_address client_ip ≡ true) × InSome (entry ∷ entries)

  in_some_network-InSome :
      (entries : List String)
      → in_some_network is_address in_network entries client_ip ≡ true
      → InSome entries
  unfolding in_some_network
  in_some_network-InSome [] h = cc
  in_some_network-InSome (entry ∷ entries) h = elim (Option-cases (in_network entry client_ip)) [
    | inl bad ↦ inr (in_some_network-InSome entries (ground arith))
    | inr (true, within) ↦ inl within
    | inr (false, without) ↦ inr (in_some_network-InSome entries (ground arith))
  ]

  check_ip_allowed-FromHere :
      (entries : List String)
      → check_ip_allowed is_address in_network entries client_ip ≡ true
      → FromHere entries
  unfolding check_ip_allowed
  check_ip_allowed-FromHere [] h = tt
  check_ip_allowed-FromHere (entry ∷ entries) h =
      (ground arith, in_some_network-InSome (entry ∷ entries) (ground arith))

-- Not expired: a time of expiry, if there is one, is now or later.
abbrev pub Current : ℕ → Option ℕ → Type 0
Current now none = Unit {0}
Current now (some t) = now ≤ t

is_expired-Current :
    (now : ℕ) (expires : Option ℕ) → is_expired expires now ≡ false → Current now expires
is_expired-Current now none h = tt
is_expired-Current now (some t) h = ground (arith, h)

find_enabled-both :
    (id : ℕ) (tenants : List Tenant) (t : Tenant)
    → find_enabled id tenants ≡ some t
    → (find_first (λ (u : Tenant). u.id == id) tenants ≡ some t) × (t.is_enabled ≡ true)
find_enabled-both id tenants t h =
    elim (Option-cases (find_first (λ (u : Tenant). u.id == id) tenants)) [
      | inl missing ↦ absurd (ground arith)
      | inr (u, found) ↦ elim (Bool-cases u.is_enabled) [
        | inl on ↦
            let same : u ≡ t = ground arith in
            (found ∙ ap some same, ap (λ (x : Tenant). x.is_enabled) (sym same) ∙ on)
        | inr off ↦ absurd (ground arith)
      ]
    ]

module _ (r : Redis) where
  open r use {Store, get, incrby, get-incrby}

  -- Fewer requests than a limit that is not negative.
  abbrev pub Below : ℤ → ℤ → Type 0
  Below (pos limit) (pos count) = count < limit
  Below _ _ = Unit {0}

  -- The window of an owner has room for another request.
  abbrev pub HasRoom : Scope → ℕ → ℤ → Store → Type 0
  HasRoom scope id limit s = Below limit (count_at r (rpm scope id) s)

  check_rpm-Below :
      (scope : Scope) (id : ℕ) (limit count : ℤ) (s : Store)
      → (check_rpm r scope id limit s).1 ≡ true
      → count_at r (rpm scope id) s ≡ count
      → Below limit count
  check_rpm-Below scope id (pos limit) (pos count) s h counted =
      let (answer, after) = check_rpm-counts r scope id limit count s counted in
      ground (arith, answer, h)
  check_rpm-Below scope id (pos limit) (negsuc n) s h counted = tt
  check_rpm-Below scope id (negsuc limit) count s h counted = tt

  -- Counting a request of a key leaves the count of a tenant as it was.
  other_scope :
      (id j : ℕ) (d : ℤ) (s : Store)
      → count_at r (rpm tenant j) (incrby (rpm key id) d s) ≡ count_at r (rpm tenant j) s
  other_scope id j d s = rw (get-incrby (rpm key id) (rpm tenant j) d s) refl

  check_rpm-other :
      (id j : ℕ) (limit : ℤ) (s : Store)
      → count_at r (rpm tenant j) (check_rpm r key id limit s).0 ≡ count_at r (rpm tenant j) s
  unfolding check_rpm rpm_check_script
  check_rpm-other id j limit s =
      let k = rpm key id in
      let counted = incrby k (pos 1) s in
      elim (Bool-cases (eqb_ℤ limit no_limit)) [
        | inl unlimited ↦ rw unlimited refl
        | inr limited ↦ elim (Bool-cases (ltb_ℤ limit (or_zero (get k counted)))) [
          | inl full ↦
              rw (limited, full) (other_scope id j (negsuc 0) counted ∙ other_scope id j (pos 1) s)
          | inr free ↦ rw (limited, free) (other_scope id j (pos 1) s)
        ]
      ]

-- `key_of` hashes a raw key and looks its row up.
module _ (r : Redis) (key_of : String → Option ApiKey) (is_address : String → Bool)
    (in_network : String → String → Option Bool) (client_ip : String) (tenants : List Tenant)
    (now : ℕ) where
  open r use {Store}

  -- What holds of a key and its tenant when the key is let through.
  pub record Granted (raw_key : String) (s : Store) (k : ApiKey) (t : Tenant) : Type 0 where
    pub known : key_of raw_key ≡ some k
    pub enabled : k.is_enabled ≡ true
    pub live : k.is_revoked ≡ false
    pub current : Current now k.expires_at
    pub from_here : FromHere is_address in_network client_ip k.allowed_ips
    pub owned : find_first (λ (u : Tenant). u.id == k.tenant_id) tenants ≡ some t
    pub tenant_enabled : t.is_enabled ≡ true
    pub key_room : HasRoom r key k.id k.rpm_limit s
    pub tenant_room : HasRoom r tenant t.id t.rpm_limit s

  passed_all :
      (raw_key : String) (s : Store) (k : ApiKey) (t : Tenant)
      → key_of raw_key ≡ some k
      → find_enabled k.tenant_id tenants ≡ some t
      → k.is_enabled ≡ true
      → k.is_revoked ≡ false
      → is_expired k.expires_at now ≡ false
      → check_ip_allowed is_address in_network k.allowed_ips client_ip ≡ true
      → (check_rpm r key k.id k.rpm_limit s).1 ≡ true
      → (check_rpm r tenant t.id t.rpm_limit (check_rpm r key k.id k.rpm_limit s).0).1 ≡ true
      → Granted raw_key s k t
  passed_all raw_key s k t found owned on unrevoked unexpired here key_rate tenant_rate =
      let (row, enabled) = find_enabled-both k.tenant_id tenants t owned in
      record {
        known = found;
        enabled = on;
        live = unrevoked;
        current = is_expired-Current now k.expires_at unexpired;
        from_here = check_ip_allowed-FromHere is_address in_network client_ip k.allowed_ips here;
        owned = row;
        tenant_enabled = enabled;
        key_room =
            check_rpm-Below r key k.id k.rpm_limit (count_at r (rpm key k.id) s) s key_rate refl;
        tenant_room =
            check_rpm-Below r tenant t.id t.rpm_limit (count_at r (rpm tenant t.id) s)
              (check_rpm r key k.id k.rpm_limit s).0 tenant_rate
              (check_rpm-other r k.id t.id k.rpm_limit s);
      }

  -- A key that is let through is known, enabled and not revoked, its time of expiry is not past, it
  -- is used from an address within an entry of its list, if it has one, its tenant's row is there
  -- and enabled, and before the call the windows of both counted fewer requests than their limits,
  -- where these are not negative.
  pub authenticate_api_key-Granted :
      (raw_key : String) (s s' : Store) (k : ApiKey) (t : Tenant)
      → authenticate_api_key r key_of
          (λ ips. check_ip_allowed is_address in_network ips client_ip)
          tenants
          now
          raw_key
          s
        ≡ (s', ok (k, t))
      → Granted raw_key s k t
  unfolding authenticate_api_key check_key_tenant
  authenticate_api_key-Granted raw_key s s' k t h = elim (Option-cases (key_of raw_key)) [
    | inl unknown ↦ absurd (ground arith)
    | inr (j, found) ↦ elim (Option-cases (find_enabled j.tenant_id tenants)) [
      | inl nobody ↦ absurd (ground arith)
      | inr (u, owned) ↦
          passed_all raw_key s k t (ground arith) (ground arith) (ground arith) (ground arith)
            (ground arith) (ground arith) (ground arith) (ground arith)
    ]
  ]

module _ (r : Redis) (key_of : String → Option ApiKey) (allowed : List String → Bool)
    (tenants : List Tenant) (now : ℕ) where
  open r use {Store}

  -- A key that is turned away for another reason than a rate has not been counted: Redis is as it
  -- was.
  pub authenticate_api_key_uncounted :
      (raw_key : String) (s s' : Store) (e : Rejected)
      → authenticate_api_key r key_of allowed tenants now raw_key s ≡ (s', err e)
      → e ≢ rpm_limit
      → e ≢ tenant_rpm_limit
      → s' ≡ s
  unfolding authenticate_api_key check_key_tenant
  authenticate_api_key_uncounted raw_key s s' e h a b = elim (Option-cases (key_of raw_key)) [
    | inl unknown ↦ ground arith
    | inr (j, found) ↦ elim (Option-cases (find_enabled j.tenant_id tenants)) [
      | inl nobody ↦ ground arith
      | inr (u, owned) ↦ ground arith
    ]
  ]
