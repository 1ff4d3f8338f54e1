-- ===== src/Lease/Closing.antt =====
-- A lease ends once.
use five_api.Base.{ℕ, ◌≡◌, Bool, arith, Bool-cases, inl, inr}
use five_api.Redis.{Redis}
use five_api.Lease.{RequestLease, World, finish, release}

module _ (r : Redis) (redis_up db_up : Bool) where
  open r use {Store}

  -- A lease that was released stays as it is: releasing it again or finishing it changes neither
  -- the tables nor Redis.
  pub release-once :
      (redis_up' db_up' : Bool) (actual : ℕ) (lease : RequestLease) (w : World r)
      → let (ended, w') = release r redis_up db_up lease w in
        (release r redis_up' db_up' ended w' ≡ (ended, w'))
        × (finish r redis_up' actual ended w'.store ≡ (ended, w'.store))
  unfolding release finish
  release-once redis_up' db_up' actual lease w = elim (Bool-cases lease.closed) [
    | inl over ↦ rw over (ground arith, ground arith)
    | inr live ↦ rw live (ground arith, ground arith)
  ]

  -- A lease that was finished stays as it is: releasing it or finishing it again changes neither
  -- the tables nor Redis.
  pub finish-once :
      (redis_up' db_up' : Bool) (actual actual' : ℕ) (lease : RequestLease) (w : World r)
      → let (ended, s) = finish r redis_up actual lease w.store in
        let w' : World r = record w { store = s } in
        (release r redis_up' db_up' ended w' ≡ (ended, w'))
        × (finish r redis_up' actual' ended s ≡ (ended, s))
  unfolding release finish
  finish-once redis_up' db_up' actual actual' lease w = elim (Bool-cases lease.closed) [
    | inl over ↦ rw over (ground arith, ground arith)
    | inr live ↦ rw live (ground arith, ground arith)
  ]
