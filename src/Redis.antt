-- ===== src/Redis.antt =====
-- Redis, as far as the gateway uses it: a parameter of what uses it. A store maps keys to integers,
-- and to sorted sets, with the documented meaning of SET, INCRBY, DEL, GET, EXISTS and the Z commands; a key that has expired reads as
-- one that is not there, and EXPIRE changes no value. A script runs alone, as EVAL promises.
use five_api.Base.{
  List, [], insert, erase, keep_if, ltb, ℕ, ◌≡◌, refl, Bool, true, false, ◌&&◌, Option, none, some,
  ◌==◌, if◌then◌else◌, String, str_eq,
}
use five_api.Base.Int.{ℤ, pos, ◌+ℤ◌}

-- Whose limit, budget or lease it is.
pub data Scope : Type 0 where
  key tenant : Scope

abbrev pub same_scope : Scope → Scope → Bool
same_scope key key = true
same_scope tenant tenant = true
same_scope _ _ = false

-- The keys that the gateway writes, by their prefix.
pub data RedisKey : Type 0 where
  settled : ℕ → RedisKey
  spend : Scope → ℕ → ℕ → RedisKey
  rpm tpm : Scope → ℕ → RedisKey
  concurrency : Scope → ℕ → RedisKey
  health_fail health_disabled health_cooldown : ℕ → RedisKey
  key_cooling : ℕ → ℕ → RedisKey
  key_turn inflight : ℕ → RedisKey
  sticky : String → RedisKey

abbrev pub same_key : RedisKey → RedisKey → Bool
same_key (settled a) (settled b) = a == b
same_key (spend s a h) (spend t b i) = same_scope s t && (a == b) && (h == i)
same_key (rpm s a) (rpm t b) = same_scope s t && (a == b)
same_key (tpm s a) (tpm t b) = same_scope s t && (a == b)
same_key (concurrency s a) (concurrency t b) = same_scope s t && (a == b)
same_key (health_fail a) (health_fail b) = a == b
same_key (health_disabled a) (health_disabled b) = a == b
same_key (health_cooldown a) (health_cooldown b) = a == b
same_key (key_cooling a f) (key_cooling b g) = (a == b) && (f == g)
same_key (key_turn a) (key_turn b) = a == b
same_key (inflight a) (inflight b) = a == b
same_key (sticky a) (sticky b) = str_eq a b
same_key _ _ = false

abbrev pub or_zero : Option ℤ → ℤ
or_zero none = pos 0
or_zero (some v) = v

abbrev pub is_present : Option ℤ → Bool
is_present none = false
is_present (some v) = true

pub record Redis : Type 1 where
  pub Store : Type 0
  pub get : RedisKey → Store → Option ℤ
  pub set : RedisKey → ℤ → Store → Store
  pub incrby : RedisKey → ℤ → Store → Store
  pub del : RedisKey → Store → Store
  -- The members of a sorted set with their scores, in no order that matters.
  pub zrange : RedisKey → Store → List (ℕ × ℕ)
  pub zadd : RedisKey → ℕ → ℕ → Store → Store
  pub zrem : RedisKey → ℕ → Store → Store
  -- ZREMRANGEBYSCORE from -inf
  pub zremrangebyscore : RedisKey → ℕ → Store → Store
  pub get-set :
      (k j : RedisKey) (v : ℤ) (s : Store)
      → get j (set k v s) ≡ (if same_key k j then some v else get j s)
  pub get-incrby :
      (k j : RedisKey) (d : ℤ) (s : Store)
      → get j (incrby k d s) ≡ (if same_key k j then some (or_zero (get k s) +ℤ d) else get j s)
  pub get-del :
      (k j : RedisKey) (s : Store) → get j (del k s) ≡ (if same_key k j then none else get j s)
  pub zrange-zadd :
      (k j : RedisKey) (score member : ℕ) (s : Store)
      → zrange j (zadd k score member s)
        ≡ (if same_key k j then insert member score (zrange j s) else zrange j s)
  pub zrange-zrem :
      (k j : RedisKey) (member : ℕ) (s : Store)
      → zrange j (zrem k member s)
        ≡ (if same_key k j then erase member (zrange j s) else zrange j s)
  pub zrange-zremrangebyscore :
      (k j : RedisKey) (upto : ℕ) (s : Store)
      → zrange j (zremrangebyscore k upto s)
        ≡ (if same_key k j then keep_if (λ e. ltb upto e.1) (zrange j s) else zrange j s)
  pub zrange-del :
      (k j : RedisKey) (s : Store) → zrange j (del k s) ≡ (if same_key k j then [] else zrange j s)

-- The integers and the sorted sets of a store, as functions, show that the laws can be met.
pub record PlainStore : Type 0 where
  pub ints : RedisKey → Option ℤ
  pub sets : RedisKey → List (ℕ × ℕ)

abbrev pub plain : Redis
plain = record {
  Store = PlainStore;
  get = λ k s. s.ints k;
  set = λ k v s. record s { ints = λ j. if same_key k j then some v else s.ints j };
  incrby = λ k d s. record s {
    ints = λ j. if same_key k j then some (or_zero (s.ints k) +ℤ d) else s.ints j;
  };
  del = λ k s. record {
    ints = λ j. if same_key k j then none else s.ints j;
    sets = λ j. if same_key k j then [] else s.sets j;
  };
  zrange = λ k s. s.sets k;
  zadd = λ k score m s. record s {
    sets = λ j. if same_key k j then insert m score (s.sets j) else s.sets j;
  };
  zrem = λ k m s. record s { sets = λ j. if same_key k j then erase m (s.sets j) else s.sets j };
  zremrangebyscore = λ k upto s. record s {
    sets = λ j. if same_key k j then keep_if (λ e. ltb upto e.1) (s.sets j) else s.sets j;
  };
  get-set = λ k j v s. refl;
  get-incrby = λ k j d s. refl;
  get-del = λ k j s. refl;
  zrange-zadd = λ k j score m s. refl;
  zrange-zrem = λ k j m s. refl;
  zrange-zremrangebyscore = λ k j upto s. refl;
  zrange-del = λ k j s. refl;
}

abbrev pub no_keys : PlainStore
no_keys = record { ints = λ k. none; sets = λ k. [] }
