-- ===== src/Dkit/Redis/Atomic.antt =====
-- `RedisAtomic` of src/core_py/dkit/redis.py: its keys and its unique numbers. `show` is `str` on a
-- number; Base64 is the standard library's.
use core_py.Base.{
  ℕ, zero, suc, ◌+◌, ◌%◌, ◌<◌, true, none, some, [], ◌∷◌, ◌++◌, if◌then◌else◌, ◌==◌, Result, ok,
  err, ◌≡◌, refl, ◌⊎◌, inl, inr, Option-cases, arith,
}
use core_py.Base.Text.{Str, codes, is_empty, or_else}
use core_py.Base.Int.{ℤ, pos, negsuc}
use core_py.Dkit.Errors.{DkitError, no_available_number}
use core_py.Dkit.Redis.{Client, ttl_ms, RedisMutex}
use core_py.Dkit.Redis.Store.{IsStore}
use native.Mathlib.Nat.{mod-lt}

-- `value.strip(c)` and `value.rstrip(c)`
abbrev pub lstrip_char : ℕ → Str → Str
lstrip_char c [] = []
lstrip_char c (d ∷ s) = if d == c then lstrip_char c s else d ∷ s

abbrev rstrip_cons_char : ℕ → ℕ → Str → Str
rstrip_cons_char c d [] = if d == c then [] else d ∷ []
rstrip_cons_char c d (e ∷ s) = d ∷ e ∷ s

abbrev pub rstrip_char : ℕ → Str → Str
rstrip_char c [] = []
rstrip_char c (d ∷ s) = rstrip_cons_char c d (rstrip_char c s)

abbrev pub default_key_prefix : Str
default_key_prefix = codes "dkit"

-- `key_prefix.strip(":") or "dkit"`
unfoldable pub prefix_of : Str → Str
prefix_of key_prefix = or_else (rstrip_char b':' (lstrip_char b':' key_prefix)) default_key_prefix

unfoldable pub mutex_key : Str → Str → Str
mutex_key key_prefix key = key_prefix ++ (codes ":mutex:" ++ key)

-- `_encode_component`, over the encoding that Base64 gives.
unfoldable pub encode_component : (Str → Str) → Str → Str
encode_component urlsafe_b64encode value =
    if is_empty value then [] else rstrip_char b'=' (urlsafe_b64encode value)

unfoldable pub leader_key_for : (Str → Str) → Str → Str → Str
unfolding encode_component
leader_key_for urlsafe_b64encode key_prefix isolation_key =
    key_prefix ++ (codes ":leader:" ++ encode_component urlsafe_b64encode isolation_key)

unfoldable pub heartbeat_prefix : (Str → Str) → Str → Str → Str
unfolding encode_component
heartbeat_prefix urlsafe_b64encode key_prefix isolation_key =
    key_prefix ++ (codes ":heartbeat:" ++ encode_component urlsafe_b64encode isolation_key)

unfoldable pub heartbeat_key_for : (Str → Str) → Str → Str → Str → Str
unfolding encode_component heartbeat_prefix
heartbeat_key_for urlsafe_b64encode key_prefix isolation_key node_key =
    heartbeat_prefix urlsafe_b64encode key_prefix isolation_key
    ++ (codes ":" ++ encode_component urlsafe_b64encode node_key)

-- `new_mutex`, with the mutex's fresh owner.
unfoldable pub new_mutex : Str → ℤ → Str → Str → RedisMutex
unfolding mutex_key
new_mutex key_prefix default_ttl owner key = record {
  key = mutex_key key_prefix key;
  default_ttl = default_ttl;
  owner = owner;
  locked_owner = [];
}

module _ {σ : Type 0} (c : Client σ) (show : ℕ → Str) (key_prefix : Str) (lease : ℤ) where
  unfoldable pub random_key : ℕ → Str
  random_key num = key_prefix ++ (codes ":random:" ++ show num)

  -- The loop over `offset`, with `left` rounds to come.
  unfoldable pub claim_first : ℕ → ℕ → ℕ → ℕ → σ → Result DkitError ℕ × σ
  unfolding random_key ttl_ms
  claim_first zero offset start max_value s = (err no_available_number, s)
  claim_first (suc left) offset start max_value s =
      let num = (start + offset) % max_value in
      let tried = c.set (random_key num) (codes "1") true (ttl_ms lease) s in
      let rest = claim_first left (suc offset) start max_value tried.1 in
      if tried.0 then (ok num, tried.1) else rest

  -- `start` is `random.randrange(max_value)`.
  unfoldable pub get_unique_random_number : ℤ → ℕ → σ → Result DkitError ℕ × σ
  unfolding claim_first
  get_unique_random_number (negsuc n) start s = (err no_available_number, s)
  get_unique_random_number (pos zero) start s = (err no_available_number, s)
  get_unique_random_number (pos (suc n)) start s = claim_first (suc n) 0 start (suc n) s

  -- The keys that the next rounds try are taken.
  unfoldable pub AllTaken : ℕ → ℕ → ℕ → ℕ → σ → Type 0
  AllTaken zero offset start max_value s = Unit
  AllTaken (suc left) offset start max_value s =
      ((w : Str) × (c.get (random_key ((start + offset) % max_value)) s ≡ some w))
      × AllTaken left (suc offset) start max_value s

  -- A number whose key was free and is now taken, or no number and nothing changed.
  abbrev pub Claimed : ℕ → ℕ → ℕ → ℕ → σ → Result DkitError ℕ × σ → Type 0
  Claimed left offset start max_value s r =
      ((num : ℕ) × (r.0 ≡ ok num)
        × (num < max_value)
        × (c.get (random_key num) s ≡ none)
        × (c.get (random_key num) r.1 ≡ some (codes "1")))
      ⊎ ((r ≡ (err no_available_number, s)) × AllTaken left offset start max_value s)

  module _ (store : IsStore c) where
    claim_first-Claimed :
        (left offset start max_value : ℕ) (s : σ)
        → 0 < max_value
        → Claimed left offset start max_value s (claim_first left offset start max_value s)
    unfolding claim_first AllTaken
    claim_first-Claimed zero offset start max_value s h = inr (refl, tt)
    claim_first-Claimed (suc left) offset start max_value s h =
        let num = (start + offset) % max_value in
        let key = random_key num in
        elim (Option-cases (c.get key s)) [
          | inl free ↦
              let (wrote, has) = store.set_free key (codes "1") (ttl_ms lease) s free in
              rw wrote (inl (num, refl, mod-lt (start + offset) h, free, has))
          | inr (w, taken) ↦
              rw (store.set_taken key (codes "1") w (ttl_ms lease) s taken)
                (later w taken (claim_first-Claimed left (suc offset) start max_value s h))
        ]
      where
        later :
            (w : Str)
            → c.get (random_key ((start + offset) % max_value)) s ≡ some w
            → Claimed left
                (suc offset)
                start
                max_value
                s
                (claim_first left (suc offset) start max_value s)
            → Claimed
                (suc left)
                offset
                start
                max_value
                s
                (claim_first left (suc offset) start max_value s)
        later w taken (inl found) = inl found
        later w taken (inr (same, all)) = inr (same, ((w, taken), all))

    -- With a positive bound, `get_unique_random_number` returns a number below the bound whose key
    -- was free and is taken afterwards; or it raises, all keys that it may try were taken, and the
    -- server is as before.
    pub get_unique_random_number-Claimed :
        (n start : ℕ) (s : σ)
        → Claimed (suc n) 0 start (suc n) s (get_unique_random_number (pos (suc n)) start s)
    unfolding get_unique_random_number
    get_unique_random_number-Claimed n start s =
        claim_first-Claimed (suc n) 0 start (suc n) s (omega arith)
