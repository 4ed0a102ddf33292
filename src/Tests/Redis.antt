-- ===== src/Tests/Redis.antt =====
-- src/core_py/dkit/redis.py at concrete inputs: a server is a dictionary whose keys do not expire by
-- themselves.
use core_py.Base.{
  ℕ, Bool, true, false, ◌&&◌, ◌||◌, Option, none, some, [], ◌∷◌, ok, err, All, ◌≡◌, refl, ap, ◌∙◌,
  sym, inl, inr, Option-cases,
}
use core_py.Base.Text.{Str, codes, is_empty, str_eq, str_eq_refl}
use core_py.Base.Int.{ℤ, pos}
use core_py.Base.Dict
use core_py.Base.Dict.{Dict}
use core_py.Dkit.Options.{new_lock_option}
use core_py.Dkit.Errors.{already_unlocked}
use core_py.Dkit.Memory
use core_py.Dkit.Redis
use core_py.Dkit.Redis.{Client, RedisMutex, holds}
use core_py.Dkit.Redis.Store.{IsStore, owner_of}
use core_py.Dkit.Redis.Exclusion.{attempts, releases, IsForeign, run, redis_exclusion}
use core_py.Dkit.Redis.Renewal.{renewal_overwrites}
use core_py.Dkit.Redis.Backends.{live, backends_agree}
use core_py.Dkit.Redis.Election.{ElectionOption, Node, is_leader}
use core_py.Dkit.Redis.Leader.{Tick, lkey, run_ticks, leader_stays}
use core_py.Dkit.Redis.Notices.{Alternates, observe, observe-Alternates}
use core_py.Dkit.Redis.Atomic.{leader_key_for, encode_component}

abbrev set_free_only : Option Str → Str → Str → Dict Str → Bool × Dict Str
set_free_only none k v s = (true, Dict.put k v s)
set_free_only (some w) k v s = (false, s)

abbrev set_key : Bool → Str → Str → Dict Str → Bool × Dict Str
set_key true k v s = set_free_only (Dict.get k s) k v s
set_key false k v s = (true, Dict.put k v s)

abbrev found : Option Str → ℕ
found none = 0
found (some w) = 1

abbrev server : Client (Dict Str)
server = record {
  get = λ k s. Dict.get k s;
  set = λ k v nx px s. set_key nx k v s;
  exists = λ k s. Dict.has k s;
  del = λ k s. (found (Dict.get k s), Dict.remove k s);
  pexpire = λ k ms s. (found (Dict.get k s), s);
  scan_iter = λ p s. [];
  has_delete = true;
}

set_key-other :
    (k j v : Str) (nx : Bool) (s : Dict Str)
    → str_eq k j ≡ false
    → Dict.get j ((set_key nx k v s).1) ≡ Dict.get j s
set_key-other k j v false s h = Dict.get-put_ne k j v s h
set_key-other k j v true s h = elim (Option-cases (Dict.get k s)) [
  | inl e ↦ rw e (Dict.get-put_ne k j v s h)
  | inr (w, e) ↦ rw e
]

server-IsStore : IsStore server
server-IsStore = record {
  set_put = λ k v px s. Dict.get-put_self k v s;
  set_free = λ k v px s h. rw h (refl, Dict.get-put_self k v s);
  set_taken = λ k v w px s h. rw h;
  set_other = λ k j v nx px s h. set_key-other k j v nx s h;
  del_found = λ k w s h. (ap found h, Dict.get-remove k k s ∙ rw (str_eq_refl k));
  del_other = λ k j s h. Dict.get-remove k j s ∙ rw h;
  pexpire_keeps = λ k j ms s. refl;
}

abbrev lock_of : Str → RedisMutex
lock_of owner = record {
  key = codes "dkit:mutex:k";
  default_ttl = pos 5;
  owner = owner;
  locked_owner = [];
}

abbrev idle : Dict Str → Dict Str
idle s = s

free_lock : (Redis.try_lock server [] idle (lock_of (codes "a")) []).0 ≡ true
unfolding Redis.try_lock Redis.holds Dict.get Dict.put new_lock_option
free_lock = refl

rival_step :
    All
      (IsForeign server (codes "dkit:mutex:k") (owner_of [] (lock_of (codes "a"))))
      (attempts [] idle (lock_of (codes "b")) ∷ releases (lock_of (codes "b")) ∷ [])
unfolding IsForeign new_lock_option str_eq
rival_step = ((inr refl, λ s. refl), (inr refl, tt))

redis_exclusion_example :
    let taken = Redis.try_lock server [] idle (lock_of (codes "a")) [] in
    let after =
      run server
        (attempts [] idle (lock_of (codes "b")) ∷ releases (lock_of (codes "b")) ∷ [])
        taken.1.1 in
    (Dict.get (codes "dkit:mutex:k") after ≡ some (codes "a"))
    × ((Redis.try_lock server [] idle (lock_of (codes "b")) after).0 ≡ false)
    × ((Redis.unlock server taken.1.0 after).0 ≡ ok tt)
    × (Dict.get (codes "dkit:mutex:k") ((Redis.unlock server taken.1.0 after).1.1) ≡ none)
unfolding new_lock_option
redis_exclusion_example =
    redis_exclusion server server-IsStore [] idle (lock_of (codes "a")) []
      (attempts [] idle (lock_of (codes "b")) ∷ releases (lock_of (codes "b")) ∷ []) [] idle
      (lock_of (codes "b")) free_lock rival_step (str_eq_refl (codes "dkit:mutex:k"))
      (unfold new_lock_option str_eq in refl) (λ s. refl)

abbrev held_by : Str → Dict Str
held_by owner = (codes "dkit:mutex:k", owner) ∷ []

renewal_overwrites_example :
    let theirs = Redis.try_lock server [] (λ s. s) (lock_of (codes "b")) [] in
    let ours =
      Redis.try_lock server [] (λ s. theirs.1.1) (lock_of (codes "a")) (held_by (codes "a")) in
    (theirs.0 ≡ true)
    × (ours.0 ≡ true)
    × ((Redis.unlock server theirs.1.0 ours.1.1).0 ≡ err already_unlocked)
renewal_overwrites_example =
    renewal_overwrites server server-IsStore [] (lock_of (codes "a")) (held_by (codes "a"))
      (λ s. []) [] (lock_of (codes "b")) (unfold Dict.get str_eq new_lock_option in refl)
      (unfold Dict.get in refl) refl (unfold new_lock_option str_eq in refl)

abbrev mutex : Memory.Mutex
mutex = record { key = codes "k"; default_ttl = pos 5; owner = codes "a"; locked_owner = codes "a" }

abbrev table : Memory.Locks
table = (codes "k", (codes "a", pos 9)) ∷ []

abbrev name_of : Option (Str × ℤ) → Str
name_of none = []
name_of (some (h, t)) = h

-- The second attempt of one mutex: refused in memory, granted by Redis.
backends_agree_example :
    (true ≡ (false || (true && true)))
    × (Dict.get (codes "k") ((codes "k", codes "a") ∷ []) ≡ live 3 (Dict.get (codes "k") table))
unfolding Redis.try_lock Memory.try_lock Memory.is_held Memory.expired Redis.holds Dict.get Dict.put
    str_eq new_lock_option
backends_agree_example =
    backends_agree server server-IsStore [] 3 mutex table ((codes "k", codes "a") ∷ []) refl named
  where
    named : (h : Str) (t : ℤ) → Dict.get (codes "k") table ≡ some (h, t) → is_empty h ≡ false
    named h t e = ap (λ o. is_empty (name_of o)) (sym e)

abbrev as_is : Str → Str
as_is value = value

abbrev option_of : Str → ElectionOption
option_of node_key = record {
  node_key = node_key;
  keep_heartbeat = true;
  unhealthy_time = pos 9;
  isolation_key = codes "g";
  can_elect = none;
  has_handler = true;
}

abbrev node_of : Str → Node
node_of node_key = record {
  key_prefix = codes "dkit";
  election = some (option_of node_key);
  last_is_leader = false;
}

abbrev tick_of : Str → Tick (Dict Str)
tick_of node_key = record {
  node = node_of node_key;
  option = option_of node_key;
  between = idle;
  before_notify = idle;
}

abbrev group : Dict Str
group = (codes "dkit:leader:g", codes "n") ∷ []

leads_now :
    Dict.get (lkey server as_is server-IsStore (codes "dkit") (codes "g") (codes "n")) group
    ≡ some (codes "n")
unfolding leader_key_for encode_component Dict.get str_eq
leads_now = refl

leader_stays_example :
    let ticks = tick_of (codes "m") ∷ tick_of (codes "n") ∷ [] in
    let after =
      run_ticks server as_is server-IsStore (codes "dkit") (codes "g") (codes "n") ticks group in
    (Dict.get (leader_key_for as_is (codes "dkit") (codes "g")) after ≡ some (codes "n"))
    × (is_leader server as_is (node_of (codes "m")) after ≡ str_eq (codes "n") (codes "m"))
leader_stays_example =
    leader_stays server as_is server-IsStore (codes "dkit") (codes "g") (codes "n")
      (tick_of (codes "m") ∷ tick_of (codes "n") ∷ []) group (node_of (codes "m"))
      (option_of (codes "m"))
      ((refl, refl, λ s. refl, λ s. refl), ((refl, refl, λ s. refl, λ s. refl), tt)) leads_now refl
      refl refl

observe-Alternates_example :
    Alternates false
      (observe server as_is (option_of (codes "n")) (node_of (codes "n")) ([] ∷ group ∷ [] ∷ [])).0
observe-Alternates_example =
    observe-Alternates server as_is (option_of (codes "n")) ([] ∷ group ∷ [] ∷ [])
      (node_of (codes "n")) refl
