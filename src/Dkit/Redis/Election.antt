-- ===== src/Dkit/Redis/Election.antt =====
-- The election of `RedisAtomic` of src/core_py/dkit/redis.py. A node's state is its option and
-- whether it was the leader at its last look; a tick is one pass of the election loop. Events are
-- what the handler of leader changes is called with.
use core_py.Base.{
  Bool, true, false, not, ◌&&◌, ◌||◌, Option, none, some, List, [], ◌∷◌, if◌then◌else◌, Result, ok,
  err,
}
use core_py.Base.Text.{Str, codes, is_empty, str_eq}
use core_py.Base.Int.{ℤ}
use core_py.Dkit.Errors.{DkitError, invalid_option, election_not_enabled}
use core_py.Dkit.Redis.{Client, to_text, ttl_ms, delete_if_value, pexpire_if_value}
use core_py.Dkit.Redis.Atomic.{leader_key_for, heartbeat_key_for}

-- `can_elect` is the answer of the function, where there is one.
pub record ElectionOption : Type 0 where
  pub node_key : Str
  pub keep_heartbeat : Bool
  pub unhealthy_time : ℤ
  pub isolation_key : Str
  pub can_elect : Option Bool
  pub has_handler : Bool

pub record LeaderChangedEvent : Type 0 where
  pub node_key : Str
  pub is_leader : Bool
  pub isolation_key : Str
  pub leader_key : Str

pub record Node : Type 0 where
  pub key_prefix : Str
  pub election : Option ElectionOption
  pub last_is_leader : Bool

abbrev pub same_bool : Bool → Bool → Bool
same_bool true b = b
same_bool false b = not b

module _ {σ : Type 0} (c : Client σ) (urlsafe_b64encode : Str → Str) where
  abbrev pub leader_key : Node → ElectionOption → Str
  leader_key n option = leader_key_for urlsafe_b64encode n.key_prefix option.isolation_key

  abbrev pub heartbeat_key : Node → ElectionOption → Str
  heartbeat_key n option =
      heartbeat_key_for urlsafe_b64encode n.key_prefix option.isolation_key option.node_key

  unfoldable pub require_election : Node → Result DkitError ElectionOption
  require_election n = elim n.election [ none ↦ err election_not_enabled | some o ↦ ok o ]

  abbrev leads : Node → Option ElectionOption → σ → Bool
  leads n none s = false
  leads n (some option) s = str_eq (to_text (c.get (leader_key n option) s)) option.node_key

  unfoldable pub is_leader : Node → σ → Bool
  unfolding leader_key_for to_text str_eq
  is_leader n s = leads n n.election s

  -- `_notify_leader_change`
  unfoldable pub notify_leader_change : ElectionOption → Node → σ → List LeaderChangedEvent × Node
  unfolding leader_key_for to_text str_eq
  notify_leader_change option n s =
      let leader = to_text (c.get (leader_key n option) s) in
      let leading = str_eq leader option.node_key in
      (
        if not option.has_handler || same_bool leading n.last_is_leader
            then []
            else record {
              node_key = option.node_key;
              is_leader = leading;
              isolation_key = option.isolation_key;
              leader_key = leader;
            }
              ∷ [],
        record n { last_is_leader = leading },
      )

  abbrev pub may_elect : Option Bool → Bool
  may_elect none = true
  may_elect (some b) = b

  -- `if option.keep_heartbeat: …`
  abbrev pub beat : ElectionOption → Node → σ → σ
  beat option n s =
      if option.keep_heartbeat
      then (c.set (heartbeat_key n option) option.node_key false (ttl_ms option.unhealthy_time) s).1
      else s

  -- What a node does about the leader that it has read.
  abbrev pub contend : ElectionOption → Node → Str → σ → σ
  contend option n leader s =
      let lease_ms = ttl_ms option.unhealthy_time in
      if str_eq leader option.node_key
      then (pexpire_if_value c (leader_key n option) option.node_key lease_ms s).1
      else if is_empty leader && may_elect option.can_elect
      then (c.set (leader_key n option) option.node_key true lease_ms s).1
      else s

  abbrev tick : ElectionOption → (σ → σ) → (σ → σ) → Node → σ → List LeaderChangedEvent × (Node × σ)
  tick option between before_notify n s =
      let beaten = beat option n s in
      let leader = to_text (c.get (leader_key n option) beaten) in
      let after = before_notify (contend option n leader (between beaten)) in
      let (events, m) = notify_leader_change option n after in (events, (m, after))

  abbrev ticked :
      (σ → σ)
      → (σ → σ)
      → Node
      → σ
      → Result DkitError ElectionOption
      → Result DkitError (List LeaderChangedEvent) × (Node × σ)
  ticked between before_notify n s (err e) = (err e, (n, s))
  ticked between before_notify n s (ok option) =
      let (events, rest) = tick option between before_notify n s in (ok events, rest)

  -- `between` is what others do after the read of the leader, `before_notify` what they do before
  -- the read of the notification.
  unfoldable pub tick_election :
      (between before_notify : σ → σ)
      → Node
      → σ
      → Result DkitError (List LeaderChangedEvent) × (Node × σ)
  unfolding require_election notify_leader_change pexpire_if_value ttl_ms heartbeat_key_for
  tick_election between before_notify n s = ticked between before_notify n s (require_election n)

  abbrev pub dropped : ElectionOption → Node → σ → σ
  dropped option n s =
      if option.keep_heartbeat
      then (if c.has_delete
          then (c.del (heartbeat_key n option) s).1
          else (delete_if_value c (heartbeat_key n option) (codes "1") s).1)
      else s

  -- `_cleanup_election` with `_delete_key`.
  unfoldable pub cleanup_election : ElectionOption → Node → σ → σ
  unfolding delete_if_value leader_key_for heartbeat_key_for
  cleanup_election option n s =
      dropped option n (delete_if_value c (leader_key n option) option.node_key s).1

  abbrev closed_with : Option ElectionOption → Node → σ → Node × σ
  closed_with none n s = (record n { election = none; last_is_leader = false }, s)
  closed_with (some option) n s =
      (record n { election = none; last_is_leader = false }, cleanup_election option n s)

  -- `close`, without the client's own.
  unfoldable pub close : Node → σ → Node × σ
  unfolding cleanup_election
  close n s = closed_with n.election n s

  abbrev enabled_on :
      Option ElectionOption
      → ElectionOption
      → (σ → σ)
      → (σ → σ)
      → Node
      → σ
      → Result DkitError (List LeaderChangedEvent) × (Node × σ)
  enabled_on (some o) option between before_notify n s =
      (err (invalid_option (codes "dkit: invalid option: election already enabled")), (n, s))
  enabled_on none option between before_notify n s =
      let (events, rest) =
        tick option between before_notify
          (record n { election = some option; last_is_leader = false }) s in
      (ok events, rest)

  unfoldable pub enable_election :
      ElectionOption
      → (σ → σ)
      → (σ → σ)
      → Node
      → σ
      → Result DkitError (List LeaderChangedEvent) × (Node × σ)
  unfolding notify_leader_change pexpire_if_value ttl_ms heartbeat_key_for
  enable_election option between before_notify n s =
      if is_empty option.node_key
      then (err (invalid_option (codes "dkit: invalid option: node key is empty")), (n, s))
      else enabled_on n.election option between before_notify n s
