-- ===== src/Lock/Owner.antt =====
-- internal/lock/owner.go: the owner record, staleness, and the states of a lock. A time is its
-- number of nanoseconds. What the operating system answers is an argument: a `Fault` says which
-- call of a write fails, a flag says whether a removal fails.
use mcsm.Common.{
  ℕ, ◌+◌, ◌*◌, ◌^◌, Bool, false, Option, none, some, String, str_eq, ltb, ℤ, if◌then◌else◌, Result,
  ok, err,
}

pub record Owner : Type 0 where
  pub instance_name : String
  pub slot : String
  pub host : String
  pub pid : ℤ
  pub started_at : ℕ
  pub heartbeat : ℕ

-- 60 seconds.
abbrev pub default_stale_after : ℕ
default_stale_after = 60 * 10 ^ 9

-- What stands at <server-dir>/.mcsm/owner.json.
pub data OwnerFile : Type 0 where
  absent unreadable garbled : OwnerFile
  holds : Owner → OwnerFile

-- The folder <server-dir>/.mcsm: whether it is there, the owner file, and the temporary files beside it.
pub record McsmDir : Type 0 where
  pub made : Bool
  pub owner_file : OwnerFile
  pub temps : ℕ

pub data LockError : Type 0 where
  already_held read_failed parse_failed write_failed remove_failed : LockError

unfoldable pub read : McsmDir → Result LockError (Option Owner)
read d = elim d.owner_file [
  | absent ↦ ok none
  | unreadable ↦ err read_failed
  | garbled ↦ err parse_failed
  | holds o ↦ ok (some o)
]

-- `time.Since(o.Heartbeat) > threshold`
unfoldable pub is_stale : Option Owner → ℕ → ℕ → Bool
is_stale none threshold now = false
is_stale (some o) threshold now = ltb (o.heartbeat + threshold) now

pub data State : Type 0 where
  free owned_self owned_other stale : State

unfoldable pub classify : Option Owner → String → ℕ → ℕ → State
unfolding is_stale
classify none self threshold now = free
classify (some o) self threshold now =
    if is_stale (some o) threshold now
    then stale
    else if str_eq o.instance_name self
    then owned_self
    else owned_other

-- `os.Remove`, where an absent file is no error.
unfoldable pub remove : Bool → McsmDir → McsmDir × Result LockError (Unit {0})
remove fails d = elim d.owner_file [
  | absent ↦ (d, ok tt)
  | _ ↦ if fails then (d, err remove_failed) else (record d { owner_file = absent }, ok tt)
]
