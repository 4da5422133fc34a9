-- ===== src/Api/Properties.antt =====
-- internal/api/handlers_properties.go: `handleServerPropertiesPatch` over the file's bytes. The entries of
-- the request stand in the order in which the map is ranged over.
pub mod Body
pub mod Reserved
mod Tests
use mcsm.Common.{
  Bool, true, false, ◌||◌, Option, none, some, List, [], ◌∷◌, Bytes, codes, equal, if◌then◌else◌,
  Result, ok, err,
}
use mcsm.Slot.Record.{Slot, Server}
use mcsm.Api.Backups.{Refusal, require_slot_and_server}
use mcsm.ServerId.Properties.{Patch}
use mcsm.ServerId.Properties.Text.{patch_text}

-- A decoded value of the body.
pub data JsonValue : Type 0 where
  json_text : Bytes → JsonValue
  json_flag : Bool → JsonValue
  -- A number as strconv writes it.
  json_number : Bytes → JsonValue
  json_other : JsonValue

unfoldable pub stringify : JsonValue → Bytes
stringify (json_text t) = t
stringify (json_flag b) = if b then codes "true" else codes "false"
stringify (json_number n) = n
stringify json_other = []

listed : List Bytes → Bytes → Bool
unfolding equal
listed [] k = false
listed (j ∷ js) k = equal j k || listed js k

unfoldable pub is_reserved : Bytes → Bool
unfolding listed
is_reserved = listed (
    codes "server-port"
    ∷ codes "query.port"
    ∷ codes "enable-rcon"
    ∷ codes "rcon.port"
    ∷ codes "rcon.password"
    ∷ codes "broadcast-rcon-to-ops"
    ∷ [])

-- The keys that stand for true.
unfoldable pub needs_restart : Bytes → Bool
unfolding listed
needs_restart = listed (
    codes "view-distance"
    ∷ codes "simulation-distance"
    ∷ codes "max-players"
    ∷ codes "gamemode"
    ∷ codes "online-mode"
    ∷ codes "motd"
    ∷ codes "level-name"
    ∷ codes "level-seed"
    ∷ codes "level-type"
    ∷ codes "pvp"
    ∷ codes "hardcore"
    ∷ codes "allow-flight"
    ∷ codes "resource-pack"
    ∷ codes "resource-pack-sha1"
    ∷ [])

pub record PatchReply : Type 0 where
  pub applied : List Bytes
  pub requires_restart : List Bytes
  pub rejected : List Bytes

-- One round of the loop, in front of the later ones.
sort_entry : Bytes → JsonValue → Patch × PatchReply → Patch × PatchReply
sort_entry k v (p, r) = if is_reserved k then (p, record r { rejected = k ∷ r.rejected }) else (
  (k, stringify v) ∷ p,
  record r {
    applied = k ∷ r.applied;
    requires_restart = if needs_restart k then k ∷ r.requires_restart else r.requires_restart;
  },
)

unfoldable pub sort_entries : List (Bytes × JsonValue) → Patch × PatchReply
unfolding sort_entry
sort_entries [] = ([], record { applied = []; requires_restart = []; rejected = [] })
sort_entries ((k, v) ∷ es) = sort_entry k v (sort_entries es)

pub data PropertiesError : Type 0 where
  refused : Refusal → PropertiesError
  bad_body no_values not_patched : PropertiesError

-- `none` is a file that cannot be read.
write_patch :
    Bool → Patch → PatchReply → Option Bytes → Option Bytes × Result PropertiesError PatchReply
unfolding patch_text
write_patch fails [] r file = (file, ok r)
write_patch fails (e ∷ p) r none = (none, err not_patched)
write_patch fails (e ∷ p) r (some t) =
    if fails then (some t, err not_patched) else (some (patch_text (e ∷ p) t), ok r)

on_body :
    Bool
    → Option (List (Bytes × JsonValue))
    → Option Bytes
    → Option Bytes × Result PropertiesError PatchReply
unfolding sort_entries write_patch
on_body fails none file = (file, err bad_body)
on_body fails (some []) file = (file, err no_values)
on_body fails (some (e ∷ es)) file =
    let (p, r) = sort_entries (e ∷ es) in write_patch fails p r file

on_server :
    Bool
    → Option (List (Bytes × JsonValue))
    → Option Bytes
    → Result Refusal (Slot × Server)
    → Option Bytes × Result PropertiesError PatchReply
unfolding on_body
on_server fails body file (err e) = (file, err (refused e))
on_server fails body file (ok s) = on_body fails body file

-- `fails` tells of a call of the operating system that fails before the new file is in place.
unfoldable pub handle_patch :
    Bool
    → Option (List (Bytes × JsonValue))
    → Option Slot
    → Option Bytes
    → Option Bytes × Result PropertiesError PatchReply
unfolding on_server require_slot_and_server
handle_patch fails body o file = on_server fails body file (require_slot_and_server o)
