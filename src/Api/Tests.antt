-- ===== src/Api/Tests.antt =====
-- The theorems of Api at concrete inputs, and tests.
use mcsm.Common.{
  false, Option, none, Result, pos, ◌≡◌, refl, true, some, ok, err, List, [], ◌∷◌, Bytes, codes,
  equal, has_prefix, trim_space,
}
use mcsm.Api.Auth.{ResolvedToken, TokenInfo, scope_denied, missing_token, admit}
use mcsm.Slot.State.{stopping, error, is_terminal}
use mcsm.Slot.Record.{new, mounted_server}
use mcsm.Slot.Tests.{up, stopped, paper}
use mcsm.Api.Backups.{require_slot_and_server, restore_gate}
use mcsm.Slot.Record.{Slot}
use mcsm.Update.Paper.{Release, LatestError, Fetch, latest, equal_fold, download}
use mcsm.Api.Updates.{Jars, Request, install_failed, update_gate, apply_update}
use mcsm.Api.Updates.Installed.{IsUpdated, apply_update-IsUpdated}

-- A slot whose start timed out is the one kind that can be restored.
timed_out :
    restore_gate true (some (record up { state = error })) (record up { state = error }) ≡ ok paper
unfolding restore_gate new mounted_server is_terminal
timed_out = refl

-- The server is still mounted at the first reading, and the slot idle at the second.
spanning : restore_gate true (some (record up { state = stopping })) stopped.slot ≡ ok paper
unfolding restore_gate new mounted_server is_terminal
spanning = refl

-- A token for reading slots, and one for all; the hash is the raw token.
abbrev readers : List ResolvedToken
readers =
    record { name = codes "view"; scopes = codes "slot:read" ∷ []; hash = codes "abc" }
    ∷ record { name = codes "root"; scopes = codes "*" ∷ []; hash = codes "xyz" }
    ∷ []

abbrev root_info : TokenInfo
root_info = record { name = codes "root"; scopes = codes "*" ∷ [] }

wrong_scope :
    admit trim_space equal readers (codes "slot:write") (codes "Bearer abc") ≡ err scope_denied
unfolding admit equal has_prefix trim_space
wrong_scope = refl

lower_case :
    admit trim_space equal readers (codes "slot:read") (codes "bearer abc") ≡ err missing_token
unfolding admit equal has_prefix trim_space
lower_case = refl

blank : admit trim_space equal readers (codes "slot:read") (codes "Bearer  ") ≡ err missing_token
unfolding admit equal has_prefix trim_space
blank = refl

-- An update of the server whose start timed out. The digest is the bytes themselves.
abbrev same : Bytes → Bytes
same b = b

abbrev fetch : Fetch
fetch = record {
  mkdir_fails = false;
  create_fails = false;
  response = some (record { status = 200; body = codes "ABC"; copy_fails = false });
  close_fails = false;
  rename_fails = false;
}

abbrev request : Request
request = record {
  body = some (codes "1.21.4", true);
  flavor = some "paper";
  backups_enabled = true;
  backup_fails = false;
  builds = some (pos 9 ∷ pos 12 ∷ []);
  fetch = fetch;
  keep_fails = false;
  install_fails = false;
}

abbrev jars : Jars
jars = record {
  launch = some (codes "old");
  previous = none;
  staging = record { dest = none; part = none };
}

abbrev found : Bytes → Result LatestError Release
found =
    latest (λ bs. bs) request.builds
      (λ b. some (record { jar_name = codes "paper.jar"; sha256 = codes "abc"; at = 0 }))

abbrev broken : Option Slot
broken = some (record up { state = error })

updated :
    (apply_update same found request broken jars).0
    ≡ record jars { launch = some (codes "ABC"); previous = some (codes "old") }
unfolding apply_update update_gate require_slot_and_server new mounted_server is_terminal download
    latest equal_fold equal
updated = refl

apply_update-IsUpdated_example :
    IsUpdated same
      (record request { install_fails = true })
      jars
      (
        record jars {
          launch = none;
          previous = some (codes "old");
          staging = record { dest = some (codes "ABC"); part = none };
        },
        err install_failed,
      )
unfolding apply_update update_gate require_slot_and_server new mounted_server is_terminal download
    latest equal_fold equal
apply_update-IsUpdated_example =
    apply_update-IsUpdated same found (record request { install_fails = true }) broken jars
