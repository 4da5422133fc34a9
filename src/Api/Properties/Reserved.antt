-- ===== src/Api/Properties/Reserved.antt =====
-- internal/api/handlers_properties.go: what a patch of the properties changes, and what it should not.
use mcsm.Common.{
  ◌≡◌, refl, ap, ◌∙◌, ◌⊎◌, false, Option, none, some, [], ◌∷◌, Bytes, Result, ok, err, arith,
}
use mcsm.Slot.Record.{Slot, Server}
use mcsm.Api.Backups.{require_slot_and_server}
use mcsm.ServerId.Properties.{Patch, trim_left, written}
use mcsm.ServerId.Properties.Lines.{IsPlain}
use mcsm.ServerId.Properties.Text.{scan, IsLine, HasNoReturn, read_text, patch_text}
use mcsm.ServerId.Properties.Rewrite.{smuggling, read-smuggling}
use mcsm.Api.Properties.{
  json_text, stringify, is_reserved, PatchReply, sort_entry, sort_entries, PropertiesError,
  write_patch, on_body, on_server, handle_patch,
}
use mcsm.Api.Properties.Body.{Body, IsBody, read_file, keys_that, IsPatched, reply_of, rejected_lem}

Ends : Body → Option Bytes → Option Bytes × Result PropertiesError PatchReply → Type 0
Ends es before (after, r) =
    ((after ≡ before) × ((e : PropertiesError) × (r ≡ err e)))
    ⊎ ((r ≡ ok (reply_of es)) × IsPatched es before after (reply_of es))

-- The end of a call, given the body and what stood in the file.
pub EndsAs : Option Body → Option Bytes → Option Bytes × Result PropertiesError PatchReply → Type 0
EndsAs body before (after, r) =
    ((after ≡ before) × ((e : PropertiesError) × (r ≡ err e)))
    ⊎ ((es : Body) × (body ≡ some es)
        × ((reply : PatchReply) × (r ≡ ok reply) × IsPatched es before after reply))

abbrev pub IsRequest : Option Body → Type 0
IsRequest none = Unit
IsRequest (some es) = IsBody es

one_value :
    (j v t : Bytes) (s : Slot) {srv : Server}
    → s.server ≡ some srv
    → is_reserved j ≡ false
    → handle_patch false (some ((j, json_text v) ∷ [])) (some s) (some t)
      ≡ (some (patch_text ((j, v) ∷ []) t), ok (reply_of ((j, json_text v) ∷ [])))
unfolding handle_patch on_server on_body reply_of sort_entries sort_entry stringify write_patch
    require_slot_and_server
one_value j v t s m f = rw (m, f) (rw (reply_of, f) refl)

-- A value with a line end gets past the test for reserved keys: with a key that is not reserved and not in
-- the file, it sets any plain key, and the reply rejects nothing.
pub handle_patch-smuggling :
    (j a k w t : Bytes) (s : Slot) {srv : Server}
    → s.server ≡ some srv
    → is_reserved j ≡ false
    → written j (scan t) ≡ false
    → IsPlain k
    → trim_left w ≡ w
    → IsLine j × IsLine a × IsLine k × IsLine w
    → HasNoReturn t
    → let (after, r) =
        handle_patch false (some ((j, json_text (smuggling a k w)) ∷ [])) (some s) (some t) in
      (read_file after k ≡ some w) × (reply : PatchReply) × (r ≡ ok reply) × (reply.rejected ≡ [])
unfolding read_text
handle_patch-smuggling j a k w t s m f n p g ls r =
    let end = one_value j (smuggling a k w) t s m f in
    let es : Body = (j, json_text (smuggling a k w)) ∷ [] in
    let nothing : keys_that is_reserved es ≡ [] = ground (f, arith) in
    (
      ap (λ x. read_file x.0 k) end ∙ read-smuggling j a k w t n p g ls r,
      reply_of es,
      ap (λ x. x.1) end,
      rejected_lem es ∙ nothing,
    )
