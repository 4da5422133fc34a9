-- ===== src/Config/Tests.antt =====
-- Configurations at concrete values.
use mcsm.Common.{◌≡◌, refl, true, some, [], ◌∷◌, codes, equal, has_prefix, pos}
use mcsm.Config.Validate.{
  SlotEntry, Config, slot_duplicate, slot_port, slot_port_used, peer_self, tls_version, no_roots,
  validate,
}
use mcsm.Config.Validate.Exact.{IsValid, validate-IsValid}

abbrev lobby : SlotEntry
lobby = record { name = codes "lobby"; port = pos 25565 }

abbrev sample : Config
sample = record {
  instance_name = codes "home-1";
  bind_splits = true;
  tls =
      some
        (record { cert_file = codes "c.pem"; key_file = codes "k.pem"; min_version = codes "1.3" });
  tokens =
      record { name = codes "ops"; hash = codes "$argon2id$v=19"; scopes = codes "*" ∷ [] } ∷ [];
  roots = codes "/srv" ∷ [];
  slots = lobby ∷ record { name = codes "games"; port = pos 65535 } ∷ [];
  peers =
      record {
        name = codes "away";
        url = some (record { scheme = codes "https"; host = codes "away:8080" });
        token = codes "t";
      }
      ∷ [];
  log_level = codes "info";
  log_format = codes "json";
}

validate-IsValid_example : IsValid sample
unfolding validate equal has_prefix
validate-IsValid_example = (validate-IsValid sample).0 refl

twice_lobby :
    validate
      (record sample { slots = lobby ∷ record { name = codes "x"; port = pos 0 } ∷ lobby ∷ [] })
    ≡ slot_port 1 ∷ slot_duplicate 2 ∷ slot_port_used 2 ∷ []
unfolding validate equal has_prefix
twice_lobby = refl

self_peer :
    validate (record sample {
      roots = [];
      tls =
          some (record { cert_file = codes "c"; key_file = codes "k"; min_version = codes "1.1" });
      peers =
          record {
            name = codes "home-1";
            url = some (record { scheme = codes "https"; host = codes "away:8080" });
            token = codes "t";
          }
          ∷ [];
    })
    ≡ tls_version ∷ no_roots ∷ peer_self 0 ∷ []
unfolding validate equal has_prefix
self_peer = refl
