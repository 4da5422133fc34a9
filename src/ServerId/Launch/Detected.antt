-- ===== src/ServerId/Launch/Detected.antt =====
-- internal/serverid/launch.go, flavor.go: which jar the detected flavor starts.
use mathlib.Core.Option.{some-injective}
use mcsm.Common.{
  ◌≡◌, refl, sym, subst, ◌∙◌, ◌⊎◌, inl, inr, Bool, true, false, ◌||◌, Bool-cases, if_rule, none,
  some, String, List, [], ◌∷◌, Bytes, codes, equal, if◌then◌else◌, Result, ok, err, Kept, arith,
}
use mcsm.ServerId.Flavor.{Markers, see, see_all, flavor_of, detect_flavor, is_jar}
use mcsm.ServerId.Launch.Latest.{higher, matching, latest_matching-Chosen}
use mcsm.ServerId.Launch.{
  DirEntry, LaunchError, no_jar, unknown_flavor, latest_matching, or_latest, if_there, launch_jar,
  find_launch_jar,
}

abbrev pub listed : List DirEntry → Bytes → Bool
listed [] n = false
listed (e ∷ es) n = if equal e.name n then true else listed es n

-- The end of the search for the jar of the flavor: a jar that is in the directory; nothing, if there is none of
-- its names, for Paper and Forge; or a flavor that is unknown.
pub data Ends (es : List DirEntry) (flavor : String) (r : Result LaunchError Bytes) : Type 0 where
  fabric_jar :
      flavor ≡ "fabric"
      → listed es (codes "fabric-server-launch.jar") ≡ true
      → r ≡ ok (codes "fabric-server-launch.jar")
      → Ends es flavor r
  vanilla_jar :
      flavor ≡ "vanilla"
      → listed es (codes "server.jar") ≡ true
      → r ≡ ok (codes "server.jar")
      → Ends es flavor r
  paper_jar :
      flavor ≡ "paper"
      → listed es (codes "paper.jar") ≡ true
      → r ≡ ok (codes "paper.jar")
      → Ends es flavor r
  paper_latest :
      (jar : Bytes)
      → flavor ≡ "paper"
      → listed es (codes "paper.jar") ≡ false
      → Kept higher none (matching (codes "paper-") (codes ".jar") es) (some jar)
      → r ≡ ok jar
      → Ends es flavor r
  paper_missing :
      flavor ≡ "paper"
      → listed es (codes "paper.jar") ≡ false
      → matching (codes "paper-") (codes ".jar") es ≡ []
      → r ≡ err no_jar
      → Ends es flavor r
  forge_latest :
      (jar : Bytes)
      → flavor ≡ "forge"
      → Kept higher none (matching (codes "forge-") (codes "-universal.jar") es) (some jar)
      → r ≡ ok jar
      → Ends es flavor r
  forge_plain :
      flavor ≡ "forge"
      → matching (codes "forge-") (codes "-universal.jar") es ≡ []
      → listed es (codes "server.jar") ≡ true
      → r ≡ ok (codes "server.jar")
      → Ends es flavor r
  forge_missing :
      flavor ≡ "forge"
      → matching (codes "forge-") (codes "-universal.jar") es ≡ []
      → listed es (codes "server.jar") ≡ false
      → r ≡ err no_jar
      → Ends es flavor r
  no_flavor : flavor ≡ "unknown" → r ≡ err unknown_flavor → Ends es flavor r

abbrev pub entry_names : List DirEntry → List Bytes
entry_names [] = []
entry_names (e ∷ es) = e.name ∷ entry_names es

-- A marker is as it was, or the name is the one that sets it.
data Tells (marker : Markers → Bool) (was : Bool) (n name : Bytes) (m : Markers) : Type 0 where
  now : equal n name ≡ true → Tells marker was n name m
  as_before : marker m ≡ was → Tells marker was n name m

-- A marker that the loop sets at one name only.
module _ (marker : Markers → Bool) (name : Bytes)
    (step : (n : Bytes) (m : Markers) → Tells marker (marker m) n name (see n m)) where
  see_all-listed :
      (es : List DirEntry) (m : Markers)
      → marker (see_all (entry_names es) m) ≡ true
      → (marker m ≡ true) ⊎ (listed es name ≡ true)
  unfolding see_all
  see_all-listed [] m h = inl h
  see_all-listed (e ∷ es) m h = elim (see_all-listed es (see e.name m) h) [
    | inr there ↦ ground (there, arith)
    | inl before ↦ elim (step e.name m) [
      | as_before was ↦ inl (sym was ∙ before)
      | now n ↦ inr (rw n refl)
    ]
  ]

see-fabric :
    (n : Bytes) (m : Markers)
    → Tells (λ x. x.fabric) m.fabric n (codes "fabric-server-launch.jar") (see n m)
unfolding see
see-fabric n m =
    let P = Tells (λ x. x.fabric) m.fabric n (codes "fabric-server-launch.jar") in
    if_rule P (equal n (codes "fabric-server-launch.jar")) now (λ _.
      if_rule P (is_jar "forge-" n) (λ _. as_before refl)
        (λ _.
          if_rule P (equal n (codes "paper.jar") || is_jar "paper-" n) (λ _. as_before refl)
            (λ _.
              if_rule P (equal n (codes "version_history.json")) (λ _. as_before refl)
                (λ _.
                  if_rule P (equal n (codes "server.jar")) (λ _. as_before refl)
                    (λ _. as_before refl)))))

see-server_jar :
    (n : Bytes) (m : Markers)
    → Tells (λ x. x.server_jar) m.server_jar n (codes "server.jar") (see n m)
unfolding see
see-server_jar n m =
    let P = Tells (λ x. x.server_jar) m.server_jar n (codes "server.jar") in
    if_rule P (equal n (codes "fabric-server-launch.jar")) (λ _. as_before refl)
      (λ _.
        if_rule P (is_jar "forge-" n) (λ _. as_before refl)
          (λ _.
            if_rule P (equal n (codes "paper.jar") || is_jar "paper-" n) (λ _. as_before refl)
              (λ _.
                if_rule P (equal n (codes "version_history.json")) (λ _. as_before refl)
                  (λ _. if_rule P (equal n (codes "server.jar")) now (λ _. as_before refl)))))

module _ (stat : Bytes → Bool) (es : List DirEntry)
    (there : (n : Bytes) → stat n ≡ listed es n) where
  if_there-cases :
      (n : Bytes) (r : Result LaunchError Bytes)
      → ((listed es n ≡ true) × (if_there stat n r ≡ ok n))
        ⊎ ((listed es n ≡ false) × (if_there stat n r ≡ r))
  unfolding if_there
  if_there-cases n r = elim (Bool-cases (stat n)) [
    | inl t ↦ inl (sym (there n) ∙ t, rw t refl)
    | inr f ↦ inr (sym (there n) ∙ f, rw f refl)
  ]

  paper-Ends : Ends es "paper" (launch_jar stat es "paper")
  unfolding launch_jar
  paper-Ends =
      elim (if_there-cases (codes "paper.jar")
        (or_latest (latest_matching es (codes "paper-") (codes ".jar")) (err no_jar))) [
          | inl (l, e) ↦ paper_jar refl l e
          | inr (n, e) ↦ elim (latest_matching-Chosen b'p' (codes "aper-") (codes ".jar") es) [
            | inl (none_match, l) ↦ paper_missing refl n none_match (e ∙ rw (l, or_latest) refl)
            | inr (d, ds, l, k) ↦ paper_latest (d ∷ ds) refl n k (e ∙ rw (l, or_latest) refl)
          ]
        ]

  forge-Ends : Ends es "forge" (launch_jar stat es "forge")
  unfolding launch_jar
  forge-Ends = elim (latest_matching-Chosen b'f' (codes "orge-") (codes "-universal.jar") es) [
    | inl (none_match, l) ↦ elim (if_there-cases (codes "server.jar") (err no_jar)) [
      | inl (t, e) ↦ forge_plain refl none_match t (rw (l, or_latest) e)
      | inr (f, e) ↦ forge_missing refl none_match f (rw (l, or_latest) e)
    ]
    | inr (d, ds, l, k) ↦ forge_latest (d ∷ ds) refl k (rw (l, or_latest) refl)
  ]

  named : (n : Bytes) (r : Result LaunchError Bytes) → listed es n ≡ true → if_there stat n r ≡ ok n
  unfolding if_there
  named n r l = rw (there n ∙ l) refl

  flavored :
      (forge_dir : Bool) (m : Markers)
      → (m.fabric ≡ true → listed es (codes "fabric-server-launch.jar") ≡ true)
      → (m.server_jar ≡ true → listed es (codes "server.jar") ≡ true)
      → Ends es (flavor_of forge_dir m) (launch_jar stat es (flavor_of forge_dir m))
  unfolding flavor_of launch_jar
  flavored forge_dir m fabric server =
      let P : String → Type 0 = λ f. Ends es f (launch_jar stat es f) in
      if_rule P m.fabric (λ t. fabric_jar refl (fabric t) (named _ (err no_jar) (fabric t)))
        (λ _.
          if_rule P (m.forge_jar || forge_dir) (λ _. forge-Ends)
            (λ _.
              if_rule P (m.paper_jar || m.paper_history) (λ _. paper-Ends)
                (λ _.
                  if_rule P m.server_jar
                    (λ t. vanilla_jar refl (server t) (named _ (err no_jar) (server t)))
                    (λ _. no_flavor refl refl))))

  -- The flavor that is detected in a directory starts a jar that is there: Fabric's and vanilla's always, for
  -- Paper paper.jar or else the lexically last paper-*.jar, for Forge the last forge-*-universal.jar or else
  -- server.jar. Without any of these Paper and Forge have no jar to start, and an unknown flavor has none.
  -- What os.Stat says of a name is whether the listing has it.
  pub find_launch_jar-Ends :
      (forge_dir : Bool) {flavor : String}
      → detect_flavor (some (entry_names es)) forge_dir ≡ some flavor
      → Ends es flavor (find_launch_jar stat (some es) flavor)
  unfolding detect_flavor find_launch_jar
  find_launch_jar-Ends forge_dir {flavor} h =
      let start : Markers = record {
        fabric = false;
        forge_jar = false;
        paper_jar = false;
        paper_history = false;
        server_jar = false;
      } in
      let seen = see_all (entry_names es) start in
      subst (λ f. Ends es f (launch_jar stat es f)) (some-injective _ _ h)
        (flavored forge_dir seen
          (λ t. elim (see_all-listed (λ x. x.fabric) _ see-fabric es start t) [
            | inl n ↦ cc
            | inr l ↦ l
          ])
          (λ t. elim (see_all-listed (λ x. x.server_jar) _ see-server_jar es start t) [
            | inl n ↦ cc
            | inr l ↦ l
          ]))
