-- ===== src/Discovery/Scan/First.antt =====
-- internal/discovery/discovery.go: which server stands in the catalog under an id.
use mcsm.Common.{
  ℕ, ◌≡◌, ◌≢◌, refl, sym, ap, ap₂, subst, ◌∙◌, true, false, ◌&&◌, Bool-cases, inl, inr, Option,
  none, some, String, str_eq, str_eq_iff, List, [], ◌∷◌, ◌++◌, append-nil, append_assoc, Permᴰ, All,
  All-perm, Pairwise, Pairwise-snoc, if◌then◌else◌, arith,
}
use mcsm.Discovery.Scan.{
  Discovered, Entry, scan_one, has_id, add_one, scan_entry, scan_entries, scan_roots, scan,
  find_by_id,
}

-- The servers that stand in a root, and below all roots, one after the other, whatever their ids.
abbrev listed : Option Discovered → List Discovered
listed none = []
listed (some d) = d ∷ []

abbrev pub servers_of : String → String → ℕ → ℕ → List Entry → List Discovered
servers_of root self threshold now [] = []
servers_of root self threshold now (e ∷ es) =
    (if e.is_dir && e.is_likely_server_dir then listed (scan_one root self threshold now e) else [])
    ++ servers_of root self threshold now es

abbrev pub all_servers : String → ℕ → ℕ → List (String × Option (List Entry)) → List Discovered
all_servers self threshold now [] = []
all_servers self threshold now ((root, none) ∷ rs) = all_servers self threshold now rs
all_servers self threshold now ((root, some es) ∷ rs) =
    servers_of root self threshold now es ++ all_servers self threshold now rs

abbrev Apart : Discovered → Discovered → Type 0
Apart d e = d.server.id ≢ e.server.id

abbrev pub IsDistinct : List Discovered → Type 0
IsDistinct = Pairwise Apart

-- The same server is found in front of anything.
abbrev SameFirst : List Discovered → List Discovered → Type 0
SameFirst xs ys =
    (id : String) (zs : List Discovered) → find_by_id id (xs ++ zs) ≡ find_by_id id (ys ++ zs)

-- A catalog with distinct ids, in which the same are found as in a list.
abbrev Represents : List Discovered → List Discovered → Type 0
Represents xs ys = IsDistinct xs × SameFirst xs ys

no_id : (id : String) (ds : List Discovered) → has_id id ds ≡ false → All (λ d. d.server.id ≢ id) ds
unfolding has_id
no_id id [] h = tt
no_id id (d ∷ ds) h = elim (Bool-cases (str_eq d.server.id id)) [
  | inl t ↦ ground (t, h, arith)
  | inr f ↦ (
    (λ e. ground ((str_eq_iff d.server.id id).1 e, f, arith)),
    no_id id ds (ground (f, h, arith)),
  )
]

-- A server with another id is passed over.
passed_over :
    (id : String) (d : Discovered) (ds zs : List Discovered)
    → str_eq d.server.id id ≡ false
    → find_by_id id (ds ++ zs) ≡ find_by_id id ((ds ++ d ∷ []) ++ zs)
unfolding find_by_id
passed_over id d [] zs f = rw f refl
passed_over id d (c ∷ cs) zs f =
    ap (λ r. if str_eq c.server.id id then some c else r) (passed_over id d cs zs f)

has_first :
    (d : Discovered) (ds : List Discovered)
    → has_id d.server.id ds ≡ true
    → SameFirst ds (ds ++ d ∷ [])
unfolding has_id find_by_id
has_first d [] h id zs = ground (h, arith)
has_first d (c ∷ cs) h id zs = elim (Bool-cases (str_eq c.server.id id)) [
  | inl t ↦ rw t refl
  | inr f ↦ rw f (elim (Bool-cases (str_eq c.server.id d.server.id)) [
    | inl same ↦
        passed_over id d cs zs (subst (λ n. str_eq n id ≡ false) ((str_eq_iff _ _).0 same) f)
    | inr other ↦ has_first d cs (ground (other, h, arith)) id zs
  ])
]

Represents-nil : (ds : List Discovered) → IsDistinct ds → Represents ds (ds ++ [])
Represents-nil ds h = (h, λ id zs. ap (λ xs. find_by_id id (xs ++ zs)) (sym (append-nil ds)))

Represents-then :
    (ws xs bs cs ds : List Discovered)
    → SameFirst ws (ds ++ bs)
    → Represents xs (ws ++ cs)
    → Represents xs (ds ++ (bs ++ cs))
Represents-then ws xs bs cs ds f (l, g) = (
  l,
  λ id zs.
      g id zs
      ∙ ap (find_by_id id) (append_assoc ws cs zs)
      ∙ f id (cs ++ zs)
      ∙ ap (find_by_id id) (sym (append_assoc (ds ++ bs) cs zs))
      ∙ ap (λ as'. find_by_id id (as' ++ zs)) (append_assoc ds bs cs),
)

add_one-Represents :
    (o : Option Discovered) (ds : List Discovered)
    → IsDistinct ds
    → Represents (add_one o ds) (ds ++ listed o)
unfolding add_one
add_one-Represents none ds h = Represents-nil ds h
add_one-Represents (some d) ds h = elim (Bool-cases (has_id d.server.id ds)) [
  | inl t ↦ rw t (h, has_first d ds t)
  | inr f ↦ rw f (Pairwise-snoc Apart ds d h (no_id d.server.id ds f), λ id zs. refl)
]

scan_entry-Represents :
    (root self : String) (threshold now : ℕ) (e : Entry) (ds : List Discovered)
    → IsDistinct ds
    → Represents (scan_entry root self threshold now e ds) (
        ds
        ++ (if e.is_dir && e.is_likely_server_dir
            then listed (scan_one root self threshold now e)
            else []))
unfolding scan_entry
scan_entry-Represents root self threshold now e ds h =
    elim (Bool-cases (e.is_dir && e.is_likely_server_dir)) [
      | inl t ↦ rw t (add_one-Represents (scan_one root self threshold now e) ds h)
      | inr f ↦ rw f (Represents-nil ds h)
    ]

scan_entries-Represents :
    (root self : String) (threshold now : ℕ) (es : List Entry) (ds : List Discovered)
    → IsDistinct ds
    → Represents
        (scan_entries root self threshold now es ds)
        (ds ++ servers_of root self threshold now es)
unfolding scan_entries
scan_entries-Represents root self threshold now [] ds h = Represents-nil ds h
scan_entries-Represents root self threshold now (e ∷ es) ds h =
    let (k, f) = scan_entry-Represents root self threshold now e ds h in
    Represents-then _ _ _ (servers_of root self threshold now es) ds f
      (scan_entries-Represents root self threshold now es _ k)

scan_roots-Represents :
    (self : String) (threshold now : ℕ) (rs : List (String × Option (List Entry)))
    (ds : List Discovered)
    → IsDistinct ds
    → Represents (scan_roots self threshold now rs ds) (ds ++ all_servers self threshold now rs)
unfolding scan_roots
scan_roots-Represents self threshold now [] ds h = Represents-nil ds h
scan_roots-Represents self threshold now ((root, none) ∷ rs) ds h =
    scan_roots-Represents self threshold now rs ds h
scan_roots-Represents self threshold now ((root, some es) ∷ rs) ds h =
    let (k, f) = scan_entries-Represents root self threshold now es ds h in
    Represents-then _ _ _ (all_servers self threshold now rs) ds f
      (scan_roots-Represents self threshold now rs _ k)

first_of : String → Discovered → Option Discovered → Option Discovered
first_of id d r = if str_eq d.server.id id then some d else r

first_of-swap :
    (id : String) (a b : Discovered) (r : Option Discovered)
    → Apart a b
    → first_of id a (first_of id b r) ≡ first_of id b (first_of id a r)
unfolding first_of
first_of-swap id a b r n = elim (Bool-cases (str_eq a.server.id id)) [
  | inl t ↦ elim (Bool-cases (str_eq b.server.id id)) [
    | inl u ↦ absurd (n ((str_eq_iff _ _).0 t ∙ sym ((str_eq_iff _ _).0 u)))
    | inr g ↦ rw (t, g) refl
  ]
  | inr f ↦ rw f refl
]

-- The order of a list with distinct ids does not matter.
find_by_id-perm :
    (id : String) {xs ys : List Discovered}
    → Permᴰ xs ys
    → IsDistinct xs
    → (find_by_id id xs ≡ find_by_id id ys) × IsDistinct ys
unfolding find_by_id first_of
find_by_id-perm id Permᴰ.nil h = (refl, tt)
find_by_id-perm id (Permᴰ.cons {a = a} {b = b} {l₁ = l} e p) h =
    let (q, k) = find_by_id-perm id p h.1 in
    (ap₂ (first_of id) e q, (All-perm (Apart b) p (subst (λ x. All (Apart x) l) e h.0), k))
find_by_id-perm id (Permᴰ.swap {a = a} {b = b} {b' = b'} {l = l} e d) h = (
  first_of-swap id a b (find_by_id id l) h.0.0
      ∙ ap₂ (λ x y. first_of id x (first_of id y (find_by_id id l))) d e,
  subst (λ x. IsDistinct (x ∷ b' ∷ l)) d
      (subst (λ y. IsDistinct (b ∷ y ∷ l)) e ((λ q. h.0.0 (sym q), h.1.0), (h.0.1, h.1.1))),
)
find_by_id-perm id (Permᴰ.trans p q) h =
    let (e, k) = find_by_id-perm id p h in let (f, l) = find_by_id-perm id q k in (e ∙ f, l)

-- If the sorting only reorders, the catalog that Scan gives has no id twice, and FindByID on it finds,
-- for each id, the first server with the id below the roots in their order, or none if none has it.
pub find_by_id-scan :
    (sort : List Discovered → List Discovered)
    → ((ds : List Discovered) → Permᴰ ds (sort ds))
    → (self : String) (threshold now : ℕ) (roots : List (String × Option (List Entry)))
      (id : String)
    → (find_by_id id (scan sort self threshold now roots)
        ≡ find_by_id id (all_servers self threshold now roots))
      × IsDistinct (scan sort self threshold now roots)
unfolding scan
find_by_id-scan sort perm self threshold now roots id =
    let (h, f) = scan_roots-Represents self threshold now roots [] tt in
    let (e, k) = find_by_id-perm id (perm _) h in
    (
      sym e
          ∙ ap (find_by_id id) (sym (append-nil (scan_roots self threshold now roots [])))
          ∙ f id []
          ∙ ap (find_by_id id) (append-nil (all_servers self threshold now roots)),
      k,
    )
