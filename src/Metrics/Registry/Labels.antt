-- ===== src/Metrics/Registry/Labels.antt =====
-- internal/metrics/registry.go: a series' key determines its label values.
use mcsm.Common.{
  ℕ, ◌≡◌, refl, sym, ap, ap₂, ◌∙◌, Bool, true, false, Option, none, some, List, [], ◌∷◌, ◌++◌,
  append_assoc, Bytes, codes, length, ◌==◌, if◌then◌else◌, arith,
}
use mcsm.Metrics.Registry.{replace_all, escape_label, join, pair, pairs, label_key}

-- What stands for one byte of a label value.
hidden : ℕ → Bytes
hidden c =
    if c == b'\\'
    then codes "\\\\"
    else (if c == b'"' then codes "\\\"" else (if c == b'\n' then codes "\\n" else c ∷ []))

hide : Bytes → Bytes
unfolding hidden
hide [] = []
hide (c ∷ s) = hidden c ++ hide s

escape_label-cons : (c : ℕ) (s : Bytes) → escape_label (c ∷ s) ≡ hidden c ++ escape_label s
unfolding escape_label hidden replace_all
escape_label-cons c s = ground arith

-- The three passes do what one does.
escape_label-hide : (s : Bytes) → escape_label s ≡ hide s
unfolding escape_label hide replace_all
escape_label-hide [] = refl
escape_label-hide (c ∷ s) = escape_label-cons c s ∙ ap (λ t. hidden c ++ t) (escape_label-hide s)

-- A quoted value, up to its closing quote, and what follows; the flag says that a backslash is open.
front : ℕ → Option (Bytes × Bytes) → Option (Bytes × Bytes)
front c none = none
front c (some (v, rest)) = some (c ∷ v, rest)

read_quoted : Bytes → Bool → Option (Bytes × Bytes)
unfolding front
read_quoted [] open_flag = none
read_quoted (c ∷ s) true = front (if c == b'n' then b'\n' else c) (read_quoted s false)
read_quoted (c ∷ s) false =
    let escaped = read_quoted s true in
    let copied = front c (read_quoted s false) in
    if c == b'"' then some ([], s) else (if c == b'\\' then escaped else copied)

read_quoted-hide : (v rest : Bytes) → read_quoted (hide v ++ (b'"' ∷ rest)) false ≡ some (v, rest)
unfolding read_quoted hide hidden front
read_quoted-hide [] rest = refl
read_quoted-hide (c ∷ v) rest = ground (arith, read_quoted-hide v rest)

-- A quoted value and what follows it are told apart.
quoted-injective :
    (v w r q : Bytes)
    → escape_label v ++ (b'"' ∷ r) ≡ escape_label w ++ (b'"' ∷ q)
    → (v ≡ w) × (r ≡ q)
quoted-injective v w r q e =
    let same : ◌≡◌ {A = Option (Bytes × Bytes)} (some (v, r)) (some (w, q)) =
      sym (read_quoted-hide v r)
      ∙ ap (λ s. read_quoted (s ++ (b'"' ∷ r)) false) (sym (escape_label-hide v))
      ∙ ap (λ s. read_quoted s false) e
      ∙ ap (λ s. read_quoted (s ++ (b'"' ∷ q)) false) (escape_label-hide w)
      ∙ read_quoted-hide w q in
    (cc, cc)

append-cancel_left : (xs ys zs : Bytes) → xs ++ ys ≡ xs ++ zs → ys ≡ zs
append-cancel_left [] ys zs e = e
append-cancel_left (x ∷ xs) ys zs e = append-cancel_left xs ys zs (cc)

pair-append : (n v r : Bytes) → pair n v ++ r ≡ (n ++ codes "=\"") ++ (escape_label v ++ (b'"' ∷ r))
unfolding pair
pair-append n v r = simp append_assoc

pair-injective : (n v w r q : Bytes) → pair n v ++ r ≡ pair n w ++ q → (v ≡ w) × (r ≡ q)
pair-injective n v w r q e =
    quoted-injective v w r q
      (append-cancel_left (n ++ codes "=\"") _ _ (sym (pair-append n v r) ∙ e ∙ pair-append n w q))

-- For label values as many as there are names.
pub label_key-injective :
    (names vs ws : List Bytes)
    → length vs ≡ length names
    → length ws ≡ length names
    → label_key names vs ≡ label_key names ws
    → vs ≡ ws
unfolding label_key join pairs
label_key-injective [] [] [] h k e = refl
label_key-injective [] [] (w ∷ ws) h k e = ground (k, arith)
label_key-injective [] (v ∷ vs) ws h k e = ground (h, arith)
label_key-injective (n ∷ ns) [] ws h k e = ground (h, arith)
label_key-injective (n ∷ ns) (v ∷ vs) [] h k e = ground (k, arith)
label_key-injective (n ∷ []) (v ∷ []) (w ∷ []) h k e =
    ap (λ a. a ∷ []) (pair-injective n v w [] [] (ap (λ s. s ++ []) e)).0
label_key-injective (n ∷ []) (v ∷ []) (w ∷ x ∷ ws) h k e = ground (k, arith)
label_key-injective (n ∷ []) (v ∷ x ∷ vs) (w ∷ ws) h k e = ground (h, arith)
label_key-injective (n ∷ m ∷ ns) (v ∷ []) (w ∷ ws) h k e = ground (h, arith)
label_key-injective (n ∷ m ∷ ns) (v ∷ x ∷ vs) (w ∷ []) h k e = ground (k, arith)
label_key-injective (n ∷ m ∷ ns) (v ∷ x ∷ vs) (w ∷ y ∷ ws) h k e =
    let (p, q) = pair-injective n v w _ _ e in
    ap₂ (λ a b. a ∷ b) p
      (label_key-injective (m ∷ ns) (x ∷ vs) (y ∷ ws) (omega arith) (omega arith) (cc))
