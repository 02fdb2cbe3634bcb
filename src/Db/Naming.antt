-- ===== src/Db/Naming.antt =====
-- Lemmas on the names of the baseline files.
use postgrest_conformance.Base.{
  ℕ, Bool, true, not, [], ◌∷◌, ◌++◌, ◌≡◌, refl, sym, ap, ◌∙◌, map, all, ◌==◌, arith, ◌&&◌,
}
use mathlib.Core.List.{append_cancel_right}
use postgrest_conformance.Base.Text.{Bytes, codes}
use postgrest_conformance.Db.Server.{PgEnv}
use postgrest_conformance.Db.Baselines.{baseline_name, flat_byte, safe_byte}

-- A text that is kept as it is.
abbrev pub is_safe : Bytes → Bool
is_safe s = all safe_byte s

-- Two texts in front of a separator that the second of each pair does not have, and of what follows.
abbrev pub has_no : ℕ → Bytes → Bool
has_no c s = all (λ x. not (x == c)) s

abbrev pub tail : Bytes → Bytes
tail [] = []
tail (c ∷ s) = s

abbrev pub head : ℕ → Bytes → ℕ
head d [] = d
head d (c ∷ s) = c

map-safe : (s : Bytes) → is_safe s ≡ true → map flat_byte s ≡ s
map-safe [] h = refl
map-safe (c ∷ s) h =
    let safe : safe_byte c ≡ true = ground (arith, h) in
    let rest : is_safe s ≡ true = ground (arith, h) in rw (safe, map-safe s rest) refl

all-append : (t : ℕ → Bool) (a b : Bytes) → all t (a ++ b) ≡ (all t a && all t b)
all-append t [] b = refl
all-append t (x ∷ a) b = ground (arith, all-append t a b)

split :
    (c : ℕ) (a b x y : Bytes)
    → has_no c a ≡ true
    → has_no c b ≡ true
    → a ++ c ∷ x ≡ b ++ c ∷ y
    → (a ≡ b) × (x ≡ y)
split c [] [] x y h k e = (refl, ap tail e)
split c [] (b ∷ bs) x y h k e = let same : c ≡ b = ap (head c) e in absurd (ground (arith, k, same))
split c (a ∷ at) [] x y h k e = let same : a ≡ c = ap (head c) e in absurd (ground (arith, h, same))
split c (a ∷ at) (b ∷ bs) x y h k e =
    let same : a ≡ b = ap (head c) e in
    let rest = split c at bs x y (ground (arith, h)) (ground (arith, k)) (ap tail e) in (cc, rest.1)

-- A host and a port that are safe and have no underscore.
abbrev pub is_plain : PgEnv → Bool
is_plain p = (is_safe p.host && has_no b'_' p.host) && (is_safe p.port && has_no b'_' p.port)

baseline_name-plain :
    (p : PgEnv) (d : Bytes)
    → is_plain p ≡ true
    → is_safe d ≡ true
    → baseline_name p d ≡ (p.host ++ (b'_' ∷ (p.port ++ (b'_' ∷ d)))) ++ codes ".json"
unfolding baseline_name
baseline_name-plain p d h k =
    let tail_safe : is_safe (p.port ++ (b'_' ∷ d)) ≡ true =
      rw (all-append safe_byte p.port (b'_' ∷ d)) (ground (arith, h, k)) in
    let safe : is_safe (p.host ++ (b'_' ∷ (p.port ++ (b'_' ∷ d)))) ≡ true =
      rw (all-append safe_byte p.host (b'_' ∷ (p.port ++ (b'_' ∷ d))))
        (ground (arith, h, tail_safe)) in
    ap (λ t. t ++ codes ".json") (map-safe (p.host ++ (b'_' ∷ (p.port ++ (b'_' ∷ d)))) safe)

-- Databases share a baseline file only if they are one database of one server: equal file names have
-- the same host, port and database, when the names need no replacement and neither the hosts nor the
-- ports have an underscore.
pub baseline_name-inj :
    (p q : PgEnv) (d e : Bytes)
    → is_plain p ≡ true
    → is_plain q ≡ true
    → is_safe d ≡ true
    → is_safe e ≡ true
    → baseline_name p d ≡ baseline_name q e
    → (p.host ≡ q.host) × (p.port ≡ q.port) × (d ≡ e)
baseline_name-inj p q d e h k i j same =
    let whole : (p.host ++ (b'_' ∷ (p.port ++ (b'_' ∷ d))))
        ≡ (q.host ++ (b'_' ∷ (q.port ++ (b'_' ∷ e)))) =
      append_cancel_right _ _ (codes ".json")
        (sym (baseline_name-plain p d h i) ∙ same ∙ baseline_name-plain q e k j) in
    let hosts = split b'_' p.host q.host _ _ (ground (arith, h)) (ground (arith, k)) whole in
    let ports = split b'_' p.port q.port _ _ (ground (arith, h)) (ground (arith, k)) hosts.1 in
    (hosts.0, ports.0, ports.1)
