-- ===== src/Route/GroupKey.antt =====
-- Lemmas on `groupKey` of route.go.
use postgrest_conformance.Base.{
  true, false, List, [], ◌∷◌, ◌++◌, some, ◌≡◌, refl, ap, ◌∙◌, append_assoc, if◌then◌else◌, is_empty,
}
use postgrest_conformance.Base.Text.{Bytes, str_eq, str_le, str_eq_refl, join}
use postgrest_conformance.Base.Assoc.{Assoc, lookup, keys, distinct, lookup-cons, lookup-nil}
use postgrest_conformance.Base.Same.{SameMap, Same-keys-perm}
use postgrest_conformance.Base.Sort.{sort, sort_strings, sort-eq_of_perm, str-Order, Bytes-set}
use postgrest_conformance.Route.{Val, set, key_part, key_parts, group_key_of}

key_parts-SameMap :
    (o o' : Assoc Val) (ks : List Bytes) → SameMap o o' → key_parts o ks ≡ key_parts o' ks
unfolding key_parts
key_parts-SameMap o o' [] h = refl
key_parts-SameMap o o' (k ∷ ks) h = rw (h k, key_parts-SameMap o o' ks h)

some-at-head : (k : Bytes) (v : Val) (o : Assoc Val) → lookup k ((k, v) ∷ o) ≡ some v
some-at-head k v o = lookup-cons k k v o ∙ rw (str_eq_refl k)

is_empty-SameMap : (o o' : Assoc Val) → SameMap o o' → is_empty o ≡ is_empty o'
is_empty-SameMap [] [] h = refl
is_empty-SameMap [] ((k, v) ∷ o') h = cc (h k, lookup-nil {V = Val} k, some-at-head k v o')
is_empty-SameMap ((k, v) ∷ o) [] h = cc (h k, lookup-nil {V = Val} k, some-at-head k v o)
is_empty-SameMap (e ∷ o) (e' ∷ o') h = refl

-- Overlays with distinct keys that are the same map, whatever the order of their entries, give one group key on a base:
-- their cases are served by one instance.
pub group_key_of-SameMap :
    (base : Bytes) (o o' : Assoc Val)
    → distinct (keys o) ≡ true
    → distinct (keys o') ≡ true
    → SameMap o o'
    → group_key_of base o ≡ group_key_of base o'
unfolding group_key_of
group_key_of-SameMap base o o' d d' h =
    let sorted : sort_strings (keys o) ≡ sort_strings (keys o') =
      sort-eq_of_perm str-Order Bytes-set (Same-keys-perm o o' d d' h) in
    rw (is_empty-SameMap o o' h, sorted, key_parts-SameMap o o' (sort_strings (keys o')) h)

two_sorted : (a b : Bytes) → str_le a b ≡ true → sort_strings (a ∷ b ∷ []) ≡ a ∷ b ∷ []
unfolding sort
two_sorted a b h = rw h

-- Two settings, of different keys in their order, and one setting whose value spells both are different overlays with one group key:
-- the serialisation does not protect the separators inside a value.
pub group_key_of_collides :
    (base a b x y : Bytes)
    → str_le a b ≡ true
    → str_eq a b ≡ false
    → (group_key_of base ((a, set x) ∷ (b, set y) ∷ [])
        ≡ group_key_of base ((a, set (x ++ (b';' ∷ (b ++ (b'=' ∷ y))))) ∷ []))
      × (¬ (
          SameMap ((a, set x) ∷ (b, set y) ∷ []) ((a, set (x ++ (b';' ∷ (b ++ (b'=' ∷ y))))) ∷ [])))
unfolding group_key_of key_parts key_part join
group_key_of_collides base a b x y h n = (
  one_key,
  λ same. cc (
    same b,
    lookup-cons a b (set x) ((b, set y) ∷ []),
    some-at-head b (set y) [],
    lookup-cons a b (set (x ++ (b';' ∷ (b ++ (b'=' ∷ y))))) [],
    lookup-nil {V = Val} b,
    ap (λ t. if t then some (set x) else lookup b ((b, set y) ∷ [])) n,
    ap (λ t. if t then some (set (x ++ (b';' ∷ (b ++ (b'=' ∷ y))))) else lookup b []) n,
  ),
)
  where
    one_key :
        group_key_of base ((a, set x) ∷ (b, set y) ∷ [])
        ≡ group_key_of base ((a, set (x ++ (b';' ∷ (b ++ (b'=' ∷ y))))) ∷ [])
    one_key = rw (two_sorted a b h, str_eq_refl a, str_eq_refl b, n, key_part) (simp append_assoc)
