-- ===== src/Run/Loop/Kinds.antt =====
-- Lemmas on the cases of the two kinds.
use mathlib.Core.List.{Permᴰ, Perm, perm_middle, perm_append_comm}
use mathlib.Core.List.Perm
use mathlib.Core.Logic.{∥∥₁_elim, ∥∥₁_prop}
use postgrest_conformance.Base.{
  Bool, true, false, List, [], ◌∷◌, ◌++◌, ◌≡◌, refl, sym, ap, Option, none, some, if◌then◌else◌,
  map, keep, All, Bool-cases, inl, inr, append_assoc, append-nil, ◌⊎◌,
}
use postgrest_conformance.Base.Text.{str_eq}
use postgrest_conformance.Base.Int.{ℤ}
use postgrest_conformance.Cases.{Case, Kind, http, cli}
use postgrest_conformance.Route.{Placement}
use postgrest_conformance.Run.{
  HttpGroup, cases_of, new_group, join_group, bucket_case, bucket, groups_in_order,
  effective_selection, runs,
}
use postgrest_conformance.Run.Schedule.{groups_in_order_lem}
use postgrest_conformance.Run.Loop.{if_cli}

abbrev pub case_ids : List Case → List ℤ
case_ids = map (λ c. c.id)

abbrev pub is_cli : Case → Bool
is_cli c = if_cli c.request.kind true false

abbrev pub is_http : Case → Bool
is_http c = if_cli c.request.kind false true

-- The case has a placement, of its own kind.
abbrev pub has_kind : Kind → Option Placement → Bool
has_kind k none = false
has_kind cli (some p) = if_cli p.kind true false
has_kind http (some p) = if_cli p.kind false true

abbrev pub flat : List HttpGroup → List Case
flat [] = []
flat (g ∷ gs) = cases_of g ++ flat gs

pub map-append {ℓ κ} :
    {A : Type ℓ} {B : Type κ} (f : A → B) (xs ys : List A) → map f (xs ++ ys) ≡ map f xs ++ map f ys
map-append f [] ys = refl
map-append f (x ∷ xs) ys = ap (λ l. f x ∷ l) (map-append f xs ys)

swap_front {ℓ} : {A : Type ℓ} (x y l : List A) → Perm (x ++ (y ++ l)) (y ++ (x ++ l))
swap_front x y l =
    rw (sym (append_assoc x y l), sym (append_assoc y x l))
      (Perm.append_right l (perm_append_comm x y))

flat-permᴰ : (gs hs : List HttpGroup) → Permᴰ gs hs → Perm (flat gs) (flat hs)
flat-permᴰ gs hs Permᴰ.nil = Perm.refl []
flat-permᴰ gs hs (Permᴰ.cons {b = b} e p) = rw e (Perm.append_left (cases_of b) (flat-permᴰ _ _ p))
flat-permᴰ gs hs (Permᴰ.swap {a' = a'} {b' = b'} {l = l} e f) =
    rw (e, f) (swap_front (cases_of b') (cases_of a') (flat l))
flat-permᴰ gs hs (Permᴰ.trans p q) = Perm.trans (flat-permᴰ _ _ p) (flat-permᴰ _ _ q)

flat-join_group :
    (p : Placement) (c : Case) (gs : List HttpGroup) → Perm (flat (join_group p c gs)) (c ∷ flat gs)
unfolding join_group new_group
flat-join_group p c [] = Perm.refl _
flat-join_group p c (g ∷ gs) = elim (Bool-cases (str_eq g.key p.group_key)) [
  | inl same ↦
      rw (same, append_assoc g.later (c ∷ []) (flat gs)) (perm_middle (cases_of g) (flat gs))
  | inr other ↦ rw other (
      Perm.trans (Perm.append_left (cases_of g) (flat-join_group p c gs))
        (perm_middle (cases_of g) (flat gs)))
]

-- what a case adds to the groups
abbrev joined : Kind → Case → List Case
joined cli c = []
joined http c = c ∷ []

flat-if_http :
    (k : Kind) (p : Placement) (c : Case) (gs : List HttpGroup)
    → has_kind k (some p) ≡ true
    → Perm (flat (bucket_case (some p) c gs)) (joined k c ++ flat gs)
unfolding bucket_case
flat-if_http cli p c gs h =
    elim (p.kind)
        as (λ k.
          if_cli k true false ≡ true
          → Perm (flat (bucket_case (some (record p { kind = k })) c gs)) (flat gs)) [
            | cli ↦ λ _. Perm.refl (flat gs)
            | http ↦ λ e. cc
          ]
      h
flat-if_http http p c gs h =
    elim (p.kind)
        as (λ k.
          if_cli k false true ≡ true
          → Perm (flat (bucket_case (some (record p { kind = k })) c gs)) (c ∷ flat gs)) [
            | cli ↦ λ e. cc
            | http ↦ λ _. flat-join_group p c gs
          ]
      h

flat-bucket_case :
    (k : Kind) (o : Option Placement) (c : Case) (gs : List HttpGroup)
    → has_kind k o ≡ true
    → Perm (flat (bucket_case o c gs)) (joined k c ++ flat gs)
flat-bucket_case k none c gs h = cc
flat-bucket_case k (some p) c gs h = flat-if_http k p c gs h

kept :
    (k : Kind) (c : Case) (xs ks : List Case)
    → Perm ((joined k c ++ xs) ++ ks) (xs ++ (if if_cli k false true then c ∷ ks else ks))
kept cli c xs ks = Perm.refl _
kept http c xs ks = Perm.symm (perm_middle xs ks)

flat-bucket :
    (placements : ℤ → Option Placement) (gs : List HttpGroup) (cs : List Case)
    → All (λ c. has_kind c.request.kind (placements c.id) ≡ true) cs
    → Perm (flat (bucket placements gs cs)) (flat gs ++ keep is_http cs)
unfolding bucket
flat-bucket placements gs [] h = rw (append-nil (flat gs)) (Perm.refl (flat gs))
flat-bucket placements gs (c ∷ cs) h =
    Perm.trans (flat-bucket placements (bucket_case (placements c.id) c gs) cs h.1) (
      Perm.trans
        (Perm.append_right (keep is_http cs)
          (flat-bucket_case c.request.kind (placements c.id) c gs h.0))
        (kept c.request.kind c (flat gs) (keep is_http cs)))

pub flat-groups_in_order :
    (placements : ℤ → Option Placement) (cs : List Case)
    → All (λ c. has_kind c.request.kind (placements c.id) ≡ true) cs
    → Perm (flat (groups_in_order placements cs)) (keep is_http cs)
flat-groups_in_order placements cs h =
    Perm.trans (∥∥₁_elim (groups_in_order_lem placements cs).0 ∥∥₁_prop (λ p. flat-permᴰ _ _ p))
      (flat-bucket placements [] cs h)

Kind-cases : (k : Kind) → (k ≡ cli) ⊎ (k ≡ http)
Kind-cases cli = inl refl
Kind-cases http = inr refl

keep_ext {ℓ} :
    {A : Type ℓ} (p q : A → Bool) → ((a : A) → p a ≡ q a) → (l : List A) → keep p l ≡ keep q l
keep_ext p q e [] = refl
keep_ext p q e (a ∷ l) = rw (e a, keep_ext p q e l) refl

keep_none {ℓ} : {A : Type ℓ} (p : A → Bool) → ((a : A) → p a ≡ false) → (l : List A) → keep p l ≡ []
keep_none p e [] = refl
keep_none p e (a ∷ l) = rw (e a) (keep_none p e l)

one_more :
    (k : Kind) (c : Case) (xs ys zs : List Case)
    → Perm (xs ++ ys) zs
    → Perm
        ((if if_cli k true false then c ∷ xs else xs)
          ++ (if if_cli k false true then c ∷ ys else ys))
        (if runs false false k then c ∷ zs else zs)
one_more cli c xs ys zs p = Perm.cons c p
one_more http c xs ys zs p = Perm.trans (perm_middle xs ys) (Perm.cons c p)

-- The cases of each kind, one kind after the other.
by_kinds :
    (l : List Case)
    → Perm (keep is_cli l ++ keep is_http l) (keep (λ c. runs false false c.request.kind) l)
by_kinds [] = Perm.refl []
by_kinds (c ∷ l) = one_more c.request.kind c _ _ _ (by_kinds l)

abbrev pub unless {ℓ} : {A : Type ℓ} → Bool → List A → List A
unless skip l = if skip then [] else l

pub split-selection :
    (skip_cli skip_http : Bool) (l : List Case)
    → Perm
        (unless skip_cli (keep is_cli l) ++ unless skip_http (keep is_http l))
        (effective_selection l skip_cli skip_http)
unfolding effective_selection
split-selection false false l = by_kinds l
split-selection true true l =
    rw
      (keep_none (λ c. runs true true c.request.kind)
        (λ c. elim (Kind-cases c.request.kind) [ inl e ↦ rw e refl | inr e ↦ rw e refl ]) l)
      (Perm.refl [])
split-selection true false l =
    rw
      (keep_ext (λ c. runs true false c.request.kind) is_http
        (λ c. elim (Kind-cases c.request.kind) [ inl e ↦ rw e refl | inr e ↦ rw e refl ]) l)
      (Perm.refl _)
split-selection false true l =
    rw
      (
        append-nil (keep is_cli l),
        keep_ext (λ c. runs false true c.request.kind) is_cli
            (λ c. elim (Kind-cases c.request.kind) [ inl e ↦ rw e refl | inr e ↦ rw e refl ]) l,
      )
      (Perm.refl _)
