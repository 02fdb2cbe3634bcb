-- ===== src/Run/Groups.antt =====
-- Lemmas on the cases of the groups of run.go.
use postgrest_conformance.Base.{
  Bool, true, false, not, ◌||◌, List, [], ◌∷◌, ◌++◌, Option, none, some, ◌≡◌, refl, ◌∙◌, ap,
  if◌then◌else◌, keep, any, arith, Bool-cases, inl, inr, append-nil, append_assoc, and_true,
}
use postgrest_conformance.Base.Text.{Bytes, str_eq, str_eq_iff}
use postgrest_conformance.Base.Assoc.{mem, distinct}
use postgrest_conformance.Base.Int.{ℤ}
use postgrest_conformance.Cases.{Case, Kind, http, cli}
use postgrest_conformance.Route.{Placement}
use postgrest_conformance.Run.{
  HttpGroup, cases_of, if_http, new_group, join_group, bucket_case, bucket,
}

abbrev pub keys_of : List HttpGroup → List Bytes
keys_of [] = []
keys_of (g ∷ gs) = g.key ∷ keys_of gs

-- the cases of the group of a key, none where there is no such group
abbrev pub cases_at : Bytes → List HttpGroup → List Case
cases_at k [] = []
cases_at k (g ∷ gs) = if str_eq g.key k then cases_of g else cases_at k gs

-- A placement that is served over HTTP in the group of this key.
abbrev pub has_key : Option Placement → Bytes → Bool
has_key none k = false
has_key (some p) k = if_http p.kind (str_eq p.group_key k) false

abbrev pub routed_to : (ℤ → Option Placement) → Bytes → Case → Bool
routed_to placements k c = has_key (placements c.id) k

cases_at-join_group :
    (k : Bytes) (p : Placement) (c : Case) (gs : List HttpGroup)
    → cases_at k (join_group p c gs)
      ≡ cases_at k gs ++ (if str_eq p.group_key k then c ∷ [] else [])
unfolding join_group new_group
cases_at-join_group k p c [] = refl
cases_at-join_group k p c (g ∷ gs) = elim (Bool-cases (str_eq g.key p.group_key)) [
  | inl same ↦
      let e : g.key ≡ p.group_key = (str_eq_iff g.key p.group_key).0 same in
      let e' : str_eq g.key k ≡ str_eq p.group_key k = ap (λ x. str_eq x k) e in
      elim (Bool-cases (str_eq p.group_key k)) [
        | inl here ↦ rw (same, e' ∙ here, here)
        | inr elsewhere ↦ rw (same, e' ∙ elsewhere, elsewhere, append-nil)
      ]
  | inr other ↦ elim (Bool-cases (str_eq g.key k)) [
    | inl here ↦
        let no : str_eq p.group_key k ≡ false =
          ground
            (arith, str_eq_iff g.key k, str_eq_iff p.group_key k, str_eq_iff g.key p.group_key) in
        rw (other, here, no, append-nil)
    | inr elsewhere ↦ rw (other, elsewhere) (cases_at-join_group k p c gs)
  ]
]

mem-keys_of-join_group :
    (k : Bytes) (p : Placement) (c : Case) (gs : List HttpGroup)
    → mem k (keys_of (join_group p c gs)) ≡ (str_eq p.group_key k || mem k (keys_of gs))
unfolding join_group new_group
mem-keys_of-join_group k p c [] = refl
mem-keys_of-join_group k p c (g ∷ gs) = ground (
  arith,
  str_eq_iff g.key p.group_key,
  str_eq_iff g.key k,
  str_eq_iff p.group_key k,
  mem-keys_of-join_group k p c gs,
)

-- What one case adds to the cases of a key.
abbrev added : Bool → Case → List Case
added b c = if b then c ∷ [] else []

module _ (k : Bytes) (c : Case) (gs : List HttpGroup) where
  cases_at-bucket_case :
      (o : Option Placement)
      → cases_at k (bucket_case o c gs) ≡ cases_at k gs ++ added (has_key o k) c
  unfolding bucket_case
  cases_at-bucket_case none = rw append-nil
  cases_at-bucket_case (some p) = by_kind p.kind
    where
      by_kind :
          (x : Kind)
          → cases_at k (if_http x (join_group p c gs) gs)
            ≡ cases_at k gs ++ added (if_http x (str_eq p.group_key k) false) c
      by_kind http = cases_at-join_group k p c gs
      by_kind cli = rw append-nil

  mem-keys_of-bucket_case :
      (o : Option Placement)
      → mem k (keys_of (bucket_case o c gs)) ≡ (has_key o k || mem k (keys_of gs))
  unfolding bucket_case
  mem-keys_of-bucket_case none = refl
  mem-keys_of-bucket_case (some p) = by_kind p.kind
    where
      by_kind :
          (x : Kind)
          → mem k (keys_of (if_http x (join_group p c gs) gs))
            ≡ (if_http x (str_eq p.group_key k) false || mem k (keys_of gs))
      by_kind http = mem-keys_of-join_group k p c gs
      by_kind cli = refl

distinct-join_group :
    (p : Placement) (c : Case) (gs : List HttpGroup)
    → distinct (keys_of gs) ≡ true
    → distinct (keys_of (join_group p c gs)) ≡ true
unfolding join_group new_group
distinct-join_group p c [] d = refl
distinct-join_group p c (g ∷ gs) d = elim (Bool-cases (str_eq g.key p.group_key)) [
  | inl same ↦ rw same d
  | inr other ↦
      let (fresh, rest) = and_true (not (mem g.key (keys_of gs))) (distinct (keys_of gs)) d in
      rw other (
        ground (
          arith,
          fresh,
          other,
          str_eq_iff g.key p.group_key,
          str_eq_iff p.group_key g.key,
          mem-keys_of-join_group g.key p c gs,
          distinct-join_group p c gs rest,
        ))
]

distinct-bucket_case :
    (o : Option Placement) (c : Case) (gs : List HttpGroup)
    → distinct (keys_of gs) ≡ true
    → distinct (keys_of (bucket_case o c gs)) ≡ true
unfolding bucket_case
distinct-bucket_case none c gs d = d
distinct-bucket_case (some p) c gs d = by_kind p.kind
  where
    by_kind : (x : Kind) → distinct (keys_of (if_http x (join_group p c gs) gs)) ≡ true
    by_kind http = distinct-join_group p c gs d
    by_kind cli = d

module _ (placements : ℤ → Option Placement) where
  bucket-cons :
      (gs : List HttpGroup) (c : Case) (cs : List Case)
      → bucket placements gs (c ∷ cs) ≡ bucket placements (bucket_case (placements c.id) c gs) cs
  unfolding bucket
  bucket-cons gs c cs = refl

  pub cases_at-bucket :
      (k : Bytes) (gs : List HttpGroup) (cs : List Case)
      → cases_at k (bucket placements gs cs) ≡ cases_at k gs ++ keep (routed_to placements k) cs
  cases_at-bucket k gs [] = unfold bucket in rw append-nil
  cases_at-bucket k gs (c ∷ cs) =
      rw
        (
          bucket-cons gs c cs,
          cases_at-bucket k (bucket_case (placements c.id) c gs) cs,
          cases_at-bucket_case k c gs (placements c.id),
        )
        (elim (Bool-cases (has_key (placements c.id) k)) [
          | inl here ↦ rw (here, append_assoc)
          | inr elsewhere ↦ rw (elsewhere, append-nil)
        ])

  pub mem-keys_of-bucket :
      (k : Bytes) (gs : List HttpGroup) (cs : List Case)
      → mem k (keys_of (bucket placements gs cs))
        ≡ (mem k (keys_of gs) || any (routed_to placements k) cs)
  mem-keys_of-bucket k gs [] = unfold bucket in ground arith
  mem-keys_of-bucket k gs (c ∷ cs) = rw (bucket-cons gs c cs) (
      ground (
        arith,
        mem-keys_of-bucket k (bucket_case (placements c.id) c gs) cs,
        mem-keys_of-bucket_case k c gs (placements c.id),
      ))

  pub distinct-bucket :
      (gs : List HttpGroup) (cs : List Case)
      → distinct (keys_of gs) ≡ true
      → distinct (keys_of (bucket placements gs cs)) ≡ true
  distinct-bucket gs [] d = unfold bucket in d
  distinct-bucket gs (c ∷ cs) d = rw (bucket-cons gs c cs) (
      distinct-bucket (bucket_case (placements c.id) c gs) cs
        (distinct-bucket_case (placements c.id) c gs d))
